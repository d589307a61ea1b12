-- ===== src/Rollover/Float/Exact.antt =====
-- Whole numbers below 2^53 are floats (scripts/service-rollover.py computes with both).
use map_service_infra.Base.{
  ℕ, zero, suc, ◌+◌, ◌*◌, ◌^◌, ◌<◌, ◌≤◌, ◌≡◌, ◌∙◌, sym, subst, ap, Bool, true, false, some, ltb,
  arith,
}
use map_service_infra.Base.Result.{ok}
use native.Mathlib.Nat.{mul-div_cancel, mul-mod_left, mul-lt-mul_of_pos_right, pow-suc}
use map_service_infra.Rollover.Float.{
  Float, units, significand, nearest, twice, rounded, doublings, float_of, times, plus, int_of,
}

nearest_whole : (m d : ℕ) → 0 < d → nearest (m * d) d ≡ m
unfolding nearest
nearest_whole m d pos = rw (mul-div_cancel m pos, mul-mod_left m d) (ground (arith, pos))

nearest_of : (n m d : ℕ) → 0 < d → n ≡ m * d → nearest n d ≡ m
nearest_of n m d pos e = ap (λ x. nearest x d) e ∙ nearest_whole m d pos

-- The next unit, if the number is too large for this one.
round_up :
    (b : Bool) (fuel n m d half : ℕ)
    → 0 < d
    → n ≡ m * d
    → m ≡ half * 2
    → rounded fuel n (d * 2) ≡ some half
    → (elim b [ true ↦ some (nearest n d) | false ↦ twice (rounded fuel n (d * 2)) ]) ≡ some m
unfolding twice
round_up true fuel n m d half pos e two r = ap some (nearest_of n m d pos e)
round_up false fuel n m d half pos e two r = ap twice r ∙ ap some (sym two)

fits_now :
    (b : Bool) (fuel n m d : ℕ)
    → 0 < d
    → n ≡ m * d
    → b ≡ true
    → (elim b [ true ↦ some (nearest n d) | false ↦ twice (rounded fuel n (d * 2)) ]) ≡ some m
fits_now true fuel n m d pos e t = ap some (nearest_of n m d pos e)
fits_now false fuel n m d pos e t = absurd (ground (arith, t))

below : (n k d : ℕ) → k < significand → 0 < d → n ≡ k * 1 * d → ltb n (significand * d) ≡ true
below n k d small pos e = ground (arith, mul-lt-mul_of_pos_right small pos, e)

halved : (k p d : ℕ) → k * (p * 2) * d ≡ k * p * (d * 2)
halved k p d = omega arith

even : (k p : ℕ) → k * (p * 2) ≡ k * p * 2
even k p = omega arith

-- A number of fewer than 2^53 units of 2^j is a float.
rounded_whole :
    (j fuel k n d : ℕ)
    → j ≤ fuel
    → k < significand
    → 0 < d
    → n ≡ k * 2 ^ j * d
    → rounded fuel n d ≡ some (k * 2 ^ j)
unfolding rounded
rounded_whole zero zero k n d enough small pos e =
    rw (nearest_of n (k * 1) d pos e) (ground (arith, small))
rounded_whole zero (suc fuel) k n d enough small pos e =
    fits_now (ltb n (significand * d)) fuel n (k * 1) d pos e (below n k d small pos e)
rounded_whole (suc j) zero k n d enough small pos e = absurd (omega (arith, enough))
rounded_whole (suc j) (suc fuel) k n d enough small pos e =
    subst (λ p. n ≡ k * p * d → rounded (suc fuel) n d ≡ some (k * p)) (sym (pow-suc 2 j))
      (λ q.
        round_up (ltb n (significand * d)) fuel n (k * (2 ^ j * 2)) d (k * 2 ^ j) pos q
          (even k (2 ^ j))
          (rounded_whole j fuel k n (d * 2) (omega (arith, enough)) small (omega (arith, pos))
            (q ∙ halved k (2 ^ j) d)))
      e

-- Below 2^53 the floats add and multiply as the whole numbers do.
abbrev pub of_ℕ : ℕ → Float
of_ℕ n = some (n * units)

pub float_of_whole : (n : ℕ) → n < significand → float_of n 1 ≡ of_ℕ n
unfolding float_of
float_of_whole n small =
    rounded_whole 1074 doublings n (n * units) 1 (omega arith) small (omega arith) (omega arith)

pub times_whole : (n m : ℕ) → n * m < significand → times (of_ℕ n) m 1 ≡ of_ℕ (n * m)
unfolding times
times_whole n m small =
    rounded_whole 1074 doublings (n * m) (n * units * m) 1 (omega arith) small (omega arith)
      (regroup n m units)
  where
    regroup : (n m u : ℕ) → n * u * m ≡ n * m * u * 1
    regroup n m u = omega arith

pub plus_whole : (n m : ℕ) → n + m < significand → plus (of_ℕ n) (of_ℕ m) ≡ of_ℕ (n + m)
unfolding plus
plus_whole n m small =
    rounded_whole 1074 doublings (n + m) (n * units + m * units) 1 (omega arith) small (omega arith)
      (sum n m units)
  where
    sum : (n m u : ℕ) → n * u + m * u ≡ (n + m) * u * 1
    sum n m u = omega arith

pub int_whole : (n : ℕ) → int_of (of_ℕ n) ≡ ok n
unfolding int_of
int_whole n = ap ok (mul-div_cancel n units_positive)
  where
    units_positive : 0 < units
    units_positive = omega arith
