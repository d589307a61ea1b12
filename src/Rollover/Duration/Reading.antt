-- ===== src/Rollover/Duration/Reading.antt =====
-- The texts that `duration` reads (scripts/service-rollover.py).
use map_service_infra.Base.{
  ℕ, ◌+◌, ◌*◌, ◌<◌, ◌≡◌, refl, ap, ◌∙◌, true, false, none, some, List, [], ◌∷◌, ◌++◌, arith,
}
use map_service_infra.Base.Lists.{All}
use map_service_infra.Base.Result.{ok}
use map_service_infra.Rollover.Float.{significand, float_of}
use map_service_infra.Rollover.Float.Exact.{float_of_whole, times_whole, plus_whole, int_whole}
use map_service_infra.Rollover.Duration.{
  is_digit, digits, numeral, unit_of, take_unit, whole_float, float_text, seconds_text, read,
  not_a_float, seconds_found, seconds_of, in_seconds, total, duration,
}

-- A numeral of one digit or more.
abbrev pub Digits : List ℕ → Type 0
Digits ds = All (λ c. is_digit c ≡ true) ds

digits_lem :
    (ds : List ℕ) (c : ℕ) (rest : List ℕ)
    → Digits ds
    → is_digit c ≡ false
    → digits (ds ++ (c ∷ rest)) ≡ (ds, c ∷ rest)
unfolding digits
digits_lem [] c rest j n = ground (arith, n)
digits_lem (d ∷ ds) c rest j n = rw (digits_lem ds c rest j.1 n, j.0) refl

all_digits : (ds : List ℕ) → Digits ds → digits ds ≡ (ds, [])
unfolding digits
all_digits [] j = refl
all_digits (d ∷ ds) j = rw (all_digits ds j.1, j.0) refl

take_unit_lem :
    (u d : ℕ) (ds rest : List ℕ)
    → Digits (d ∷ ds)
    → is_digit u ≡ false
    → take_unit u ((d ∷ ds) ++ (u ∷ rest)) ≡ (some (numeral 0 (d ∷ ds)), rest)
unfolding take_unit unit_of
take_unit_lem u d ds rest j n = rw (digits_lem (d ∷ ds) u rest j n) (ground (arith, n))

seconds_text_lem : (ds : List ℕ) → Digits ds → seconds_text (ds ++ (b's' ∷ [])) ≡ some ds
unfolding seconds_text
seconds_text_lem [] j = refl
seconds_text_lem (d ∷ []) j = rw j.0 refl
seconds_text_lem (d ∷ e ∷ ds) j = rw (seconds_text_lem (e ∷ ds) j.1, j.0) refl

text_lem :
    (d : ℕ) (ds : List ℕ)
    → Digits (d ∷ ds)
    → float_text (digits (d ∷ ds)) ≡ some (float_of (numeral 0 (d ∷ ds)) 1)
unfolding float_text whole_float
text_lem d ds j = ap float_text (all_digits (d ∷ ds) j)

found_lem :
    (d : ℕ) (ds : List ℕ)
    → Digits (d ∷ ds)
    → seconds_found (some (d ∷ ds)) ≡ read (float_of (numeral 0 (d ∷ ds)) 1)
unfolding seconds_found
found_lem d ds j = ap (λ o. elim o [ none ↦ not_a_float | some x ↦ read x ]) (text_lem d ds j)

seconds_lem :
    (d : ℕ) (ds : List ℕ)
    → Digits (d ∷ ds)
    → seconds_of ((d ∷ ds) ++ (b's' ∷ [])) ≡ read (float_of (numeral 0 (d ∷ ds)) 1)
unfolding seconds_of
seconds_lem d ds j = ap seconds_found (seconds_text_lem (d ∷ ds) j) ∙ found_lem d ds j

-- The floats are exact as long as the sum is below 2^53.
in_seconds_lem :
    (h m s : ℕ)
    → h * 3600 + m * 60 + s < significand
    → in_seconds h m (float_of s 1) ≡ ok (h * 3600 + m * 60 + s)
unfolding in_seconds
in_seconds_lem h m s small =
    rw
      (
        float_of_whole h (omega (arith, small)),
        float_of_whole m (omega (arith, small)),
        float_of_whole s (omega (arith, small)),
        times_whole h 3600 (omega (arith, small)),
        times_whole m 60 (omega (arith, small)),
        plus_whole (h * 3600) (m * 60) (omega (arith, small)),
        plus_whole (h * 3600 + m * 60) s small,
      )
      (int_whole (h * 3600 + m * 60 + s))

-- Hours, minutes and seconds written out, each with one digit or more, are read as that many
-- seconds, if these are fewer than 2^53.
pub duration_hms :
    (h m s : ℕ) (hs ms ss : List ℕ)
    → Digits (h ∷ hs)
    → Digits (m ∷ ms)
    → Digits (s ∷ ss)
    → numeral 0 (h ∷ hs) * 3600 + numeral 0 (m ∷ ms) * 60 + numeral 0 (s ∷ ss) < significand
    → duration ((h ∷ hs) ++ (b'h' ∷ ((m ∷ ms) ++ (b'm' ∷ ((s ∷ ss) ++ (b's' ∷ []))))))
      ≡ ok (numeral 0 (h ∷ hs) * 3600 + numeral 0 (m ∷ ms) * 60 + numeral 0 (s ∷ ss))
unfolding duration total
duration_hms h m s hs ms ss a b c small =
    rw
      (
        take_unit_lem b'h' h hs ((m ∷ ms) ++ (b'm' ∷ ((s ∷ ss) ++ (b's' ∷ [])))) a refl,
        take_unit_lem b'm' m ms ((s ∷ ss) ++ (b's' ∷ [])) b refl,
        seconds_lem s ss c,
      )
      (in_seconds_lem (numeral 0 (h ∷ hs)) (numeral 0 (m ∷ ms)) (numeral 0 (s ∷ ss)) small)
