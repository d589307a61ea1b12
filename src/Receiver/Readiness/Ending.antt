-- ===== src/Receiver/Readiness/Ending.antt =====
-- The rounds of the wait for public readiness of scripts/deploy-gcp.py, `wait_public_readiness`, against
-- its clock.
use map_service_infra.Base.{
  ℕ, zero, suc, ◌+◌, ◌-◌, ◌*◌, ◌≤◌, min, ◌≡◌, ◌≢◌, refl, Bool, true, arith, ltb→lt, ◌∷◌,
}
use map_service_infra.Base.Result.{Result, ok, err}
use map_service_infra.Base.Exec.{Exec}
use map_service_infra.Base.Exec.Rules.{
  Post, Triple, Triple-bind, Triple-pure, Triple-require, Triple-weaken, Triple-skip,
}
use map_service_infra.Base.World.{Trace, call, Triple-call}
use map_service_infra.Base.Quiet.{Stable, IsQuiet-call, Triple-quiet}
use map_service_infra.Receiver.Model.{Site, Host, Call, State, clock, sleep, report, aside}
use map_service_infra.Receiver.Readiness.{
  Verdict, ready, unready, Ended, complete, exhausted, remaining_smoke_time, finish, back_off,
  after_round, wait_loop, rounds, public_probes, smoke_milliseconds,
}
use map_service_infra.Receiver.Readiness.Quiet.{round-IsQuiet}

complete_exhausted : complete ≢ exhausted
complete_exhausted e = absurd (ground (arith, e))

module _ (h : Host) (time : Trace Call → ℕ) (read : (t : Trace Call) → h.now t ≡ ok (time t))
    (forward : (c : Call) (done : Bool) (t : Trace Call) → time t ≤ time ((c, done) ∷ t))
    (slept : (n : ℕ) (t : Trace Call) → time t + n ≤ time ((sleep n, true) ∷ t)) where
  -- The deadline is no further than the quarters of a second.
  abbrev InTime : ℕ → ℕ → Trace Call → Type 0
  InTime deadline n t = deadline ≤ time t + 250 * n

  InTime-stable : (deadline n : ℕ) → Stable aside (InTime deadline n)
  InTime-stable deadline n c done t k j = later (forward c done t) j
    where
      later : {a b d : ℕ} → a ≤ b → d ≤ a + 250 * n → d ≤ b + 250 * n
      later p q = omega arith

  -- Time is left, and how much.
  abbrev HasTime : ℕ → ℕ → ℕ → Trace Call → Type 0
  HasTime deadline n left t = InTime deadline n t × ((1 ≤ n) × (deadline ≤ time t + left))

  remaining_lem :
      (deadline n : ℕ)
      → Triple
          (λ w. InTime deadline n w.trace)
          (remaining_smoke_time h deadline)
          (λ left w. HasTime deadline n left w.trace)
          (λ _ _. Unit {0})
  unfolding remaining_smoke_time
  remaining_lem deadline n =
      Triple-bind
        (λ now w. InTime deadline n w.trace × ((deadline ≤ now + 250 * n) × (now ≤ time w.trace)))
        (Triple-call _ _ clock h.now
          (λ w j now e. (
            InTime-stable deadline n clock true w.trace refl j,
            found now (time w.trace) (time ((clock, true) ∷ w.trace)) (read w.trace) e
                (forward clock true w.trace) j,
          ))
          (λ w j x e. tt))
        (λ now.
          Triple-bind (λ _ w. HasTime deadline n (deadline - now) w.trace)
            (Triple-require _ _
              (λ e w j. (j.0, enough now (time w.trace) (ltb→lt now deadline e) j.1.0 j.1.1))
              (λ e w j. tt))
            (λ _. Triple-pure _ (λ w j. j)))
    where
      found :
          {r : Result ℕ} (now a b : ℕ)
          → r ≡ ok a
          → r ≡ ok now
          → a ≤ b
          → deadline ≤ a + 250 * n
          → (deadline ≤ now + 250 * n) × (now ≤ b)
      found now a b p q l j = ground (arith, p, q, l, j)

      enough :
          (now b : ℕ)
          → suc now ≤ deadline
          → deadline ≤ now + 250 * n
          → now ≤ b
          → (1 ≤ n) × (deadline ≤ b + (deadline - now))
      enough now b p q l = (omega arith, omega arith)

  -- A pause of the delay, or of what is left, brings the deadline nearer.
  nearer :
      (deadline m delay left a b : ℕ)
      → 250 ≤ delay
      → deadline ≤ a + 250 * suc m
      → deadline ≤ a + left
      → a + min delay left ≤ b
      → deadline ≤ b + 250 * m
  nearer deadline m delay left a b d j k l = omega arith

  -- For `n` it is a number above, since time is left.
  abbrev Next : ℕ → ℕ → Trace Call → Type 0
  Next deadline zero t = ⊥
  Next deadline (suc m) t = InTime deadline m t

  pause_lem :
      (deadline n delay left : ℕ)
      → 250 ≤ delay
      → Triple
          (λ w. HasTime deadline n left w.trace)
          (call {O = Bool} (sleep (min delay left)) (h.sleep (min delay left)))
          (λ _ w. Next deadline n w.trace)
          (λ _ _. Unit {0})
  pause_lem deadline zero delay left d =
      Triple-call _ _ (sleep _) (h.sleep _) (λ w j a e. none_left j.1.0) (λ w j x e. tt)
    where
      none_left : {X : Type 0} → 1 ≤ 0 → X
      none_left l = absurd (omega arith)
  pause_lem deadline (suc m) delay left d =
      Triple-call _ _ (sleep _) (h.sleep _)
        (λ w j a e.
          nearer deadline m delay left (time w.trace) (time ((sleep _, true) ∷ w.trace)) d j.0 j.1.1
            (slept (min delay left) w.trace))
        (λ w j x e. tt)

  back_off_lem :
      (deadline n delay : ℕ) (retryable : Bool)
      → 250 ≤ delay
      → Triple
          (λ w. InTime deadline n w.trace)
          (back_off h deadline delay retryable)
          (λ _ w. Next deadline n w.trace)
          (λ _ _. Unit {0})
  unfolding back_off
  back_off_lem deadline n delay retryable d =
      Triple-bind (λ _ w. InTime deadline n w.trace)
        (Triple-quiet (λ _ t. InTime deadline n t) (λ o. InTime-stable deadline n) (λ e w j. tt)
          (IsQuiet-call (report _) (h.report _) refl))
        (λ _.
          Triple-bind (λ _ w. InTime deadline n w.trace)
            (Triple-require retryable _ (λ e w j. j) (λ e w j. tt))
            (λ _.
              Triple-bind (λ left w. HasTime deadline n left w.trace) (remaining_lem deadline n)
                (λ left. pause_lem deadline n delay left d)))

  abbrev Ends : (Trace Call → Type 0) → Exec State Ended → Type 0
  Ends P m = Triple (λ w. P w.trace) m (λ e _. e ≢ exhausted) (λ _ _. Unit {0})

  after_round_lem :
      (deadline n delay : ℕ) (v : Verdict) (again : Unit {0} → Exec State Ended)
      → 250 ≤ delay
      → ((u : Unit {0}) → Ends (Next deadline n) (again u))
      → Ends (InTime deadline n) (after_round h deadline delay v again)
  unfolding after_round finish
  after_round_lem deadline n delay ready again d t =
      Triple-skip _ (λ _. Triple-pure _ (λ w j. complete_exhausted))
  after_round_lem deadline n delay (unready c k r) again d t =
      Triple-bind (λ _ w. Next deadline n w.trace) (back_off_lem deadline n delay r d) t

  -- The next delay is no shorter than the first.
  longer : (delay : ℕ) → 250 ≤ delay → 250 ≤ min (delay * 2) 2000
  longer delay d = omega arith

  wait_step :
      (n : ℕ) (s : Site) (deadline delay : ℕ)
      → 250 ≤ delay
      → Ends (Next deadline n) (wait_loop h n s deadline (min (delay * 2) 2000))
      → Ends (InTime deadline n) (wait_loop h (suc n) s deadline delay)
  unfolding wait_loop
  wait_step n s deadline delay d again =
      Triple-bind (λ _ w. InTime deadline n w.trace)
        (Triple-weaken (λ left w. HasTime deadline n left w.trace) (λ _ _. Unit {0})
          (remaining_lem deadline n) (λ w j. j) (λ _ w j. j.0) (λ _ w j. j))
        (λ _.
          Triple-bind (λ _ w. InTime deadline n w.trace)
            (Triple-quiet (λ _ t. InTime deadline n t) (λ o. InTime-stable deadline n) (λ e w j. tt)
              (round-IsQuiet h s deadline public_probes))
            (λ v. after_round_lem deadline n delay v _ d (λ _. again)))

  wait_loop_lem :
      (n : ℕ) (s : Site) (deadline delay : ℕ)
      → 250 ≤ delay
      → Ends (Next deadline n) (wait_loop h n s deadline delay)
  wait_loop_lem zero s deadline delay d = record { at = λ w j. absurd j }
  wait_loop_lem (suc m) s deadline delay d =
      wait_step m s deadline delay d
        (wait_loop_lem m s deadline (min (delay * 2) 2000) (longer delay d))

  never :
      (r : Result Ended) (w : State)
      → Post (λ e _. e ≢ exhausted) (λ _ _. Unit {0}) r w
      → r ≢ ok exhausted
  never (ok a) w j e = j (ground (arith, e))
  never (err x) w j e = ground (arith, e)

  -- Where the clock can be read and never runs back, and a pause lasts at least as long as it is asked
  -- to, the wait for public readiness with a deadline of at most ninety seconds ahead is over before
  -- its rounds are used up, whatever the probes answer.
  pub wait_loop_ends :
      (s : Site) (deadline : ℕ) (w : State)
      → deadline ≤ time w.trace + smoke_milliseconds
      → (wait_loop h (rounds h) s deadline 250 w).0 ≢ ok exhausted
  wait_loop_ends s deadline w j =
      never (wait_loop h (rounds h) s deadline 250 w).0 (wait_loop h (rounds h) s deadline 250 w).1
        ((wait_loop_lem 361 s deadline 250 (omega arith)).at w j)
