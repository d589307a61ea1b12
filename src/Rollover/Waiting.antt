-- ===== src/Rollover/Waiting.antt =====
-- The two loops of scripts/service-rollover.py that wait for a container, `wait_healthy` and `probe`,
-- come to an end: fuel of one more than the seconds to wait is never used up.
pub mod Requests
use map_service_infra.Base.{
  ℕ, zero, suc, ◌+◌, ◌≤◌, String, ◌≡◌, ◌≢◌, refl, sym, Bool, true, false, arith, ltb, leb, eqb,
  ◌||◌, List, ◌∷◌, ◌==◌, string_eq, ltb→lt, if◌then◌else◌,
}
use map_service_infra.Base.Result.{Error, coded, other, Result, ok, err}
use map_service_infra.Base.Exec.{Exec, pure, raise, gets, require, ◌>>=◌, ◌>>◌, attempt}
use map_service_infra.Base.Exec.Rules.{
  Post, Triple, Triple-bind, Triple-pure, Triple-raise, Triple-require, Triple-weaken, Triple-if,
}
use map_service_infra.Base.World.{Trace, World, call, push, Triple-call}
use map_service_infra.Rollover.{
  Call, Host, State, state, sleep, health_request, ContainerState, is_healthy, wait_loop,
  wait_healthy, ask_state, health_status, probe_loop, probe,
}

abbrev Told : Error → Type 0
Told (coded c) = Unit
Told other = ⊥

abbrev HasTold {ℓ} : {A : Type ℓ} → Result A → Type 0
HasTold (ok a) = Unit
HasTold (err e) = Told e

module _ (h : Host) (sleeps : (t : Trace Call) → h.sleep t ≡ ok tt)
    (later : (t : Trace Call) → suc (h.now t) ≤ h.now ((sleep, true) ∷ t)) where
  -- Time left of the fuel after the calls.
  abbrev pub InTime : ℕ → ℕ → State → Type 0
  InTime deadline fuel v = deadline ≤ h.now v.trace + fuel

  after_sleep :
      (deadline fuel : ℕ)
      → Triple
          (InTime deadline (suc fuel))
          (call sleep h.sleep)
          (λ _ v. InTime deadline fuel v)
          (λ e _. Told e)
  after_sleep deadline fuel =
      Triple-call _ _ sleep h.sleep (λ w j a e. closer w (later w.trace) j)
        (λ w j x e. ground (arith, sleeps w.trace, e))
    where
      closer :
          (w : State)
          → suc (h.now w.trace) ≤ h.now ((sleep, true) ∷ w.trace)
          → InTime deadline (suc fuel) w
          → InTime deadline fuel (push sleep true w)
      closer w l j = omega arith

  module _ (told : (cid : String) (t : Trace Call) → HasTold (h.state cid t))
      (polled : (cid : String) (done : Bool) (t : Trace Call)
        → h.now t ≤ h.now ((state cid, done) ∷ t)) where
    -- The poll of the container: it is not late for what `v` had left.
    ask_ends :
        (cid : String) (deadline fuel : ℕ)
        → Triple
            (InTime deadline fuel)
            (ask_state h cid)
            (λ _ v. InTime deadline fuel v)
            (λ e _. Told e)
    unfolding ask_state
    ask_ends cid deadline fuel =
        Triple-call _ _ (state cid) (h.state cid)
          (λ w j a e. later_still w (polled cid true w.trace) j)
          (λ w j x e. told_error (h.state cid w.trace) (told cid w.trace) x e)
      where
        later_still :
            (w : State)
            → h.now w.trace ≤ h.now ((state cid, true) ∷ w.trace)
            → InTime deadline fuel w
            → InTime deadline fuel (push (state cid) true w)
        later_still w l j = omega arith

        told_error : {A : Type 0} (r : Result A) → HasTold r → (e : Error) → r ≡ err e → Told e
        told_error (ok a) k e q = ground (arith, q)
        told_error (err x) k e q = ground (arith, q, k)

    Ends : {A : Type 0} → (State → Type 0) → Exec State A → Type 0
    Ends P m = Triple P m (λ _ _. Unit {0}) (λ e _. Told e)

    unfoldable wait_body : ℕ → String → ℕ → Exec State ContainerState
    wait_body n cid deadline = do
      last ← ask_state h cid
      require last.running "rollover_container_exited"
      if is_healthy last.health
          then pure last
          else (do call sleep h.sleep; wait_loop h n cid deadline)

    sleep_on :
        (n : ℕ) (cid : String) (deadline : ℕ)
        → Ends (InTime deadline n) (wait_loop h (suc n) cid deadline)
        → Ends (InTime deadline (suc n)) (do call sleep h.sleep; wait_loop h (suc n) cid deadline)
    unfolding Ends
    sleep_on n cid deadline again =
        Triple-bind (λ _ v. InTime deadline n v) (after_sleep deadline n) (λ _. again)

    body-Ends :
        (n : ℕ) (cid : String) (deadline : ℕ)
        → Ends (InTime deadline n) (wait_loop h (suc n) cid deadline)
        → Ends (InTime deadline (suc n)) (wait_body (suc n) cid deadline)
    unfolding Ends wait_body
    body-Ends n cid deadline again =
        Triple-bind (λ _ v. InTime deadline (suc n) v) (ask_ends cid deadline (suc n))
          (λ last.
            Triple-bind (λ _ v. InTime deadline (suc n) v)
              (Triple-require _ _ (λ e s j. j) (λ e s j. tt))
              (λ _.
                Triple-if _ (λ e. Triple-pure last (λ s j. tt))
                  (λ e. sleep_on n cid deadline again)))

    loop-Ends :
        (n : ℕ) (cid : String) (deadline : ℕ)
        → ((t : ℕ)
            → ltb t deadline ≡ true
            → Ends (λ v. InTime deadline n v × (t ≡ h.now v.trace)) (wait_body n cid deadline))
        → Ends (InTime deadline n) (wait_loop h (suc n) cid deadline)
    unfolding wait_loop Ends wait_body
    loop-Ends n cid deadline body =
        Triple-bind (λ t v. InTime deadline n v × (t ≡ h.now v.trace))
          (record { at = λ w j. (j, refl) })
          (λ t. Triple-if (ltb t deadline) (body t) (λ e. Triple-raise _ (λ s j. tt)))

    wait_loop-Ends :
        (fuel : ℕ) (cid : String) (deadline : ℕ)
        → Ends (InTime deadline fuel) (wait_loop h (suc fuel) cid deadline)
    unfolding Ends
    wait_loop-Ends zero cid deadline =
        loop-Ends zero cid deadline
          (λ t e. record { at = λ w j. absurd (ground (arith, ltb→lt t deadline e, j.0, j.1)) })
    wait_loop-Ends (suc n) cid deadline = loop-Ends (suc n) cid deadline (λ t e.
        Triple-weaken (λ _ _. Unit {0}) (λ x _. Told x)
          (body-Ends n cid deadline (wait_loop-Ends n cid deadline)) (λ s j. j.0) (λ _ _ j. j)
          (λ _ _ j. j))

    told_lem :
        {A : Type 0} (r : Result A) (v : State)
        → Post (λ _ _. Unit {0}) (λ e _. Told e) r v
        → r ≢ err other
    told_lem (ok a) v j q = ground (arith, q)
    told_lem (err (coded c)) v j q = ground (arith, q)
    told_lem (err other) v j q = absurd j

    -- Where the clock advances by a second or more for each sleep and never runs back over a poll,
    -- and docker answers each poll or fails with a message, fuel of one more than the seconds to
    -- wait is enough: the wait ends with a state or with an error of its own, never for lack of fuel.
    pub wait_healthy_ends :
        (fuel seconds : ℕ) (cid : String) (w : State)
        → seconds ≤ fuel
        → (wait_healthy h (suc fuel) cid seconds w).0 ≢ err other
    unfolding wait_healthy ◌>>=◌ Ends
    wait_healthy_ends fuel seconds cid w enough =
        told_lem _ _
          ((wait_loop-Ends fuel cid (h.now w.trace + seconds)).at w (ground (arith, enough)))
