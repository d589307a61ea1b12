-- ===== src/Rollover/Waiting/Requests.antt =====
-- `probe` of scripts/service-rollover.py, the loop that asks a container for its health page.
use map_service_infra.Base.{
  ℕ, zero, suc, ◌+◌, ◌≤◌, String, ◌≡◌, refl, Bool, true, false, arith, leb, eqb, ◌||◌, ◌∷◌,
  string_eq,
}
use map_service_infra.Base.Result.{Result, ok, err}
use map_service_infra.Base.Exec.{Exec, ◌>>=◌, ◌>>◌, attempt}
use map_service_infra.Base.Exec.Rules.{
  Triple-if, Post, Triple, Triple-bind, Triple-pure, Triple-weaken,
}
use map_service_infra.Base.World.{Trace, call, push, Triple-call}
use map_service_infra.Rollover.{
  Call, Host, State, sleep, health_request, health_status, probe_loop, probe,
}
use map_service_infra.Rollover.Waiting.{InTime}

module _ (h : Host) (sleeps : (t : Trace Call) → h.sleep t ≡ ok tt)
    (later : (t : Trace Call) → suc (h.now t) ≤ h.now ((sleep, true) ∷ t)) where
  module _
      (asked : (host : String) (done : Bool) (t : Trace Call)
        → h.now t ≤ h.now ((health_request host, done) ∷ t)) where
    Answers : {A : Type 0} → (State → Type 0) → Exec State A → Type 0
    Answers P m = Triple P m (λ _ _. Unit {0}) (λ _ _. ⊥)

    request_ends :
        (host : String) (deadline fuel : ℕ)
        → Triple
            (InTime h sleeps later deadline fuel)
            (health_status h host)
            (λ _ v. InTime h sleeps later deadline fuel v)
            (λ _ _. ⊥)
    unfolding health_status attempt
    request_ends host deadline fuel = record {
      at = λ w j. ground (arith, asked host true w.trace, asked host false w.trace, j);
    }

    sleep-Answers :
        (n : ℕ) (host : String) (deadline : ℕ)
        → Answers (InTime h sleeps later deadline n) (probe_loop h (suc n) host deadline)
        → Answers
            (InTime h sleeps later deadline (suc n))
            (do call sleep h.sleep; probe_loop h (suc n) host deadline)
    unfolding Answers
    sleep-Answers n host deadline again =
        Triple-bind (λ _ v. InTime h sleeps later deadline n v)
          (Triple-call _ _ sleep h.sleep (λ w j a e. closer w (later w.trace) j)
            (λ w j x e. ground (arith, sleeps w.trace, e)))
          (λ _. again)
      where
        closer :
            (w : State)
            → suc (h.now w.trace) ≤ h.now ((sleep, true) ∷ w.trace)
            → InTime h sleeps later deadline (suc n) w
            → InTime h sleeps later deadline n (push sleep true w)
        closer w l j = omega arith

    probe_round :
        (n : ℕ) (host : String) (deadline : ℕ)
        → ((t : ℕ)
            → leb deadline t ≡ false
            → Answers
                (λ v. InTime h sleeps later deadline n v × (t ≡ h.now v.trace))
                (do call sleep h.sleep; probe_loop h n host deadline))
        → Answers (InTime h sleeps later deadline n) (probe_loop h (suc n) host deadline)
    unfolding probe_loop Answers
    probe_round n host deadline body =
        Triple-bind (λ _ v. InTime h sleeps later deadline n v) (request_ends host deadline n)
          (λ status.
            Triple-bind (λ t v. InTime h sleeps later deadline n v × (t ≡ h.now v.trace))
              (record { at = λ w j. (j, refl) })
              (λ t.
                Triple-if (eqb status 200 || leb deadline t) (λ e. Triple-pure status (λ s j. tt))
                  (λ e. body t (late status t e))))
      where
        late : (status t : ℕ) → (eqb status 200 || leb deadline t) ≡ false → leb deadline t ≡ false
        late status t e = ground arith

    probe_loop_ends :
        (fuel : ℕ) (host : String) (deadline : ℕ)
        → Answers (InTime h sleeps later deadline fuel) (probe_loop h (suc fuel) host deadline)
    unfolding Answers
    probe_loop_ends zero host deadline =
        probe_round zero host deadline
          (λ t e. record { at = λ w j. absurd (ground (arith, e, j.0, j.1)) })
    probe_loop_ends (suc n) host deadline = probe_round (suc n) host deadline (λ t e.
        Triple-weaken (λ _ _. Unit {0}) (λ _ _. ⊥)
          (sleep-Answers n host deadline (probe_loop_ends n host deadline)) (λ s j. j.0)
          (λ _ _ j. j) (λ _ _ j. j))

    ok_lem :
        (r : Result ℕ) (v : State) → Post (λ _ _. Unit {0}) (λ _ _. ⊥) r v → (s : ℕ) × (r ≡ ok s)
    ok_lem (ok a) v j = (a, refl)
    ok_lem (err e) v j = absurd j

    -- Where each sleep takes a second or more and the clock never runs back over a request, fuel of
    -- one more than the seconds to wait is enough for `probe`: it returns a status whatever the
    -- container answers, so neither a failed request nor a lack of fuel leaves it by an error.
    pub probe_ends :
        (fuel seconds : ℕ) (host : String) (w : State)
        → seconds ≤ fuel
        → (s : ℕ) × ((probe h (suc fuel) host seconds w).0 ≡ ok s)
    unfolding probe ◌>>=◌ Answers
    probe_ends fuel seconds host w enough =
        ok_lem _ _
          ((probe_loop_ends fuel host (h.now w.trace + seconds)).at w (ground (arith, enough)))
