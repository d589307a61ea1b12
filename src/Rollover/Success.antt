-- ===== src/Rollover/Success.antt =====
-- What a rollover that returns has left behind (scripts/service-rollover.py).
pub mod Run
use map_service_infra.Base.{
  ℕ, String, ◌≡◌, refl, Bool, true, false, Option, none, some, List, [], ◌∷◌, is_hex64, arith, ◌==◌,
  option_eq, nat_eq,
}
use map_service_infra.Base.Result.{Error, Result, ok, err}
use map_service_infra.Base.Exec.{Exec, attempt}
use map_service_infra.Base.Exec.Rules.{
  Post, Triple, Triple-bind, Triple-attempt, Triple-weaken, Triple-when, Triple-trivial,
  Triple-raise, Triple-pure, Triple-lift, Triple-modify,
}
use map_service_infra.Base.World.{Trace, Answer, call, Keeps, Triple-call}
use map_service_infra.Rollover.{
  Call, Host, State, Order, reload, recreate, sleep, public_request, health_request, state, stop,
  remove, unlink_override, nginx_test, unlink_if, remove_override, reload_proxy, settle,
  return_traffic, replace, on_failure, discard, clean, finally_clean, guarded, rollover, public_ok,
  when_failed, ask_state, place, after_test,
}
use map_service_infra.Rollover.Arguments.{Entry}
use map_service_infra.Rollover.Traffic.{Quiet}
use map_service_infra.Rollover.Traffic.Parts.{Keeps-if}

-- The last reload of the proxy succeeded and pointed at `o`.
abbrev pub Pointed : Option String → Trace Call → Type 0
Pointed o [] = ⊥
Pointed o ((reload p, done) ∷ t) = (p ≡ o) × (done ≡ true)
Pointed o (_ ∷ t) = Pointed o t

Pointed-stable :
    (o : Option String) (c : Call) (done : Bool) (t : Trace Call)
    → Quiet c
    → Pointed o t
    → Pointed o ((c, done) ∷ t)
Pointed-stable o recreate done t q j = absurd q
Pointed-stable o (reload p) done t q j = absurd q
Pointed-stable o (health_request host) done t q j = absurd q
Pointed-stable o _ done t q j = j

-- Nothing is asked of a run that ends by an error.
abbrev pub Returns : {A : Type 0} → (State → Type 0) → Exec State A → (State → Type 0) → Type 0
Returns P m Q = Triple P m (λ _ v. Q v) (λ _ _. Unit {0})

abbrev pub Anything : State → Type 0
Anything v = Unit {0}

pub some_run : {A : Type 0} {P : State → Type 0} (m : Exec State A) → Returns P m Anything
some_run m = Triple-trivial m

module _ (h : Host) where
  abbrev pub Back : State → Type 0
  Back v = (v.own.override ≡ none) × Pointed none v.trace

  abbrev Removed : State → Type 0
  Removed v = v.own.override ≡ none

  unlinked : (o : Option String) → Returns (λ v. v.own.override ≡ o) (unlink_if h o) Removed
  unfolding unlink_if
  unlinked none = Triple-pure tt (λ s j. j)
  unlinked (some t) =
      Triple-bind (λ _ v. Anything v)
        (Triple-call _ _ unlink_override h.unlink_override (λ w j a e. tt) (λ w j x e. tt))
        (λ _. Triple-modify _ (λ s j. refl))

  remove_override_returns : Returns Anything (remove_override h) Removed
  unfolding remove_override
  remove_override_returns =
      Triple-bind (λ o v. v.own.override ≡ o) (record { at = λ s j. refl }) unlinked

  tested : (good : Bool) → Returns Removed (after_test h good) Back
  unfolding after_test
  tested true =
      Triple-bind (λ o v. Removed v × (o ≡ none)) (record { at = λ s j. (j, j) })
        (λ o.
          Triple-call _ _ (reload o) (h.reload o) (λ w j a e. (j.0, (j.1, refl))) (λ w j x e. tt))
  tested false =
      Triple-bind (λ _ v. Anything v) (some_run (remove_override h))
        (λ _. Triple-raise _ (λ s j. tt))

  reload_returns : Returns Anything (reload_proxy h none) Back
  unfolding reload_proxy place
  reload_returns =
      Triple-bind (λ _ v. Anything v) (some_run _)
        (λ _.
          Triple-bind (λ _ v. Anything v) (some_run _)
            (λ m.
              Triple-bind (λ _ v. Anything v) (some_run _)
                (λ _.
                  Triple-bind (λ _ v. Removed v) remove_override_returns
                    (λ _.
                      Triple-bind (λ _ v. Removed v)
                        (Triple-call _ _ nginx_test h.nginx_test (λ w j a e. j) (λ w j x e. tt))
                        tested))))

  -- The report says PASS.
  abbrev pub Passed : State → Type 0
  Passed v = Back v × (v.own.status ≡ some "PASS")

  pub on_back :
      {A : Type 0} (P : State → Type 0) (c : Call) (f : Answer Call A)
      → ((w : State) (done : Bool) → P w → P (record w { trace = (c, done) ∷ w.trace }))
      → Keeps P (call c f)
  on_back P c f k =
      Triple-call (λ _ v. P v) (λ _ v. P v) c f (λ w j a e. k w true j) (λ w j x e. k w false j)

  probes_keep : (probes : List (String × ℕ)) → Keeps Back (public_ok h probes)
  unfolding public_ok
  probes_keep [] = Triple-pure none (λ s j. j)
  probes_keep ((url, expected) ∷ rest) =
      Triple-bind (λ _ v. Back v)
        (Triple-attempt (λ _ v. Back v)
          (Triple-bind (λ _ v. Back v)
            (on_back Back (public_request url) (h.public_request url) (λ w done j. j))
            (λ s. Triple-pure (some s) (λ v j. j)))
          (λ e. Triple-pure none (λ v j. j)))
        (λ status.
          Keeps-if (status == some expected) (probes_keep rest) (Triple-pure (some url) (λ v j. j)))

  settle_returns : (o : Order) (code : String) → Returns Back (settle h o code) Back
  unfolding settle when_failed
  settle_returns o code =
      Triple-bind (λ _ v. Back v) (Triple-call _ _ sleep h.sleep (λ w j a e. j) (λ w j x e. tt))
        (λ _.
          Triple-bind (λ _ v. Back v)
            (Triple-weaken (λ _ v. Back v) (λ _ v. Back v) (probes_keep o.probes) (λ s j. j)
              (λ _ s j. j) (λ _ s j. tt))
            told)
    where
      told : (failed : Option String) → Returns Back (when_failed h code failed) Back
      told none = Triple-pure tt (λ s j. j)
      told (some url) = Triple-raise _ (λ s j. tt)

  pub return_traffic_returns : (o : Order) → Returns Anything (return_traffic h o) Passed
  unfolding return_traffic
  return_traffic_returns o =
      Triple-bind (λ _ v. Back v) reload_returns
        (λ _.
          Triple-bind (λ _ v. Back v) (Triple-modify _ (λ s j. j))
            (λ _.
              Triple-bind (λ _ v. Back v) (Triple-modify _ (λ s j. j))
                (λ _.
                  Triple-bind (λ _ v. Back v) (settle_returns o _)
                    (λ _.
                      Triple-bind (λ _ v. Back v) (Triple-modify _ (λ s j. j))
                        (λ _. Triple-modify _ (λ s j. (j, refl)))))))
