-- ===== src/Rollover/Success/Run.antt =====
-- The end of a whole rollover (scripts/service-rollover.py).
use map_service_infra.Base.{
  ℕ, String, ◌≡◌, Option, none, some, List, is_hex64, arith, option_eq, nat_eq,
}
use map_service_infra.Base.Result.{Error, Result, ok, err}
use map_service_infra.Base.Exec.{attempt}
use map_service_infra.Base.Exec.Rules.{
  Post, Triple-bind, Triple-attempt, Triple-weaken, Triple-when, Triple-raise, Triple-pure,
  Triple-lift, Triple-modify,
}
use map_service_infra.Base.World.{Keeps}
use map_service_infra.Rollover.{
  Host, State, Order, state, stop, remove, replace, on_failure, discard, clean, finally_clean,
  guarded, rollover, ask_state,
}
use map_service_infra.Rollover.Arguments.{Entry}
use map_service_infra.Rollover.Traffic.Parts.{Keeps-if}
use map_service_infra.Rollover.Success.{
  Pointed, Returns, Anything, some_run, Passed, on_back, return_traffic_returns,
}

module _ (h : Host) where
  discard-Keeps-Passed :
      (o : Order) (drain : ℕ) (green : String) → Keeps (Passed h) (discard h o drain green)
  unfolding discard ask_state
  discard-Keeps-Passed o drain green =
      Triple-attempt (λ _ v. Passed h v)
        (Triple-bind (λ _ v. Passed h v)
          (on_back h (Passed h) (state green) (h.state green) (λ w done j. j))
          (λ s.
            Triple-bind (λ _ v. Passed h v)
              (Triple-when s.running _
                (λ _. on_back h (Passed h) (stop drain green) (h.stop drain green) (λ w done j. j))
                (λ _ v j. j))
              (λ _.
                Triple-bind (λ _ v. Passed h v)
                  (on_back h (Passed h) (remove green) (h.remove green) (λ w done j. j))
                  (λ _. Triple-modify _ (λ v j. j)))))
        (λ _. Triple-modify _ (λ v j. j))

  clean-Keeps-Passed :
      (o : Order) (drain : ℕ) (g : Option String) → Keeps (Passed h) (clean h o drain g)
  unfolding clean
  clean-Keeps-Passed o drain none = Triple-pure tt (λ s j. j)
  clean-Keeps-Passed o drain (some green) =
      Keeps-if (is_hex64 green) (discard-Keeps-Passed o drain green) (Triple-pure tt (λ s j. j))

  -- What the `finally` block leaves of a run that returned.
  finally_returns :
      (o : Order) (drain : ℕ) → Returns (Passed h) (finally_clean h o drain (ok tt)) (Passed h)
  unfolding finally_clean
  finally_returns o drain =
      Triple-bind (λ _ v. Passed h v) (record { at = λ s j. j })
        (λ g.
          Triple-bind (λ _ v. Passed h v)
            (Triple-weaken (λ _ v. Passed h v) (λ _ v. Passed h v) (clean-Keeps-Passed o drain g)
              (λ s j. j) (λ _ s j. j) (λ _ s j. tt))
            (λ _. Triple-lift (ok tt) (λ s j. j)))

  finally_raises :
      (o : Order) (drain : ℕ) (e : Error)
      → Returns Anything (finally_clean h o drain (err e)) (Passed h)
  unfolding finally_clean
  finally_raises o drain e =
      Triple-bind (λ _ v. Anything v) (some_run _)
        (λ g. Triple-bind (λ _ v. Anything v) (some_run _) (λ _. Triple-lift (err e) (λ s j. tt)))

  on_failure_raises : (o : Order) (e : Error) → Returns Anything (on_failure h o e) (Passed h)
  unfolding on_failure
  on_failure_raises o e =
      Triple-bind (λ _ v. Anything v) (some_run _)
        (λ _.
          Triple-bind (λ _ v. Anything v) (some_run _)
            (λ s. Triple-bind (λ _ v. Anything v) (some_run _) (λ _. Triple-raise e (λ v j. tt))))

  module _ (o : Order) (entry : Entry) (blue identity : String) (joined : List String)
      (drain : ℕ) where
    replace_returns : Returns Anything (replace h o entry blue identity joined drain) (Passed h)
    unfolding replace
    replace_returns =
        Triple-bind (λ _ v. Anything v) (some_run _)
          (λ _.
            Triple-bind (λ _ v. Anything v) (some_run _)
              (λ _. Triple-bind (λ _ v. Anything v) (some_run _) (λ _. return_traffic_returns h o)))

    guarded_returns : Returns Anything (guarded h o entry blue identity joined drain) (Passed h)
    unfolding guarded
    guarded_returns = record {
      at = λ w j.
          let tried = attempt (replace h o entry blue identity joined drain) (on_failure h o) w in
          finished tried.0 tried.1
            ((Triple-attempt (λ _ _. Unit {0}) replace_returns (on_failure_raises o)).at w tt);
    }
      where
        finished :
            (r : Result (Unit {0})) (v : State)
            → Post (λ _ v. Passed h v) (λ _ _. Unit {0}) r v
            → Post
                (λ _ v. Passed h v)
                (λ _ _. Unit {0})
                (finally_clean h o drain r v).0
                (finally_clean h o drain r v).1
        finished (ok u) v j = (finally_returns o drain).at v j
        finished (err e) v j = (finally_raises o drain e).at v tt

  rollover_returns : (o : Order) → Returns Anything (rollover h o) (Passed h)
  unfolding rollover
  rollover_returns o =
      Triple-bind (λ _ v. Anything v) (some_run _)
        (λ _.
          Triple-bind (λ _ v. Anything v) (some_run _)
            (λ entry.
              Triple-bind (λ _ v. Anything v) (some_run _)
                (λ drain.
                  Triple-bind (λ _ v. Anything v) (some_run _)
                    (λ identity.
                      Triple-bind (λ _ v. Anything v) (some_run _)
                        (λ _.
                          Triple-bind (λ _ v. Anything v) (some_run _)
                            (λ blue.
                              Triple-bind (λ _ v. Anything v) (some_run _)
                                (λ before.
                                  Triple-bind (λ _ v. Anything v) (some_run _)
                                    (λ _.
                                      Triple-bind (λ _ v. Anything v) (some_run _)
                                        (λ _.
                                          Triple-bind (λ _ v. Anything v) (some_run _)
                                            (λ joined.
                                              Triple-bind (λ _ v. Anything v) (some_run _)
                                                (λ _.
                                                  Triple-bind (λ _ v. Anything v) (some_run _)
                                                    (λ old.
                                                      Triple-bind (λ _ v. Anything v) (some_run _)
                                                        (λ _.
                                                          Triple-bind (λ _ v. Anything v)
                                                            (some_run _)
                                                            (λ _.
                                                            guarded_returns o entry blue identity
                                                            joined drain))))))))))))))

-- A rollover that returns has removed the override file, the last reload it sent the proxy
-- succeeded with the name at the canonical container, and its report says PASS, whatever the host
-- answered and however the removal of the copy went.
pub rollover-Passed :
    (h : Host) (o : Order) (w : State)
    → (rollover h o w).0 ≡ ok tt
    → ((rollover h o w).1.own.override ≡ none)
      × Pointed none (rollover h o w).1.trace
      × ((rollover h o w).1.own.status ≡ some "PASS")
rollover-Passed h o w e =
    passed (rollover h o w).0 (rollover h o w).1 ((rollover_returns h o).at w tt) e
  where
    passed :
        (r : Result (Unit {0})) (v : State)
        → Post (λ _ v. Passed h v) (λ _ _. Unit {0}) r v
        → r ≡ ok tt
        → (v.own.override ≡ none) × Pointed none v.trace × (v.own.status ≡ some "PASS")
    passed (ok u) v j q = (j.0.0, j.0.1, j.1)
    passed (err x) v j q = absurd (ground (arith, q))
