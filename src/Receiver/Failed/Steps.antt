-- ===== src/Receiver/Failed/Steps.antt =====
-- The order of the effects in the `except` block of scripts/deploy-gcp.py.
use map_service_infra.Base.{
  String, ◌≡◌, refl, subst, ◌⊎◌, inl, inr, Bool, true, false, contains, string_eq, List, [], ◌∷◌,
  arith,
}
use map_service_infra.Base.Result.{Error, other, ok}
use map_service_infra.Base.Exec.Rules.{
  Triple, Triple-bind, Triple-pure, Triple-raise, Triple-attempt, Triple-weaken, Triple-if,
}
use map_service_infra.Base.World.{Trace, Triple-call}
use map_service_infra.Base.Quiet.{Stable, IsQuiet, Triple-quiet, quiet_rules, Grown}
use map_service_infra.Receiver.Model.{Host, Call, State, write_latch, hand_back, aside}
use map_service_infra.Receiver.Order.{
  Flagged, LastWrite, Ordered, harmless, Ordered-stable, LastWrite-stable, Begun-LastWrite,
}
use map_service_infra.Receiver.Readiness.Quiet.{smoke-IsQuiet}
use map_service_infra.Receiver.Rollback.Steps.{Permitted, Rolling, Rolling-stable, rollback_lem}
use map_service_infra.Receiver.Deploy.{Plan, latch_in, write}
use map_service_infra.Receiver.Deploy.Quiet.{say-IsQuiet}
use map_service_infra.Receiver.Deploy.Steps.{Before, Raised, Before-stable}
use map_service_infra.PublicStop.Quiet.{stop_public-IsQuiet, remove_copies-IsQuiet}
use map_service_infra.Receiver.Failed.{
  public_services, stopped_phase, conclude, restore_prior, roll_back, rollback_failed, quarantine,
  serving_again, no_rollback, undo, undo_started, on_failure,
}

-- The phases of a run that failed after the latch was written.
abbrev pub failure_phases : List String
failure_phases =
    "rolled_back" ∷ "rollback_failed_quarantined" ∷ "quarantine_failed" ∷ "rollover_failed_serving"
    ∷ "quarantined" ∷ []

abbrev pub IsFailure : String → Bool → Type 0
IsFailure phase done = contains failure_phases phase ≡ true

abbrev RolledBack : String → Bool → Type 0
RolledBack phase done = IsFailure phase done × (done ≡ true)

rolled_back_fails : contains failure_phases "rolled_back" ≡ true
unfolding string_eq
rolled_back_fails = refl

rollback_failed_fails : contains failure_phases "rollback_failed_quarantined" ≡ true
unfolding string_eq
rollback_failed_fails = refl

quarantine_failed_fails : contains failure_phases "quarantine_failed" ≡ true
unfolding string_eq
quarantine_failed_fails = refl

rollover_failed_fails : contains failure_phases "rollover_failed_serving" ≡ true
unfolding string_eq
rollover_failed_fails = refl

quarantined_fails : contains failure_phases "quarantined" ≡ true
unfolding string_eq
quarantined_fails = refl

module _ (h : Host) (t0 : Trace Call) where
  abbrev Closed : Bool → Trace Call → Type 0
  Closed o t = Ordered h t × LastWrite IsFailure t

  abbrev Undone : Bool → Trace Call → Type 0
  Undone o t = Ordered h t × (o ≡ true) × LastWrite RolledBack t

  -- The end of a run that failed.
  abbrev pub Settled : Trace Call → Type 0
  Settled t = Ordered h t × (Grown harmless t0 t ⊎ LastWrite IsFailure t)

  Closed-stable : (o : Bool) → Stable aside (Closed o)
  Closed-stable o c done t k j =
      (Ordered-stable h c done t k j.0, LastWrite-stable IsFailure c done t k j.1)

  Undone-stable : (o : Bool) → Stable aside (Undone o)
  Undone-stable o c done t k j =
      (Ordered-stable h c done t k j.0, j.1, LastWrite-stable RolledBack c done t k j.2)

  Closed-Settled : (e : Error) (w : State) → Closed w.own w.trace → Settled w.trace
  Closed-Settled e w j = (j.0, inr j.1)

  still-Rolling : (e : Error) (w : State) → Undone w.own w.trace → Rolling h w.own w.trace
  still-Rolling e w j = (j.0, j.1, Begun-LastWrite RolledBack w.trace (λ phase done k. k.1) j.2)

  rolled : (t : Trace Call) → LastWrite RolledBack t → LastWrite IsFailure t
  rolled [] j = j
  rolled ((write_latch l, done) ∷ t) j = j.0
  rolled ((_, done) ∷ t) j = rolled t j

  conclude_lem :
      (p : Plan) (phase code : String)
      → Triple
          (λ w. Rolling h w.own w.trace × IsFailure phase true)
          (conclude h p phase code)
          (λ _ w. ⊥)
          (λ _ w. Settled w.trace)
  unfolding conclude write
  conclude_lem p phase code =
      Triple-bind (λ _ w. Closed w.own w.trace)
        (Triple-call _ _ (write_latch (latch_in p phase)) (h.write_latch (latch_in p phase))
          (λ w j a e. (j.0.0, j.1)) (λ w j x e. (j.0.0, inr j.1)))
        (λ _.
          Triple-bind (λ _ w. Closed w.own w.trace)
            (Triple-quiet Closed Closed-stable Closed-Settled (search quiet_rules))
            (λ _.
              Triple-bind (λ _ w. Closed w.own w.trace)
                (Triple-quiet Closed Closed-stable Closed-Settled (say-IsQuiet h phase))
                (λ _. Triple-raise _ (λ w j. Closed-Settled other w j))))

  stopped_phase_lem :
      (fine : String)
      → IsFailure fine true
      → Triple
          (λ w. Rolling h w.own w.trace)
          (stopped_phase h fine)
          (λ phase w. Rolling h w.own w.trace × IsFailure phase true)
          (λ _ w. Settled w.trace)
  unfolding stopped_phase
  stopped_phase_lem fine fails =
      Triple-attempt (λ _ w. Rolling h w.own w.trace)
        (Triple-bind (λ _ w. Rolling h w.own w.trace)
          (Triple-quiet (Rolling h) (Rolling-stable h) (λ e w j. j)
            (stop_public-IsQuiet h public_services))
          (λ _. Triple-pure fine (λ w j. (j, fails))))
        (λ x. Triple-pure "quarantine_failed" (λ w j. (j, quarantine_failed_fails)))

  rollback_failed_lem :
      (p : Plan)
      → Triple
          (λ w. Rolling h w.own w.trace)
          (rollback_failed h p)
          (λ _ w. ⊥)
          (λ _ w. Settled w.trace)
  unfolding rollback_failed
  rollback_failed_lem p =
      Triple-bind (λ phase w. Rolling h w.own w.trace × IsFailure phase true)
        (stopped_phase_lem "rollback_failed_quarantined" rollback_failed_fails)
        (λ phase. conclude_lem p phase _)

  quarantine_lem :
      (p : Plan)
      → Triple (λ w. Rolling h w.own w.trace) (quarantine h p) (λ _ w. ⊥) (λ _ w. Settled w.trace)
  unfolding quarantine
  quarantine_lem p =
      Triple-bind (λ phase w. Rolling h w.own w.trace × IsFailure phase true)
        (stopped_phase_lem "quarantined" quarantined_fails) (λ phase. conclude_lem p phase _)

  -- The test raises nothing.
  serving_again_lem :
      (p : Plan)
      → Triple
          (λ w. Rolling h w.own w.trace)
          (serving_again h p)
          (λ _ w. Rolling h w.own w.trace)
          (λ _ w. ⊥)
  unfolding serving_again
  serving_again_lem p =
      Triple-bind (λ _ w. Rolling h w.own w.trace)
        (Triple-call _ _ hand_back (λ t. ok (h.hand_back t))
          (λ w j a e. Rolling-stable h w.own hand_back true w.trace refl j)
          (λ w j x e. absurd (ground (arith, e))))
        (λ serving.
          Triple-bind (λ _ w. Rolling h w.own w.trace)
            (Triple-attempt (λ _ w. Rolling h w.own w.trace)
              (Triple-quiet (Rolling h) (Rolling-stable h) (λ e w j. j)
                (search (quiet_rules, remove_copies-IsQuiet)))
              (λ x. Triple-pure false (λ w j. j)))
            (λ clean.
              Triple-if clean
                (λ _.
                  Triple-attempt (λ _ w. Rolling h w.own w.trace)
                    (Triple-quiet (Rolling h) (Rolling-stable h) (λ e w j. j)
                      (search (quiet_rules, smoke-IsQuiet)))
                    (λ x. Triple-pure false (λ w j. j)))
                (λ _. Triple-pure false (λ w j. j))))

  no_rollback_lem :
      (p : Plan)
      → Triple (λ w. Rolling h w.own w.trace) (no_rollback h p) (λ _ w. ⊥) (λ _ w. Settled w.trace)
  unfolding no_rollback
  no_rollback_lem p =
      Triple-if p.rollover
        (λ _.
          Triple-bind (λ _ w. Rolling h w.own w.trace)
            (Triple-weaken (λ _ w. Rolling h w.own w.trace) (λ _ w. ⊥) (serving_again_lem p)
              (λ w j. j) (λ _ w j. j) (λ _ w j. absurd j))
            (λ serving.
              Triple-if serving
                (λ _.
                  Triple-weaken (λ _ w. ⊥) (λ _ w. Settled w.trace)
                    (conclude_lem p "rollover_failed_serving" _) (λ w j. (j, rollover_failed_fails))
                    (λ _ w j. j) (λ _ w j. j))
                (λ _. quarantine_lem p)))
        (λ _. quarantine_lem p)

  roll_back_lem :
      (p : Plan)
      → Triple
          (λ w. Permitted h w.own w.trace)
          (roll_back h p)
          (λ _ w. Undone w.own w.trace)
          (λ _ w. Rolling h w.own w.trace)
  unfolding roll_back write
  roll_back_lem p =
      Triple-bind (λ _ w. Rolling h w.own w.trace)
        (Triple-weaken (λ _ w. Permitted h w.own w.trace) (λ _ w. Permitted h w.own w.trace)
          (rollback_lem h p.site p.previous) (λ w j. j) (λ _ w j. j.0) (λ _ w j. j.0))
        (λ _.
          Triple-bind (λ _ w. Rolling h w.own w.trace)
            (Triple-quiet (Rolling h) (Rolling-stable h) (λ e w j. j) (smoke-IsQuiet h p.site))
            (λ _.
              Triple-bind (λ _ w. Rolling h w.own w.trace)
                (Triple-quiet (Rolling h) (Rolling-stable h) (λ e w j. j) (search quiet_rules))
                (λ _.
                  Triple-bind (λ _ w. Undone w.own w.trace)
                    (Triple-call _ _ (write_latch (latch_in p "rolled_back"))
                      (h.write_latch (latch_in p "rolled_back"))
                      (λ w j a e. (j.0, j.1, (rolled_back_fails, refl)))
                      (λ w j x e. (j.0, j.1, inr j.2)))
                    (λ _. Triple-quiet Undone Undone-stable still-Rolling (search quiet_rules)))))

  undo_started_lem :
      (p : Plan)
      → Triple
          (λ w. Rolling h w.own w.trace × Flagged p.rollback_allowed w.trace)
          (undo_started h p)
          (λ _ w. Settled w.trace)
          (λ _ w. Settled w.trace)
  unfolding undo_started
  undo_started_lem p =
      Triple-if p.rollback_allowed
        (λ e.
          Triple-attempt (λ _ w. Rolling h w.own w.trace)
            (Triple-weaken (λ _ w. Undone w.own w.trace) (λ _ w. Rolling h w.own w.trace)
              (roll_back_lem p) (λ w j. (j.0, subst (λ b. Flagged b w.trace) e j.1))
              (λ _ w j. (j.0, inr (rolled w.trace j.2))) (λ _ w j. j))
            (λ x.
              Triple-weaken (λ _ w. ⊥) (λ _ w. Settled w.trace) (rollback_failed_lem p) (λ w j. j)
                (λ _ w j. absurd j) (λ _ w j. j)))
        (λ _.
          Triple-weaken (λ _ w. ⊥) (λ _ w. Settled w.trace) (no_rollback_lem p) (λ w j. j.0)
            (λ _ w j. absurd j) (λ _ w j. j))

  restore_prior-IsQuiet : (p : Plan) → IsQuiet aside (restore_prior h p)
  unfolding restore_prior
  restore_prior-IsQuiet p = search (quiet_rules, say-IsQuiet) depth 30

  Before-Settled :
      (p : Plan) (w : State) → Before h t0 p.rollback_allowed w.own w.trace → Settled w.trace
  Before-Settled p w j = (j.0, inl j.2)

  undo_lem :
      (p : Plan) (started : Bool)
      → Triple
          (λ w. Raised h t0 p.rollback_allowed w.own w.trace × (w.own ≡ started))
          (undo h p started)
          (λ _ w. Settled w.trace)
          (λ _ w. Settled w.trace)
  unfolding undo
  undo_lem p true =
      Triple-weaken (λ _ w. Settled w.trace) (λ _ w. Settled w.trace) (undo_started_lem p)
        (λ w j. rolling w.own w.trace j.0 j.1) (λ _ w j. j) (λ _ w j. j)
    where
      rolling :
          (o : Bool) (t : Trace Call)
          → Raised h t0 p.rollback_allowed o t
          → o ≡ true
          → Rolling h o t × Flagged p.rollback_allowed t
      rolling o t (r, inl n) e = absurd (cc (n.0))
      rolling o t (r, inr n) e = ((r, n.0, n.1), n.2)
  undo_lem p false =
      Triple-weaken (λ _ w. Before h t0 p.rollback_allowed w.own w.trace)
        (λ _ w. Before h t0 p.rollback_allowed w.own w.trace)
        (Triple-quiet (Before h t0 p.rollback_allowed) (Before-stable h t0 p.rollback_allowed)
          (λ e w j. j) (restore_prior-IsQuiet p))
        (λ w j. untouched w.own w.trace j.0 j.1) (λ _ w j. Before-Settled p w j)
        (λ _ w j. Before-Settled p w j)
    where
      untouched :
          (o : Bool) (t : Trace Call)
          → Raised h t0 p.rollback_allowed o t
          → o ≡ false
          → Before h t0 p.rollback_allowed o t
      untouched o t (r, inl n) e = (r, n.0, n.1)
      untouched o t (r, inr n) e = absurd (cc (n.0))

  pub on_failure_lem :
      (p : Plan) (e : Error)
      → Triple
          (λ w. Raised h t0 p.rollback_allowed w.own w.trace)
          (on_failure h p e)
          (λ _ w. ⊥)
          (λ _ w. Settled w.trace)
  unfolding on_failure
  on_failure_lem p e =
      Triple-bind (λ started w. Raised h t0 p.rollback_allowed w.own w.trace × (w.own ≡ started))
        (record { at = λ w j. (j, refl) })
        (λ started.
          Triple-bind (λ _ w. Settled w.trace) (undo_lem p started)
            (λ _. Triple-raise _ (λ w j. j)))
