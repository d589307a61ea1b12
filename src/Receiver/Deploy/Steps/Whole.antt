-- ===== src/Receiver/Deploy/Steps/Whole.antt =====
-- The `try` block of scripts/deploy-gcp.py as a whole, from the public probes on.
use map_service_infra.Base.{◌≡◌, refl, inr, Bool, string_eq}
use map_service_infra.Base.Exec.{Exec}
use map_service_infra.Base.Exec.Rules.{Triple, Triple-both, Triple-skip, Triple-bind, Triple-weaken}
use map_service_infra.Base.World.{Trace, Triple-call}
use map_service_infra.Base.Quiet.{Triple-quiet, IsQuiet, quiet_rules}
use map_service_infra.Receiver.Model.{Pinned, Projects, Host, Call, State, write_latch}
use map_service_infra.Receiver.Readiness.Answers.{private_smoke_lem}
use map_service_infra.Receiver.Readiness.Public.{calm, last_probes, LastRound-stable, smoke_lem}
use map_service_infra.Receiver.Deploy.{Plan, accept, latch_in, write, go_public, deploy}
use map_service_infra.Receiver.Deploy.Quiet.{
  check_release-IsQuiet, close_edge-IsQuiet, check_started-IsQuiet, accept-IsQuiet,
}
use map_service_infra.Receiver.Deploy.Steps.{
  Running, Ready, Public, Complete, Before, Raised, Before-stable, Before-Raised, Running-stable,
  Complete-stable, begun, Running-Raised, Complete-Raised, say-calm, start_lem, bring_up_lem,
  advance, open_public_lem, ready_open, opening_open,
}

module _ (h : Host) (t0 : Trace Call) (b : Bool) where
  calm-Public :
      {A : Type 0} (p : Plan) {m : Exec State A}
      → IsQuiet calm m
      → Triple (λ w. Public h t0 b p w.trace) m (λ _ w. Public h t0 b p w.trace) (λ _ _. Unit {0})
  calm-Public p q =
      Triple-quiet (λ o t. Public h t0 b p t)
        (λ o. LastRound-stable h p.site.target.public_url last_probes) (λ e w j. tt) q

  accept-Public :
      (p : Plan) (evidence : Projects Pinned)
      → Triple
          (λ _. Unit {0})
          (accept h p evidence)
          (λ _ w. Public h t0 b p w.trace)
          (λ _ _. Unit {0})
  unfolding accept
  accept-Public p evidence = Triple-skip _ (λ _. Triple-skip _ (λ _.
      Triple-bind (λ _ w. Public h t0 b p w.trace) (smoke_lem h p.site)
        (λ _. calm-Public p (search quiet_rules depth 30))))

  accept_lem :
      (p : Plan) (evidence : Projects Pinned)
      → Triple
          (λ w. Running h t0 b w.own w.trace)
          (accept h p evidence)
          (λ _ w. Running h t0 b w.own w.trace × Public h t0 b p w.trace)
          (λ _ w. Raised h t0 b w.own w.trace)
  accept_lem p evidence =
      Triple-weaken (λ _ w. Running h t0 b w.own w.trace × Public h t0 b p w.trace)
        (λ _ w. Raised h t0 b w.own w.trace × Unit {0})
        (Triple-both (λ _ w. Running h t0 b w.own w.trace) (λ _ w. Public h t0 b p w.trace)
          (λ _ w. Raised h t0 b w.own w.trace) (λ _ _. Unit {0})
          (Triple-quiet (Running h t0 b) (Running-stable h t0 b) (Running-Raised h t0 b)
            (accept-IsQuiet h p evidence))
          (accept-Public p evidence))
        (λ w j. (j, tt)) (λ _ w j. j) (λ _ w j. j.0)

  complete_lem :
      (p : Plan)
      → p.rollback_allowed ≡ b
      → Triple
          (λ w. Running h t0 b w.own w.trace × Public h t0 b p w.trace)
          (write h (latch_in p "complete"))
          (λ _ w. Complete h t0 b p w.own w.trace)
          (λ _ w. Raised h t0 b w.own w.trace)
  unfolding write
  complete_lem p same =
      Triple-call _ _ (write_latch _) (h.write_latch _)
        (λ w j a e. ((j.0.0.0, j.0.1, (refl, refl), same), j.1))
        (λ w j x e. (j.0.0.0, inr (j.0.1, inr (begun h t0 b w.own w.trace j.0), same)))

  go_public_lem :
      (p : Plan) (evidence : Projects Pinned)
      → p.rollback_allowed ≡ b
      → Triple
          (λ w. Running h t0 b w.own w.trace)
          (go_public h p evidence)
          (λ _ w. Complete h t0 b p w.own w.trace)
          (λ _ w. Raised h t0 b w.own w.trace)
  unfolding go_public
  go_public_lem p evidence same =
      Triple-bind (λ _ w. Running h t0 b w.own w.trace)
        (Triple-quiet (Running h t0 b) (Running-stable h t0 b) (Running-Raised h t0 b)
          (close_edge-IsQuiet h p))
        (λ _.
          Triple-bind (λ _ w. Running h t0 b w.own w.trace) (bring_up_lem h t0 b p)
            (λ degraded.
              Triple-bind (λ _ w. Running h t0 b w.own w.trace)
                (Triple-quiet (Running h t0 b) (Running-stable h t0 b) (Running-Raised h t0 b)
                  (check_started-IsQuiet h p evidence degraded))
                (λ _.
                  Triple-bind (λ _ w. Ready h t0 b w.own w.trace)
                    (Triple-weaken (λ _ w. Ready h t0 b w.own w.trace)
                      (λ _ w. Running h t0 b w.own w.trace)
                      (private_smoke_lem h (Running h t0 b) p.site (Running-stable h t0 b))
                      (λ w j. j) (λ _ w j. j) (Running-Raised h t0 b))
                    (λ _.
                      Triple-bind (λ _ w. Ready h t0 b w.own w.trace)
                        (advance h t0 b (latch_in p "private_ready") ready_open same)
                        (λ _.
                          Triple-bind (λ _ w. Ready h t0 b w.own w.trace)
                            (advance h t0 b (latch_in p "opening_ingress") opening_open same)
                            (λ _.
                              Triple-bind (λ _ w. Running h t0 b w.own w.trace)
                                (open_public_lem h t0 b p)
                                (λ _.
                                  Triple-bind
                                    (λ _ w. Running h t0 b w.own w.trace × Public h t0 b p w.trace)
                                    (accept_lem p evidence)
                                    (λ _.
                                      Triple-bind (λ _ w. Complete h t0 b p w.own w.trace)
                                        (complete_lem p same)
                                        (λ _.
                                          Triple-quiet (Complete h t0 b p)
                                            (Complete-stable h t0 b p) (Complete-Raised h t0 b p)
                                            (say-calm h t0 b "deploy_complete"))))))))))

  pub deploy_lem :
      (p : Plan)
      → p.rollback_allowed ≡ b
      → Triple
          (λ w. Before h t0 b w.own w.trace)
          (deploy h p)
          (λ _ w. Complete h t0 b p w.own w.trace)
          (λ _ w. Raised h t0 b w.own w.trace)
  unfolding deploy
  deploy_lem p same =
      Triple-bind (λ _ w. Before h t0 b w.own w.trace)
        (Triple-quiet (Before h t0 b) (Before-stable h t0 b) (Before-Raised h t0 b)
          (check_release-IsQuiet h p))
        (λ evidence.
          Triple-bind (λ _ w. Running h t0 b w.own w.trace) (start_lem h t0 b p same)
            (λ _. go_public_lem p evidence same))
