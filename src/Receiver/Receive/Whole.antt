-- ===== src/Receiver/Receive/Whole.antt =====
-- The whole of `receive` (scripts/deploy-gcp.py): the order of its effects, and how it ends.
use map_service_infra.Base.{String, refl, ◌⊎◌, inl, Bool}
use map_service_infra.Base.Result.{Error, Result, ok, err}
use map_service_infra.Base.Exec.Rules.{
  Post, Triple, Triple-bind, Triple-require, Triple-attempt, Triple-weaken, Triple-modify,
}
use map_service_infra.Base.World.{Trace}
use map_service_infra.Base.Quiet.{Stable, Triple-quiet, quiet_rules, Grown, same}
use map_service_infra.Receiver.Model.{Host, Call, State, aside}
use map_service_infra.Receiver.Order.{LastWrite, Ordered, harmless, Ordered-stable, Grown-stable}
use map_service_infra.Receiver.HostFiles.Quiet.{verify_instance-IsQuiet, deployment_lock-IsQuiet}
use map_service_infra.Receiver.Readiness.Public.{last_probes, LastRound}
use map_service_infra.Receiver.Deploy.{Plan}
use map_service_infra.Receiver.Deploy.Steps.{IsComplete, Before, Raised}
use map_service_infra.Receiver.Deploy.Steps.Whole.{deploy_lem}
use map_service_infra.Receiver.Failed.Steps.{IsFailure, Settled, on_failure_lem}
use map_service_infra.Receiver.Receive.{attempt_release, receive}
use map_service_infra.Receiver.Receive.Quiet.{admit-IsQuiet}

-- A public address with the passed round of probes that was made last.
abbrev Public : Host → Trace Call → Type 0
Public h t = (base : String) × LastRound h base last_probes t

-- A run that returns has written a complete latch last, and its last requests are a passed round of
-- the public probes. A run that raises has started, replaced and stopped no container of the release
-- since the calls `t0`, or has attempted to write a failure last.
abbrev pub Outcome : {A : Type 0} → Host → Trace Call → Result A → Trace Call → Type 0
Outcome h t0 (ok a) t = LastWrite IsComplete t × Public h t
Outcome h t0 (err e) t = Grown harmless t0 t ⊎ LastWrite IsFailure t

module _ (h : Host) (t0 : Trace Call) where
  abbrev Start : Bool → Trace Call → Type 0
  Start o t = Ordered h t × Grown harmless t0 t

  Start-stable : (o : Bool) → Stable aside (Start o)
  Start-stable o c done t k j = (Ordered-stable h c done t k j.0, Grown-stable t0 c done t k j.1)

  Start-Settled : (e : Error) (w : State) → Start w.own w.trace → Settled h t0 w.trace
  Start-Settled e w j = (j.0, inl j.1)

  attempt_lem :
      (p : Plan)
      → Triple
          (λ w. Start w.own w.trace)
          (attempt_release h p)
          (λ _ w. Ordered h w.trace × (LastWrite IsComplete w.trace × Public h w.trace))
          (λ _ w. Settled h t0 w.trace)
  unfolding attempt_release
  attempt_lem p =
      Triple-bind (λ _ w. Before h t0 p.rollback_allowed w.own w.trace)
        (Triple-modify _ (λ w j. (j.0, refl, j.1)))
        (λ _.
          Triple-attempt (λ _ w. Raised h t0 p.rollback_allowed w.own w.trace)
            (Triple-weaken _ _ (deploy_lem h t0 p.rollback_allowed p refl) (λ w j. j)
              (λ _ w j. (j.0.0, (j.0.2, (p.site.target.public_url, j.1)))) (λ _ w j. j))
            (λ e.
              Triple-weaken (λ _ w. ⊥) (λ _ w. Settled h t0 w.trace) (on_failure_lem h t0 p e)
                (λ w j. j) (λ _ w j. absurd j) (λ _ w j. j)))

  receive_lem :
      Triple
        (λ w. Start w.own w.trace)
        (receive h)
        (λ _ w. Ordered h w.trace × (LastWrite IsComplete w.trace × Public h w.trace))
        (λ _ w. Settled h t0 w.trace)
  unfolding receive
  receive_lem =
      Triple-bind (λ _ w. Start w.own w.trace)
        (Triple-quiet Start Start-stable Start-Settled (verify_instance-IsQuiet h))
        (λ t.
          Triple-bind (λ _ w. Start w.own w.trace)
            (Triple-quiet Start Start-stable Start-Settled (search quiet_rules))
            (λ there.
              Triple-bind (λ _ w. Start w.own w.trace)
                (Triple-require there _ (λ e w j. j) (λ e w j. (j.0, inl j.1)))
                (λ _.
                  Triple-bind (λ _ w. Start w.own w.trace)
                    (Triple-quiet Start Start-stable Start-Settled (deployment_lock-IsQuiet h))
                    (λ _.
                      Triple-bind (λ _ w. Start w.own w.trace)
                        (Triple-quiet Start Start-stable Start-Settled (admit-IsQuiet h t))
                        attempt_lem))))

  ordered :
      (r : Result Unit) (w : State)
      → Post
          (λ _ v. Ordered h v.trace × (LastWrite IsComplete v.trace × Public h v.trace))
          (λ _ v. Settled h t0 v.trace)
          r
          w
      → Ordered h w.trace × Outcome h t0 r w.trace
  ordered (ok a) w j = j
  ordered (err e) w j = j

-- Whatever the host answers, and however the run ends, the calls of a deployment keep their order.
-- `cloud-up.sh` runs only after a backup that succeeded and under a latch that was written with a phase
-- that is not terminal, so that the supervisor would start nothing by it. The command that opens the
-- public entrance needs besides that each private address gave the expected answer since the containers
-- were last brought up. Containers are restored, and new ones stopped, only after a latch was written,
-- and where the last latch that was attempted says that a rollback is allowed.
-- It is so at the end of a run if it was so of the calls before it.
pub receive-Ordered : (h : Host) (w : State) → Ordered h w.trace → Ordered h (receive h w).1.trace
receive-Ordered h w j =
    (ordered h w.trace (receive h w).0 (receive h w).1 ((receive_lem h w.trace).at w (j, same))).0

-- A deployment that returns wrote the latch last with the phase `complete`, with success, and its last
-- requests are the three public probes in their order at one address, each answered with the status
-- and the body that it expects, with no opening of the entrance, no run of `cloud-up.sh` and no
-- restore after the first of them. One that raises either made since its beginning no run of `cloud-up.sh`, no opening of the entrance and no
-- restore or stop of a rollback, or its last attempt to write the latch was one with a phase of
-- failure: rolled back, quarantined, or still serving. This holds whatever the host answers, where the
-- calls before were in order.
pub receive-Outcome :
    (h : Host) (w : State)
    → Ordered h w.trace
    → Outcome h w.trace (receive h w).0 (receive h w).1.trace
receive-Outcome h w j =
    (ordered h w.trace (receive h w).0 (receive h w).1 ((receive_lem h w.trace).at w (j, same))).1
