-- ===== src/Receiver/Failed.antt =====
-- The `except` block of `receive` (scripts/deploy-gcp.py).
pub mod Steps
use map_service_infra.Base.{String, Bool, true, false, List, [], ◌∷◌, if◌then◌else◌}
use map_service_infra.Base.Result.{Error, coded}
use map_service_infra.Base.Exec.{Exec, pure, raise, gets, ◌>>=◌, ◌>>◌, attempt}
use map_service_infra.Base.World.{call}
use map_service_infra.Receiver.Model.{
  Host, State, hand_back, checkout, replace_environment, receipt, result,
}
use map_service_infra.Receiver.Readiness.{smoke}
use map_service_infra.Receiver.Rollback.{rollback}
use map_service_infra.Receiver.Deploy.{Plan, latch_in, say, write}
use map_service_infra.Base.Result.{ok}
use map_service_infra.PublicStop.{stop_public_services, remove_rollover_containers}

abbrev pub public_services : List String
public_services = "edge" ∷ "proxy" ∷ "user" ∷ "yolo" ∷ []

module _ (h : Host) where
  -- The phase after a stop of the public services, `fine` where it succeeded.
  pub stopped_phase : String → Exec State String
  stopped_phase fine =
      attempt (do stop_public_services h public_services; pure fine) (λ _. pure "quarantine_failed")

  -- The latch, the result and the status of a failure, and the exception.
  pub conclude : Plan → String → String → Exec State Unit
  unfolding write say
  conclude p phase code = do
    write h (latch_in p phase)
    call (result phase) (h.result phase)
    say h phase
    raise (coded code)

  pub restore_prior : Plan → Exec State Unit
  unfolding say
  restore_prior p = do
    call (checkout p.previous.sha) (h.checkout p.previous.sha)
    call (replace_environment p.previous.environment) (h.replace_environment p.previous.environment)
    say h "predeploy_state_restored"

  pub roll_back : Plan → Exec State Unit
  unfolding write
  roll_back p = do
    rollback h p.site p.previous
    smoke h p.site
    call (receipt "rolled_back") (h.receipt "rolled_back")
    write h (latch_in p "rolled_back")
    call (result "failed_rolled_back") (h.result "failed_rolled_back")

  pub rollback_failed : Plan → Exec State Unit
  unfolding stopped_phase conclude
  rollback_failed p = do
    phase ← stopped_phase "rollback_failed_quarantined"
    conclude p phase "deployment and verified rollback failed; ingress quarantine attempted"

  pub quarantine : Plan → Exec State Unit
  unfolding stopped_phase conclude
  quarantine p = do
    phase ← stopped_phase "quarantined"
    conclude p phase
        "deployment failed; unverified rollback prohibited; ingress quarantine attempted"

  -- Whether what served before serves again.
  pub serving_again : Plan → Exec State Bool
  serving_again p = do
    serving ← call hand_back (λ t. ok (h.hand_back t))
    clean ← attempt (do _ ← remove_rollover_containers h; pure serving) (λ _. pure false)
    if clean then attempt (do smoke h p.site; pure true) (λ _. pure false) else pure false

  pub no_rollback : Plan → Exec State Unit
  unfolding serving_again conclude quarantine
  no_rollback p =
      if p.rollover
      then (do
        serving ← serving_again p
        if serving
            then conclude p "rollover_failed_serving"
                "replacement failed; the version that was serving still is"
            else quarantine p)
      else quarantine p

  pub undo_started : Plan → Exec State Unit
  unfolding roll_back rollback_failed no_rollback
  undo_started p =
      if p.rollback_allowed then attempt (roll_back p) (λ _. rollback_failed p) else no_rollback p

  pub undo : Plan → Bool → Exec State Unit
  unfolding undo_started restore_prior
  undo p true = undo_started p
  undo p false = restore_prior p

  unfoldable pub on_failure : Plan → Error → Exec State Unit
  unfolding undo
  on_failure p e = do
    started ← gets (λ w. w.own)
    undo p started
    raise (coded "deployment failed; prior application state restored")
