-- ===== src/Receiver/Receive/Quiet.antt =====
-- What precedes the `try` block of scripts/deploy-gcp.py makes calls aside only.
use map_service_infra.Base.{String, Bool, List, Option, none, some}
use map_service_infra.Base.Quiet.{IsQuiet, quiet_rules, IsQuiet-pure, IsQuiet-when}
use map_service_infra.CutoverWatchdog.Receipt.{Latch}
use map_service_infra.Receiver.Model.{Target, Site, Release, Host, aside}
use map_service_infra.Receiver.HostFiles.Quiet.{rollover-IsQuiet}
use map_service_infra.Receiver.Policies.{Policy}
use map_service_infra.Receiver.Infrastructure.Quiet.{
  snapshot_images-IsQuiet, capture_infrastructure-IsQuiet,
}
use map_service_infra.Receiver.Admission.Quiet.{
  load_rollback_policy-IsQuiet, load_cutover_latch-IsQuiet, topology-IsQuiet,
  verify_detached-IsQuiet, backup_environment-IsQuiet, require_headroom-IsQuiet,
  require_target_source-IsQuiet, prior_rollback-IsQuiet,
}
use map_service_infra.Receiver.Deploy.Quiet.{say-IsQuiet}
use map_service_infra.PublicStop.Quiet.{stop_public-IsQuiet}
use map_service_infra.Receiver.Receive.{
  git, close_interrupted, recover_interrupted, recover_latch, previous_allowed, env_file,
  plan_release, admit,
}

module _ (h : Host) where
  git-IsQuiet : (args : List String) → IsQuiet aside (git h args)
  unfolding git
  git-IsQuiet args = search quiet_rules depth 30

  close_interrupted-IsQuiet : IsQuiet aside (close_interrupted h)
  unfolding close_interrupted
  close_interrupted-IsQuiet = search (quiet_rules, stop_public-IsQuiet, say-IsQuiet) depth 30

  recover_latch-IsQuiet : (l : Latch) → IsQuiet aside (recover_latch h l)
  unfolding recover_latch
  recover_latch-IsQuiet l = search (quiet_rules, say-IsQuiet, close_interrupted-IsQuiet) depth 30

  recover-IsQuiet : (prior : Option Latch) → IsQuiet aside (recover_interrupted h prior)
  unfolding recover_interrupted
  recover-IsQuiet none = IsQuiet-pure _
  recover-IsQuiet (some l) = IsQuiet-when _ _ (recover_latch-IsQuiet l)

  previous-IsQuiet : (b : Bool) (p : Policy) (s : String) → IsQuiet aside (previous_allowed h b p s)
  unfolding previous_allowed
  previous-IsQuiet b p s = search (quiet_rules, prior_rollback-IsQuiet) depth 30

  env_file-IsQuiet : (s : Site) → IsQuiet aside (env_file h s)
  unfolding env_file
  env_file-IsQuiet s = search quiet_rules depth 30

  plan_release-IsQuiet :
      (s : Site) (r : Release) (p : Policy) (prior : Option Latch) (rollover : Bool)
      → IsQuiet aside (plan_release h s r p prior rollover)
  unfolding plan_release
  plan_release-IsQuiet s r p prior rollover =
      search
        (
          quiet_rules, git-IsQuiet, env_file-IsQuiet, snapshot_images-IsQuiet, previous-IsQuiet,
          say-IsQuiet, capture_infrastructure-IsQuiet,
        )
        depth 90

  pub admit-IsQuiet : (t : Target) → IsQuiet aside (admit h t)
  unfolding admit
  admit-IsQuiet t =
      search
        (
          quiet_rules, topology-IsQuiet, require_target_source-IsQuiet,
          load_rollback_policy-IsQuiet, load_cutover_latch-IsQuiet, rollover-IsQuiet,
          backup_environment-IsQuiet, verify_detached-IsQuiet, require_headroom-IsQuiet,
          recover-IsQuiet, plan_release-IsQuiet,
        )
        depth 90
