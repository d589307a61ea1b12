-- ===== src/Receiver/Deploy/Quiet.antt =====
-- The parts of the `try` block of scripts/deploy-gcp.py that make calls aside only.
use map_service_infra.Base.{String, Bool}
use map_service_infra.Base.Quiet.{IsQuiet, quiet_rules}
use map_service_infra.Receiver.Model.{Site, Pinned, Projects, Host, aside}
use map_service_infra.Receiver.Infrastructure.Quiet.{verify_infrastructure-IsQuiet}
use map_service_infra.Receiver.Compose.Quiet.{preflight-IsQuiet, cloud_up_has-IsQuiet}
use map_service_infra.Receiver.Pins.Quiet.{prepare_infrastructure-IsQuiet}
use map_service_infra.Receiver.Admission.Quiet.{verify_admin-IsQuiet}
use map_service_infra.Receiver.Readiness.Quiet.{smoke-IsQuiet}
use map_service_infra.PublicStop.Quiet.{
  running_service-IsQuiet, stop_public-IsQuiet, verify_edge-IsQuiet,
}
use map_service_infra.Receiver.Deploy.{
  Plan, say, require_marker, require_contracts, check_release, close_edge, still_serving,
  check_started, accept,
}

module _ (h : Host) where
  pub say-IsQuiet : (phase : String) → IsQuiet aside (say h phase)
  unfolding say
  say-IsQuiet phase = search quiet_rules depth 30

  require_marker-IsQuiet :
      (s : Site) (marker code : String) → IsQuiet aside (require_marker h s marker code)
  unfolding require_marker
  require_marker-IsQuiet s marker code = search (quiet_rules, cloud_up_has-IsQuiet) depth 30

  require_contracts-IsQuiet : (p : Plan) → IsQuiet aside (require_contracts h p)
  unfolding require_contracts
  require_contracts-IsQuiet p = search (quiet_rules, require_marker-IsQuiet) depth 30

  pub check_release-IsQuiet : (p : Plan) → IsQuiet aside (check_release h p)
  unfolding check_release
  check_release-IsQuiet p =
      search
        (
          quiet_rules, say-IsQuiet, require_contracts-IsQuiet, preflight-IsQuiet,
          prepare_infrastructure-IsQuiet, verify_admin-IsQuiet,
        )
        depth 60

  pub close_edge-IsQuiet : (p : Plan) → IsQuiet aside (close_edge h p)
  unfolding close_edge
  close_edge-IsQuiet p = search (quiet_rules, say-IsQuiet, stop_public-IsQuiet) depth 30

  still_serving-IsQuiet : IsQuiet aside (still_serving h)
  unfolding still_serving
  still_serving-IsQuiet = search (quiet_rules, running_service-IsQuiet) depth 30

  pub check_started-IsQuiet :
      (p : Plan) (e : Projects Pinned) (degraded : Bool)
      → IsQuiet aside (check_started h p e degraded)
  unfolding check_started
  check_started-IsQuiet p e degraded =
      search
        (
          quiet_rules, say-IsQuiet, still_serving-IsQuiet, verify_edge-IsQuiet,
          verify_infrastructure-IsQuiet,
        )
        depth 40

  pub accept-IsQuiet : (p : Plan) (e : Projects Pinned) → IsQuiet aside (accept h p e)
  unfolding accept
  accept-IsQuiet p e =
      search (quiet_rules, say-IsQuiet, verify_infrastructure-IsQuiet, smoke-IsQuiet) depth 40
