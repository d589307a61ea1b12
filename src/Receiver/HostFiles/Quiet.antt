-- ===== src/Receiver/HostFiles/Quiet.antt =====
-- Which readings of the host (scripts/deploy-gcp.py) make calls aside only.
use map_service_infra.Base.{String, Option, none, some}
use map_service_infra.Base.Json.{Json}
use map_service_infra.Base.Result.{Error, coded, other}
use map_service_infra.Base.Quiet.{IsQuiet, quiet_rules}
use map_service_infra.Receiver.Model.{Target, Host, aside}
use map_service_infra.Receiver.HostFiles.{
  other_as, read_host_json, required_value, load_target, verify_instance, load_rollover_policy,
  check_instance, deployment_lock,
}

other-IsQuiet : {A : Type 0} (code : String) (e : Error) → IsQuiet aside (other_as {A = A} code e)
unfolding other_as
other-IsQuiet code (coded c) = search quiet_rules
other-IsQuiet code other = search quiet_rules

required-IsQuiet : (v : Option Json) → IsQuiet aside (required_value v)
unfolding required_value
required-IsQuiet none = search quiet_rules
required-IsQuiet (some v) = search quiet_rules

module _ (h : Host) where
  pub read_host_json-IsQuiet : (path : String) → IsQuiet aside (read_host_json h path)
  unfolding read_host_json
  read_host_json-IsQuiet path = search (quiet_rules, required-IsQuiet, other-IsQuiet) depth 30

  load_target-IsQuiet : IsQuiet aside (load_target h)
  unfolding load_target
  load_target-IsQuiet = search (quiet_rules, read_host_json-IsQuiet) depth 30

  check_instance-IsQuiet : (path expected : String) → IsQuiet aside (check_instance h path expected)
  unfolding check_instance
  check_instance-IsQuiet path expected = search (quiet_rules) depth 30

  pub verify_instance-IsQuiet : IsQuiet aside (verify_instance h)
  unfolding verify_instance
  verify_instance-IsQuiet =
      search (quiet_rules, load_target-IsQuiet, check_instance-IsQuiet) depth 30

  pub rollover-IsQuiet : (t : Target) → IsQuiet aside (load_rollover_policy h t)
  unfolding load_rollover_policy
  rollover-IsQuiet t = search (quiet_rules, read_host_json-IsQuiet) depth 30

  pub deployment_lock-IsQuiet : IsQuiet aside (deployment_lock h)
  unfolding deployment_lock
  deployment_lock-IsQuiet = search quiet_rules depth 30
