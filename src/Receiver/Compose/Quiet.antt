-- ===== src/Receiver/Compose/Quiet.antt =====
-- The reading of the Compose configuration (scripts/deploy-gcp.py) makes calls aside only.
use map_service_infra.Base.{String, Bool, Option, none, some}
use map_service_infra.Base.Quiet.{IsQuiet, quiet_rules}
use map_service_infra.Receiver.Model.{Site, Host, aside}
use map_service_infra.Receiver.Compose.{
  Files, cloud_up_has, app_command, overlay_args, target_args, admin_command, compose_command,
  compose_config, preflight,
}

module _ (h : Host) (s : Site) where
  pub cloud_up_has-IsQuiet : (marker : String) → IsQuiet aside (cloud_up_has h s marker)
  unfolding cloud_up_has
  cloud_up_has-IsQuiet marker = search quiet_rules depth 30

  app_command-IsQuiet : (f : Files) → IsQuiet aside (app_command h s f)
  unfolding app_command
  app_command-IsQuiet f = search quiet_rules depth 30

  overlay-IsQuiet : IsQuiet aside (overlay_args h s)
  unfolding overlay_args
  overlay-IsQuiet = search (quiet_rules, cloud_up_has-IsQuiet) depth 30

  target_args-IsQuiet : (b : Option String) → IsQuiet aside (target_args h b)
  unfolding target_args
  target_args-IsQuiet none = search quiet_rules
  target_args-IsQuiet (some b) = search quiet_rules depth 30

  admin_command-IsQuiet : (f : Files) → IsQuiet aside (admin_command h s f)
  unfolding admin_command
  admin_command-IsQuiet f = search (quiet_rules, overlay-IsQuiet, target_args-IsQuiet) depth 30

  pub compose_command-IsQuiet :
      (admin : Bool) (f : Files) → IsQuiet aside (compose_command h admin s f)
  unfolding compose_command
  compose_command-IsQuiet admin f =
      search (quiet_rules, app_command-IsQuiet, admin_command-IsQuiet) depth 30

  pub compose_config-IsQuiet :
      (admin : Bool) (f : Files) → IsQuiet aside (compose_config h admin s f)
  unfolding compose_config
  compose_config-IsQuiet admin f = search (quiet_rules, compose_command-IsQuiet) depth 30

  pub preflight-IsQuiet : (f : Files) → IsQuiet aside (preflight h s f)
  unfolding preflight
  preflight-IsQuiet f = search (quiet_rules, compose_config-IsQuiet) depth 30
