-- ===== src/CutoverWatchdog/Examples.antt =====
-- A cycle of scripts/cutover_watchdog.py that starts the edge again.
use map_service_infra.Base.{
  true, String, ◌≡◌, refl, none, some, [], ◌∷◌, ◌==◌, string_eq, option_eq, nat_eq, is_hex64,
  is_sha256, if◌then◌else◌,
}
use map_service_infra.Base.Json.{Json, int, text, bool, object, end, field}
use map_service_infra.Base.Result.{ok}
use map_service_infra.Base.Exec.{◌>>=◌, attempt}
use map_service_infra.CutoverWatchdog.{Host, State, completed_public_supervised, recover_once}
use map_service_infra.CutoverWatchdog.Receipt.{
  Latch, identity_eq, tuple_eq, parse_item, check_head, check_tail, identity_of,
}
use map_service_infra.CutoverWatchdog.Authority.{Authorized}
use map_service_infra.CutoverWatchdog.Authority.Run.{recover_once-Authorized}

abbrev hex : String
hex = "0123456789abcdef0123456789abcdef0123456789abcdef0123456789abcdef"

abbrev image : String
image = "sha256:0123456789abcdef0123456789abcdef0123456789abcdef0123456789abcdef"

abbrev edge_id : String
edge_id = "fedcba9876543210fedcba9876543210fedcba9876543210fedcba9876543210"

abbrev identity_json : String → Json
identity_json i = object (field "id" (text i) (field "image" (text image) end))

abbrev approved : Json
approved = object (
    field "user"
      (text
        "ghcr.io/we-meet-trip/map-service-user@sha256:0123456789abcdef0123456789abcdef0123456789abcdef0123456789abcdef")
      (field "agent"
        (text
          "ghcr.io/we-meet-trip/map-service-agent@sha256:0123456789abcdef0123456789abcdef0123456789abcdef0123456789abcdef")
        (field "hub"
          (text
            "ghcr.io/we-meet-trip/map-service-hub@sha256:0123456789abcdef0123456789abcdef0123456789abcdef0123456789abcdef")
          (field "yolo"
            (text
              "ghcr.io/we-meet-trip/map-service-yolo@sha256:0123456789abcdef0123456789abcdef0123456789abcdef0123456789abcdef")
            (field "admin"
              (text
                "ghcr.io/we-meet-trip/map-service-admin@sha256:0123456789abcdef0123456789abcdef0123456789abcdef0123456789abcdef")
              (field "admin-web"
                (text
                  "ghcr.io/we-meet-trip/map-service-admin-web@sha256:0123456789abcdef0123456789abcdef0123456789abcdef0123456789abcdef")
                end))))))

abbrev latch : Latch
latch = record {
  instance_id = "map-1";
  run_id = "17";
  infra_sha = "0123456789abcdef0123456789abcdef01234567";
  phase = "complete";
  candidate =
      "ghcr.io/we-meet-trip/map-service-user@sha256:0123456789abcdef0123456789abcdef0123456789abcdef0123456789abcdef"
      ∷ "ghcr.io/we-meet-trip/map-service-agent@sha256:0123456789abcdef0123456789abcdef0123456789abcdef0123456789abcdef"
      ∷ "ghcr.io/we-meet-trip/map-service-hub@sha256:0123456789abcdef0123456789abcdef0123456789abcdef0123456789abcdef"
      ∷ "ghcr.io/we-meet-trip/map-service-yolo@sha256:0123456789abcdef0123456789abcdef0123456789abcdef0123456789abcdef"
      ∷ "ghcr.io/we-meet-trip/map-service-admin@sha256:0123456789abcdef0123456789abcdef0123456789abcdef0123456789abcdef"
      ∷ "ghcr.io/we-meet-trip/map-service-admin-web@sha256:0123456789abcdef0123456789abcdef0123456789abcdef0123456789abcdef"
      ∷ [];
  bundle = "/var/lib/map-deploy/release-17/bundle";
  prior_rollback_compatible = true;
}

abbrev ready : Json
ready = object (
    field "schema_version" (int 1) (
      field "instance_id" (text "map-1") (
        field "run_id" (text "17") (
          field "infra_sha" (text "0123456789abcdef0123456789abcdef01234567") (
            field "phase" (text "complete") (
              field "approved" approved (
                field "public"
                  (object (
                    field "edge" (identity_json edge_id) (
                      field "proxy" (identity_json hex)
                        (field "user" (identity_json hex) (field "yolo" (identity_json hex) end)))))
                  end)))))))

abbrev shown : String → Json
shown cid = object (
    field "id" (text cid) (
      field "image" (text image)
        (field "running" (bool (cid == hex)) (field "restart" (text "no") end))))

abbrev host : Host
host = record {
  instance_id = "map-1";
  lock = λ t. ok tt;
  scope = λ t. ok "inactive";
  latch = λ t. ok (some latch);
  maintenance = λ t. ok none;
  restart_override = λ t. ok tt;
  overrides = λ t. ok [];
  unlink = λ p t. ok tt;
  receipt = λ t. ok ready;
  policy = λ t. ok [];
  ids = λ s t. ok ((if s == "edge" then edge_id else hex) ∷ []);
  inspect = λ cid t. ok (shown cid);
  nginx_test = λ p t. ok tt;
  nginx_reload = λ p t. ok tt;
  topology = λ t. ok tt;
  smoke = λ t. ok tt;
  start = λ cid t. ok tt;
  stop_public = λ t. ok tt;
}

abbrev begin : State
begin = record { own = tt; trace = [] }

recover_once-Authorized_example : Authorized host (recover_once host begin).1.trace
recover_once-Authorized_example = recover_once-Authorized host begin tt

-- The cycle ends with everything supervised.
supervised : (recover_once host begin).0 ≡ ok completed_public_supervised
unfolding recover_once ◌>>=◌ attempt string_eq option_eq identity_eq tuple_eq parse_item check_head
    check_tail identity_of nat_eq is_hex64 is_sha256
supervised = refl
