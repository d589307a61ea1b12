-- ===== src/Receiver/Hosts/Ready.antt =====
-- A host on which a deployment by scripts/deploy-gcp.py comes to its end.
use map_service_infra.Base.{
  ◌*◌, ◌^◌, String, ◌<>◌, Bool, true, false, ◌||◌, none, some, List, [], ◌∷◌, map, ◌==◌, contains,
  string_eq, if◌then◌else◌,
}
use map_service_infra.Base.Json.{Json, int, text, array, object, nil, cons, Fields, end, field}
use map_service_infra.Base.Result.{ok}
use map_service_infra.CutoverWatchdog.Receipt.{six_services}
use map_service_infra.Receiver.Model.{answered, Host}
use map_service_infra.Receiver.Hosts.{willing, private_file, empty_release}

abbrev pub hex : String
hex = "0123456789abcdef0123456789abcdef0123456789abcdef0123456789abcdef"

abbrev pub digest : String
digest = "sha256:" <> hex

abbrev pub image_of : String → String
image_of s = "ghcr.io/we-meet-trip/map-service-" <> (s <> ("@" <> digest))

abbrev pub images_of : List String → Fields
images_of [] = end
images_of (s ∷ ss) = field s (text (image_of s)) (images_of ss)

abbrev pub policy : Json
policy = object (
    field "schema_version" (int 1) (
      field "instance_id" (text "2327348931395410137") (
        field "candidate_allowed" (array (cons (object (images_of six_services)) nil))
          (field "rollback_verified" (array nil) end))))

abbrev pub markers : List String
markers =
    "# MAP_CUTOVER_SUPERVISOR_VERSION=1" ∷ "# MAP_USER_STANDALONE_MIGRATION_VERSION=1"
    ∷ "# MAP_SERVICE_MIGRATION_VERSION=1" ∷ "# MAP_INFRA_IMAGE_BUNDLE_VERSION=1" ∷ []

abbrev pub absent : List String
absent =
    "/etc/map-deploy/target.json" ∷ "topology.json" ∷ "rollover.json" ∷ "security-cutover.json"
    ∷ "/etc/map-admin-ncp/compose.yml" ∷ []

abbrev pub running : List String
running = "user" ∷ "proxy" ∷ "edge" ∷ "postgres" ∷ "redis" ∷ []

abbrev pub any_label : List String → List String → Bool
any_label args [] = false
any_label args (s ∷ ss) =
    contains args ("label=com.docker.compose.service=" <> s) || any_label args ss

abbrev pub app : String → Fields → Json
app s more = object (field "image" (text (image_of s)) (field "restart" (text "no") more))

abbrev pub enforced : Fields
enforced = field "environment" (object (field "AUTH_ENFORCED" (text "True") end)) end

abbrev pub infra : Bool → String → Json
infra pinned image =
    if pinned
    then object (
        field "image" (text digest) (
          field "restart" (text "no")
            (field "pull_policy" (text "never") (field "platform" (text "linux/amd64") end))))
    else object (field "image" (text image) (field "restart" (text "no") end))

abbrev pub network : Fields → Fields
network more =
    field "networks"
      (object (field "default" (object (field "name" (text "map-test-net") end)) end)) more

abbrev pub app_config : Bool → Json
app_config pinned = object (
    field "name" (text "map-test") (
      network (
        field "services"
          (object (
            field "user" (app "user" enforced) (
              field "agent" (app "agent" enforced) (
                field "hub" (app "hub" enforced) (
                  field "yolo" (app "yolo" end) (
                    field "proxy" (infra pinned "nginx:1.27") (
                      field "edge" (infra pinned "caddy:2") (
                        field "postgres" (infra pinned "docker.io/postgis/postgis:16-3.4")
                          (field "redis" (infra pinned "redis:7") end)))))))))
          end)))

abbrev pub admin_config : Json
admin_config = object (
    field "name" (text "map-admin-test") (
      network (
        field "services"
          (object (field "admin" (app "admin" end) (field "admin-web" (app "admin-web" end) end)))
          end)))

abbrev pub inspected : Json
inspected = object (
    field "image_id" (text digest)
      (field "os" (text "linux") (field "architecture" (text "amd64") end)))

abbrev pub refused_addresses : List String
refused_addresses =
    "http://127.0.0.1:8290/api/v1/users/me" ∷ "https://mapapptest.duckdns.org/api/v1/users/me"
    ∷ "http://127.0.0.1:8202/api/v1/auth/me" ∷ []

abbrev pub host : Host
host = record willing {
  metadata = λ p t. ok (
      if p == "/var/lib/map-deploy"
      then record { regular = false; directory = true; uid = 0; mode = 0o700 }
      else private_file);
  present = λ p t. ok (if contains absent p then false else true);
  content = λ p t. ok (2000, some policy);
  read_lines = λ p t. ok (if p == "backup.env" then "BACKUP_REMOTE=gs://copies" ∷ [] else markers);
  free = λ t. ok (16 * 1024 ^ 3);
  instance_value = λ p t. ok (
      if p == "project/project-id"
      then "mapcenter-b59ca"
      else (if p == "instance/name"
          then "map-test"
          else (if p == "instance/id" then "2327348931395410137" else "us-central1-a")));
  output = λ a t. ok (
      if contains a "rev-parse"
      then "0123456789abcdef0123456789abcdef01234567"
      else (if contains a "{{.Image}}" then digest else ""));
  lines = λ a t. ok (if any_label a running then "aaaaaaaaaaaa" ∷ [] else []);
  json = λ a t. ok (
      if contains a "image"
      then inspected
      else (if contains a "monitoring"
          then admin_config
          else app_config (
              contains a
                "/var/lib/map-deploy/release-17-0/infrastructure/compose.infrastructure.yml")));
  http = λ u t. ok (
      if contains refused_addresses u
      then answered 401 none
      else answered 200 (some (object (field "status" (text "UP") end))));
  unpack = λ t. ok (record empty_release { images = map image_of six_services });
}
