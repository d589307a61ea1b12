-- ===== src/Receiver/Infrastructure.antt =====
-- The containers of the infrastructure, scripts/deploy-gcp.py: `image_metadata`,
-- `capture_infrastructure`, `verify_infrastructure_images` and `snapshot_images`.
pub mod Quiet
pub mod Verified
use map_service_infra.Base.{
  ℕ, ◌<>◌, String, Bool, true, false, not, ◌&&◌, ◌||◌, Option, none, some, List, [], ◌∷◌, ◌++◌, map,
  ◌==◌, contains, string_eq, option_eq, if◌then◌else◌, codes, is_hex_digit, is_sha256, leb,
}
use map_service_infra.Base.Lists.{length, all_of}
use map_service_infra.Base.Json.{Json, null, text, array, object, Items, nil, cons, Fields, get}
use map_service_infra.Base.Result.{Error, coded, other, Result, ok, err}
use map_service_infra.Base.Exec.{Exec, pure, raise, lift, ◌>>=◌, ◌>>◌, require}
use map_service_infra.Base.World.{call}
use map_service_infra.CutoverWatchdog.Receipt.{is_text}
use map_service_infra.Receiver.Model.{
  Site, Image, Captured, Pinned, Projects, Host, State, query, save,
}

abbrev pub application : String
application = "map-test"

abbrev pub administration : String
administration = "map-admin-test"

-- The services of `INFRASTRUCTURE` with their repositories.
abbrev pub application_infrastructure : List (String × String)
application_infrastructure =
    ("postgres", "postgis/postgis")
    ∷ ("redis", "redis")
    ∷ ("proxy", "nginx")
    ∷ ("edge", "caddy")
    ∷ ("dns", "curlimages/curl")
    ∷ []

abbrev pub admin_infrastructure : List (String × String)
admin_infrastructure =
    ("prometheus", "prom/prometheus")
    ∷ ("grafana", "grafana/grafana")
    ∷ ("postgres-exporter", "prometheuscommunity/postgres-exporter")
    ∷ ("redis-exporter", "oliver006/redis_exporter")
    ∷ ("node-exporter", "prom/node-exporter")
    ∷ []

abbrev pub target_exporters : List String
target_exporters = "postgres-exporter" ∷ "redis-exporter" ∷ "node-exporter" ∷ []

unfoldable pub admin_services : Site → List String
admin_services s =
    if s.detached
    then target_exporters
    else "admin" ∷ "admin-web" ∷ "prometheus" ∷ "grafana" ∷ "postgres-exporter" ∷ "redis-exporter"
      ∷ "node-exporter" ∷ "cadvisor" ∷ []

unfoldable pub app_services : Site → List String
app_services s =
    let rest = "proxy" ∷ "edge" ∷ (if s.target.dns_profile then "dns" ∷ [] else []) in
    "user" ∷ "agent" ∷ "hub" ∷ "yolo" ∷ rest

abbrev pub filters : String → String → List String
filters project service =
    "--filter"
    ∷ ("label=com.docker.compose.project=" <> project)
    ∷ "--filter"
    ∷ ("label=com.docker.compose.service=" <> service)
    ∷ []

-- `re.fullmatch(r"[0-9a-f]{12,64}", text)`
pub is_short_id : String → Bool
unfolding all_of
is_short_id s =
    leb 12 (length (codes s)) && (leb (length (codes s)) 64 && all_of is_hex_digit (codes s))

abbrev pub value_of {ℓ} : {A : Type ℓ} → String → List (String × A) → Option A
value_of k [] = none
value_of k ((j, v) ∷ rest) = if j == k then some v else value_of k rest

abbrev pub names_of {ℓ} : {A : Type ℓ} → List (String × A) → List String
names_of [] = []
names_of ((j, v) ∷ rest) = j ∷ names_of rest

texts_in : Items → List String
texts_in nil = []
texts_in (cons (text s) rest) = s ∷ texts_in rest
texts_in (cons _ rest) = texts_in rest

abbrev image_error : Error
image_error = coded "invalid image digest evidence"

-- `value.get("repo_digests") or []`; of the values only the texts are ever read.
repo_digests : Option Json → Result (List String)
unfolding texts_in
repo_digests none = ok []
repo_digests (some null) = ok []
repo_digests (some (array items)) = ok (texts_in items)
repo_digests (some _) = err image_error

-- `bool(release.DIGEST.fullmatch(value.get("image_id", "")))`, which raises on another type.
image_id : Option Json → Result String
image_id none = err (coded "invalid infrastructure image ID")
image_id (some (text s)) =
    if is_sha256 s then ok s else err (coded "invalid infrastructure image ID")
image_id (some _) = err other

inspect_template : String
inspect_template =
    "{\"image_id\":{{json .Id}},\"os\":{{json .Os}},\"architecture\":{{json .Architecture}},\"repo_digests\":{{json .RepoDigests}}}"

pub image_of : Json → Exec State Image
unfolding image_id repo_digests get
image_of (object f) = do
  id ← lift (image_id (get "image_id" f))
  require (is_text "linux" (get "os" f) && is_text "amd64" (get "architecture" f))
      "infrastructure requires linux/amd64 image"
  digests ← lift (repo_digests (get "repo_digests" f))
  pure (record { image_id = id; repo_digests = digests })
image_of _ = raise (coded "invalid infrastructure image ID")

abbrev listed : {A : Type 0} → List (String × A) → String → Option A → List (String × A)
listed rest service none = rest
listed rest service (some a) = (service, a) ∷ rest

-- The lines of a Compose override that pins images.
abbrev pub pin_lines : String → String → List String → List String
pin_lines service image more =
    ("  " <> (service <> ":")) ∷ "    build: !reset null" ∷ ("    image: " <> image) ∷ more

abbrev pub override_lines : List String → List String
override_lines [] = "services: {}" ∷ []
override_lines (l ∷ ls) = "services:" ∷ l ∷ ls

module _ (h : Host) where
  unfoldable pub image_metadata : String → Exec State Image
  unfolding image_of inspect_template
  image_metadata image = do
    let args = "docker" ∷ "image" ∷ "inspect" ∷ "--format" ∷ inspect_template ∷ image ∷ []
    value ← call (query args) (h.json args)
    image_of value

  pub running_image : String → Exec State String
  running_image cid = do
    let args = "docker" ∷ "inspect" ∷ "--format" ∷ "{{.Image}}" ∷ cid ∷ []
    call (query args) (h.output args)

  pub capture_sole : List String → Exec State (Option Captured)
  unfolding image_metadata running_image is_short_id
  capture_sole [] = pure none
  capture_sole (cid ∷ more) = do
    require (is_short_id cid) "invalid infrastructure container ID"
    image ← running_image cid
    require (is_sha256 image) "invalid existing infrastructure image ID"
    metadata ← image_metadata image
    require (metadata.image_id == image) "existing image identity mismatch"
    pure (some (record { image = metadata; container_id = cid }))

  pub capture_service : String → String → Exec State (Option Captured)
  unfolding capture_sole
  capture_service project service = do
    let args = "docker" ∷ "ps" ∷ "-a" ∷ (filters project service ++ ("--format" ∷ "{{.ID}}" ∷ []))
    ids ← call (query args) (h.lines args)
    require (leb (length ids) 1) "multiple infrastructure containers for a service"
    capture_sole ids

  pub capture_project : String → List (String × String) → Exec State (List (String × Captured))
  unfolding capture_service
  capture_project project [] = pure []
  capture_project project ((service, repository) ∷ rest) = do
    found ← capture_service project service
    more ← capture_project project rest
    pure (listed more service found)

  pub only_exporters : List (String × String) → List (String × String)
  only_exporters [] = []
  only_exporters ((service, repository) ∷ rest) =
      let more = only_exporters rest in
      if contains target_exporters service then (service, repository) ∷ more else more

  unfoldable pub capture_infrastructure : Site → Exec State (Projects Captured)
  unfolding capture_project only_exporters
  capture_infrastructure s = do
    app ← capture_project application application_infrastructure
    admin ←
        capture_project administration
          (if s.detached then only_exporters admin_infrastructure else admin_infrastructure)
    require (contains (names_of app) "postgres" && contains (names_of app) "redis")
        "existing PostgreSQL and Redis are required"
    pure ((application, app) ∷ (administration, admin) ∷ [])

  pub verify_sole : String → String → Pinned → List String → Exec State Unit
  unfolding running_image is_short_id
  verify_sole project service pin (cid ∷ []) = do
    require (is_short_id cid) "infrastructure did not start exactly once"
    require
        (not (project == application && (service == "postgres" || service == "redis"))
          || some cid == pin.container_id)
        "stateful container was recreated by app release"
    image ← running_image cid
    require (image == pin.image.image_id) "running infrastructure image changed unexpectedly"
  verify_sole project service pin _ = raise (coded "infrastructure did not start exactly once")

  pub verify_service : String → String → Pinned → Exec State Unit
  unfolding verify_sole
  verify_service project service pin = do
    let args = "docker" ∷ "ps" ∷ (filters project service ++ ("--format" ∷ "{{.ID}}" ∷ []))
    ids ← call (query args) (h.lines args)
    verify_sole project service pin ids

  pub verify_project : String → List (String × Pinned) → Exec State Unit
  unfolding verify_service
  verify_project project [] = pure tt
  verify_project project ((service, pin) ∷ rest) = do
    verify_service project service pin
    verify_project project rest

  unfoldable pub verify_infrastructure_images : Projects Pinned → Exec State Unit
  unfolding verify_project
  verify_infrastructure_images [] = pure tt
  verify_infrastructure_images ((project, pins) ∷ rest) = do
    verify_project project pins
    verify_infrastructure_images rest

  pub snapshot_sole : List String → Exec State (Option String)
  unfolding running_image
  snapshot_sole [] = pure none
  snapshot_sole (cid ∷ more) = do
    image ← running_image cid
    require (is_sha256 image) "invalid prior image ID"
    pure (some image)

  -- The services with a container, each with its image.
  pub snapshot_project : String → Bool → List String → Exec State (List (String × String))
  unfolding snapshot_sole
  snapshot_project project include_stopped [] = pure []
  snapshot_project project include_stopped (service ∷ rest) = do
    let args =
        "docker"
        ∷ "ps"
        ∷ ((if include_stopped then "-a" ∷ [] else [])
            ++ (filters project service ++ ("--format" ∷ "{{.ID}}" ∷ [])))
    ids ← call (query args) (h.lines args)
    require (leb (length ids) 1) "multiple containers for a service"
    found ← snapshot_sole ids
    more ← snapshot_project project include_stopped rest
    pure (listed more service found)

  pub snapshot_lines : List (String × String) → List String
  snapshot_lines [] = []
  snapshot_lines ((service, image) ∷ rest) =
      pin_lines service image ("    pull_policy: never" ∷ snapshot_lines rest)

  unfoldable pub snapshot_images : Site → Bool → Exec State (Projects String)
  unfolding snapshot_project snapshot_lines admin_services app_services
  snapshot_images s include_stopped = do
    app ← snapshot_project application include_stopped (app_services s)
    call (save "compose.images.yml" (override_lines (snapshot_lines app)))
        (h.save "compose.images.yml")
    admin ← snapshot_project administration include_stopped (admin_services s)
    let file = if s.detached then "compose.target-images.yml" else "compose.admin-images.yml"
    call (save file (override_lines (snapshot_lines admin))) (h.save file)
    require (contains (names_of app) "user") "existing BFF is required for safe automated rollback"
    pure ((application, app) ∷ (administration, admin) ∷ [])
