-- ===== src/Receiver/Pins.antt =====
-- The pins of the infrastructure that a release starts with, `prepare_infrastructure` of
-- scripts/deploy-gcp.py.
pub mod Reference
pub mod Quiet
pub mod Preserved
use map_service_infra.Base.{
  same_text, ℕ, ◌<>◌, String, Bool, true, false, not, ◌&&◌, ◌||◌, Option, none, some, List, [], ◌∷◌,
  ◌++◌, ◌==◌, contains, subset, string_eq, if◌then◌else◌, codes, is_sha256, hex_run, after_prefix,
}
use map_service_infra.Base.Lists.{keep}
use map_service_infra.Base.Json.{
  Json, null, text, array, object, Items, nil, cons, Fields, end, field, get, keys,
}
use map_service_infra.Base.Result.{Error, coded, other, Result, ok, err}
use map_service_infra.Base.Exec.{Exec, pure, raise, lift, ◌>>=◌, ◌>>◌, require, when}
use map_service_infra.Base.World.{call}
use map_service_infra.CutoverWatchdog.Receipt.{is_text}
use map_service_infra.Receiver.Model.{
  Site, Image, Captured, Pinned, Projects, Host, State, pull, save,
}
use map_service_infra.Receiver.Compose.{Files, compose_config, service_profiles, cloud_up_has}
use map_service_infra.Receiver.Compose.Config.{
  object_or_empty, object_at, text_or_empty, truthy, app_images, admin_images,
}
use map_service_infra.Receiver.Infrastructure.{
  application, administration, application_infrastructure, admin_infrastructure, value_of, names_of,
  image_metadata, pin_lines, override_lines,
}
use Reference.{canonical_repository, split_image, split_digest, ends_with, sorted}

any_profile : List String → Items → Bool
any_profile profiles nil = false
any_profile profiles (cons (text p) rest) = contains profiles p || any_profile profiles rest
any_profile profiles (cons _ rest) = any_profile profiles rest

-- `not item.get("profiles") or profiles.intersection(item["profiles"])`
in_profiles : List String → Option Json → Bool
unfolding any_profile
in_profiles profiles none = true
in_profiles profiles (some (array nil)) = true
in_profiles profiles (some (array (cons p ps))) = any_profile profiles (cons p ps)
in_profiles profiles (some v) = not (truthy v)

-- `selected`, as far as it names the services that are no application image.
candidates : List String → List String → Fields → Result (List String)
unfolding in_profiles get
candidates profiles apps end = ok []
candidates profiles apps (field k (object item) rest) =
    let more = candidates profiles apps rest in
    if in_profiles profiles (get "profiles" item) && not (contains apps k)
    then (elim more [ ok ks ↦ ok (k ∷ ks) | err e ↦ err e ])
    else more
candidates profiles apps (field k _ rest) = err other

without_dns : List (String × String) → List (String × String)
without_dns [] = []
without_dns ((k, v) ∷ rest) =
    let more = without_dns rest in if k == "dns" then more else (k, v) ∷ more

pub approved : Site → Bool → List (String × String)
unfolding without_dns
approved s admin =
    let services = if admin then admin_infrastructure else application_infrastructure in
    if s.target.dns_profile then services else without_dns services

pub is_database : String → Bool
is_database service = service == "postgres" || service == "redis"

-- A digest of the approved repository.
matches_repository : List ℕ → String → Bool
unfolding canonical_repository split_digest same_text hex_run after_prefix
matches_repository repository value = elim (split_digest (codes value)) [
  | none ↦ false
  | some (r, d) ↦
      same_text (canonical_repository r) repository && after_prefix (codes "sha256:") d (hex_run 64)
]

any_ends : List ℕ → List String → Bool
unfolding ends_with
any_ends tail [] = false
any_ends tail (v ∷ vs) = ends_with (codes v) tail || any_ends tail vs

holds_digest : Option (List ℕ) → List String → Bool
unfolding any_ends
holds_digest none digests = true
holds_digest (some d) digests = any_ends (codes "@" ++ d) digests

abbrev is_empty {ℓ} : {A : Type ℓ} → List A → Bool
is_empty [] = true
is_empty (x ∷ xs) = false

split_or_raise : Option (List ℕ × Option (List ℕ)) → Result (List ℕ × Option (List ℕ))
split_or_raise none = err (coded "unapproved infrastructure image repository")
split_or_raise (some p) = ok p

value_or_raise : {A : Type 0} → Option A → Result A
value_or_raise none = err other
value_or_raise (some a) = ok a

pub infra_lines : List (String × Pinned) → List String
infra_lines [] = []
infra_lines ((service, p) ∷ rest) =
    pin_lines service p.image.image_id
      ("    platform: linux/amd64" ∷ "    pull_policy: never" ∷ infra_lines rest)

-- The override applies to the service in the merged configuration.
applied : Pinned → Fields → Bool
unfolding get
applied p actual =
    is_text p.image.image_id (get "image" actual)
    && (is_text "never" (get "pull_policy" actual)
        && (is_text "linux/amd64" (get "platform" actual)
            && not (elim (get "build" actual) [ none ↦ false | some v ↦ truthy v ])))

module _ (h : Host) where
  -- A service that has no container yet.
  pub new_pin : String → String → List ℕ → Option (List ℕ) → Exec State Pinned
  unfolding image_metadata holds_digest matches_repository is_database keep
  new_pin service requested repository digest = do
    require (not (is_database service)) "database image pull is prohibited"
    require (not (service == "edge")) "new edge requires reviewed artifact installation"
    call (pull requested) (h.pull requested)
    image ← image_metadata h requested
    let digests = keep (matches_repository repository) image.repo_digests
    require (not (is_empty digests)) "new infrastructure requires matching registry digest evidence"
    require (holds_digest digest digests) "pulled infrastructure digest mismatch"
    pure (record {
      image = record image { repo_digests = sorted digests };
      container_id = none;
      requested_image = requested;
    })

  pub pin_found : String → String → List ℕ → Option (List ℕ) → Option Captured → Exec State Pinned
  unfolding new_pin
  pin_found service requested repository digest none = new_pin service requested repository digest
  pin_found service requested repository digest (some c) =
      pure (record {
        image = c.image;
        container_id = some c.container_id;
        requested_image = requested;
      })

  pub pin_service :
      List (String × String) → Fields → List (String × Captured) → String → Exec State Pinned
  unfolding pin_found split_image split_or_raise value_or_raise canonical_repository same_text get
  pin_service services configured captured service = do
    item ← lift (object_at (get service configured))
    requested ← lift (text_or_empty (get "image" item))
    repository ← lift (value_or_raise (value_of service services))
    (name, digest) ← lift (split_or_raise (split_image requested))
    require (same_text (canonical_repository name) (codes repository))
        "unapproved infrastructure image repository"
    require (elim (get "platform" item) [ none ↦ true | some v ↦ is_text "linux/amd64" (some v) ])
        "wrong infrastructure platform"
    pin_found service requested (codes repository) digest (value_of service captured)

  pub pin_services :
      List (String × String)
      → Fields
      → List (String × Captured)
      → List String
      → Exec State (List (String × Pinned))
  unfolding pin_service
  pin_services services configured captured [] = pure []
  pin_services services configured captured (s ∷ ss) = do
    p ← pin_service services configured captured s
    rest ← pin_services services configured captured ss
    pure ((s, p) ∷ rest)

  -- One round of the first loop.
  pub pin_project :
      Site → Files → List (String × Captured) → Bool → Exec State (List (String × Pinned))
  unfolding pin_services candidates approved infra_lines get keys
  pin_project s f captured admin = do
    config ← compose_config h admin s f
    merged ← lift (object_at (some config))
    require (is_text (if admin then administration else application) (get "name" merged))
        "wrong infrastructure Compose project"
    configured ← lift (object_or_empty (get "services" merged))
    chosen ← lift (
        candidates (if admin then "monitoring" ∷ [] else service_profiles s)
          (if admin then admin_images else app_images) configured)
    require (subset chosen (names_of (approved s admin))) "unapproved infrastructure service"
    require (subset (names_of captured) chosen)
        "existing infrastructure cannot be removed by app release"
    require (admin || (contains chosen "postgres" && contains chosen "redis"))
        "stateful infrastructure is required"
    pins ← pin_services (approved s admin) configured captured (sorted chosen)
    let file = if admin then "compose.admin-infrastructure.yml" else "compose.infrastructure.yml"
    call (save file (override_lines (infra_lines pins))) (h.save file)
    pure pins

  pub check_applied : Fields → List (String × Pinned) → Exec State Unit
  unfolding applied get
  check_applied services [] = pure tt
  check_applied services ((service, p) ∷ rest) = do
    actual ← lift (object_or_empty (get service services))
    require (applied p actual) "infrastructure image override was not applied"
    check_applied services rest

  -- One round of the second loop.
  pub check_merged : Site → Files → Bool → List (String × Pinned) → Exec State Unit
  unfolding check_applied get
  check_merged s f admin pins = do
    config ← compose_config h admin s f
    merged ← lift (object_at (some config))
    services ← lift (object_or_empty (get "services" merged))
    check_applied services pins

  captured_of : String → Projects Captured → Exec State (List (String × Captured))
  unfolding value_or_raise
  captured_of project captured = lift (value_or_raise (value_of project captured))

  unfoldable pub prepare_infrastructure :
      Site → Files → String → Projects Captured → Exec State (Projects Pinned)
  unfolding pin_project check_merged captured_of sorted
  prepare_infrastructure s f directory captured = do
    marked ← cloud_up_has h s "# MAP_INFRA_IMAGE_BUNDLE_VERSION=1"
    require marked "cloud-up lacks immutable infrastructure support"
    call (save directory []) (h.save directory)
    found ← captured_of application captured
    app ← pin_project s f found false
    there ← captured_of administration captured
    admin ← pin_project s f there true
    call (save "images.json" []) (h.save "images.json")
    let final = record f { infrastructure = some directory }
    check_merged s final false app
    check_merged s final true admin
    pure ((application, app) ∷ (administration, admin) ∷ [])
