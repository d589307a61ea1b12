-- ===== src/Receiver/Compose/Config.antt =====
-- The checks of `preflight` (scripts/deploy-gcp.py) on the configuration that Compose merges.
use map_service_infra.Base.{
  same_text, ℕ, ◌+◌, String, Bool, true, false, not, ◌&&◌, ◌||◌, Option, none, some, List, [], ◌∷◌,
  map, ◌==◌, contains, subset, string_eq, if◌then◌else◌, codes, eqb, after_prefix,
}
use map_service_infra.Base.Json.{
  Json, null, bool, int, number, text, array, object, nil, cons, Fields, end, field, get, keys,
}
use map_service_infra.Base.Regex.{upper}
use map_service_infra.Base.Result.{other, Result, ok, err, require, ◌>>=◌, ◌>>◌}
use map_service_infra.CutoverWatchdog.Receipt.{is_text, is_image_of}
use map_service_infra.Receiver.Model.{Site}
use map_service_infra.Receiver.Infrastructure.{application, administration, target_exporters}

-- `value.get(name, {})`, whose methods are then called.
abbrev pub object_or_empty : Option Json → Result Fields
object_or_empty none = ok end
object_or_empty (some (object f)) = ok f
object_or_empty (some _) = err other

-- `value[name]`
abbrev pub object_at : Option Json → Result Fields
object_at (some (object f)) = ok f
object_at _ = err other

-- `value.get(name, "")`, given to a pattern.
abbrev pub text_or_empty : Option Json → Result String
text_or_empty none = ok ""
text_or_empty (some (text s)) = ok s
text_or_empty (some _) = err other

abbrev lower_code : ℕ → ℕ
lower_code c = if upper c then c + 32 else c

-- `str(value).lower()` is the name of the Boolean.
says : Bool → Json → Bool
unfolding same_text
says b (bool true) = b
says b (bool false) = not b
says b (text s) = same_text (map lower_code (codes s)) (codes (if b then "true" else "false"))
says b _ = false

-- `str(values.get(name, "")).lower() == "true"`
unfoldable pub enforced : Option Json → Bool
unfolding says
enforced none = false
enforced (some v) = says true v

abbrev pub truthy : Json → Bool
truthy null = false
truthy (bool b) = b
truthy (int n) = not (eqb n 0)
truthy (number s) = not (s == "0.0")
truthy (text s) = not (s == "")
truthy (array nil) = false
truthy (array (cons x xs)) = true
truthy (object end) = false
truthy (object (field k v f)) = true

-- `str(values.get(name) or "false").lower() == "false"`
unfoldable pub off : Option Json → Bool
unfolding says
off none = true
off (some v) = not (truthy v) || says false v

-- `str(value.get("name", "")).startswith("map-test_")`
test_volume : Json → Result Bool
unfolding after_prefix get
test_volume (object f) = elim (get "name" f) [
  | some (text s) ↦ ok (after_prefix (codes "map-test_") (codes s) (λ _. true))
  | _ ↦ ok false
]
test_volume _ = err other

test_volumes : Fields → Result Bool
unfolding test_volume
test_volumes end = ok true
test_volumes (field k v f) =
    let rest = test_volumes f in test_volume v >>= λ b. if b then rest else ok false

-- `config.get("networks", {}).get("default", {}).get("name") == "map-test-net"`
test_network : Fields → Result Bool
unfolding get
test_network f = do
  networks ← object_or_empty (get "networks" f)
  default ← object_or_empty (get "default" networks)
  ok (is_text "map-test-net" (get "name" default))

pinned : Fields → List String → Result (Unit {0})
unfolding get is_image_of keys
pinned services [] = ok tt
pinned services (s ∷ ss) =
    let rest = pinned services ss in
    require (contains (keys services) s) "missing application service"
    >> (object_at (get s services) >>= λ entry. text_or_empty (get "image" entry) >>= λ image.
        require (is_image_of s image) "unpinned application image" >> rest)

supervised : Fields → List String → Result Bool
unfolding get
supervised services [] = ok true
supervised services (s ∷ ss) =
    let rest = supervised services ss in
    object_or_empty (get s services) >>= λ entry.
    if is_text "no" (get "restart" entry) then rest else ok false

environment_of : Fields → String → Result Fields
unfolding get
environment_of services s =
    object_at (get s services) >>= λ entry. object_or_empty (get "environment" entry)

-- The environment of one of `user`, `agent` and `hub`.
check_service : Fields → String → Result (Unit {0})
unfolding environment_of enforced off get
check_service services s = do
  values ← environment_of services s
  require (enforced (get "AUTH_ENFORCED" values)) "authentication must be enforced"
  require (s == "hub" || off (get "TRAINING_CAPTURE_ENABLED" values))
      "training capture must remain on hold"
  require (s == "hub" || off (get "TRAINING_EXPORT_ENABLED" values))
      "training export must remain on hold"

unfoldable pub app_images : List String
app_images = "user" ∷ "agent" ∷ "hub" ∷ "yolo" ∷ []

unfoldable pub admin_images : List String
admin_images = "admin" ∷ "admin-web" ∷ []

check_application : Fields → Result (Unit {0})
unfolding supervised check_service environment_of off get
check_application services = do
  restart ← supervised services ("edge" ∷ "proxy" ∷ "user" ∷ "yolo" ∷ [])
  require restart "public services require supervised restart=no"
  check_service services "user"
  check_service services "agent"
  check_service services "hub"
  values ← environment_of services "hub"
  require (off (get "PLACES_STUB_MODE" values)) "stub mode cannot be deployed"

check_exporters : Fields → Result (Unit {0})
unfolding keys
check_exporters services =
    require (subset (keys services) target_exporters && subset target_exporters (keys services))
      "control service cannot return to application host"

-- The services of one project.
check_project : Site → Bool → Fields → Result (Unit {0})
unfolding pinned check_application check_exporters app_images admin_images
check_project s false services = pinned services app_images >> check_application services
check_project s true services =
    if s.detached then check_exporters services else pinned services admin_images

-- One round of `preflight`.
unfoldable pub check_config : Site → Bool → Json → Result (Unit {0})
unfolding test_volumes test_network check_project get
check_config s admin (object f) = do
  require (is_text (if admin then administration else application) (get "name" f))
      "wrong Compose project"
  volumes ← object_or_empty (get "volumes" f)
  ours ← test_volumes volumes
  require ours "non-test volume"
  network ← test_network f
  require network "non-test network"
  services ← object_at (get "services" f)
  check_project s admin services
check_config s admin _ = err other
