-- ===== src/Receiver/Target.antt =====
-- The target that a host is bound to, scripts/deploy-gcp.py: `LEGACY_TARGET` and `validate_target`.
use map_service_infra.Base.{ℕ, String, Bool, true, ◌&&◌, ◌||◌, some, List, [], ◌∷◌, eqb}
use map_service_infra.Base.Json.{Json, bool, text, object, Fields, get, exact_keys}
use map_service_infra.Base.Regex.{
  Regex, one, cat, star, rep, full_match, literal, lower, digit, alphanumeric, run_number, some_of,
  maybe,
}
use map_service_infra.Base.Result.{coded, Result, ok, err, require, ◌>>=◌, ◌>>◌}
use map_service_infra.Receiver.Model.{Target}

abbrev pub legacy_target : Target
legacy_target = record {
  project = "mapcenter-b59ca";
  zone = "us-central1-a";
  instance_name = "map-test";
  instance_id = "2327348931395410137";
  public_url = "https://mapapptest.duckdns.org";
  repo = "/home/mapadmin26/map-service-infra";
  dns_profile = true;
}

abbrev lower_or_digit : ℕ → Bool
lower_or_digit c = lower c || digit c

abbrev dashed : ℕ → Bool
dashed c = lower_or_digit c || eqb c b'-'

-- `[a-z0-9](?:[a-z0-9-]{0,61}[a-z0-9])?`, with the first character as given.
abbrev label : (ℕ → Bool) → Regex
label first = cat (one first) (maybe (cat (rep 0 61 (one dashed)) (one lower_or_digit)))

abbrev project_pattern : Regex
project_pattern = cat (one lower) (cat (rep 4 28 (one dashed)) (one lower_or_digit))

abbrev zone_pattern : Regex
zone_pattern = cat (some_of (one lower)) (
    cat (literal "-")
      (cat (some_of (one lower)) (cat (some_of (one digit)) (cat (literal "-") (one lower)))))

abbrev url_pattern : Regex
url_pattern =
    cat (literal "https://")
      (cat (some_of (cat (label lower_or_digit) (literal "."))) (rep 2 63 (one lower)))

abbrev repo_pattern : Regex
repo_pattern = some_of (
    cat (literal "/") (
      cat (one (λ c. alphanumeric c || eqb c b'_'))
        (star (one (λ c. alphanumeric c || (eqb c b'.' || (eqb c b'_' || eqb c b'-')))))))

target_keys : List String
target_keys =
    "project" ∷ "zone" ∷ "instance" ∷ "instance_id" ∷ "public_url" ∷ "repo" ∷ "dns_profile" ∷ []

text_field : String → Fields → Result String
unfolding get
text_field k f = elim (get k f) [
  | some (text s) ↦ ok s
  | _ ↦ err (coded "invalid deployment target types")
]

bool_field : String → Fields → Result Bool
unfolding get
bool_field k f = elim (get k f) [
  | some (bool b) ↦ ok b
  | _ ↦ err (coded "invalid deployment target types")
]

-- The value tests of `validate_target`.
unfoldable pub has_target_values : Target → Bool
unfolding full_match
has_target_values t =
    full_match project_pattern t.project
    && (full_match zone_pattern t.zone
        && (full_match (label lower) t.instance_name
            && (full_match run_number t.instance_id
                && (full_match url_pattern t.public_url && full_match repo_pattern t.repo))))

target_of : Fields → Result Target
unfolding text_field bool_field
target_of f = do
  project ← text_field "project" f
  zone ← text_field "zone" f
  instance_name ← text_field "instance" f
  instance_id ← text_field "instance_id" f
  public_url ← text_field "public_url" f
  repo ← text_field "repo" f
  dns_profile ← bool_field "dns_profile" f
  ok (record {
    project = project;
    zone = zone;
    instance_name = instance_name;
    instance_id = instance_id;
    public_url = public_url;
    repo = repo;
    dns_profile = dns_profile;
  })

unfoldable pub validate_target : Json → Result Target
unfolding exact_keys target_keys target_of has_target_values
validate_target (object f) = do
  require (exact_keys target_keys f) "invalid deployment target schema"
  t ← target_of f
  require (has_target_values t) "invalid deployment target value"
  ok t
validate_target _ = err (coded "invalid deployment target schema")
