-- ===== src/Serving/Configuration.antt =====
-- `configuration` of scripts/ncp-production-serving.py: the pins that an operator approves.
use map_service_infra.Base.{
  ℕ, String, Bool, true, false, ◌&&◌, ◌||◌, Option, none, some, List, [], ◌∷◌, ◌++◌, ◌==◌,
  string_eq, nat_eq, if◌then◌else◌, is_hex64, leb, eqb, codes,
}
use map_service_infra.Base.Lists.{length, all_of}
use map_service_infra.Base.Json.{
  Json, null, object, Fields, get, keys, exact_keys, text_where, is_int, required,
}
use map_service_infra.Base.Result.{Result, ok, err, coded, require, ◌>>=◌, ◌>>◌}

pub record UserRelease : Type 0 where
  pub release_name : String
  pub security_approval_sha256 : String
  pub release_manifest_sha256 : String

-- The fields of a dict that passed `configuration`.
pub record Config : Type 0 where
  pub runtime_env_sha256 : String
  pub public_manifest_sha256 : Option String
  pub gemini_key_sha256 : String
  pub user_release : Option UserRelease

abbrev is_lower : ℕ → Bool
is_lower c = leb b'a' c && leb c b'z'

abbrev is_name_char : ℕ → Bool
is_name_char c = is_lower c || ((leb b'0' c && leb c b'9') || eqb b'-' c)

name_codes : List ℕ → Bool
unfolding all_of
name_codes [] = false
name_codes (c ∷ cs) =
    is_lower c && (leb 1 (length cs) && (leb (length cs) 63 && all_of is_name_char cs))

-- `[a-z][a-z0-9-]{1,63}`
unfoldable pub is_release_name : String → Bool
unfolding name_codes
is_release_name s = name_codes (codes s)

abbrev base_keys : List String
base_keys =
    "schema_version" ∷ "environment" ∷ "runtime_env_sha256" ∷ "public_manifest_sha256"
    ∷ "gemini_key_sha256" ∷ []

abbrev release_keys : List String
release_keys = "release_name" ∷ "security_approval_sha256" ∷ "release_manifest_sha256" ∷ []

abbrev has : Option Json → Bool
has none = false
has (some v) = true

-- `None`, or a pin.
null_or_pin : Option Json → Result (Option String)
null_or_pin (some null) = ok none
null_or_pin v = required (text_where is_hex64 v) "public_input_hash_invalid" >>= λ s. ok (some s)

user_release_fields : Fields → Result UserRelease
unfolding is_release_name
user_release_fields f = do
  require (exact_keys release_keys f) "user_release_configuration_invalid"
  name ← required (text_where is_release_name (get "release_name" f)) "user_release_name_invalid"
  approval ←
      required (text_where is_hex64 (get "security_approval_sha256" f)) "user_release_pin_required"
  manifest ←
      required (text_where is_hex64 (get "release_manifest_sha256" f)) "user_release_pin_required"
  ok (record {
    release_name = name;
    security_approval_sha256 = approval;
    release_manifest_sha256 = manifest;
  })

user_release_value : Option Json → Result (Option UserRelease)
unfolding user_release_fields
user_release_value none = ok none
user_release_value (some null) = ok none
user_release_value (some (object f)) = user_release_fields f >>= λ u. ok (some u)
user_release_value (some v) = err (coded "user_release_configuration_invalid")

abbrev is_text : String → Option Json → Bool
is_text s (some (Json.text t)) = t == s
is_text s _ = false

configuration_fields : Fields → Result Config
unfolding null_or_pin user_release_value
configuration_fields f = do
  require
      (exact_keys (base_keys ++ (if has (get "user_release" f) then "user_release" ∷ [] else [])) f)
      "serving_configuration_invalid"
  require (is_int (λ n. n == 1) (get "schema_version" f) && is_text "prod" (get "environment" f))
      "production_serving_required"
  env ← required (text_where is_hex64 (get "runtime_env_sha256" f)) "serving_input_hash_required"
  gemini ← required (text_where is_hex64 (get "gemini_key_sha256" f)) "serving_input_hash_required"
  manifest ← null_or_pin (get "public_manifest_sha256" f)
  update ← user_release_value (get "user_release" f)
  ok (record {
    runtime_env_sha256 = env;
    public_manifest_sha256 = manifest;
    gemini_key_sha256 = gemini;
    user_release = update;
  })

unfoldable pub configuration : Json → Result Config
unfolding configuration_fields get keys exact_keys
configuration (object f) = configuration_fields f
configuration _ = err (coded "serving_configuration_invalid")
