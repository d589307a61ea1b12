-- ===== src/CutoverWatchdog/Receipt.antt =====
-- What scripts/cutover_watchdog.py reads: container metadata, the maintenance hold and the ready
-- receipt, as JSON values; and `exact_image_tuple` of scripts/deploy-gcp.py.
use map_service_infra.Base.{
  String, ◌<>◌, Bool, true, false, ◌&&◌, Option, none, some, List, [], ◌∷◌, ◌==◌, contains,
  string_eq, Eq, nat_eq, if◌then◌else◌, codes, is_hex64, is_sha256, after_prefix, hex_run,
}
use map_service_infra.Base.Json.{
  Json, bool, int, number, text, object, Fields, end, field, get, exact_keys, text_where, is_int,
}
use map_service_infra.Base.Result.{Error, coded, Result, ok, err, require, ◌>>=◌, ◌>>◌}

pub record Identity : Type 0 where
  pub id : String
  pub image : String

Identity-discrete : Discrete Identity
Identity-discrete = hlevel (string_eq.dec)

instance unfoldable pub identity_eq : Eq Identity
unfolding Identity-discrete
identity_eq = record { dec = Identity-discrete }

Tuple-discrete : Discrete (List String)
Tuple-discrete = hlevel (string_eq.dec)

instance unfoldable pub tuple_eq : Eq (List String)
unfolding Tuple-discrete
tuple_eq = record { dec = Tuple-discrete }

-- One public container as `docker inspect` shows it.
pub record Item : Type 0 where
  pub id : String
  pub image : String
  pub running : Bool
  pub restart : String

-- The cutover latch. `candidate` has the images of the six services in their order.
pub record Latch : Type 0 where
  pub instance_id : String
  pub run_id : String
  pub infra_sha : String
  pub phase : String
  pub candidate : List String
  pub bundle : String
  pub prior_rollback_compatible : Bool

abbrev bool_field : Option Json → Option Bool
bool_field (some (bool b)) = some b
bool_field _ = none

abbrev any_text : String → Bool
any_text s = true

abbrev metadata_error : Error
metadata_error = coded "invalid container metadata"

abbrev item_of : Option String → Option String → Option Bool → Option String → Result Item
item_of (some i) (some m) (some r) (some p) =
    ok (record { id = i; image = m; running = r; restart = p })
item_of _ _ _ _ = err metadata_error

-- The checks of one container in `containers`.
unfoldable pub parse_item : Json → Result Item
unfolding exact_keys get
parse_item (object f) = do
  require (exact_keys ("id" ∷ "image" ∷ "running" ∷ "restart" ∷ []) f) "invalid container metadata"
  item_of (text_where is_hex64 (get "id" f)) (text_where is_sha256 (get "image" f))
      (bool_field (get "running" f)) (text_where any_text (get "restart" f))
parse_item _ = err metadata_error

-- `value == True`, which also holds of the number one.
abbrev equals_true : Option Json → Bool
equals_true (some (bool b)) = b
equals_true (some (int n)) = n == 1
equals_true (some (number s)) = s == "1.0"
equals_true _ = false

abbrev pub is_text : String → Option Json → Bool
is_text s (some (text t)) = t == s
is_text s _ = false

unfoldable pub is_hold : String → Json → Bool
unfolding exact_keys get
is_hold instance_id (object f) =
    exact_keys ("schema_version" ∷ "instance_id" ∷ "hold" ∷ []) f
    && (is_int (λ n. n == 1) (get "schema_version" f)
        && (is_text instance_id (get "instance_id" f) && equals_true (get "hold" f)))
is_hold instance_id _ = false

abbrev pub six_services : List String
six_services = "user" ∷ "agent" ∷ "hub" ∷ "yolo" ∷ "admin" ∷ "admin-web" ∷ []

-- `ghcr.io/we-meet-trip/map-service-<service>@sha256:[a-f0-9]{64}`
unfoldable pub is_image_of : String → String → Bool
unfolding after_prefix hex_run
is_image_of service s =
    after_prefix (codes ("ghcr.io/we-meet-trip/map-service-" <> (service <> "@sha256:"))) (codes s)
      (hex_run 64)

unfoldable pub images : List String → Fields → Result (List String)
unfolding is_image_of get
images [] f = ok []
images (s ∷ ss) f =
    let rest = images ss f in
    elim (text_where (is_image_of s) (get s f)) [
      | none ↦ err (coded "policy requires fixed repository and exact digest")
      | some i ↦ rest >>= λ is. ok (i ∷ is)
    ]

-- `exact_image_tuple`, with the images in the order of the services.
unfoldable pub exact_image_tuple : Option Json → Result (List String)
unfolding exact_keys images
exact_image_tuple (some (object f)) = do
  require (exact_keys six_services f) "policy requires exactly six services"
  images six_services f
exact_image_tuple _ = err (coded "policy requires exactly six services")

identity : Option String → Option String → Option Identity
identity (some i) (some m) = some (record { id = i; image = m })
identity _ _ = none

identity_value : Option Json → Option Identity
unfolding exact_keys get identity
identity_value (some (object f)) =
    if exact_keys ("id" ∷ "image" ∷ []) f
    then identity (text_where is_hex64 (get "id" f)) (text_where is_sha256 (get "image" f))
    else none
identity_value _ = none

-- The identity that the receipt's `public` records for a service.
unfoldable pub identity_of : String → Fields → Option Identity
unfolding identity_value get
identity_of s public = identity_value (get s public)

abbrev is_some {ℓ} : {A : Type ℓ} → Option A → Bool
is_some none = false
is_some (some a) = true

all_identities : Fields → Bool
unfolding identity_value
all_identities end = true
all_identities (field k v rest) = is_some (identity_value (some v)) && all_identities rest

-- `data["public"]`
unfoldable pub public_of : Json → Fields
unfolding get
public_of (object f) = elim (get "public" f) [ some (object p) ↦ p | some v ↦ end | none ↦ end ]
public_of _ = end

abbrev is_object : Option Json → Bool
is_object (some (object p)) = true
is_object _ = false

abbrev receipt_keys : List String
receipt_keys =
    "schema_version" ∷ "instance_id" ∷ "run_id" ∷ "infra_sha" ∷ "phase" ∷ "approved" ∷ "public" ∷ []

-- The checks that are made before the policy is read; they give the fields.
unfoldable pub check_head : Latch → Json → Result Fields
unfolding exact_keys get
check_head l (object f) = do
  require
      (exact_keys receipt_keys f
        && (is_int (λ n. n == 1) (get "schema_version" f)
            && (is_text l.instance_id (get "instance_id" f)
                && (is_text l.run_id (get "run_id" f)
                    && (is_text l.infra_sha (get "infra_sha" f)
                        && is_text l.phase (get "phase" f))))))
      "stale or invalid ready receipt"
  ok f
check_head l _ = err (coded "stale or invalid ready receipt")

unfoldable pub check_public : Option Json → Fields → Result Fields
unfolding all_identities exact_keys
check_public value public = do
  require (is_object value && exact_keys ("edge" ∷ "proxy" ∷ "user" ∷ "yolo" ∷ []) public)
      "invalid public receipt"
  require (all_identities public) "invalid public receipt identity"
  ok public

-- The checks after it; they give `data["public"]`.
unfoldable pub check_tail : List (List String) → Fields → Result Fields
unfolding exact_image_tuple check_public public_of get
check_tail choices f = do
  approved ← exact_image_tuple (get "approved" f)
  require (contains choices approved) "ready tuple no longer approved"
  check_public (get "public" f) (public_of (object f))
