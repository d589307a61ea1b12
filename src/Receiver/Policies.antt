-- ===== src/Receiver/Policies.antt =====
-- The policies of the host that scripts/deploy-gcp.py reads as JSON: `load_rollback_policy`,
-- `load_cutover_latch`, `candidate_images` and the checks of `topology_scope`.
use map_service_infra.Base.{
  ℕ, suc, String, Bool, true, false, not, ◌&&◌, Option, none, some, List, [], ◌∷◌, ◌==◌, contains,
  string_eq, if◌then◌else◌, eqb, leb,
}
use map_service_infra.Base.Json.{
  Json, null, bool, int, number, text, array, object, Items, nil, cons, Fields, get, exact_keys,
  text_where, is_int,
}
use map_service_infra.Base.Regex.{full_match, run_number, sha1}
use map_service_infra.Base.Result.{Error, coded, other, Result, ok, err, require, ◌>>=◌, ◌>>◌}
use map_service_infra.Base.{is_hex64}
use map_service_infra.CutoverWatchdog.Receipt.{
  Latch, exact_image_tuple, is_text, is_image_of, six_services, tuple_eq,
}
use map_service_infra.Receiver.Compose.Config.{object_or_empty}

pub record Policy : Type 0 where
  pub candidate_allowed : List (List String)
  pub rollback_verified : List (List String)

-- The tuples of a policy list, none of them twice.
tuples : List (List String) → Items → Result (List (List String))
unfolding exact_image_tuple
tuples unique nil = ok []
tuples unique (cons v rest) = do
  t ← exact_image_tuple (some v)
  require (not (contains unique t)) "duplicate rollback tuple"
  more ← tuples (t ∷ unique) rest
  ok (t ∷ more)

count : Items → ℕ
count nil = 0
count (cons v rest) = suc (count rest)

policy_list : Option Json → Result (List (List String))
unfolding tuples count
policy_list (some (array items)) = do
  require (leb (count items) 32) "invalid rollback policy list"
  tuples [] items
policy_list _ = err (coded "invalid rollback policy list")

policy_keys : List String
policy_keys = "schema_version" ∷ "instance_id" ∷ "candidate_allowed" ∷ "rollback_verified" ∷ []

-- `exact_image_tuple(candidate)`
exact_images : List String → List String → Bool
unfolding is_image_of
exact_images [] [] = true
exact_images [] (i ∷ is) = false
exact_images (s ∷ ss) [] = false
exact_images (s ∷ ss) (i ∷ is) = is_image_of s i && exact_images ss is

unfoldable pub rollback_policy : String → List String → Json → Result Policy
unfolding exact_keys policy_keys policy_list exact_images get
rollback_policy instance_id candidate (object f) = do
  require (exact_keys policy_keys f) "invalid rollback policy schema"
  require
      (is_int (λ n. eqb n 1) (get "schema_version" f) && is_text instance_id (get "instance_id" f))
      "rollback policy instance mismatch"
  allowed ← policy_list (get "candidate_allowed" f)
  verified ← policy_list (get "rollback_verified" f)
  require (exact_images six_services candidate && contains allowed candidate)
      "candidate is not explicitly allowed"
  ok (record { candidate_allowed = allowed; rollback_verified = verified })
rollback_policy instance_id candidate _ = err (coded "invalid rollback policy schema")

latch_keys : List String
latch_keys =
    "schema_version" ∷ "instance_id" ∷ "phase" ∷ "run_id" ∷ "infra_sha" ∷ "bundle" ∷ "candidate"
    ∷ "prior_rollback_compatible" ∷ []

abbrev pub cutover_phases : List String
cutover_phases =
    "starting_private" ∷ "rollover" ∷ "rollover_failed_serving" ∷ "private_ready"
    ∷ "opening_ingress" ∷ "complete" ∷ "quarantined" ∷ "quarantine_failed" ∷ "rolled_back"
    ∷ "rollback_failed_quarantined" ∷ []

abbrev flag : Option Json → Option Bool
flag (some (bool b)) = some b
flag _ = none

abbrev state_error : Error
state_error = coded "invalid cutover state"

abbrev or_state : {A : Type 0} → Option A → Result A
or_state none = err state_error
or_state (some a) = ok a

unfoldable pub cutover_latch : String → Json → Result Latch
unfolding exact_keys latch_keys get full_match exact_image_tuple
cutover_latch instance_id (object f) = do
  require (exact_keys latch_keys f) "invalid cutover latch"
  require
      (is_int (λ n. eqb n 1) (get "schema_version" f) && is_text instance_id (get "instance_id" f))
      "invalid cutover state"
  phase ← or_state (text_where (contains cutover_phases) (get "phase" f))
  compatible ← or_state (flag (get "prior_rollback_compatible" f))
  run_id ← or_state (text_where (full_match run_number) (get "run_id" f))
  infra_sha ← or_state (text_where (full_match sha1) (get "infra_sha" f))
  bundle ← or_state (text_where (λ s. true) (get "bundle" f))
  candidate ← exact_image_tuple (get "candidate" f)
  ok (record {
    instance_id = instance_id;
    run_id = run_id;
    infra_sha = infra_sha;
    phase = phase;
    candidate = candidate;
    bundle = bundle;
    prior_rollback_compatible = compatible;
  })
cutover_latch instance_id _ = err (coded "invalid cutover latch")

-- `value == 1`
equals_one : Option Json → Bool
equals_one (some (int n)) = eqb n 1
equals_one (some (bool b)) = b
equals_one (some (number s)) = s == "1.0"
equals_one _ = false

-- The digest of the handoff evidence that the topology policy names.
unfoldable pub topology_evidence : String → Json → Result String
unfolding equals_one get
topology_evidence instance_id (object f) = do
  require
      (equals_one (get "schema_version" f)
        && (is_text instance_id (get "instance_id" f) && is_text "application" (get "mode" f)))
      "invalid topology policy"
  elim (get "verified_admin_handoff_sha256" f) [
    | some (text s) ↦
        if is_hex64 s then ok s else err (coded "verified independent admin handoff required")
    | none ↦ err (coded "verified independent admin handoff required")
    | some _ ↦ err other
  ]
topology_evidence instance_id _ = err other

-- `value not in (None, "", INSTANCE_ID)`
another : String → Option Json → Bool
another instance_id none = false
another instance_id (some null) = false
another instance_id (some (text s)) = not (s == "") && not (s == instance_id)
another instance_id (some _) = true

passed : Fields → List String → Bool
unfolding get
passed checks [] = true
passed checks (c ∷ cs) = is_text "PASS" (get c checks) && passed checks cs

abbrev required_checks : List String
required_checks =
    "control_auth" ∷ "target_read" ∷ "target_isolation" ∷ "browser_charts" ∷ "audit_restore"
    ∷ "serving_survives_admin_failure" ∷ []

unfoldable pub verify_handoff : String → Json → Result (Unit {0})
unfolding another passed get
verify_handoff instance_id (object f) = do
  require
      (is_text "PASS" (get "status" f)
        && (is_text instance_id (get "application_instance_id" f)
            && another instance_id (get "central_instance_id" f)))
      "independent administrator identity not verified"
  checks ← object_or_empty (get "checks" f)
  require (passed checks required_checks) "independent administrator acceptance incomplete"
verify_handoff instance_id _ = err other
