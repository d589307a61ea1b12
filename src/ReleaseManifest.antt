-- ===== src/ReleaseManifest.antt =====
-- The manifest of a release and its bundle, scripts/release_manifest.py: `validate`, `compose`,
-- `write_bundle`, `verify_bundle` and what they call.
pub mod Reference
pub mod Images
pub mod Bundle
mod Examples
use map_service_infra.Base.{
  ℕ, String, ◌<>◌, Bool, true, false, not, ◌&&◌, ◌||◌, Option, none, some, List, [], ◌∷◌, ◌++◌,
  ◌==◌, contains, string_eq, option_eq, if◌then◌else◌, codes, eqb, is_sha256, nat_eq,
}
use map_service_infra.Base.Json.{
  Json, text, object, Fields, end, field, get, exact_keys, text_where, is_int,
}
use map_service_infra.Base.Lists.{all_of}
use map_service_infra.Base.Regex.{Regex, one, cat, rep, full_match, alphanumeric, run_number, sha1}
use map_service_infra.Base.Result.{Error, coded, other, Result, ok, err, require, ◌>>=◌, ◌>>◌}
use map_service_infra.CutoverWatchdog.Receipt.{six_services, is_text}
use map_service_infra.Receiver.Environments.{is_release_tag}
use Reference.{validate_ref}

-- One image of a release.
pub record Entry : Type 0 where
  pub source_repo : String
  pub source_sha : String
  pub image : String
  pub digest : String

pub record Plain : Type 0 where
  pub release_tag : String
  pub infra_sha : String
  pub source_ref : String
  pub run_id : String

-- The checked provenance.
pub record Provenance : Type 0 where
  pub fields : Fields
  pub workflow_sha : String
  pub dispatched : Bool

-- `services` has the entries of the six services in their order.
pub record Manifest : Type 0 where
  pub plain : Plain
  pub workflow_sha : String
  pub services : List Entry

abbrev repository : String
repository = "we-meet-trip/map-service-infra"

abbrev pub registry : String
registry = "ghcr.io/we-meet-trip"

-- `require(isinstance(value, str) and pattern(value), code)`, with the value.
abbrev pub checked : (String → Bool) → Option Json → String → Result String
checked p (some (text s)) code = if p s then ok s else err (coded code)
checked p _ code = err (coded code)

-- A key that is not there.
abbrev pub item : Option Json → Result Json
item none = err other
item (some v) = ok v

pub fields_where : List String → Json → String → Result Fields
unfolding exact_keys
fields_where names (object f) code = if exact_keys names f then ok f else err (coded code)
fields_where names _ code = err (coded code)

unfoldable pub repo_service : String → String
repo_service service = if service == "admin-web" then "admin" else service

abbrev entry_keys : List String
entry_keys = "source_repo" ∷ "source_sha" ∷ "image" ∷ "digest" ∷ []

-- The checks of one service.
unfoldable pub check_entry : String → Json → Result Entry
unfolding fields_where get full_match is_sha256
check_entry service value = do
  f ← fields_where entry_keys value "invalid service fields"
  repo ←
      checked (λ s. s == "we-meet-trip/map-service-" <> repo_service service) (get "source_repo" f)
        "unexpected source repository"
  sha ← checked (full_match sha1) (get "source_sha" f) "invalid source SHA"
  image ←
      checked (λ s. s == registry <> ("/map-service-" <> service)) (get "image" f)
        "unexpected image registry/repository"
  digest ← checked is_sha256 (get "digest" f) "invalid image digest"
  ok (record { source_repo = repo; source_sha = sha; image = image; digest = digest })

-- The entries of the services, in their order.
unfoldable pub check_entries : List String → Fields → Result (List Entry)
unfolding get check_entry
check_entries [] f = ok []
check_entries (s ∷ ss) f = do
  value ← item (get s f)
  e ← check_entry s value
  rest ← check_entries ss f
  ok (e ∷ rest)

-- The value of a service.
pub entry_of : String → List String → List Entry → Option Entry
entry_of s (t ∷ ts) (e ∷ es) = if t == s then some e else entry_of s ts es
entry_of s _ _ = none

pub sha_of : String → List Entry → Option String
unfolding entry_of
sha_of s entries = elim (entry_of s six_services entries) [
  | none ↦ none
  | some e ↦ some e.source_sha
]

-- `next(entry ... if entry["source_repo"] == repository)["source_sha"]`
dispatched_sha : String → List Entry → Result String
dispatched_sha repo [] = err other
dispatched_sha repo (e ∷ rest) =
    if e.source_repo == repo then ok e.source_sha else dispatched_sha repo rest

dispatch_repositories : List String
dispatch_repositories =
    "we-meet-trip/map-service-user" ∷ "we-meet-trip/map-service-agent"
    ∷ "we-meet-trip/map-service-hub" ∷ "we-meet-trip/map-service-yolo" ∷ []

-- `validate_dispatch`, with the repository and the commit.
unfoldable pub validate_dispatch : Json → Result (String × String)
unfolding fields_where get full_match dispatch_repositories
validate_dispatch payload = do
  f ← fields_where ("repository" ∷ "sha" ∷ "run_id" ∷ []) payload "invalid dispatch fields"
  repo ←
      checked (contains dispatch_repositories) (get "repository" f) "unexpected dispatch repository"
  sha ← checked (full_match sha1) (get "sha" f) "invalid dispatch SHA"
  _ ← checked (full_match run_number) (get "run_id" f) "invalid source run ID"
  ok (repo, sha)

-- `if dispatched: ...` at the end of `validate`.
pub check_dispatch : Bool → Fields → List Entry → Result (Unit {0})
unfolding validate_dispatch dispatched_sha get
check_dispatch false provenance entries = ok tt
check_dispatch true provenance entries = do
  value ← item (get "dispatch" provenance)
  (repo, sha) ← validate_dispatch value
  source ← dispatched_sha repo entries
  require (source == sha) "dispatch source image SHA mismatch"

abbrev pub manifest_keys : List String
manifest_keys =
    "schema_version" ∷ "release_tag" ∷ "created_at" ∷ "infra_sha" ∷ "source_ref" ∷ "github_run_id"
    ∷ "workflow_repository" ∷ "provenance" ∷ "services" ∷ []

-- `provenance` has to be a dict.
abbrev pub as_object : Option Json → String → Result Fields
as_object (some (object f)) code = ok f
as_object _ code = err (coded code)

provenance_keys : Bool → List String
provenance_keys dispatched =
    "workflow_path" ∷ "workflow_sha" ∷ "event_name" ∷ (if dispatched then "dispatch" ∷ [] else [])

pub check_provenance : Fields → Plain → Result Provenance
unfolding get provenance_keys exact_keys full_match
check_provenance f plain = do
  p ← as_object (get "provenance" f) "invalid provenance"
  let dispatched = is_text "repository_dispatch" (get "event_name" p)
  require (exact_keys (provenance_keys dispatched) p) "invalid provenance fields"
  require (is_text ".github/workflows/image-release.yml" (get "workflow_path" p))
      "unexpected workflow path"
  workflow_sha ← checked (full_match sha1) (get "workflow_sha" p) "invalid workflow SHA"
  let ran = is_text "workflow_run" (get "event_name" p)
  require (dispatched || (ran || is_text "workflow_dispatch" (get "event_name" p)))
      "unexpected release event"
  require (not (dispatched || ran) || plain.source_ref == "develop")
      "automatic releases require develop"
  ok (record { fields = p; workflow_sha = workflow_sha; dispatched = dispatched })

unfoldable pub check_services : Fields → Provenance → Result (List Entry)
unfolding get exact_keys check_entries sha_of check_dispatch
check_services f p = do
  given ← as_object (get "services" f) "invalid services fields"
  require (exact_keys six_services given) "invalid services fields"
  entries ← check_entries six_services given
  require (sha_of "admin" entries == sha_of "admin-web" entries)
      "admin images must share source SHA"
  check_dispatch p.dispatched p.fields entries
  ok entries

-- The offset in seconds that `datetime.fromisoformat` finds, `none` where it raises and `some none` where
-- the time has none.
module _ (utcoffset : String → Option (Option ℕ)) where
  is_utc : Option Json → Result (Unit {0})
  is_utc (some (text s)) = elim (utcoffset s) [
    | none ↦ err (coded "invalid creation time")
    | some o ↦ require (o == some 0) "creation time must use UTC"
  ]
  is_utc _ = err (coded "invalid creation time")

  -- The fields before the provenance.
  pub check_plain : Fields → Result Plain
  unfolding get validate_ref is_release_tag full_match is_utc
  check_plain f = do
    require (is_int (eqb 1) (get "schema_version" f)) "unsupported schema"
    tag ← checked is_release_tag (get "release_tag" f) "invalid release tag"
    ref ← checked validate_ref (get "source_ref" f) "invalid source ref"
    sha ← checked (full_match sha1) (get "infra_sha" f) "invalid infra SHA"
    run_id ← checked (full_match run_number) (get "github_run_id" f) "invalid run ID"
    require (is_text repository (get "workflow_repository" f)) "unexpected workflow repository"
    is_utc (get "created_at" f)
    ok (record { release_tag = tag; infra_sha = sha; source_ref = ref; run_id = run_id })

  unfoldable pub validate : Json → Result Manifest
  unfolding fields_where check_plain check_provenance check_services
  validate value = do
    f ← fields_where manifest_keys value "invalid manifest fields"
    plain ← check_plain f
    provenance ← check_provenance f plain
    entries ← check_services f provenance
    ok (record { plain = plain; workflow_sha = provenance.workflow_sha; services = entries })

-- The image of an entry with its digest.
abbrev pub pinned : Entry → String
pinned e = e.image <> ("@" <> e.digest)

-- `candidate_images` of scripts/deploy-gcp.py, as a dict of the services.
pub candidate_images : List String → List Entry → Fields
candidate_images (s ∷ ss) (e ∷ es) = field s (text (pinned e)) (candidate_images ss es)
candidate_images _ _ = end

-- The lines of one service.
compose_entry : String → Option Entry → List String → Result (List String)
compose_entry service none rest = err other
compose_entry service (some e) rest =
    ok (("  " <> (service <> ":")) ∷ "    build: !reset null" ∷ ("    image: " <> pinned e) ∷ rest)

compose_entries : Manifest → List String → Result (List String)
unfolding compose_entry entry_of
compose_entries m [] = ok []
compose_entries m (s ∷ ss) =
    compose_entries m ss >>= compose_entry s (entry_of s six_services m.services)

-- The lines of `compose`, of a manifest that `validate` accepts.
unfoldable pub compose : Manifest → List String → Result (List String)
unfolding compose_entries
compose m services = do
  lines ← compose_entries m services
  ok ("# Generated by release_manifest.py; apply after the registry overlay." ∷ "services:" ∷ lines)
