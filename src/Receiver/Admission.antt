-- ===== src/Receiver/Admission.antt =====
-- What a deployment reads before it changes anything, scripts/deploy-gcp.py: the policies
-- (`load_rollback_policy`, `load_cutover_latch`, `topology_scope`), `verify_detached_services`,
-- `backup_environment`, `require_headroom`, `prior_rollback_compatible`,
-- `verify_admin_rollback_compatibility` and `require_target_source`.
pub mod Identities
pub mod Quiet
pub mod Verified
use map_service_infra.Base.{
  same_text, ℕ, ◌*◌, ◌^◌, ◌/◌, ◌%◌, ◌<>◌, String, Bool, true, false, not, ◌&&◌, ◌||◌, Option, none,
  some, List, [], ◌∷◌, ◌++◌, map, ◌==◌, contains, subset, string_eq, if◌then◌else◌, codes, eqb, leb,
  is_sha256, is_hex64, after_prefix, hex_run,
}
use map_service_infra.Base.Lists.{keep, all_of}
use map_service_infra.Base.Regex.{lower, alphanumeric}
use map_service_infra.Base.Result.{Error, coded, other, Result, ok, err}
use map_service_infra.Base.Exec.{Exec, pure, raise, lift, ◌>>=◌, ◌>>◌, attempt, require, when}
use map_service_infra.Base.World.{call}
use map_service_infra.CutoverWatchdog.Receipt.{Latch, six_services}
use map_service_infra.Receiver.Model.{
  Target, Site, Metadata, Projects, Release, Host, State, query, read, pull, report,
}
use map_service_infra.Receiver.HostFiles.{read_host_json, is_topology_file, is_private_file}
use map_service_infra.Receiver.Policies.{
  Policy, rollback_policy, cutover_latch, topology_evidence, verify_handoff,
}
use map_service_infra.Receiver.Environments.{Text, Variables, backup_values}
use map_service_infra.Receiver.Admission.Identities.{
  identities, all_identities, heads_of, same_head,
}
use map_service_infra.Receiver.Compose.{cloud_up_has}
use map_service_infra.Receiver.Infrastructure.{filters, administration, names_of, value_of}

abbrev gigabyte : ℕ
gigabyte = 1024 ^ 3

disk_floor : ℕ
disk_floor = 8 * gigabyte

expected_source : String → Option String
expected_source environment =
    if environment == "test"
    then some "develop"
    else (if environment == "prod" then some "master" else none)

image_at : String → List String → List String → Result String
image_at service (s ∷ ss) (i ∷ is) = if s == service then ok i else image_at service ss is
image_at service _ _ = err other

module _ (h : Host) where
  unfoldable pub load_rollback_policy : Target → List String → Exec State Policy
  unfolding read_host_json rollback_policy
  load_rollback_policy t candidate = do
    value ← read_host_json h "rollback-policy.json"
    lift (rollback_policy t.instance_id candidate value)

  unfoldable pub load_cutover_latch : Target → Exec State (Option Latch)
  unfolding read_host_json cutover_latch
  load_cutover_latch t = do
    found ← call (read "security-cutover.json") (h.present "security-cutover.json")
    if not found then pure none else (do
      value ← read_host_json h "security-cutover.json"
      l ← lift (cutover_latch t.instance_id value)
      pure (some l))

  pub detached_topology : Target → Exec State Bool
  unfolding topology_evidence verify_handoff is_topology_file
  detached_topology t = do
    info ← call (read "topology.json") (h.metadata "topology.json")
    require (is_topology_file info) "unsafe topology policy"
    value ← call (read "topology.json") (h.read_json "topology.json")
    evidence ← lift (topology_evidence t.instance_id value)
    regular ← call (read "admin-handoff.json") (h.present "admin-handoff.json")
    require regular "admin handoff evidence mismatch"
    digest ← call (read "admin-handoff.json") (h.digest "admin-handoff.json")
    require (digest == evidence) "admin handoff evidence mismatch"
    verified ← call (read "admin-handoff.json") (h.read_json "admin-handoff.json")
    lift (verify_handoff t.instance_id verified)
    pure true

  -- The value that `topology_scope` binds for its body.
  unfoldable pub topology : Target → Exec State Bool
  unfolding detached_topology
  topology t = do
    found ← call (read "topology.json") (h.present "topology.json")
    if found then detached_topology t else pure false

  pub require_retired : List String → Exec State Unit
  require_retired [] = pure tt
  require_retired (s ∷ ss) = do
    let args = "docker" ∷ "ps" ∷ "-q" ∷ filters administration s
    running ← call (query args) (h.output args)
    require (running == "") "retired control service is still running on application host"
    require_retired ss

  unfoldable pub verify_detached_services : Site → Exec State Unit
  unfolding require_retired
  verify_detached_services s = when s.detached (do
    marked ← cloud_up_has h s "# MAP_ADMIN_DETACHED_VERSION=1"
    exporters ←
        (if marked
          then call (read "docker-compose.target-exporters.yml")
              (h.present "docker-compose.target-exporters.yml")
          else pure false)
    require exporters "current release cannot safely roll back detached administrator topology"
    require_retired ("admin" ∷ "admin-web" ∷ "prometheus" ∷ "grafana" ∷ "cadvisor" ∷ []))

  unfoldable pub backup_environment : Exec State Variables
  unfolding is_private_file backup_values
  backup_environment = do
    regular ← call (read "backup.env") (h.present "backup.env")
    require regular "backup configuration is required"
    info ← call (read "backup.env") (h.metadata "backup.env")
    require (is_private_file info) "backup configuration must be root-only"
    lines ← call (read "backup.env") (h.read_lines "backup.env")
    lift (backup_values (map codes lines))

  unfoldable pub require_headroom : Exec State ℕ
  unfolding disk_floor
  require_headroom = do
    free ← call (read "disk") h.free
    require (leb disk_floor free) "insufficient disk for a deployment"
    pure free

  pub require_ref : Option String → Release → Exec State Unit
  require_ref none r = raise (coded "deployment source must match test=develop or prod=master")
  require_ref (some ref) r =
      require (r.source_ref == ref) "deployment source must match test=develop or prod=master"

  unfoldable pub require_target_source : String → Release → Exec State Unit
  unfolding expected_source require_ref
  require_target_source environment r = require_ref (expected_source environment) r

  pub pinned_in : String → Exec State Variables
  unfolding identities
  pinned_in path = do
    regular ← call (read path) (h.present path)
    if regular
        then (do lines ← call (read path) (h.read_lines path); pure (identities (map codes lines)))
        else pure []

  -- Whether the images of the tuple are the ones with these identities; the first that differs ends it.
  pub same_identities : List String → List Text → Exec State Bool
  unfolding same_text
  same_identities (image ∷ images) (i ∷ is) = do
    let args = "docker" ∷ "image" ∷ "inspect" ∷ "--format" ∷ "{{.Id}}" ∷ image ∷ []
    id ← call (query args) (h.output args)
    if same_text (codes id) i then same_identities images is else pure false
  same_identities [] [] = pure true
  same_identities _ _ = raise other

  -- `except DeployError: continue`
  pub refused : Error → Exec State Bool
  refused (coded c) = pure false
  refused other = raise other

  pub verified_tuple : List (List String) → List Text → Exec State Bool
  unfolding same_identities refused
  verified_tuple [] is = pure false
  verified_tuple (tuple ∷ rest) is = do
    same ← attempt (same_identities tuple is) refused
    if same then pure true else verified_tuple rest is

  pub compatible_with : Policy → Option (List Text) → Exec State Bool
  unfolding verified_tuple
  compatible_with policy none = pure false
  compatible_with policy (some is) = verified_tuple policy.rollback_verified is

  unfoldable pub prior_rollback_compatible : Policy → String → Exec State Bool
  unfolding pinned_in all_identities compatible_with
  prior_rollback_compatible policy previous = do
    app ← pinned_in (previous <> "/compose.images.yml")
    admin ← pinned_in (previous <> "/compose.admin-images.yml")
    compatible_with policy (all_identities (app ++ admin) six_services)

  pub migration_heads : String → Exec State (List Text)
  unfolding heads_of
  migration_heads image = do
    let args =
        "docker" ∷ "run" ∷ "--rm" ∷ "--network" ∷ "none" ∷ "--pull" ∷ "never" ∷ "--entrypoint"
        ∷ "alembic" ∷ image ∷ "heads" ∷ []
    lines ← call (query args) (h.lines args)
    pure (heads_of lines)

  pub sole_admin : List String → Exec State String
  sole_admin (cid ∷ []) = pure cid
  sole_admin _ = raise (coded "previous admin unavailable")

  pub compare_heads : Exec State Unit
  unfolding sole_admin migration_heads same_head image_at
  compare_heads = do
    let listed = "docker" ∷ "ps" ∷ "-a" ∷ "-q" ∷ filters administration "admin"
    ids ← call (query listed) (h.lines listed)
    cid ← sole_admin ids
    let shown = "docker" ∷ "inspect" ∷ "--format" ∷ "{{.Image}}" ∷ cid ∷ []
    old_image ← call (query shown) (h.output shown)
    r ← call (read "bundle") h.unpack
    new_image ← lift (image_at "admin" six_services r.images)
    call (pull new_image) (h.pull new_image)
    old_heads ← migration_heads old_image
    new_heads ← migration_heads new_image
    require (same_head old_heads new_heads)
        "admin migration change requires verified rollback compatibility"

  pub heads_for : Option (List (String × String)) → Exec State Unit
  unfolding compare_heads
  heads_for none = raise other
  heads_for (some services) = when (contains (names_of services) "admin") compare_heads

  unfoldable pub verify_admin_rollback_compatibility : Projects String → Exec State Unit
  unfolding heads_for
  verify_admin_rollback_compatibility active = heads_for (value_of administration active)
