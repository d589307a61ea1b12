-- ===== src/Receiver/HostFiles.antt =====
-- Root-owned files of the host and the checks of the machine, scripts/deploy-gcp.py:
-- `validate_host_metadata`, `validate_state_directory`, `read_host_json`, `load_target`,
-- `verify_instance`, `load_rollover_policy` and the opening of `deployment_lock`.
pub mod Quiet
use map_service_infra.Base.{
  ℕ, ◌/◌, ◌%◌, ◌^◌, ◌<>◌, String, Bool, true, false, not, ◌&&◌, ◌||◌, Option, none, some, List, [],
  ◌∷◌, ◌==◌, string_eq, if◌then◌else◌, eqb, leb,
}
use map_service_infra.Base.Json.{Json, bool, object, Fields, get, exact_keys, is_int}
use map_service_infra.Base.Result.{Error, coded, other, Result, ok, err}
use map_service_infra.Base.Exec.{Exec, pure, raise, lift, ◌>>=◌, ◌>>◌, attempt, require}
use map_service_infra.Base.World.{call}
use map_service_infra.CutoverWatchdog.Receipt.{is_text}
use map_service_infra.Receiver.Model.{Target, Metadata, Host, State, read, instance_value, guard}
use map_service_infra.Receiver.Target.{legacy_target, validate_target}

-- The bit of the value `2 ^ k`.
bit : ℕ → ℕ → ℕ
bit k mode = mode / 2 ^ k % 2

-- `mode & 0o022 == 0`
unshared : ℕ → Bool
unfolding bit
unshared mode = eqb (bit 4 mode) 0 && eqb (bit 1 mode) 0

unfoldable pub is_host_file : Metadata → Bool
is_host_file i = i.regular && (eqb i.uid 0 && (eqb i.mode 0o600 || eqb i.mode 0o644))

unfoldable pub is_state_directory : Metadata → Bool
unfolding unshared
is_state_directory i = i.directory && (eqb i.uid 0 && unshared i.mode)

-- The check of the topology policy.
unfoldable pub is_topology_file : Metadata → Bool
unfolding unshared
is_topology_file i = i.regular && (eqb i.uid 0 && unshared i.mode)

-- The check of the backup configuration, `st_uid == 0 and not st_mode & 0o077`.
unfoldable pub is_private_file : Metadata → Bool
is_private_file i = eqb i.uid 0 && eqb (i.mode % 64) 0

-- `except (OSError, ValueError, TypeError)`: the receiver's own errors pass.
pub other_as : {A : Type 0} → String → Error → Exec State A
other_as code (coded c) = raise (coded c)
other_as code other = raise (coded code)

pub required_value : Option Json → Exec State Json
required_value none = raise other
required_value (some v) = pure v

abbrev target_file : String
target_file = "/etc/map-deploy/target.json"

rollover_keys : List String
rollover_keys = "schema_version" ∷ "instance_id" ∷ "enabled" ∷ []

abbrev flag : Option Json → Option Bool
flag (some (bool b)) = some b
flag _ = none

rollover_error : Error
rollover_error = coded "invalid rollover policy"

enabled : String → Fields → Option Bool → Result Bool
unfolding exact_keys rollover_keys get rollover_error
enabled instance_id f none = err rollover_error
enabled instance_id f (some b) =
    if exact_keys rollover_keys f
      && (is_int (λ n. eqb n 1) (get "schema_version" f)
          && is_text instance_id (get "instance_id" f))
    then ok b
    else err rollover_error

-- The value of a rollover policy.
unfoldable pub rollover_enabled : String → Json → Result Bool
unfolding enabled get rollover_error
rollover_enabled instance_id (object f) = enabled instance_id f (flag (get "enabled" f))
rollover_enabled instance_id _ = err rollover_error

module _ (h : Host) where
  unfoldable pub read_host_json : String → Exec State Json
  unfolding is_host_file required_value other_as
  read_host_json path =
      attempt
        (do
          info ← call (read path) (h.metadata path)
          require (is_host_file info) "unsafe root-owned host policy"
          (size, value) ← call (read path) (h.content path)
          require (leb size 65536) "host policy exceeds limit"
          required_value value)
        (other_as "root-owned host policy missing or invalid")

  pub load_target : Exec State Target
  unfolding is_state_directory read_host_json
  load_target = do
    found ← call (read target_file) (h.present target_file)
    if not found then pure legacy_target else (do
      info ← call (read "/etc/map-deploy") (h.metadata "/etc/map-deploy")
      require (is_state_directory info) "unsafe deployment state directory"
      value ← read_host_json target_file
      lift (validate_target value))

  pub check_instance : String → String → Exec State Unit
  check_instance path expected = do
    actual ← call (instance_value path) (h.instance_value path)
    require (actual == expected) "wrong GCP instance"

  unfoldable pub verify_instance : Exec State Target
  unfolding load_target check_instance
  verify_instance = do
    uid ← call (read "euid") h.euid
    require (eqb uid 0) "receiver requires root forced command"
    t ← load_target
    check_instance "project/project-id" t.project
    check_instance "instance/name" t.instance_name
    check_instance "instance/id" t.instance_id
    check_instance "instance/zone" t.zone
    pure t

  unfoldable pub load_rollover_policy : Target → Exec State Bool
  unfolding read_host_json rollover_enabled
  load_rollover_policy t = do
    found ← call (read "rollover.json") (h.present "rollover.json")
    if not found then pure false else (do
      value ← read_host_json "rollover.json"
      lift (rollover_enabled t.instance_id value))

  -- Up to the body of `deployment_lock`.
  unfoldable pub deployment_lock : Exec State Unit
  unfolding is_state_directory is_host_file
  deployment_lock = do
    call (guard "state directory") (h.guard "state directory")
    directory ← call (read "/var/lib/map-deploy") (h.metadata "/var/lib/map-deploy")
    require (is_state_directory directory) "unsafe deployment state directory"
    info ← call (read "deploy.lock") (h.metadata "deploy.lock")
    require (is_host_file info) "unsafe root-owned host policy"
    call (guard "lock") (h.guard "lock")
