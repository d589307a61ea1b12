-- ===== src/Serving/Examples.antt =====
-- Runs of scripts/ncp-production-serving.py on a host whose calls all succeed.
use map_service_infra.Base.{
  ◌≡◌, refl, true, false, none, some, [], ◌⊎◌, string_eq, nat_eq, is_hex64, option_eq,
}
use map_service_infra.Base.Result.{ok}
use map_service_infra.Base.Exec.{◌>>=◌, attempt}
use map_service_infra.Base.Exec.Rules.{Post}
use map_service_infra.Base.Json.{Json, null, int, text, object, end, field}
use map_service_infra.Serving.{
  action_eq, Backend, State, Receipt, Reply, written, empty_receipt, execute, publish,
  start_private, stop_public, resume,
}
use map_service_infra.Serving.Configuration.{configuration}
use map_service_infra.Serving.Door.{Opened, Safe, Failed, untouched, door, closed}
use map_service_infra.Serving.Door.Run.{execute-door}
use map_service_infra.Serving.Gate.{Granted, execute-Granted}
use map_service_infra.Serving.Intent.{
  found, StopOf, OnlyLocked, served, stop_public-StopOf, start_private_refused,
}

abbrev host : Backend
host = record {
  private_dir = λ t. ok tt;
  lock = λ t. ok tt;
  now = λ t. "2026-01-01T00:00:00+00:00";
  write = λ r t. ok tt;
  sync = λ t. ok tt;
  read_config = λ t. ok null;
  inputs = λ c t. ok "inputs";
  pg = λ t. ok tt;
  rendered = λ t. ok tt;
  public_inputs = λ c t. ok tt;
  stop = λ names t. ok tt;
  prepare = λ t. ok tt;
  up = λ names t. ok tt;
  private_ready = λ t. ok tt;
  inventory = λ names t. ok [];
  public_ready = λ t. ok tt;
}

abbrev pin : Json
pin = text "0123456789abcdef0123456789abcdef0123456789abcdef0123456789abcdef"

-- A configuration that passes.
abbrev config : Json
config = object (
    field "schema_version" (int 1) (
      field "environment" (text "prod") (
        field "runtime_env_sha256" pin
          (field "public_manifest_sha256" null (field "gemini_key_sha256" pin end)))))

-- Private service is ready.
abbrev ready : State
ready = record {
  own = record {
    file =
        written (record empty_receipt { status = some "PRIVATE_READY"; binding = some "inputs" });
    inputs = none;
  };
  trace = [];
}

-- Public service is on.
abbrev serving : Receipt
serving = record empty_receipt {
  status = some "PUBLIC_READY";
  binding = some "inputs";
  public_serving = some "OPEN";
  resume_public = some true;
}

abbrev on : State
on = record { own = record { file = written serving; inputs = none }; trace = [] }

execute-door_example :
    Post
      (λ _ v. Opened v ⊎ Safe on.own.file untouched v)
      (λ _ v. Failed on.own.file untouched v)
      (execute host resume (some config) true on).0
      (execute host resume (some config) true on).1
unfolding door
execute-door_example = execute-door host resume (some config) true on refl

execute-Granted_example :
    Post
      (λ _ _. Granted host publish (found ready.own.file))
      (λ _ _. Unit {0})
      (execute host publish (some config) true ready).0
      (execute host publish (some config) true ready).1
execute-Granted_example = execute-Granted host publish (some config) true ready tt

stop_public-StopOf_example :
    Post
      (λ _ v. (door v.trace ≡ closed) × StopOf true serving v.own.file)
      (λ _ _. Unit {0})
      (execute host stop_public none true on).0
      (execute host stop_public none true on).1
stop_public-StopOf_example = stop_public-StopOf host none true on

abbrev reply : Reply
reply = record { status = "PUBLIC_STOPPED"; public_serving = "HOLD" }

start_private_refused_example :
    Post
      (λ _ _. ⊥)
      (λ _ v. (v.own ≡ on.own) × OnlyLocked on.trace v.trace)
      (execute host start_private none true on).0
      (execute host start_private none true on).1
start_private_refused_example = start_private_refused host none true on serving refl refl

-- The run of the example above reaches the end: the configuration passes and public service is on.
publishes :
    (execute host publish (some config) true ready).0
    ≡ ok (record { status = "PUBLIC_READY"; public_serving = "OPEN" })
unfolding execute ◌>>=◌ attempt action_eq configuration string_eq nat_eq is_hex64 option_eq
publishes = refl

-- So does a resume after a stop that kept the wish, and one after a stop that did not stays private.
resumes :
    (execute host resume (some config) false (execute host stop_public none true on).1).0
    ≡ ok (served true)
unfolding execute ◌>>=◌ attempt action_eq configuration string_eq nat_eq is_hex64 option_eq
resumes = refl

stays_private :
    (execute host resume (some config) false (execute host stop_public none false on).1).0
    ≡ ok (served false)
unfolding execute ◌>>=◌ attempt action_eq configuration string_eq nat_eq is_hex64 option_eq
stays_private = refl
