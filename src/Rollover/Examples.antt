-- ===== src/Rollover/Examples.antt =====
-- A rollover of scripts/service-rollover.py on a host whose calls succeed.
use map_service_infra.Base.{
  ℕ, suc, ◌+◌, ◌*◌, String, ◌≡◌, ◌≢◌, refl, Bool, true, false, none, some, List, [], ◌∷◌, arith,
  if◌then◌else◌, ◌==◌, string_eq, option_eq, nat_eq, is_hex64, is_sha256,
}
use map_service_infra.Base.Result.{Error, other, ok, err}
use map_service_infra.Base.Exec.{◌>>=◌, attempt}
use map_service_infra.Base.World.{Trace}
use map_service_infra.Rollover.Arguments.{Entry, keys, missing, create_args}
use map_service_infra.Rollover.Arguments.Client.{create_env, lookup}
use map_service_infra.Rollover.Float.{int_of, plus, times, float_of}
use map_service_infra.Rollover.Duration.{duration, numeral, stop_seconds}
use map_service_infra.Rollover.{
  Call, Host, State, Order, sleep, recreate, rollover, wait_healthy, probe, remove,
}
use map_service_infra.Rollover.Traffic.{Ordered}
use map_service_infra.Rollover.Traffic.Whole.{rollover-Ordered}
use map_service_infra.Rollover.Traffic.Left.{Last, from_switch, left_on_removed_copy}
use map_service_infra.Rollover.Success.{Pointed}
use map_service_infra.Rollover.Success.Run.{rollover-Passed}
use map_service_infra.Rollover.Waiting.{wait_healthy_ends}
use map_service_infra.Rollover.Waiting.Requests.{probe_ends}
use map_service_infra.Rollover.Environment.{
  with_environment, ok_or_empty, create_args_hides_values, create_env_lem,
}
use map_service_infra.Rollover.Duration.Reading.{duration_hms}

abbrev blue : String
blue = "0000000000000000000000000000000000000000000000000000000000000001"

abbrev green : String
green = "0000000000000000000000000000000000000000000000000000000000000002"

abbrev canonical : String
canonical = "0000000000000000000000000000000000000000000000000000000000000003"

abbrev proxy : String
proxy = "0000000000000000000000000000000000000000000000000000000000000004"

abbrev digest : String
digest = "sha256:0123456789abcdef0123456789abcdef0123456789abcdef0123456789abcdef"

-- Whether the canonical container was replaced.
abbrev recreated : Trace Call → Bool
recreated [] = false
recreated ((recreate, _) ∷ t) = true
recreated (_ ∷ t) = recreated t

-- The seconds slept.
abbrev slept : Trace Call → ℕ
slept [] = 0
slept ((sleep, _) ∷ t) = suc (slept t)
slept (_ ∷ t) = slept t

abbrev running_container : String → Trace Call → List String
running_container name t =
    (if name == "proxy" then proxy else if recreated t then canonical else blue) ∷ []

abbrev host : Host
host = record {
  now = slept;
  image_id = λ i t. ok digest;
  container_of = λ name t. ok (running_container name t);
  state = λ cid t. ok (record { image = digest; running = true; health = "healthy" });
  stats = λ cid t. ok "100MiB / 1GiB";
  memory_available = λ t. ok 8000000000;
  disk_free = λ t. ok 8000000000;
  networks = λ cid t. ok ("main" ∷ []);
  stale = λ name t. ok [];
  create = λ args env t. ok green;
  connect = λ n cid t. ok tt;
  start = λ cid t. ok tt;
  stop = λ seconds cid t. ok tt;
  remove = λ cid t. ok tt;
  address = λ cid t. ok "10.0.0.2";
  health_request = λ host t. ok 200;
  public_request = λ url t. ok 200;
  proxy_mount = λ t. ok "/srv/upstreams";
  same_directory = λ d. d == "/srv/upstreams";
  write_override = λ name t. ok tt;
  unlink_override = λ t. ok tt;
  nginx_test = λ t. ok true;
  reload = λ o t. ok tt;
  recreate = λ t. ok tt;
  sleep = λ t. ok tt;
}

abbrev hub : Entry
hub = record {
  image =
      "ghcr.io/we-meet-trip/map-service-hub@sha256:0123456789abcdef0123456789abcdef0123456789abcdef0123456789abcdef";
  entrypoint = false;
  command = false;
  stop_grace_period = none;
  healthcheck = record {
    test = missing;
    disable = false;
    interval = none;
    timeout = none;
    start_period = none;
    retries = none;
  };
  environment = ("MODE", some "prod") ∷ ("TOKEN", some "secret") ∷ [];
  memory = none;
  cpus = none;
  volumes = [];
  security_opt = [];
  cap_drop = [];
}

abbrev order : Order
order = record {
  project = "map";
  service = "hub";
  entry = some hub;
  probes = ("https://example.org/", 200) ∷ [];
  health_seconds = 5;
  fuel = 6;
}

abbrev begin : State
begin = record {
  own = record {
    override = none;
    green = none;
    switched = false;
    steps = [];
    status = none;
    error_code = none;
  };
  trace = [];
}

rollover-Ordered_example : Ordered host order (rollover host order begin).1.trace
rollover-Ordered_example = rollover-Ordered host order begin tt

rollover_returns : (rollover host order begin).0 ≡ ok tt
unfolding rollover int_of plus times float_of ◌>>=◌ attempt string_eq is_sha256 is_hex64 create_args
    create_env option_eq nat_eq
rollover_returns = refl

rollover-Passed_example :
    ((rollover host order begin).1.own.override ≡ none)
    × Pointed none (rollover host order begin).1.trace
    × ((rollover host order begin).1.own.status ≡ some "PASS")
rollover-Passed_example = rollover-Passed host order begin rollover_returns

wait_healthy_ends_example : (wait_healthy host 6 blue 5 begin).0 ≢ err other
wait_healthy_ends_example =
    wait_healthy_ends host (λ t. refl) (λ t. omega arith) (λ cid t. tt) (λ cid done t. omega arith)
      5 5 blue begin (omega arith)

probe_ends_example : (s : ℕ) × ((probe host 6 "10.0.0.2" 5 begin).0 ≡ ok s)
probe_ends_example =
    probe_ends host (λ t. refl) (λ t. omega arith) (λ name done t. omega arith) 5 5 "10.0.0.2" begin
      (omega arith)

-- The same host, whose proxy cannot be reloaded.
abbrev no_reload : Host
no_reload = record host { reload = λ o t. err other }

-- The copy answered, and nothing is switched yet.
abbrev answered : State
answered = record begin { own = record begin.own { green = some green } }

left_on_removed_copy_example :
    ((from_switch no_reload order 30 answered).1.own.override ≡ some "map-hub-rollover")
    × Last (remove green) (from_switch no_reload order 30 answered).1.trace
    × (e : Error) × ((from_switch no_reload order 30 answered).0 ≡ err e)
unfolding is_hex64 string_eq
left_on_removed_copy_example =
    left_on_removed_copy no_reload order (λ o t. refl) (λ t. refl) proxy (λ t. refl) refl
      "/srv/upstreams" (λ t. refl) refl (λ t. refl) green 30
      (record { image = digest; running = true; health = "healthy" }) (λ t. refl) (λ t. refl)
      (λ t. refl) refl answered refl refl

-- The same entry with another secret.
create_args_hides_values_example :
    create_args "map-hub-rollover" "map" "hub"
      (with_environment (("MODE", some "dev") ∷ ("TOKEN", none) ∷ []) hub)
      ("main" ∷ [])
      30
    ≡ create_args "map-hub-rollover" "map" "hub" hub ("main" ∷ []) 30
unfolding keys
create_args_hides_values_example =
    create_args_hides_values "map-hub-rollover" "map" "hub" hub
      (("MODE", some "dev") ∷ ("TOKEN", none) ∷ []) ("main" ∷ []) 30 refl

create_env_lem_example : lookup "TOKEN" (ok_or_empty (create_env hub)) ≡ some "secret"
unfolding create_env lookup string_eq
create_env_lem_example = create_env_lem hub _ "TOKEN" refl

-- `1h2m30s`.
duration_hms_example :
    duration (b'1' ∷ b'h' ∷ b'2' ∷ b'm' ∷ b'3' ∷ b'0' ∷ b's' ∷ [])
    ≡ ok (numeral 0 (b'1' ∷ []) * 3600 + numeral 0 (b'2' ∷ []) * 60 + numeral 0 (b'3' ∷ b'0' ∷ []))
unfolding numeral
duration_hms_example =
    duration_hms b'1' b'2' b'3' [] [] (b'0' ∷ []) (refl, tt) (refl, tt) (refl, (refl, tt))
      (omega arith)

-- A grace period of ten seconds, also with spaces around it, is raised to thirty; 2^53 and 1 is no float.
ten_seconds : stop_seconds (some " 10s ") ≡ ok 30
unfolding stop_seconds int_of plus times float_of
ten_seconds = refl

not_exact : stop_seconds (some "0h0m9007199254740993s") ≡ ok 9007199254740992
unfolding stop_seconds int_of plus times float_of
not_exact = refl

nearly_one : stop_seconds (some "1m0.99999999999999999s") ≡ ok 61
unfolding stop_seconds int_of plus times float_of
nearly_one = refl
