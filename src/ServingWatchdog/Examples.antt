-- ===== src/ServingWatchdog/Examples.antt =====
-- Runs of scripts/ncp-serving-watchdog.py.
use map_service_infra.Base.{String, refl, true, false, none, some, [], ◌∷◌, arith, option_eq}
use map_service_infra.Base.Json.{null}
use map_service_infra.Base.Result.{coded, ok}
use map_service_infra.Base.Exec.{◌>>=◌, attempt}
use map_service_infra.Serving
use map_service_infra.Serving.{
  Backend, Container, File, Receipt, Reply, absent, written, empty_receipt, execute, action_eq,
  stop_public, start_private,
}
use map_service_infra.Serving.Configuration.{configuration}
use map_service_infra.Serving.Door.{lost}
use map_service_infra.ServingWatchdog.{Host, run}
use map_service_infra.ServingWatchdog.Starts.{Justified}
use map_service_infra.ServingWatchdog.Starts.Run.{run-Justified}
use map_service_infra.ServingWatchdog.Quiet.{NoStart, fresh, run-stop_public, run-execute_raised}

abbrev hex : String
hex = "0123456789abcdef0123456789abcdef0123456789abcdef0123456789abcdef"

abbrev named : String → Container
named n = record {
  name = n;
  container_id = hex;
  image_id = "sha256:0123456789abcdef0123456789abcdef0123456789abcdef0123456789abcdef";
}

abbrev receipt : Receipt
receipt = record empty_receipt {
  status = some "PUBLIC_READY";
  public_serving = some "OPEN";
  resume_public = some true;
  containers = some (named "edge" ∷ named "proxy" ∷ named "user" ∷ named "yolo" ∷ []);
}

-- A host that gives a file and whose containers are all down.
abbrev host : File → Host
host f = record {
  read_receipt = λ t. ok f;
  lock = λ t. ok tt;
  inspect = λ id t. ok (record {
    id = some id;
    image = some "sha256:0123456789abcdef0123456789abcdef0123456789abcdef0123456789abcdef";
    running = some false;
  });
  start = λ id t. ok tt;
}

run-Justified_example :
    Justified (host (written receipt)) (run (host (written receipt)) fresh).1.trace
run-Justified_example = run-Justified (host (written receipt)) fresh tt

-- A backend whose calls succeed, on a host whose configuration is not one.
abbrev backend : Backend
backend = record {
  private_dir = λ t. ok tt;
  lock = λ t. ok tt;
  now = λ t. "2026-01-01T00:00:00+00:00";
  write = λ r t. ok tt;
  sync = λ t. ok tt;
  read_config = λ t. ok null;
  inputs = λ c t. ok "inputs";
  pg = λ t. ok tt;
  rendered = λ t. ok tt;
  public_inputs = λ c t. ok tt;
  stop = λ names t. ok tt;
  prepare = λ t. ok tt;
  up = λ names t. ok tt;
  private_ready = λ t. ok tt;
  inventory = λ names t. ok [];
  public_ready = λ t. ok tt;
}

abbrev serving : Serving.State
serving = record { own = record { file = written receipt; inputs = none }; trace = [] }

abbrev stopped : File
stopped = written (record receipt {
  status = some "PUBLIC_STOPPED";
  public_serving = some "HOLD";
  updated_at = some "2026-01-01T00:00:00+00:00";
})

run-stop_public_example : NoStart (run (host stopped) fresh).1.trace
unfolding execute ◌>>=◌ attempt action_eq
run-stop_public_example =
    run-stop_public backend none true serving (host stopped)
      (record { status = "PUBLIC_STOPPED"; public_serving = "HOLD" }) refl (λ t. refl)

abbrev first_run : Serving.State
first_run = record { own = record { file = absent; inputs = none }; trace = [] }

-- The receipt that a failed run leaves.
abbrev failure : File
failure = written (record empty_receipt {
  status = some "SERVING_FAILED";
  public_serving = some "HOLD";
  resume_public = some false;
  updated_at = some "2026-01-01T00:00:00+00:00";
})

run-execute_raised_example : NoStart (run (host failure) fresh).1.trace
unfolding execute ◌>>=◌ attempt action_eq option_eq configuration lost
run-execute_raised_example =
    run-execute_raised backend start_private none true first_run (host failure)
      (coded "serving_configuration_invalid") refl refl (λ lost. ground (arith, lost)) (λ t. refl)
