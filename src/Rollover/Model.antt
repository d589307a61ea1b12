-- ===== src/Rollover/Model.antt =====
-- What scripts/service-rollover.py asks of the host, what it keeps itself, and the report.
use map_service_infra.Rollover.Arguments.{Entry, Arg}
use map_service_infra.Base.{
  ℕ, String, Bool, true, false, ◌||◌, Option, some, List, [], ◌∷◌, ◌++◌, ◌==◌, string_eq, nat_eq,
  option_eq,
}
use map_service_infra.Base.Result.{Error, coded, other}
use map_service_infra.Base.Exec.{Exec, modify}
use map_service_infra.Base.World.{Trace, Answer, World}

pub record ContainerState : Type 0 where
  pub image : String
  pub running : Bool
  pub health : String

pub data Call : Type 0 where
  image_id container_of stale : String → Call
  state stats networks address start remove : String → Call
  stop : ℕ → String → Call
  memory_available disk_free proxy_mount nginx_test unlink_override recreate sleep : Call
  connect : String → String → Call
  create : List Arg → Call
  health_request : String → Call
  public_request : String → Call
  write_override : String → Call
  reload : Option String → Call

pub data Step : Type 0 where
  green_started green_healthy green_answered traffic_on_green canonical_recreate_requested : Step
  canonical_healthy traffic_on_canonical traffic_returned_after_failure traffic_return_failed : Step
  green_removed green_removal_failed : Step
  switched_to : Option String → Step

-- `override` is the content of the service's file in the proxy's directory.
pub record Own : Type 0 where
  pub override : Option String
  pub green : Option String
  pub switched : Bool
  pub steps : List Step
  pub status : Option String
  pub error_code : Option String

pub record Host : Type 0 where
  pub now : Trace Call → ℕ
  pub image_id : String → Answer Call String
  pub container_of : String → Answer Call (List String)
  pub state : String → Answer Call ContainerState
  pub stats : String → Answer Call String
  pub memory_available : Answer Call ℕ
  pub disk_free : Answer Call ℕ
  pub networks : String → Answer Call (List String)
  pub stale : String → Answer Call (List String)
  pub create : List Arg → List (String × String) → Answer Call String
  pub connect : String → String → Answer Call Unit
  pub start : String → Answer Call Unit
  pub stop : ℕ → String → Answer Call Unit
  pub remove : String → Answer Call Unit
  pub address : String → Answer Call String
  pub health_request : String → Answer Call ℕ
  pub public_request : String → Answer Call ℕ
  pub proxy_mount : Answer Call String
  pub same_directory : String → Bool
  pub write_override : String → Answer Call Unit
  pub unlink_override : Answer Call Unit
  pub nginx_test : Answer Call Bool
  pub reload : Option String → Answer Call Unit
  pub recreate : Answer Call Unit
  pub sleep : Answer Call Unit

-- What a deployment asks for: the service and its entry in the rendered configuration, the project,
-- the probes with their expected statuses, and how long to wait for health.
pub record Order : Type 0 where
  pub project : String
  pub service : String
  pub entry : Option Entry
  pub probes : List (String × ℕ)
  pub health_seconds : ℕ
  pub fuel : ℕ

abbrev pub State : Type 0
State = World Call Own

abbrev pub known_services : List String
known_services = "hub" ∷ "agent" ∷ "yolo" ∷ "user" ∷ []

abbrev pub step : Step → Exec State Unit
step s = modify (λ w. record w { own = record w.own { steps = w.own.steps ++ (s ∷ []) } })

abbrev pub set_override : Option String → Exec State Unit
set_override o = modify (λ w. record w { own = record w.own { override = o } })

abbrev pub set_switched : Bool → Exec State Unit
set_switched b = modify (λ w. record w { own = record w.own { switched = b } })

abbrev pub set_green : String → Exec State Unit
set_green g = modify (λ w. record w { own = record w.own { green = some g } })

abbrev pub set_report : Option String → Option String → Exec State Unit
set_report s e = modify (λ w. record w { own = record w.own { status = s; error_code = e } })

abbrev pub code_of : Error → String
code_of (coded c) = c
code_of other = "rollover_failed"

abbrev pub is_healthy : String → Bool
is_healthy s = s == "healthy" || s == "none"

abbrev pub is_empty {ℓ} : {A : Type ℓ} → List A → Bool
is_empty [] = true
is_empty _ = false

abbrev pub tail : List String → List String
tail [] = []
tail (x ∷ xs) = xs
