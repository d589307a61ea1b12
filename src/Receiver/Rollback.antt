-- ===== src/Receiver/Rollback.antt =====
-- `rollback` of scripts/deploy-gcp.py.
pub mod Steps
use map_service_infra.Base.{
  ℕ, String, ◌<>◌, Bool, true, false, not, ◌&&◌, ◌||◌, Option, none, some, List, [], ◌∷◌, ◌++◌,
  contains, subset, string_eq, if◌then◌else◌,
}
use map_service_infra.Base.Lists.{all_of, keep}
use map_service_infra.Base.Result.{other, Result, ok, err}
use map_service_infra.Base.Exec.{Exec, pure, lift, ◌>>=◌, ◌>>◌, require, when}
use map_service_infra.Base.World.{call}
use map_service_infra.Receiver.Model.{
  Site, Projects, Host, State, query, stop_new, report, checkout, replace_environment, restore,
}
use map_service_infra.Receiver.Infrastructure.{
  application, administration, target_exporters, app_services, admin_services, filters, is_short_id,
  value_of, names_of,
}
use map_service_infra.Receiver.Compose.{Files, compose_command}
use map_service_infra.Receiver.Pins.Reference.{sorted}

pub is_empty {ℓ} : {A : Type ℓ} → List A → Bool
is_empty [] = true
is_empty (x ∷ xs) = false

pub services_of : String → Projects String → Result (List String)
services_of project active = elim (value_of project active) [
  | none ↦ err other
  | some services ↦ ok (names_of services)
]

-- What a rollback restores.
pub record Previous : Type 0 where
  pub sha : String
  pub environment : List ℕ
  pub bundle : String
  pub active : Projects String

pub previous_files : Previous → Files
previous_files p = record { bundle = some p.bundle; env_file = none; infrastructure = none }

pub up_args : List String
up_args =
    "up" ∷ "-d" ∷ "--force-recreate" ∷ "--no-deps" ∷ "--no-build" ∷ "--pull" ∷ "never" ∷ "--wait"
    ∷ "--wait-timeout" ∷ "180" ∷ []

module _ (h : Host) where
  pub stop_found : List String → Exec State Unit
  stop_found ids = do
    require (all_of is_short_id ids) "invalid container ID"
    call (stop_new ids) (h.stop_new ids)

  pub stop_one : String → String → Exec State Unit
  unfolding is_empty stop_found
  stop_one project service = do
    let args = "docker" ∷ "ps" ∷ "-q" ∷ filters project service
    ids ← call (query args) (h.lines args)
    when (not (is_empty ids)) (stop_found ids)

  pub stop_each : String → List String → Exec State Unit
  unfolding stop_one
  stop_each project [] = pure tt
  stop_each project (s ∷ ss) = do stop_one project s; stop_each project ss

  -- Stops the services that the failed release introduced.
  pub stop_introduced : String → List String → Projects String → Exec State Unit
  unfolding stop_each services_of
  stop_introduced project candidates active = do
    kept ← lift (services_of project active)
    stop_each project (sorted (keep (λ s. not (contains kept s)) candidates))

  pub restore_services : Site → Previous → Bool → List String → Exec State Unit
  unfolding up_args previous_files
  restore_services s p admin services = do
    args ← compose_command h admin s (previous_files p)
    call (restore (args ++ (up_args ++ services))) (h.restore (args ++ (up_args ++ services)))

  pub restore_project : Site → Previous → Bool → Exec State Unit
  unfolding services_of is_empty restore_services
  restore_project s p admin = do
    services ← lift (services_of (if admin then administration else application) p.active)
    require (not (admin && s.detached) || subset services target_exporters)
        "rollback cannot restore retired control services"
    when (not (is_empty services)) (restore_services s p admin services)

  unfoldable pub rollback : Site → Previous → Exec State Unit
  unfolding stop_introduced restore_project app_services admin_services
  rollback s p = do
    call (report "rollback_started") (h.report "rollback_started")
    stop_introduced application (app_services s) p.active
    stop_introduced administration (admin_services s) p.active
    call (checkout p.sha) (h.checkout p.sha)
    call (replace_environment p.environment) (h.replace_environment p.environment)
    restore_project s p false
    restore_project s p true
    call (report "rollback_complete") (h.report "rollback_complete")
