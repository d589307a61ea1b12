-- ===== src/PublicStop.antt =====
-- Closing the public services in the receiver, scripts/deploy-gcp.py: `running_service_ids`,
-- `remove_rollover_containers`, `stop_public_services` and `verify_edge_closed`.
pub mod Closed
pub mod Quiet
pub mod Removed
mod Examples
use map_service_infra.Base.{
  ℕ, String, Bool, true, false, not, ◌&&◌, List, [], ◌∷◌, ◌++◌, if◌then◌else◌, codes, is_hex_digit,
  is_hex64, leb,
}
use map_service_infra.Base.Lists.{length, all_of}
use map_service_infra.Base.Result.{Error, Result, ok, err}
use map_service_infra.Base.Exec.{Exec, pure, ◌>>=◌, ◌>>◌, attempt, require, when}
use map_service_infra.Receiver.Model.{Host, State, listing, stopping, copies, remove}
use map_service_infra.Base.World.{Trace, Answer, World, call}

abbrev pub is_empty {ℓ} : {A : Type ℓ} → List A → Bool
is_empty [] = true
is_empty _ = false

-- `[a-f0-9]{12,64}`
container_hex : String → Bool
unfolding all_of
container_hex s =
    leb 12 (length (codes s)) && (leb (length (codes s)) 64 && all_of is_hex_digit (codes s))

module _ (d : Host) where
  pub running_service_ids : String → Exec State (List String)
  unfolding container_hex all_of
  running_service_ids service = do
    ids ← call (listing service) (d.listing service)
    require (all_of container_hex ids) "invalid ingress container ID"
    pure ids

  -- Whether a stop of the service failed.
  pub try_stop : String → Exec State Bool
  unfolding running_service_ids
  try_stop service =
      attempt
        (do
          ids ← running_service_ids service
          when (not (is_empty ids)) (call (stopping ids) (d.stopping ids))
          pure false)
        (λ _. pure true)

  pub try_stops : List String → Exec State (List String)
  unfolding try_stop
  try_stops [] = pure []
  try_stops (s ∷ rest) = do
    failed ← try_stop s
    errors ← try_stops rest
    pure (if failed then s ∷ errors else errors)

  -- Whether the service still runs, or cannot be listed.
  pub still_open : String → Exec State Bool
  unfolding running_service_ids
  still_open service =
      attempt (do ids ← running_service_ids service; pure (not (is_empty ids))) (λ _. pure true)

  pub verify_all : List String → Exec State (List String)
  unfolding still_open
  verify_all [] = pure []
  verify_all (s ∷ rest) = do
    failed ← still_open s
    errors ← verify_all rest
    pure (if failed then s ∷ errors else errors)

  pub stop_public_services : List String → Exec State Unit
  unfolding try_stops verify_all
  stop_public_services services = do
    unstopped ← try_stops services
    unverified ← verify_all services
    require (is_empty (unstopped ++ unverified)) "public entrypoint stop or verification failed"

  unfoldable pub verify_edge_closed : Exec State Unit
  unfolding running_service_ids
  verify_edge_closed = do
    ids ← running_service_ids "edge"
    require (is_empty ids) "public entrypoint opened before private readiness"

  pub remove_each : List String → Exec State Unit
  remove_each [] = pure tt
  remove_each (i ∷ rest) = do
    require (is_hex64 i) "unexpected container identity"
    call (remove i) (d.remove i)
    remove_each rest

  pub remove_rollover_containers : Exec State (List String)
  unfolding remove_each
  remove_rollover_containers = do ids ← call copies d.copies; remove_each ids; pure ids
