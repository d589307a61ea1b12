-- ===== src/PublicStop/Examples.antt =====
-- Runs of `stop_public_services` and `remove_rollover_containers` (scripts/deploy-gcp.py).
use map_service_infra.Base.{false, is_hex64, String, refl, [], ◌∷◌, List}
use map_service_infra.Base.Lists.{All}
use map_service_infra.Base.Result.{ok}
use map_service_infra.Base.Exec.{◌>>=◌, attempt}
use map_service_infra.Base.World.{Trace}
use map_service_infra.Receiver.Model.{Call, Host, State, stopping}
use map_service_infra.Receiver.Hosts.{willing}
use map_service_infra.PublicStop.{stop_public_services, remove_each, remove_rollover_containers}
use map_service_infra.PublicStop.Removed.{RemovedAll, remove_rollover_containers_all}
use map_service_infra.PublicStop.Closed.{ClosedSince, stop_public_services_closed}

-- A container runs until a stop.
abbrev running : Trace Call → List String
running [] = "0123456789abcdef" ∷ []
running ((stopping ids, _) ∷ t) = []
running (_ ∷ t) = running t

-- The copies that two replacements left behind.
abbrev left_over : List String
left_over =
    "aaaaaaaaaaaaaaaaaaaaaaaaaaaaaaaaaaaaaaaaaaaaaaaaaaaaaaaaaaaaaaaa"
    ∷ "0000000000000000000000000000000000000000000000000000000000000000" ∷ []

abbrev docker : Host
docker = record willing { listing = λ s t. ok (running t); copies = λ t. ok left_over }

abbrev begin : State
begin = record { own = false; trace = [] }

abbrev entrypoints : List String
entrypoints = "edge" ∷ "proxy" ∷ []

stop_public_services_closed_example :
    All
      (λ s. ClosedSince docker s (stop_public_services docker entrypoints begin).1.trace)
      entrypoints
unfolding stop_public_services ◌>>=◌ attempt
stop_public_services_closed_example = stop_public_services_closed docker entrypoints begin refl

remove_rollover_containers_all_example :
    RemovedAll docker [] left_over (remove_rollover_containers docker begin).1.trace
unfolding remove_rollover_containers remove_each ◌>>=◌ is_hex64
remove_rollover_containers_all_example = remove_rollover_containers_all docker begin left_over refl
