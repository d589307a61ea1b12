-- ===== src/Receiver/Pins/Preserved.antt =====
-- What the pins of the infrastructure are (scripts/deploy-gcp.py, `prepare_infrastructure`).
use map_service_infra.Base.{
  String, ◌≡◌, ◌==◌, contains, string_eq, true, false, Option, none, some, List,
}
use map_service_infra.Base.Lists.{All}
use map_service_infra.Base.Exec.{◌>>◌}
use map_service_infra.Receiver.Model.{Captured, Pinned, Projects}
use map_service_infra.Receiver.Infrastructure.{value_of, names_of}
use map_service_infra.Receiver.Pins.{is_database}

-- The pin of a service with a container is that container with its image; a service without one is
-- no database and not the edge.
abbrev pub Kept : Option Captured → String → Pinned → Type 0
Kept none service pin = (is_database service ≡ false) × ((service == "edge") ≡ false)
Kept (some c) service pin = (pin.image ≡ c.image) × (pin.container_id ≡ some c.container_id)

abbrev pub AllKept : List (String × Captured) → List (String × Pinned) → Type 0
AllKept captured pins = All (λ entry. Kept (value_of entry.0 captured) entry.0 entry.1) pins

-- Each captured service has a pin.
abbrev pub Covered : List (String × Captured) → List (String × Pinned) → Type 0
Covered captured pins = All (λ name. contains (names_of pins) name ≡ true) (names_of captured)

-- Every captured service is pinned, and each pin is as it should be.
abbrev pub Preserves : List (String × Captured) → List (String × Pinned) → Type 0
Preserves captured pins = Covered captured pins × AllKept captured pins

-- So in the project, of what was captured of it.
abbrev pub ProjectKept : Projects Captured → String × List (String × Pinned) → Type 0
ProjectKept captured project =
    (found : List (String × Captured)) × ((value_of project.0 captured ≡ some found)
      × Preserves found project.1)
