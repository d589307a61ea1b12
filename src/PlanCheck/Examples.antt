-- ===== src/PlanCheck/Examples.antt =====
-- Plans that the gate of gcp/terraform/plan_check.py passes.
use map_service_infra.Base.{◌≡◌, refl, ◌↔◌, true, false, some, none, [], ◌∷◌, string_eq, bool_eq}
use map_service_infra.Base.Lists.{All}
use map_service_infra.PlanCheck.{Item, Plan, web_public, on, bool, text, object, main, changes}
use map_service_infra.PlanCheck.Safety.{Harmless, main_zero_iff, main_unfrozen}

-- An alert policy whose display name changes, and a new bucket.
abbrev renamed : Item
renamed = record {
  kind = "google_monitoring_alert_policy";
  address = "google_monitoring_alert_policy.cpu";
  change = record {
    actions = "update" ∷ [];
    before = some (("enabled", bool true) ∷ ("display_name", text "cpu") ∷ []);
    after = some (("enabled", bool true) ∷ ("display_name", text "CPU") ∷ []);
  };
}

abbrev bucket : Item
bucket = record {
  kind = "google_storage_bucket";
  address = "google_storage_bucket.logs";
  change = record { actions = "create" ∷ []; before = none; after = some [] };
}

abbrev plan : Plan
plan = record { planned_values = true; resource_changes = some (renamed ∷ bucket ∷ []) }

main_zero_iff_example :
    ((main true (object plan)).0 ≡ 0)
    ↔ ((plan.planned_values ≡ true) × All (Harmless true) (changes plan))
main_zero_iff_example = main_zero_iff true plan

plan_passes : (main true (object plan)).0 ≡ 0
unfolding main string_eq bool_eq web_public on
plan_passes = refl

main_unfrozen_example : (main false (object plan)).0 ≡ 0
main_unfrozen_example = main_unfrozen plan plan_passes
