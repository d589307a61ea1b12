-- ===== src/PlanCheck/Safety.antt =====
-- What a plan that passes the gate leaves alone (gcp/terraform/plan_check.py).
use map_service_infra.Base.{
  ◌≡◌, refl, ◌↔◌, Bool, true, false, Option, none, some, List, [], ◌∷◌, arith, contains, string_eq,
  bool_eq, ◌==◌, ◌&&◌, Bool-cases, inl, inr,
}
use map_service_infra.Base.Lists.{All, append-eq-nil}
use map_service_infra.PlanCheck.{
  Item, Attrs, Plan, Reason, would_delete, object, protected, deleted, web_public, off, on,
  or_empty, changes, one_if, door_violations, alert_violations, existing_violations,
  item_violations, all_violations, status_of, main,
}

-- A change that keeps the existing public entrance open, and as it is in a freeze.
abbrev pub DoorKept : Bool → Item → Attrs → Attrs → Type 0
DoorKept frozen i before after =
    web_public i.kind before ≡ true
    → (deleted i ≡ false)
      × (off after ≡ true → off before ≡ true)
      × (frozen ≡ true → off before ≡ off after)

-- A change that keeps an existing alert policy alerting, and untouched in a freeze.
abbrev pub AlertKept : Bool → Item → Attrs → Attrs → Type 0
AlertKept frozen i before after =
    (i.kind == "google_monitoring_alert_policy") ≡ true
    → (on before ≡ true → (deleted i ≡ false) × (on after ≡ true))
      × (frozen ≡ true → (deleted i ≡ false) × (on before ≡ on after))

abbrev pub ExistingKept : Bool → Item → Option Attrs → Type 0
ExistingKept frozen i none = Unit
ExistingKept frozen i (some before) =
    DoorKept frozen i before (or_empty i.change.after)
    × AlertKept frozen i before (or_empty i.change.after)

-- A planned change that the gate must let through.
abbrev pub Harmless : Bool → Item → Type 0
Harmless frozen i =
    (contains protected i.kind ≡ true → deleted i ≡ false) × ExistingKept frozen i i.change.before

door_lem :
    (frozen : Bool) (i : Item) (before after : Attrs)
    → (door_violations frozen i before after ≡ []) ↔ DoorKept frozen i before after
unfolding door_violations
door_lem frozen i before after = ground arith

alert_lem :
    (frozen : Bool) (i : Item) (before after : Attrs)
    → (alert_violations frozen i before after ≡ []) ↔ AlertKept frozen i before after
unfolding alert_violations
alert_lem frozen i before after = ground arith

existing_lem :
    (frozen : Bool) (i : Item) (b : Option Attrs)
    → (existing_violations frozen i b ≡ []) ↔ ExistingKept frozen i b
unfolding existing_violations
existing_lem frozen i none = (λ h. tt, λ h. refl)
existing_lem frozen i (some before) = ground (
  arith,
  append-eq-nil (door_violations frozen i before (or_empty i.change.after))
      (alert_violations frozen i before (or_empty i.change.after)),
  door_lem frozen i before (or_empty i.change.after),
  alert_lem frozen i before (or_empty i.change.after),
)

protected_lem : (b d : Bool) (r : Reason) → (one_if (b && d) r ≡ []) ↔ (b ≡ true → d ≡ false)
unfolding one_if
protected_lem b d r = ground arith

item_lem : (frozen : Bool) (i : Item) → (item_violations frozen i ≡ []) ↔ Harmless frozen i
unfolding item_violations
item_lem frozen i =
    let r = would_delete i.address i.change.actions in
    let first = protected_lem (contains protected i.kind) (deleted i) r in
    let second = existing_lem frozen i i.change.before in
    let parts =
      append-eq-nil (one_if (contains protected i.kind && deleted i) r)
        (existing_violations frozen i i.change.before) in
    (λ h. (first.0 (parts.0 h).0, second.0 (parts.0 h).1), λ h. parts.1 (first.1 h.0, second.1 h.1))

all_lem :
    (frozen : Bool) (items : List Item)
    → (all_violations frozen items ≡ []) ↔ All (Harmless frozen) items
unfolding all_violations
all_lem frozen [] = (λ h. tt, λ h. refl)
all_lem frozen (i ∷ rest) =
    let parts = append-eq-nil (item_violations frozen i) (all_violations frozen rest) in
    (
      λ h. ((item_lem frozen i).0 (parts.0 h).0, (all_lem frozen rest).0 (parts.0 h).1),
      λ h. parts.1 ((item_lem frozen i).1 h.0, (all_lem frozen rest).1 h.1),
    )

status_lem : (rs : List Reason) → (status_of rs ≡ 0) ↔ (rs ≡ [])
unfolding status_of
status_lem [] = (λ h. refl, λ h. refl)
status_lem (r ∷ rs) = (λ h. absurd (omega arith), λ h. cc)

-- The gate exits with 0 exactly when the input is a plan (it has `planned_values`) whose every
-- change is harmless: no protected resource is deleted or replaced; an existing web-public rule is
-- not deleted and not switched off; an existing alert policy that is on is not deleted and stays
-- on; and in a freeze an existing switch of either kind is not changed at all.
pub main_zero_iff :
    (frozen : Bool) (p : Plan)
    → ((main frozen (object p)).0 ≡ 0)
      ↔ ((p.planned_values ≡ true) × All (Harmless frozen) (changes p))
unfolding main
main_zero_iff frozen p = elim (Bool-cases p.planned_values) [
  | inl planned ↦
      rw (planned, main)
        (
          λ h. (refl, (all_lem frozen (changes p)).0 ((status_lem _).0 h)),
          λ h. (status_lem _).1 ((all_lem frozen (changes p)).1 h.1),
        )
  | inr missing ↦ rw (missing, main) (λ h. absurd (omega arith), λ h. absurd (cc (h.0)))
]

Harmless-unfrozen : (i : Item) → Harmless true i → Harmless false i
Harmless-unfrozen i h = (h.0, existing i.change.before h.1)
  where
    existing : (b : Option Attrs) → ExistingKept true i b → ExistingKept false i b
    existing none k = tt
    existing (some before) k = ground arith

All-unfrozen : (items : List Item) → All (Harmless true) items → All (Harmless false) items
All-unfrozen [] h = tt
All-unfrozen (i ∷ rest) h = (Harmless-unfrozen i h.0, All-unfrozen rest h.1)

-- `--frozen` only ever refuses more: a plan that passes in a freeze passes outside it.
pub main_unfrozen : (p : Plan) → (main true (object p)).0 ≡ 0 → (main false (object p)).0 ≡ 0
main_unfrozen p h =
    let (planned, harmless) = (main_zero_iff true p).0 h in
    (main_zero_iff false p).1 (planned, All-unfrozen (changes p) harmless)
