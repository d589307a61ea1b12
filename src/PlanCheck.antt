-- ===== src/PlanCheck.antt =====
-- The plan gate, gcp/terraform/plan_check.py: which planned changes are refused, what is printed
-- and the exit status. The JSON of the plan is read by the standard library, so `main` takes the
-- value that it read.
pub mod Safety
mod Examples
use map_service_infra.Base.{
  ℕ, String, ◌<>◌, Bool, true, false, not, ◌&&◌, ◌||◌, Option, none, some, List, [], ◌∷◌, ◌++◌, map,
  ◌==◌, ◌!=◌, contains, string_eq, bool_eq, if◌then◌else◌, codes, eqb,
}

-- A JSON value of a resource's attribute. `other` is a number, a list or an object, with its `str`.
pub data Attr : Type 0 where
  null : Attr
  bool : Bool → Attr
  text : String → Attr
  other : String → Attr

abbrev pub Attrs : Type 0
Attrs = List (String × Attr)

pub record Change : Type 0 where
  pub actions : List String
  pub before : Option Attrs
  pub after : Option Attrs

pub record Item : Type 0 where
  pub kind : String
  pub address : String
  pub change : Change

pub record Plan : Type 0 where
  pub planned_values : Bool
  pub resource_changes : Option (List Item)

-- What `json.load` gives to `main`.
pub data Input : Type 0 where
  unreadable : Input
  not_object : Input
  object : Plan → Input

pub data Reason : Type 0 where
  would_delete : String → List String → Reason
  stops_serving starts_frozen stops_alerting changes_frozen : String → Reason

abbrev pub protected : List String
protected =
    "google_compute_address" ∷ "google_compute_disk" ∷ "google_compute_instance"
    ∷ "google_storage_bucket" ∷ "google_logging_project_bucket_config"
    ∷ "google_logging_project_sink" ∷ "google_project_iam_audit_config"
    ∷ "google_iam_workload_identity_pool" ∷ "google_iam_workload_identity_pool_provider" ∷ []

-- `'/'.join(parts)`
unfoldable pub slashed : List String → String
slashed [] = ""
slashed (a ∷ []) = a
slashed (a ∷ b ∷ rest) = a <> ("/" <> slashed (b ∷ rest))

-- `attributes.get(name)`
unfoldable pub get : String → Attrs → Option Attr
get name [] = none
get name ((k, v) ∷ rest) = if k == name then some v else get name rest

abbrev pub py_str : Attr → String
py_str null = "None"
py_str (bool true) = "True"
py_str (bool false) = "False"
py_str (text s) = s
py_str (other s) = s

same_codes : List ℕ → List ℕ → Bool
same_codes [] [] = true
same_codes [] (y ∷ ys) = false
same_codes (x ∷ xs) [] = false
same_codes (x ∷ xs) (y ∷ ys) = eqb x y && same_codes xs ys

has_suffix : List ℕ → List ℕ → Bool
unfolding same_codes
has_suffix [] t = same_codes [] t
has_suffix (x ∷ xs) t = same_codes (x ∷ xs) t || has_suffix xs t

-- `text.endswith(suffix)`
unfoldable pub ends_with : String → String → Bool
unfolding has_suffix
ends_with s t = has_suffix (codes s) (codes t)

abbrev str_or_empty : Option Attr → String
str_or_empty none = ""
str_or_empty (some v) = py_str v

abbrev is_bool : Bool → Option Attr → Bool
is_bool b (some (bool true)) = b
is_bool b (some (bool false)) = not b
is_bool b _ = false

-- An existing firewall rule that carries public traffic.
unfoldable pub web_public : String → Attrs → Bool
unfolding ends_with get
web_public kind before =
    kind == "google_compute_firewall" && ends_with (str_or_empty (get "name" before)) "-web-public"

-- `attributes.get('disabled') is True`
unfoldable pub off : Attrs → Bool
off a = is_bool true (get "disabled" a)

-- `attributes.get('enabled') is not False`
unfoldable pub on : Attrs → Bool
on a = not (is_bool false (get "enabled" a))

-- `item['change'].get('after') or {}`
abbrev pub or_empty : Option Attrs → Attrs
or_empty none = []
or_empty (some a) = a

abbrev pub deleted : Item → Bool
deleted i = contains i.change.actions "delete"

one_if : Bool → Reason → List Reason
one_if b r = if b then r ∷ [] else []

door_violations : Bool → Item → Attrs → Attrs → List Reason
unfolding one_if
door_violations frozen i before after =
    if web_public i.kind before
    then (if deleted i || (off after && not (off before))
        then stops_serving i.address ∷ []
        else one_if (frozen && (off before != off after)) (starts_frozen i.address))
    else []

alert_violations : Bool → Item → Attrs → Attrs → List Reason
unfolding one_if
alert_violations frozen i before after =
    if i.kind == "google_monitoring_alert_policy"
    then (if on before && (deleted i || not (on after))
        then stops_alerting i.address ∷ []
        else one_if (frozen && (deleted i || (on before != on after))) (changes_frozen i.address))
    else []

existing_violations : Bool → Item → Option Attrs → List Reason
unfolding door_violations alert_violations
existing_violations frozen i none = []
existing_violations frozen i (some before) =
    let after = or_empty i.change.after in
    door_violations frozen i before after ++ alert_violations frozen i before after

item_violations : Bool → Item → List Reason
unfolding existing_violations one_if
item_violations frozen i =
    one_if (contains protected i.kind && deleted i) (would_delete i.address i.change.actions)
    ++ existing_violations frozen i i.change.before

all_violations : Bool → List Item → List Reason
all_violations frozen [] = []
all_violations frozen (i ∷ rest) = item_violations frozen i ++ all_violations frozen rest

-- `plan.get('resource_changes', [])`
abbrev pub changes : Plan → List Item
changes p = elim p.resource_changes [ none ↦ [] | some items ↦ items ]

unfoldable pub violations : Bool → Plan → List Reason
unfolding all_violations item_violations
violations frozen p = all_violations frozen (changes p)

unfoldable pub message : Reason → String
unfolding slashed
message (would_delete a actions) = a <> (": " <> (slashed actions <> " would delete it"))
message (stops_serving a) = a <> ": web-public would stop serving"
message (starts_frozen a) = a <> ": web-public would start serving while frozen"
message (stops_alerting a) = a <> ": alert policy would stop alerting"
message (changes_frozen a) = a <> ": alert policy would change while frozen"

is_quiet : List String → Bool
is_quiet (a ∷ []) = a == "no-op" || a == "read"
is_quiet _ = false

-- The lines on the changing resources; no attribute value is printed.
summary_lines : List Item → List String
unfolding is_quiet slashed
summary_lines [] = []
summary_lines (i ∷ rest) =
    let more = summary_lines rest in
    if is_quiet i.change.actions
    then more
    else (slashed i.change.actions <> (" " <> i.address)) ∷ more

unfoldable pub summary : Plan → List String
unfolding summary_lines
summary p = summary_lines (changes p)

status_of : List Reason → ℕ
status_of [] = 0
status_of (r ∷ rs) = 1

-- The exit status and the printed lines. The two messages of status 2 go to the error stream.
unfoldable pub main : Bool → Input → ℕ × List String
unfolding violations summary message status_of
main frozen unreadable = (2, [])
main frozen not_object = (2, [])
main frozen (object p) =
    if p.planned_values
    then (let blocked = violations frozen p in
        (status_of blocked, summary p ++ map (λ r. "BLOCK " <> message r) blocked))
    else (2, [])
