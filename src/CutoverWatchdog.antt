-- ===== src/CutoverWatchdog.antt =====
-- The supervisor of the public services, scripts/cutover_watchdog.py: `recover_once` with what it
-- reads. The names of operations that it reports to `stage` are diagnostic and left out. The host
-- answers the calls; what the receiver (scripts/deploy-gcp.py) reads and validates comes as values.
pub mod Receipt
pub mod Authority
mod Examples
use Receipt.{
  Identity, Item, Latch, parse_item, public_of, check_head, check_tail, identity_of, identity_eq,
  tuple_eq, is_hold,
}
use map_service_infra.Base.{
  ℕ, String, Bool, true, false, not, ◌&&◌, ◌||◌, Option, none, some, List, [], ◌∷◌, ◌==◌, contains,
  string_eq, bool_eq, option_eq, if◌then◌else◌, codes, is_hex_digit, leb,
}
use map_service_infra.Base.Lists.{length, all_of}
use map_service_infra.Base.Json.{Json, Fields}
use map_service_infra.Base.Result.{Error, coded, other, Result, ok, err}
use map_service_infra.Base.Exec.{Exec, pure, raise, lift, ◌>>=◌, ◌>>◌, attempt, require}
use map_service_infra.Base.World.{Trace, Answer, World, call}

pub data Call : Type 0 where
  lock scope latch maintenance restart_override overrides receipt policy topology smoke
        stop_public :
      Call
  ids inspect start unlink nginx_test nginx_reload : String → Call

pub record Host : Type 0 where
  pub instance_id : String
  pub lock : Answer Call Unit
  pub scope : Answer Call String
  pub latch : Answer Call (Option Latch)
  pub maintenance : Answer Call (Option Json)
  pub restart_override : Answer Call Unit
  pub overrides : Answer Call (List String)
  pub unlink : String → Answer Call Unit
  pub receipt : Answer Call Json
  pub policy : Answer Call (List (List String))
  pub ids : String → Answer Call (List String)
  pub inspect : String → Answer Call Json
  pub nginx_test : String → Answer Call Unit
  pub nginx_reload : String → Answer Call Unit
  pub topology : Answer Call Unit
  pub smoke : Answer Call Unit
  pub start : String → Answer Call Unit
  pub stop_public : Answer Call Unit

abbrev pub State : Type 0
State = World Call Unit

pub data Outcome : Type 0 where
  receiver_active returned_to_canonical public_quarantined completed_public_supervised : Outcome

abbrev pub public : List String
public = "edge" ∷ "proxy" ∷ "user" ∷ "yolo" ∷ []

abbrev pub start_order : List String
start_order = "yolo" ∷ "user" ∷ "proxy" ∷ "edge" ∷ []

abbrev pub terminal : List String
terminal = "complete" ∷ "rolled_back" ∷ []

abbrev pub serving : List String
serving = "rollover" ∷ "rollover_failed_serving" ∷ []

-- `[a-f0-9]{12,64}`
pub short_id : String → Bool
unfolding all_of
short_id s =
    leb 12 (length (codes s)) && (leb (length (codes s)) 64 && all_of is_hex_digit (codes s))

abbrev pub idle : String → Bool
idle s = s == "inactive" || s == "failed"

abbrev scope_states : List String
scope_states = "active" ∷ "activating" ∷ "deactivating" ∷ "inactive" ∷ "failed" ∷ []

pub all_running : List (String × Item) → Bool
all_running [] = true
all_running ((s, i) ∷ rest) = i.running && all_running rest

-- `actual[service]`
pub find_item : String → List (String × Item) → Result Item
find_item s [] = err other
find_item s ((t, i) ∷ rest) = if t == s then ok i else find_item s rest

-- The recorded identity, and no restart by Docker.
abbrev pub agrees : Fields → String → Item → Bool
agrees ready s i =
    identity_of s ready == some (record { id = i.id; image = i.image }) && i.restart == "no"

pub all_agree : Fields → List (String × Item) → Bool
all_agree ready [] = true
all_agree ready ((s, i) ∷ rest) = agrees ready s i && all_agree ready rest

module _ (h : Host) where
  pub sole_container : List String → Exec State Item
  unfolding short_id
  sole_container (cid ∷ []) = do
    require (short_id cid) "expected one reviewed container"
    raw ← call (inspect cid) (h.inspect cid)
    lift (parse_item raw)
  sole_container _ = raise (coded "expected one reviewed container")

  pub containers : List String → Exec State (List (String × Item))
  unfolding sole_container
  containers [] = pure []
  containers (s ∷ rest) = do
    found ← call (ids s) (h.ids s)
    item ← sole_container found
    items ← containers rest
    pure ((s, item) ∷ items)

  pub unlink_all : List String → Exec State Unit
  unlink_all [] = pure tt
  unlink_all (p ∷ ps) = do call (unlink p) (h.unlink p); unlink_all ps

  -- `return_to_canonical(d) is not None`
  pub return_to_canonical : Exec State Bool
  unfolding unlink_all containers all_running find_item
  return_to_canonical =
      attempt
        (do
          paths ← call overrides h.overrides
          unlink_all paths
          actual ← containers public
          require (all_running actual) "a public container is not running"
          proxy ← lift (find_item "proxy" actual)
          call (nginx_test proxy.id) (h.nginx_test proxy.id)
          call (nginx_reload proxy.id) (h.nginx_reload proxy.id)
          pure true)
        (λ _. pure false)

  pub on_hold : Option Json → Exec State Bool
  on_hold none = pure false
  on_hold (some v) = do require (is_hold h.instance_id v) "invalid maintenance hold"; pure true

  -- `maintenance(d)`
  pub held : Exec State Bool
  unfolding on_hold
  held = do v ← call maintenance h.maintenance; on_hold v

  pub receiver_scope_active : Exec State Bool
  receiver_scope_active = do
    s ← call scope h.scope
    require (contains scope_states s) "receiver scope state unavailable"
    pure (not (idle s))

  pub require_latch : Option Latch → Exec State Latch
  require_latch none = raise (coded "cutover latch required")
  require_latch (some l) = pure l

  pub choices : Latch → List (List String) → List (List String)
  choices l verified = if l.phase == "complete" then l.candidate ∷ [] else verified

  pub read_ready_receipt : Latch → Exec State Fields
  unfolding choices
  read_ready_receipt l = do
    data_ ← call receipt h.receipt
    fields ← lift (check_head l data_)
    verified ← call policy h.policy
    lift (check_tail (choices l verified) fields)

  pub quarantine : Exec State Outcome
  quarantine = do call stop_public h.stop_public; pure public_quarantined

  pub before_start : String → Exec State Unit
  before_start s =
      if s == "edge" then (do call topology h.topology; call smoke h.smoke) else pure tt

  pub start_if_down : String → Item → Exec State Unit
  unfolding before_start
  start_if_down s i =
      if i.running then pure tt else (do before_start s; call (start i.id) (h.start i.id))

  pub start_stopped : List String → List (String × Item) → Exec State Unit
  unfolding start_if_down find_item
  start_stopped [] actual = pure tt
  start_stopped (s ∷ rest) actual = do
    item ← lift (find_item s actual)
    start_if_down s item
    start_stopped rest actual

  -- The terminal phases.
  pub supervise : Latch → Exec State Outcome
  unfolding read_ready_receipt containers start_stopped all_agree
  supervise l = do
    call restart_override h.restart_override
    ready ← read_ready_receipt l
    actual ← containers public
    require (all_agree ready actual) "public identity or restart contract changed"
    start_stopped start_order actual
    pure completed_public_supervised

  pub decide : Latch → Bool → Exec State Outcome
  unfolding quarantine supervise
  decide l hold = if hold || not (contains terminal l.phase) then quarantine else supervise l

  pub hand_back : Bool → Exec State Outcome
  unfolding quarantine
  hand_back true = pure returned_to_canonical
  hand_back false = quarantine

  pub on_latch : Latch → Exec State Outcome
  unfolding held return_to_canonical hand_back decide
  on_latch l = do
    hold ← held
    if not hold && contains serving l.phase
        then (do back ← return_to_canonical; hand_back back)
        else (do again ← held; decide l again)

  pub when_idle : Bool → Exec State Outcome
  unfolding require_latch on_latch
  when_idle true = pure receiver_active
  when_idle false = do o ← call latch h.latch; l ← require_latch o; on_latch l

  unfoldable pub recover_once : Exec State Outcome
  unfolding receiver_scope_active when_idle
  recover_once = do call lock h.lock; active ← receiver_scope_active; when_idle active
