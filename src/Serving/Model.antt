-- ===== src/Serving/Model.antt =====
-- The state of scripts/ncp-production-serving.py: its service lists, receipt, calls and backend.
use map_service_infra.Serving.Configuration.{Config}
use map_service_infra.Base.Json.{Json}
use map_service_infra.Base.{
  String, Bool, true, false, Option, none, some, List, [], ◌∷◌, string_eq, option_eq, Eq,
}
use map_service_infra.Base.World.{Trace, Answer, World}

abbrev pub services : List String
services =
    "redis" ∷ "osrm-foot" ∷ "osrm-bicycle" ∷ "hub" ∷ "agent" ∷ "user" ∷ "yolo" ∷ "proxy" ∷ "edge"
    ∷ []

abbrev pub public_services : List String
public_services = "edge" ∷ "proxy" ∷ "user" ∷ "yolo" ∷ []

-- `SERVICES` without the edge.
abbrev pub private_services : List String
private_services =
    "redis" ∷ "osrm-foot" ∷ "osrm-bicycle" ∷ "hub" ∷ "agent" ∷ "user" ∷ "yolo" ∷ "proxy" ∷ []

abbrev pub edge_only : List String
edge_only = "edge" ∷ []

pub data Action : Type 0 where
  verify start_private publish stop_public resume : Action

Action-discrete : Discrete Action
Action-discrete = hlevel

instance unfoldable pub action_eq : Eq Action
unfolding Action-discrete
action_eq = record { dec = Action-discrete }

-- One container of the inventory.
pub record Container : Type 0 where
  pub name : String
  pub container_id : String
  pub image_id : String

-- `serving-state.json`; `none` is a missing or null field.
pub record Receipt : Type 0 where
  pub status : Option String
  pub binding : Option String
  pub public_serving : Option String
  pub resume_public : Option Bool
  pub containers : Option (List Container)
  pub public_manifest_sha256 : Option String
  pub updated_at : Option String

abbrev pub empty_receipt : Receipt
empty_receipt = record {
  status = none;
  binding = none;
  public_serving = none;
  resume_public = none;
  containers = none;
  public_manifest_sha256 = none;
  updated_at = none;
}

pub data File : Type 0 where
  absent : File
  unreadable : File
  written : Receipt → File

-- The receipt file, and the local `inputs` of `execute` with its binding.
pub record Own : Type 0 where
  pub file : File
  pub inputs : Option String

pub data Call : Type 0 where
  private_dir lock read_config inputs pg rendered public_inputs prepare private_ready public_ready :
      Call
  sync : Call
  stop up inventory : List String → Call
  write : Receipt → Call

-- What answers the calls: the host's file system and clock, and the backend.
pub record Backend : Type 0 where
  pub private_dir : Answer Call Unit
  pub lock : Answer Call Unit
  pub now : Trace Call → String
  pub write : Receipt → Answer Call Unit
  pub sync : Answer Call Unit
  pub read_config : Answer Call Json
  pub inputs : Config → Answer Call String
  pub pg : Answer Call Unit
  pub rendered : Answer Call Unit
  pub public_inputs : Config → Answer Call Unit
  pub stop : List String → Answer Call Unit
  pub prepare : Answer Call Unit
  pub up : List String → Answer Call Unit
  pub private_ready : Answer Call Unit
  pub inventory : List String → Answer Call (List Container)
  pub public_ready : Answer Call Unit

pub record Reply : Type 0 where
  pub status : String
  pub public_serving : String

abbrev pub State : Type 0
State = World Call Own

abbrev pub is_true : Option Bool → Bool
is_true (some true) = true
is_true _ = false

abbrev pub or_hold : Option String → String
or_hold none = "HOLD"
or_hold (some v) = v
