-- ===== src/Receiver/Model.antt =====
-- What the receiver of a deployment (scripts/deploy-gcp.py) knows and calls: its target, the release,
-- the calls it makes of docker, git, the file system and the network, and the host that answers them.
use map_service_infra.Base.{ℕ, String, Bool, true, false, Option, List}
use map_service_infra.Base.Json.{Json}
use map_service_infra.Base.World.{Trace, Answer, World}
use map_service_infra.CutoverWatchdog.Receipt.{Latch}

pub record Target : Type 0 where
  pub project : String
  pub zone : String
  pub instance_name : String
  pub instance_id : String
  pub public_url : String
  pub repo : String
  pub dns_profile : Bool

-- The globals that `apply_target` and `topology_scope` bind.
pub record Site : Type 0 where
  pub target : Target
  pub detached : Bool

-- The part of `stat` that the receiver reads; `mode` has the permission bits.
pub record Metadata : Type 0 where
  pub regular : Bool
  pub directory : Bool
  pub uid : ℕ
  pub mode : ℕ

-- What `docker image inspect` shows of an image.
pub record Image : Type 0 where
  pub image_id : String
  pub repo_digests : List String

-- An infrastructure container found before the checkout.
pub record Captured : Type 0 where
  pub image : Image
  pub container_id : String

-- An image that the release pins. A preserved one keeps the container it was found in.
pub record Pinned : Type 0 where
  pub image : Image
  pub container_id : Option String
  pub requested_image : String

-- For each Compose project, a value for each of its services.
abbrev pub Projects : Type 0 → Type 0
Projects A = List (String × List (String × A))

-- The verified bundle of a release. `images` are in the order of the six services.
pub record Release : Type 0 where
  pub run_id : String
  pub infra_sha : String
  pub source_ref : String
  pub release_tag : String
  pub images : List String

-- Why a request got no response, by the classes that `network_failure` tells apart.
pub data Failure : Type 0 where
  certificate handshake timed_out name_again name_error connection_error connection_number
        transport :
      Failure

-- A response has its status and the JSON value of its body, `none` where it is none.
pub data Reply : Type 0 where
  answered : ℕ → Option Json → Reply
  failed : Failure → Reply

pub data Call : Type 0 where
  query : List String → Call
  read : String → Call
  listing remove pull : String → Call
  stopping stop_new : List String → Call
  copies clock unpack hand_back backup : Call
  sleep : ℕ → Call
  http report guard fetch checkout instance_value receipt result : String → Call
  save : String → List String → Call
  replace_environment : List ℕ → Call
  write_latch : Latch → Call
  cloud_up : List String → List (String × String) → Call
  open_edge restore : List String → Call

-- `output`, `lines` and `json` answer a command: its text, the lines or the JSON value of it.
-- `hand_back` is `return_to_canonical` of scripts/cutover_watchdog.py, which catches every exception.
pub record Host : Type 0 where
  pub euid : Answer Call ℕ
  pub metadata : String → Answer Call Metadata
  pub present : String → Answer Call Bool
  pub content : String → Answer Call (ℕ × Option Json)
  pub read_lines : String → Answer Call (List String)
  pub read_json : String → Answer Call Json
  pub digest : String → Answer Call String
  pub free : Answer Call ℕ
  pub stamp : Answer Call String
  pub read_text : String → Answer Call (List ℕ)
  pub instance_value : String → Answer Call String
  pub output : List String → Answer Call String
  pub lines : List String → Answer Call (List String)
  pub json : List String → Answer Call Json
  pub listing : String → Answer Call (List String)
  pub stopping : List String → Answer Call Unit
  pub copies : Answer Call (List String)
  pub remove : String → Answer Call Unit
  pub pull : String → Answer Call Unit
  pub stop_new : List String → Answer Call Unit
  pub now : Answer Call ℕ
  pub sleep : ℕ → Answer Call Unit
  pub http : String → Answer Call Reply
  pub report : String → Answer Call Unit
  pub guard : String → Answer Call Unit
  pub hand_back : Trace Call → Bool
  pub unpack : Answer Call Release
  pub fetch : String → Answer Call Unit
  pub checkout : String → Answer Call Unit
  pub save : String → Answer Call Unit
  pub backup : Answer Call Unit
  pub replace_environment : List ℕ → Answer Call Unit
  pub write_latch : Latch → Answer Call Unit
  pub receipt : String → Answer Call Unit
  pub result : String → Answer Call Unit
  pub cloud_up : List String → List (String × String) → Answer Call ℕ
  pub open_edge : List String → Answer Call Unit
  pub restore : List String → Answer Call Unit

-- The program's own state: whether the latch of this run is written.
abbrev pub State : Type 0
State = World Call Bool

-- Calls that neither write the latch nor start or replace what serves.
abbrev pub aside : Call → Bool
aside (write_latch l) = false
aside (cloud_up args env) = false
aside (open_edge args) = false
aside (restore args) = false
aside (stop_new ids) = false
aside backup = false
aside _ = true
