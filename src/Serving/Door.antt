-- ===== src/Serving/Door.antt =====
-- Whether the public entrance may be open after a run of `execute`
-- (scripts/ncp-production-serving.py), read off the calls that were made.
pub mod Openings
pub mod Run
use map_service_infra.Base.{
  String, ◌≡◌, ◌≢◌, refl, sym, subst, Bool, true, false, Option, none, some, List, [], ◌∷◌, arith,
  contains, string_eq, if◌then◌else◌, Bool-cases, ◌⊎◌, inl, inr, ◌==◌, ◌&&◌, option_eq,
}
use map_service_infra.Base.Result.{Error, Result, ok, err}
use map_service_infra.Base.Exec.{Exec, pure, when, require, ◌>>=◌, attempt}
use map_service_infra.Base.Exec.Rules.{
  Post, Triple, Triple-bind, Triple-trivial, Triple-attempt, Triple-weaken, Post-weaken,
}
use map_service_infra.Base.World.{Trace, World, call, Keeps}
use map_service_infra.Serving.Configuration.{Config}
use map_service_infra.Base.Json.{Json}
use map_service_infra.Serving.{
  Call, Backend, State, Receipt, Reply, Action, action_eq, stop, up, edge_only, public_services,
  private_services, services, is_true, or_hold, close, stop_failed, hold, open_public, open_private,
  serve_public, may_publish, check_public, read_inputs, serve, attempt_action, recover, run,
  execute, read_previous, set_inputs, stop_and_hold, private_dir, lock, File, written, absent,
  unreadable, inventory, public_ready, write, sync, stop_public, verify, publish, resume,
  start_private,
}

pub data Door : Type 0 where
  untouched closed maybe_open stuck : Door

-- After a stop of the edge the door is closed, or stuck if the stop failed; after any attempt to
-- start the edge it may be open.
unfoldable pub door : Trace Call → Door
unfolding string_eq
door [] = untouched
door ((stop names, done) ∷ t) =
    let before = door t in
    if contains names "edge" then (if done then closed else stuck) else before
door ((up names, done) ∷ t) =
    let before = door t in if contains names "edge" then maybe_open else before
door (_ ∷ t) = door t

-- The door is closed by a stop that succeeded, or is what it was before, `d`.
abbrev pub Resting : Door → State → Type 0
Resting d v = (door v.trace ≡ closed) ⊎ (door v.trace ≡ d)

-- So it is, or the last stop of it failed.
abbrev pub Halted : Door → State → Type 0
Halted d v = Resting d v ⊎ (door v.trace ≡ stuck)

-- The receipt claims public service: what the serving watchdog asks before it starts a container.
unfoldable pub claims : Option String → Option String → Option Bool → Bool
claims status serving resumes =
    status == some "PUBLIC_READY" && (serving == some "OPEN" && is_true resumes)

abbrev pub claims_open : File → Bool
claims_open (written r) = claims r.status r.public_serving r.resume_public
claims_open _ = false

pub claims_ready : claims (some "PUBLIC_READY") (some "OPEN") (some true) ≡ true
unfolding claims option_eq string_eq
claims_ready = refl

pub claims_not_resumed :
    (status serving : Option String) → claims status serving (some false) ≡ false
unfolding claims
claims_not_resumed status serving = ground arith

pub claims_stopped :
    (serving : Option String) (resumes : Option Bool)
    → claims (some "PUBLIC_STOPPED") serving resumes ≡ false
unfolding claims option_eq string_eq
claims_stopped serving resumes = refl

-- The run ended by opening the edge, probing it, listing the containers, and writing the receipt.
unfoldable pub ends_probed : Trace Call → Bool
unfolding string_eq
ends_probed
      ((sync, true)
        ∷ (write r, true)
        ∷ (inventory xs, true)
        ∷ (public_ready, true)
        ∷ (up names, true)
        ∷ t) =
    contains names "edge"
ends_probed _ = false

unfoldable pub torn : Trace Call → Bool
torn ((sync, false) ∷ t) = true
torn _ = false

unfoldable pub lost : Trace Call → Bool
unfolding torn
lost ((write r, false) ∷ (stop names, done) ∷ t) = torn t
lost _ = false

-- The run could not finish the write of a receipt after the file was replaced.
abbrev pub Torn : State → Type 0
Torn v = torn v.trace ≡ true

-- Then it tried to stop the public services and could not write that it failed.
abbrev pub Lost : State → Type 0
Lost v = lost v.trace ≡ true

-- The receipt is the one found, or claims no public service.
abbrev pub Fresh : File → State → Type 0
Fresh f v = (v.own.file ≡ f) ⊎ (claims_open v.own.file ≡ false)

abbrev pub Opened : State → Type 0
Opened v = (claims_open v.own.file ≡ true) × (ends_probed v.trace ≡ true)

abbrev pub Safe : File → Door → State → Type 0
Safe f d v = Resting d v × Fresh f v

-- After an error: the receipt may be another only where its last writes failed.
abbrev pub Failed : File → Door → State → Type 0
Failed f d v = Halted d v × (Fresh f v ⊎ Lost v)
