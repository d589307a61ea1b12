-- ===== src/ServingWatchdog.antt =====
-- The serving watchdog, scripts/ncp-serving-watchdog.py: it starts again the public containers that
-- the receipt of the serving controller names. Another process may change the receipt between two
-- readings, so the environment answers each reading.
pub mod Starts
pub mod Quiet
mod Examples
use map_service_infra.Base.{
  String, Bool, true, false, ◌&&◌, Option, none, some, List, [], ◌∷◌, map, ◌==◌, contains, subset,
  string_eq, option_eq, if◌then◌else◌, is_hex64, is_sha256, not,
}
use map_service_infra.Base.Lists.{keep}
use map_service_infra.Base.Result.{Error, coded, other, Result, ok, err}
use map_service_infra.Base.Exec.{Exec, pure, raise, ◌>>=◌, ◌>>◌, attempt, handle}
use map_service_infra.Base.World.{Trace, Answer, World, call}
use map_service_infra.Serving.{
  Receipt, Container, File, absent, unreadable, written, public_services, is_true,
}

pub data Call : Type 0 where
  read_receipt lock : Call
  inspect start : String → Call

-- What `docker inspect` prints, as the JSON fields that it has.
pub record Inspected : Type 0 where
  pub id : Option String
  pub image : Option String
  pub running : Option Bool

-- An exception of the lock's own class is `coded`.
pub record Host : Type 0 where
  pub read_receipt : Answer Call File
  pub lock : Answer Call Unit
  pub inspect : String → Answer Call Inspected
  pub start : String → Answer Call Unit

abbrev pub State : Type 0
State = World Call Unit

pub data Outcome : Type 0 where
  nothing failed : String → Outcome
  started : List String → List String → Outcome

-- `containers[name]`
find : String → List Container → Option Container
find name [] = none
find name (c ∷ rest) = if c.name == name then some c else find name rest

valid_entry : Container → Bool
valid_entry c = is_hex64 c.container_id && is_sha256 c.image_id

abbrev and_then : Bool → Container → Option (List Container) → Option (List Container)
and_then true c (some rest) = some (c ∷ rest)
and_then _ c _ = none

-- The entries of the named services, `none` if one is missing or malformed.
entries : List String → List Container → Option (List Container)
unfolding find valid_entry
entries [] cs = some []
entries (name ∷ names) cs =
    let rest = entries names cs in
    elim (find name cs) [ none ↦ none | some c ↦ and_then (valid_entry c) c rest ]

abbrev or_none : Option (List Container) → Option (List Container)
or_none none = none
or_none (some cs) = entries public_services cs

unfoldable pub published_by : Receipt → Option (List Container)
unfolding entries
published_by r =
    if r.status == some "PUBLIC_READY"
      && (r.public_serving == some "OPEN" && is_true r.resume_public)
    then or_none r.containers
    else none

abbrev same : Option String → String → Bool
same none s = false
same (some t) s = t == s

-- Running state of the recorded container, `none` if it is no longer that container.
unfoldable pub running_of : Container → Inspected → Option Bool
running_of c i = if same i.id c.container_id && same i.image c.image_id then i.running else none

abbrev is_some_bool : Bool → Option Bool → Bool
is_some_bool b none = false
is_some_bool true (some r) = r
is_some_bool false (some r) = not r

module _ (h : Host) where
  of_file : File → Exec State (Option (List Container))
  unfolding published_by
  of_file absent = pure none
  of_file unreadable = raise other
  of_file (written r) = pure (published_by r)

  pub published : Exec State (Option (List Container))
  unfolding of_file
  published = do file ← call read_receipt h.read_receipt; of_file file

  -- Any exception of the reading means that the container is not itself.
  pub state : Container → Exec State (Option Bool)
  unfolding running_of
  state c =
      attempt
        (do i ← call (inspect c.container_id) (h.inspect c.container_id); pure (running_of c i))
        (λ _. pure none)

  -- The containers whose state is `wanted`.
  pub with_state : Bool → List Container → Exec State (List Container)
  unfolding state
  with_state wanted [] = pure []
  with_state wanted (c ∷ cs) = do
    s ← state c
    rest ← with_state wanted cs
    pure (if is_some_bool wanted s then c ∷ rest else rest)

  start_all : List Container → Exec State Unit
  start_all [] = pure tt
  start_all (c ∷ cs) = do call (start c.container_id) (h.start c.container_id); start_all cs

  abbrev names_of : List Container → List String
  names_of = map (λ c. c.name)

  start_due : List Container → Exec State Outcome
  unfolding with_state start_all keep
  start_due [] = pure (nothing "no_stopped_container")
  start_due (c ∷ cs) = do
    start_all (c ∷ cs)
    up ← with_state true (c ∷ cs)
    pure (started (names_of up) (keep (λ n. not (contains (names_of up) n)) (names_of (c ∷ cs))))

  start_again : Option (List Container) → Exec State Outcome
  unfolding with_state start_due
  start_again none = pure (nothing "not_publicly_serving")
  start_again (some cs) = do names ← with_state false cs; start_due names

  -- Under the deployment lock everything is read again.
  locked : Exec State Outcome
  unfolding published start_again
  locked = do call lock h.lock; again ← published; start_again again

  abbrev pub on_error : Error → Exec State Outcome
  on_error (coded c) = pure (nothing "deployment_lock_held")
  on_error other = pure (failed "container_start_failed")

  start_if : List Container → Exec State Outcome
  unfolding locked
  start_if [] = pure (nothing "no_stopped_container")
  start_if (c ∷ cs) = attempt locked on_error

  run_on : Option (List Container) → Exec State Outcome
  unfolding with_state start_if
  run_on none = pure (nothing "not_publicly_serving")
  run_on (some cs) = do names ← with_state false cs; start_if names

  unfoldable pub run : Exec State Outcome
  unfolding published run_on
  run = do containers ← published; run_on containers
