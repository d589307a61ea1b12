-- ===== src/Serving.antt =====
-- The serving controller, scripts/ncp-production-serving.py: `execute` and the receipt it writes.
-- The calls of its backend are answered by an arbitrary environment; the receipt file is modelled.
pub mod Model
pub mod Configuration
pub mod Door
pub mod Intent
pub mod Gate
mod Examples
unfoldable pub use Model.*
use Configuration.{Config, configuration}
use map_service_infra.Base.Json.{Json}
use map_service_infra.Base.{
  ℕ, String, ◌≡◌, Bool, true, false, ◌&&◌, ◌||◌, Option, none, some, List, [], ◌∷◌, ◌==◌, ◌!=◌,
  contains, subset, string_eq, option_eq, Eq, if◌then◌else◌,
}
use map_service_infra.Base.Result.{Error, coded, other, Result, ok, err}
use map_service_infra.Base.Exec.{
  Exec, pure, raise, lift, gets, modify, ◌>>=◌, ◌>>◌, attempt, require, when,
}
use map_service_infra.Base.World.{Trace, Answer, World, call}

module _ (b : Backend) where
  abbrev stamp : Trace Call → Option String
  stamp t = some (b.now t)

  -- `atomic_json(path, value)` of scripts/ncp-bootstrap-host.py: `write` is everything up to
  -- `os.replace`, and `sync` what is done with the directory after it, where the file has changed.
  unfoldable pub atomic_json : Receipt → Exec State Unit
  atomic_json r = do
    call (write r) (b.write r)
    modify (λ w. record w { own = record w.own { file = written r } })
    call sync b.sync

  stop_failed : Exec State Unit
  unfolding atomic_json
  stop_failed = do
    now ← gets (λ w. stamp w.trace)
    atomic_json (record empty_receipt {
      status = some "PUBLIC_STOP_FAILED";
      public_serving = some "UNKNOWN";
      resume_public = some false;
      updated_at = now;
    })
    raise (coded "public_stop_failed")

  -- `read_json(path) if path.exists() else {}`
  pub read_previous : Exec State Receipt
  read_previous w = elim w.own.file [
    | absent ↦ (ok empty_receipt, w)
    | unreadable ↦ (err other, w)
    | written r ↦ (ok r, w)
  ]

  -- What `stop-public` records after the stop.
  hold : Bool → Receipt → Exec State Reply
  unfolding atomic_json
  hold keep previous = do
    now ← gets (λ w. stamp w.trace)
    atomic_json (record previous {
      public_serving = some "HOLD";
      resume_public = some (keep && is_true previous.resume_public);
      status = some "PUBLIC_STOPPED";
      updated_at = now;
    })
    pure (record { status = "PUBLIC_STOPPED"; public_serving = "HOLD" })

  set_inputs : Option String → Exec State Unit
  set_inputs i w = (ok tt, record w { own = record w.own { inputs = i } })

  read_or_given : Option Json → Exec State Json
  read_or_given none = call read_config b.read_config
  read_or_given (some value) = pure value

  resumable : List (Option String)
  resumable = some "PRIVATE_READY" ∷ some "PUBLIC_READY" ∷ some "PUBLIC_STOPPED" ∷ []

  -- Whether this run publishes, with the checks of the previous receipt.
  pub may_publish : Action → Receipt → String → Exec State Bool
  unfolding resumable
  may_publish publish previous binding = do
    require (previous.binding == some binding && previous.status == some "PRIVATE_READY")
        "private_readiness_receipt_required"
    pure true
  may_publish resume previous binding = do
    require (previous.binding == some binding && contains resumable previous.status)
        "previous_serving_receipt_required"
    pure (is_true previous.resume_public)
  may_publish _ previous binding = pure false

  -- `if publish:` before anything is stopped.
  pub check_public : Action → Receipt → Config → Exec State Unit
  check_public action previous c = do
    call public_inputs (b.public_inputs c)
    when (action == resume) (
        require (previous.public_manifest_sha256 == c.public_manifest_sha256)
          "published_bundle_changed_before_resume")

  -- From the edge's stop to the private receipt.
  pub open_private : String → Exec State Receipt
  unfolding atomic_json
  open_private binding = do
    call (stop edge_only) (b.stop edge_only)
    call prepare b.prepare
    call (up private_services) (b.up private_services)
    call private_ready b.private_ready
    found ← call (inventory private_services) (b.inventory private_services)
    now ← gets (λ w. stamp w.trace)
    let private_record : Receipt = record empty_receipt {
      status = some "PRIVATE_READY";
      binding = some binding;
      public_serving = some "HOLD";
      resume_public = some false;
      containers = some found;
      updated_at = now;
    }
    atomic_json private_record
    pure private_record

  open_public : Config → Receipt → Exec State Reply
  unfolding atomic_json
  open_public c private_record = do
    call (up edge_only) (b.up edge_only)
    call public_ready b.public_ready
    found ← call (inventory services) (b.inventory services)
    now ← gets (λ w. stamp w.trace)
    atomic_json (record private_record {
      status = some "PUBLIC_READY";
      public_serving = some "OPEN";
      resume_public = some true;
      public_manifest_sha256 = c.public_manifest_sha256;
      containers = some found;
      updated_at = now;
    })
    pure (record { status = "PUBLIC_READY"; public_serving = "OPEN" })

  -- The readings that precede every action but `stop-public`.
  read_inputs : Option Json → Exec State (Config × String)
  unfolding set_inputs read_or_given
  read_inputs given = do
    value ← read_or_given given
    c ← lift (configuration value)
    binding ← call inputs (b.inputs c)
    set_inputs (some binding)
    call pg b.pg
    call rendered b.rendered
    pure (c, binding)

  pub serve_public : Bool → Config → Receipt → Exec State Reply
  unfolding open_public
  serve_public false c private_record =
      pure (record { status = "PRIVATE_READY"; public_serving = "HOLD" })
  serve_public true c private_record = open_public c private_record

  serve : Action → Receipt → Config → String → Exec State Reply
  unfolding may_publish check_public open_private serve_public
  serve action previous c binding = do
    publishes ← may_publish action previous binding
    when publishes (check_public action previous c)
    private_record ← open_private binding
    serve_public publishes c private_record

  -- The `try` block.
  attempt_action : Action → Option Json → Receipt → Exec State Reply
  unfolding read_inputs serve
  attempt_action action given previous = do
    (c, binding) ← read_inputs given
    if action == verify
        then pure (record {
          status = "SERVING_INPUTS_VERIFIED";
          public_serving = or_hold previous.public_serving;
        })
        else serve action previous c binding

  abbrev binding_or : Option String → Option String → Option String
  binding_or none previous = previous
  binding_or (some i) previous = some i

  -- The `except` block for every action but `verify`.
  pub close : Receipt → Error → Exec State Reply
  unfolding stop_failed atomic_json
  close previous e = do
    attempt (call (stop public_services) (b.stop public_services)) (λ _. stop_failed)
    bound ← gets (λ w. binding_or w.own.inputs previous.binding)
    now ← gets (λ w. stamp w.trace)
    atomic_json (record empty_receipt {
      status = some "SERVING_FAILED";
      binding = bound;
      public_serving = some "HOLD";
      resume_public = some false;
      updated_at = now;
    })
    raise e

  recover : Action → Receipt → Error → Exec State Reply
  unfolding close
  recover action previous e = if action == verify then raise e else close previous e

  -- Every action but `stop-public`.
  run : Action → Option Json → Exec State Reply
  unfolding read_previous attempt_action recover set_inputs
  run action given = do
    previous ← read_previous
    when (action == start_private)
        (require (previous.public_serving != some "OPEN") "stop_public_before_private_start")
    set_inputs none
    attempt (attempt_action action given previous) (recover action previous)

  -- Stop first: a receipt that cannot be read must not leave the edge open.
  stop_and_hold : Bool → Exec State Reply
  unfolding stop_failed read_previous hold
  stop_and_hold keep = do
    attempt (call (stop public_services) (b.stop public_services)) (λ _. stop_failed)
    previous ← read_previous
    hold keep previous

  unfoldable pub execute : Action → Option Json → Bool → Exec State Reply
  unfolding run stop_and_hold
  execute action given keep = do
    call private_dir b.private_dir
    call lock b.lock
    if action == stop_public then stop_and_hold keep else run action given
