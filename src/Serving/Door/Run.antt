-- ===== src/Serving/Door/Run.antt =====
-- Whether the public entrance may be open after a whole run of `execute`
-- (scripts/ncp-production-serving.py).
use map_service_infra.Base.{
  String, ◌≡◌, refl, Bool, true, false, Option, some, arith, string_eq, if◌then◌else◌, Bool-cases,
  ◌⊎◌, inl, inr, ◌==◌, ◌&&◌, option_eq,
}
use map_service_infra.Base.Result.{Error, Result, ok, err}
use map_service_infra.Base.Exec.{pure, when, require, ◌>>=◌, attempt}
use map_service_infra.Base.Exec.Rules.{Post, Triple, Triple-bind, Triple-attempt, Triple-weaken}
use map_service_infra.Base.World.{call, Keeps}
use map_service_infra.Serving.Configuration.{Config}
use map_service_infra.Base.Json.{Json}
use map_service_infra.Serving.{
  Backend, State, Receipt, Reply, Action, action_eq, stop, public_services, is_true, or_hold, close,
  stop_failed, hold, read_inputs, serve, attempt_action, recover, run, execute, read_previous,
  set_inputs, stop_and_hold, private_dir, lock, File, stop_public, verify,
}
use map_service_infra.Serving.Door.{
  Door, untouched, door, claims_not_resumed, claims_stopped, Fresh, Opened, Safe, Torn, Failed,
}
use map_service_infra.Serving.Door.Openings.{
  close_lem, open_private_lem, serve_public_lem, may_publish_lem, check_public_lem, Settled,
  AnyError,
}

module _ (b : Backend) (f : File) (d : Door) where
  serve_lem :
      (action : Action) (previous : Receipt) (c : Config) (binding : String)
      → Triple (Fresh f) (serve b action previous c binding) (Settled b f d) (AnyError b f d)
  unfolding serve
  serve_lem action previous c binding =
      Triple-bind (λ _ v. Fresh f v) (may_publish_lem b f d action previous binding)
        λ publishes.
          Triple-bind (λ _ v. Fresh f v) (check_public_lem b f d publishes action previous c)
            λ _.
              Triple-bind (λ _ v. Safe f d v) (open_private_lem b f d binding)
                λ r. serve_public_lem b f d publishes c r

  -- The readings make no call that starts or stops a container.
  read_inputs_lem : (given : Option Json) → Keeps (Safe f d) (read_inputs b given)
  unfolding read_inputs door ◌>>=◌ attempt
  read_inputs_lem given = record { at = λ w h. ground arith }

  abbrev AfterTry : Action → Error → State → Type 0
  AfterTry action _ v = (Fresh f v ⊎ Torn v) × ((action == verify) ≡ true → Safe f d v)

  attempt_action_lem :
      (action : Action) (given : Option Json) (previous : Receipt)
      → Triple (Safe f d) (attempt_action b action given previous) (Settled b f d) (AfterTry action)
  unfolding attempt_action
  attempt_action_lem action given previous =
      Triple-bind (λ _ v. Safe f d v)
        (Triple-weaken (λ _ v. Safe f d v) (λ _ v. Safe f d v) (read_inputs_lem given) (λ s h. h)
          (λ a s h. h) (λ e s h. (inl h.1, λ _. h)))
        (λ read. rest read (Bool-cases (action == verify)))
    where
      rest :
          (read : Config × String)
          → ((action == verify) ≡ true) ⊎ ((action == verify) ≡ false)
          → Triple
              (Safe f d)
              (if action == verify
                then pure (record {
                  status = "SERVING_INPUTS_VERIFIED";
                  public_serving = or_hold previous.public_serving;
                })
                else serve b action previous read.0 read.1)
              (Settled b f d)
              (AfterTry action)
      rest read (inl e) = rw e (record { at = λ s h. inr h })
      rest read (inr e) = rw e (
          Triple-weaken (Settled b f d) (AnyError b f d) (serve_lem action previous read.0 read.1)
            (λ s h. h.1) (λ a s h. h) (λ x s h. (h, λ k. absurd (cc k))))

  raised : (s : State) → Safe f d s → Failed f d s
  raised s h = (inl h.0, inl h.1)

  recover_lem :
      (action : Action) (previous : Receipt) (e : Error)
      → Triple
          (AfterTry action e)
          (recover b action previous e)
          (Settled b f d)
          (λ _ v. Failed f d v)
  unfolding recover
  recover_lem action previous e = elim (Bool-cases (action == verify)) [
    | inl same ↦ rw (same) (record { at = λ s h. raised s (h.1 same) })
    | inr differs ↦ rw (differs) (record {
      at = λ s h.
          closed_ok (close b previous e s).0 (close b previous e s).1
            (close_lem b f d previous e s h.0);
    })
  ]
    where
      closed_ok :
          (r : Result Reply) (v : State)
          → Post (λ _ _. ⊥) (λ _ v. Failed f d v) r v
          → Post (Settled b f d) (λ _ v. Failed f d v) r v
      closed_ok (ok a) v h = absurd h
      closed_ok (err x) v h = h

  read_previous_lem : Triple (Safe f d) (read_previous b) (λ _ v. Safe f d v) (λ _ v. Failed f d v)
  unfolding read_previous
  read_previous_lem = record { at = λ w h. ground arith }

  guard_lem :
      (test condition : Bool) (code : String)
      → Triple
          (Safe f d)
          (when test (require condition code))
          (λ _ v. Safe f d v)
          (λ _ v. Failed f d v)
  guard_lem true true code = record { at = λ w h. h }
  guard_lem true false code = record { at = λ w h. raised w h }
  guard_lem false condition code = record { at = λ w h. h }

  private_dir_lem :
      Triple (Safe f d) (call private_dir b.private_dir) (λ _ v. Safe f d v) (λ _ v. Failed f d v)
  unfolding door
  private_dir_lem = record { at = λ w h. ground arith }

  lock_lem : Triple (Safe f d) (call lock b.lock) (λ _ v. Safe f d v) (λ _ v. Failed f d v)
  unfolding door
  lock_lem = record { at = λ w h. ground arith }

  -- From the second call on, as `run` and `stop_and_hold` divide the work.
  run_lem :
      (action : Action) (given : Option Json)
      → Triple (Safe f d) (run b action given) (Settled b f d) (λ _ v. Failed f d v)
  unfolding run read_previous set_inputs
  run_lem action given =
      Triple-bind (λ _ v. Safe f d v) read_previous_lem
        λ previous.
          Triple-bind (λ _ v. Safe f d v) (guard_lem _ _ _)
            λ _.
              Triple-bind (λ _ v. Safe f d v) (record { at = λ w h. h })
                λ _.
                  Triple-attempt (AfterTry action) (attempt_action_lem action given previous)
                    (λ e. recover_lem action previous e)

  stop_public_lem :
      Triple
        (Safe f d)
        (attempt (call (stop public_services) (b.stop public_services)) (λ _. stop_failed b))
        (λ _ v. Safe f d v)
        (λ _ v. Failed f d v)
  unfolding stop_failed door ◌>>=◌ attempt
  stop_public_lem = record {
    at = λ w h. ground (arith, claims_not_resumed (some "PUBLIC_STOP_FAILED") (some "UNKNOWN"));
  }

  hold_lem :
      (keep : Bool) (previous : Receipt)
      → Triple (Safe f d) (hold b keep previous) (Settled b f d) (λ _ v. Failed f d v)
  unfolding hold door ◌>>=◌
  hold_lem keep previous = record {
    at = λ w h.
        ground
          (arith, claims_stopped (some "HOLD") (some (keep && is_true previous.resume_public)));
  }

  stop_and_hold_lem :
      (keep : Bool) → Triple (Safe f d) (stop_and_hold b keep) (Settled b f d) (λ _ v. Failed f d v)
  unfolding stop_and_hold
  stop_and_hold_lem keep =
      Triple-bind (λ _ v. Safe f d v) stop_public_lem
        λ _. Triple-bind (λ _ v. Safe f d v) read_previous_lem λ previous. hold_lem keep previous

  execute_triple :
      (action : Action) (given : Option Json) (keep : Bool)
      → Triple (Safe f d) (execute b action given keep) (Settled b f d) (λ _ v. Failed f d v)
  unfolding execute door
  execute_triple action given keep =
      Triple-bind (λ _ v. Safe f d v) private_dir_lem
        λ _.
          Triple-bind (λ _ v. Safe f d v) lock_lem λ _. branch (Bool-cases (action == stop_public))
    where
      branch :
          ((action == stop_public) ≡ true) ⊎ ((action == stop_public) ≡ false)
          → Triple
              (Safe f d)
              (if action == stop_public then stop_and_hold b keep else run b action given)
              (Settled b f d)
              (λ _ v. Failed f d v)
      branch (inl e) = rw e (stop_and_hold_lem keep)
      branch (inr e) = rw e (run_lem action given)

-- The same from any calls before the run, `door w.trace` being what they left.
pub execute_ends :
    (b : Backend) (action : Action) (given : Option Json) (keep : Bool) (w : State)
    → Post
        (λ _ v. Opened v ⊎ Safe w.own.file (door w.trace) v)
        (λ _ v. Failed w.own.file (door w.trace) v)
        (execute b action given keep w).0
        (execute b action given keep w).1
execute_ends b action given keep w =
    (execute_triple b w.own.file (door w.trace) action given keep).at w (inr refl, inl refl)

-- A run of an action, whose calls are recorded from its beginning, ends in one of these ways,
-- whatever the host answers. It neither started nor stopped the edge, or its last call for the edge
-- was a stop that succeeded; or it raises, and that call was a stop that failed; or it returns, and
-- it ended by starting the edge, probing it, listing the containers and writing a receipt that claims
-- public service, each with success. But for the last way, the receipt is the one found or claims no
-- public service, unless the action raises and the run ended with a write that failed after the
-- file was replaced, a try to stop the public services, and another failed write.
pub execute-door :
    (b : Backend) (action : Action) (given : Option Json) (keep : Bool) (w : State)
    → door w.trace ≡ untouched
    → Post
        (λ _ v. Opened v ⊎ Safe w.own.file untouched v)
        (λ _ v. Failed w.own.file untouched v)
        (execute b action given keep w).0
        (execute b action given keep w).1
execute-door b action given keep w fresh =
    (execute_triple b w.own.file untouched action given keep).at w (inr fresh, inl refl)
