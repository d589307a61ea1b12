-- ===== src/Rollover.antt =====
-- The service rollover, scripts/service-rollover.py: one service's container is replaced while a
-- temporary copy (green) serves. The host answers every call; the override file that points the
-- proxy at the copy, the local variables and the report are modelled.
pub mod Model
pub mod Proxy
pub mod Float
pub mod Duration
pub mod Admission
pub mod Arguments
pub mod Traffic
pub mod Waiting
pub mod Success
pub mod Environment
mod Examples
unfoldable pub use Model.*
unfoldable pub use Proxy.*
use Duration.{stop_seconds}
use Arguments.Client.{create_env}
use Arguments.{Entry, create_args, service_config}
use map_service_infra.Base.{
  ℕ, zero, suc, ◌+◌, String, ◌<>◌, Bool, true, false, ◌&&◌, ◌||◌, Option, none, some, List, [], ◌∷◌,
  ◌++◌, ltb, leb, eqb, ◌==◌, ◌!=◌, contains, string_eq, nat_eq, option_eq, if◌then◌else◌, is_hex64,
  is_sha256,
}
use map_service_infra.Base.Result.{Error, coded, other, Result, ok, err}
use map_service_infra.Base.Exec.{
  Exec, pure, raise, lift, gets, modify, ◌>>=◌, ◌>>◌, attempt, require, when,
}
use map_service_infra.Base.World.{Trace, Answer, World, call}

module _ (h : Host) where
  module _ (o : Order) where
    abbrev pub copy_name : String
    copy_name = o.project <> ("-" <> (o.service <> "-rollover"))

    -- The copy is created and started.
    pub launch : Entry → List String → ℕ → Exec State String
    unfolding connect_all
    launch entry joined drain = do
      args ← lift (create_args copy_name o.project o.service entry joined drain)
      env ← lift (create_env entry)
      green ← call (create args) (h.create args env)
      set_green green
      require (is_hex64 green) "rollover_container_id_invalid"
      connect_all h green (tail joined)
      call (start green) (h.start green)
      step green_started
      pure green

    -- A container must be healthy and answer with 200; `code` is the error where it does not.
    pub await_answer : String → String → Exec State Unit
    unfolding probe
    await_answer code cid = do
      host ← call (address cid) (h.address cid)
      status ← probe h o.fuel host o.health_seconds
      require (eqb status 200) code

    pub start_green : Entry → List String → ℕ → Exec State Unit
    unfolding launch wait_healthy await_answer
    start_green entry joined drain = do
      green ← launch entry joined drain
      wait_healthy h o.fuel green o.health_seconds
      step green_healthy
      await_answer "rollover_container_did_not_answer" green
      step green_answered

    -- The public probes after a switch.
    pub settle : String → Exec State Unit
    unfolding public_ok when_failed
    settle code = do call sleep h.sleep; failed ← public_ok h o.probes; when_failed h code failed

    pub switch : Exec State Unit
    unfolding reload_proxy settle
    switch = do
      reload_proxy h (some copy_name)
      step (switched_to (some copy_name))
      set_switched true
      settle "public_probe_failed_after_switch:"
      step traffic_on_green

    -- The canonical container is replaced while the copy serves.
    pub replace_canonical : String → String → Exec State Unit
    unfolding container_id ask_state wait_healthy await_answer
    replace_canonical blue identity = do
      step canonical_recreate_requested
      call recreate h.recreate
      canonical ← container_id h o.service
      require (canonical != blue) "canonical_container_was_not_replaced"
      after ← ask_state h canonical
      require (after.image == identity) "canonical_image_mismatch"
      wait_healthy h o.fuel canonical o.health_seconds
      await_answer "canonical_did_not_answer" canonical
      step canonical_healthy

    pub return_traffic : Exec State Unit
    unfolding reload_proxy settle
    return_traffic = do
      reload_proxy h none
      step (switched_to none)
      set_switched false
      settle "public_probe_failed_after_return:"
      step traffic_on_canonical
      set_report (some "PASS") none

    -- The `try` block.
    pub replace : Entry → String → String → List String → ℕ → Exec State Unit
    unfolding start_green switch replace_canonical return_traffic
    replace entry blue identity joined drain = do
      start_green entry joined drain
      switch
      replace_canonical blue identity
      return_traffic

    pub fell_back : Error → Exec State Unit
    fell_back e = do
      step traffic_return_failed
      set_report (some "FAIL") (some "rollover_failed_with_proxy_pointing_at_temporary")
      raise e

    -- The `except` block.
    pub give_back : Bool → Exec State Unit
    unfolding reload_proxy fell_back
    give_back false = pure tt
    give_back true = attempt (do reload_proxy h none; step traffic_returned_after_failure) fell_back

    pub on_failure : Error → Exec State Unit
    unfolding give_back
    on_failure e = do
      set_report (some "FAIL") (some (code_of e))
      switched ← gets (λ w. w.own.switched)
      give_back switched
      raise e

    pub discard : ℕ → String → Exec State Unit
    unfolding ask_state
    discard drain green =
        attempt
          (do
            s ← ask_state h green
            when s.running (call (stop drain green) (h.stop drain green))
            call (remove green) (h.remove green)
            step green_removed)
          (λ _. step green_removal_failed)

    -- The `finally` block.
    pub clean : ℕ → Option String → Exec State Unit
    unfolding discard
    clean drain none = pure tt
    clean drain (some green) = if is_hex64 green then discard drain green else pure tt

    pub finally_clean : ℕ → Result (Unit {0}) → Exec State Unit
    unfolding clean
    finally_clean drain r = do g ← gets (λ w. w.own.green); clean drain g; lift r

    pub guarded : Entry → String → String → List String → ℕ → Exec State Unit
    unfolding replace on_failure finally_clean
    guarded entry blue identity joined drain w =
        let (r, v) = attempt (replace entry blue identity joined drain) on_failure w in
        finally_clean drain r v

    -- Everything that is checked before the copy is created.
    unfoldable pub rollover : Exec State Unit
    unfolding guarded container_id ask_state admit stop_seconds service_config
    rollover = do
      require (contains known_services o.service) "unknown_service"
      entry ← lift (service_config o.entry)
      drain ← lift (stop_seconds entry.stop_grace_period)
      identity ← call (image_id entry.image) (h.image_id entry.image)
      require (is_sha256 identity) "service_image_identity_invalid"
      blue ← container_id h o.service
      before ← ask_state h blue
      require before.running "canonical_container_not_running"
      admit h blue
      joined ← call (networks blue) (h.networks blue)
      require (if is_empty joined then false else true) "container_has_no_network"
      old ← call (stale copy_name) (h.stale copy_name)
      require (is_empty old) "previous_rollover_container_present"
      modify (λ w. record w { own = record w.own { green = none; switched = false } })
      guarded entry blue identity joined drain
