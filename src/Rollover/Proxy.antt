-- ===== src/Rollover/Proxy.antt =====
-- The steps of scripts/service-rollover.py that `rollover` is made of: container identities, the
-- proxy's reload, the waits and the probes.
use map_service_infra.Rollover.Admission.{working_set, admission}
use map_service_infra.Rollover.Model.{
  is_healthy, ContainerState, Host, State, set_override, container_of, state, stats,
  memory_available, disk_free, proxy_mount, nginx_test, unlink_override, sleep, connect,
  health_request, public_request, write_override, reload,
}
use map_service_infra.Base.{
  ℕ, zero, suc, ◌+◌, String, ◌<>◌, Bool, true, false, ◌&&◌, ◌||◌, Option, none, some, List, [], ◌∷◌,
  ltb, leb, eqb, ◌==◌, ◌!=◌, string_eq, nat_eq, option_eq, if◌then◌else◌, is_hex64,
}
use map_service_infra.Base.Result.{coded, other}
use map_service_infra.Base.Exec.{Exec, pure, raise, lift, gets, ◌>>=◌, ◌>>◌, attempt, require}
use map_service_infra.Base.World.{call}

module _ (h : Host) where
  unfoldable pub sole : String → List String → Exec State String
  sole service (cid ∷ []) = do
    require (is_hex64 cid) ("one_running_container_required:" <> service)
    pure cid
  sole service _ = raise (coded ("one_running_container_required:" <> service))

  -- `container_id(project, service)`
  unfoldable pub container_id : String → Exec State String
  unfolding sole
  container_id service = do
    ids ← call (container_of service) (h.container_of service)
    sole service ids

  unfoldable pub ask_state : String → Exec State ContainerState
  ask_state cid = call (state cid) (h.state cid)

  unfoldable pub unlink_if : Option String → Exec State Unit
  unlink_if none = pure tt
  unlink_if (some t) = do call unlink_override h.unlink_override; set_override none

  -- `if path.exists(): path.unlink()`
  unfoldable pub remove_override : Exec State Unit
  unfolding unlink_if
  remove_override = do o ← gets (λ w. w.own.override); unlink_if o

  unfoldable pub place : Option String → Exec State Unit
  unfolding remove_override
  place none = remove_override
  place (some t) = do call (write_override t) (h.write_override t); set_override (some t)

  unfoldable pub after_test : Bool → Exec State Unit
  unfolding remove_override
  after_test true = do o ← gets (λ w. w.own.override); call (reload o) (h.reload o)
  after_test false = do remove_override; raise (coded "proxy_configuration_rejected")

  -- Points the service's name at `target`, or back at the canonical container.
  unfoldable pub reload_proxy : Option String → Exec State Unit
  unfolding container_id place after_test
  reload_proxy target = do
    container_id "proxy"
    mounted ← call proxy_mount h.proxy_mount
    require ((mounted != "") && h.same_directory mounted)
        "proxy_reads_a_different_upstream_directory"
    place target
    good ← call nginx_test h.nginx_test
    after_test good

  -- The loop of `wait_healthy`, on fuel; a poll, then two seconds of sleep.
  unfoldable pub wait_loop : ℕ → String → ℕ → Exec State ContainerState
  unfolding ask_state
  wait_loop zero cid deadline = raise other
  wait_loop (suc fuel) cid deadline = do
    t ← gets (λ w. h.now w.trace)
    if ltb t deadline
        then (do
          last ← ask_state cid
          require last.running "rollover_container_exited"
          if is_healthy last.health
              then pure last
              else (do call sleep h.sleep; wait_loop fuel cid deadline))
        else raise (coded "rollover_container_never_became_healthy")

  unfoldable pub wait_healthy : ℕ → String → ℕ → Exec State ContainerState
  unfolding wait_loop
  wait_healthy fuel cid seconds = do t ← gets (λ w. h.now w.trace); wait_loop fuel cid (t + seconds)

  -- A request that fails without an HTTP status counts as status 0.
  unfoldable pub health_status : String → Exec State ℕ
  health_status host = attempt (call (health_request host) (h.health_request host)) (λ _. pure 0)

  unfoldable pub probe_loop : ℕ → String → ℕ → Exec State ℕ
  unfolding health_status
  probe_loop zero host deadline = raise other
  probe_loop (suc fuel) host deadline = do
    status ← health_status host
    t ← gets (λ w. h.now w.trace)
    if eqb status 200 || leb deadline t
        then pure status
        else (do call sleep h.sleep; probe_loop fuel host deadline)

  unfoldable pub probe : ℕ → String → ℕ → Exec State ℕ
  unfolding probe_loop
  probe fuel host seconds = do t ← gets (λ w. h.now w.trace); probe_loop fuel host (t + seconds)

  -- `(True, '')` is `none`, and `(False, url)` is `some url`.
  unfoldable pub public_ok : List (String × ℕ) → Exec State (Option String)
  public_ok [] = pure none
  public_ok ((url, expected) ∷ rest) = do
    status ←
        attempt (do s ← call (public_request url) (h.public_request url); pure (some s))
          (λ _. pure none)
    if status == some expected then public_ok rest else pure (some url)

  -- `admission(cid)`
  unfoldable pub admit : String → Exec State Unit
  unfolding working_set admission
  admit cid = do
    raw ← call (stats cid) (h.stats cid)
    used ← lift (working_set raw)
    available ← call memory_available h.memory_available
    free ← call disk_free h.disk_free
    lift (admission used available free)
    pure tt

  unfoldable pub connect_all : String → List String → Exec State Unit
  connect_all green [] = pure tt
  connect_all green (n ∷ ns) = do call (connect n green) (h.connect n green); connect_all green ns

  unfoldable pub when_failed : String → Option String → Exec State Unit
  when_failed code none = pure tt
  when_failed code (some url) = raise (coded (code <> url))
