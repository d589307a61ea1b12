-- ===== src/Receiver/Receive.antt =====
-- `receive` of scripts/deploy-gcp.py, from the checks of the host to the end of a deployment.
pub mod Quiet
pub mod Whole
use map_service_infra.Base.{
  ℕ, String, ◌<>◌, Bool, true, false, not, ◌&&◌, Option, none, some, List, [], ◌∷◌, contains,
  string_eq, if◌then◌else◌,
}
use map_service_infra.Base.Regex.{full_match, sha1}
use map_service_infra.Base.Result.{ok}
use map_service_infra.Base.Exec.{Exec, pure, lift, ◌>>=◌, ◌>>◌, attempt, require, when, modify}
use map_service_infra.Base.World.{call}
use map_service_infra.CutoverWatchdog.Receipt.{Latch}
use map_service_infra.CutoverWatchdog.{terminal, serving}
use map_service_infra.Receiver.Model.{
  Target, Site, Projects, Release, Host, State, query, read, guard, fetch, save, hand_back,
}
use map_service_infra.Receiver.HostFiles.{verify_instance, load_rollover_policy, deployment_lock}
use map_service_infra.Receiver.Policies.{Policy}
use map_service_infra.Receiver.Environments.{updated_environment}
use map_service_infra.Receiver.Infrastructure.{snapshot_images, capture_infrastructure}
use map_service_infra.Receiver.Admission.{
  load_rollback_policy, load_cutover_latch, topology, verify_detached_services, backup_environment,
  require_headroom, require_target_source, prior_rollback_compatible,
}
use map_service_infra.Receiver.Deploy.{Plan, say, deploy}
use map_service_infra.Receiver.Failed.{public_services, on_failure}
use map_service_infra.PublicStop.{stop_public_services}

-- `prior_latch is not None and prior_latch["phase"] not in ("complete", "rolled_back")`
pub is_interrupted : Option Latch → Bool
is_interrupted none = false
is_interrupted (some l) = not (contains terminal l.phase)

module _ (h : Host) where
  pub git : List String → Exec State String
  git args = call (query ("git" ∷ args)) (h.output ("git" ∷ args))

  pub close_interrupted : Exec State Unit
  unfolding say
  close_interrupted = do stop_public_services h public_services; say h "interrupted_cutover_closed"

  -- What is done about the latch of a run that did not come to its end.
  pub recover_latch : Latch → Exec State Unit
  unfolding close_interrupted
  recover_latch l = do
    back ←
        (if contains serving l.phase then call hand_back (λ t. ok (h.hand_back t)) else pure false)
    if back then say h "interrupted_rollover_returned" else close_interrupted

  pub recover_interrupted : Option Latch → Exec State Unit
  unfolding recover_latch
  recover_interrupted none = pure tt
  recover_interrupted (some l) = when (is_interrupted (some l)) (recover_latch l)

  pub previous_allowed : Bool → Policy → String → Exec State Bool
  previous_allowed interrupted policy previous =
      if interrupted then pure false else prior_rollback_compatible h policy previous

  pub env_file : Site → Exec State (List ℕ)
  env_file s = do
    let path = s.target.repo <> "/.env.test"
    regular ← call (read path) (h.present path)
    require regular "test environment file is required"
    call (read path) (h.read_text path)

  -- The readings before the `try` block, from the source tree on.
  pub plan_release : Site → Release → Policy → Option Latch → Bool → Exec State Plan
  unfolding git previous_allowed env_file say full_match
  plan_release s r policy prior rollover = do
    _ ← git ("diff" ∷ "--quiet" ∷ "--" ∷ [])
    _ ← git ("diff" ∷ "--cached" ∷ "--quiet" ∷ "--" ∷ [])
    old_sha ← git ("rev-parse" ∷ "HEAD" ∷ [])
    require (full_match sha1 old_sha) "invalid previous infra SHA"
    original ← env_file s
    stamp ← call (read "time") h.stamp
    let history = "/var/lib/map-deploy/release-" <> (r.run_id <> ("-" <> stamp))
    let previous = history <> "/previous"
    call (save previous (old_sha ∷ [])) (h.save previous)
    active ← snapshot_images h s (is_interrupted prior)
    allowed ← previous_allowed (is_interrupted prior) policy previous
    say h (if allowed then "verified_rollback_available" else "security_cutover_no_rollback")
    call (save "active.json" []) (h.save "active.json")
    captured ← capture_infrastructure h s
    call (save "infrastructure.json" []) (h.save "infrastructure.json")
    candidate ← lift (updated_environment r.release_tag original)
    call (save "candidate.env" []) (h.save "candidate.env")
    call (save "bundle" []) (h.save "bundle")
    say h "source_fetch"
    call (fetch r.infra_sha) (h.fetch r.infra_sha)
    pure (record {
      site = s;
      release = r;
      rollover = rollover;
      rollback_allowed = allowed;
      previous = record {
        sha = old_sha;
        environment = original;
        bundle = previous;
        active = active;
      };
      captured = captured;
      candidate_environment = candidate;
      history = history;
    })

  -- With the lock taken.
  pub admit : Target → Exec State Plan
  unfolding recover_interrupted plan_release
  admit t = do
    detached ← topology h t
    call (guard "receiver scope") (h.guard "receiver scope")
    call (guard "enrolled") (h.guard "enrolled")
    r ← call (read "bundle") h.unpack
    require_target_source h "test" r
    policy ← load_rollback_policy h t r.images
    prior ← load_cutover_latch h t
    rollover ← load_rollover_policy h t
    _ ← backup_environment h
    let site : Site = record { target = t; detached = detached }
    verify_detached_services h site
    _ ← require_headroom h
    recover_interrupted prior
    plan_release site r policy prior rollover

  -- `started = False` and the `try` block with its handler.
  pub attempt_release : Plan → Exec State Unit
  unfolding deploy on_failure
  attempt_release p = do
    modify (λ w. record w { own = false })
    attempt (deploy h p) (on_failure h p)

  unfoldable pub receive : Exec State Unit
  unfolding admit attempt_release
  receive = do
    t ← verify_instance h
    there ← call (read t.repo) (h.present t.repo)
    require there "fixed deployment repository unavailable"
    deployment_lock h
    p ← admit t
    attempt_release p
