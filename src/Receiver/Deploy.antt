-- ===== src/Receiver/Deploy.antt =====
-- The `try` block of `receive` (scripts/deploy-gcp.py), in the parts between its effects.
pub mod Quiet
pub mod Steps
use map_service_infra.Base.{
  ℕ, String, ◌<>◌, Bool, true, false, not, ◌&&◌, ◌||◌, Option, none, some, List, [], ◌∷◌, ◌++◌,
  ◌==◌, contains, string_eq, option_eq, if◌then◌else◌, eqb,
}
use map_service_infra.Base.Exec.{Exec, pure, ◌>>=◌, ◌>>◌, require, when, modify}
use map_service_infra.Base.World.{call}
use map_service_infra.CutoverWatchdog.Receipt.{Latch}
use map_service_infra.Receiver.Model.{
  Site, Image, Captured, Pinned, Projects, Release, Host, State, query, report, guard, checkout,
  receipt, result, save, replace_environment, write_latch, cloud_up, open_edge, backup,
}
use map_service_infra.Receiver.Infrastructure.{application, value_of, verify_infrastructure_images}
use map_service_infra.Receiver.Compose.{Files, compose_command, preflight, cloud_up_has}
use map_service_infra.Receiver.Pins.{prepare_infrastructure}
use map_service_infra.Receiver.Admission.{verify_admin_rollback_compatibility}
use map_service_infra.Receiver.Readiness.{origin, private_smoke, smoke}
use map_service_infra.Receiver.Rollback.{Previous}
use map_service_infra.PublicStop.{
  is_empty, running_service_ids, stop_public_services, verify_edge_closed,
}

-- The local variables of `receive` that its `try` block reads. `history` is the folder of this run.
pub record Plan : Type 0 where
  pub site : Site
  pub release : Release
  pub rollover : Bool
  pub rollback_allowed : Bool
  pub previous : Previous
  pub captured : Projects Captured
  pub candidate_environment : List ℕ
  pub history : String

abbrev pub new_bundle : Plan → String
new_bundle p = p.history <> "/bundle"

abbrev pub infrastructure_folder : Plan → String
infrastructure_folder p = p.history <> "/infrastructure"

-- The latch of the run.
abbrev pub latch_in : Plan → String → Latch
latch_in p phase = record {
  instance_id = p.site.target.instance_id;
  run_id = p.release.run_id;
  infra_sha = p.release.infra_sha;
  phase = phase;
  candidate = p.release.images;
  bundle = new_bundle p;
  prior_rollback_compatible = p.rollback_allowed;
}

candidate_files : Plan → Option String → Files
candidate_files p infrastructure = record {
  bundle = some (new_bundle p);
  env_file = some (p.history <> "/candidate.env");
  infrastructure = infrastructure;
}

-- `(projects.get("map-test") or {}).get("edge")`
entry_of : {A : Type 0} → Projects A → Option A
entry_of projects = elim (value_of application projects) [
  | none ↦ none
  | some services ↦ value_of "edge" services
]

-- The release would keep the entry point that runs.
pub keeps_edge : Option Pinned → Option Captured → Bool
keeps_edge none running = true
keeps_edge (some pin) none = false
keeps_edge (some pin) (some c) = c.image.image_id == pin.image.image_id

without_edge : List (String × Pinned) → List (String × Pinned)
without_edge [] = []
without_edge ((s, pin) ∷ rest) =
    let more = without_edge rest in if s == "edge" then more else (s, pin) ∷ more

pub private_evidence : Projects Pinned → Projects Pinned
unfolding without_edge
private_evidence [] = []
private_evidence ((project, pins) ∷ rest) = (project, without_edge pins) ∷ private_evidence rest

role_args : Bool → List String
role_args detached = if detached then "--target-exporters" ∷ [] else "--admin" ∷ "--monitoring" ∷ []

pub cloud_up_args : Site → List String
unfolding role_args
cloud_up_args s =
    "bash" ∷ "scripts/cloud-up.sh" ∷ "--test" ∷ "--registry" ∷ "--vision" ∷ role_args s.detached

-- What `child` adds to the environment.
pub child : Plan → List (String × String)
child p =
    ("RELEASE_BUNDLE", new_bundle p)
    ∷ ("INFRA_IMAGE_BUNDLE", infrastructure_folder p)
    ∷ ("CUTOVER_SUPERVISED", "1")
    ∷ (if p.rollover
        then ("CUTOVER_ROLLOVER", "1") ∷ ("ROLLOVER_PROBE_ORIGIN", origin) ∷ []
        else [])

pub edge_args : List String
edge_args =
    "up" ∷ "-d" ∷ "--no-deps" ∷ "--no-build" ∷ "--pull" ∷ "never" ∷ "--wait" ∷ "--wait-timeout"
    ∷ "180" ∷ "edge" ∷ []

-- The files that the entry point is opened with.
pub public_files : Plan → Files
public_files p = record {
  bundle = some (new_bundle p);
  env_file = none;
  infrastructure = some (infrastructure_folder p);
}

module _ (h : Host) where
  unfoldable pub say : String → Exec State Unit
  say phase = call (report phase) (h.report phase)

  pub require_marker : Site → String → String → Exec State Unit
  require_marker s marker code = do marked ← cloud_up_has h s marker; require marked code

  pub require_contracts : Plan → Exec State Unit
  unfolding require_marker
  require_contracts p = do
    when p.site.detached (
        require_marker p.site "# MAP_ADMIN_DETACHED_VERSION=1"
          "release lacks detached administrator support")
    require_marker p.site "# MAP_CUTOVER_SUPERVISOR_VERSION=1"
        "release lacks public restart supervisor contract"
    require_marker p.site "# MAP_USER_STANDALONE_MIGRATION_VERSION=1"
        "release lacks standalone User migration contract"
    require_marker p.site "# MAP_SERVICE_MIGRATION_VERSION=1"
        "release lacks per-service isolated migration contract"
    when p.rollover (
        require_marker p.site "# MAP_ROLLOVER_VERSION=1"
          "release lacks the one-service-at-a-time replacement contract")

  -- Up to the status `prebackup`.
  pub check_release : Plan → Exec State (Projects Pinned)
  unfolding require_contracts candidate_files entry_of keeps_edge say
  check_release p = do
    call (checkout p.release.infra_sha) (h.checkout p.release.infra_sha)
    let args = "git" ∷ "rev-parse" ∷ "HEAD" ∷ []
    head ← call (query args) (h.output args)
    require (head == p.release.infra_sha) "infra checkout mismatch"
    say "preflight"
    require_contracts p
    preflight h p.site (candidate_files p none)
    evidence ←
        prepare_infrastructure h p.site (candidate_files p none) (infrastructure_folder p)
          p.captured
    preflight h p.site (candidate_files p (some (infrastructure_folder p)))
    verify_admin_rollback_compatibility h p.previous.active
    require (not p.rollover || keeps_edge (entry_of evidence) (entry_of p.captured))
        "edge replacement requires the separate approved procedure"
    say "prebackup"
    pure evidence

  unfoldable pub write : Latch → Exec State Unit
  write l = call (write_latch l) (h.write_latch l)

  -- From the closing of the entry point to `cloud-up.sh`.
  pub close_edge : Plan → Exec State Unit
  unfolding say
  close_edge p = do
    when (not p.rollover) (stop_public_services h ("edge" ∷ []))
    say (if p.rollover then "rollover_started" else "deploy_private_started")

  -- The answer says whether the console is degraded.
  pub bring_up : Plan → Exec State Bool
  unfolding cloud_up_args child
  bring_up p = do
    code ←
        call (cloud_up (cloud_up_args p.site) (child p))
          (h.cloud_up (cloud_up_args p.site) (child p))
    require (eqb code 0 || eqb code 3) "subprocess failed"
    pure (eqb code 3)

  pub still_serving : Exec State Unit
  still_serving = do
    ids ← running_service_ids h "edge"
    require (not (is_empty ids)) "entry point must keep serving during replacement"

  pub check_started : Plan → Projects Pinned → Bool → Exec State Unit
  unfolding still_serving say private_evidence
  check_started p evidence degraded = do
    when degraded (say "console_degraded")
    if p.rollover then still_serving else verify_edge_closed h
    call (guard "public restart") (h.guard "public restart")
    verify_infrastructure_images h (private_evidence evidence)
    say "private_smoke"

  pub open_entry : Plan → Exec State Unit
  unfolding edge_args public_files
  open_entry p = do
    args ← compose_command h false p.site (public_files p)
    call (open_edge (args ++ edge_args)) (h.open_edge (args ++ edge_args))

  pub open_public : Plan → Exec State Unit
  unfolding open_entry
  open_public p = when (not p.rollover) (open_entry p)

  -- Up to the last write of the latch.
  pub accept : Plan → Projects Pinned → Exec State Unit
  unfolding say
  accept p evidence = do
    verify_infrastructure_images h evidence
    say "smoke"
    smoke h p.site
    call (receipt "complete") (h.receipt "complete")
    call (result "complete") (h.result "complete")
    call (save "current.json" []) (h.save "current.json")

  pub start : Plan → Exec State Unit
  unfolding write
  start p = do
    call backup h.backup
    call (replace_environment p.candidate_environment)
        (h.replace_environment p.candidate_environment)
    write (latch_in p (if p.rollover then "rollover" else "starting_private"))
    modify (λ w. record w { own = true })

  -- With the latch written.
  pub go_public : Plan → Projects Pinned → Exec State Unit
  unfolding close_edge bring_up check_started write open_public accept say
  go_public p evidence = do
    close_edge p
    degraded ← bring_up p
    check_started p evidence degraded
    private_smoke h p.site
    write (latch_in p "private_ready")
    write (latch_in p "opening_ingress")
    open_public p
    accept p evidence
    write (latch_in p "complete")
    say "deploy_complete"

  unfoldable pub deploy : Plan → Exec State Unit
  unfolding check_release start go_public
  deploy p = do evidence ← check_release p; start p; go_public p evidence
