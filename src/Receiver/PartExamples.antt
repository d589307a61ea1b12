-- ===== src/Receiver/PartExamples.antt =====
-- The theorems on the parts of scripts/deploy-gcp.py at hosts that exercise them.
use map_service_infra.Base.{
  ◌<>◌, some, ◌==◌, if◌then◌else◌, ℕ, ◌+◌, ◌≤◌, String, ◌<>◌, ◌≡◌, ◌≢◌, refl, Bool, true, false,
  Option, none, some, List, [], ◌∷◌, ◌++◌, map, ◌==◌, contains, string_eq, option_eq, if◌then◌else◌,
  arith, codes,
}
use map_service_infra.Base.Lists.{All}
use map_service_infra.Base.Json.{text, object, field, end}
use map_service_infra.Base.Result.{ok}
use map_service_infra.Base.World.{Trace}
use map_service_infra.CutoverWatchdog.Receipt.{six_services}
use map_service_infra.Receiver.Model.{
  Site, Captured, Pinned, Projects, answered, Host, Call, State, sleep,
}
use map_service_infra.Receiver.Hosts.{willing}
use map_service_infra.Base.Exec.{◌>>=◌, attempt}
use map_service_infra.Receiver.Hosts.Ready.{digest, image_of}
use map_service_infra.Receiver.Target.{legacy_target}
use map_service_infra.Receiver.Infrastructure.{
  application, administration, verify_infrastructure_images,
}
use map_service_infra.Receiver.Infrastructure.Verified.{
  AllVerified, verify_infrastructure_images-AllVerified,
}
use map_service_infra.Receiver.Readiness.{exhausted, wait_loop, rounds}
use map_service_infra.Receiver.Readiness.{public_probes, judge_code, wait_public_readiness}
use map_service_infra.Receiver.Readiness.Public.{Passes}
use map_service_infra.Receiver.Readiness.Healthy.{wait_public_readiness_returns}
use map_service_infra.Receiver.Readiness.Ending.{wait_loop_ends}
use map_service_infra.Receiver.Compose.{Files}
use map_service_infra.Receiver.Environments.{line_of}
use map_service_infra.Receiver.Environments.Updated.{image_tag, image_registry, registry}
use map_service_infra.Receiver.Policies.{Policy}
use map_service_infra.Receiver.Admission.{prior_rollback_compatible}
use map_service_infra.Receiver.Admission.Verified.{Compatible, prior_rollback_compatible-Compatible}

abbrev site : Site
site = record { target = legacy_target; detached = false }

abbrev begin : State
begin = record { own = false; trace = [] }

-- A clock that only the pauses move.
abbrev slept : Trace Call → ℕ
slept [] = 0
slept ((sleep n, true) ∷ t) = slept t + n
slept (_ ∷ t) = slept t

abbrev unavailable : Host
unavailable = record willing { now = λ t. ok (slept t); http = λ url t. ok (answered 503 none) }

slept_forward : (c : Call) (done : Bool) (t : Trace Call) → slept t ≤ slept ((c, done) ∷ t)
slept_forward (sleep n) true t = omega arith
slept_forward (sleep n) false t = omega arith
slept_forward _ done t = omega arith

slept_enough : (n : ℕ) (t : Trace Call) → slept t + n ≤ slept ((sleep n, true) ∷ t)
slept_enough n t = omega arith

wait_loop_ends_example :
    (wait_loop unavailable (rounds unavailable) site 90000 250 begin).0 ≢ ok exhausted
wait_loop_ends_example =
    wait_loop_ends unavailable slept (λ t. refl) slept_forward slept_enough site 90000 begin
      (omega arith)

abbrev image_id : String
image_id = digest

abbrev pinned : Option String → Pinned
pinned cid = record {
  image = record { image_id = image_id; repo_digests = [] };
  container_id = cid;
  requested_image = "postgis/postgis:16-3.4";
}

-- Each listing names one container, of the image.
abbrev settled : Host
settled = record willing { lines = λ a t. ok ("aaaaaaaaaaaa" ∷ []); output = λ a t. ok image_id }

abbrev evidence : Projects Pinned
evidence =
    (application, ("postgres", pinned (some "aaaaaaaaaaaa")) ∷ ("proxy", pinned none) ∷ [])
    ∷ (administration, [])
    ∷ []

verify_runs : (verify_infrastructure_images settled evidence begin).0 ≡ ok tt
unfolding verify_infrastructure_images ◌>>=◌ string_eq option_eq
verify_runs = refl

verify_infrastructure_images-AllVerified_example :
    AllVerified settled evidence (verify_infrastructure_images settled evidence begin).1.trace
verify_infrastructure_images-AllVerified_example =
    verify_infrastructure_images-AllVerified settled evidence begin verify_runs

-- The override of a previous release that ran six images of one identity.
abbrev override : List String → List String
override [] = []
override (service ∷ rest) =
    ("  " <> (service <> ":"))
    ∷ "    build: !reset null"
    ∷ ("    image: " <> digest)
    ∷ "    pull_policy: never"
    ∷ override rest

abbrev former : Host
former = record settled { read_lines = λ p t. ok ("services:" ∷ override six_services) }

abbrev verified_policy : Policy
verified_policy = record {
  candidate_allowed = [];
  rollback_verified = map image_of six_services ∷ [];
}

prior_runs : (prior_rollback_compatible former verified_policy "previous" begin).0 ≡ ok true
unfolding prior_rollback_compatible ◌>>=◌ attempt
prior_runs = refl

prior_rollback_compatible-Compatible_example :
    Compatible former
      (map image_of six_services ∷ [])
      "previous"
      (prior_rollback_compatible former verified_policy "previous" begin).1.trace
prior_rollback_compatible-Compatible_example =
    prior_rollback_compatible-Compatible former verified_policy "previous" begin prior_runs

abbrev files : Files
files = record { bundle = some "bundle"; env_file = none; infrastructure = none }

abbrev folder : String
folder = "/var/lib/map-deploy/release-17-0/infrastructure"

abbrev captured_service : Captured
captured_service = record {
  image = record { image_id = digest; repo_digests = [] };
  container_id = "aaaaaaaaaaaa";
}

abbrev captured : Projects Captured
captured =
    (
      application,
      ("postgres", captured_service)
          ∷ ("redis", captured_service)
          ∷ ("edge", captured_service)
          ∷ ("proxy", captured_service)
          ∷ [],
    )
    ∷ (administration, [])
    ∷ []

abbrev as_captured : String → Pinned
as_captured requested = record {
  image = record { image_id = digest; repo_digests = [] };
  container_id = some "aaaaaaaaaaaa";
  requested_image = requested;
}

abbrev prepared : Projects Pinned
prepared =
    (
      application,
      ("edge", as_captured "caddy:2")
          ∷ ("postgres", as_captured "docker.io/postgis/postgis:16-3.4")
          ∷ ("proxy", as_captured "nginx:1.27")
          ∷ ("redis", as_captured "redis:7")
          ∷ [],
    )
    ∷ (administration, [])
    ∷ []

-- Every address answers; without a session the account does so with its refusal.
abbrev healthy : Host
healthy = record willing {
  http = λ url t. ok (
      answered (if url == "https://mapapptest.duckdns.org/api/v1/users/me" then 401 else 200)
        (some (object (field "status" (text "UP") end))));
}

healthy_answers :
    All
      (λ p.
        (t : Trace Call) → Passes p (healthy.http ("https://mapapptest.duckdns.org" <> p.path) t))
      public_probes
unfolding judge_code string_eq
healthy_answers = (
  λ t. (200, (some (object (field "status" (text "UP") end)), (refl, refl))),
  (
    λ t. (200, (some (object (field "status" (text "UP") end)), (refl, refl))),
    (λ t. (401, (some (object (field "status" (text "UP") end)), (refl, refl))), tt),
  ),
)

wait_public_readiness_returns_example : (wait_public_readiness healthy site 90000 begin).0 ≡ ok tt
wait_public_readiness_returns_example =
    wait_public_readiness_returns healthy site 90000 (λ t. (0, (refl, refl))) (λ phase t. refl)
      healthy_answers begin

abbrev release : String
release = "sha-0123456789abcdef0123456789abcdef01234567"

-- An old tag without its end, and no registry.
abbrev old_text : List ℕ
old_text = codes "PORT=80" ++ (10 ∷ codes " IMAGE_TAG =v1")

abbrev new_text : List ℕ
new_text =
    codes "PORT=80" ++ (10 ∷ line_of image_tag (codes release) ++ line_of image_registry registry)
