-- ===== src/Lib.antt =====
-- map-service-infra: the programs that deploy and guard the production of a map service. The models
-- are of the Python programs; docker, the file system, the network and the clock answer their calls.
--
-- How a program is modelled. A method that acts on the world and may raise is an action of
-- Base/Exec: a function of a state to a result or an exception, with the state also after a raise.
-- Base/World records each call that a program makes, with whether it succeeded; the environment
-- answers a call by a function of all calls before it, so a theorem over every environment holds
-- whatever the host answers, in every order. Base/Exec/Rules has the pre- and postconditions of
-- actions. An exception of a module's own class carries its code (`coded`), any other is `other`.
--
-- The programs and their files:
--   - gcp/terraform/plan_check.py, the gate on an OpenTofu plan: PlanCheck (`violations`, `summary`,
--     `main`), PlanCheck/Safety.
--   - scripts/ncp-production-serving.py, the controller that opens and closes public service:
--     Serving/Configuration (`configuration`), Serving/Model (the receipt serving-state.json, the calls
--     and the backend), Serving (`execute` with its `try` and `except` blocks), Serving/Door (whether
--     the public entrance may be open), Serving/Intent (stop and resume), Serving/Gate (the receipts
--     that publish and resume need).
--   - scripts/ncp-serving-watchdog.py, which starts stopped public containers again:
--     ServingWatchdog (`published`, `state`, `due`, `run`), ServingWatchdog/Starts (what justifies a
--     start), ServingWatchdog/Quiet (what the receipts of the controller make it do). The two programs
--     meet in the receipt file.
--   - scripts/service-rollover.py, which replaces one service's container while a copy serves:
--     Rollover/Float (the floats that it computes with), Rollover/Duration, Rollover/Admission, Rollover/Arguments and Rollover/Arguments/Client (the
--     functions that read the configuration and build the command line), Rollover/Model (the host),
--     Rollover/Proxy (the reload of the proxy, the waits and the probes), Rollover (`rollover` with its
--     `try`, `except` and `finally` blocks), Rollover/Traffic (where the proxy's traffic goes),
--     Rollover/Success, Rollover/Waiting, Rollover/Environment.
--   - scripts/cutover_watchdog.py, the supervisor of four public services: CutoverWatchdog/Receipt (the
--     JSON that it reads, with `exact_image_tuple` of scripts/deploy-gcp.py), CutoverWatchdog
--     (`recover_once`), CutoverWatchdog/Authority (what authorizes a start or a stop).
--   - scripts/deploy-gcp.py, the receiver of a deployment. Its environment is Receiver/Model (each call
--     that it makes of docker, git, the files and the network). Receiver/Target and Receiver/HostFiles
--     read the root-owned files; Receiver/Policies and Receiver/Admission are what is read and decided
--     before a change, with Receiver/Admission/Identities and Receiver/Environments (the texts that it
--     parses and writes, its children Lines and Updated what an update leaves);
--     Receiver/Infrastructure, Receiver/Compose and Receiver/Pins fix the images;
--     Receiver/Readiness has the probes (its children Public, Ending and Healthy what a wait for them has
--     seen, its clock, and a host that answers); Receiver/Deploy is the `try` block of `receive`,
--     Receiver/Failed its handler, Receiver/Rollback `rollback`, Receiver/Receive the whole. The files
--     called Quiet show which parts neither write the latch nor start what serves, the files called
--     Steps follow the blocks, Receiver/Receive/Whole has the theorems on the whole. PublicStop has
--     `stop_public_services` and the functions that list and remove containers, PublicStop/Closed what
--     a stop has seen, PublicStop/Removed what a removal has done. The bundle of the release with its
--     verification, the checks of the supervisor and a signal that arrives at a call are answers of the
--     environment. In CutoverWatchdog the stop is one answer of the environment.
--   - scripts/release_manifest.py, which makes and checks the bundle that a deployment receives:
--     ReleaseManifest (`validate`, `validate_dispatch`, `compose`, and `candidate_images`
--     of scripts/deploy-gcp.py), ReleaseManifest/Reference (`validate_ref`), ReleaseManifest/Images (its
--     images, against the receiver's `exact_image_tuple`), ReleaseManifest/Bundle (`write_bundle`,
--     `verify_bundle`). The hash, the JSON printer and reader, and the reading of a time are parameters.
--   - training/segment_stats.py, which counts what travellers of a segment kept: SegmentStats
--     (`segment_key`, `build`), SegmentStats/Dicts (its nested dicts), SegmentStats/Counts and
--     SegmentStats/Published (the published cells against a count of the sessions).
--
-- Fuel: the two waiting loops of the rollover take fuel, since they end by the clock. Fuel of one more
-- than the seconds to wait is enough wherever a sleep advances the clock by a second or more. The wait
-- for public readiness of a deployment takes fuel of 361 rounds: each failed round sleeps at least 250
-- milliseconds, or what is left of the 90 seconds.
--
-- Numbers are natural numbers, and the floats of the rollover IEEE doubles with their rounding and
-- their overflow. A published rate is the pair of its counts. The receipt of the serving controller is
-- written in two calls, since the file is replaced before the directory is synced, which may raise. A service's environment is an
-- association list of distinct names, as a dict is.
--
-- Not modelled: the parsing of JSON and of command lines by the standard library; the text of
-- messages that no program reads; the contents of the calls to docker, nginx and the network; the
-- programs that are only input and output.
pub mod Base
pub mod PlanCheck
pub mod Serving
pub mod ServingWatchdog
pub mod Rollover
pub mod CutoverWatchdog
pub mod Receiver
pub mod ReleaseManifest
pub mod PublicStop
pub mod SegmentStats
