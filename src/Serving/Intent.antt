-- ===== src/Serving/Intent.antt =====
-- Stopping and resuming public service (scripts/ncp-production-serving.py): what a stop leaves in
-- the receipt, and which receipts let a later action publish.
use map_service_infra.Base.{
  ◌≡◌, refl, Bool, false, ◌∷◌, ◌⊎◌, true, Option, some, arith, string_eq, option_eq, ==_refl, ◌&&◌,
}
use map_service_infra.Base.Json.{Json}
use map_service_infra.Base.Result.{Error}
use map_service_infra.Base.Exec.{◌>>=◌, attempt}
use map_service_infra.Base.Exec.Rules.{Post, Triple, Triple-bind}
use map_service_infra.Base.World.{Trace, call, Triple-call}
use map_service_infra.Serving.{
  Reply, Backend, State, Receipt, action_eq, start_private, stop, lock, private_dir,
  public_services, is_true, stop_failed, hold, execute, File, written, stop_public, read_previous,
  stop_and_hold, empty_receipt, run, Call,
}
use map_service_infra.Serving.Door.{door, closed}

-- The receipt that a run finds.
abbrev pub found : File → Receipt
found (written r) = r
found _ = empty_receipt

-- The receipt of a stop keeps what the earlier one says of the release, and of the wish to serve
-- only if the caller asks for it.
abbrev pub StopOf : Bool → Receipt → File → Type 0
StopOf keep old (written r) =
    (r.status ≡ some "PUBLIC_STOPPED")
    × (r.public_serving ≡ some "HOLD")
    × (r.resume_public ≡ some (keep && is_true old.resume_public))
    × (r.binding ≡ old.binding)
    × (r.containers ≡ old.containers)
    × (r.public_manifest_sha256 ≡ old.public_manifest_sha256)
StopOf keep old _ = ⊥

module _ (b : Backend) (f : File) where
  abbrev pub Found : State → Type 0
  Found v = v.own.file ≡ f

  abbrev Down : State → Type 0
  Down v = (door v.trace ≡ closed) × Found v

  abbrev pub Whatever : Error → State → Type 0
  Whatever _ _ = Unit {0}

  stopped_first :
      Triple Found
        (attempt (call (stop public_services) (b.stop public_services)) (λ _. stop_failed b))
        (λ _ v. Down v)
        Whatever
  unfolding stop_failed door ◌>>=◌ attempt
  stopped_first = record { at = λ w h. ground arith }

  pub read_found : Triple Found (read_previous b) (λ old _. old ≡ found f) Whatever
  unfolding read_previous
  read_found = record { at = λ w h. ground arith }

  read_after : Triple Down (read_previous b) (λ old v. Down v × (old ≡ found f)) Whatever
  unfolding read_previous
  read_after = record { at = λ w h. ground arith }

  hold_after :
      (keep : Bool) (old : Receipt)
      → Triple
          (λ v. Down v × (old ≡ found f))
          (hold b keep old)
          (λ _ v. (door v.trace ≡ closed) × StopOf keep (found f) v.own.file)
          Whatever
  unfolding hold door ◌>>=◌
  hold_after keep old = record { at = λ w h. ground arith }

  hold_triple :
      (keep : Bool)
      → Triple Found
          (stop_and_hold b keep)
          (λ _ v. (door v.trace ≡ closed) × StopOf keep (found f) v.own.file)
          Whatever
  unfolding stop_and_hold
  hold_triple keep =
      Triple-bind (λ _ v. Down v) stopped_first
        (λ _.
          Triple-bind (λ old v. Down v × (old ≡ found f)) read_after (λ old. hold_after keep old))

  execute_triple :
      (given : Option Json) (keep : Bool)
      → Triple Found
          (execute b stop_public given keep)
          (λ _ v. (door v.trace ≡ closed) × StopOf keep (found f) v.own.file)
          Whatever
  unfolding execute
  execute_triple given keep =
      Triple-bind (λ _ v. Found v)
        (Triple-call (λ _ v. Found v) Whatever private_dir b.private_dir (λ w h a e. h)
          (λ w h x e. tt))
        (λ _.
          Triple-bind (λ _ v. Found v)
            (Triple-call (λ _ v. Found v) Whatever lock b.lock (λ w h a e. h) (λ w h x e. tt))
            (λ _. rw (==_refl stop_public) (hold_triple keep)))

-- A `stop-public` that returns leaves the door closed and a receipt in HOLD that keeps the earlier
-- one's binding, containers and manifest, and its wish to serve only under `keep`.
pub stop_public-StopOf :
    (b : Backend) (given : Option Json) (keep : Bool) (w : State)
    → Post
        (λ _ v. (door v.trace ≡ closed) × StopOf keep (found w.own.file) v.own.file)
        (λ _ _. Unit {0})
        (execute b stop_public given keep w).0
        (execute b stop_public given keep w).1
stop_public-StopOf b given keep w = (execute_triple b w.own.file given keep).at w refl

abbrev pub served : Bool → Reply
served true = record { status = "PUBLIC_READY"; public_serving = "OPEN" }
served false = record { status = "PRIVATE_READY"; public_serving = "HOLD" }

module _ (b : Backend) where
  Nothing : Error → State → Type 0
  Nothing _ _ = Unit {0}

-- The only calls since `t` were for the private directory and then for the lock.
abbrev pub OnlyLocked : Trace Call → Trace Call → Type 0
OnlyLocked t u =
    (u ≡ (private_dir, false) ∷ t) ⊎ ((done : Bool) × (u ≡ (lock, done) ∷ (private_dir, true) ∷ t))

-- `start-private` on a receipt that says OPEN raises, whatever the host answers, and calls nothing
-- but for the private directory and the lock, so nothing of the backend; the receipt stays.
pub start_private_refused :
    (b : Backend) (given : Option Json) (keep : Bool) (w : State) (r : Receipt)
    → w.own.file ≡ written r
    → r.public_serving ≡ some "OPEN"
    → Post
        (λ _ _. ⊥)
        (λ _ v. (v.own ≡ w.own) × OnlyLocked w.trace v.trace)
        (execute b start_private given keep w).0
        (execute b start_private given keep w).1
unfolding execute run read_previous ◌>>=◌ action_eq
start_private_refused b given keep w r file opened = ground arith
