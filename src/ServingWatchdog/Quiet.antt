-- ===== src/ServingWatchdog/Quiet.antt =====
-- When the watchdog (scripts/ncp-serving-watchdog.py) starts nothing: the receipt that the serving
-- controller (scripts/ncp-production-serving.py) leaves behind decides.
use map_service_infra.Base.{◌≡◌, refl, sym, subst, Bool, false, Option, [], ◌∷◌, ◌⊎◌, inl, inr}
use map_service_infra.Base.Json.{Json}
use map_service_infra.Base.Result.{Error, ok, err}
use map_service_infra.Base.Exec.Rules.{post_ok, post_err}
use map_service_infra.Base.World.{Trace}
use map_service_infra.Serving
use map_service_infra.Serving.{
  Backend, Container, File, absent, unreadable, written, Action, stop_public, execute, Reply,
}
use map_service_infra.Serving.Door.Run.{execute_ends}
use map_service_infra.Serving.Door.{
  claims, claims_open, claims_stopped, door, closed, Safe, Opened, Failed, Fresh, Lost,
}
use map_service_infra.Serving.Intent.{found, StopOf, stop_public-StopOf}
use map_service_infra.ServingWatchdog.{Call, Host, State, start, inspect, lock, read_receipt, run}
use map_service_infra.ServingWatchdog.Starts.Run.{run-Justified}
use map_service_infra.ServingWatchdog.Starts.{Grants, Granted, Justified}

-- No container was started.
abbrev pub NoStart : Trace Call → Type 0
NoStart [] = Unit
NoStart ((start id, _) ∷ t) = ⊥
NoStart (_ ∷ t) = NoStart t

abbrev pub fresh : State
fresh = record { own = tt; trace = [] }

-- Every reading of the receipt gives the same file.
abbrev pub Reads : Host → File → Type 0
Reads h f = (t : Trace Call) → h.read_receipt t ≡ ok f

module _ (h : Host) (f : File) (same : Reads h f) (shut : claims_open f ≡ false) where
  Grants-none : (c : Container) (g : File) → claims_open g ≡ false → Grants c (ok g) → ⊥
  Grants-none c absent e k = k
  Grants-none c unreadable e k = k
  Grants-none c (written r) e k = absurd (cc (k.0, e))

  Granted-none : (c : Container) (t : Trace Call) → Granted h c t → ⊥
  Granted-none c [] k = k
  Granted-none c ((read_receipt, done) ∷ t) k = Grants-none c f shut (subst (Grants c) (same t) k)
  Granted-none c ((lock, done) ∷ t) k = Granted-none c t k
  Granted-none c ((inspect id, done) ∷ t) k = Granted-none c t k
  Granted-none c ((start id, done) ∷ t) k = Granted-none c t k

  no_start : (t : Trace Call) → Justified h t → NoStart t
  no_start [] j = tt
  no_start ((start id, done) ∷ t) j = Granted-none j.0.0 t j.0.2.0
  no_start ((read_receipt, done) ∷ t) j = no_start t j
  no_start ((lock, done) ∷ t) j = no_start t j
  no_start ((inspect id, done) ∷ t) j = no_start t j

  -- A receipt that does not claim public service makes the watchdog start nothing.
  pub run_quiet : NoStart (run h fresh).1.trace
  run_quiet = no_start (run h fresh).1.trace (run-Justified h fresh tt)

stop_shut :
    (keep : Bool) (old : Serving.Receipt) (g : File) → StopOf keep old g → claims_open g ≡ false
stop_shut keep old absent s = refl
stop_shut keep old unreadable s = refl
stop_shut keep old (written r) s =
    subst (λ x. claims x r.public_serving r.resume_public ≡ false) (sym s.0)
      (claims_stopped r.public_serving r.resume_public)

-- The two programs together: after a `stop-public` that returns, a run of the watchdog that reads
-- the receipt it left starts nothing, whatever docker answers, and also if the stop kept the wish to
-- resume.
pub run-stop_public :
    (b : Backend) (given : Option Json) (keep : Bool) (w : Serving.State) (h : Host) (reply : Reply)
    → (execute b stop_public given keep w).0 ≡ ok reply
    → Reads h (execute b stop_public given keep w).1.own.file
    → NoStart (run h fresh).1.trace
run-stop_public b given keep w h reply returned same =
    let v = (execute b stop_public given keep w).1 in
    let left =
      post_ok (λ _ u. (door u.trace ≡ closed) × StopOf keep (found w.own.file) u.own.file)
        (λ _ _. Unit {0}) (execute b stop_public given keep w).0 v reply
        (stop_public-StopOf b given keep w) returned in
    run_quiet h v.own.file same (stop_shut keep (found w.own.file) v.own.file left.1)

-- After an action that raises, from a receipt that claimed no public service, a run of the watchdog
-- that reads the receipt then in the file starts nothing, unless the action ended with a write that
-- failed after the file was replaced, a try to stop the public services, and another failed write.
pub run-execute_raised :
    (b : Backend) (action : Action) (given : Option Json) (keep : Bool) (w : Serving.State)
    (h : Host) (e : Error)
    → claims_open w.own.file ≡ false
    → (execute b action given keep w).0 ≡ err e
    → (Lost (execute b action given keep w).1 → ⊥)
    → Reads h (execute b action given keep w).1.own.file
    → NoStart (run h fresh).1.trace
run-execute_raised b action given keep w h e shut raised kept same =
    let v = (execute b action given keep w).1 in
    let left =
      post_err (λ _ u. Opened u ⊎ Safe w.own.file (door w.trace) u)
        (λ _ u. Failed w.own.file (door w.trace) u) (execute b action given keep w).0 v e
        (execute_ends b action given keep w) raised in
    run_quiet h v.own.file same (still_shut v left.1 kept)
  where
    still_shut :
        (v : Serving.State)
        → Fresh w.own.file v ⊎ Lost v
        → (Lost v → ⊥)
        → claims_open v.own.file ≡ false
    still_shut v (inl (inl k)) none_lost = subst (λ x. claims_open x ≡ false) (sym k) shut
    still_shut v (inl (inr k)) none_lost = k
    still_shut v (inr k) none_lost = absurd (none_lost k)
