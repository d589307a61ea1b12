-- ===== src/ServingWatchdog/Starts.antt =====
-- What justifies a `docker start` of the watchdog (scripts/ncp-serving-watchdog.py).
pub mod Looks
pub mod Run
use map_service_infra.Base.{
  String, ◌≡◌, ◌≢◌, refl, sym, subst, Bool, true, false, ◌&&◌, Option, none, some, List, [], ◌∷◌,
  arith, contains, string_eq, option_eq, ◌==◌, eq_of_==, if◌then◌else◌, Bool-cases, ◌⊎◌, inl, inr,
}
use mathlib.Core.Option.{some-injective}
use map_service_infra.Base.Lists.{All, In, All-map}
use map_service_infra.Base.Result.{Error, coded, other, Result, ok, err}
use map_service_infra.Base.Exec.{Exec, pure, when, require, ◌>>=◌, attempt}
use map_service_infra.Base.Exec.Rules.{
  Post, Triple, Triple-bind, Triple-trivial, Triple-attempt, Triple-weaken, Triple-pure,
}
use map_service_infra.Base.World.{Trace, World, call, Keeps, push, Answer, Triple-call}
use map_service_infra.Serving.{
  Receipt, Container, File, absent, unreadable, written, public_services, is_true,
}
use map_service_infra.Serving.Door.{claims, claims_open}
use map_service_infra.ServingWatchdog.{
  Call, Host, State, Inspected, Outcome, read_receipt, lock, inspect, start, find, valid_entry,
  and_then, entries, or_none, published_by, running_of, is_some_bool, of_file, published, state,
  with_state, on_error, start_all, start_due, start_again, locked, start_if, run_on, run,
}

-- A receipt that claims public service lists the container.
abbrev pub Grants : Container → Result File → Type 0
Grants c (ok (written r)) =
    (claims_open (written r) ≡ true) × (cs : List Container) × (r.containers ≡ some cs) × In c cs
Grants c _ = ⊥

-- The container is itself and is not running.
abbrev pub ShowsDown : Container → Result Inspected → Type 0
ShowsDown c (ok i) = running_of c i ≡ some false
ShowsDown c (err e) = ⊥

module _ (h : Host) where
  -- The latest reading of the receipt grants the container.
  abbrev pub Granted : Container → Trace Call → Type 0
  Granted c [] = ⊥
  Granted c ((read_receipt, _) ∷ t) = Grants c (h.read_receipt t)
  Granted c (_ ∷ t) = Granted c t

  -- Since the lock was taken the container was seen to be itself and not running.
  abbrev pub SeenDown : Container → Trace Call → Type 0
  SeenDown c [] = ⊥
  SeenDown c ((lock, _) ∷ t) = ⊥
  SeenDown c ((inspect id, _) ∷ t) =
      ((id ≡ c.container_id) × ShowsDown c (h.inspect id t)) ⊎ SeenDown c t
  SeenDown c (_ ∷ t) = SeenDown c t

  abbrev pub Due : Container → Trace Call → Type 0
  Due c t = Granted c t × SeenDown c t

  -- The deployment lock was taken.
  abbrev pub Held : Trace Call → Type 0
  Held [] = ⊥
  Held ((lock, true) ∷ t) = Unit
  Held ((lock, false) ∷ t) = ⊥
  Held (_ ∷ t) = Held t

  -- Every start in the trace is of a container that was due at that moment, under the lock.
  abbrev pub Justified : Trace Call → Type 0
  Justified [] = Unit
  Justified ((start id, _) ∷ t) =
      ((c : Container) × (c.container_id ≡ id) × Due c t) × Held t × Justified t
  Justified (_ ∷ t) = Justified t

-- What holds of a value, if there is one.
abbrev pub Of : {A : Type 0} → (A → Type 0) → Option A → Type 0
Of P none = Unit {0}
Of P (some a) = P a

of_eq : {A : Type 0} (P : A → Type 0) (o : Option A) (a : A) → Of P o → o ≡ some a → P a
of_eq P none a h e = absurd (cc e)
of_eq P (some b) a h e = subst P (some-injective b a e) h

find_lem : (name : String) (cs : List Container) → Of (λ c. In c cs) (find name cs)
unfolding find
find_lem name [] = tt
find_lem name (d ∷ cs) = cons_case (d.name == name) (find name cs) (find_lem name cs)
  where
    cons_case :
        (b : Bool) (o : Option Container)
        → Of (λ c. In c cs) o
        → Of (λ c. In c (d ∷ cs)) (if b then some d else o)
    cons_case true o k = inl refl
    cons_case false none k = tt
    cons_case false (some c) k = inr k

and_then_lem :
    (cs : List Container) (b : Bool) (c : Container) (o : Option (List Container))
    → In c cs
    → Of (All (λ x. In x cs)) o
    → Of (All (λ x. In x cs)) (and_then b c o)
and_then_lem cs true c none m k = tt
and_then_lem cs true c (some rest) m k = (m, k)
and_then_lem cs false c o m k = tt

entries_lem :
    (names : List String) (cs : List Container) → Of (All (λ c. In c cs)) (entries names cs)
unfolding entries
entries_lem [] cs = tt
entries_lem (n ∷ names) cs = cons_case (find n cs) (find_lem n cs) (entries_lem names cs)
  where
    cons_case :
        (o : Option Container)
        → Of (λ c. In c cs) o
        → Of (All (λ x. In x cs)) (entries names cs)
        → Of
            (All (λ x. In x cs))
            (elim o [ none ↦ none | some c ↦ and_then (valid_entry c) c (entries names cs) ])
    cons_case none m k = tt
    cons_case (some c) m k = and_then_lem cs (valid_entry c) c (entries names cs) m k

pub grants_lem : (r : Receipt) → Of (All (λ c. Grants c (ok (written r)))) (published_by r)
unfolding published_by claims
grants_lem r = choose (claims r.status r.public_serving r.resume_public) refl
  where
    widen :
        (cs : List Container)
        → r.containers ≡ some cs
        → claims r.status r.public_serving r.resume_public ≡ true
        → (o : Option (List Container)) → Of (All (λ c. In c cs)) o
        → Of (All (λ c. Grants c (ok (written r)))) o
    widen cs e k none m = tt
    widen cs e k (some es) m =
        All-map (λ c. In c cs) (λ c. Grants c (ok (written r))) es (λ c i. (k, cs, e, i)) m

    open_case :
        claims r.status r.public_serving r.resume_public ≡ true
        → (o : Option (List Container)) → r.containers ≡ o
        → Of (All (λ c. Grants c (ok (written r)))) (or_none o)
    open_case k none e = tt
    open_case k (some cs) e =
        widen cs e k (entries public_services cs) (entries_lem public_services cs)

    choose :
        (b : Bool)
        → claims r.status r.public_serving r.resume_public ≡ b
        → Of (All (λ c. Grants c (ok (written r)))) (if b then or_none r.containers else none)
    choose true k = open_case k r.containers refl
    choose false k = tt
