-- ===== src/Base/Quiet.antt =====
-- Actions that make only calls of one kind, such as readings: a rule for each way to build one.
use Prim.Native.String.{String}
use mathlib.Core.Path.{◌≡◌, refl, ◌∙◌, sym, subst}
use mathlib.Core.Bool.{Bool, true, false}
use mathlib.Core.List.{◌∷◌}
use map_service_infra.Base.Tests.{if◌then◌else◌}
use map_service_infra.Base.Result.{Error, Result, ok, err}
use map_service_infra.Base.Exec.{
  Exec, pure, raise, lift, continue, ◌>>=◌, handle, attempt, require, when,
}
use map_service_infra.Base.Exec.Rules.{Post, Triple}
use map_service_infra.Base.World.{Trace, Answer, World, call, succeeded, Keeps}

-- The calls `u` are the calls `t` and then some of the kind.
pub data Grown {C : Type 0} (kind : C → Bool) (t : Trace C) : Trace C → Type 0 where
  same : Grown kind t t
  more :
      {u : Trace C} (c : C) (done : Bool)
      → kind c ≡ true
      → Grown kind t u
      → Grown kind t ((c, done) ∷ u)

-- A condition that calls of the kind leave.
abbrev pub Stable : {C : Type 0} → (C → Bool) → (Trace C → Type 0) → Type 0
Stable {C} kind R = (c : C) (done : Bool) (t : Trace C) → kind c ≡ true → R t → R ((c, done) ∷ t)

-- The action makes calls of the kind only, and keeps the program's own state.
pub record IsQuiet {C O A : Type 0} (kind : C → Bool) (m : Exec (World C O) A) : Type 0 where
  pub grows : (w : World C O) → Grown kind w.trace (m w).1.trace
  pub keeps : (w : World C O) → (m w).1.own ≡ w.own

module _ {C : Type 0} {kind : C → Bool} where
  Grown-trans : {t u : Trace C} (v : Trace C) → Grown kind t u → Grown kind u v → Grown kind t v
  Grown-trans _ g same = g
  Grown-trans _ g (more c done k h) = more c done k (Grown-trans _ g h)

  pub Stable-Grown :
      {t : Trace C} (R : Trace C → Type 0) (u : Trace C)
      → Stable kind R
      → Grown kind t u
      → R t
      → R u
  Stable-Grown R _ stable same r = r
  Stable-Grown R _ stable (more {u} c done k g) r = stable c done u k (Stable-Grown R u stable g r)

module _ {C O A : Type 0} {kind : C → Bool} where
  pub IsQuiet-pure : (a : A) → IsQuiet {O = O} kind (pure a)
  IsQuiet-pure a = record { grows = λ w. same; keeps = λ w. refl }

  pub IsQuiet-raise : (e : Error) → IsQuiet {O = O} {A = A} kind (raise e)
  IsQuiet-raise e = record { grows = λ w. same; keeps = λ w. refl }

  pub IsQuiet-lift : (r : Result A) → IsQuiet {O = O} kind (lift r)
  IsQuiet-lift r = record { grows = λ w. same; keeps = λ w. refl }

  pub IsQuiet-call : (c : C) (f : Answer C A) → kind c ≡ true → IsQuiet {O = O} kind (call c f)
  IsQuiet-call c f k = record {
    grows = λ w. more c (succeeded (f w.trace)) k same;
    keeps = λ w. refl;
  }

  pub IsQuiet-if :
      (b : Bool) (m n : Exec (World C O) A)
      → IsQuiet kind m
      → IsQuiet kind n
      → IsQuiet kind (if b then m else n)
  IsQuiet-if true m n p q = p
  IsQuiet-if false m n p q = q

  handle_grows :
      (k : Error → Exec (World C O) A)
      → ((e : Error) → IsQuiet kind (k e))
      → (r : Result A) (w : World C O) → Grown kind w.trace (handle r k w).1.trace
  handle_grows k q (ok a) w = same
  handle_grows k q (err e) w = (q e).grows w

  handle_keeps :
      (k : Error → Exec (World C O) A)
      → ((e : Error) → IsQuiet kind (k e))
      → (r : Result A) (w : World C O) → (handle r k w).1.own ≡ w.own
  handle_keeps k q (ok a) w = refl
  handle_keeps k q (err e) w = (q e).keeps w

  pub IsQuiet-attempt :
      (m : Exec (World C O) A) (k : Error → Exec (World C O) A)
      → IsQuiet kind m
      → ((e : Error) → IsQuiet kind (k e))
      → IsQuiet kind (attempt m k)
  unfolding attempt
  IsQuiet-attempt m k p q = record {
    grows = λ w. Grown-trans _ (p.grows w) (handle_grows k q (m w).0 (m w).1);
    keeps = λ w. handle_keeps k q (m w).0 (m w).1 ∙ p.keeps w;
  }

  -- What such an action keeps.
  pub Keeps-quiet :
      (R : Trace C → Type 0) {m : Exec (World C O) A}
      → Stable kind R
      → IsQuiet kind m
      → Keeps (λ w. R w.trace) m
  Keeps-quiet R {m} stable q = record {
    at = λ w r. kept (m w).0 (m w).1 (Stable-Grown R (m w).1.trace stable (q.grows w) r);
  }
    where
      kept :
          (r : Result A) (w : World C O)
          → R w.trace
          → Post (λ _ v. R v.trace) (λ _ v. R v.trace) r w
      kept (ok a) w x = x
      kept (err e) w x = x

module _ {C O A : Type 0} where
  stays :
      (R : O → Trace C → Type 0) (E : Error → World C O → Type 0) (r : Result A) (w : World C O)
      → ((e : Error) → R w.own w.trace → E e w)
      → R w.own w.trace
      → Post (λ _ v. R v.own v.trace) E r w
  stays R E (ok a) w k x = x
  stays R E (err e) w k x = k e x

module _ {C O A : Type 0} {kind : C → Bool} {E : Error → World C O → Type 0} where
  -- The same for a condition on the program's state too, with what it gives after a raise.
  pub Triple-quiet :
      (R : O → Trace C → Type 0) {m : Exec (World C O) A}
      → ((o : O) → Stable kind (R o))
      → ((e : Error) (w : World C O) → R w.own w.trace → E e w)
      → IsQuiet kind m
      → Triple (λ w. R w.own w.trace) m (λ _ w. R w.own w.trace) E
  Triple-quiet R {m} stable raised q = record {
    at = λ w x.
        stays R E (m w).0 (m w).1 (λ e. raised e (m w).1)
          (subst (λ o. R o (m w).1.trace) (sym (q.keeps w))
            (Stable-Grown (R w.own) (m w).1.trace (stable w.own) (q.grows w) x));
  }

module _ {C O A B : Type 0} {kind : C → Bool} where
  continue_grows :
      (f : A → Exec (World C O) B)
      → ((a : A) → IsQuiet kind (f a))
      → (r : Result A) (w : World C O) → Grown kind w.trace (continue r f w).1.trace
  continue_grows f q (ok a) w = (q a).grows w
  continue_grows f q (err e) w = same

  continue_keeps :
      (f : A → Exec (World C O) B)
      → ((a : A) → IsQuiet kind (f a))
      → (r : Result A) (w : World C O) → (continue r f w).1.own ≡ w.own
  continue_keeps f q (ok a) w = (q a).keeps w
  continue_keeps f q (err e) w = refl

  pub IsQuiet-bind :
      (m : Exec (World C O) A) (f : A → Exec (World C O) B)
      → IsQuiet kind m
      → ((a : A) → IsQuiet kind (f a))
      → IsQuiet kind (m >>= f)
  unfolding ◌>>=◌
  IsQuiet-bind m f p q = record {
    grows = λ w. Grown-trans _ (p.grows w) (continue_grows f q (m w).0 (m w).1);
    keeps = λ w. continue_keeps f q (m w).0 (m w).1 ∙ p.keeps w;
  }

module _ {C O : Type 0} {kind : C → Bool} where
  pub IsQuiet-require : (b : Bool) (code : String) → IsQuiet {O = O} kind (require b code)
  IsQuiet-require true code = IsQuiet-pure tt
  IsQuiet-require false code = IsQuiet-raise _

  pub IsQuiet-when :
      (b : Bool) (m : Exec (World C O) Unit) → IsQuiet kind m → IsQuiet kind (when b m)
  IsQuiet-when true m q = record { grows = q.grows; keeps = q.keeps }
  IsQuiet-when false m q = IsQuiet-pure tt

pub ruleset quiet_rules = (
  IsQuiet-pure, IsQuiet-raise, IsQuiet-lift, IsQuiet-call, IsQuiet-if, IsQuiet-attempt,
  IsQuiet-bind, IsQuiet-require, IsQuiet-when,
)
