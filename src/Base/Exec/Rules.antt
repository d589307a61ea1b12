-- ===== src/Base/Exec/Rules.antt =====
-- Pre- and postconditions of actions, one rule for each way to build an action.
use Prim.Native.String.{String}
use mathlib.Core.Path.{◌≡◌, refl, subst}
use native.Mathlib.Omega.{arith}
use mathlib.Core.Bool.{Bool, true, false}
use map_service_infra.Base.Tests.{if◌then◌else◌}
use map_service_infra.Base.Result.{Error, coded, Result, ok, err}
use map_service_infra.Base.Exec.{
  Exec, pure, raise, lift, continue, ◌>>=◌, handle, attempt, require, modify, when,
}

-- `Q` of the value and the state after a return, `E` of the error and the state after a raise.
abbrev pub Post : {S A : Type 0} → (A → S → Type 0) → (Error → S → Type 0) → Result A → S → Type 0
Post Q E (ok a) s = Q a s
Post Q E (err e) s = E e s

-- From a state with `P`, `m` returns with `Q` or raises with `E`.
pub record Triple {S A : Type 0} (P : S → Type 0) (m : Exec S A) (Q : A → S → Type 0)
    (E : Error → S → Type 0) : Type 0 where
  pub at : (s : S) → P s → Post Q E (m s).0 (m s).1

module _ {S A : Type 0} {E : Error → S → Type 0} where
  pub Triple-pure :
      {P : S → Type 0} {Q : A → S → Type 0} (a : A)
      → ((s : S) → P s → Q a s)
      → Triple P (pure a) Q E
  Triple-pure a k = record { at = λ s h. k s h }

  pub Triple-raise :
      {P : S → Type 0} {Q : A → S → Type 0} (e : Error)
      → ((s : S) → P s → E e s)
      → Triple P (raise e) Q E
  Triple-raise e k = record { at = λ s h. k s h }

module _ {S A B : Type 0} {Q : B → S → Type 0} {E : Error → S → Type 0} where
  continue-Post :
      (R : A → S → Type 0) (f : A → Exec S B)
      → ((a : A) → Triple (R a) (f a) Q E)
      → (r : Result A) (s : S) → Post R E r s
      → Post Q E (continue r f s).0 (continue r f s).1
  continue-Post R f k (ok a) s h = (k a).at s h
  continue-Post R f k (err e) s h = h

  -- The middle condition is written by the caller.
  pub Triple-bind :
      {P : S → Type 0} (R : A → S → Type 0) {m : Exec S A} {f : A → Exec S B}
      → Triple P m R E
      → ((a : A) → Triple (R a) (f a) Q E)
      → Triple P (m >>= f) Q E
  unfolding ◌>>=◌
  Triple-bind R {m} {f} first rest = record {
    at = λ s h. continue-Post R f rest (m s).0 (m s).1 (first.at s h);
  }

module _ {S A : Type 0} {Q : A → S → Type 0} {E : Error → S → Type 0} where
  handle-Post :
      (F : Error → S → Type 0) (k : Error → Exec S A)
      → ((e : Error) → Triple (F e) (k e) Q E)
      → (r : Result A) (s : S) → Post Q F r s
      → Post Q E (handle r k s).0 (handle r k s).1
  handle-Post F k t (ok a) s h = h
  handle-Post F k t (err e) s h = (t e).at s h

  pub Triple-attempt :
      {P : S → Type 0} (F : Error → S → Type 0) {m : Exec S A} {k : Error → Exec S A}
      → Triple P m Q F
      → ((e : Error) → Triple (F e) (k e) Q E)
      → Triple P (attempt m k) Q E
  unfolding attempt
  Triple-attempt F {m} {k} body handler = record {
    at = λ s h. handle-Post F k handler (m s).0 (m s).1 (body.at s h);
  }

module _ {S : Type 0} {P : S → Type 0} {Q : Unit {0} → S → Type 0} {E : Error → S → Type 0} where
  pub Triple-require :
      (b : Bool) (code : String)
      → (b ≡ true → (s : S) → P s → Q tt s)
      → (b ≡ false → (s : S) → P s → E (coded code) s)
      → Triple P (require b code) Q E
  Triple-require true code t f = record { at = λ s h. t refl s h }
  Triple-require false code t f = record { at = λ s h. f refl s h }

  pub Triple-modify : (f : S → S) → ((s : S) → P s → Q tt (f s)) → Triple P (modify f) Q E
  Triple-modify f k = record { at = k }

  pub Triple-when :
      (b : Bool) (m : Exec S Unit)
      → (b ≡ true → Triple P m Q E)
      → (b ≡ false → (s : S) → P s → Q tt s)
      → Triple P (when b m) Q E
  Triple-when true m t f = record { at = (t refl).at }
  Triple-when false m t f = record { at = λ s h. f refl s h }

module _ {S A : Type 0} {Q : A → S → Type 0} {E : Error → S → Type 0} where
  pub Triple-lift :
      {P : S → Type 0} (r : Result A) → ((s : S) → P s → Post Q E r s) → Triple P (lift r) Q E
  Triple-lift r k = record { at = k }

  pub Post-weaken :
      (Q' : A → S → Type 0) (E' : Error → S → Type 0)
      → ((a : A) (s : S) → Q' a s → Q a s)
      → ((e : Error) (s : S) → E' e s → E e s)
      → (r : Result A) (s : S) → Post Q' E' r s
      → Post Q E r s
  Post-weaken Q' E' q e (ok a) s h = q a s h
  Post-weaken Q' E' q e (err x) s h = e x s h

  -- A stronger precondition, weaker postconditions.
  pub Triple-weaken :
      {P P' : S → Type 0} (Q' : A → S → Type 0) (E' : Error → S → Type 0) {m : Exec S A}
      → Triple P' m Q' E'
      → ((s : S) → P s → P' s)
      → ((a : A) (s : S) → Q' a s → Q a s)
      → ((e : Error) (s : S) → E' e s → E e s)
      → Triple P m Q E
  Triple-weaken Q' E' {m} t p q e = record {
    at = λ s h. Post-weaken Q' E' q e (m s).0 (m s).1 (t.at s (p s h));
  }

module _ {S A : Type 0} {Q : A → S → Type 0} {E : Error → S → Type 0} where
  -- A stronger precondition.
  pub Triple-from :
      {P P' : S → Type 0} {m : Exec S A} → ((s : S) → P s → P' s) → Triple P' m Q E → Triple P m Q E
  Triple-from p t = record { at = λ s h. t.at s (p s h) }

module _ {S A : Type 0} (Q Q' : A → S → Type 0) (E E' : Error → S → Type 0) where
  both-Post :
      (r : Result A) (s : S)
      → Post Q E r s
      → Post Q' E' r s
      → Post (λ a s. Q a s × Q' a s) (λ e s. E e s × E' e s) r s
  both-Post (ok a) s x y = (x, y)
  both-Post (err e) s x y = (x, y)

  -- Two views of one action.
  pub Triple-both :
      {P P' : S → Type 0} {m : Exec S A}
      → Triple P m Q E
      → Triple P' m Q' E'
      → Triple (λ s. P s × P' s) m (λ a s. Q a s × Q' a s) (λ e s. E e s × E' e s)
  Triple-both {m = m} t u = record {
    at = λ s h. both-Post (m s).0 (m s).1 (t.at s h.0) (u.at s h.1);
  }

module _ {S A : Type 0} where
  trivial-Post : (r : Result A) (s : S) → Post (λ _ _. Unit {0}) (λ _ _. Unit {0}) r s
  trivial-Post (ok a) s = tt
  trivial-Post (err e) s = tt

  -- Nothing is asked of `m`.
  pub Triple-trivial :
      {P : S → Type 0} (m : Exec S A) → Triple P m (λ _ _. Unit {0}) (λ _ _. Unit {0})
  Triple-trivial m = record { at = λ s h. trivial-Post (m s).0 (m s).1 }

  const-Post : (X : Type 0) (r : Result A) (s : S) → X → Post (λ _ _. X) (λ _ _. Unit {0}) r s
  const-Post X (ok a) s x = x
  const-Post X (err e) s x = tt

  -- A fact that names no state outlasts every action.
  pub Triple-const : (X : Type 0) (m : Exec S A) → Triple (λ _. X) m (λ _ _. X) (λ _ _. Unit {0})
  Triple-const X m = record { at = λ s x. const-Post X (m s).0 (m s).1 x }

  frame-Post :
      (Q : A → S → Type 0) (X : Type 0) (r : Result A) (s : S)
      → Post Q (λ _ _. Unit {0}) r s
      → X
      → Post (λ a s. Q a s × X) (λ _ _. Unit {0}) r s
  frame-Post Q X (ok a) s j x = (j, x)
  frame-Post Q X (err e) s j x = tt

  -- Such a fact, beside a condition on the state.
  pub Triple-frame :
      {P : S → Type 0} (Q : A → S → Type 0) (X : Type 0) {m : Exec S A}
      → Triple P m Q (λ _ _. Unit {0})
      → Triple (λ s. P s × X) m (λ a s. Q a s × X) (λ _ _. Unit {0})
  Triple-frame Q X {m} t = record { at = λ s h. frame-Post Q X (m s).0 (m s).1 (t.at s h.0) h.1 }

  -- A precondition that names no state is a hypothesis.
  pub Triple-given :
      {X : Type 0} {Q : A → S → Type 0} {E : Error → S → Type 0} {m : Exec S A}
      → (X → Triple (λ _. Unit {0}) m Q E)
      → Triple (λ _. X) m Q E
  Triple-given k = record { at = λ s x. (k x).at s tt }

module _ {S A : Type 0} (Q : A → S → Type 0) (E : Error → S → Type 0) where
  -- A postcondition, where the outcome is known.
  pub post_ok : (r : Result A) (s : S) (a : A) → Post Q E r s → r ≡ ok a → Q a s
  post_ok (ok x) s a j e = subst (λ y. Post Q E y s) e j
  post_ok (err x) s a j e = absurd (ground (arith, e))

  pub post_err : (r : Result A) (s : S) (e : Error) → Post Q E r s → r ≡ err e → E e s
  post_err (ok x) s e j k = absurd (ground (arith, k))
  post_err (err x) s e j k = subst (λ y. Post Q E y s) k j

pub Triple-if :
    {S A : Type 0} {P : S → Type 0} {Q : A → S → Type 0} {E : Error → S → Type 0} (b : Bool)
    {m n : Exec S A}
    → (b ≡ true → Triple P m Q E)
    → (b ≡ false → Triple P n Q E)
    → Triple P (if b then m else n) Q E
Triple-if true m n = m refl
Triple-if false m n = n refl

-- What is known after `m >>= f` by what `f` does, whatever `m` does.
pub Triple-skip :
    {S A B : Type 0} {P : S → Type 0} {Q : B → S → Type 0} (m : Exec S A) {f : A → Exec S B}
    → ((a : A) → Triple (λ _. Unit {0}) (f a) Q (λ _ _. Unit {0}))
    → Triple P (m >>= f) Q (λ _ _. Unit {0})
Triple-skip m k = Triple-bind (λ _ _. Unit {0}) (Triple-trivial m) k
