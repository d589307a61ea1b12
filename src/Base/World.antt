-- ===== src/Base/World.antt =====
-- Calls to the world outside the program. An environment answers a call by a function of all the
-- calls made so far, newest first, each with whether it succeeded; so a theorem over every
-- environment holds whatever docker, the file system or the clock answer. `own` is what the program
-- itself keeps.
use mathlib.Core.Path.{◌≡◌, refl}
use mathlib.Core.Bool.{Bool, true, false}
use mathlib.Core.List.{List, ◌∷◌}
use map_service_infra.Base.Result.{Error, Result, ok, err}
use map_service_infra.Base.Exec.{Exec, ◌>>=◌}
use map_service_infra.Base.Exec.Rules.{Post, Triple, Triple-bind}

abbrev pub Trace : Type 0 → Type 0
Trace C = List (C × Bool)

abbrev pub Answer : Type 0 → Type 0 → Type 0
Answer C A = Trace C → Result A

pub record World (C O : Type 0) : Type 0 where
  pub own : O
  pub trace : Trace C

abbrev pub succeeded {ℓ} : {A : Type ℓ} → Result A → Bool
succeeded (ok a) = true
succeeded (err e) = false

module _ {C O : Type 0} where
  abbrev pub push : C → Bool → World C O → World C O
  push c done w = record w { trace = (c, done) ∷ w.trace }

  abbrev pub call : {A : Type 0} → C → Answer C A → Exec (World C O) A
  call c f w = (f w.trace, push c (succeeded (f w.trace)) w)

module _ {C O A : Type 0} where
  call-Post :
      (Q : A → World C O → Type 0) (E : Error → World C O → Type 0) (c : C) (r : Result A)
      (w : World C O)
      → ((a : A) → r ≡ ok a → Q a (push c true w))
      → ((e : Error) → r ≡ err e → E e (push c false w))
      → Post Q E r (push c (succeeded r) w)
  call-Post Q E c (ok a) w q e = q a refl
  call-Post Q E c (err x) w q e = e x refl

  pub Triple-call :
      {P : World C O → Type 0} (Q : A → World C O → Type 0) (E : Error → World C O → Type 0) (c : C)
      (f : Answer C A)
      → ((w : World C O) → P w → (a : A) → f w.trace ≡ ok a → Q a (push c true w))
      → ((w : World C O) → P w → (e : Error) → f w.trace ≡ err e → E e (push c false w))
      → Triple P (call c f) Q E
  Triple-call Q E c f q e = record { at = λ w h. call-Post Q E c (f w.trace) w (q w h) (e w h) }

-- `m` keeps `P`, whether it returns or raises.
abbrev pub Keeps : {S A : Type 0} → (S → Type 0) → Exec S A → Type 0
Keeps P m = Triple P m (λ _ s. P s) (λ _ s. P s)

module _ {S A B : Type 0} {P : S → Type 0} where
  pub Keeps-bind :
      {m : Exec S A} {f : A → Exec S B} → Keeps P m → ((a : A) → Keeps P (f a)) → Keeps P (m >>= f)
  Keeps-bind first rest = Triple-bind (λ _ s. P s) first rest
