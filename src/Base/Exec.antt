-- ===== src/Base/Exec.antt =====
-- Methods that act on the outside world and may raise. What was done before a raise stays done,
-- so the state comes back beside the error too.
pub mod Rules
use Prim.Native.String.{String}
use mathlib.Core.Bool.{Bool, true, false}
use mathlib.Core.List.{List, [], ◌∷◌}
use map_service_infra.Base.Result.{Error, coded, Result, ok, err}

abbrev pub Exec : Type 0 → Type 0 → Type 0
Exec S A = S → Result A × S

module _ {S A : Type 0} where
  abbrev pub pure : A → Exec S A
  pure a s = (ok a, s)

  abbrev pub raise : Error → Exec S A
  raise e s = (err e, s)

  abbrev pub lift : Result A → Exec S A
  lift r s = (r, s)

  abbrev pub gets : (S → A) → Exec S A
  gets f s = (ok (f s), s)

module _ {S A B : Type 0} where
  abbrev pub continue : Result A → (A → Exec S B) → Exec S B
  continue (err e) next s = (err e, s)
  continue (ok a) next s = next a s

  infixl 10 ◌>>=◌ ◌>>◌
  unfoldable pub ◌>>=◌ : Exec S A → (A → Exec S B) → Exec S B
  ◌>>=◌ m f s = continue (m s).0 f (m s).1

  abbrev pub ◌>>◌ : Exec S A → Exec S B → Exec S B
  first >> next = first >>= λ _. next

module _ {S A : Type 0} where
  abbrev pub handle : Result A → (Error → Exec S A) → Exec S A
  handle (ok a) k s = (ok a, s)
  handle (err e) k s = k e s

  -- `try: m  except Exception as e: k(e)`
  unfoldable pub attempt : Exec S A → (Error → Exec S A) → Exec S A
  attempt m k s = handle (m s).0 k (m s).1

module _ {S : Type 0} where
  abbrev pub require : Bool → String → Exec S Unit
  require true code s = (ok tt, s)
  require false code s = (err (coded code), s)

  abbrev pub modify : (S → S) → Exec S Unit
  modify f s = (ok tt, f s)

  -- `if condition: m`
  abbrev pub when : Bool → Exec S Unit → Exec S Unit
  when true m s = m s
  when false m s = (ok tt, s)
