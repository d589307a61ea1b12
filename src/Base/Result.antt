-- ===== src/Base/Result.antt =====
-- What a Python call returns: a value, or an exception. An exception of the module's own class
-- carries its code; any other is `other`.
use mathlib.Core.Bool.{Bool, true, false}
use Prim.Native.String.{String}

pub data Error : Type 0 where
  coded : String → Error
  other : Error

pub data Result {ℓ} (V : Type ℓ) : Type ℓ where
  err : Error → Result V
  ok : V → Result V

module _ {ℓ κ} {V : Type ℓ} {W : Type κ} where
  infixl 5 ◌>>=◌
  abbrev pub ◌>>=◌ : Result V → (V → Result W) → Result W
  err x >>= next = err x
  ok v >>= next = next v

module _ {κ} {W : Type κ} where
  infixl 5 ◌>>◌
  abbrev pub ◌>>◌ : Result (Unit {0}) → Result W → Result W
  first >> next = first >>= λ _. next

-- `require(condition, code)`
abbrev pub require : Bool → String → Result (Unit {0})
require false code = err (coded code)
require true code = ok tt
