-- ===== src/Base/Json.antt =====
-- The values that `json.loads` returns. `number` is a number other than a natural one, with its text.
use map_service_infra.Base.Equality.{string_eq, subset, ◌==◌}
use map_service_infra.Base.Tests.{if◌then◌else◌}
use map_service_infra.Base.Result.{Result, ok, err, coded}
use Prim.Native.Nat.{ℕ}
use Prim.Native.String.{String}
use mathlib.Core.Bool.{Bool, false, ◌&&◌}
use mathlib.Core.Option.{Option, none, some}
use mathlib.Core.List.{List, [], ◌∷◌}

mutual
  pub data Json : Type 0 where
    null : Json
    bool : Bool → Json
    int : ℕ → Json
    number : String → Json
    text : String → Json
    array : Items → Json
    object : Fields → Json

  pub data Items : Type 0 where
    nil : Items
    cons : Json → Items → Items

  pub data Fields : Type 0 where
    end : Fields
    field : String → Json → Fields → Fields

-- `value.get(name)` on a dict
unfoldable pub get : String → Fields → Option Json
get name end = none
get name (field k v rest) = if k == name then some v else get name rest

unfoldable pub keys : Fields → List String
keys end = []
keys (field k v rest) = k ∷ keys rest

-- `set(value) == set(names)`
unfoldable pub exact_keys : List String → Fields → Bool
unfolding keys
exact_keys names f = subset (keys f) names && subset names (keys f)

-- `isinstance(value[name], str)` with a pattern that must match the whole text.
abbrev pub text_where : (String → Bool) → Option Json → Option String
text_where p (some (text s)) = if p s then some s else none
text_where p _ = none

abbrev pub as_text : Option Json → Option String
as_text (some (text s)) = some s
as_text _ = none

-- `type(value[name]) is int and value[name] == n`
abbrev pub is_int : (ℕ → Bool) → Option Json → Bool
is_int p (some (int k)) = p k
is_int p _ = false

-- `require(value is not None, code)`, with the value.
abbrev pub required {ℓ} : {A : Type ℓ} → Option A → String → Result A
required none code = err (coded code)
required (some a) code = ok a
