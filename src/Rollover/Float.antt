-- ===== src/Rollover/Float.antt =====
-- The floats that scripts/service-rollover.py computes with: Python's, which are IEEE doubles, as far
-- as they are not negative. A finite one is a number of units of 2^-1074; `none` is infinity.
pub mod Exact
use map_service_infra.Base.{
  ℕ, zero, suc, ◌+◌, ◌*◌, ◌/◌, ◌%◌, ◌^◌, Bool, true, false, Option, none, some, ltb, if◌then◌else◌,
}
use map_service_infra.Base.Result.{Result, ok, err, other}

abbrev pub Float : Type 0
Float = Option ℕ

-- The units of the number 1, and how many units the significand can count.
abbrev pub units : ℕ
units = 2 ^ 1074

abbrev pub significand : ℕ
significand = 9007199254740992

-- The integer nearest to `n / d`, the even one of two.
pub nearest : ℕ → ℕ → ℕ
nearest n d =
    let q = n / d in
    let twice = n % d * 2 in if ltb twice d then q else if ltb d twice then q + 1 else q + q % 2

pub twice : Float → Float
twice none = none
twice (some n) = some (n * 2)

-- `n / d` units rounded to a float whose unit may still be doubled so many times.
pub rounded : ℕ → ℕ → ℕ → Float
unfolding nearest twice
rounded zero n d = if ltb (nearest n d) significand then some (nearest n d) else none
rounded (suc left) n d = elim (ltb n (significand * d)) [
  | true ↦ some (nearest n d)
  | false ↦ twice (rounded left n (d * 2))
]

-- The unit of the largest doubles is 2^971.
abbrev pub doublings : ℕ
doublings = 2045

-- `float` of the number `n / d`
unfoldable pub float_of : ℕ → ℕ → Float
unfolding rounded
float_of n d = rounded doublings (n * units) d

-- The product with the number `n / d`, which is a float itself.
unfoldable pub times : Float → ℕ → ℕ → Float
unfolding rounded
times none n d = none
times (some x) n d = rounded doublings (x * n) d

unfoldable pub plus : Float → Float → Float
unfolding rounded
plus none y = none
plus (some x) none = none
plus (some x) (some y) = rounded doublings (x + y) 1

-- `int(x)`, which raises on infinity.
unfoldable pub int_of : Float → Result ℕ
int_of none = err other
int_of (some x) = ok (x / units)
