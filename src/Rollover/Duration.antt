-- ===== src/Rollover/Duration.antt =====
-- Durations of scripts/service-rollover.py: `duration` and `stop_seconds`.
pub mod Reading
use map_service_infra.Base.{
  ℕ, zero, suc, ◌+◌, ◌-◌, ◌*◌, ◌^◌, max, String, Bool, true, false, ◌&&◌, ◌||◌, Option, none, some,
  List, [], ◌∷◌, leb, eqb, if◌then◌else◌, codes, strip,
}
use map_service_infra.Base.Lists.{length}
use map_service_infra.Rollover.Float.{Float, float_of, times, plus, int_of}
use map_service_infra.Base.Result.{Error, coded, other, Result, ok, err, ◌>>=◌}

abbrev pub is_digit : ℕ → Bool
is_digit c = leb b'0' c && leb c b'9'

-- The digits at the front and what follows them.
unfoldable pub digits : List ℕ → List ℕ × List ℕ
digits [] = ([], [])
digits (c ∷ cs) =
    let (run, rest) = digits cs in if is_digit c then (c ∷ run, rest) else ([], c ∷ cs)

-- A decimal numeral, most significant digit first.
unfoldable pub numeral : ℕ → List ℕ → ℕ
numeral acc [] = acc
numeral acc (c ∷ cs) = numeral (acc * 10 + (c - b'0')) cs

unit_of : ℕ → List ℕ × List ℕ → List ℕ → Option ℕ × List ℕ
unfolding numeral
unit_of u ([], _) cs = (none, cs)
unit_of u (d ∷ ds, []) cs = (none, cs)
unit_of u (d ∷ ds, c ∷ rest) cs = if eqb c u then (some (numeral 0 (d ∷ ds)), rest) else (none, cs)

-- `(?:([0-9]+)u)?` at the front.
unfoldable pub take_unit : ℕ → List ℕ → Option ℕ × List ℕ
unfolding digits unit_of
take_unit u cs = unit_of u (digits cs) cs

-- `float(text)` of digits and points, read as the digits at its front and the rest; `none` where
-- `float` raises.
whole_float : List ℕ → Option Float
unfolding numeral
whole_float [] = none
whole_float (d ∷ ds) = some (float_of (numeral 0 (d ∷ ds)) 1)

fraction : List ℕ → List ℕ × List ℕ → Option Float
unfolding numeral whole_float
fraction whole ([], []) = whole_float whole
fraction whole (d ∷ ds, []) =
    some (float_of (numeral (numeral 0 whole) (d ∷ ds)) (10 ^ length (d ∷ ds)))
fraction whole (_, c ∷ rest) = none

unfoldable pub float_text : List ℕ × List ℕ → Option Float
unfolding fraction digits whole_float
float_text (whole, []) = whole_float whole
float_text (whole, c ∷ rest) = if eqb c b'.' then fraction whole (digits rest) else none

-- `[0-9.]+s` to the end of the text: the part before the `s`, `none` if the text is not so.
seconds_text : List ℕ → Option (List ℕ)
seconds_text [] = none
seconds_text (c ∷ []) = if eqb c b's' then some [] else none
seconds_text (c ∷ d ∷ cs) =
    let rest = seconds_text (d ∷ cs) in
    if is_digit c || eqb c b'.' then elim rest [ none ↦ none | some t ↦ some (c ∷ t) ] else none

pub data Seconds : Type 0 where
  absent unreadable not_a_float : Seconds
  read : Float → Seconds

seconds_found : Option (List ℕ) → Seconds
unfolding float_text digits
seconds_found none = unreadable
seconds_found (some []) = unreadable
seconds_found (some (c ∷ cs)) = elim (float_text (digits (c ∷ cs))) [
  | none ↦ not_a_float
  | some x ↦ read x
]

seconds_of : List ℕ → Seconds
unfolding seconds_found seconds_text
seconds_of [] = absent
seconds_of (c ∷ cs) = seconds_found (seconds_text (c ∷ cs))

abbrev value : Option ℕ → ℕ
value none = 0
value (some n) = n

abbrev unreadable_error : Error
unreadable_error = coded "duration_unreadable"

-- `int(hours * 3600 + minutes * 60 + seconds)`
in_seconds : ℕ → ℕ → Float → Result ℕ
in_seconds hours minutes seconds =
    int_of (plus (plus (times (float_of hours 1) 3600 1) (times (float_of minutes 1) 60 1)) seconds)

total : Option ℕ → Option ℕ → Seconds → Result ℕ
unfolding in_seconds
total none none absent = err unreadable_error
total h m absent = in_seconds (value h) (value m) (float_of 0 1)
total h m unreadable = err unreadable_error
total h m not_a_float = err other
total h m (read x) = in_seconds (value h) (value m) x

-- `duration` on the text without the spaces around it. A number of seconds that is no float raises a
-- `ValueError`, and a sum that is infinite an `OverflowError`: neither is the module's own exception.
unfoldable pub duration : List ℕ → Result ℕ
unfolding take_unit seconds_of total
duration cs =
    let (h, after_h) = take_unit b'h' cs in
    let (m, after_m) = take_unit b'm' after_h in total h m (seconds_of after_m)

abbrev pub stop_floor : ℕ
stop_floor = 30

-- `stop_seconds`, with the `strip` of `duration`; `none` is a missing or empty grace period.
unfoldable pub stop_seconds : Option String → Result ℕ
unfolding duration strip
stop_seconds none = ok stop_floor
stop_seconds (some raw) = duration (strip (codes raw)) >>= λ d. ok (max stop_floor d)
