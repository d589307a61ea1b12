-- ===== src/Rollover/Admission.antt =====
-- `working_set` and `admission` of scripts/service-rollover.py.
use map_service_infra.Base.{
  ℕ, ◌+◌, ◌*◌, ◌^◌, ◌-◌, String, Bool, true, false, ◌&&◌, ◌||◌, Option, none, some, List, [], ◌∷◌,
  leb, eqb, if◌then◌else◌, codes,
}
use map_service_infra.Base.Result.{Error, coded, other, Result, ok, err, require, ◌>>=◌, ◌>>◌}
use map_service_infra.Rollover.Float.{Float, float_of, times, int_of}
use map_service_infra.Rollover.Duration.{digits, is_digit, float_text}

abbrev pub protected_reserve : ℕ
protected_reserve = 512 * 1024 ^ 2

abbrev pub disk_floor : ℕ
disk_floor = 2 * 1024 ^ 3

pub record AdmissionReport : Type 0 where
  pub working_set_bytes : ℕ
  pub required_bytes : ℕ
  pub memory_available_bytes : ℕ
  pub disk_free_bytes : ℕ

-- The characters of a run that satisfy `p`, and what follows.
span : (ℕ → Bool) → List ℕ → List ℕ × List ℕ
span p [] = ([], [])
span p (c ∷ cs) = let (run, rest) = span p cs in if p c then (c ∷ run, rest) else ([], c ∷ cs)

abbrev is_blank : ℕ → Bool
is_blank c = eqb c 32 || (leb 9 c && leb c 13)

abbrev is_letter : ℕ → Bool
is_letter c = (leb b'a' c && leb c b'z') || (leb b'A' c && leb c b'Z')

abbrev upper : ℕ → ℕ
upper c = if leb b'a' c && leb c b'z' then c - 32 else c

same : List ℕ → List ℕ → Bool
same [] [] = true
same [] (b ∷ bs) = false
same (a ∷ as') [] = false
same (a ∷ as') (b ∷ bs) = eqb (upper a) b && same as' bs

-- `SCALE[unit.upper()]`
scale : List ℕ → Option ℕ
unfolding same
scale u =
    if same u (codes "B")
    then some 1
    else if same u (codes "KIB")
    then some 1024
    else if same u (codes "MIB")
    then some (1024 ^ 2)
    else if same u (codes "GIB")
    then some (1024 ^ 3)
    else if same u (codes "KB")
    then some 1000
    else if same u (codes "MB")
    then some (1000 ^ 2)
    else if same u (codes "GB")
    then some (1000 ^ 3)
    else none

abbrev unreadable : Error
unreadable = coded "memory_usage_unreadable"

-- `int(float(text) * factor)`; `float` raises on a second point or on a point alone.
scaled : Option Float → ℕ → Result ℕ
scaled none factor = err other
scaled (some x) factor = int_of (times x factor 1)

abbrev is_numeric : ℕ → Bool
is_numeric c = is_digit c || eqb c b'.'

with_unit : List ℕ → Option ℕ → Result ℕ
unfolding scaled float_text digits
with_unit run none = err unreadable
with_unit run (some factor) = scaled (float_text (digits run)) factor

usage : List ℕ × List ℕ → Result ℕ
unfolding with_unit scale span
usage ([], rest) = err unreadable
usage (d ∷ ds, rest) = unit_case (span is_letter (span is_blank rest).1)
  where
    unit_case : List ℕ × List ℕ → Result ℕ
    unit_case ([], _) = err unreadable
    unit_case (u ∷ us, _) = with_unit (d ∷ ds) (scale (u ∷ us))

-- `working_set` on what `docker stats` prints, `used / limit`.
unfoldable pub working_set : String → Result ℕ
unfolding usage span
working_set raw =
    let before = (span (λ c. if eqb c b'/' then false else true) (codes raw)).0 in
    usage (span is_numeric (span is_blank before).1)

-- The test of a host's room for a second copy, on the three readings in bytes.
unfoldable pub admission : ℕ → ℕ → ℕ → Result AdmissionReport
admission used available free = do
  half_more ← int_of (times (float_of used 1) 3 2)
  let needed = half_more + protected_reserve
  require (leb needed available) "insufficient_memory_for_second_container"
  require (leb disk_floor free) "insufficient_disk"
  ok (record {
    working_set_bytes = used;
    required_bytes = needed;
    memory_available_bytes = available;
    disk_free_bytes = free;
  })
