-- ===== src/SegmentStats.antt =====
-- Statistics of what travellers of a segment kept, training/segment_stats.py: `segment_key` and
-- `build`. A session is a row with the fields that they read; a value that Python takes for false
-- (missing, null, empty) is `none` or `false`. The rate is kept as its two counts, before rounding.
pub mod Counts
pub mod Dicts
pub mod Published
mod Examples
use map_service_infra.Base.{
  ℕ, zero, suc, ◌+◌, String, ◌<>◌, Bool, true, false, Option, none, some, List, [], ◌∷◌, ◌==◌,
  string_eq, ltb, if◌then◌else◌,
}

pub record Candidate : Type 0 where
  pub content_id : Option String
  pub saved : Bool

pub record Row : Type 0 where
  pub l1_eligible : Bool
  pub age_band : Option String
  pub gender : Option String
  pub candidates : List Candidate

pub record Place : Type 0 where
  pub shown : ℕ
  pub saved : ℕ

pub record Segment : Type 0 where
  pub sessions : ℕ
  pub places : List (String × Place)

pub record Stats : Type 0 where
  pub min_support : ℕ
  pub sessions_used : ℕ
  pub segments : List (String × Segment)
  pub dropped_below_support : ℕ

abbrev or_unknown : Option String → String
or_unknown none = "unknown"
or_unknown (some s) = s

unfoldable pub segment_key : Row → String
segment_key r = or_unknown r.age_band <> ("|" <> or_unknown r.gender)

-- A `defaultdict` in the order of insertion.
abbrev pub Dict : Type 0 → Type 0
Dict A = List (String × A)

module _ {A : Type 0} where
  -- `dict[key]`, with the default for a missing key.
  unfoldable pub get : A → String → Dict A → A
  get d k [] = d
  get d k ((j, v) ∷ rest) = if j == k then v else get d k rest

  -- `dict[key] = f(dict[key])`
  unfoldable pub update : A → String → (A → A) → Dict A → Dict A
  update d k f [] = (k, f d) ∷ []
  update d k f ((j, v) ∷ rest) =
      let more = update d k f rest in if j == k then (j, f v) ∷ rest else (j, v) ∷ more

-- `counts[key] += 1`
unfoldable pub bump : String → Dict ℕ → Dict ℕ
unfolding update
bump k counts = update zero k suc counts

-- `counts[key][cid] += 1`
unfoldable pub bump_in : String → String → Dict (Dict ℕ) → Dict (Dict ℕ)
unfolding update bump
bump_in k cid counts = update [] k (bump cid) counts

-- The four tallies of the first loop.
pub record Tally : Type 0 where
  pub shown : Dict (Dict ℕ)
  pub saved : Dict (Dict ℕ)
  pub sessions : Dict ℕ
  pub used : ℕ

abbrev pub no_tally : Tally
no_tally = record { shown = []; saved = []; sessions = []; used = zero }

unfoldable pub count_candidate : String → Candidate → Tally → Tally
unfolding bump_in
count_candidate k c t = elim c.content_id [
  | none ↦ t
  | some cid ↦ record t {
    shown = bump_in k cid t.shown;
    saved = if c.saved then bump_in k cid t.saved else t.saved;
  }
]

unfoldable pub count_candidates : String → List Candidate → Tally → Tally
unfolding count_candidate
count_candidates k [] t = t
count_candidates k (c ∷ cs) t = count_candidates k cs (count_candidate k c t)

unfoldable pub count_row : Row → Tally → Tally
unfolding count_candidates bump segment_key
count_row r t =
    if r.l1_eligible
    then count_candidates (segment_key r) r.candidates
        (record t { sessions = bump (segment_key r) t.sessions; used = suc t.used })
    else t

unfoldable pub count_rows : List Row → Tally → Tally
unfolding count_row
count_rows [] t = t
count_rows (r ∷ rs) t = count_rows rs (count_row r t)

-- The places of one segment that were shown often enough.
unfoldable pub places_of : ℕ → Dict ℕ → Dict ℕ → List (String × Place)
unfolding get
places_of least kept [] = []
places_of least kept ((cid, n) ∷ rest) =
    let more = places_of least kept rest in
    if ltb n least then more else (cid, record { shown = n; saved = get zero cid kept }) ∷ more

dropped_of : ℕ → Dict ℕ → ℕ
dropped_of least [] = zero
dropped_of least ((cid, n) ∷ rest) =
    let more = dropped_of least rest in if ltb n least then suc more else more

abbrev pub is_empty {ℓ} : {A : Type ℓ} → List A → Bool
is_empty [] = true
is_empty _ = false

unfoldable pub segments_of : ℕ → Tally → Dict (Dict ℕ) → List (String × Segment)
unfolding get places_of
segments_of least t [] = []
segments_of least t ((k, counts) ∷ rest) =
    let more = segments_of least t rest in
    let places = places_of least (get [] k t.saved) counts in
    if is_empty places
    then more
    else (k, record { sessions = get zero k t.sessions; places = places }) ∷ more

all_dropped : ℕ → Dict (Dict ℕ) → ℕ
unfolding dropped_of
all_dropped least [] = zero
all_dropped least ((k, counts) ∷ rest) = dropped_of least counts + all_dropped least rest

unfoldable pub build : List Row → ℕ → Stats
unfolding count_rows segments_of all_dropped
build rows least =
    let t = count_rows rows no_tally in
    record {
      min_support = least;
      sessions_used = t.used;
      segments = segments_of least t t.shown;
      dropped_below_support = all_dropped least t.shown;
    }
