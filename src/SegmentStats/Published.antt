-- ===== src/SegmentStats/Published.antt =====
-- The cells that `build` of training/segment_stats.py publishes.
use map_service_infra.Base.{
  ℕ, zero, ◌+◌, ◌≤◌, String, ◌≡◌, refl, sym, ◌∙◌, ap, subst, Bool, true, false, Option, none, some,
  List, [], ◌∷◌, ◌==◌, ◌&&◌, string_eq, arith, ltb, if◌then◌else◌, eq_of_==,
}
use map_service_infra.SegmentStats.{
  Candidate, Row, segment_key, Place, Segment, Stats, Tally, Dict, get, no_tally, count_rows,
  places_of, is_empty, segments_of, build,
}
use map_service_infra.SegmentStats.Dicts.{Fresh, Distinct, Nested, count_of, get-Fresh}
use map_service_infra.SegmentStats.Counts.{
  is_place, kept, number, seen_in, seen_by, candidate_shown, candidate_saved, rows_lem, rows-Nested,
}

-- `dict.get(key)`
unfoldable pub find : {A : Type 0} → String → List (String × A) → Option A
find k [] = none
find k ((j, v) ∷ rest) = if j == k then some v else find k rest

abbrev place_in : String → Option Segment → Option Place
place_in cid none = none
place_in cid (some s) = find cid s.places

-- `stats["segments"].get(key)["places"].get(cid)`
abbrev pub published : String → String → Stats → Option Place
published k cid s = place_in cid (find k s.segments)

-- A cell with fewer than `least` showings is withheld.
abbrev pub cell : ℕ → ℕ → ℕ → Option Place
cell least n m = if ltb n least then none else some (record { shown = n; saved = m })

withheld : (least n m : ℕ) → ltb n least ≡ true → cell least n m ≡ none
withheld least n m e = rw e refl

large_enough :
    (least n m : ℕ) → ltb n least ≡ false → cell least n m ≡ some (record { shown = n; saved = m })
large_enough least n m e = rw e refl

zero_small : (n : ℕ) → 1 ≤ n → ltb 0 n ≡ true
zero_small n h = ground arith

module _ (least : ℕ) (positive : 1 ≤ least) where
  empty_cell : (m : ℕ) → cell least 0 m ≡ none
  empty_cell m = withheld least 0 m (zero_small least positive)

  places_lem :
      (cid : String) (saved counts : Dict ℕ)
      → Distinct counts
      → find cid (places_of least saved counts)
        ≡ cell least (get zero cid counts) (get zero cid saved)
  unfolding find places_of get
  places_lem cid saved [] d = sym (empty_cell (get zero cid saved))
  places_lem cid saved ((c, n) ∷ rest) d =
      cases (c == cid) refl (ltb n least) refl (places_lem cid saved rest d.1)
    where
      cases :
          (b : Bool)
          → (c == cid) ≡ b
          → (small : Bool) → ltb n least ≡ small
          → find cid (places_of least saved rest)
            ≡ cell least (get zero cid rest) (get zero cid saved)
          → find cid (
              if small
              then places_of least saved rest
              else (c, record { shown = n; saved = get zero c saved }) ∷ places_of least saved rest)
            ≡ cell least (if b then n else get zero cid rest) (get zero cid saved)
      cases true e true s again =
          again
          ∙ (ap (λ x. cell least x (get zero cid saved))
                (get-Fresh zero cid rest (subst (λ y. Fresh y rest) (eq_of_== c cid e) d.0))
              ∙ (empty_cell (get zero cid saved) ∙ sym (withheld least n (get zero cid saved) s)))
      cases true e false s again = rw e (
          ap (λ y. some (record { shown = n; saved = get zero y saved })) (eq_of_== c cid e)
          ∙ sym (large_enough least n (get zero cid saved) s))
      cases false e true s again = again
      cases false e false s again = rw e again

  -- A segment without published places is left out.
  segments_lem :
      (k cid : String) (t : Tally) (m : Dict (Dict ℕ))
      → Nested m
      → place_in cid (find k (segments_of least t m))
        ≡ cell least (count_of k cid m) (count_of k cid t.saved)
  unfolding find segments_of get
  segments_lem k cid t [] n = sym (empty_cell (count_of k cid t.saved))
  segments_lem k cid t ((j, counts) ∷ rest) n =
      cases (j == k) refl (places_of least (get [] j t.saved) counts) refl
        (segments_lem k cid t rest (n.0.1, n.1.1))
    where
      here :
          (ps : List (String × Place))
          → places_of least (get [] j t.saved) counts ≡ ps
          → (j == k) ≡ true
          → find cid ps ≡ cell least (get zero cid counts) (count_of k cid t.saved)
      here ps p e =
          ap (find cid) (sym p)
          ∙ (places_lem cid (get [] j t.saved) counts n.1.0
              ∙ ap (λ y. cell least (get zero cid counts) (get zero cid (get [] y t.saved)))
                  (eq_of_== j k e))

      cases :
          (b : Bool)
          → (j == k) ≡ b
          → (ps : List (String × Place)) → places_of least (get [] j t.saved) counts ≡ ps
          → place_in cid (find k (segments_of least t rest))
            ≡ cell least (count_of k cid rest) (count_of k cid t.saved)
          → place_in cid (
              find k (
                if is_empty ps
                then segments_of least t rest
                else (j, record { sessions = get zero j t.sessions; places = ps })
                  ∷ segments_of least t rest))
            ≡ cell least
                (get zero cid (if b then counts else get [] k rest))
                (count_of k cid t.saved)
      cases true e [] p again =
          again
          ∙ (ap (λ d. cell least (get zero cid d) (count_of k cid t.saved))
                (get-Fresh [] k rest (subst (λ y. Fresh y rest) (eq_of_== j k e) n.0.0))
              ∙ (empty_cell (count_of k cid t.saved) ∙ here [] p e))
      cases true e (q ∷ qs) p again = rw e (here (q ∷ qs) p e)
      cases false e [] p again = again
      cases false e (q ∷ qs) p again = rw e again

-- For a threshold of one or more, a cell of a segment and a place is published exactly if at least
-- that many candidates of the segment's eligible sessions are the place. It then shows their number,
-- and how many of them were saved; a cell below the threshold is missing.
pub published-build :
    (rows : List Row) (least : ℕ) (k cid : String)
    → 1 ≤ least
    → published k cid (build rows least)
      ≡ cell least (seen_by (is_place cid) k rows) (seen_by (kept cid) k rows)
unfolding build
published-build rows least k cid positive =
    segments_lem least positive k cid (count_rows rows no_tally) (count_rows rows no_tally).shown
      (rows-Nested rows no_tally (tt, tt))
    ∙ ap2
        (shown_count (
          rows_lem k cid (λ t. t.shown) (is_place cid) (candidate_shown k cid) (λ t s u. refl) rows
            no_tally))
        (shown_count (
          rows_lem k cid (λ t. t.saved) (kept cid) (candidate_saved k cid) (λ t s u. refl) rows
            no_tally))
  where
    shown_count : {x y : ℕ} → x ≡ y + 0 → x ≡ y
    shown_count e = omega (arith, e)

    ap2 : {x y z w : ℕ} → x ≡ y → z ≡ w → cell least x z ≡ cell least y w
    ap2 {y} {z} e f = ap (λ n. cell least n z) e ∙ ap (cell least y) f

kept_bound :
    (cid : String) (cs : List Candidate) → seen_in (kept cid) cs ≤ seen_in (is_place cid) cs
unfolding seen_in
kept_bound cid [] = omega arith
kept_bound cid (c ∷ cs) = added (is_place cid c) c.saved _ _ (kept_bound cid cs)
  where
    added : (p s : Bool) (n m : ℕ) → n ≤ m → number (p && s) + n ≤ number p + m
    added true true n m h = omega arith
    added true false n m h = omega arith
    added false s n m h = omega (arith, number_none s)
      where
        number_none : (s : Bool) → number (false && s) ≡ 0
        number_none s = ground arith

kept_by_bound :
    (cid k : String) (rows : List Row) → seen_by (kept cid) k rows ≤ seen_by (is_place cid) k rows
unfolding seen_by
kept_by_bound cid k [] = omega arith
kept_by_bound cid k (r ∷ rs) =
    added (r.l1_eligible && segment_key r == k) _ _ _ _ (kept_bound cid r.candidates)
      (kept_by_bound cid k rs)
  where
    added :
        (b : Bool) (n m x y : ℕ)
        → n ≤ m
        → x ≤ y
        → (if b then n + x else x) ≤ (if b then m + y else y)
    added true n m x y h g = omega arith
    added false n m x y h g = g

-- A published cell was shown at least as often as the threshold asks, and was saved no more often
-- than it was shown, so its rate is at most one.
pub published_bounds :
    (rows : List Row) (least : ℕ) (k cid : String) (p : Place)
    → 1 ≤ least
    → published k cid (build rows least) ≡ some p
    → (least ≤ p.shown) × (p.saved ≤ p.shown)
published_bounds rows least k cid p positive e =
    within (seen_by (is_place cid) k rows) (seen_by (kept cid) k rows) (kept_by_bound cid k rows)
      (sym (published-build rows least k cid positive) ∙ e)
  where
    within : (n m : ℕ) → m ≤ n → cell least n m ≡ some p → (least ≤ p.shown) × (p.saved ≤ p.shown)
    within n m h q = ground (arith, h, q)
