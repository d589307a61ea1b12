-- ===== src/SegmentStats/Counts.antt =====
-- What `build` of training/segment_stats.py publishes, against a count of the sessions.
use map_service_infra.Base.{
  ℕ, suc, ◌+◌, String, ◌≡◌, refl, ◌∙◌, ap, Bool, true, false, Option, none, some, List, [], ◌∷◌,
  ◌==◌, ◌&&◌, string_eq, option_eq, arith, if◌then◌else◌,
}
use map_service_infra.SegmentStats.{
  Candidate, Row, Tally, Dict, bump, segment_key, count_candidate, count_candidates, count_row,
  count_rows,
}
use map_service_infra.SegmentStats.Dicts.{
  Nested, Nested-bump_in, count_of, one_at, one_at-false, count_of-bump_in,
}

-- How often the place is among the candidates, and how often it was kept too.
abbrev pub is_place : String → Candidate → Bool
is_place cid c = c.content_id == some cid

abbrev pub number : Bool → ℕ
number true = 1
number false = 0

unfoldable pub seen_in : (Candidate → Bool) → List Candidate → ℕ
seen_in p [] = 0
seen_in p (c ∷ cs) = number (p c) + seen_in p cs

-- Over the eligible sessions of the segment.
unfoldable pub seen_by : (Candidate → Bool) → String → List Row → ℕ
seen_by p k [] = 0
seen_by p k (r ∷ rs) =
    let rest = seen_by p k rs in
    if r.l1_eligible && segment_key r == k then seen_in p r.candidates + rest else rest

abbrev pub kept : String → Candidate → Bool
kept cid c = is_place cid c && c.saved

some_==_some : (x y : String) → (some x == some y) ≡ (x == y)
some_==_some x y = ground arith

none_==_some : (y : String) → (none == some y) ≡ false
none_==_some y = ground arith

nothing_counted : (b : Bool) (n : ℕ) → n ≡ one_at b false + n
nothing_counted b n = omega (arith, one_at-false b)

and_true : (b : Bool) → (b && true) ≡ b
and_true b = ground arith

and_false : (b : Bool) → (b && false) ≡ false
and_false b = ground arith

pub candidate_shown :
    (k cid j : String) (c : Candidate) (t : Tally)
    → count_of k cid (count_candidate j c t).shown
      ≡ one_at (j == k) (is_place cid c) + count_of k cid t.shown
unfolding count_candidate
candidate_shown k cid j c t = cases c.content_id
  where
    cases :
        (o : Option String)
        → count_of k cid (count_candidate j (record c { content_id = o }) t).shown
          ≡ one_at (j == k) (o == some cid) + count_of k cid t.shown
    cases none = rw (none_==_some cid) (nothing_counted (j == k) _)
    cases (some x) = rw (some_==_some x cid) (count_of-bump_in k cid j x t.shown)

pub candidate_saved :
    (k cid j : String) (c : Candidate) (t : Tally)
    → count_of k cid (count_candidate j c t).saved
      ≡ one_at (j == k) (kept cid c) + count_of k cid t.saved
unfolding count_candidate
candidate_saved k cid j c t = cases c.content_id c.saved
  where
    cases :
        (o : Option String) (b : Bool)
        → count_of k cid (count_candidate j (record { content_id = o; saved = b }) t).saved
          ≡ one_at (j == k) ((o == some cid) && b) + count_of k cid t.saved
    cases none b = rw (none_==_some cid) (nothing_counted (j == k) _)
    cases (some x) true =
        rw (some_==_some x cid, and_true (x == cid)) (count_of-bump_in k cid j x t.saved)
    cases (some x) false = rw (and_false (some x == some cid)) (nothing_counted (j == k) _)

abbrev when_same : Bool → ℕ → ℕ
when_same true n = n
when_same false n = 0

-- One of the two tallies: `f` with the candidates that it counts.
module _ (k cid : String) (f : Tally → Dict (Dict ℕ)) (p : Candidate → Bool)
    (step : (j : String) (c : Candidate) (t : Tally)
      → count_of k cid (f (count_candidate j c t)) ≡ one_at (j == k) (p c) + count_of k cid (f t))
    (apart : (t : Tally) (s : Dict ℕ) (u : ℕ) → f (record t { sessions = s; used = u }) ≡ f t) where
  candidates_lem :
      (j : String) (cs : List Candidate) (t : Tally)
      → count_of k cid (f (count_candidates j cs t))
        ≡ when_same (j == k) (seen_in p cs) + count_of k cid (f t)
  unfolding count_candidates seen_in
  candidates_lem j [] t = none_yet (j == k)
    where
      none_yet : (b : Bool) → count_of k cid (f t) ≡ when_same b 0 + count_of k cid (f t)
      none_yet true = omega arith
      none_yet false = omega arith
  candidates_lem j (c ∷ cs) t =
      added (j == k) (p c) (seen_in p cs) _ _ _ (step j c t)
        (candidates_lem j cs (count_candidate j c t))
    where
      added :
          (b q : Bool) (n x y z : ℕ)
          → y ≡ one_at b q + z
          → x ≡ when_same b n + y
          → x ≡ when_same b (number q + n) + z
      added true true n x y z e g = omega arith
      added true false n x y z e g = omega arith
      added false q n x y z e g = omega (arith, one_at_none q)
        where
          one_at_none : (q : Bool) → one_at false q ≡ 0
          one_at_none true = refl
          one_at_none false = refl

  row_lem :
      (r : Row) (t : Tally)
      → count_of k cid (f (count_row r t))
        ≡ when_same (r.l1_eligible && segment_key r == k) (seen_in p r.candidates)
          + count_of k cid (f t)
  unfolding count_row
  row_lem r t = cases r.l1_eligible
    where
      cases :
          (b : Bool)
          → count_of k cid (
              f (
                if b
                then count_candidates
                    (segment_key r)
                    r.candidates
                    (record t { sessions = bump (segment_key r) t.sessions; used = suc t.used })
                else t))
            ≡ when_same (b && segment_key r == k) (seen_in p r.candidates) + count_of k cid (f t)
      cases true =
          candidates_lem (segment_key r) r.candidates
            (record t { sessions = bump (segment_key r) t.sessions; used = suc t.used })
          ∙ ap (λ d. when_same (segment_key r == k) (seen_in p r.candidates) + count_of k cid d)
              (apart t (bump (segment_key r) t.sessions) (suc t.used))
      cases false = omega arith

  pub rows_lem :
      (rs : List Row) (t : Tally)
      → count_of k cid (f (count_rows rs t)) ≡ seen_by p k rs + count_of k cid (f t)
  unfolding count_rows seen_by
  rows_lem [] t = omega arith
  rows_lem (r ∷ rs) t =
      added (r.l1_eligible && segment_key r == k) (seen_in p r.candidates) _ _ _ _ (row_lem r t)
        (rows_lem rs (count_row r t))
    where
      added :
          (b : Bool) (n m x y z : ℕ)
          → y ≡ when_same b n + z
          → x ≡ m + y
          → x ≡ (if b then n + m else m) + z
      added true n m x y z e g = omega arith
      added false n m x y z e g = omega arith

-- No dict of the tally repeats a key.
candidate-Nested :
    (j : String) (c : Candidate) (t : Tally) → Nested t.shown → Nested (count_candidate j c t).shown
unfolding count_candidate
candidate-Nested j c t n = cases c.content_id
  where
    cases : (o : Option String) → Nested (count_candidate j (record c { content_id = o }) t).shown
    cases none = n
    cases (some x) = Nested-bump_in j x t.shown n

candidates-Nested :
    (j : String) (cs : List Candidate) (t : Tally)
    → Nested t.shown
    → Nested (count_candidates j cs t).shown
unfolding count_candidates
candidates-Nested j [] t n = n
candidates-Nested j (c ∷ cs) t n =
    candidates-Nested j cs (count_candidate j c t) (candidate-Nested j c t n)

pub rows-Nested : (rs : List Row) (t : Tally) → Nested t.shown → Nested (count_rows rs t).shown
unfolding count_rows count_row
rows-Nested [] t n = n
rows-Nested (r ∷ rs) t n = rows-Nested rs (count_row r t) (row r.l1_eligible)
  where
    row :
        (b : Bool)
        → Nested
            (if b
              then count_candidates
                  (segment_key r)
                  r.candidates
                  (record t { sessions = bump (segment_key r) t.sessions; used = suc t.used })
              else t).shown
    row true =
        candidates-Nested (segment_key r) r.candidates
          (record t { sessions = bump (segment_key r) t.sessions; used = suc t.used }) n
    row false = n
