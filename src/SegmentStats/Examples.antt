-- ===== src/SegmentStats/Examples.antt =====
-- Sessions of one segment, counted by training/segment_stats.py.
use map_service_infra.Base.{
  ◌≤◌, ◌≡◌, refl, true, false, some, none, List, [], ◌∷◌, string_eq, arith,
}
use map_service_infra.SegmentStats.{Row, Candidate, build}
use map_service_infra.SegmentStats.Counts.{is_place, kept, seen_by}
use map_service_infra.SegmentStats.Published.{
  published, cell, find, published-build, published_bounds,
}

abbrev row : List Candidate → Row
row cs = record { l1_eligible = true; age_band = some "20s"; gender = none; candidates = cs }

abbrev cafe : Candidate
cafe = record { content_id = some "cafe"; saved = true }

abbrev park : Candidate
park = record { content_id = some "park"; saved = false }

abbrev rows : List Row
rows = row (cafe ∷ park ∷ []) ∷ row (cafe ∷ []) ∷ row (record cafe { saved = false } ∷ []) ∷ []

published-build_example :
    published "20s|unknown" "cafe" (build rows 3)
    ≡ cell 3
        (seen_by (is_place "cafe") "20s|unknown" rows)
        (seen_by (kept "cafe") "20s|unknown" rows)
published-build_example = published-build rows 3 "20s|unknown" "cafe" (omega arith)

-- The cafe is published.
cafe_published :
    published "20s|unknown" "cafe" (build rows 3) ≡ some (record { shown = 3; saved = 2 })
unfolding build find string_eq
cafe_published = refl

published_bounds_example : (3 ≤ 3) × (2 ≤ 3)
published_bounds_example =
    published_bounds rows 3 "20s|unknown" "cafe" (record { shown = 3; saved = 2 }) (omega arith)
      cafe_published
