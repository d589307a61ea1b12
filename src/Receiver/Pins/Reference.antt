-- ===== src/Receiver/Pins/Reference.antt =====
-- Image references, scripts/deploy-gcp.py: `canonical_repository` and the pattern of
-- `prepare_infrastructure`; the order of the services.
use map_service_infra.Base.{
  same_text, ◌≡◌, ◌∙◌, ◌==◌, ap, refl, arith, string_eq, ℕ, String, Bool, true, false, ◌&&◌, ◌||◌,
  Option, none, some, List, [], ◌∷◌, ◌++◌, contains, nat_eq, if◌then◌else◌, codes, eqb,
  is_hex_digit, ltb,
}
use map_service_infra.Base.Regex.{Regex, one, cat, rep, matches, literal, alphanumeric}

-- `text.removeprefix(prefix)`
pub remove_prefix : List ℕ → List ℕ → Option (List ℕ)
remove_prefix [] cs = some cs
remove_prefix (p ∷ ps) [] = none
remove_prefix (p ∷ ps) (c ∷ cs) = let rest = remove_prefix ps cs in if eqb p c then rest else none

abbrev or_whole : List ℕ → Option (List ℕ) → List ℕ
or_whole cs none = cs
or_whole cs (some rest) = rest

unfoldable pub canonical_repository : List ℕ → List ℕ
unfolding remove_prefix
canonical_repository cs =
    let value = or_whole cs (remove_prefix (codes "docker.io/") cs) in
    let short = or_whole value (remove_prefix (codes "library/") value) in
    if contains short b'/' then value else short

-- `:([A-Za-z0-9_][A-Za-z0-9_.-]{0,127})`
abbrev tag_pattern : Regex
tag_pattern = cat (literal ":") (
    cat (one (λ c. alphanumeric c || eqb c b'_'))
      (rep 0 127 (one (λ c. alphanumeric c || (eqb c b'_' || (eqb c b'.' || eqb c b'-'))))))

-- `@(sha256:[0-9a-f]{64})`
abbrev digest_pattern : Regex
digest_pattern = cat (literal "@sha256:") (rep 64 64 (one is_hex_digit))

abbrev behind : List ℕ → List ℕ
behind [] = []
behind (c ∷ cs) = cs

-- The split with `before` as the repository, where what follows it matches.
ends_here : List ℕ → List ℕ → Option (List ℕ × Option (List ℕ))
unfolding matches
ends_here [] cs = none
ends_here (b ∷ bs) cs =
    if matches tag_pattern cs
    then some (b ∷ bs, none)
    else (if matches digest_pattern cs then some (b ∷ bs, some (behind cs)) else none)

-- The first split from `before` on; the pattern's `.` reads no newline.
split_at : List ℕ → List ℕ → Option (List ℕ × Option (List ℕ))
unfolding ends_here
split_at before [] = none
split_at before (c ∷ cs) =
    let further = split_at (before ++ (c ∷ [])) cs in
    elim (ends_here before (c ∷ cs)) [ some p ↦ some p | none ↦ if eqb c 10 then none else further ]

-- The repository and the digest of a requested image.
unfoldable pub split_image : String → Option (List ℕ × Option (List ℕ))
unfolding split_at
split_image s = split_at [] (codes s)

-- The parts before and behind the first `@`.
unfoldable pub split_digest : List ℕ → Option (List ℕ × List ℕ)
split_digest [] = none
split_digest (c ∷ cs) =
    let rest = split_digest cs in
    if eqb c b'@'
    then some ([], cs)
    else (elim rest [ none ↦ none | some (r, d) ↦ some (c ∷ r, d) ])

unfoldable pub ends_with : List ℕ → List ℕ → Bool
unfolding same_text
ends_with [] tail = same_text [] tail
ends_with (c ∷ cs) tail = same_text (c ∷ cs) tail || ends_with cs tail

code_le : List ℕ → List ℕ → Bool
code_le [] ds = true
code_le (c ∷ cs) [] = false
code_le (c ∷ cs) (d ∷ ds) = ltb c d || (eqb c d && code_le cs ds)

insert : String → List String → List String
unfolding code_le
insert s [] = s ∷ []
insert s (t ∷ ts) = if code_le (codes s) (codes t) then s ∷ t ∷ ts else t ∷ insert s ts

-- `sorted(names)`
unfoldable pub sorted : List String → List String
unfolding insert
sorted [] = []
sorted (s ∷ ss) = insert s (sorted ss)

contains-insert :
    (s x : String) (ss : List String) → contains (insert s ss) x ≡ (x == s || contains ss x)
unfolding insert
contains-insert s x [] = refl
contains-insert s x (t ∷ ts) = ground (arith, contains-insert s x ts)

pub contains-sorted : (x : String) (ss : List String) → contains (sorted ss) x ≡ contains ss x
unfolding sorted
contains-sorted x [] = refl
contains-sorted x (s ∷ ss) =
    contains-insert s x (sorted ss) ∙ ap (λ b. x == s || b) (contains-sorted x ss)
