-- ===== src/ReleaseManifest/Reference.antt =====
-- The name of a source branch or tag, `validate_ref` of scripts/release_manifest.py.
use map_service_infra.Base.{
  ℕ, String, Bool, true, false, not, ◌&&◌, ◌||◌, List, [], ◌∷◌, if◌then◌else◌, codes, eqb,
}
use map_service_infra.Base.Lists.{all_of}
use map_service_infra.Base.Regex.{Regex, one, cat, rep, full_match, alphanumeric}

abbrev pub Text : Type 0
Text = List ℕ

-- `part in value`
begins : Text → Text → Bool
begins [] cs = true
begins (p ∷ ps) [] = false
begins (p ∷ ps) (c ∷ cs) = eqb p c && begins ps cs

occurs : Text → Text → Bool
unfolding begins
occurs part [] = begins part []
occurs part (c ∷ cs) = begins part (c ∷ cs) || occurs part cs

ends : Text → Text → Bool
unfolding begins
ends tail [] = begins tail []
ends tail (c ∷ cs) = (begins tail (c ∷ cs) && begins (c ∷ cs) tail) || ends tail cs

push_first : ℕ → List Text → List Text
push_first c [] = (c ∷ []) ∷ []
push_first c (t ∷ ts) = (c ∷ t) ∷ ts

-- `value.split("/")`
split_slash : Text → List Text
unfolding push_first
split_slash [] = [] ∷ []
split_slash (c ∷ cs) =
    let rest = split_slash cs in if eqb c b'/' then [] ∷ rest else push_first c rest

is_part : Text → Bool
unfolding begins ends
is_part [] = false
is_part (c ∷ cs) =
    not (eqb c b'.') && not (ends (codes ".lock") (c ∷ cs) || ends (codes ".") (c ∷ cs))

ref_pattern : Regex
ref_pattern = cat (one alphanumeric) (
    rep 0 199
      (one (λ c. alphanumeric c || (eqb c b'.' || (eqb c b'_' || (eqb c b'/' || eqb c b'-'))))))

unfoldable pub validate_ref : String → Bool
unfolding full_match ref_pattern occurs is_part split_slash
validate_ref value =
    full_match ref_pattern value
    && (not (
          occurs (codes "..") (codes value)
          || (occurs (codes "//") (codes value) || occurs (codes "@{") (codes value)))
        && all_of is_part (split_slash (codes value)))
