-- ===== src/Receiver/Environments/Updated.antt =====
-- The lines of an environment that was updated (scripts/deploy-gcp.py, `updated_environment`).
use map_service_infra.Base.{
  lstrip, String, ◌≡◌, Bool, true, false, Option, none, some, List, [], ◌∷◌, ◌++◌, codes, eqb,
}
use map_service_infra.Base.Lists.{All, keep}
use map_service_infra.Base.Result.{Result, ok}
use map_service_infra.Receiver.Environments.{
  Text, after_key, begins_equals, sets, line_of, ends_line, set_key, joined,
}
use map_service_infra.Receiver.Environments.Lines.{AreLines}

-- A line with its end, without what is white space at its beginning.
abbrev closed : Text → Text
closed [] = []
closed (c ∷ cs) = (c ∷ cs) ++ (10 ∷ [])

-- No character of the key is a line feed.
abbrev IsPlain : Text → Type 0
IsPlain k = All (λ c. eqb c 10 ≡ false) k

end_after : Option Text → Option Text
end_after none = none
end_after (some r) = some (r ++ (10 ∷ []))

-- What follows the key.
tail_sets : Option Text → Bool
tail_sets none = false
tail_sets (some r) = begins_equals (lstrip r)

-- A line of one key is none of the other.
abbrev Apart : Text → Text → Type 0
Apart k other = (l : Text) → sets k l ≡ true → sets other l ≡ false

-- What makes two keys independent of each other's lines.
record IsKey (k v other : Text) : Type 0 where
  plain : IsPlain k
  unfinished : tail_sets (after_key k []) ≡ false
  own : sets k (line_of k v) ≡ true
  foreign : sets other (line_of k v) ≡ false
  apart : (l : Text) → sets k l ≡ true → sets other l ≡ false
  other_plain : IsPlain other
  other_unfinished : tail_sets (after_key other []) ≡ false

-- One line of the key, and the other key's lines as before where they have their ends.
abbrev OneLine : Text → Text → Text → List Text → List Text → Type 0
OneLine k v other ls out =
    (keep (sets k) out ≡ line_of k v ∷ [])
    × (All (λ l. ends_line l ≡ true) (keep (sets other) ls)
        → keep (sets other) out ≡ keep (sets other) ls)

abbrev pub image_registry : Text
image_registry = codes "IMAGE_REGISTRY"

abbrev pub image_tag : Text
image_tag = codes "IMAGE_TAG"

abbrev pub registry : Text
registry = codes "ghcr.io/we-meet-trip"

-- The two rounds of the loop.
abbrev Rounds : String → List Text → List Text → Type 0
Rounds tag ls out =
    (middle : List Text) × ((set_key image_registry registry ls ≡ ok middle)
      × (set_key image_tag (codes tag) middle ≡ ok out))

-- One line for the tag and one for the registry, those of the release.
abbrev pub Released : String → List Text → Type 0
Released tag out =
    (keep (sets image_tag) out ≡ line_of image_tag (codes tag) ∷ [])
    × (keep (sets image_registry) out ≡ line_of image_registry registry ∷ [])

-- The text of lines of which each but the last ends with a line end, as the release wants them.
abbrev pub IsUpdated : String → Text → Type 0
IsUpdated tag text = (out : List Text) × ((joined out ≡ text) × (AreLines out × Released tag out))
