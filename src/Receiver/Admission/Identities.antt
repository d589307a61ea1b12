-- ===== src/Receiver/Admission/Identities.antt =====
-- The image identities of an override that a deployment wrote (the regular expression of
-- `prior_rollback_compatible`) and the migration heads of `alembic heads`
-- (`verify_admin_rollback_compatibility`), scripts/deploy-gcp.py.
use map_service_infra.Base.{
  same_text, ℕ, String, Bool, true, false, ◌&&◌, ◌||◌, Option, none, some, List, [], ◌∷◌, ◌++◌,
  if◌then◌else◌, codes, eqb, after_prefix, hex_run,
}
use map_service_infra.Base.Regex.{lower, alphanumeric}
use map_service_infra.Receiver.Environments.{Text, Variables}

-- The name of a line `  name:` of an override.
name_of_line : List ℕ → List ℕ → Option (List ℕ)
name_of_line name [] = none
name_of_line name (c ∷ []) =
    if eqb c b':' then (elim name [ [] ↦ none | n ∷ ns ↦ some (n ∷ ns) ]) else none
name_of_line name (c ∷ d ∷ cs) =
    let rest = name_of_line (name ++ (c ∷ [])) (d ∷ cs) in
    if lower c || eqb c b'-' then rest else none

abbrev past : List ℕ → List ℕ → Option (List ℕ)
past [] cs = some cs
past (p ∷ ps) [] = none
past (p ∷ ps) (c ∷ cs) = if eqb p c then past ps cs else none

service_line : List ℕ → Option (List ℕ)
unfolding name_of_line
service_line line = elim (past (codes "  ") line) [ none ↦ none | some rest ↦ name_of_line [] rest ]

-- The image identity of a line `    image: sha256:...`.
image_line : List ℕ → Option (List ℕ)
unfolding after_prefix hex_run
image_line line = elim (past (codes "    image: ") line) [
  | none ↦ none
  | some rest ↦ if after_prefix (codes "sha256:") rest (hex_run 64) then some rest else none
]

entry_of : Text → Text → Text → Option (Text × Text)
unfolding service_line image_line same_text
entry_of a b c = elim (service_line a) [
  | none ↦ none
  | some name ↦
      if same_text b (codes "    build: !reset null")
      then (elim (image_line c) [ none ↦ none | some image ↦ some (name, image) ])
      else none
]

-- `re.findall` of the pinned identities in the lines of an override.
unfoldable pub identities : List Text → Variables
unfolding entry_of
identities (a ∷ b ∷ c ∷ rest) =
    let more = identities (b ∷ c ∷ rest) in
    elim (entry_of a b c) [ none ↦ more | some entry ↦ entry ∷ identities rest ]
identities _ = []

-- The last identity of a service, as a dict's `update` leaves it.
identity_in : Text → Variables → Option Text
unfolding same_text
identity_in service [] = none
identity_in service ((k, v) ∷ rest) = elim (identity_in service rest) [
  | some later ↦ some later
  | none ↦ if same_text k service then some v else none
]

-- The identities of the services, where each has one.
unfoldable pub all_identities : Variables → List String → Option (List Text)
unfolding identity_in
all_identities found [] = some []
all_identities found (s ∷ ss) =
    let rest = all_identities found ss in
    elim (identity_in (codes s) found) [
      | none ↦ none
      | some i ↦ elim rest [ none ↦ none | some is ↦ some (i ∷ is) ]
    ]

word : ℕ → Bool
word c = alphanumeric c || eqb c b'_'

-- A head of `alembic heads`, `^([A-Za-z0-9_]+) \(head\)`.
head_of : Text → Text → Option Text
unfolding word
head_of name [] = none
head_of name (c ∷ cs) =
    let further = head_of (name ++ (c ∷ [])) cs in
    if word c then further else (elim name [
      | [] ↦ none
      | n ∷ ns ↦ elim (past (codes " (head)") (c ∷ cs)) [ none ↦ none | some rest ↦ some (n ∷ ns) ]
    ])

unfoldable pub heads_of : List String → List Text
unfolding head_of
heads_of [] = []
heads_of (l ∷ ls) =
    let more = heads_of ls in elim (head_of [] (codes l)) [ none ↦ more | some h ↦ h ∷ more ]

all_same : Text → List Text → Bool
unfolding same_text
all_same t [] = true
all_same t (u ∷ us) = same_text u t && all_same t us

-- `len(heads[0]) == 1 and heads[0] == heads[1]`, of sets.
unfoldable pub same_head : List Text → List Text → Bool
unfolding all_same
same_head (t ∷ ts) (u ∷ us) = all_same t ts && all_same t (u ∷ us)
same_head _ _ = false
