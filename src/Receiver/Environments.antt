-- ===== src/Receiver/Environments.antt =====
-- The environments of a deployment, scripts/deploy-gcp.py: `backup_environment` reads one,
-- `updated_environment` sets the two image keys of another. Texts are lists of code points.
pub mod Updated
pub mod Lines
use map_service_infra.Base.{
  is_space, lstrip, same_text, ℕ, String, Bool, true, false, not, ◌&&◌, ◌||◌, Option, none, some,
  List, [], ◌∷◌, ◌++◌, ◌==◌, string_eq, if◌then◌else◌, codes, eqb, leb,
}
use map_service_infra.Base.Lists.{keep}
use map_service_infra.Base.Regex.{one, cat, rep, full_match, alphanumeric}
use map_service_infra.Base.Result.{Error, coded, Result, ok, err, require, ◌>>=◌, ◌>>◌}

abbrev pub Text : Type 0
Text = List ℕ

pub text_in : Text → List Text → Bool
unfolding same_text
text_in t [] = false
text_in t (u ∷ us) = same_text u t || text_in t us

-- `text.partition("=")`, `none` where there is no separator.
pub partition : Text → Option (Text × Text)
partition [] = none
partition (c ∷ cs) =
    let rest = partition cs in
    if eqb c b'='
    then some ([], cs)
    else (elim rest [ none ↦ none | some (k, v) ↦ some (c ∷ k, v) ])

abbrev pub Variables : Type 0
Variables = List (Text × Text)

abbrev pub variable_names : Variables → List Text
variable_names [] = []
variable_names ((k, v) ∷ rest) = k ∷ variable_names rest

-- A line with nothing but a comment or space.
pub is_skipped : Text → Bool
unfolding lstrip
is_skipped line = elim (lstrip line) [ [] ↦ true | c ∷ cs ↦ eqb c b'#' ]

pub allowed : List Text
allowed =
    codes "BACKUP_DIR"
    ∷ codes "BACKUP_REMOTE"
    ∷ codes "BACKUP_S3_ENDPOINT"
    ∷ codes "BACKUP_REQUIRE_REMOTE"
    ∷ codes "RETAIN_DAYS"
    ∷ codes "BACKUP_GCP_CREDENTIALS_FILE"
    ∷ []

abbrev line_error : Error
line_error = coded "invalid backup configuration"

has_zero : Text → Bool
has_zero [] = false
has_zero (c ∷ cs) = eqb c 0 || has_zero cs

pub assignment : List Text → Text → Result (Text × Text)
unfolding partition text_in allowed has_zero
assignment taken line = elim (partition line) [
  | none ↦ err line_error
  | some (k, v) ↦
      if text_in k allowed && not (text_in k taken)
      then (if not (has_zero v)
          then ok (k, v)
          else err (coded "invalid backup configuration value"))
      else err line_error
]

-- The loop over the lines.
pub read_lines : Variables → List Text → Result Variables
unfolding is_skipped assignment
read_lines env [] = ok env
read_lines env (line ∷ rest) =
    let skipped = read_lines env rest in
    if is_skipped line
    then skipped
    else (assignment (variable_names env) line >>= λ a. read_lines (env ++ (a ∷ [])) rest)

-- `env[key] = value`
assign : Text → Text → Variables → Variables
unfolding same_text
assign key value [] = (key, value) ∷ []
assign key value ((k, v) ∷ rest) =
    if same_text k key then (k, value) ∷ rest else (k, v) ∷ assign key value rest

has_value : Text → Variables → Bool
unfolding same_text
has_value key [] = false
has_value key ((k, []) ∷ rest) = not (same_text k key) && has_value key rest
has_value key ((k, c ∷ cs) ∷ rest) = same_text k key || has_value key rest

fixed : Variables
fixed =
    (codes "PATH", codes "/usr/local/sbin:/usr/local/bin:/usr/sbin:/usr/bin:/sbin:/bin:/snap/bin")
    ∷ (codes "HOME", codes "/root")
    ∷ (codes "LANG", codes "C.UTF-8")
    ∷ (codes "PYTHONDONTWRITEBYTECODE", codes "1")
    ∷ []

-- The values of `backup_environment` for the lines of its file.
unfoldable pub backup_values : List Text → Result Variables
unfolding read_lines assign has_value fixed
backup_values lines = do
  read ← read_lines fixed lines
  let env = assign (codes "BACKUP_REQUIRE_REMOTE") (codes "1") read
  require (has_value (codes "BACKUP_REMOTE") env) "remote backup destination is required"
  ok env

after_key : Text → Text → Option Text
after_key [] cs = some cs
after_key (k ∷ ks) [] = none
after_key (k ∷ ks) (c ∷ cs) = let rest = after_key ks cs in if eqb k c then rest else none

begins_equals : Text → Bool
begins_equals [] = false
begins_equals (c ∷ cs) = eqb c b'='

-- `re.match(rf"^\s*{key}\s*=", line)`
pub sets : Text → Text → Bool
unfolding after_key lstrip begins_equals
sets key line = elim (after_key key (lstrip line)) [
  | none ↦ false
  | some rest ↦ begins_equals (lstrip rest)
]

abbrev pub line_of : Text → Text → Text
line_of key value = key ++ (b'=' ∷ (value ++ (10 ∷ [])))

ends_line : Text → Bool
ends_line [] = false
ends_line (c ∷ []) = eqb c 10
ends_line (c ∷ d ∷ cs) = ends_line (d ∷ cs)

-- The last line, with its end.
pub ended : List Text → List Text
unfolding ends_line
ended [] = []
ended (l ∷ []) = (if ends_line l then l else l ++ (10 ∷ [])) ∷ []
ended (l ∷ m ∷ ls) = l ∷ ended (m ∷ ls)

pub replace_line : Text → Text → List Text → List Text
unfolding sets
replace_line key value [] = []
replace_line key value (l ∷ ls) =
    (if sets key l then line_of key value else l) ∷ replace_line key value ls

-- One round of the loop of `updated_environment`.
pub set_key : Text → Text → List Text → Result (List Text)
unfolding replace_line ended keep
set_key key value lines = elim (keep (sets key) lines) [
  | [] ↦ ok (ended lines ++ (line_of key value ∷ []))
  | l ∷ [] ↦ ok (replace_line key value lines)
  | l ∷ m ∷ ms ↦ err (coded "duplicate image environment key")
]

-- `validate_tag` of scripts/release_manifest.py
unfoldable pub is_release_tag : String → Bool
unfolding full_match
is_release_tag tag =
    full_match
      (cat (one (λ c. alphanumeric c || eqb c b'_'))
        (rep 0 127 (one (λ c. alphanumeric c || (eqb c b'_' || (eqb c b'.' || eqb c b'-'))))))
      tag
    && not (tag == "latest" || (tag == "develop" || tag == "master"))

-- `updated_environment` on the lines with their ends.
unfoldable pub updated_lines : String → List Text → Result (List Text)
unfolding is_release_tag set_key
updated_lines tag lines = do
  require (is_release_tag tag) "invalid release tag"
  registry ← set_key (codes "IMAGE_REGISTRY") (codes "ghcr.io/we-meet-trip") lines
  set_key (codes "IMAGE_TAG") (codes tag) registry

-- A line end of `str.splitlines` other than the pair of a carriage return and a newline.
is_end : ℕ → Bool
is_end c = (leb 10 c && leb c 13) || (leb 28 c && leb c 30) || eqb c 133 || eqb c 8232 || eqb c 8233

begins_line_feed : Text → Bool
begins_line_feed [] = false
begins_line_feed (c ∷ cs) = eqb c 10

attach : ℕ → List Text → List Text
attach c [] = (c ∷ []) ∷ []
attach c (l ∷ ls) = (c ∷ l) ∷ ls

-- `text.splitlines(keepends=True)`
pub split_lines : Text → List Text
unfolding is_end begins_line_feed attach
split_lines [] = []
split_lines (c ∷ cs) =
    let lines = split_lines cs in
    if is_end c && not (eqb c 13 && begins_line_feed cs) then (c ∷ []) ∷ lines else attach c lines

-- `"".join(lines)`
pub joined : List Text → Text
joined [] = []
joined (l ∷ ls) = l ++ joined ls

unfoldable pub updated_environment : String → Text → Result Text
unfolding split_lines updated_lines joined
updated_environment tag original =
    updated_lines tag (split_lines original) >>= λ lines. ok (joined lines)
