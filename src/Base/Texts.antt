-- ===== src/Base/Texts.antt =====
-- Texts as the code points that the source's patterns read.
use Prim.Native.Nat.{ℕ, zero, suc}
use Prim.Native.Char.{code}
use Prim.Native.String.{String}
use mathlib.Core.Bool.{Bool, true, false, ◌&&◌, ◌||◌}
use mathlib.Core.List.{List, [], ◌∷◌}
use map_service_infra.Base.Tests.{leb, eqb, if◌then◌else◌}

abbrev pub codes : String → List ℕ
codes String.[] = []
codes (String.◌∷◌ c s) = code c ∷ codes s

-- A character of `[a-f0-9]`.
abbrev pub is_hex_digit : ℕ → Bool
is_hex_digit c = (leb b'0' c && leb c b'9') || (leb b'a' c && leb c b'f')

-- `re.fullmatch('[a-f0-9]{n}', text)`
unfoldable pub hex_run : ℕ → List ℕ → Bool
hex_run zero [] = true
hex_run zero (c ∷ cs) = false
hex_run (suc n) [] = false
hex_run (suc n) (c ∷ cs) = is_hex_digit c && hex_run n cs

-- What follows a literal prefix, `false` where the text does not begin with it.
unfoldable pub after_prefix : List ℕ → List ℕ → (List ℕ → Bool) → Bool
after_prefix [] cs k = k cs
after_prefix (p ∷ ps) [] k = false
after_prefix (p ∷ ps) (c ∷ cs) k = eqb p c && after_prefix ps cs k

-- `re.fullmatch('[a-f0-9]{64}', text)`
unfoldable pub is_hex64 : String → Bool
unfolding hex_run
is_hex64 s = hex_run 64 (codes s)

-- `re.fullmatch('sha256:[a-f0-9]{64}', text)`
unfoldable pub is_sha256 : String → Bool
unfolding after_prefix hex_run
is_sha256 s = after_prefix (codes "sha256:") (codes s) (hex_run 64)

-- Whether two texts are the same.
unfoldable pub same_text : List ℕ → List ℕ → Bool
same_text [] [] = true
same_text [] (d ∷ ds) = false
same_text (c ∷ cs) [] = false
same_text (c ∷ cs) (d ∷ ds) = eqb c d && same_text cs ds

-- Python's white space, of `str.strip` and of `\s`.
unfoldable pub is_space : ℕ → Bool
is_space c =
    (leb 9 c && leb c 13)
    || (leb 28 c && leb c 32)
    || eqb c 133
    || eqb c 160
    || eqb c 5760
    || (leb 8192 c && leb c 8202)
    || eqb c 8232
    || eqb c 8233
    || eqb c 8239
    || eqb c 8287
    || eqb c 12288

-- `text.lstrip()`
unfoldable pub lstrip : List ℕ → List ℕ
unfolding is_space
lstrip [] = []
lstrip (c ∷ cs) = let rest = lstrip cs in if is_space c then rest else c ∷ cs

-- `text.rstrip()`
rstrip : List ℕ → List ℕ
unfolding is_space
rstrip [] = []
rstrip (c ∷ cs) = elim (rstrip cs) [ [] ↦ if is_space c then [] else c ∷ [] | d ∷ ds ↦ c ∷ d ∷ ds ]

-- `text.strip()`
unfoldable pub strip : List ℕ → List ℕ
unfolding lstrip rstrip
strip cs = lstrip (rstrip cs)
