-- ===== src/Base/Regex.antt =====
-- The regular expressions of the standard library's `re` that the programs use with `fullmatch`, by
-- derivatives: `full_match` reads the text once.
use Prim.Native.Nat.{ℕ, zero, suc, ◌-◌}
use Prim.Native.String.{String}
use mathlib.Core.Bool.{Bool, true, false, ◌&&◌, ◌||◌}
use mathlib.Core.List.{List, [], ◌∷◌}
use map_service_infra.Base.Tests.{leb, eqb, if◌then◌else◌}
use map_service_infra.Base.Texts.{codes, is_hex_digit}

-- `rep m n r` is `r{m,n}`.
pub data Regex : Type 0 where
  never empty : Regex
  one : (ℕ → Bool) → Regex
  cat alt : Regex → Regex → Regex
  star : Regex → Regex
  rep : ℕ → ℕ → Regex → Regex

nullable : Regex → Bool
nullable never = false
nullable empty = true
nullable (one p) = false
nullable (cat r s) = nullable r && nullable s
nullable (alt r s) = nullable r || nullable s
nullable (star r) = true
nullable (rep m n r) = eqb m 0 || nullable r

-- Concatenation, pruned.
then_ : Regex → Regex → Regex
then_ never s = never
then_ empty s = s
then_ r s = cat r s

either : Regex → Regex → Regex
either never s = s
either r never = r
either r s = alt r s

-- What may follow the character `c`.
after : Regex → ℕ → Regex
unfolding nullable then_ either
after never c = never
after empty c = never
after (one p) c = if p c then empty else never
after (cat r s) c = either (then_ (after r c) s) (if nullable r then after s c else never)
after (alt r s) c = either (after r c) (after s c)
after (star r) c = then_ (after r c) (star r)
after (rep m zero r) c = never
after (rep m (suc n) r) c = then_ (after r c) (rep (m - 1) n r)

unfoldable pub matches : Regex → List ℕ → Bool
unfolding after nullable
matches r [] = nullable r
matches r (c ∷ cs) = matches (after r c) cs

-- `re.fullmatch(r, text)`
unfoldable pub full_match : Regex → String → Bool
unfolding matches
full_match r s = matches r (codes s)

abbrev literal_codes : List ℕ → Regex
literal_codes [] = empty
literal_codes (c ∷ cs) = cat (one (eqb c)) (literal_codes cs)

abbrev pub literal : String → Regex
literal s = literal_codes (codes s)

abbrev pub range : ℕ → ℕ → ℕ → Bool
range lo hi c = leb lo c && leb c hi

abbrev pub lower : ℕ → Bool
lower = range b'a' b'z'

abbrev pub upper : ℕ → Bool
upper = range b'A' b'Z'

abbrev pub digit : ℕ → Bool
digit = range b'0' b'9'

abbrev pub alphanumeric : ℕ → Bool
alphanumeric c = lower c || (upper c || digit c)

-- `[1-9][0-9]{0,19}`
abbrev pub run_number : Regex
run_number = cat (one (range b'1' b'9')) (rep 0 19 (one digit))

-- `[0-9a-f]{40}`
abbrev pub sha1 : Regex
sha1 = rep 40 40 (one is_hex_digit)

-- `r+`
abbrev pub some_of : Regex → Regex
some_of r = cat r (star r)

-- `r?`
abbrev pub maybe : Regex → Regex
maybe r = alt r empty
