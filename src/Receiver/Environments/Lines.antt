-- ===== src/Receiver/Environments/Lines.antt =====
-- The line ends of an environment (scripts/deploy-gcp.py, `updated_environment`).
use map_service_infra.Base.{
  ℕ, ◌≡◌, refl, subst, Bool, true, false, List, [], ◌∷◌, ◌++◌, eqb, not, ◌&&◌, arith, if◌then◌else◌,
}
use map_service_infra.Base.Lists.{All, keep}
use map_service_infra.Base.Result.{ok, err, coded}
use map_service_infra.Receiver.Environments.{
  Text, is_end, begins_line_feed, attach, split_lines, sets, line_of, ends_line, ended,
  replace_line, set_key,
}

-- The line ends with one of the line ends of `str.splitlines`.
closes : Text → Bool
unfolding is_end
closes [] = false
closes (c ∷ []) = is_end c
closes (c ∷ d ∷ cs) = closes (d ∷ cs)

-- Every line but the last does.
pub AreLines : List Text → Type 0
unfolding closes
AreLines [] = Unit {0}
AreLines (l ∷ []) = Unit {0}
AreLines (l ∷ m ∷ ls) = (closes l ≡ true) × AreLines (m ∷ ls)

before : (l : Text) (ls : List Text) → closes l ≡ true → AreLines ls → AreLines (l ∷ ls)
unfolding AreLines
before l [] e j = tt
before l (m ∷ ls) e j = (e, j)

longer : (c : ℕ) (l : Text) → closes l ≡ true → closes (c ∷ l) ≡ true
unfolding closes
longer c [] e = absurd (ground (arith, e))
longer c (d ∷ l) e = e

attach-AreLines : (c : ℕ) (ls : List Text) → AreLines ls → AreLines (attach c ls)
unfolding AreLines attach
attach-AreLines c [] j = tt
attach-AreLines c (l ∷ []) j = tt
attach-AreLines c (l ∷ m ∷ ls) j = (longer c l j.0, j.1)

cut :
    (e b : Bool) (c : ℕ) (ls : List Text)
    → is_end c ≡ e
    → AreLines ls
    → AreLines (if e && b then (c ∷ []) ∷ ls else attach c ls)
unfolding closes
cut true true c ls e j = before (c ∷ []) ls e j
cut true false c ls e j = attach-AreLines c ls j
cut false b c ls e j = attach-AreLines c ls j

pub split_lines-AreLines : (x : Text) → AreLines (split_lines x)
unfolding split_lines AreLines
split_lines-AreLines [] = tt
split_lines-AreLines (c ∷ cs) =
    cut (is_end c) (not (eqb c 13 && begins_line_feed cs)) c (split_lines cs) refl
      (split_lines-AreLines cs)

closes-append : (xs ys : Text) → closes ys ≡ true → closes (xs ++ ys) ≡ true
closes-append [] ys e = e
closes-append (x ∷ xs) ys e = longer x (xs ++ ys) (closes-append xs ys e)

line_of-closes : (k v : Text) → closes (line_of k v) ≡ true
unfolding closes is_end
line_of-closes k v =
    closes-append k (b'=' ∷ (v ++ (10 ∷ [])))
      (longer b'=' (v ++ (10 ∷ [])) (closes-append v (10 ∷ []) refl))

closes-ends_line : (l : Text) → ends_line l ≡ true → closes l ≡ true
unfolding closes ends_line is_end
closes-ends_line [] e = e
closes-ends_line (c ∷ []) e = ground (arith, e)
closes-ends_line (c ∷ d ∷ l) e = closes-ends_line (d ∷ l) e

abbrev AllClose : List Text → Type 0
AllClose ls = All (λ l. closes l ≡ true) ls

closes-ended : (ls : List Text) → AreLines ls → AllClose (ended ls)
unfolding ended AreLines closes is_end
closes-ended [] j = tt
closes-ended (l ∷ []) j = (last (ends_line l) refl, tt)
  where
    last : (b : Bool) → ends_line l ≡ b → closes (if b then l else l ++ (10 ∷ [])) ≡ true
    last true e = closes-ends_line l e
    last false e = closes-append l (10 ∷ []) refl
closes-ended (l ∷ m ∷ ls) j = (j.0, closes-ended (m ∷ ls) j.1)

AreLines-last : (ls : List Text) (y : Text) → AllClose ls → AreLines (ls ++ (y ∷ []))
unfolding AreLines
AreLines-last [] y j = tt
AreLines-last (l ∷ ls) y j = before l (ls ++ (y ∷ [])) j.0 (AreLines-last ls y j.1)

AreLines-replace_line : (k v : Text) (ls : List Text) → AreLines ls → AreLines (replace_line k v ls)
unfolding AreLines replace_line
AreLines-replace_line k v [] j = tt
AreLines-replace_line k v (l ∷ []) j = tt
AreLines-replace_line k v (l ∷ m ∷ ls) j =
    (one (sets k l) j.0, AreLines-replace_line k v (m ∷ ls) j.1)
  where
    one : (b : Bool) → closes l ≡ true → closes (if b then line_of k v else l) ≡ true
    one true e = line_of-closes k v
    one false e = e

pub set_key-AreLines :
    (k v : Text) (ls out : List Text) → set_key k v ls ≡ ok out → AreLines ls → AreLines out
unfolding set_key
set_key-AreLines k v ls out e j = by_count (keep (sets k) ls) e
  where
    same : (o : List Text) → ok o ≡ ok out → o ≡ out
    same o r = ground (arith, r)

    by_count :
        (found : List Text)
        → (elim found [
          | [] ↦ ok (ended ls ++ (line_of k v ∷ []))
          | l ∷ [] ↦ ok (replace_line k v ls)
          | l ∷ m ∷ ms ↦ err (coded "duplicate image environment key")
        ])
          ≡ ok out
        → AreLines out
    by_count [] r =
        subst AreLines (same _ r) (AreLines-last (ended ls) (line_of k v) (closes-ended ls j))
    by_count (l ∷ []) r = subst AreLines (same _ r) (AreLines-replace_line k v ls j)
    by_count (l ∷ m ∷ ms) r = absurd (ground (arith, r))
