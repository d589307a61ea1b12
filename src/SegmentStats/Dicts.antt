-- ===== src/SegmentStats/Dicts.antt =====
-- The dicts of training/segment_stats.py.
use map_service_infra.Base.{
  ℕ, zero, suc, ◌+◌, String, ◌≡◌, refl, ◌∙◌, ap, Bool, true, false, [], ◌∷◌, ◌==◌, string_eq, arith,
  if◌then◌else◌, eq_of_==,
}
use map_service_infra.SegmentStats.{Dict, get, update, bump, bump_in}

pub ==_sym_false : (j k : String) → (j == k) ≡ false → (k == j) ≡ false
==_sym_false j k e = ground arith

module _ {A : Type 0} where
  pub get-update :
      (d : A) (j k : String) (f : A → A) (m : Dict A)
      → get d j (update d k f m) ≡ (if k == j then f (get d k m) else get d j m)
  unfolding get update
  get-update d j k f [] = refl
  get-update d j k f ((i, v) ∷ rest) = ground (arith, get-update d j k f rest)

  -- The key is not in the dict.
  abbrev pub Fresh : String → Dict A → Type 0
  Fresh k [] = Unit {0}
  Fresh k ((j, v) ∷ rest) = ((j == k) ≡ false) × Fresh k rest

  abbrev pub Distinct : Dict A → Type 0
  Distinct [] = Unit {0}
  Distinct ((k, v) ∷ rest) = Fresh k rest × Distinct rest

  pub get-Fresh : (d : A) (k : String) (m : Dict A) → Fresh k m → get d k m ≡ d
  unfolding get
  get-Fresh d k [] n = refl
  get-Fresh d k ((j, v) ∷ rest) n = rw n.0 (get-Fresh d k rest n.1)

  Fresh-update :
      (d : A) (j k : String) (f : A → A) (m : Dict A)
      → (k == j) ≡ false
      → Fresh j m
      → Fresh j (update d k f m)
  unfolding update
  Fresh-update d j k f [] e n = (e, tt)
  Fresh-update d j k f ((i, v) ∷ rest) e n = cases (Fresh-update d j k f rest e n.1) (i == k)
    where
      cases :
          Fresh j (update d k f rest)
          → (b : Bool) → Fresh j (if b then (i, f v) ∷ rest else (i, v) ∷ update d k f rest)
      cases more true = n
      cases more false = (n.0, more)

  pub Distinct-update :
      (d : A) (k : String) (f : A → A) (m : Dict A) → Distinct m → Distinct (update d k f m)
  unfolding update
  Distinct-update d k f [] n = (tt, tt)
  Distinct-update d k f ((i, v) ∷ rest) n = cases (Distinct-update d k f rest n.1) (i == k) refl
    where
      cases :
          Distinct (update d k f rest)
          → (b : Bool) → (i == k) ≡ b
          → Distinct (if b then (i, f v) ∷ rest else (i, v) ∷ update d k f rest)
      cases more true e = n
      cases more false e = (Fresh-update d i k f rest (==_sym_false i k e) n.0, more)

  -- Every value satisfies `P`.
  abbrev pub Values : (A → Type 0) → Dict A → Type 0
  Values P [] = Unit {0}
  Values P ((k, v) ∷ rest) = P v × Values P rest

  pub Values-update :
      (P : A → Type 0) (d : A) (k : String) (f : A → A) (m : Dict A)
      → ((v : A) → P v → P (f v))
      → P d
      → Values P m
      → Values P (update d k f m)
  unfolding update
  Values-update P d k f [] keeps start n = (keeps d start, tt)
  Values-update P d k f ((i, v) ∷ rest) keeps start n =
      cases (Values-update P d k f rest keeps start n.1) (i == k)
    where
      cases :
          Values P (update d k f rest)
          → (b : Bool) → Values P (if b then (i, f v) ∷ rest else (i, v) ∷ update d k f rest)
      cases more true = (keeps v n.0, n.1)
      cases more false = (n.0, more)

-- A dict of dicts without repeated keys.
abbrev pub Nested : Dict (Dict ℕ) → Type 0
Nested m = Distinct m × Values Distinct m

pub Nested-bump_in : (k cid : String) (m : Dict (Dict ℕ)) → Nested m → Nested (bump_in k cid m)
unfolding bump_in bump
Nested-bump_in k cid m n = (
  Distinct-update [] k (bump cid) m n.0,
  Values-update Distinct [] k (bump cid) m (λ v d. Distinct-update zero cid suc v d) tt n.1,
)

-- `counts[key][cid]`
abbrev pub count_of : String → String → Dict (Dict ℕ) → ℕ
count_of k cid m = get zero cid (get [] k m)

-- One if both keys are those.
abbrev pub one_at : Bool → Bool → ℕ
one_at true true = 1
one_at _ _ = 0

zero_plus : (n : ℕ) → n ≡ 0 + n
zero_plus n = omega arith

one_plus : (n : ℕ) → suc n ≡ 1 + n
one_plus n = omega arith

pub one_at-false : (b : Bool) → one_at b false ≡ 0
one_at-false true = refl
one_at-false false = refl

bump_lem :
    (c cid : String) (x : Dict ℕ)
    → get zero cid (bump c x) ≡ one_at true (c == cid) + get zero cid x
unfolding bump
bump_lem c cid x = cases (c == cid) refl (get-update zero cid c suc x)
  where
    cases :
        (b : Bool)
        → (c == cid) ≡ b
        → get zero cid (update zero c suc x) ≡ (if b then suc (get zero c x) else get zero cid x)
        → get zero cid (update zero c suc x) ≡ one_at true b + get zero cid x
    cases true e g = g ∙ (ap (λ n. suc (get zero n x)) (eq_of_== c cid e) ∙ one_plus _)
    cases false e g = g ∙ zero_plus _

pub count_of-bump_in :
    (k cid j c : String) (m : Dict (Dict ℕ))
    → count_of k cid (bump_in j c m) ≡ one_at (j == k) (c == cid) + count_of k cid m
unfolding bump_in
count_of-bump_in k cid j c m = cases (j == k) refl (get-update [] k j (bump c) m)
  where
    cases :
        (b : Bool)
        → (j == k) ≡ b
        → get [] k (update [] j (bump c) m) ≡ (if b then bump c (get [] j m) else get [] k m)
        → count_of k cid (update [] j (bump c) m) ≡ one_at b (c == cid) + count_of k cid m
    cases true e g =
        ap (get zero cid) g
        ∙ (bump_lem c cid (get [] j m)
            ∙ ap (λ n. one_at true (c == cid) + get zero cid (get [] n m)) (eq_of_== j k e))
    cases false e g = ap (get zero cid) g ∙ zero_plus _
