-- ===== src/ReleaseManifest/Images.antt =====
-- The images of the manifest of scripts/release_manifest.py, against what scripts/deploy-gcp.py reads.
use Prim.Native.Char.{code}
use Prim.Native.String.append.{nil, cons}
use map_service_infra.Base.{
  ℕ, String, ◌<>◌, ◌==◌, string_eq, option_eq, ◌≡◌, refl, ◌∙◌, ap, sym, subst, Bool, true, false,
  Option, none, some, List, [], ◌∷◌, ◌++◌, codes, hex_run, is_sha256, after_prefix, arith, map,
}
use map_service_infra.Base.Json.{Json, text, object, Fields, get, exact_keys}
use map_service_infra.Base.Result.{Result, ok, err, require, ◌>>=◌}
use map_service_infra.CutoverWatchdog.Receipt.{is_image_of, six_services, images, exact_image_tuple}
use map_service_infra.Base.Lists.{All}
use map_service_infra.ReleaseManifest.{
  Entry, Manifest, Plain, Provenance, as_object, check_plain, check_provenance, check_services,
  check_dispatch, sha_of, fields_where, manifest_keys, registry, pinned, candidate_images, item,
  check_entry, check_entries, validate,
}

codes-<> : (s t : String) → codes (s <> t) ≡ codes s ++ codes t
codes-<> String.[] t = ap codes (nil t)
codes-<> (String.◌∷◌ c s) t = ap codes (cons c s t) ∙ ap (λ cs. code c ∷ cs) (codes-<> s t)

-- The image of an entry of the service, as its text is read.
image_lem :
    (s image digest : String)
    → after_prefix
        (codes ("ghcr.io/we-meet-trip/map-service-" <> (s <> "@sha256:")))
        (codes image ++ (codes "@" ++ codes digest))
        (hex_run 64)
      ≡ true
    → is_image_of s (image <> ("@" <> digest)) ≡ true
unfolding is_image_of
image_lem s image digest e =
    subst
      (λ cs.
        after_prefix (codes ("ghcr.io/we-meet-trip/map-service-" <> (s <> "@sha256:"))) cs
          (hex_run 64)
        ≡ true)
      (sym (codes-<> image ("@" <> digest) ∙ ap (λ cs. codes image ++ cs) (codes-<> "@" digest))) e

entry_facts :
    (s : String) (value : Json) (e : Entry)
    → check_entry s value ≡ ok e
    → (e.image ≡ registry <> ("/map-service-" <> s)) × (is_sha256 e.digest ≡ true)
unfolding check_entry
entry_facts s value e k = ground (arith, k)

-- Each entry has an image of its service.
abbrev AllImages : List String → List Entry → Type 0
AllImages [] [] = Unit {0}
AllImages (s ∷ ss) (e ∷ es) = (is_image_of s (pinned e) ≡ true) × AllImages ss es
AllImages _ _ = ⊥

-- The pattern of a service takes the image of the service with any digest.
abbrev IsLiteral : String → Type 0
IsLiteral s =
    (d : String)
    → is_sha256 d ≡ true
    → is_image_of s ((registry <> ("/map-service-" <> s)) <> ("@" <> d)) ≡ true

entry_image :
    (s : String) (value : Json) (e : Entry)
    → IsLiteral s
    → check_entry s value ≡ ok e
    → is_image_of s (pinned e) ≡ true
entry_image s value e lit k =
    subst (λ i. is_image_of s (i <> ("@" <> e.digest)) ≡ true) (sym (entry_facts s value e k).0)
      (lit e.digest (entry_facts s value e k).1)

-- The first entry and the others.
cons_facts :
    (s : String) (o : Option Json) (r : Result (List Entry)) (e : Entry) (es : List Entry)
    → (item o >>= λ v. check_entry s v >>= λ x. r >>= λ rest. ok (x ∷ rest)) ≡ ok (e ∷ es)
    → IsLiteral s
    → (is_image_of s (pinned e) ≡ true) × (r ≡ ok es)
cons_facts s none r e es q lit = absurd (ground (arith, q))
cons_facts s (some v) r e es q lit = (entry_image s v e lit (ground (arith, q)), ground (arith, q))

check_entries_lem :
    (ss : List String) (f : Fields) (es : List Entry)
    → All IsLiteral ss
    → check_entries ss f ≡ ok es
    → AllImages ss es
unfolding check_entries
check_entries_lem [] f [] lits k = tt
check_entries_lem [] f (e ∷ es) lits k = absurd (ground (arith, k))
check_entries_lem (s ∷ ss) f [] lits k = absurd (ground (arith, k))
check_entries_lem (s ∷ ss) f (e ∷ es) lits k = (facts.0, check_entries_lem ss f es lits.1 facts.1)
  where
    facts : (is_image_of s (pinned e) ≡ true) × (check_entries ss f ≡ ok es)
    facts = cons_facts s (get s f) (check_entries ss f) e es k lits.0

six_literals : All IsLiteral six_services
unfolding after_prefix is_sha256
six_literals = (
  λ d e. image_lem "user" (registry <> ("/map-service-" <> "user")) d e,
  (
    λ d e. image_lem "agent" (registry <> ("/map-service-" <> "agent")) d e,
    (
      λ d e. image_lem "hub" (registry <> ("/map-service-" <> "hub")) d e,
      (
        λ d e. image_lem "yolo" (registry <> ("/map-service-" <> "yolo")) d e,
        (
          λ d e. image_lem "admin" (registry <> ("/map-service-" <> "admin")) d e,
          (λ d e. image_lem "admin-web" (registry <> ("/map-service-" <> "admin-web")) d e, tt),
        ),
      ),
    ),
  ),
)

images_step :
    (s i : String) (ss is : List String) (f : Fields)
    → get s f ≡ some (text i)
    → is_image_of s i ≡ true
    → images ss f ≡ ok is
    → images (s ∷ ss) f ≡ ok (i ∷ is)
unfolding images
images_step s i ss is f g e k = ground (arith, g, e, k)

-- The tuple of such entries is exact.
exact_lem :
    (es : List Entry)
    → AllImages six_services es
    → exact_image_tuple (some (object (candidate_images six_services es))) ≡ ok (map pinned es)
unfolding exact_image_tuple candidate_images string_eq get exact_keys images
exact_lem (a ∷ b ∷ c ∷ d ∷ e ∷ f ∷ []) j =
    images_step "user" (pinned a) ("agent" ∷ "hub" ∷ "yolo" ∷ "admin" ∷ "admin-web" ∷ []) _ dict
      refl j.0
      (images_step "agent" (pinned b) ("hub" ∷ "yolo" ∷ "admin" ∷ "admin-web" ∷ []) _ dict refl
        j.1.0
        (images_step "hub" (pinned c) ("yolo" ∷ "admin" ∷ "admin-web" ∷ []) _ dict refl j.1.1.0 (
          images_step "yolo" (pinned d) ("admin" ∷ "admin-web" ∷ []) _ dict refl j.1.1.1.0 (
            images_step "admin" (pinned e) ("admin-web" ∷ []) _ dict refl j.1.1.1.1.0
              (images_step "admin-web" (pinned f) [] [] dict refl j.1.1.1.1.1.0 refl)))))
  where
    dict : Fields
    dict = candidate_images six_services (a ∷ b ∷ c ∷ d ∷ e ∷ f ∷ [])
exact_lem [] j = absurd j
exact_lem (a ∷ []) j = absurd j.1
exact_lem (a ∷ b ∷ []) j = absurd j.1.1
exact_lem (a ∷ b ∷ c ∷ []) j = absurd j.1.1.1
exact_lem (a ∷ b ∷ c ∷ d ∷ []) j = absurd j.1.1.1.1
exact_lem (a ∷ b ∷ c ∷ d ∷ e ∷ []) j = absurd j.1.1.1.1.1
exact_lem (a ∷ b ∷ c ∷ d ∷ e ∷ f ∷ g ∷ more) j = absurd j.1.1.1.1.1.1

-- The entries that are returned are those that were read.
same_entries :
    (b : Bool) (r : Result (List Entry)) (c : List Entry → Bool)
    (d : List Entry → Result (Unit {0})) (es : List Entry)
    → (require b "invalid services fields" >>= λ _. r >>= λ entries.
        require (c entries) "admin images must share source SHA" >>= λ _.
        d entries >>= λ _. ok entries)
      ≡ ok es
    → r ≡ ok es
same_entries false r c d es q = absurd (ground (arith, q))
same_entries true (err x) c d es q = absurd (ground (arith, q))
same_entries true (ok x) c d es q = ground (arith, q)

check_services_lem :
    (f : Fields) (p : Provenance) (es : List Entry)
    → check_services f p ≡ ok es
    → AllImages six_services es
unfolding check_services
check_services_lem f p es k = found (get "services" f) k
  where
    found :
        (o : Option Json)
        → (as_object o "invalid services fields" >>= λ given.
            require (exact_keys six_services given) "invalid services fields" >>= λ _.
            check_entries six_services given >>= λ entries.
            require
              (sha_of "admin" entries == sha_of "admin-web" entries)
              "admin images must share source SHA"
            >>= λ _. check_dispatch p.dispatched p.fields entries >>= λ _. ok entries)
          ≡ ok es
        → AllImages six_services es
    found (some (object g)) q = check_entries_lem six_services g es six_literals (
        same_entries (exact_keys six_services g) (check_entries six_services g)
          (λ entries. sha_of "admin" entries == sha_of "admin-web" entries)
          (λ entries. check_dispatch p.dispatched p.fields entries) es q)
    found _ q = absurd (ground (arith, q))

validate_lem :
    (utcoffset : String → Option (Option ℕ)) (value : Json) (m : Manifest)
    → validate utcoffset value ≡ ok m
    → AllImages six_services m.services
unfolding validate
validate_lem utcoffset value m k =
    found (fields_where manifest_keys value "invalid manifest fields") k
  where
    last :
        (f : Fields) (plain : Plain) (p : Provenance)
        → (check_services f p >>= λ es.
            ok (record { plain = plain; workflow_sha = p.workflow_sha; services = es }))
          ≡ ok m
        → AllImages six_services m.services
    last f plain p q = check_services_lem f p m.services (ground (arith, q))

    middle :
        (f : Fields) (plain : Plain) (r : Result Provenance)
        → (r >>= λ p. check_services f p >>= λ es.
            ok (record { plain = plain; workflow_sha = p.workflow_sha; services = es }))
          ≡ ok m
        → AllImages six_services m.services
    middle f plain (ok p) q = last f plain p q
    middle f plain (err e) q = absurd (ground (arith, q))

    second :
        (f : Fields) (r : Result Plain)
        → (r >>= λ plain. check_provenance f plain >>= λ p. check_services f p >>= λ es.
            ok (record { plain = plain; workflow_sha = p.workflow_sha; services = es }))
          ≡ ok m
        → AllImages six_services m.services
    second f (ok plain) q = middle f plain (check_provenance f plain) q
    second f (err e) q = absurd (ground (arith, q))

    found :
        (r : Result Fields)
        → (r >>= λ f. check_plain utcoffset f >>= λ plain. check_provenance f plain >>= λ p.
            check_services f p >>= λ es.
            ok (record { plain = plain; workflow_sha = p.workflow_sha; services = es }))
          ≡ ok m
        → AllImages six_services m.services
    found (ok f) q = second f (check_plain utcoffset f) q
    found (err e) q = absurd (ground (arith, q))

-- The images of a manifest that is accepted, each pinned by its digest, are an exact tuple for the
-- receiver of deployments: for each of the six services the fixed repository and a digest.
pub validate-exact_image_tuple :
    (utcoffset : String → Option (Option ℕ)) (value : Json) (m : Manifest)
    → validate utcoffset value ≡ ok m
    → exact_image_tuple (some (object (candidate_images six_services m.services)))
      ≡ ok (map pinned m.services)
validate-exact_image_tuple utcoffset value m k =
    exact_lem m.services (validate_lem utcoffset value m k)
