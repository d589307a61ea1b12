-- ===== src/Receiver/Admission/Verified.antt =====
-- When a deployment may roll back (scripts/deploy-gcp.py, `prior_rollback_compatible`).
use map_service_infra.Base.{
  same_text, String, ◌<>◌, ◌≡◌, ◌⊎◌, refl, subst, map, inl, inr, true, false, Option, none, some,
  List, [], ◌∷◌, ◌++◌, codes, arith,
}
use map_service_infra.Base.Lists.{In}
use map_service_infra.Base.Result.{Error, ok, coded, other}
use map_service_infra.Base.Exec.Rules.{
  Triple, Triple-bind, Triple-pure, Triple-raise, Triple-from, Triple-weaken, Triple-attempt,
  Triple-if, Triple-both, post_ok,
}
use map_service_infra.Base.World.{Trace, Triple-call}
use map_service_infra.Base.Quiet.{Stable, Keeps-quiet}
use map_service_infra.CutoverWatchdog.Receipt.{six_services}
use map_service_infra.Receiver.Model.{Host, Call, State, read, aside}
use map_service_infra.Receiver.Admission.Quiet.{pinned_in-IsQuiet, compatible-IsQuiet}
use map_service_infra.Receiver.Asked.{Asked, every, Asked-stable, Triple-Asked}
use map_service_infra.Receiver.Policies.{Policy}
use map_service_infra.Receiver.Environments.{Text, Variables}
use map_service_infra.Receiver.Admission.Identities.{all_identities, identities}
use map_service_infra.Receiver.Admission.{
  pinned_in, same_identities, refused, verified_tuple, compatible_with, prior_rollback_compatible,
}

abbrev pub id_args : String → List String
id_args image = "docker" ∷ "image" ∷ "inspect" ∷ "--format" ∷ "{{.Id}}" ∷ image ∷ []

false_true : {X : Type 0} → false ≡ true → X
false_true e = absurd (ground (arith, e))

module _ (h : Host) where
  -- Docker told an identity of the image that is the text.
  abbrev pub IsImage : String → Text → Trace Call → Type 0
  IsImage image i t =
      (id : String) × ((same_text (codes id) i ≡ true)
        × Asked (id_args image) (λ u. h.output (id_args image) u ≡ ok id) t)

  abbrev pub AllImages : List String → List Text → Trace Call → Type 0
  AllImages (image ∷ images) (i ∷ is) t = IsImage image i t × AllImages images is t
  AllImages [] [] t = Unit {0}
  AllImages _ _ t = ⊥

  -- One of the verified tuples has these identities.
  abbrev pub SomeVerified : List (List String) → List Text → Trace Call → Type 0
  SomeVerified tuples is t = (tuple : List String) × (In tuple tuples × AllImages tuple is t)

  AllImages-IsStable : (images : List String) (is : List Text) → Stable every (AllImages images is)
  AllImages-IsStable [] [] c done t k j = tt
  AllImages-IsStable [] (i ∷ is) c done t k j = j
  AllImages-IsStable (image ∷ images) [] c done t k j = j
  AllImages-IsStable (image ∷ images) (i ∷ is) c done t k j = (
    (j.0.0, (j.0.1.0, Asked-stable (id_args image) _ c done t k j.0.1.1)),
    AllImages-IsStable images is c done t k j.1,
  )

  same_identities_lem :
      (R : Trace Call → Type 0) (images : List String) (is : List Text)
      → Stable every R
      → Triple
          (λ w. R w.trace)
          (same_identities h images is)
          (λ same w. same ≡ true → R w.trace × AllImages images is w.trace)
          (λ _ _. Unit {0})
  unfolding same_identities
  same_identities_lem R [] [] stable = Triple-pure _ (λ w j e. (j, tt))
  same_identities_lem R [] (i ∷ is) stable = Triple-raise _ (λ w j. tt)
  same_identities_lem R (image ∷ images) [] stable = Triple-raise _ (λ w j. tt)
  same_identities_lem R (image ∷ images) (i ∷ is) stable =
      Triple-bind
        (λ id w.
          R w.trace × Asked (id_args image) (λ u. h.output (id_args image) u ≡ ok id) w.trace)
        (Triple-Asked R (id_args image) (h.output (id_args image)) stable (λ e w. tt))
        (λ id.
          Triple-if (same_text (codes id) i)
            (λ e.
              Triple-from (λ w j. (j.0, (id, (e, j.1))))
                (Triple-weaken
                  (λ same w.
                    same ≡ true
                    → (R w.trace × IsImage image i w.trace) × AllImages images is w.trace)
                  (λ _ _. Unit {0})
                  (same_identities_lem (λ t. R t × IsImage image i t) images is
                    (λ c done t k j. (
                      stable c done t k j.0,
                      (j.1.0, (j.1.1.0, Asked-stable (id_args image) _ c done t k j.1.1.1)),
                    )))
                  (λ w j. j) (λ _ w j q. ((j q).0.0, ((j q).0.1, (j q).1))) (λ _ w j. j)))
            (λ e. Triple-pure _ (λ w j q. false_true q)))

  refused_lem :
      (tuple : List String) (is : List Text) (e : Error)
      → Triple
          (λ _. Unit {0})
          (refused h e)
          (λ same w. same ≡ true → AllImages tuple is w.trace)
          (λ _ _. Unit {0})
  unfolding refused
  refused_lem tuple is (coded c) = Triple-pure _ (λ w j q. false_true q)
  refused_lem tuple is other = Triple-raise _ (λ w j. tt)

  verified_tuple_lem :
      (tuples : List (List String)) (is : List Text)
      → Triple
          (λ _. Unit {0})
          (verified_tuple h tuples is)
          (λ found w. found ≡ true → SomeVerified tuples is w.trace)
          (λ _ _. Unit {0})
  unfolding verified_tuple
  verified_tuple_lem [] is = Triple-pure _ (λ w j q. false_true q)
  verified_tuple_lem (tuple ∷ rest) is =
      Triple-bind (λ same w. same ≡ true → AllImages tuple is w.trace)
        (Triple-attempt (λ _ _. Unit {0})
          (Triple-weaken (λ same w. same ≡ true → Unit {0} × AllImages tuple is w.trace)
            (λ _ _. Unit {0}) (same_identities_lem (λ _. Unit {0}) tuple is (λ c done t k j. tt))
            (λ w j. j) (λ _ w j q. (j q).1) (λ _ w j. j))
          (refused_lem tuple is))
        (λ same.
          Triple-if same (λ e. Triple-pure _ (λ w j q. (tuple, (inl refl, j e))))
            (λ e.
              Triple-weaken (λ found w. found ≡ true → SomeVerified rest is w.trace)
                (λ _ _. Unit {0}) (verified_tuple_lem rest is) (λ w j. tt)
                (λ _ w j q. ((j q).0, (inr (j q).1.0, (j q).1.1))) (λ _ w j. j)))

  -- A reading of the file with the property is among the calls.
  abbrev pub Opened : String → (Trace Call → Type 0) → Trace Call → Type 0
  Opened path P [] = ⊥
  Opened path P ((read p, _) ∷ t) = ((p ≡ path) × P t) ⊎ Opened path P t
  Opened path P (_ ∷ t) = Opened path P t

  Opened-IsStable : (path : String) (P : Trace Call → Type 0) → Stable aside (Opened path P)
  Opened-IsStable path P (read p) done t k j = inr j
  Opened-IsStable path P _ done t k j = j

  -- The identities are those in the lines that were read of the file, or none where it is absent.
  abbrev pub Pinned : String → Variables → Trace Call → Type 0
  Pinned path found t =
      ((lines : List String) × (Opened path (λ u. h.read_lines path u ≡ ok lines) t
          × (found ≡ identities (map codes lines))))
      ⊎ (Opened path (λ u. h.present path u ≡ ok false) t × (found ≡ []))

  Pinned-IsStable : (path : String) (found : Variables) → Stable aside (Pinned path found)
  Pinned-IsStable path found c done t k (inl (lines, (o, e))) =
      inl (lines, (Opened-IsStable path _ c done t k o, e))
  Pinned-IsStable path found c done t k (inr (o, e)) = inr (Opened-IsStable path _ c done t k o, e)

  pinned_in_lem :
      (path : String)
      → Triple
          (λ _. Unit {0})
          (pinned_in h path)
          (λ found w. Pinned path found w.trace)
          (λ _ _. Unit {0})
  unfolding pinned_in
  pinned_in_lem path =
      Triple-bind (λ regular w. Opened path (λ u. h.present path u ≡ ok regular) w.trace)
        (Triple-call _ _ (read path) (h.present path) (λ w j a e. inl (refl, e)) (λ w j x e. tt))
        (λ regular.
          Triple-if regular
            (λ yes_there.
              Triple-bind (λ lines w. Opened path (λ u. h.read_lines path u ≡ ok lines) w.trace)
                (Triple-call _ _ (read path) (h.read_lines path) (λ w j a e. inl (refl, e))
                  (λ w j x e. tt))
                (λ lines. Triple-pure _ (λ w j. inl (lines, (j, refl)))))
            (λ absent. Triple-pure _ (λ w j.
              inr
                (subst (λ b. Opened path (λ u. h.present path u ≡ ok b) w.trace) absent j, refl))))

  -- The images of the containers that were written down of the previous release, where each service
  -- has one, are those of a verified tuple.
  abbrev pub Compatible : List (List String) → String → Trace Call → Type 0
  Compatible tuples previous t =
      (app : Variables) × ((admin : Variables) × ((is : List Text) × ((Pinned
                (previous <> "/compose.images.yml") app t
              × Pinned (previous <> "/compose.admin-images.yml") admin t)
            × ((all_identities (app ++ admin) six_services ≡ some is) × SomeVerified tuples is t))))

  compatible_with_lem :
      (policy : Policy) (found : Variables) (o : Option (List Text))
      → all_identities found six_services ≡ o
      → Triple
          (λ _. Unit {0})
          (compatible_with h policy o)
          (λ allowed w.
            allowed ≡ true
            → (is : List Text) × ((all_identities found six_services ≡ some is)
                × SomeVerified policy.rollback_verified is w.trace))
          (λ _ _. Unit {0})
  unfolding compatible_with
  compatible_with_lem policy found none e = Triple-pure _ (λ w j q. false_true q)
  compatible_with_lem policy found (some is) e =
      Triple-weaken (λ allowed w. allowed ≡ true → SomeVerified policy.rollback_verified is w.trace)
        (λ _ _. Unit {0}) (verified_tuple_lem policy.rollback_verified is) (λ w j. j)
        (λ _ w j q. (is, (e, j q))) (λ _ w j. j)

  decided_lem :
      (policy : Policy) (previous : String) (app admin : Variables)
      → Triple
          (λ w.
            Pinned (previous <> "/compose.images.yml") app w.trace
            × Pinned (previous <> "/compose.admin-images.yml") admin w.trace)
          (compatible_with h policy (all_identities (app ++ admin) six_services))
          (λ allowed w. allowed ≡ true → Compatible policy.rollback_verified previous w.trace)
          (λ _ _. Unit {0})
  decided_lem policy previous app admin =
      Triple-weaken
        (λ allowed w.
          (Pinned (previous <> "/compose.images.yml") app w.trace
            × Pinned (previous <> "/compose.admin-images.yml") admin w.trace)
          × (allowed ≡ true
              → (is : List Text) × ((all_identities (app ++ admin) six_services ≡ some is)
                  × SomeVerified policy.rollback_verified is w.trace)))
        (λ _ _. Unit {0} × Unit {0})
        (Triple-both _ _ (λ _ _. Unit {0}) (λ _ _. Unit {0})
          (Triple-weaken
            (λ _ w.
              Pinned (previous <> "/compose.images.yml") app w.trace
              × Pinned (previous <> "/compose.admin-images.yml") admin w.trace)
            (λ _ w.
              Pinned (previous <> "/compose.images.yml") app w.trace
              × Pinned (previous <> "/compose.admin-images.yml") admin w.trace)
            (Keeps-quiet
              (λ t.
                Pinned (previous <> "/compose.images.yml") app t
                × Pinned (previous <> "/compose.admin-images.yml") admin t)
              (λ c done t k j.
                (Pinned-IsStable _ app c done t k j.0, Pinned-IsStable _ admin c done t k j.1))
              (compatible-IsQuiet h policy _))
            (λ w j. j) (λ _ w j. j) (λ _ w j. tt))
          (compatible_with_lem policy (app ++ admin) _ refl))
        (λ w j. (j, tt)) (λ _ w j q. (app, (admin, ((j.1 q).0, (j.0, (j.1 q).1))))) (λ _ w j. tt)

  prior_lem :
      (policy : Policy) (previous : String)
      → Triple
          (λ _. Unit {0})
          (prior_rollback_compatible h policy previous)
          (λ allowed w. allowed ≡ true → Compatible policy.rollback_verified previous w.trace)
          (λ _ _. Unit {0})
  unfolding prior_rollback_compatible
  prior_lem policy previous =
      Triple-bind (λ app w. Pinned (previous <> "/compose.images.yml") app w.trace)
        (pinned_in_lem _)
        (λ app.
          Triple-bind
            (λ admin w.
              Pinned (previous <> "/compose.images.yml") app w.trace
              × Pinned (previous <> "/compose.admin-images.yml") admin w.trace)
            (Triple-weaken
              (λ admin w.
                Pinned (previous <> "/compose.images.yml") app w.trace
                × Pinned (previous <> "/compose.admin-images.yml") admin w.trace)
              (λ _ _. Unit {0} × Unit {0})
              (Triple-both _ _ (λ _ _. Unit {0}) (λ _ _. Unit {0})
                (Triple-weaken (λ _ w. Pinned (previous <> "/compose.images.yml") app w.trace)
                  (λ _ w. Pinned (previous <> "/compose.images.yml") app w.trace)
                  (Keeps-quiet (Pinned (previous <> "/compose.images.yml") app)
                    (Pinned-IsStable _ app) (pinned_in-IsQuiet h _))
                  (λ w j. j) (λ _ w j. j) (λ _ w j. tt))
                (pinned_in_lem _))
              (λ w j. (j, tt)) (λ _ w j. j) (λ _ w j. tt))
            (λ admin. decided_lem policy previous app admin))

  -- A rollback is allowed only where the lines that were read of the two image files of the previous
  -- release (an absent one counts as empty) give one identity to each of the six services, and some
  -- tuple of images that the policy lists as verified has exactly these identities by the answers of
  -- docker, service by service.
  pub prior_rollback_compatible-Compatible :
      (policy : Policy) (previous : String) (w : State)
      → (prior_rollback_compatible h policy previous w).0 ≡ ok true
      → Compatible policy.rollback_verified previous
          (prior_rollback_compatible h policy previous w).1.trace
  prior_rollback_compatible-Compatible policy previous w e =
      post_ok (λ allowed v. allowed ≡ true → Compatible policy.rollback_verified previous v.trace)
        (λ _ _. Unit {0}) (prior_rollback_compatible h policy previous w).0
        (prior_rollback_compatible h policy previous w).1 true ((prior_lem policy previous).at w tt)
        e refl
