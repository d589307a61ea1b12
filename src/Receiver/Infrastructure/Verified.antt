-- ===== src/Receiver/Infrastructure/Verified.antt =====
-- What a verification of the running infrastructure that returns has seen (scripts/deploy-gcp.py,
-- `verify_infrastructure_images`).
use map_service_infra.Base.{
  String, ◌≡◌, subst, Bool, true, not, ◌&&◌, ◌||◌, some, List, [], ◌∷◌, ◌++◌, ◌==◌, string_eq,
  arith, option_eq, eq_of_==,
}
use map_service_infra.Base.Lists.{All}
use map_service_infra.Base.Exec.Rules.{
  Triple, Triple-bind, Triple-pure, Triple-raise, Triple-require, Triple-weaken, post_ok,
}
use map_service_infra.Base.Result.{ok}
use map_service_infra.Base.World.{Trace}
use map_service_infra.Base.Quiet.{Stable}
use map_service_infra.Receiver.Model.{Pinned, Projects, Host, Call, State}
use map_service_infra.Receiver.Asked.{Asked, every, Asked-stable, Triple-Asked}
use map_service_infra.Receiver.Infrastructure.{
  application, filters, running_image, verify_sole, verify_service, verify_project,
  verify_infrastructure_images,
}

abbrev pub ps_args : String → String → List String
ps_args project service =
    "docker" ∷ "ps" ∷ (filters project service ++ ("--format" ∷ "{{.ID}}" ∷ []))

abbrev pub image_args : String → List String
image_args cid = "docker" ∷ "inspect" ∷ "--format" ∷ "{{.Image}}" ∷ cid ∷ []

-- A service that holds the data of the application.
abbrev pub is_stateful : String → String → Bool
is_stateful project service =
    project == application && (service == "postgres" || service == "redis")

abbrev exempt : String → String → Pinned → String → Bool
exempt project service pin cid = not (is_stateful project service) || some cid == pin.container_id

unless_or : (a b : Bool) → (not a || b) ≡ true → a ≡ true → b ≡ true
unless_or a b e k = ground (arith, e, k)

same_container :
    (project service : String) (pin : Pinned) (cid : String)
    → exempt project service pin cid ≡ true
    → is_stateful project service ≡ true
    → some cid ≡ pin.container_id
same_container project service pin cid e k =
    eq_of_== (some cid) pin.container_id
      (unless_or (is_stateful project service) (some cid == pin.container_id) e k)

module _ (h : Host) where
  -- Docker listed one running container of the service, of the pinned image; for a service that holds
  -- data it is the container that was there before.
  abbrev pub Verified : String → String × Pinned → Trace Call → Type 0
  Verified project entry t =
      (cid : String) × (Asked (ps_args project entry.0)
          (λ u. h.lines (ps_args project entry.0) u ≡ ok (cid ∷ [])) t
        × (Asked (image_args cid) (λ u. h.output (image_args cid) u ≡ ok entry.1.image.image_id) t
            × (is_stateful project entry.0 ≡ true → some cid ≡ entry.1.container_id)))

  abbrev pub AllVerified : Projects Pinned → Trace Call → Type 0
  AllVerified evidence t =
      All (λ project. All (λ entry. Verified project.0 entry t) project.1) evidence

  Verified-stable :
      (project : String) (entry : String × Pinned) → Stable every (Verified project entry)
  Verified-stable project entry c done t k j =
      (j.0, (Asked-stable _ _ c done t k j.1.0, (Asked-stable _ _ c done t k j.1.1.0, j.1.1.1)))

  verify_sole_lem :
      (R : Trace Call → Type 0) (project service : String) (pin : Pinned) (ids : List String)
      → Stable every R
      → Triple
          (λ w.
            R w.trace
            × Asked
                (ps_args project service)
                (λ u. h.lines (ps_args project service) u ≡ ok ids)
                w.trace)
          (verify_sole h project service pin ids)
          (λ _ w. R w.trace × Verified project (service, pin) w.trace)
          (λ _ _. Unit {0})
  unfolding verify_sole running_image
  verify_sole_lem R project service pin [] stable = Triple-raise _ (λ w j. tt)
  verify_sole_lem R project service pin (cid ∷ d ∷ more) stable = Triple-raise _ (λ w j. tt)
  verify_sole_lem R project service pin (cid ∷ []) stable =
      Triple-bind (λ _ w. Listed w.trace) (Triple-require _ _ (λ e w j. j) (λ e w j. tt))
        (λ _.
          Triple-bind (λ _ w. Same w.trace)
            (Triple-require _ _ (λ e w j. (j, same_container project service pin cid e))
              (λ e w j. tt))
            (λ _.
              Triple-bind
                (λ image w.
                  Same w.trace
                  × Asked (image_args cid) (λ u. h.output (image_args cid) u ≡ ok image) w.trace)
                (Triple-Asked Same (image_args cid) (h.output (image_args cid))
                  (λ c done t k j.
                    ((stable c done t k j.0.0, Asked-stable _ _ c done t k j.0.1), j.1))
                  (λ e w. tt))
                (λ image.
                  Triple-require _ _
                    (λ e w j. (
                      j.0.0.0,
                      (
                        cid,
                        (
                          j.0.0.1,
                          (
                            subst
                                (λ i.
                                  Asked (image_args cid) (λ u. h.output (image_args cid) u ≡ ok i)
                                    w.trace)
                                (eq_of_== image pin.image.image_id e) j.1,
                            j.0.1,
                          ),
                        ),
                      ),
                    ))
                    (λ e w j. tt))))
    where
      Listed : Trace Call → Type 0
      Listed t =
          R t
          × Asked (ps_args project service)
              (λ u. h.lines (ps_args project service) u ≡ ok (cid ∷ [])) t

      Same : Trace Call → Type 0
      Same t = Listed t × (is_stateful project service ≡ true → some cid ≡ pin.container_id)

  verify_service_lem :
      (R : Trace Call → Type 0) (project service : String) (pin : Pinned)
      → Stable every R
      → Triple
          (λ w. R w.trace)
          (verify_service h project service pin)
          (λ _ w. R w.trace × Verified project (service, pin) w.trace)
          (λ _ _. Unit {0})
  unfolding verify_service
  verify_service_lem R project service pin stable =
      Triple-bind
        (λ ids w.
          R w.trace
          × Asked (ps_args project service) (λ u. h.lines (ps_args project service) u ≡ ok ids)
              w.trace)
        (Triple-Asked R (ps_args project service) (h.lines (ps_args project service)) stable
          (λ e w. tt))
        (λ ids. verify_sole_lem R project service pin ids stable)

  verify_project_lem :
      (R : Trace Call → Type 0) (project : String) (pins : List (String × Pinned))
      → Stable every R
      → Triple
          (λ w. R w.trace)
          (verify_project h project pins)
          (λ _ w. R w.trace × All (λ entry. Verified project entry w.trace) pins)
          (λ _ _. Unit {0})
  unfolding verify_project
  verify_project_lem R project [] stable = Triple-pure tt (λ w j. (j, tt))
  verify_project_lem R project ((service, pin) ∷ rest) stable =
      Triple-bind (λ _ w. R w.trace × Verified project (service, pin) w.trace)
        (verify_service_lem R project service pin stable)
        (λ _.
          Triple-weaken
            (λ _ w.
              (R w.trace × Verified project (service, pin) w.trace)
              × All (λ entry. Verified project entry w.trace) rest)
            (λ _ _. Unit {0})
            (verify_project_lem (λ t. R t × Verified project (service, pin) t) project rest
              (λ c done t k j.
                (stable c done t k j.0, Verified-stable project (service, pin) c done t k j.1)))
            (λ w j. j) (λ _ w j. (j.0.0, (j.0.1, j.1))) (λ _ w j. j))

  All-Verified-stable :
      (project : String) (pins : List (String × Pinned))
      → Stable every (λ t. All (λ entry. Verified project entry t) pins)
  All-Verified-stable project [] c done t k j = tt
  All-Verified-stable project (entry ∷ rest) c done t k j = (
    Verified-stable project entry c done t k j.0,
    All-Verified-stable project rest c done t k j.1,
  )

  verify_lem :
      (R : Trace Call → Type 0) (evidence : Projects Pinned)
      → Stable every R
      → Triple
          (λ w. R w.trace)
          (verify_infrastructure_images h evidence)
          (λ _ w. R w.trace × AllVerified evidence w.trace)
          (λ _ _. Unit {0})
  unfolding verify_infrastructure_images
  verify_lem R [] stable = Triple-pure tt (λ w j. (j, tt))
  verify_lem R ((project, pins) ∷ rest) stable =
      Triple-bind (λ _ w. R w.trace × All (λ entry. Verified project entry w.trace) pins)
        (verify_project_lem R project pins stable)
        (λ _.
          Triple-weaken
            (λ _ w.
              (R w.trace × All (λ entry. Verified project entry w.trace) pins)
              × AllVerified rest w.trace)
            (λ _ _. Unit {0})
            (verify_lem (λ t. R t × All (λ entry. Verified project entry t) pins) rest
              (λ c done t k j.
                (stable c done t k j.0, All-Verified-stable project pins c done t k j.1)))
            (λ w j. j) (λ _ w j. (j.0.0, (j.0.1, j.1))) (λ _ w j. j))

  -- A verification of the infrastructure that returns has, for every pinned service of every project,
  -- had docker list exactly one running container of it and found that container to have the pinned
  -- image; of a database it is the container that the pin names, so none was recreated.
  pub verify_infrastructure_images-AllVerified :
      (evidence : Projects Pinned) (w : State)
      → (verify_infrastructure_images h evidence w).0 ≡ ok tt
      → AllVerified evidence (verify_infrastructure_images h evidence w).1.trace
  verify_infrastructure_images-AllVerified evidence w e =
      (post_ok (λ _ v. Unit {0} × AllVerified evidence v.trace) (λ _ _. Unit {0})
        (verify_infrastructure_images h evidence w).0 (verify_infrastructure_images h evidence w).1
        tt ((verify_lem (λ _. Unit {0}) evidence (λ c done t k j. tt)).at w tt) e).1
