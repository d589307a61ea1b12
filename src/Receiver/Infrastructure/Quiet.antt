-- ===== src/Receiver/Infrastructure/Quiet.antt =====
-- The readings of containers (scripts/deploy-gcp.py) make calls aside only.
use map_service_infra.Base.{String, List, [], ◌∷◌, Bool}
use map_service_infra.Base.Json.{Json, object}
use map_service_infra.Base.Quiet.{IsQuiet, quiet_rules, IsQuiet-bind, IsQuiet-pure}
use map_service_infra.Receiver.Model.{Site, Pinned, Projects, Host, aside}
use map_service_infra.Receiver.Infrastructure.{
  image_of, image_metadata, running_image, capture_sole, capture_service, capture_project,
  capture_infrastructure, verify_sole, verify_service, verify_project, verify_infrastructure_images,
  snapshot_sole, snapshot_project, snapshot_images,
}

image_of-IsQuiet : (v : Json) → IsQuiet aside (image_of v)
unfolding image_of
image_of-IsQuiet (object f) = search quiet_rules depth 30
image_of-IsQuiet _ = search quiet_rules

module _ (h : Host) where
  pub image_metadata-IsQuiet : (image : String) → IsQuiet aside (image_metadata h image)
  unfolding image_metadata
  image_metadata-IsQuiet image = search (quiet_rules, image_of-IsQuiet) depth 30

  pub running_image-IsQuiet : (cid : String) → IsQuiet aside (running_image h cid)
  unfolding running_image
  running_image-IsQuiet cid = search quiet_rules depth 30

  capture_sole-IsQuiet : (ids : List String) → IsQuiet aside (capture_sole h ids)
  unfolding capture_sole
  capture_sole-IsQuiet [] = search quiet_rules
  capture_sole-IsQuiet (cid ∷ more) =
      search (quiet_rules, image_metadata-IsQuiet, running_image-IsQuiet) depth 30

  capture_service-IsQuiet : (p s : String) → IsQuiet aside (capture_service h p s)
  unfolding capture_service
  capture_service-IsQuiet p s = search (quiet_rules, capture_sole-IsQuiet) depth 30

  capture_project-IsQuiet :
      (p : String) (ss : List (String × String)) → IsQuiet aside (capture_project h p ss)
  unfolding capture_project
  capture_project-IsQuiet p [] = search quiet_rules
  capture_project-IsQuiet p ((s, r) ∷ rest) =
      IsQuiet-bind _ _ (capture_service-IsQuiet p s)
        (λ found. IsQuiet-bind _ _ (capture_project-IsQuiet p rest) (λ more. IsQuiet-pure _))

  pub capture_infrastructure-IsQuiet : (s : Site) → IsQuiet aside (capture_infrastructure h s)
  unfolding capture_infrastructure
  capture_infrastructure-IsQuiet s = search (quiet_rules, capture_project-IsQuiet) depth 30

  verify_sole-IsQuiet :
      (p s : String) (pin : Pinned) (ids : List String) → IsQuiet aside (verify_sole h p s pin ids)
  unfolding verify_sole
  verify_sole-IsQuiet p s pin [] = search quiet_rules
  verify_sole-IsQuiet p s pin (cid ∷ []) = search (quiet_rules, running_image-IsQuiet) depth 30
  verify_sole-IsQuiet p s pin (a ∷ b ∷ rest) = search quiet_rules

  verify_service-IsQuiet : (p s : String) (pin : Pinned) → IsQuiet aside (verify_service h p s pin)
  unfolding verify_service
  verify_service-IsQuiet p s pin = search (quiet_rules, verify_sole-IsQuiet) depth 30

  verify_project-IsQuiet :
      (p : String) (pins : List (String × Pinned)) → IsQuiet aside (verify_project h p pins)
  unfolding verify_project
  verify_project-IsQuiet p [] = search quiet_rules
  verify_project-IsQuiet p ((s, pin) ∷ rest) =
      IsQuiet-bind _ _ (verify_service-IsQuiet p s pin) (λ _. verify_project-IsQuiet p rest)

  pub verify_infrastructure-IsQuiet :
      (e : Projects Pinned) → IsQuiet aside (verify_infrastructure_images h e)
  unfolding verify_infrastructure_images
  verify_infrastructure-IsQuiet [] = search quiet_rules
  verify_infrastructure-IsQuiet ((p, pins) ∷ rest) =
      IsQuiet-bind _ _ (verify_project-IsQuiet p pins) (λ _. verify_infrastructure-IsQuiet rest)

  snapshot_sole-IsQuiet : (ids : List String) → IsQuiet aside (snapshot_sole h ids)
  unfolding snapshot_sole
  snapshot_sole-IsQuiet [] = search quiet_rules
  snapshot_sole-IsQuiet (cid ∷ more) = search (quiet_rules, running_image-IsQuiet) depth 30

  snapshot_project-IsQuiet :
      (p : String) (stopped : Bool) (ss : List String)
      → IsQuiet aside (snapshot_project h p stopped ss)
  unfolding snapshot_project
  snapshot_project-IsQuiet p stopped [] = search quiet_rules
  snapshot_project-IsQuiet p stopped (s ∷ rest) = IsQuiet-bind _ _ (search quiet_rules) (λ ids.
      IsQuiet-bind _ _ (search quiet_rules) (λ _.
        IsQuiet-bind _ _ (snapshot_sole-IsQuiet ids) (λ found.
          IsQuiet-bind _ _ (snapshot_project-IsQuiet p stopped rest) (λ more. IsQuiet-pure _))))

  pub snapshot_images-IsQuiet :
      (s : Site) (stopped : Bool) → IsQuiet aside (snapshot_images h s stopped)
  unfolding snapshot_images
  snapshot_images-IsQuiet s stopped = search (quiet_rules, snapshot_project-IsQuiet) depth 30
