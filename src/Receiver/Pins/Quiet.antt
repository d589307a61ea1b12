-- ===== src/Receiver/Pins/Quiet.antt =====
-- Pinning the infrastructure (scripts/deploy-gcp.py) makes calls aside only.
use map_service_infra.Base.{ℕ, String, Bool, List, [], ◌∷◌, Option, none, some}
use map_service_infra.Base.Json.{Fields}
use map_service_infra.Base.Quiet.{
  IsQuiet, quiet_rules, IsQuiet-bind, IsQuiet-pure, IsQuiet-lift, IsQuiet-require,
}
use map_service_infra.Receiver.Model.{Site, Captured, Pinned, Projects, Host, aside}
use map_service_infra.Receiver.Compose.{Files}
use map_service_infra.Receiver.Compose.Quiet.{compose_config-IsQuiet, cloud_up_has-IsQuiet}
use map_service_infra.Receiver.Infrastructure.Quiet.{image_metadata-IsQuiet}
use map_service_infra.Receiver.Pins.{
  new_pin, pin_found, pin_service, pin_services, pin_project, check_applied, check_merged,
  prepare_infrastructure,
}

module _ (h : Host) where
  new_pin-IsQuiet :
      (service requested : String) (r : List ℕ) (d : Option (List ℕ))
      → IsQuiet aside (new_pin h service requested r d)
  unfolding new_pin
  new_pin-IsQuiet service requested r d = search (quiet_rules, image_metadata-IsQuiet) depth 40

  pin_found-IsQuiet :
      (service requested : String) (r : List ℕ) (d : Option (List ℕ)) (c : Option Captured)
      → IsQuiet aside (pin_found h service requested r d c)
  unfolding pin_found
  pin_found-IsQuiet service requested r d none = new_pin-IsQuiet service requested r d
  pin_found-IsQuiet service requested r d (some c) = IsQuiet-pure _

  pin_service-IsQuiet :
      (services : List (String × String)) (f : Fields) (c : List (String × Captured)) (s : String)
      → IsQuiet aside (pin_service h services f c s)
  unfolding pin_service
  pin_service-IsQuiet services f c s = search (quiet_rules, pin_found-IsQuiet) depth 40

  pin_services-IsQuiet :
      (services : List (String × String)) (f : Fields) (c : List (String × Captured))
      (ss : List String)
      → IsQuiet aside (pin_services h services f c ss)
  unfolding pin_services
  pin_services-IsQuiet services f c [] = IsQuiet-pure _
  pin_services-IsQuiet services f c (s ∷ ss) =
      IsQuiet-bind _ _ (pin_service-IsQuiet services f c s)
        (λ p. IsQuiet-bind _ _ (pin_services-IsQuiet services f c ss) (λ rest. IsQuiet-pure _))

  pin_project-IsQuiet :
      (s : Site) (f : Files) (c : List (String × Captured)) (admin : Bool)
      → IsQuiet aside (pin_project h s f c admin)
  unfolding pin_project
  pin_project-IsQuiet s f c admin =
      search (quiet_rules, compose_config-IsQuiet, pin_services-IsQuiet) depth 40

  check_applied-IsQuiet :
      (f : Fields) (pins : List (String × Pinned)) → IsQuiet aside (check_applied h f pins)
  unfolding check_applied
  check_applied-IsQuiet f [] = IsQuiet-pure _
  check_applied-IsQuiet f ((s, p) ∷ rest) =
      IsQuiet-bind _ _ (IsQuiet-lift _)
        (λ actual. IsQuiet-bind _ _ (IsQuiet-require _ _) (λ _. check_applied-IsQuiet f rest))

  check_merged-IsQuiet :
      (s : Site) (f : Files) (admin : Bool) (pins : List (String × Pinned))
      → IsQuiet aside (check_merged h s f admin pins)
  unfolding check_merged
  check_merged-IsQuiet s f admin pins =
      search (quiet_rules, compose_config-IsQuiet, check_applied-IsQuiet) depth 40

  pub prepare_infrastructure-IsQuiet :
      (s : Site) (f : Files) (directory : String) (c : Projects Captured)
      → IsQuiet aside (prepare_infrastructure h s f directory c)
  unfolding prepare_infrastructure
  prepare_infrastructure-IsQuiet s f directory c =
      search (quiet_rules, cloud_up_has-IsQuiet, pin_project-IsQuiet, check_merged-IsQuiet) depth 60
