-- ===== src/PublicStop/Quiet.antt =====
-- Stopping the public services and removing copies (scripts/deploy-gcp.py) make calls aside only.
use map_service_infra.Base.{String, List, [], ◌∷◌}
use map_service_infra.Base.Quiet.{IsQuiet, quiet_rules, IsQuiet-bind, IsQuiet-pure, IsQuiet-require}
use map_service_infra.Receiver.Model.{Host, aside}
use map_service_infra.PublicStop.{
  running_service_ids, try_stop, try_stops, still_open, verify_all, stop_public_services,
  verify_edge_closed, remove_each, remove_rollover_containers,
}

module _ (h : Host) where
  pub running_service-IsQuiet : (s : String) → IsQuiet aside (running_service_ids h s)
  unfolding running_service_ids
  running_service-IsQuiet s = search quiet_rules depth 30

  try_stop-IsQuiet : (s : String) → IsQuiet aside (try_stop h s)
  unfolding try_stop
  try_stop-IsQuiet s = search (quiet_rules, running_service-IsQuiet) depth 30

  try_stops-IsQuiet : (ss : List String) → IsQuiet aside (try_stops h ss)
  unfolding try_stops
  try_stops-IsQuiet [] = IsQuiet-pure _
  try_stops-IsQuiet (s ∷ ss) =
      IsQuiet-bind _ _ (try_stop-IsQuiet s)
        (λ failed. IsQuiet-bind _ _ (try_stops-IsQuiet ss) (λ errors. IsQuiet-pure _))

  still_open-IsQuiet : (s : String) → IsQuiet aside (still_open h s)
  unfolding still_open
  still_open-IsQuiet s = search (quiet_rules, running_service-IsQuiet) depth 30

  verify_all-IsQuiet : (ss : List String) → IsQuiet aside (verify_all h ss)
  unfolding verify_all
  verify_all-IsQuiet [] = IsQuiet-pure _
  verify_all-IsQuiet (s ∷ ss) =
      IsQuiet-bind _ _ (still_open-IsQuiet s)
        (λ failed. IsQuiet-bind _ _ (verify_all-IsQuiet ss) (λ errors. IsQuiet-pure _))

  pub stop_public-IsQuiet : (ss : List String) → IsQuiet aside (stop_public_services h ss)
  unfolding stop_public_services
  stop_public-IsQuiet ss = search (quiet_rules, try_stops-IsQuiet, verify_all-IsQuiet) depth 30

  pub verify_edge-IsQuiet : IsQuiet aside (verify_edge_closed h)
  unfolding verify_edge_closed
  verify_edge-IsQuiet = search (quiet_rules, running_service-IsQuiet) depth 30

  remove_each-IsQuiet : (ids : List String) → IsQuiet aside (remove_each h ids)
  unfolding remove_each
  remove_each-IsQuiet [] = IsQuiet-pure _
  remove_each-IsQuiet (i ∷ ids) =
      IsQuiet-bind _ _ (IsQuiet-require _ _)
        (λ _. IsQuiet-bind _ _ (search quiet_rules) (λ _. remove_each-IsQuiet ids))

  pub remove_copies-IsQuiet : IsQuiet aside (remove_rollover_containers h)
  unfolding remove_rollover_containers
  remove_copies-IsQuiet = search (quiet_rules, remove_each-IsQuiet) depth 30
