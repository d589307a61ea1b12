-- ===== src/Receiver/Admission/Quiet.antt =====
-- What a deployment reads (scripts/deploy-gcp.py) makes calls aside only.
use map_service_infra.Base.{String, true, false, List, [], ◌∷◌, Option, none, some}
use map_service_infra.Base.Result.{Error, coded, other}
use map_service_infra.Base.Quiet.{
  IsQuiet, quiet_rules, IsQuiet-bind, IsQuiet-pure, IsQuiet-raise, IsQuiet-require, IsQuiet-if,
  IsQuiet-attempt, IsQuiet-when,
}
use map_service_infra.Receiver.Model.{Target, Site, Projects, Release, Host, aside}
use map_service_infra.Receiver.HostFiles.Quiet.{read_host_json-IsQuiet}
use map_service_infra.Receiver.Compose.Quiet.{cloud_up_has-IsQuiet}
use map_service_infra.Receiver.Policies.{Policy}
use map_service_infra.Receiver.Environments.{Text}
use map_service_infra.Receiver.Admission.{
  load_rollback_policy, load_cutover_latch, detached_topology, topology, require_retired,
  verify_detached_services, backup_environment, require_headroom, require_target_source,
  require_ref, compare_heads, heads_for, pinned_in, same_identities, refused, verified_tuple,
  compatible_with, prior_rollback_compatible, migration_heads, sole_admin,
  verify_admin_rollback_compatibility,
}

module _ (h : Host) where
  pub load_rollback_policy-IsQuiet :
      (t : Target) (c : List String) → IsQuiet aside (load_rollback_policy h t c)
  unfolding load_rollback_policy
  load_rollback_policy-IsQuiet t c = search (quiet_rules, read_host_json-IsQuiet) depth 30

  pub load_cutover_latch-IsQuiet : (t : Target) → IsQuiet aside (load_cutover_latch h t)
  unfolding load_cutover_latch
  load_cutover_latch-IsQuiet t = search (quiet_rules, read_host_json-IsQuiet) depth 30

  detached-IsQuiet : (t : Target) → IsQuiet aside (detached_topology h t)
  unfolding detached_topology
  detached-IsQuiet t = search quiet_rules depth 40

  pub topology-IsQuiet : (t : Target) → IsQuiet aside (topology h t)
  unfolding topology
  topology-IsQuiet t = search (quiet_rules, detached-IsQuiet) depth 30

  require_retired-IsQuiet : (ss : List String) → IsQuiet aside (require_retired h ss)
  unfolding require_retired
  require_retired-IsQuiet [] = IsQuiet-pure _
  require_retired-IsQuiet (s ∷ ss) =
      IsQuiet-bind _ _ (search quiet_rules)
        (λ running. IsQuiet-bind _ _ (IsQuiet-require _ _) (λ _. require_retired-IsQuiet ss))

  pub verify_detached-IsQuiet : (s : Site) → IsQuiet aside (verify_detached_services h s)
  unfolding verify_detached_services
  verify_detached-IsQuiet s =
      search (quiet_rules, cloud_up_has-IsQuiet, require_retired-IsQuiet) depth 30

  pub backup_environment-IsQuiet : IsQuiet aside (backup_environment h)
  unfolding backup_environment
  backup_environment-IsQuiet = search quiet_rules depth 30

  pub require_headroom-IsQuiet : IsQuiet aside (require_headroom h)
  unfolding require_headroom
  require_headroom-IsQuiet = search quiet_rules depth 30

  require_ref-IsQuiet : (o : Option String) (r : Release) → IsQuiet aside (require_ref h o r)
  unfolding require_ref
  require_ref-IsQuiet none r = IsQuiet-raise _
  require_ref-IsQuiet (some ref) r = IsQuiet-require _ _

  pub require_target_source-IsQuiet :
      (e : String) (r : Release) → IsQuiet aside (require_target_source h e r)
  unfolding require_target_source
  require_target_source-IsQuiet e r = require_ref-IsQuiet _ r

  pub pinned_in-IsQuiet : (path : String) → IsQuiet aside (pinned_in h path)
  unfolding pinned_in
  pinned_in-IsQuiet path = search quiet_rules depth 30

  same_identities-IsQuiet :
      (images : List String) (is : List Text) → IsQuiet aside (same_identities h images is)
  unfolding same_identities
  same_identities-IsQuiet (image ∷ images) (i ∷ is) =
      IsQuiet-bind _ _ (search quiet_rules)
        (λ id. IsQuiet-if _ _ _ (same_identities-IsQuiet images is) (IsQuiet-pure false))
  same_identities-IsQuiet [] [] = IsQuiet-pure true
  same_identities-IsQuiet [] (i ∷ is) = IsQuiet-raise other
  same_identities-IsQuiet (image ∷ images) [] = IsQuiet-raise other

  refused-IsQuiet : (e : Error) → IsQuiet aside (refused h e)
  unfolding refused
  refused-IsQuiet (coded c) = IsQuiet-pure false
  refused-IsQuiet other = IsQuiet-raise other

  verified_tuple-IsQuiet :
      (tuples : List (List String)) (is : List Text) → IsQuiet aside (verified_tuple h tuples is)
  unfolding verified_tuple
  verified_tuple-IsQuiet [] is = IsQuiet-pure false
  verified_tuple-IsQuiet (tuple ∷ rest) is =
      IsQuiet-bind _ _ (IsQuiet-attempt _ _ (same_identities-IsQuiet tuple is) refused-IsQuiet)
        (λ same. IsQuiet-if _ _ _ (IsQuiet-pure true) (verified_tuple-IsQuiet rest is))

  pub compatible-IsQuiet :
      (p : Policy) (is : Option (List Text)) → IsQuiet aside (compatible_with h p is)
  unfolding compatible_with
  compatible-IsQuiet p none = IsQuiet-pure false
  compatible-IsQuiet p (some is) = verified_tuple-IsQuiet p.rollback_verified is

  pub prior_rollback-IsQuiet :
      (p : Policy) (previous : String) → IsQuiet aside (prior_rollback_compatible h p previous)
  unfolding prior_rollback_compatible
  prior_rollback-IsQuiet p previous =
      search (quiet_rules, pinned_in-IsQuiet, compatible-IsQuiet) depth 30

  migration_heads-IsQuiet : (image : String) → IsQuiet aside (migration_heads h image)
  unfolding migration_heads
  migration_heads-IsQuiet image = search quiet_rules depth 30

  sole_admin-IsQuiet : (ids : List String) → IsQuiet aside (sole_admin h ids)
  unfolding sole_admin
  sole_admin-IsQuiet [] = IsQuiet-raise _
  sole_admin-IsQuiet (cid ∷ []) = IsQuiet-pure cid
  sole_admin-IsQuiet (a ∷ b ∷ rest) = IsQuiet-raise _

  compare_heads-IsQuiet : IsQuiet aside (compare_heads h)
  unfolding compare_heads
  compare_heads-IsQuiet = search (quiet_rules, sole_admin-IsQuiet, migration_heads-IsQuiet) depth 50

  heads_for-IsQuiet : (o : Option (List (String × String))) → IsQuiet aside (heads_for h o)
  unfolding heads_for
  heads_for-IsQuiet none = IsQuiet-raise _
  heads_for-IsQuiet (some services) = IsQuiet-when _ _ compare_heads-IsQuiet

  pub verify_admin-IsQuiet :
      (active : Projects String) → IsQuiet aside (verify_admin_rollback_compatibility h active)
  unfolding verify_admin_rollback_compatibility
  verify_admin-IsQuiet active = heads_for-IsQuiet _
