-- ===== src/Receiver/Rollback/Steps.antt =====
-- The order of the effects of `rollback` (scripts/deploy-gcp.py).
use map_service_infra.Base.{
  String, ◌≡◌, Bool, true, false, not, contains, string_eq, List, [], ◌∷◌, ◌++◌,
}
use map_service_infra.Base.Lists.{all_of, keep}
use map_service_infra.Base.Exec.{Exec}
use map_service_infra.Base.Exec.Rules.{Triple-bind, Triple-pure, Triple-require, Triple-when}
use map_service_infra.Base.World.{Trace, Keeps, Triple-call}
use map_service_infra.Base.Quiet.{Stable, IsQuiet, Triple-quiet, quiet_rules, IsQuiet-lift}
use map_service_infra.Receiver.Model.{Site, Projects, Host, Call, State, stop_new, restore, aside}
use map_service_infra.Receiver.Order.{
  Begun, Flagged, Flagged-stable, Ordered, Ordered-stable, Begun-stable,
}
use map_service_infra.Receiver.Infrastructure.{
  application, administration, app_services, admin_services, is_short_id,
}
use map_service_infra.Receiver.Compose.Quiet.{compose_command-IsQuiet}
use map_service_infra.Receiver.Pins.Reference.{sorted}
use map_service_infra.Receiver.Rollback.{
  Previous, stop_one, stop_each, stop_introduced, restore_project, restore_services, rollback,
  services_of, is_empty, up_args, previous_files, stop_found,
}

module _ (h : Host) where
  -- The calls are in order, and a latch of the run is written.
  abbrev pub Rolling : Bool → Trace Call → Type 0
  Rolling o t = Ordered h t × (o ≡ true) × Begun t

  pub Rolling-stable : (o : Bool) → Stable aside (Rolling o)
  Rolling-stable o c done t k j =
      (Ordered-stable h c done t k j.0, j.1, Begun-stable c done t k j.2)

  -- And the latch allows a rollback.
  abbrev pub Permitted : Bool → Trace Call → Type 0
  Permitted o t = Rolling o t × Flagged true t

  Permitted-stable : (o : Bool) → Stable aside (Permitted o)
  Permitted-stable o c done t k j =
      (Rolling-stable o c done t k j.0, Flagged-stable true c done t k j.1)

  quietly :
      {A : Type 0} (m : Exec State A) → IsQuiet aside m → Keeps (λ w. Permitted w.own w.trace) m
  quietly m q = Triple-quiet Permitted Permitted-stable (λ e w j. j) q

  stop_found_lem : (ids : List String) → Keeps (λ w. Permitted w.own w.trace) (stop_found h ids)
  unfolding stop_found
  stop_found_lem ids =
      Triple-bind (λ _ w. Permitted w.own w.trace)
        (Triple-require (all_of is_short_id ids) _ (λ e w j. j) (λ e w j. j))
        (λ _.
          Triple-call _ _ (stop_new ids) (h.stop_new ids)
            (λ w j a e. ((((j.0.2, j.1), j.0.0), j.0.1, j.0.2), j.1))
            (λ w j x e. ((((j.0.2, j.1), j.0.0), j.0.1, j.0.2), j.1)))

  stop_one_lem : (project s : String) → Keeps (λ w. Permitted w.own w.trace) (stop_one h project s)
  unfolding stop_one
  stop_one_lem project s =
      Triple-bind (λ _ w. Permitted w.own w.trace) (quietly _ (search quiet_rules))
        (λ ids.
          Triple-when (not (is_empty ids)) (stop_found h ids) (λ _. stop_found_lem ids)
            (λ _ w j. j))

  stop_each_lem :
      (project : String) (ss : List String)
      → Keeps (λ w. Permitted w.own w.trace) (stop_each h project ss)
  unfolding stop_each
  stop_each_lem project [] = Triple-pure tt (λ w j. j)
  stop_each_lem project (s ∷ ss) =
      Triple-bind (λ _ w. Permitted w.own w.trace) (stop_one_lem project s)
        (λ _. stop_each_lem project ss)

  stop_introduced_lem :
      (project : String) (candidates : List String) (active : Projects String)
      → Keeps (λ w. Permitted w.own w.trace) (stop_introduced h project candidates active)
  unfolding stop_introduced
  stop_introduced_lem project candidates active =
      Triple-bind (λ _ w. Permitted w.own w.trace)
        (quietly _ (IsQuiet-lift (services_of project active)))
        (λ kept. stop_each_lem project (sorted (keep (λ s. not (contains kept s)) candidates)))

  restore_services_lem :
      (s : Site) (p : Previous) (admin : Bool) (services : List String)
      → Keeps (λ w. Permitted w.own w.trace) (restore_services h s p admin services)
  unfolding restore_services
  restore_services_lem s p admin services =
      Triple-bind (λ _ w. Permitted w.own w.trace)
        (quietly _ (compose_command-IsQuiet h s admin (previous_files p)))
        (λ args.
          Triple-call _ _ (restore (args ++ (up_args ++ services)))
            (h.restore (args ++ (up_args ++ services)))
            (λ w j a e. ((((j.0.2, j.1), j.0.0), j.0.1, j.0.2), j.1))
            (λ w j x e. ((((j.0.2, j.1), j.0.0), j.0.1, j.0.2), j.1)))

  restore_project_lem :
      (s : Site) (p : Previous) (admin : Bool)
      → Keeps (λ w. Permitted w.own w.trace) (restore_project h s p admin)
  unfolding restore_project
  restore_project_lem s p admin =
      Triple-bind (λ _ w. Permitted w.own w.trace) (quietly _ (IsQuiet-lift _))
        (λ services.
          Triple-bind (λ _ w. Permitted w.own w.trace)
            (Triple-require _ _ (λ e w j. j) (λ e w j. j))
            (λ _.
              Triple-when (not (is_empty services)) (restore_services h s p admin services)
                (λ _. restore_services_lem s p admin services) (λ _ w j. j)))

  pub rollback_lem :
      (s : Site) (p : Previous) → Keeps (λ w. Permitted w.own w.trace) (rollback h s p)
  unfolding rollback
  rollback_lem s p =
      Triple-bind (λ _ w. Permitted w.own w.trace) (quietly _ (search quiet_rules))
        (λ _.
          Triple-bind (λ _ w. Permitted w.own w.trace)
            (stop_introduced_lem application (app_services s) p.active)
            (λ _.
              Triple-bind (λ _ w. Permitted w.own w.trace)
                (stop_introduced_lem administration (admin_services s) p.active)
                (λ _.
                  Triple-bind (λ _ w. Permitted w.own w.trace) (quietly _ (search quiet_rules))
                    (λ _.
                      Triple-bind (λ _ w. Permitted w.own w.trace) (quietly _ (search quiet_rules))
                        (λ _.
                          Triple-bind (λ _ w. Permitted w.own w.trace)
                            (restore_project_lem s p false)
                            (λ _.
                              Triple-bind (λ _ w. Permitted w.own w.trace)
                                (restore_project_lem s p true)
                                (λ _. quietly _ (search quiet_rules))))))))
