-- ===== src/Rollover/Traffic/Ordering.antt =====
-- The order of the steps of `rollover` (scripts/service-rollover.py).
use map_service_infra.Base.{
  is_hex64, ℕ, String, ◌≡◌, refl, Bool, true, Option, none, some, List, ◌∷◌, arith, eqb, option_eq,
  nat_eq,
}
use map_service_infra.Base.Exec.{Exec, pure, lift, require, ◌>>◌}
use map_service_infra.Base.Result.{Error, Result, ok, err}
use map_service_infra.Base.Exec.Rules.{
  Triple, Triple-bind, Triple-pure, Triple-require, Triple-weaken,
}
use map_service_infra.Base.World.{call, Keeps, Triple-call}
use map_service_infra.Rollover.{
  Call, Host, State, Order, recreate, sleep, launch, settle, when_failed, switch, copy_name,
  connect_all, step, set_green, tail, green_started, replace_canonical, start_green, await_answer,
  create, start, address,
}
use map_service_infra.Rollover.Arguments.{Entry, Arg, create_args}
use map_service_infra.Rollover.Traffic.{Quiet, Created, Started, Found, Ordered}
use map_service_infra.Rollover.Traffic.Moves.{
  Calls, AnsweredToo, OnCopyToo, Ordered-stable, answered_stable, on_copy_stable, reload_proxy_lem,
  on_Ordered, beside, Created-stable, Started-stable, Found-stable, own-Keeps,
}
use map_service_infra.Rollover.Traffic.Parts.{
  Quiet-call, Keeps-require, Keeps-pure, Keeps-raise, Keeps-bind, container_id-Keeps,
  ask_state-Keeps, wait_healthy-Keeps, public_ok-Keeps, connect_all-Keeps, probe_lem,
}

module _ (h : Host) (o : Order) where
  -- The order of the recreations, and a condition on the copy.
  abbrev With : (Calls h o → Type 0) → State → Type 0
  With R v = Ordered h o v.trace × R v.trace

  abbrev Broken : Error → State → Type 0
  Broken _ v = Ordered h o v.trace

  -- An action that keeps both conditions.
  loses :
      {A : Type 0} (R : Calls h o → Type 0) {m : Exec State A}
      → Keeps (With R) m
      → Triple (With R) m (λ _ v. With R v) Broken
  loses R k =
      Triple-weaken (λ _ v. With R v) (λ _ v. With R v) k (λ s j. j) (λ _ s j. j) (λ _ s j. j.0)

  known_args :
      (r : Result (List Arg))
      → Triple
          (λ v. Ordered h o v.trace)
          (lift {S = State} r)
          (λ args v. Ordered h o v.trace × (r ≡ ok args))
          Broken
  known_args (ok args) = record { at = λ s j. (j, refl) }
  known_args (err x) = record { at = λ s j. j }

  pub launch_lem :
      (entry : Entry) (joined : List String) (drain : ℕ)
      → Triple
          (λ v. Ordered h o v.trace)
          (launch h o entry joined drain)
          (λ green v. With (Started h o green) v)
          Broken
  unfolding launch
  launch_lem entry joined drain =
      Triple-bind
        (λ args v.
          Ordered h o v.trace
          × (create_args (copy_name h o) o.project o.service entry joined drain ≡ ok args))
        (known_args _)
        (λ args.
          Triple-bind
            (λ env v.
              Ordered h o v.trace
              × (create_args (copy_name h o) o.project o.service entry joined drain ≡ ok args))
            (Triple-weaken
              (λ env v.
                Ordered h o v.trace
                × (create_args (copy_name h o) o.project o.service entry joined drain ≡ ok args))
              (λ _ v.
                Ordered h o v.trace
                × (create_args (copy_name h o) o.project o.service entry joined drain ≡ ok args))
              (lifted _ _) (λ s j. j) (λ _ s j. j) (λ _ s j. j.0))
            (λ env.
              Triple-bind (λ green v. With (Created h o green) v)
                (Triple-call (λ green v. With (Created h o green) v) Broken (create args)
                  (h.create args env) (λ w j a e. (j.0, ((env, e), (entry, joined, drain, j.1))))
                  (λ w j x e. j.0))
                (λ green. started green)))
    where
      lifted :
          {A : Type 0} (X : Type 0) (r : Result A)
          → Keeps (λ v. Ordered h o v.trace × X) (lift {S = State} r)
      lifted X (ok a) = record { at = λ s j. j }
      lifted X (err x) = record { at = λ s j. j }

      started :
          (green : String)
          → Triple
              (With (Created h o green))
              (do
                set_green green
                require (is_hex64 green) "rollover_container_id_invalid"
                connect_all h green (tail joined)
                call (start green) (h.start green)
                step green_started
                pure green)
              (λ cid v. With (Started h o cid) v)
              Broken
      started green =
          Triple-bind (λ _ v. With (Created h o green) v) (record { at = λ s j. j })
            (λ _.
              Triple-bind (λ _ v. With (Created h o green) v)
                (Triple-require _ _ (λ e s j. j) (λ e s j. j.0))
                (λ _.
                  Triple-bind (λ _ v. With (Created h o green) v)
                    (loses (Created h o green) (
                      connect_all-Keeps (λ t. Ordered h o t × Created h o green t)
                        (beside h o (Created h o green) (Created-stable h o green)) h green _))
                    (λ _.
                      Triple-bind (λ _ v. With (Started h o green) v)
                        (Triple-call (λ _ v. With (Started h o green) v) Broken (start green)
                          (h.start green) (λ w j a e. (j.0, (refl, j.1))) (λ w j x e. j.0))
                        (λ _.
                          Triple-bind (λ _ v. With (Started h o green) v) (record { at = λ s j. j })
                            (λ _. Triple-pure green (λ s j. j))))))

  eqb_lem : (status : ℕ) → eqb status 200 ≡ true → status ≡ 200
  eqb_lem status e = ground arith

  -- After it the last health request went to the copy, and was answered with 200.
  await_copy :
      (code cid : String)
      → Triple
          (With (Started h o cid))
          (await_answer h o code cid)
          (λ _ v. AnsweredToo h o v.trace)
          Broken
  unfolding await_answer
  await_copy code cid =
      Triple-bind (λ host v. With (Found h o host) v)
        (Triple-call (λ host v. With (Found h o host) v) Broken (address cid) (h.address cid)
          (λ w j a e. (j.0, (e, j.1))) (λ w j x e. j.0))
        (λ host.
          Triple-bind
            (λ status v. With (Found h o host) v × (status ≡ 200 → AnsweredToo h o v.trace))
            (Triple-weaken
              (λ status v. With (Found h o host) v × (status ≡ 200 → AnsweredToo h o v.trace))
              (λ _ v. With (Found h o host) v)
              (probe_lem h host (λ t. Ordered h o t × Found h o host t)
                (beside h o (Found h o host) (Found-stable h o host)) (λ done t j. j)
                (λ t. AnsweredToo h o t) (λ t j e. (j.0, (e, j.1))) o.fuel o.health_seconds)
              (λ s j. j) (λ _ s j. j) (λ _ s j. j.0))
            (λ status.
              Triple-require (eqb status 200) code (λ e s j. j.1 (eqb_lem status e))
                (λ e s j. j.0.0)))

  -- Of the canonical container nothing is recorded.
  await_answer-Keeps :
      (code cid : String) → Keeps (λ v. Ordered h o v.trace) (await_answer h o code cid)
  unfolding await_answer
  await_answer-Keeps code cid =
      Triple-bind (λ _ v. Ordered h o v.trace) (on_Ordered h o (address cid) (h.address cid) tt)
        (λ host.
          Triple-bind (λ _ v. Ordered h o v.trace)
            (Triple-weaken (λ status v. Ordered h o v.trace × (status ≡ 200 → Unit {0}))
              (λ _ v. Ordered h o v.trace)
              (probe_lem h host (Ordered h o) (Ordered-stable h o) (λ done t j. j) (λ _. Unit {0})
                (λ t j e. tt) o.fuel o.health_seconds)
              (λ s j. j) (λ _ s j. j.0) (λ _ s j. j))
            (λ status. Triple-require (eqb status 200) code (λ e s j. j) (λ e s j. j)))

  pub start_green_lem :
      (entry : Entry) (joined : List String) (drain : ℕ)
      → Triple
          (λ v. Ordered h o v.trace)
          (start_green h o entry joined drain)
          (λ _ v. AnsweredToo h o v.trace)
          Broken
  unfolding start_green
  start_green_lem entry joined drain =
      Triple-bind (λ green v. With (Started h o green) v) (launch_lem entry joined drain)
        (λ green.
          Triple-bind (λ _ v. With (Started h o green) v)
            (loses (Started h o green) (
              wait_healthy-Keeps (λ t. Ordered h o t × Started h o green t)
                (beside h o (Started h o green) (Started-stable h o green)) h o.fuel green
                o.health_seconds))
            (λ _.
              Triple-bind (λ _ v. With (Started h o green) v) (record { at = λ s j. j })
                (λ _.
                  Triple-bind (λ _ v. AnsweredToo h o v.trace) (await_copy _ green)
                    (λ _. record { at = λ s j. j }))))

  -- After a switch the copy has the traffic, also when the probes fail.
  pub settle-Keeps :
      (code : String) (R : Calls h o → Type 0)
      (stable : (c : Call) (done : Bool) (t : Calls h o) → Quiet c → R t → R ((c, done) ∷ t))
      → Keeps (λ v. R v.trace) (settle h o code)
  unfolding settle when_failed
  settle-Keeps code R stable =
      Keeps-bind R stable (Quiet-call R stable sleep h.sleep tt)
        (λ _. Keeps-bind R stable (public_ok-Keeps R stable h o.probes) (λ failed. told failed))
    where
      told : (failed : Option String) → Keeps (λ v. R v.trace) (when_failed h code failed)
      told none = Keeps-pure R stable tt
      told (some url) = Keeps-raise R stable _

  pub switch_lem :
      Triple
        (λ v. AnsweredToo h o v.trace)
        (switch h o)
        (λ _ v. OnCopyToo h o v.trace)
        (λ _ v. Ordered h o v.trace)
  unfolding switch
  switch_lem =
      Triple-bind (λ _ v. OnCopyToo h o v.trace)
        (reload_proxy_lem h o (AnsweredToo h o) (answered_stable h o) (some (copy_name h o))
          (OnCopyToo h o) (Ordered h o) (λ t j. (j.0, (refl, j.1))) (λ t j. j.0) (λ t j. j.0))
        (λ _.
          Triple-bind (λ _ v. OnCopyToo h o v.trace)
            (then_on (own-Keeps h o (OnCopyToo h o) _ (λ s. refl)))
            (λ _.
              Triple-bind (λ _ v. OnCopyToo h o v.trace)
                (then_on (own-Keeps h o (OnCopyToo h o) _ (λ s. refl)))
                (λ _.
                  Triple-bind (λ _ v. OnCopyToo h o v.trace)
                    (then_on (settle-Keeps _ (OnCopyToo h o) (on_copy_stable h o)))
                    (λ _. then_on (own-Keeps h o (OnCopyToo h o) _ (λ s. refl))))))
    where
      then_on :
          {m : Exec State Unit}
          → Keeps (λ v. OnCopyToo h o v.trace) m
          → Triple
              (λ v. OnCopyToo h o v.trace)
              m
              (λ _ v. OnCopyToo h o v.trace)
              (λ _ v. Ordered h o v.trace)
      then_on k =
          Triple-weaken (λ _ v. OnCopyToo h o v.trace) (λ _ v. OnCopyToo h o v.trace) k (λ s j. j)
            (λ _ s j. j) (λ _ s j. j.0)

  -- The one call that needs the traffic on the copy.
  recreate_lem :
      Triple {S = State}
        (λ v. OnCopyToo h o v.trace)
        (call recreate h.recreate)
        (λ _ v. Ordered h o v.trace)
        (λ _ v. Ordered h o v.trace)
  recreate_lem =
      Triple-call (λ _ v. Ordered h o v.trace) (λ _ v. Ordered h o v.trace) recreate h.recreate
        (λ w j a e. (j.1, j.0)) (λ w j x e. (j.1, j.0))

  pub replace_canonical_lem :
      (blue identity : String)
      → Triple
          (λ v. OnCopyToo h o v.trace)
          (replace_canonical h o blue identity)
          (λ _ v. Ordered h o v.trace)
          (λ _ v. Ordered h o v.trace)
  unfolding replace_canonical
  replace_canonical_lem blue identity =
      Triple-bind (λ _ v. OnCopyToo h o v.trace)
        (Triple-weaken (λ _ v. OnCopyToo h o v.trace) (λ _ v. OnCopyToo h o v.trace)
          (own-Keeps h o (OnCopyToo h o) _ (λ s. refl)) (λ s j. j) (λ _ s j. j) (λ _ s j. j.0))
        (λ _.
          Triple-bind (λ _ v. Ordered h o v.trace) recreate_lem
            (λ _.
              Triple-bind (λ _ v. Ordered h o v.trace)
                (container_id-Keeps (Ordered h o) (Ordered-stable h o) h o.service)
                (λ canonical.
                  Triple-bind (λ _ v. Ordered h o v.trace)
                    (Keeps-require (Ordered h o) (Ordered-stable h o) _ _)
                    (λ _.
                      Triple-bind (λ _ v. Ordered h o v.trace)
                        (ask_state-Keeps (Ordered h o) (Ordered-stable h o) h canonical)
                        (λ after.
                          Triple-bind (λ _ v. Ordered h o v.trace)
                            (Keeps-require (Ordered h o) (Ordered-stable h o) _ _)
                            (λ _.
                              Triple-bind (λ _ v. Ordered h o v.trace)
                                (wait_healthy-Keeps (Ordered h o) (Ordered-stable h o) h o.fuel
                                  canonical o.health_seconds)
                                (λ _.
                                  Triple-bind (λ _ v. Ordered h o v.trace)
                                    (await_answer-Keeps _ canonical)
                                    (λ _. record { at = λ s j. j }))))))))
