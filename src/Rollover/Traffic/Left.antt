-- ===== src/Rollover/Traffic/Left.antt =====
-- A rollover whose reload of the proxy raises (scripts/service-rollover.py, `reload_proxy` and the
-- `except` and `finally` blocks of `rollover`).
use map_service_infra.Base.{
  ℕ, String, ◌≡◌, refl, Bool, true, false, Option, some, [], ◌∷◌, ◌&&◌, ◌!=◌, string_eq, is_hex64,
  arith,
}
use map_service_infra.Base.Result.{Error, Result, ok, err}
use map_service_infra.Base.Exec.{Exec, require, attempt}
use map_service_infra.Base.Exec.Rules.{
  Post, Triple, Triple-bind, Triple-attempt, Triple-weaken, Triple-when, Triple-raise, Triple-pure,
  Triple-lift, Triple-modify, Triple-require,
}
use map_service_infra.Base.World.{Trace, Answer, call, Triple-call, succeeded}
use map_service_infra.Rollover.{
  Call, Host, State, Own, Order, ContainerState, copy_name, state, remove, stop, reload, nginx_test,
  proxy_mount, write_override, container_of, container_id, sole, reload_proxy, place, after_test,
  switch, give_back, on_failure, ask_state, discard, clean, finally_clean,
}

-- The newest call is `c`, and it succeeded.
abbrev pub Last : Call → Trace Call → Type 0
Last c t = (rest : Trace Call) × (t ≡ (c, true) ∷ rest)

-- The `try` block from the switch on, with the `except` and `finally` blocks.
abbrev pub from_switch : Host → Order → ℕ → State → Result (Unit {0}) × State
from_switch h o drain w =
    finally_clean h o drain (attempt (switch h o) (on_failure h o) w).0
      (attempt (switch h o) (on_failure h o) w).1

module _ (h : Host) (o : Order)
    (rejected : (p : Option String) (t : Trace Call) → succeeded (h.reload p t) ≡ false)
    (tested : (t : Trace Call) → h.nginx_test t ≡ ok true) (proxy : String)
    (present : (t : Trace Call) → h.container_of "proxy" t ≡ ok (proxy ∷ []))
    (well_formed : is_hex64 proxy ≡ true) (directory : String)
    (mounted : (t : Trace Call) → h.proxy_mount t ≡ ok directory)
    (same : ((directory != "") && h.same_directory directory) ≡ true)
    (writes : (t : Trace Call) → h.write_override (copy_name h o) t ≡ ok tt) where
  abbrev Unswitched : Option String → State → Type 0
  Unswitched g v = (v.own.switched ≡ false) × (v.own.green ≡ g)

  abbrev Left : Option String → State → Type 0
  Left g v = (v.own.override ≡ some (copy_name h o)) × Unswitched g v

  -- A call that is answered with `a`.
  answered :
      {A : Type 0} (P : State → Type 0) (c : Call) (f : Answer Call A) (a : A)
      → ((t : Trace Call) → f t ≡ ok a)
      → ((v : State) → P v → P (record v { trace = (c, true) ∷ v.trace }))
      → Triple P (call c f) (λ b v. P v × (b ≡ a)) (λ _ _. ⊥)
  answered P c f a always k =
      Triple-call _ _ c f (λ w j b e. (k w j, ground (arith, e, always w.trace)))
        (λ w j x e. ground (arith, e, always w.trace))

  -- `P` names only what the program itself keeps, so a call leaves it.
  module _ (P : Own → Type 0) where
    abbrev On : State → Type 0
    On v = P v.own

    one : Triple On (sole h "proxy" (proxy ∷ [])) (λ _ v. On v) (λ _ _. ⊥)
    unfolding sole
    one =
        Triple-bind (λ _ v. On v)
          (Triple-require _ _ (λ e s j. j) (λ e s j. ground (arith, e, well_formed)))
          (λ _. Triple-pure proxy (λ s j. j))

    found : Triple On (container_id h "proxy") (λ _ v. On v) (λ _ _. ⊥)
    unfolding container_id
    found =
        Triple-bind (λ ids v. On v × (ids ≡ proxy ∷ []))
          (answered On (container_of "proxy") (h.container_of "proxy") (proxy ∷ []) present
            (λ v j. j))
          (λ ids. record { at = λ s j. rw j.1 (one.at s j.0) })

    read : Triple On (call proxy_mount h.proxy_mount) (λ m v. On v × (m ≡ directory)) (λ _ _. ⊥)
    read = answered On proxy_mount h.proxy_mount directory mounted (λ v j. j)

    -- The directory is the one the rollover writes to.
    accepted :
        (m : String)
        → Triple
            (λ v. On v × (m ≡ directory))
            (require ((m != "") && h.same_directory m) "proxy_reads_a_different_upstream_directory")
            (λ _ v. On v)
            (λ _ _. ⊥)
    accepted m = Triple-require _ _ (λ e s j. j.0) (λ e s j. absurd (wrong m s j.1 e))
      where
        wrong :
            (m : String) (s : State) → m ≡ directory → ((m != "") && h.same_directory m) ≡ false → ⊥
        wrong m s q e = cc

  reload_fails :
      (g : Option String) → Triple (Left g) (after_test h true) (λ _ _. ⊥) (λ _ v. Left g v)
  unfolding after_test
  reload_fails g =
      Triple-bind (λ _ v. Left g v) (record { at = λ s j. j })
        (λ p.
          Triple-call _ _ (reload p) (h.reload p) (λ w j a e. ground (arith, e, rejected p w.trace))
            (λ w j x e. j))

  -- The proxy is told of the copy, and the reload raises.
  reload_raises :
      (g : Option String)
      → Triple (Unswitched g) (reload_proxy h (some (copy_name h o))) (λ _ _. ⊥) (λ _ v. Left g v)
  unfolding reload_proxy place
  reload_raises g =
      Triple-bind (λ _ v. Unswitched g v)
        (never (found (λ w. (w.switched ≡ false) × (w.green ≡ g))))
        (λ _.
          Triple-bind (λ m v. Unswitched g v × (m ≡ directory))
            (never (read (λ w. (w.switched ≡ false) × (w.green ≡ g))))
            (λ m.
              Triple-bind (λ _ v. Unswitched g v)
                (never (accepted (λ w. (w.switched ≡ false) × (w.green ≡ g)) m))
                (λ _.
                  Triple-bind (λ _ v. Left g v)
                    (Triple-bind (λ _ v. Unswitched g v)
                      (Triple-weaken (λ _ v. Unswitched g v) (λ _ _. ⊥) written (λ s j. j)
                        (λ _ s j. j) (λ _ s j. absurd j))
                      (λ _. Triple-modify _ (λ s j. (refl, j))))
                    (λ _.
                      Triple-bind (λ good v. Left g v × (good ≡ true))
                        (never (answered (Left g) nginx_test h.nginx_test true tested (λ v j. j)))
                        after))))
    where
      never :
          {A : Type 0} {P : State → Type 0} {Q : A → State → Type 0} {m : Exec State A}
          → Triple P m Q (λ _ _. ⊥)
          → Triple P m Q (λ _ v. Left g v)
      never {Q} t = Triple-weaken Q (λ _ _. ⊥) t (λ s j. j) (λ _ s j. j) (λ _ s j. absurd j)

      written :
          Triple
            (Unswitched g)
            (call (write_override (copy_name h o)) (h.write_override (copy_name h o)))
            (λ _ v. Unswitched g v)
            (λ _ _. ⊥)
      written = Triple-call _ _ _ _ (λ w j a e. j) (λ w j x e. ground (arith, e, writes w.trace))

      after :
          (good : Bool)
          → Triple (λ v. Left g v × (good ≡ true)) (after_test h good) (λ _ _. ⊥) (λ _ v. Left g v)
      after good = record { at = λ s j. rw j.1 ((reload_fails g).at s j.0) }

  switch_raises :
      (g : Option String) → Triple (Unswitched g) (switch h o) (λ _ _. ⊥) (λ _ v. Left g v)
  unfolding switch
  switch_raises g = Triple-bind (λ _ _. ⊥) (reload_raises g) (λ _. record { at = λ s j. absurd j })

  nothing_given :
      (g : Option String)
      → Triple (Left g) (give_back h o false) (λ _ v. Left g v) (λ _ v. Left g v)
  unfolding give_back
  nothing_given g = Triple-pure tt (λ s j. j)

  -- The `except` block does not give the traffic back: it was not recorded as switched.
  failure_keeps :
      (g : Option String) (e : Error)
      → Triple (Left g) (on_failure h o e) (λ _ _. ⊥) (λ _ v. Left g v)
  unfolding on_failure
  failure_keeps g e =
      Triple-bind (λ _ v. Left g v) (Triple-modify _ (λ s j. j))
        (λ _.
          Triple-bind (λ b v. Left g v × (b ≡ false)) (record { at = λ s j. (j, j.1.0) })
            (λ b.
              Triple-bind (λ _ v. Left g v) (record { at = λ s j. rw j.1 (kept.at s j.0) })
                (λ _. Triple-raise e (λ s j. j))))
    where
      kept : Triple (Left g) (give_back h o false) (λ _ v. Left g v) (λ _ v. Left g v)
      kept = nothing_given g

  module _ (green : String) (drain : ℕ) (s : ContainerState)
      (asks : (t : Trace Call) → h.state green t ≡ ok s)
      (stops : (t : Trace Call) → h.stop drain green t ≡ ok tt)
      (removes : (t : Trace Call) → h.remove green t ≡ ok tt) where
    abbrev Gone : State → Type 0
    Gone v = Left (some green) v × Last (remove green) v.trace

    discarded : Triple (Left (some green)) (discard h o drain green) (λ _ v. Gone v) (λ _ _. ⊥)
    unfolding discard ask_state
    discarded =
        Triple-attempt (λ _ _. ⊥)
          (Triple-bind (λ b v. Left (some green) v × (b ≡ s))
            (answered (Left (some green)) (state green) (h.state green) s asks (λ v j. j))
            (λ b.
              Triple-bind (λ _ v. Left (some green) v)
                (Triple-when _ _
                  (λ _.
                    Triple-call _ _ (stop drain green) (h.stop drain green) (λ w j a e. j.0)
                      (λ w j x e. ground (arith, e, stops w.trace)))
                  (λ _ v j. j.0))
                (λ _.
                  Triple-bind (λ _ v. Gone v)
                    (Triple-call _ _ (remove green) (h.remove green)
                      (λ w j a e. (j, (w.trace, refl)))
                      (λ w j x e. ground (arith, e, removes w.trace)))
                    (λ _. Triple-modify _ (λ v j. j)))))
          (λ e. record { at = λ v j. absurd j })

    swept :
        is_hex64 green ≡ true
        → Triple (Left (some green)) (clean h o drain (some green)) (λ _ v. Gone v) (λ _ v. Gone v)
    unfolding clean
    swept well = rw well (
        Triple-weaken (λ _ v. Gone v) (λ _ _. ⊥) discarded (λ v j. j) (λ _ v j. j)
          (λ _ v j. absurd j))

    cleaned :
        is_hex64 green ≡ true
        → (e : Error)
        → Triple (Left (some green)) (finally_clean h o drain (err e)) (λ _ _. ⊥) (λ _ v. Gone v)
    unfolding finally_clean
    cleaned well e =
        Triple-bind (λ g v. Left (some green) v × (g ≡ some green))
          (record { at = λ v j. (j, j.1.1) })
          (λ g.
            Triple-bind (λ _ v. Gone v) (record { at = λ v j. rw j.1 ((swept well).at v j.0) })
              (λ _. Triple-lift (err e) (λ v j. j)))

    -- Where nginx accepts the new configuration and the reload after it raises, the run fails with
    -- the override file naming the copy and with the copy removed: the failure comes before the
    -- switch is recorded, so nothing takes the file away. It is so of the `try` block from the switch
    -- on, with its `except` and `finally` blocks, where docker finds the proxy, its directory is the
    -- one written to, the copy can be inspected, stopped and removed, and no earlier switch is
    -- recorded.
    pub left_on_removed_copy :
        is_hex64 green ≡ true
        → (w : State) → w.own.switched ≡ false
        → w.own.green ≡ some green
        → ((from_switch h o drain w).1.own.override ≡ some (copy_name h o))
          × Last (remove green) (from_switch h o drain w).1.trace
          × (e : Error) × ((from_switch h o drain w).0 ≡ err e)
    left_on_removed_copy well w unswitched made =
        raised (attempt (switch h o) (on_failure h o) w).0
          (attempt (switch h o) (on_failure h o) w).1
          ((Triple-attempt (λ _ v. Left (some green) v) (switch_raises (some green))
              (failure_keeps (some green))).at
            w (unswitched, made))
      where
        ended :
            (r : Result (Unit {0})) (v : State)
            → Post (λ _ _. ⊥) (λ _ v. Gone v) r v
            → (v.own.override ≡ some (copy_name h o))
              × Last (remove green) v.trace
              × (e : Error) × (r ≡ err e)
        ended (ok u) v j = absurd j
        ended (err e) v j = (j.0.0, j.1, e, refl)

        raised :
            (r : Result (Unit {0})) (v : State)
            → Post (λ _ _. ⊥) (λ _ v. Left (some green) v) r v
            → ((finally_clean h o drain r v).1.own.override ≡ some (copy_name h o))
              × Last (remove green) (finally_clean h o drain r v).1.trace
              × (e : Error) × ((finally_clean h o drain r v).0 ≡ err e)
        raised (ok u) v j = absurd j
        raised (err e) v j = ended _ _ ((cleaned well e).at v j)
