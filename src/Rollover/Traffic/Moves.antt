-- ===== src/Rollover/Traffic/Moves.antt =====
-- What the reload of the proxy and the calls beside it do to the traffic (`reload_proxy` of
-- scripts/service-rollover.py).
use map_service_infra.Base.{
  String, ◌≡◌, refl, sym, subst, Bool, true, false, Option, none, some, ◌∷◌, option_eq, nat_eq,
}
use map_service_infra.Base.Result.{Result, ok, err}
use map_service_infra.Base.Exec.{Exec, ◌>>=◌, lift, modify}
use map_service_infra.Base.Exec.Rules.{
  Post, Triple, Triple-bind, Triple-pure, Triple-raise, Triple-weaken,
}
use map_service_infra.Base.World.{Trace, Answer, call, Keeps, Triple-call}
use map_service_infra.Rollover.{
  Call, Host, Order, State, address, create, start, stop, remove, reload, recreate, health_request,
  nginx_test, proxy_mount, unlink_override, write_override, reload_proxy, place, after_test,
  remove_override, unlink_if,
}
use map_service_infra.Rollover.Traffic.{
  Quiet, Still, Created, Started, Found, Answered, OnCopy, Ordered,
}
use map_service_infra.Rollover.Traffic.Parts.{
  Quiet-call, Keeps-require, Keeps-bind, container_id-Keeps,
}

module _ (h : Host) (order : Order) where
  abbrev pub Calls : Type 0
  Calls = Trace Call

  abbrev pub AnsweredToo : Calls → Type 0
  AnsweredToo t = Ordered h order t × Answered h order t

  abbrev pub OnCopyToo : Calls → Type 0
  OnCopyToo t = Ordered h order t × OnCopy h order t

  pub Ordered-Still :
      (c : Call) (done : Bool) (t : Calls)
      → Still c
      → Ordered h order t
      → Ordered h order ((c, done) ∷ t)
  Ordered-Still recreate done t q j = absurd q
  Ordered-Still _ done t q j = j

  Quiet-Still : (c : Call) → Quiet c → Still c
  Quiet-Still recreate q = q
  Quiet-Still _ q = tt

  pub Ordered-stable :
      (c : Call) (done : Bool) (t : Calls)
      → Quiet c
      → Ordered h order t
      → Ordered h order ((c, done) ∷ t)
  Ordered-stable c done t q j = Ordered-Still c done t (Quiet-Still c q) j

  module _ (R : Calls → Type 0)
      (stable : (c : Call) (done : Bool) (t : Calls) → Quiet c → R t → R ((c, done) ∷ t)) where
    -- Beside the order of the recreations.
    pub beside :
        (c : Call) (done : Bool) (t : Calls)
        → Quiet c
        → Ordered h order t × R t
        → Ordered h order ((c, done) ∷ t) × R ((c, done) ∷ t)
    beside c done t q j = (Ordered-stable c done t q j.0, stable c done t q j.1)

  pub Created-stable :
      (cid : String) (c : Call) (done : Bool) (t : Calls)
      → Quiet c
      → Created h order cid t
      → Created h order cid ((c, done) ∷ t)
  Created-stable cid recreate done t q j = absurd q
  Created-stable cid (reload o) done t q j = absurd q
  Created-stable cid (health_request asked) done t q j = absurd q
  Created-stable cid (address a) done t q j = absurd q
  Created-stable cid (create args) done t q j = absurd q
  Created-stable cid (start a) done t q j = absurd q
  Created-stable cid (stop seconds a) done t q j = absurd q
  Created-stable cid (remove a) done t q j = absurd q
  Created-stable cid _ done t q j = j

  pub Started-stable :
      (cid : String) (c : Call) (done : Bool) (t : Calls)
      → Quiet c
      → Started h order cid t
      → Started h order cid ((c, done) ∷ t)
  Started-stable cid recreate done t q j = absurd q
  Started-stable cid (reload o) done t q j = absurd q
  Started-stable cid (health_request asked) done t q j = absurd q
  Started-stable cid (address a) done t q j = absurd q
  Started-stable cid (create args) done t q j = absurd q
  Started-stable cid (start a) done t q j = absurd q
  Started-stable cid (stop seconds a) done t q j = absurd q
  Started-stable cid (remove a) done t q j = absurd q
  Started-stable cid _ done t q j = j

  pub Found-stable :
      (host : String) (c : Call) (done : Bool) (t : Calls)
      → Quiet c
      → Found h order host t
      → Found h order host ((c, done) ∷ t)
  Found-stable host recreate done t q j = absurd q
  Found-stable host (reload o) done t q j = absurd q
  Found-stable host (health_request asked) done t q j = absurd q
  Found-stable host (address a) done t q j = absurd q
  Found-stable host (create args) done t q j = absurd q
  Found-stable host (start a) done t q j = absurd q
  Found-stable host (stop seconds a) done t q j = absurd q
  Found-stable host (remove a) done t q j = absurd q
  Found-stable host _ done t q j = j

  Answered-stable :
      (c : Call) (done : Bool) (t : Calls)
      → Quiet c
      → Answered h order t
      → Answered h order ((c, done) ∷ t)
  Answered-stable recreate done t q j = absurd q
  Answered-stable (reload o) done t q j = absurd q
  Answered-stable (health_request asked) done t q j = absurd q
  Answered-stable (address a) done t q j = absurd q
  Answered-stable (create args) done t q j = absurd q
  Answered-stable (start a) done t q j = absurd q
  Answered-stable (stop seconds a) done t q j = absurd q
  Answered-stable (remove a) done t q j = absurd q
  Answered-stable _ done t q j = j

  OnCopy-stable :
      (c : Call) (done : Bool) (t : Calls)
      → Quiet c
      → OnCopy h order t
      → OnCopy h order ((c, done) ∷ t)
  OnCopy-stable recreate done t q j = absurd q
  OnCopy-stable (reload o) done t q j = absurd q
  OnCopy-stable (health_request asked) done t q j = absurd q
  OnCopy-stable (address a) done t q j = absurd q
  OnCopy-stable (create args) done t q j = absurd q
  OnCopy-stable (start a) done t q j = absurd q
  OnCopy-stable (stop seconds a) done t q j = absurd q
  OnCopy-stable (remove a) done t q j = absurd q
  OnCopy-stable _ done t q j = j

  pub answered_stable :
      (c : Call) (done : Bool) (t : Calls) → Quiet c → AnsweredToo t → AnsweredToo ((c, done) ∷ t)
  answered_stable = beside (Answered h order) Answered-stable

  pub on_copy_stable :
      (c : Call) (done : Bool) (t : Calls) → Quiet c → OnCopyToo t → OnCopyToo ((c, done) ∷ t)
  on_copy_stable = beside (OnCopy h order) OnCopy-stable

  -- Removing the override file and writing it move no traffic.
  module _ (R : Calls → Type 0)
      (stable : (c : Call) (done : Bool) (t : Calls) → Quiet c → R t → R ((c, done) ∷ t)) where
    abbrev Placed : Option String → State → Type 0
    Placed o v = R v.trace × (v.own.override ≡ o)

    unlink_if_lem :
        (o : Option String)
        → Triple (Placed o) (unlink_if h o) (λ _ v. Placed none v) (λ _ v. R v.trace)
    unfolding unlink_if
    unlink_if_lem none = Triple-pure tt (λ s j. j)
    unlink_if_lem (some name) =
        Triple-bind (λ _ v. R v.trace)
          (Triple-weaken (λ _ v. R v.trace) (λ _ v. R v.trace)
            (Quiet-call R stable unlink_override h.unlink_override tt) (λ s j. j.0) (λ _ s j. j)
            (λ _ s j. j))
          (λ _. record { at = λ s j. (j, refl) })

    remove_override_lem :
        Triple (λ v. R v.trace) (remove_override h) (λ _ v. Placed none v) (λ _ v. R v.trace)
    unfolding remove_override
    remove_override_lem =
        Triple-bind (λ o v. Placed o v) (record { at = λ s j. (j, refl) }) unlink_if_lem

    place_lem :
        (o : Option String)
        → Triple (λ v. R v.trace) (place h o) (λ _ v. Placed o v) (λ _ v. R v.trace)
    unfolding place
    place_lem none = remove_override_lem
    place_lem (some name) =
        Triple-bind (λ _ v. R v.trace)
          (Quiet-call R stable (write_override name) (h.write_override name) tt)
          (λ _. record { at = λ s j. (j, refl) })

  -- A reload that points the name at `o`, with what it makes of the condition `R`.
  module _ (R : Calls → Type 0)
      (stable : (c : Call) (done : Bool) (t : Calls) → Quiet c → R t → R ((c, done) ∷ t))
      (o : Option String) (After : Calls → Type 0) (Else : Calls → Type 0)
      (moved : (t : Calls) → R t → After ((reload o, true) ∷ t))
      (not_moved : (t : Calls) → R t → Else ((reload o, false) ∷ t))
      (weaker : (t : Calls) → R t → Else t) where
    weak : (v : State) → R v.trace → Else v.trace
    weak v j = weaker v.trace j

    test_lem :
        (good : Bool)
        → Triple
            (Placed R stable o)
            (after_test h good)
            (λ _ v. After v.trace)
            (λ _ v. Else v.trace)
    unfolding after_test
    test_lem true =
        Triple-bind (λ p v. R v.trace × (p ≡ o)) (record { at = λ s j. j })
          (λ p. record { at = λ s j. reloaded p s j.0 j.1 })
      where
        at_o :
            (s : State)
            → R s.trace
            → Post
                (λ _ v. After v.trace)
                (λ _ v. Else v.trace)
                (call (reload o) (h.reload o) s).0
                (call (reload o) (h.reload o) s).1
        at_o s j =
            (Triple-call {P = λ v. R v.trace} (λ _ v. After v.trace) (λ _ v. Else v.trace)
                (reload o) (h.reload o) (λ w k a e. moved w.trace k)
                (λ w k x e. not_moved w.trace k)).at
              s j

        reloaded :
            (p : Option String) (s : State)
            → R s.trace
            → p ≡ o
            → Post
                (λ _ v. After v.trace)
                (λ _ v. Else v.trace)
                (call (reload p) (h.reload p) s).0
                (call (reload p) (h.reload p) s).1
        reloaded p s j e = rw e (at_o s j)
    test_lem false =
        Triple-bind (λ _ v. Else v.trace)
          (Triple-weaken (λ _ v. Placed R stable none v) (λ _ v. R v.trace)
            (remove_override_lem R stable) (λ s j. j.0) (λ _ v j. weak v j.0) (λ _ v j. weak v j))
          (λ _. Triple-raise _ (λ s j. j))

    pub reload_proxy_lem :
        Triple (λ v. R v.trace) (reload_proxy h o) (λ _ v. After v.trace) (λ _ v. Else v.trace)
    unfolding reload_proxy
    reload_proxy_lem =
        Triple-bind (λ _ v. R v.trace) (fails (container_id-Keeps R stable h "proxy"))
          (λ _.
            Triple-bind (λ _ v. R v.trace)
              (fails (Quiet-call R stable proxy_mount h.proxy_mount tt))
              (λ mounted.
                Triple-bind (λ _ v. R v.trace) (fails (Keeps-require R stable _ _))
                  (λ _.
                    Triple-bind (λ _ v. Placed R stable o v)
                      (Triple-weaken (λ _ v. Placed R stable o v) (λ _ v. R v.trace)
                        (place_lem R stable o) (λ s j. j) (λ _ v j. j) (λ _ v j. weak v j))
                      (λ _.
                        Triple-bind (λ _ v. Placed R stable o v)
                          (Triple-call (λ _ v. Placed R stable o v) (λ _ v. Else v.trace) nginx_test
                            h.nginx_test (λ w j a e. (stable nginx_test true w.trace tt j.0, j.1))
                            (λ w j x e. weaker _ (stable nginx_test false w.trace tt j.0)))
                          test_lem))))
      where
        fails :
            {A : Type 0} {m : Exec State A}
            → Keeps (λ v. R v.trace) m
            → Triple (λ v. R v.trace) m (λ _ v. R v.trace) (λ _ v. Else v.trace)
        fails k =
            Triple-weaken (λ _ v. R v.trace) (λ _ v. R v.trace) k (λ s j. j) (λ _ v j. j)
              (λ _ v j. weak v j)

  pub on_Ordered :
      {A : Type 0} (c : Call) (f : Answer Call A)
      → Still c
      → Keeps {S = State} (λ v. Ordered h order v.trace) (call c f)
  on_Ordered c f q =
      Triple-call (λ _ v. Ordered h order v.trace) (λ _ v. Ordered h order v.trace) c f
        (λ w j a e. Ordered-Still c true w.trace q j) (λ w j x e. Ordered-Still c false w.trace q j)

  pub lift-Keeps :
      {A : Type 0} (R : Calls → Type 0) (r : Result A) → Keeps {S = State} (λ v. R v.trace) (lift r)
  lift-Keeps R (ok a) = record { at = λ s j. j }
  lift-Keeps R (err e) = record { at = λ s j. j }

  pub own-Keeps :
      (R : Calls → Type 0) (f : State → State)
      → ((s : State) → (f s).trace ≡ s.trace)
      → Keeps (λ v. R v.trace) (modify f)
  own-Keeps R f same = record { at = λ s j. subst R (sym (same s)) j }

  pub bind-Ordered :
      {A B : Type 0} {m : Exec State A} {f : A → Exec State B}
      → Keeps (λ v. Ordered h order v.trace) m
      → ((a : A) → Keeps (λ v. Ordered h order v.trace) (f a))
      → Keeps (λ v. Ordered h order v.trace) (m >>= f)
  bind-Ordered first rest = Keeps-bind (Ordered h order) Ordered-stable first rest

  pub own-Ordered :
      (f : State → State)
      → ((s : State) → (f s).trace ≡ s.trace)
      → Keeps (λ v. Ordered h order v.trace) (modify f)
  own-Ordered f same = own-Keeps (Ordered h order) f same

  pub Ordered-reload : (o : Option String) → Keeps (λ v. Ordered h order v.trace) (reload_proxy h o)
  Ordered-reload o =
      reload_proxy_lem (Ordered h order) Ordered-stable o (Ordered h order) (Ordered h order)
        (moves o) (fails o) (λ t j. j)
    where
      moves :
          (o : Option String) (t : Calls)
          → Ordered h order t
          → Ordered h order ((reload o, true) ∷ t)
      moves none t j = j
      moves (some n) t j = j

      fails :
          (o : Option String) (t : Calls)
          → Ordered h order t
          → Ordered h order ((reload o, false) ∷ t)
      fails none t j = j
      fails (some n) t j = j
