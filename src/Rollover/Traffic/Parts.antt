-- ===== src/Rollover/Traffic/Parts.antt =====
-- The parts of scripts/service-rollover.py that move no traffic.
use map_service_infra.Base.{
  ℕ, zero, suc, ◌+◌, String, ◌≡◌, subst, Bool, true, false, none, some, List, [], ◌∷◌, arith, ltb,
  leb, eqb, ◌==◌, option_eq, nat_eq, ◌||◌, if◌then◌else◌,
}
use map_service_infra.Base.Result.{Error, ok}
use map_service_infra.Base.Exec.{Exec, pure, raise, gets, require, ◌>>=◌, ◌>>◌}
use map_service_infra.Base.Exec.Rules.{
  Triple, Triple-bind, Triple-attempt, Triple-pure, Triple-raise, Triple-require, Triple-weaken,
}
use map_service_infra.Base.World.{Trace, Answer, call, Keeps, Triple-call}
use map_service_infra.Rollover.{
  Call, Host, State, container_of, state, sleep, container_id, sole, ask_state, wait_loop,
  wait_healthy, public_ok, public_request, connect, connect_all, health_request, health_status,
  probe_loop, probe,
}
use map_service_infra.Rollover.Traffic.{Quiet}

-- Both branches of a test keep a condition.
pub Keeps-if :
    {S A : Type 0} {P : S → Type 0} (b : Bool) {m n : Exec S A}
    → Keeps P m
    → Keeps P n
    → Keeps P (if b then m else n)
Keeps-if true m n = m
Keeps-if false m n = n

module _ (R : Trace Call → Type 0)
    (stable : (c : Call) (done : Bool) (t : Trace Call) → Quiet c → R t → R ((c, done) ∷ t)) where
  abbrev At : State → Type 0
  At v = R v.trace

  pub Quiet-call : {A : Type 0} (c : Call) (f : Answer Call A) → Quiet c → Keeps At (call c f)
  Quiet-call c f q =
      Triple-call (λ _ v. At v) (λ _ v. At v) c f (λ w j a e. stable c true w.trace q j)
        (λ w j x e. stable c false w.trace q j)

  pub Keeps-require : (b : Bool) (code : String) → Keeps At (require b code)
  Keeps-require b code = Triple-require b code (λ e s j. j) (λ e s j. j)

  pub Keeps-pure : {A : Type 0} (a : A) → Keeps At (pure a)
  Keeps-pure a = Triple-pure a (λ s j. j)

  pub Keeps-raise : {A : Type 0} (e : Error) → Keeps At (raise {A = A} e)
  Keeps-raise e = Triple-raise e (λ s j. j)

  pub Keeps-gets : {A : Type 0} (f : State → A) → Keeps At (gets f)
  Keeps-gets f = record { at = λ s j. j }

  pub Keeps-bind :
      {A B : Type 0} {m : Exec State A} {f : A → Exec State B}
      → Keeps At m
      → ((a : A) → Keeps At (f a))
      → Keeps At (m >>= f)
  Keeps-bind first rest = Triple-bind (λ _ v. At v) first rest

  module _ (h : Host) where
    sole-Keeps : (service : String) (ids : List String) → Keeps At (sole h service ids)
    unfolding sole
    sole-Keeps service [] = Keeps-raise _
    sole-Keeps service (cid ∷ []) = Keeps-bind (Keeps-require _ _) (λ _. Keeps-pure cid)
    sole-Keeps service (a ∷ b ∷ ids) = Keeps-raise _

    pub container_id-Keeps : (service : String) → Keeps At (container_id h service)
    unfolding container_id
    container_id-Keeps service =
        Keeps-bind (Quiet-call (container_of service) (h.container_of service) tt)
          (λ ids. sole-Keeps service ids)

    pub ask_state-Keeps : (cid : String) → Keeps At (ask_state h cid)
    unfolding ask_state
    ask_state-Keeps cid = Quiet-call (state cid) (h.state cid) tt

    pub wait_loop-Keeps :
        (fuel : ℕ) (cid : String) (deadline : ℕ) → Keeps At (wait_loop h fuel cid deadline)
    unfolding wait_loop
    wait_loop-Keeps zero cid deadline = Keeps-raise _
    wait_loop-Keeps (suc fuel) cid deadline = Keeps-bind (Keeps-gets _) (λ t.
        Keeps-if (ltb t deadline)
          (Keeps-bind (ask_state-Keeps cid) (λ last. Keeps-bind (Keeps-require _ _) (λ _.
            Keeps-if _ (Keeps-pure last)
              (Keeps-bind (Quiet-call sleep h.sleep tt) (λ _. wait_loop-Keeps fuel cid deadline)))))
          (Keeps-raise _))

    pub wait_healthy-Keeps :
        (fuel : ℕ) (cid : String) (seconds : ℕ) → Keeps At (wait_healthy h fuel cid seconds)
    unfolding wait_healthy
    wait_healthy-Keeps fuel cid seconds =
        Keeps-bind (Keeps-gets _) (λ t. wait_loop-Keeps fuel cid (t + seconds))

    pub public_ok-Keeps : (probes : List (String × ℕ)) → Keeps At (public_ok h probes)
    unfolding public_ok
    public_ok-Keeps [] = Keeps-pure _
    public_ok-Keeps ((url, expected) ∷ rest) =
        Keeps-bind
          (Triple-attempt (λ _ v. At v)
            (Keeps-bind (Quiet-call (public_request url) (h.public_request url) tt)
              (λ s. Keeps-pure _))
            (λ e. Keeps-pure none))
          (λ status. Keeps-if (status == some expected) (public_ok-Keeps rest) (Keeps-pure _))

    pub connect_all-Keeps : (green : String) (ns : List String) → Keeps At (connect_all h green ns)
    unfolding connect_all
    connect_all-Keeps green [] = Keeps-pure tt
    connect_all-Keeps green (n ∷ ns) =
        Keeps-bind (Quiet-call (connect n green) (h.connect n green) tt)
          (λ _. connect_all-Keeps green ns)

-- What `probe` adds to a condition that its own requests do not spoil.
module _ (h : Host) (host : String) (R : Trace Call → Type 0)
    (stable : (c : Call) (done : Bool) (t : Trace Call) → Quiet c → R t → R ((c, done) ∷ t))
    (asked : (done : Bool) (t : Trace Call) → R t → R ((health_request host, done) ∷ t))
    (Hit : Trace Call → Type 0)
    (hit : (t : Trace Call)
      → R t
      → h.health_request host t ≡ ok 200
      → Hit ((health_request host, true) ∷ t)) where
  abbrev pub Known : ℕ → State → Type 0
  Known status v = R v.trace × (status ≡ 200 → Hit v.trace)

  health_status_lem : Triple (λ v. R v.trace) (health_status h host) Known (λ _ v. R v.trace)
  unfolding health_status
  health_status_lem =
      Triple-attempt (λ _ v. R v.trace)
        (Triple-call Known (λ _ v. R v.trace) (health_request host) (h.health_request host)
          (λ w j a e. (
            asked true w.trace j,
            λ q. hit w.trace j (subst (λ n. h.health_request host w.trace ≡ ok n) q e),
          ))
          (λ w j x e. asked false w.trace j))
        (λ x. Triple-pure 0 (λ s j. (j, λ q. absurd (ground (arith, q)))))

  pub probe_loop_lem :
      (fuel deadline : ℕ)
      → Triple (λ v. R v.trace) (probe_loop h fuel host deadline) Known (λ _ v. R v.trace)
  unfolding probe_loop
  probe_loop_lem zero deadline = Triple-raise _ (λ s j. j)
  probe_loop_lem (suc fuel) deadline = Triple-bind Known health_status_lem (λ status.
      Triple-bind (λ _ v. Known status v) (record { at = λ w j. j })
        (λ t. branch (probe_loop_lem fuel deadline) status (eqb status 200 || leb deadline t)))
    where
      branch :
          Triple (λ v. R v.trace) (probe_loop h fuel host deadline) Known (λ _ v. R v.trace)
          → (status : ℕ) (b : Bool)
          → Triple
              (Known status)
              (if b then pure status else (do call sleep h.sleep; probe_loop h fuel host deadline))
              Known
              (λ _ v. R v.trace)
      branch again status true = Triple-pure status (λ s j. j)
      branch again status false =
          Triple-bind (λ _ v. R v.trace)
            (Triple-weaken (λ _ v. R v.trace) (λ _ v. R v.trace)
              (Quiet-call R stable sleep h.sleep tt) (λ s j. j.0) (λ _ s j. j) (λ _ s j. j))
            (λ _. again)

  pub probe_lem :
      (fuel seconds : ℕ)
      → Triple (λ v. R v.trace) (probe h fuel host seconds) Known (λ _ v. R v.trace)
  unfolding probe
  probe_lem fuel seconds =
      Triple-bind (λ _ v. R v.trace) (record { at = λ w j. j })
        (λ t. probe_loop_lem fuel (t + seconds))
