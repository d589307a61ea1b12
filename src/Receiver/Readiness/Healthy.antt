-- ===== src/Receiver/Readiness/Healthy.antt =====
-- The wait for public readiness of scripts/deploy-gcp.py, at a host whose service answers.
use map_service_infra.Base.{
  ℕ, suc, String, ◌<>◌, ◌≡◌, refl, sym, subst, true, Option, List, [], ◌∷◌, arith, ltb,
}
use map_service_infra.Base.Json.{Json}
use map_service_infra.Base.Lists.{All}
use map_service_infra.Base.Result.{Error, Result, ok, err}
use map_service_infra.Base.Exec.{Exec}
use map_service_infra.Base.Exec.Rules.{
  Post, Triple, Triple-bind, Triple-pure, Triple-require, Triple-attempt, Triple-given,
}
use map_service_infra.Base.World.{Trace, Triple-call}
use map_service_infra.Receiver.Model.{Site, Reply, answered, Host, Call, State, clock, http, report}
use map_service_infra.Receiver.Readiness.{
  Probe, public_probes, Verdict, ready, judge_code, Ended, complete, remaining_smoke_time, passed,
  judge, public_probe, after_probe, round, finish, after_round, wait_loop, ended,
  wait_public_readiness,
}
use map_service_infra.Receiver.Readiness.Public.{Passes}

-- The action returns a value with the property, from every state.
abbrev Surely : {A : Type 0} → (A → Type 0) → Exec State A → Type 0
Surely P m = Triple (λ _. Unit {0}) m (λ a _. P a) (λ _ _. ⊥)

surely_ok : (r : Result Unit) (w : State) → Post (λ _ _. Unit {0}) (λ _ _. ⊥) r w → r ≡ ok tt
surely_ok (ok a) w j = refl
surely_ok (err e) w j = absurd j

module _ (h : Host) (s : Site) (deadline : ℕ)
    (early : (t : Trace Call) → (n : ℕ) × ((h.now t ≡ ok n) × (ltb n deadline ≡ true)))
    (reports : (phase : String) (t : Trace Call) → h.report phase t ≡ ok tt)
    (answers : All
      (λ p. (t : Trace Call) → Passes p (h.http (s.target.public_url <> p.path) t))
      public_probes) where
  remaining_lem : Surely (λ _. Unit {0}) (remaining_smoke_time h deadline)
  unfolding remaining_smoke_time
  remaining_lem =
      Triple-bind (λ now _. ltb now deadline ≡ true)
        (Triple-call _ _ clock h.now
          (λ w j now e.
            before (h.now w.trace) (early w.trace).0 now (early w.trace).1.0 (early w.trace).1.1 e)
          (λ w j x e. told (h.now w.trace) (early w.trace).0 x (early w.trace).1.0 e))
        (λ now.
          Triple-bind (λ _ _. Unit {0})
            (Triple-require (ltb now deadline) _ (λ e w j. tt) (λ e w j. ground (arith, e, j)))
            (λ _. Triple-pure _ (λ w j. tt)))
    where
      before :
          (r : Result ℕ) (n now : ℕ)
          → r ≡ ok n
          → ltb n deadline ≡ true
          → r ≡ ok now
          → ltb now deadline ≡ true
      before r n now p q e = ground (arith, p, q, e)

      told : (r : Result ℕ) (n : ℕ) (x : Error) → r ≡ ok n → r ≡ err x → ⊥
      told r n x p e = ground (arith, p, e)

  passed_lem : (v : Verdict) → v ≡ ready → Surely (λ u. u ≡ ready) (passed h v)
  unfolding passed
  passed_lem v e =
      subst (λ u. Surely (λ x. x ≡ ready) (passed h u)) (sym e)
        (Triple-bind (λ _ _. Unit {0})
          (Triple-call _ _ (report _) (h.report _) (λ w j a k. tt)
            (λ w j x k.
              printed (h.report "public_probe_pass" w.trace) x (reports "public_probe_pass" w.trace)
                k))
          (λ _. Triple-pure ready (λ w j. refl)))
    where
      printed : (r : Result (Unit {0})) (x : Error) → r ≡ ok tt → r ≡ err x → ⊥
      printed r x p e = ground (arith, p, e)

  judge_lem :
      (p : Probe) (code : ℕ) (body : Option Json)
      → judge_code p code body ≡ ready
      → Surely (λ v. v ≡ ready) (judge h p deadline (answered code body))
  unfolding judge
  judge_lem p code body e = Triple-bind (λ _ _. Unit {0}) remaining_lem (λ _. passed_lem _ e)

  -- The reply that a passed probe gets.
  abbrev Good : Probe → Reply → Type 0
  Good p reply =
      (code : ℕ) × ((body : Option Json) × ((reply ≡ answered code body)
          × (judge_code p code body ≡ ready)))

  good : (p : Probe) (reply : Reply) (r : Result Reply) → Passes p r → r ≡ ok reply → Good p reply
  good p reply r (code, (body, (e, k))) q = (code, (body, (ground (arith, e, q), k)))

  never : (p : Probe) (r : Result Reply) (x : Error) → Passes p r → r ≡ err x → ⊥
  never p r x (code, (body, (e, k))) q = ground (arith, e, q)

  public_probe_lem :
      (p : Probe)
      → ((t : Trace Call) → Passes p (h.http (s.target.public_url <> p.path) t))
      → Surely (λ v. v ≡ ready) (public_probe h s p deadline)
  unfolding public_probe
  public_probe_lem p passes =
      Triple-bind (λ _ _. Unit {0}) remaining_lem
        (λ _.
          Triple-bind (λ reply _. Good p reply)
            (Triple-call _ _ (http _) (h.http _) (λ w j reply e. good p reply _ (passes w.trace) e)
              (λ w j x e. never p _ x (passes w.trace) e))
            (λ reply. Triple-given (λ g.
              subst (λ r. Surely (λ v. v ≡ ready) (judge h p deadline r)) (sym g.1.1.0)
                (judge_lem p g.0 g.1.0 g.1.1.1))))

  round_lem :
      (ps : List Probe)
      → All (λ p. (t : Trace Call) → Passes p (h.http (s.target.public_url <> p.path) t)) ps
      → Surely (λ v. v ≡ ready) (round h s deadline ps)
  unfolding round after_probe
  round_lem [] all = Triple-pure ready (λ w j. refl)
  round_lem (p ∷ ps) all =
      Triple-bind (λ v _. v ≡ ready) (public_probe_lem p all.0)
        (λ v. Triple-given (λ e.
          subst (λ u. Surely (λ x. x ≡ ready) (after_probe h u (round h s deadline ps))) (sym e)
            (round_lem ps all.1)))

  after_round_lem :
      (delay : ℕ) (v : Verdict) (again : Unit {0} → Exec State Ended)
      → v ≡ ready
      → Surely (λ e. e ≡ complete) (after_round h deadline delay v again)
  unfolding after_round finish
  after_round_lem delay v again e =
      subst (λ u. Surely (λ x. x ≡ complete) (after_round h deadline delay u again)) (sym e)
        (Triple-bind (λ _ _. Unit {0}) remaining_lem (λ _. Triple-pure complete (λ w j. refl)))

  wait_loop_lem :
      (fuel delay : ℕ) → Surely (λ e. e ≡ complete) (wait_loop h (suc fuel) s deadline delay)
  unfolding wait_loop
  wait_loop_lem fuel delay =
      Triple-bind (λ _ _. Unit {0}) remaining_lem
        (λ _.
          Triple-bind (λ v _. v ≡ ready) (round_lem public_probes answers)
            (λ v. Triple-given (λ e. after_round_lem delay v _ e)))

  ended_lem : (e : Ended) → e ≡ complete → Surely (λ _. Unit {0}) (ended h e)
  unfolding ended
  ended_lem e k =
      subst (λ x. Surely (λ _. Unit {0}) (ended h x)) (sym k) (Triple-pure tt (λ w j. tt))

  wait_lem : Surely (λ _. Unit {0}) (wait_public_readiness h s deadline)
  unfolding wait_public_readiness
  wait_lem =
      Triple-attempt (λ _ _. ⊥)
        (Triple-bind (λ e _. e ≡ complete) (wait_loop_lem 360 250)
          (λ e. Triple-given (λ k. ended_lem e k)))
        (λ x. record { at = λ w j. absurd j })

  -- Where the clock reads a time before the deadline, a status can be printed, and each public probe gets
  -- the status and the body that it expects, whenever it is asked, the wait for public readiness
  -- returns: a deployment whose service answers is not failed by it.
  pub wait_public_readiness_returns : (w : State) → (wait_public_readiness h s deadline w).0 ≡ ok tt
  wait_public_readiness_returns w =
      surely_ok (wait_public_readiness h s deadline w).0 (wait_public_readiness h s deadline w).1
        (wait_lem.at w tt)
