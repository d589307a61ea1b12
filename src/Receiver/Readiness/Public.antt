-- ===== src/Receiver/Readiness/Public.antt =====
-- What a wait for public readiness that returns has seen (scripts/deploy-gcp.py, `public_probe`,
-- `wait_public_readiness` and `smoke`).
use map_service_infra.Base.{
  ℕ, zero, suc, String, ◌<>◌, ◌≡◌, refl, ap, ◌∙◌, Bool, true, false, Option, List, [], ◌∷◌, arith,
}
use map_service_infra.Base.Json.{Json}
use map_service_infra.Base.Result.{Error, coded, other, Result, ok}
use map_service_infra.Base.Exec.{Exec}
use map_service_infra.Base.Exec.Rules.{
  Triple, Triple-bind, Triple-pure, Triple-raise, Triple-from, Triple-weaken, Triple-skip,
  Triple-attempt,
}
use map_service_infra.Base.World.{Trace, Triple-call}
use map_service_infra.Base.Quiet.{Stable, IsQuiet, Triple-quiet, quiet_rules}
use map_service_infra.Receiver.Model.{
  Site, Reply, answered, failed, Host, Call, State, http, cloud_up, open_edge, restore, aside,
}
use map_service_infra.Receiver.Readiness.{
  Probe, public_probes, edge_health, bff_ready, account_unauthorized, Verdict, ready, unready,
  judge_code, Ended, complete, exhausted, remaining_smoke_time, passed, judge, public_probe,
  after_probe, round, finish, after_round, wait_loop, ended, on_deadline, wait_public_readiness,
  smoke, rounds,
}

-- Calls aside that are no request.
abbrev pub calm : Call → Bool
calm (http url) = false
calm c = aside c

pub aside_of_calm : (c : Call) → calm c ≡ true → aside c ≡ true
aside_of_calm (http url) k = refl
aside_of_calm _ k = k

-- The probes, the last first.
abbrev pub last_probes : List Probe
last_probes = account_unauthorized ∷ bff_ready ∷ edge_health ∷ []

-- A response with what the probe expects, in its status and its body.
abbrev pub Passes : Probe → Result Reply → Type 0
Passes p r =
    (code : ℕ) × ((body : Option Json) × ((r ≡ ok (answered code body))
        × (judge_code p code body ≡ ready)))

module _ (h : Host) (base : String) where
  -- The last requests are these probes, the last first, each passed; and since the first of them no
  -- container was brought up or restored and the entrance was not opened.
  abbrev pub LastRound : List Probe → Trace Call → Type 0
  LastRound [] t = Unit {0}
  LastRound (p ∷ ps) [] = ⊥
  LastRound (p ∷ ps) ((http url, _) ∷ t) =
      (url ≡ base <> p.path) × (Passes p (h.http url t) × LastRound ps t)
  LastRound (p ∷ ps) ((cloud_up args env, _) ∷ t) = ⊥
  LastRound (p ∷ ps) ((open_edge args, _) ∷ t) = ⊥
  LastRound (p ∷ ps) ((restore args, _) ∷ t) = ⊥
  LastRound (p ∷ ps) (_ ∷ t) = LastRound (p ∷ ps) t

  pub LastRound-stable : (ps : List Probe) → Stable calm (LastRound ps)
  LastRound-stable [] c done t k j = tt
  LastRound-stable (p ∷ ps) (http url) done t k j = cc
  LastRound-stable (p ∷ ps) (cloud_up args env) done t k j = cc
  LastRound-stable (p ∷ ps) (open_edge args) done t k j = cc
  LastRound-stable (p ∷ ps) (restore args) done t k j = cc
  LastRound-stable (p ∷ ps) _ done t k j = j

-- The reversed list before another.
abbrev onto : List Probe → List Probe → List Probe
onto [] acc = acc
onto (p ∷ ps) acc = onto ps (p ∷ acc)

unready_ready : {X : Type 0} (c : Option ℕ) (k : String) (r : Bool) → unready c k r ≡ ready → X
unready_ready c k r e = absurd (ground (arith, e))

exhausted_complete : {X : Type 0} → exhausted ≡ complete → X
exhausted_complete e = absurd (ground (arith, e))

module _ (h : Host) (s : Site) where
  abbrev Round : List Probe → State → Type 0
  Round ps w = LastRound h s.target.public_url ps w.trace

  round_stable : (ps : List Probe) (o : Bool) → Stable calm (LastRound h s.target.public_url ps)
  round_stable ps o = LastRound-stable h s.target.public_url ps

  remaining_calm : (d : ℕ) → IsQuiet calm (remaining_smoke_time h d)
  unfolding remaining_smoke_time
  remaining_calm d = search quiet_rules depth 30

  calm_lem :
      {A : Type 0} (ps : List Probe) {m : Exec State A}
      → IsQuiet calm m
      → Triple (Round ps) m (λ _ w. Round ps w) (λ _ _. Unit {0})
  calm_lem ps q =
      Triple-quiet (λ o t. LastRound h s.target.public_url ps t) (round_stable ps) (λ e w j. tt) q

  passed_lem :
      (ps : List Probe) (v : Verdict)
      → Triple
          (λ w. v ≡ ready → Round ps w)
          (passed h v)
          (λ u w. u ≡ ready → Round ps w)
          (λ _ _. Unit {0})
  unfolding passed
  passed_lem ps ready =
      Triple-weaken (λ _ w. Round ps w) (λ _ _. Unit {0})
        (calm_lem ps (search quiet_rules depth 30)) (λ w j. j refl) (λ _ w j e. j) (λ _ _ j. j)
  passed_lem ps (unready c k r) = Triple-pure _ (λ w j. j)

  -- What a reply gives.
  abbrev Gives : Probe → List Probe → Reply → State → Type 0
  Gives p ps reply w =
      (code : ℕ) (body : Option Json)
      → reply ≡ answered code body
      → judge_code p code body ≡ ready
      → Round (p ∷ ps) w

  judge_lem :
      (p : Probe) (ps : List Probe) (d : ℕ) (reply : Reply)
      → Triple
          (Gives p ps reply)
          (judge h p d reply)
          (λ v w. v ≡ ready → Round (p ∷ ps) w)
          (λ _ _. Unit {0})
  unfolding judge
  judge_lem p ps d (failed f) = Triple-pure _ (λ w j e. unready_ready _ _ _ e)
  judge_lem p ps d (answered code body) =
      Triple-from (λ w j. j code body refl)
        (Triple-bind (λ _ w. judge_code p code body ≡ ready → Round (p ∷ ps) w)
          (Triple-quiet
            (λ o t. judge_code p code body ≡ ready → LastRound h s.target.public_url (p ∷ ps) t)
            (λ o c done t k j e. LastRound-stable h s.target.public_url (p ∷ ps) c done t k (j e))
            (λ e w j. tt) (remaining_calm d))
          (λ _. passed_lem (p ∷ ps) (judge_code p code body)))

  public_probe_lem :
      (p : Probe) (ps : List Probe) (d : ℕ)
      → Triple
          (Round ps)
          (public_probe h s p d)
          (λ v w. v ≡ ready → Round (p ∷ ps) w)
          (λ _ _. Unit {0})
  unfolding public_probe
  public_probe_lem p ps d =
      Triple-bind (λ _ w. Round ps w) (calm_lem ps (remaining_calm d))
        (λ _.
          Triple-bind (Gives p ps)
            (Triple-call _ _ (http _) (h.http _)
              (λ w j reply e code body q k. (refl, ((code, (body, (e ∙ ap ok q, k))), j)))
              (λ w j x e. tt))
            (λ reply. judge_lem p ps d reply))

  after_probe_lem :
      (p : Probe) (ps rest : List Probe) (v : Verdict) (m : Exec State Verdict)
      → Triple
          (Round (p ∷ ps))
          m
          (λ u w. u ≡ ready → Round (onto rest (p ∷ ps)) w)
          (λ _ _. Unit {0})
      → Triple
          (λ w. v ≡ ready → Round (p ∷ ps) w)
          (after_probe h v m)
          (λ u w. u ≡ ready → Round (onto rest (p ∷ ps)) w)
          (λ _ _. Unit {0})
  unfolding after_probe
  after_probe_lem p ps rest ready m t = Triple-from (λ w j. j refl) t
  after_probe_lem p ps rest (unready c k r) m t = Triple-pure _ (λ w j e. unready_ready c k r e)

  round_lem :
      (d : ℕ) (ps acc : List Probe)
      → Triple
          (Round acc)
          (round h s d ps)
          (λ v w. v ≡ ready → Round (onto ps acc) w)
          (λ _ _. Unit {0})
  unfolding round
  round_lem d [] acc = Triple-pure _ (λ w j e. j)
  round_lem d (p ∷ ps) acc =
      Triple-bind (λ v w. v ≡ ready → Round (p ∷ acc) w) (public_probe_lem p acc d)
        (λ v. after_probe_lem p acc ps v _ (round_lem d ps (p ∷ acc)))

  after_round_lem :
      (d delay : ℕ) (v : Verdict) (again : Unit {0} → Exec State Ended)
      → ((u : Unit {0})
          → Triple
              (λ _. Unit {0})
              (again u)
              (λ e w. e ≡ complete → Round last_probes w)
              (λ _ _. Unit {0}))
      → Triple
          (λ w. v ≡ ready → Round last_probes w)
          (after_round h d delay v again)
          (λ e w. e ≡ complete → Round last_probes w)
          (λ _ _. Unit {0})
  unfolding after_round finish
  after_round_lem d delay ready again t =
      Triple-from (λ w j. j refl)
        (Triple-bind (λ _ w. Round last_probes w) (calm_lem last_probes (remaining_calm d))
          (λ _. Triple-pure _ (λ w j e. j)))
  after_round_lem d delay (unready c k r) again t = Triple-skip _ t

  wait_loop_lem :
      (fuel d delay : ℕ)
      → Triple
          (λ _. Unit {0})
          (wait_loop h fuel s d delay)
          (λ e w. e ≡ complete → Round last_probes w)
          (λ _ _. Unit {0})
  unfolding wait_loop
  wait_loop_lem zero d delay = Triple-pure _ (λ w j e. exhausted_complete e)
  wait_loop_lem (suc fuel) d delay = Triple-skip _ (λ _.
      Triple-bind (λ v w. v ≡ ready → Round last_probes w) (round_lem d public_probes [])
        (λ v. after_round_lem d delay v _ (λ _. wait_loop_lem fuel d _)))

  ended_lem :
      (e : Ended)
      → Triple
          (λ w. e ≡ complete → Round last_probes w)
          (ended h e)
          (λ _ w. Round last_probes w)
          (λ _ _. Unit {0})
  unfolding ended
  ended_lem complete = Triple-pure _ (λ w j. j refl)
  ended_lem exhausted = Triple-raise _ (λ w j. tt)

  on_deadline_lem :
      (e : Error)
      → Triple (λ _. Unit {0}) (on_deadline h e) (λ _ w. Round last_probes w) (λ _ _. Unit {0})
  unfolding on_deadline
  on_deadline_lem (coded c) = Triple-skip _ (λ _. Triple-raise _ (λ w j. tt))
  on_deadline_lem other = Triple-raise _ (λ w j. tt)

  wait_public_readiness_lem :
      (d : ℕ)
      → Triple
          (λ _. Unit {0})
          (wait_public_readiness h s d)
          (λ _ w. Round last_probes w)
          (λ _ _. Unit {0})
  unfolding wait_public_readiness
  wait_public_readiness_lem d =
      Triple-attempt (λ _ _. Unit {0})
        (Triple-bind (λ e w. e ≡ complete → Round last_probes w) (wait_loop_lem (rounds h) d 250)
          ended_lem)
        on_deadline_lem

  pub smoke_lem : Triple (λ _. Unit {0}) (smoke h s) (λ _ w. Round last_probes w) (λ _ _. Unit {0})
  unfolding smoke
  smoke_lem =
      Triple-skip _ (λ now. Triple-skip _ (λ _. Triple-skip _ (λ _. wait_public_readiness_lem _)))
