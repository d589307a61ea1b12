-- ===== src/Receiver/Deploy/Steps.antt =====
-- The order of the effects in the `try` block of scripts/deploy-gcp.py.
pub mod Whole
use map_service_infra.Base.{
  String, ◌≡◌, refl, ◌⊎◌, inl, inr, Bool, true, false, not, contains, string_eq, ◌++◌,
  if◌then◌else◌,
}
use map_service_infra.Base.Result.{Error, other}
use map_service_infra.Base.Exec.{Exec}
use map_service_infra.Base.Exec.Rules.{
  Triple, Triple-both, Triple-skip, Triple-bind, Triple-pure, Triple-require, Triple-weaken,
  Triple-modify, Triple-when,
}
use map_service_infra.Base.World.{Trace, Triple-call}
use map_service_infra.Base.Quiet.{Stable, Triple-quiet, Grown, more, IsQuiet, quiet_rules}
use map_service_infra.CutoverWatchdog.{terminal}
use map_service_infra.CutoverWatchdog.Receipt.{Latch}
use map_service_infra.Receiver.Model.{
  Pinned, Projects, Host, Call, State, backup, replace_environment, write_latch, cloud_up,
  open_edge, aside,
}
use map_service_infra.Receiver.Order.{
  LastWrite, IsOpen, BackedUp, Begun, Flagged, Flagged-stable, AllAnswered, Ordered,
  private_answers, harmless, AllAnswered-stable, Ordered-stable, LastWrite-stable, BackedUp-stable,
  Grown-stable, Begun-LastWrite,
}
use map_service_infra.Receiver.Compose.Quiet.{compose_command-IsQuiet}
use map_service_infra.Receiver.Readiness.Answers.{private_smoke_lem}
use map_service_infra.Receiver.Readiness.Public.{
  calm, aside_of_calm, last_probes, LastRound, LastRound-stable, smoke_lem,
}
use map_service_infra.Receiver.Deploy.{
  Plan, say, accept, latch_in, write, start, bring_up, open_public, open_entry, public_files,
  edge_args, go_public, deploy,
}
use map_service_infra.Receiver.Deploy.Quiet.{
  check_release-IsQuiet, close_edge-IsQuiet, check_started-IsQuiet, accept-IsQuiet,
}

abbrev pub IsComplete : String → Bool → Type 0
IsComplete phase done = (phase ≡ "complete") × (done ≡ true)

starting_open : contains terminal "starting_private" ≡ false
unfolding string_eq
starting_open = refl

rollover_open : contains terminal "rollover" ≡ false
unfolding string_eq
rollover_open = refl

pub ready_open : contains terminal "private_ready" ≡ false
unfolding string_eq
ready_open = refl

pub opening_open : contains terminal "opening_ingress" ≡ false
unfolding string_eq
opening_open = refl

first_open :
    (rollover : Bool)
    → contains terminal (if rollover then "rollover" else "starting_private") ≡ false
first_open true = rollover_open
first_open false = starting_open

module _ (h : Host) (t0 : Trace Call) (b : Bool) where
  -- No container was touched.
  abbrev pub Before : Bool → Trace Call → Type 0
  Before o t = Ordered h t × (o ≡ false) × Grown harmless t0 t

  abbrev Secured : Bool → Trace Call → Type 0
  Secured o t = Before o t × BackedUp t

  abbrev Written : Bool → Trace Call → Type 0
  Written o t = Ordered h t × BackedUp t × LastWrite IsOpen t

  -- The latch is written, with a phase that is not terminal.
  abbrev pub Running : Bool → Trace Call → Type 0
  Running o t = Written o t × (o ≡ true) × Flagged b t

  abbrev pub Ready : Bool → Trace Call → Type 0
  Ready o t = Running o t × AllAnswered h private_answers t

  -- The public probes passed, and nothing was opened since.
  abbrev pub Public : Plan → Trace Call → Type 0
  Public p t = LastRound h p.site.target.public_url last_probes t

  abbrev pub Complete : Plan → Bool → Trace Call → Type 0
  Complete p o t = (Ordered h t × (o ≡ true) × LastWrite IsComplete t × Flagged b t) × Public p t

  -- After a raise.
  abbrev pub Raised : Bool → Trace Call → Type 0
  Raised o t =
      Ordered h t × (((o ≡ false) × Grown harmless t0 t) ⊎ ((o ≡ true) × Begun t × Flagged b t))

  pub Before-stable : (o : Bool) → Stable aside (Before o)
  Before-stable o c done t k j =
      (Ordered-stable h c done t k j.0, j.1, Grown-stable t0 c done t k j.2)

  Secured-stable : (o : Bool) → Stable aside (Secured o)
  Secured-stable o c done t k j = (Before-stable o c done t k j.0, BackedUp-stable c done t k j.1)

  pub Running-stable : (o : Bool) → Stable aside (Running o)
  Running-stable o c done t k j = (
    (
      Ordered-stable h c done t k j.0.0,
      BackedUp-stable c done t k j.0.1,
      LastWrite-stable IsOpen c done t k j.0.2,
    ),
    j.1,
    Flagged-stable b c done t k j.2,
  )

  pub Complete-stable : (p : Plan) (o : Bool) → Stable calm (Complete p o)
  Complete-stable p o c done t k j = (
    (
      Ordered-stable h c done t (aside_of_calm c k) j.0.0,
      j.0.1,
      LastWrite-stable IsComplete c done t (aside_of_calm c k) j.0.2,
      Flagged-stable b c done t (aside_of_calm c k) j.0.3,
    ),
    LastRound-stable h p.site.target.public_url last_probes c done t k j.1,
  )

  pub Before-Raised : (e : Error) (w : State) → Before w.own w.trace → Raised w.own w.trace
  Before-Raised e w j = (j.0, inl (j.1, j.2))

  pub begun : (o : Bool) (t : Trace Call) → Running o t → Begun t
  begun o t j = Begun-LastWrite IsOpen t (λ phase done k. k.1) j.0.2

  pub Running-Raised : (e : Error) (w : State) → Running w.own w.trace → Raised w.own w.trace
  Running-Raised e w j = (j.0.0, inr (j.1, begun w.own w.trace j, j.2))

  pub Complete-Raised :
      (p : Plan) (e : Error) (w : State) → Complete p w.own w.trace → Raised w.own w.trace
  Complete-Raised p e w j =
      (j.0.0, inr (j.0.1, Begun-LastWrite IsComplete w.trace (λ phase done k. k.1) j.0.2, j.0.3))

  pub say-calm : (phase : String) → IsQuiet calm (say h phase)
  unfolding say
  say-calm phase = search quiet_rules depth 30

  pub start_lem :
      (p : Plan)
      → p.rollback_allowed ≡ b
      → Triple
          (λ w. Before w.own w.trace)
          (start h p)
          (λ _ w. Running w.own w.trace)
          (λ _ w. Raised w.own w.trace)
  unfolding start write
  start_lem p same =
      Triple-bind (λ _ w. Secured w.own w.trace)
        (Triple-call _ _ backup h.backup (λ w j a e. ((j.0, j.1, more backup true refl j.2), refl))
          (λ w j x e. (j.0, inl (j.1, more backup false refl j.2))))
        (λ _.
          Triple-bind (λ _ w. Secured w.own w.trace)
            (Triple-call _ _ (replace_environment p.candidate_environment)
              (h.replace_environment p.candidate_environment)
              (λ w j a e. Secured-stable w.own (replace_environment _) true w.trace refl j)
              (λ w j x e.
                Before-Raised x _
                  (Before-stable w.own (replace_environment _) false w.trace refl j.0)))
            (λ _.
              Triple-bind (λ _ w. Written w.own w.trace × Flagged b w.trace)
                (Triple-call _ _ (write_latch (first p)) (h.write_latch (first p))
                  (λ w j a e. ((j.0.0, j.1, (first_open p.rollover, refl)), same))
                  (λ w j x e. (j.0.0, inl (j.0.1, more (write_latch (first p)) false refl j.0.2))))
                (λ _. Triple-modify _ (λ w j. (j.0, refl, j.1)))))
    where
      first : Plan → Latch
      first p = latch_in p (if p.rollover then "rollover" else "starting_private")

  pub bring_up_lem :
      (p : Plan)
      → Triple
          (λ w. Running w.own w.trace)
          (bring_up h p)
          (λ _ w. Running w.own w.trace)
          (λ _ w. Raised w.own w.trace)
  unfolding bring_up
  bring_up_lem p =
      Triple-bind (λ _ w. Running w.own w.trace)
        (Triple-call _ _ (cloud_up _ _) (h.cloud_up _ _)
          (λ w j a e. ((((j.0.1, j.0.2), j.0.0), j.0.1, j.0.2), j.1, j.2))
          (λ w j x e. (((j.0.1, j.0.2), j.0.0), inr (j.1, begun w.own w.trace j, j.2))))
        (λ code.
          Triple-bind (λ _ w. Running w.own w.trace)
            (Triple-require _ _ (λ e w j. j) (λ e w j. Running-Raised other w j))
            (λ _. Triple-pure _ (λ w j. j)))

  -- A further phase that is not terminal.
  pub advance :
      (l : Latch)
      → contains terminal l.phase ≡ false
      → l.prior_rollback_compatible ≡ b
      → Triple
          (λ w. Ready w.own w.trace)
          (write h l)
          (λ _ w. Ready w.own w.trace)
          (λ _ w. Raised w.own w.trace)
  unfolding write
  advance l shut same =
      Triple-call _ _ (write_latch l) (h.write_latch l)
        (λ w j a e. (((j.0.0.0, j.0.0.1, (shut, refl)), j.0.1, same), j.1))
        (λ w j x e. (j.0.0.0, inr (j.0.1, inr (begun w.own w.trace j.0), same)))

  open_entry_lem :
      (p : Plan)
      → Triple
          (λ w. Ready w.own w.trace)
          (open_entry h p)
          (λ _ w. Running w.own w.trace)
          (λ _ w. Raised w.own w.trace)
  unfolding open_entry
  open_entry_lem p =
      Triple-bind (λ _ w. Ready w.own w.trace)
        (Triple-quiet Ready
          (λ o c done t k j.
            (Running-stable o c done t k j.0, AllAnswered-stable h private_answers c done t k j.1))
          (λ e w j. Running-Raised e w j.0)
          (compose_command-IsQuiet h p.site false (public_files p)))
        (λ args.
          Triple-call _ _ (open_edge (args ++ edge_args)) (h.open_edge (args ++ edge_args))
            (λ w j a e. ((((j.0.0.1, j.0.0.2, j.1), j.0.0.0), j.0.0.1, j.0.0.2), j.0.1, j.0.2))
            (λ w j x e.
              (((j.0.0.1, j.0.0.2, j.1), j.0.0.0), inr (j.0.1, begun w.own w.trace j.0, j.0.2))))

  pub open_public_lem :
      (p : Plan)
      → Triple
          (λ w. Ready w.own w.trace)
          (open_public h p)
          (λ _ w. Running w.own w.trace)
          (λ _ w. Raised w.own w.trace)
  unfolding open_public
  open_public_lem p =
      Triple-when (not p.rollover) (open_entry h p) (λ _. open_entry_lem p) (λ _ w j. j.0)
