-- ===== src/ServingWatchdog/Starts/Run.antt =====
-- The whole run of the watchdog (scripts/ncp-serving-watchdog.py, `main`).
use map_service_infra.Base.{
  refl, sym, subst, Bool, true, false, Option, none, some, List, [], ◌∷◌, string_eq, option_eq,
}
use map_service_infra.Base.Lists.{All-map}
use map_service_infra.Base.Result.{Error, coded, other, Result, ok, err}
use map_service_infra.Base.Exec.Rules.{
  Post, Triple, Triple-bind, Triple-attempt, Triple-weaken, Triple-pure,
}
use map_service_infra.Base.World.{Trace, Keeps, Triple-call}
use map_service_infra.Serving.{Container, File, absent, unreadable, written}
use map_service_infra.ServingWatchdog.{
  Call, Host, State, Outcome, read_receipt, lock, start, published_by, of_file, published, state,
  with_state, on_error, start_all, start_due, start_again, locked, start_if, run_on, run,
}
use map_service_infra.ServingWatchdog.Starts.{Grants, Due, Held, Justified, grants_lem}
use map_service_infra.ServingWatchdog.Starts.Looks.{
  Found, Read, Of-Grants, published_lem, Calm, Looked, state_lem, AllDue, with_state_lem,
}

module _ (h : Host) where
  abbrev Ready : Trace Call → Type 0
  Ready t = Held h t × Justified h t

  calm-Ready : Calm Ready
  calm-Ready id done t j = j

  start_all_lem :
      (cs : List Container)
      → Triple
          (λ v. Ready v.trace × AllDue h cs v.trace)
          (start_all h cs)
          (λ _ v. Ready v.trace)
          (λ _ v. Ready v.trace)
  unfolding start_all
  start_all_lem [] = Triple-pure tt (λ v j. j.0)
  start_all_lem (c ∷ cs) =
      Triple-bind (λ _ v. Ready v.trace × AllDue h cs v.trace)
        (Triple-call (λ _ v. Ready v.trace × AllDue h cs v.trace) (λ _ v. Ready v.trace)
          (start c.container_id) (h.start c.container_id)
          (λ w j a e. (started c w.trace true j.0 j.1.0, later w.trace j.1.1))
          (λ w j x e. started c w.trace false j.0 j.1.0))
        (λ _. start_all_lem cs)
    where
      started :
          (d : Container) (t : Trace Call) (done : Bool)
          → Ready t
          → Due h d t
          → Ready ((start d.container_id, done) ∷ t)
      started d t done r k = (r.0, ((d, refl, k), r.0, r.1))

      later : (t : Trace Call) → AllDue h cs t → AllDue h cs ((start c.container_id, true) ∷ t)
      later t k =
          All-map (λ x. Due h x t) (λ x. Due h x ((start c.container_id, true) ∷ t)) cs (λ x g. g) k

  state-Keeps :
      (R : Trace Call → Type 0) (calm : Calm R) (c : Container) → Keeps (λ v. R v.trace) (state h c)
  state-Keeps R calm c =
      Triple-weaken (Looked h R calm c) (λ _ v. R v.trace) (state_lem h R calm c) (λ v j. j)
        (λ s v j. j.0) (λ x v j. j)

  with_state-Keeps :
      (R : Trace Call → Type 0) (calm : Calm R) (wanted : Bool) (cs : List Container)
      → Keeps (λ v. R v.trace) (with_state h wanted cs)
  unfolding with_state
  with_state-Keeps R calm wanted [] = Triple-pure [] (λ v j. j)
  with_state-Keeps R calm wanted (c ∷ cs) =
      Triple-bind (λ _ v. R v.trace) (state-Keeps R calm c)
        (λ s.
          Triple-bind (λ _ v. R v.trace) (with_state-Keeps R calm wanted cs)
            (λ rest. Triple-pure _ (λ v j. j)))

  start_due_lem :
      (cs : List Container)
      → Triple
          (λ v. Ready v.trace × AllDue h cs v.trace)
          (start_due h cs)
          (λ _ v. Ready v.trace)
          (λ _ v. Ready v.trace)
  unfolding start_due
  start_due_lem [] = Triple-pure _ (λ v j. j.0)
  start_due_lem (c ∷ cs) =
      Triple-bind (λ _ v. Ready v.trace) (start_all_lem (c ∷ cs))
        (λ _.
          Triple-bind (λ _ v. Ready v.trace) (with_state-Keeps Ready calm-Ready true (c ∷ cs))
            (λ up. Triple-pure _ (λ v j. j)))

  abbrev Sound : State → Type 0
  Sound v = Justified h v.trace

  start_again_lem :
      (o : Option (List Container))
      → Triple
          (λ v. Held h v.trace × Found h o v)
          (start_again h o)
          (λ _ v. Sound v)
          (λ _ v. Sound v)
  unfolding start_again
  start_again_lem none = Triple-pure _ (λ v j. j.1.0)
  start_again_lem (some cs) =
      Triple-bind (λ names v. Ready v.trace × AllDue h names v.trace)
        (Triple-weaken (λ names v. Ready v.trace × AllDue h names v.trace) (λ _ v. Ready v.trace)
          (with_state_lem h Ready calm-Ready cs) (λ v j. ((j.0, j.1.0), j.1.1)) (λ names v j. j)
          (λ x v j. j.1))
        (λ names.
          Triple-weaken (λ _ v. Ready v.trace) (λ _ v. Ready v.trace) (start_due_lem names)
            (λ v j. j) (λ _ v j. j.1) (λ _ v j. j.1))

  -- Reading the receipt releases no lock.
  published-Held :
      Triple
        (λ v. Held h v.trace × Sound v)
        (published h)
        (λ o v. Held h v.trace × Found h o v)
        (λ _ v. Sound v)
  unfolding published
  published-Held =
      Triple-bind (λ file v. Held h v.trace × Read h file v)
        (Triple-call (λ file v. Held h v.trace × Read h file v) (λ _ v. Sound v) read_receipt
          h.read_receipt (λ w j file e. (j.0, (j.1, λ c g. subst (Grants c) (sym e) g)))
          (λ w j x e. j.1))
        held_file
    where
      held_file :
          (file : File)
          → Triple
              (λ v. Held h v.trace × Read h file v)
              (of_file h file)
              (λ o v. Held h v.trace × Found h o v)
              (λ _ v. Sound v)
      held_file absent = record { at = λ v j. (j.0, (j.1.0, tt)) }
      held_file unreadable = record { at = λ v j. j.1.0 }
      held_file (written r) = record {
        at = λ v j. (j.0, Of-Grants h r (published_by r) v j.1 (grants_lem r));
      }

  locked_lem : Keeps Sound (locked h)
  unfolding locked
  locked_lem =
      Triple-bind (λ _ v. Held h v.trace × Sound v)
        (Triple-call (λ _ v. Held h v.trace × Sound v) (λ _ v. Sound v) lock h.lock
          (λ w j a e. (tt, j)) (λ w j x e. j))
        (λ _.
          Triple-bind (λ o v. Held h v.trace × Found h o v) published-Held (λ o. start_again_lem o))

  start_if_lem : (cs : List Container) → Keeps Sound (start_if h cs)
  unfolding start_if
  start_if_lem [] = Triple-pure _ (λ v j. j)
  start_if_lem (c ∷ cs) = Triple-attempt (λ _ v. Sound v) locked_lem handler
    where
      handler : (e : Error) → Triple Sound (on_error h e) (λ _ v. Sound v) (λ _ v. Sound v)
      handler (coded code) = Triple-pure _ (λ v j. j)
      handler other = Triple-pure _ (λ v j. j)

  run_on_lem :
      (o : Option (List Container))
      → Triple (λ v. Found h o v) (run_on h o) (λ _ v. Sound v) (λ _ v. Sound v)
  unfolding run_on
  run_on_lem none = Triple-pure _ (λ v j. j.0)
  run_on_lem (some cs) =
      Triple-bind (λ _ v. Sound v)
        (Triple-weaken (λ _ v. Sound v) (λ _ v. Sound v)
          (with_state-Keeps (Justified h) (λ id done t j. j) false cs) (λ v j. j.0) (λ _ v j. j)
          (λ _ v j. j))
        (λ names. start_if_lem names)

  run_triple : Keeps Sound (run h)
  unfolding run
  run_triple = Triple-bind (Found h) (published_lem h) (λ o. run_on_lem o)

-- Whatever the host answers, and however the receipt changes under it: each container that the
-- watchdog starts is listed in the receipt that it read last, which claims public service; it was
-- seen, after the deployment lock was taken, to be the recorded container and not running; and the
-- lock was held.
pub run-Justified : (h : Host) (w : State) → Justified h w.trace → Justified h (run h w).1.trace
run-Justified h w j = at_post (run h w).0 (run h w).1 ((run_triple h).at w j)
  where
    at_post :
        (r : Result Outcome) (v : State)
        → Post (λ _ v. Justified h v.trace) (λ _ v. Justified h v.trace) r v
        → Justified h v.trace
    at_post (ok a) v k = k
    at_post (err e) v k = k
