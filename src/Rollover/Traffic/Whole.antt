-- ===== src/Rollover/Traffic/Whole.antt =====
-- The order of the calls of a whole rollover (scripts/service-rollover.py, `rollover`).
use map_service_infra.Base.{
  ℕ, String, ◌≡◌, refl, Bool, true, false, Option, none, some, List, if◌then◌else◌, is_hex64,
}
use map_service_infra.Base.Result.{Error, Result, ok, err}
use map_service_infra.Base.Exec.{pure, require, attempt, modify}
use map_service_infra.Base.Exec.Rules.{
  Post, Triple-bind, Triple-attempt, Triple-weaken, Triple-when,
}
use map_service_infra.Base.World.{Keeps}
use map_service_infra.Rollover.{
  Host, State, Order, stop, remove, image_id, stats, networks, stale, memory_available, disk_free,
  return_traffic, replace, fell_back, give_back, on_failure, discard, clean, finally_clean, guarded,
  admit, rollover, copy_name,
}
use map_service_infra.Rollover.Arguments.{Entry}
use map_service_infra.Rollover.Traffic.{Ordered}
use map_service_infra.Rollover.Traffic.Parts.{
  Keeps-require, Keeps-pure, Keeps-raise, Keeps-gets, container_id-Keeps, ask_state-Keeps,
}
use map_service_infra.Rollover.Traffic.Moves.{
  Ordered-stable, on_Ordered, lift-Keeps, bind-Ordered, own-Ordered, Ordered-reload, AnsweredToo,
  OnCopyToo,
}
use map_service_infra.Rollover.Traffic.Ordering.{
  start_green_lem, switch_lem, replace_canonical_lem, settle-Keeps,
}

module _ (h : Host) (o : Order) where
  abbrev Kept : State → Type 0
  Kept v = Ordered h o v.trace

  modified : (f : State → State) → ((s : State) → (f s).trace ≡ s.trace) → Keeps Kept (modify f)
  modified f same = own-Ordered h o f same

  return_traffic-Keeps : Keeps Kept (return_traffic h o)
  unfolding return_traffic
  return_traffic-Keeps = bind-Ordered h o (Ordered-reload h o none) (λ _.
      bind-Ordered h o (modified _ (λ s. refl)) (λ _.
        bind-Ordered h o (modified _ (λ s. refl)) (λ _.
          bind-Ordered h o (settle-Keeps h o _ (Ordered h o) (Ordered-stable h o))
            (λ _. bind-Ordered h o (modified _ (λ s. refl)) (λ _. modified _ (λ s. refl))))))

  replace-Keeps :
      (entry : Entry) (blue identity : String) (joined : List String) (drain : ℕ)
      → Keeps Kept (replace h o entry blue identity joined drain)
  unfolding replace
  replace-Keeps entry blue identity joined drain =
      Triple-bind (λ _ v. AnsweredToo h o v.trace) (start_green_lem h o entry joined drain)
        (λ _.
          Triple-bind (λ _ v. OnCopyToo h o v.trace) (switch_lem h o)
            (λ _.
              Triple-bind (λ _ v. Kept v) (replace_canonical_lem h o blue identity)
                (λ _.
                  Triple-weaken (λ _ v. Kept v) (λ _ v. Kept v) return_traffic-Keeps (λ s j. j)
                    (λ _ s j. j) (λ _ s j. j))))

  fell_back-Keeps : (e : Error) → Keeps Kept (fell_back h o e)
  unfolding fell_back
  fell_back-Keeps e = bind-Ordered h o (modified _ (λ s. refl)) (λ _.
      bind-Ordered h o (modified _ (λ s. refl))
        (λ _. Keeps-raise (Ordered h o) (Ordered-stable h o) e))

  give_back-Keeps : (switched : Bool) → Keeps Kept (give_back h o switched)
  unfolding give_back
  give_back-Keeps false = Keeps-pure (Ordered h o) (Ordered-stable h o) tt
  give_back-Keeps true =
      Triple-attempt (λ _ v. Kept v)
        (bind-Ordered h o (Ordered-reload h o none) (λ _. modified _ (λ s. refl))) (fell_back-Keeps)

  on_failure-Keeps : (e : Error) → Keeps Kept (on_failure h o e)
  unfolding on_failure
  on_failure-Keeps e = bind-Ordered h o (modified _ (λ s. refl)) (λ _.
      bind-Ordered h o (Keeps-gets (Ordered h o) (Ordered-stable h o) _) (λ switched.
        bind-Ordered h o (give_back-Keeps switched)
          (λ _. Keeps-raise (Ordered h o) (Ordered-stable h o) e)))

  discard-Keeps : (drain : ℕ) (green : String) → Keeps Kept (discard h o drain green)
  unfolding discard
  discard-Keeps drain green =
      Triple-attempt (λ _ v. Kept v)
        (bind-Ordered h o (ask_state-Keeps (Ordered h o) (Ordered-stable h o) h green) (λ s.
          bind-Ordered h o
            (Triple-when s.running _
              (λ _. on_Ordered h o (stop drain green) (h.stop drain green) tt) (λ _ v j. j))
            (λ _.
              bind-Ordered h o (on_Ordered h o (remove green) (h.remove green) tt)
                (λ _. modified _ (λ v. refl)))))
        (λ _. modified _ (λ s. refl))

  clean-Keeps : (drain : ℕ) (g : Option String) → Keeps Kept (clean h o drain g)
  unfolding clean
  clean-Keeps drain none = Keeps-pure (Ordered h o) (Ordered-stable h o) tt
  clean-Keeps drain (some green) = either (is_hex64 green)
    where
      either : (b : Bool) → Keeps Kept (if b then discard h o drain green else pure tt)
      either true = discard-Keeps drain green
      either false = Keeps-pure (Ordered h o) (Ordered-stable h o) tt

  finally_clean-Keeps : (drain : ℕ) (r : Result (Unit {0})) → Keeps Kept (finally_clean h o drain r)
  unfolding finally_clean
  finally_clean-Keeps drain r =
      bind-Ordered h o (Keeps-gets (Ordered h o) (Ordered-stable h o) _)
        (λ g. bind-Ordered h o (clean-Keeps drain g) (λ _. lift-Keeps h o (Ordered h o) r))

  guarded-Keeps :
      (entry : Entry) (blue identity : String) (joined : List String) (drain : ℕ)
      → Keeps Kept (guarded h o entry blue identity joined drain)
  unfolding guarded
  guarded-Keeps entry blue identity joined drain = record {
    at = λ w j.
        let tried = attempt (replace h o entry blue identity joined drain) (on_failure h o) w in
        (finally_clean-Keeps drain tried.0).at tried.1 (
          kept tried.0 tried.1 (
            (Triple-attempt (λ _ v. Kept v) (replace-Keeps entry blue identity joined drain)
                (on_failure-Keeps)).at
              w j));
  }
    where
      kept : (r : Result (Unit {0})) (v : State) → Post (λ _ v. Kept v) (λ _ v. Kept v) r v → Kept v
      kept (ok a) v j = j
      kept (err e) v j = j

  admit-Keeps : (cid : String) → Keeps Kept (admit h cid)
  unfolding admit
  admit-Keeps cid = bind-Ordered h o (on_Ordered h o (stats cid) (h.stats cid) tt) (λ raw.
      bind-Ordered h o (lift-Keeps h o (Ordered h o) _) (λ used.
        bind-Ordered h o (on_Ordered h o memory_available h.memory_available tt) (λ available.
          bind-Ordered h o (on_Ordered h o disk_free h.disk_free tt) (λ free.
            bind-Ordered h o (lift-Keeps h o (Ordered h o) _)
              (λ _. Keeps-pure (Ordered h o) (Ordered-stable h o) tt)))))

  rollover-Keeps : Keeps Kept (rollover h o)
  unfolding rollover
  rollover-Keeps = bind-Ordered h o (asked _ _) (λ _.
      bind-Ordered h o (lift-Keeps h o (Ordered h o) _) (λ entry.
        bind-Ordered h o (lift-Keeps h o (Ordered h o) _) (λ drain.
          bind-Ordered h o (on_Ordered h o (image_id entry.image) (h.image_id entry.image) tt)
            (λ identity. bind-Ordered h o (asked _ _) (λ _.
              bind-Ordered h o (container_id-Keeps (Ordered h o) (Ordered-stable h o) h o.service)
                (λ blue.
                  bind-Ordered h o (ask_state-Keeps (Ordered h o) (Ordered-stable h o) h blue)
                    (λ before. bind-Ordered h o (asked _ _) (λ _.
                      bind-Ordered h o (admit-Keeps blue) (λ _.
                        bind-Ordered h o (on_Ordered h o (networks blue) (h.networks blue) tt)
                          (λ joined. bind-Ordered h o (asked _ _) (λ _.
                            bind-Ordered h o
                              (on_Ordered h o (stale (copy_name h o)) (h.stale (copy_name h o)) tt)
                              (λ old. bind-Ordered h o (asked _ _) (λ _.
                                bind-Ordered h o (modified _ (λ s. refl))
                                  (λ _. guarded-Keeps entry blue identity joined drain))))))))))))))
    where
      asked : (b : Bool) (code : String) → Keeps Kept (require b code)
      asked b code = Keeps-require (Ordered h o) (Ordered-stable h o) b code

-- Whatever docker, the proxy, the probes and the clock answer, and however the run ends, each
-- recreation of the canonical container comes after a reload that succeeded and points the proxy at
-- the name of the copy, with no other reload between them; before that reload the last health request
-- was answered with 200, and went to the address that docker gave of the container that it had
-- created last, from arguments of the copy with its name, and that had been started, with no
-- container created, started, stopped or removed from there to the reload, and none stopped or
-- removed from the reload to the recreation. It is so at the end of a run if it
-- was so of the calls before it.
pub rollover-Ordered :
    (h : Host) (o : Order) (w : State) → Ordered h o w.trace → Ordered h o (rollover h o w).1.trace
rollover-Ordered h o w j = kept (rollover h o w).0 (rollover h o w).1 ((rollover-Keeps h o).at w j)
  where
    kept :
        (r : Result (Unit {0})) (v : State)
        → Post (λ _ v. Ordered h o v.trace) (λ _ v. Ordered h o v.trace) r v
        → Ordered h o v.trace
    kept (ok a) v j = j
    kept (err e) v j = j
