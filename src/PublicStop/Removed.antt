-- ===== src/PublicStop/Removed.antt =====
-- What the removal of left-over copies does (scripts/deploy-gcp.py, `remove_rollover_containers`).
use map_service_infra.Base.{String, ◌≡◌, refl, true, List, [], ◌∷◌, is_hex64}
use map_service_infra.Base.Lists.{All}
use map_service_infra.Base.Result.{ok}
use map_service_infra.Base.Exec.Rules.{
  Triple, Triple-bind, Triple-pure, Triple-require, Triple-weaken, Triple-frame, post_ok,
}
use map_service_infra.Base.World.{Trace, Triple-call}
use map_service_infra.Receiver.Model.{Call, Host, State, copies, remove}
use map_service_infra.PublicStop.{remove_each, remove_rollover_containers}

-- The calls `t`, then a removal of each container, in order and with success.
abbrev pub removals : List String → Trace Call → Trace Call
removals [] t = t
removals (i ∷ ids) t = removals ids ((remove i, true) ∷ t)

-- The run listed `ids`, of containers with whole identities, and removed each of them.
abbrev pub RemovedAll : Host → Trace Call → List String → Trace Call → Type 0
RemovedAll d t ids after =
    (d.copies t ≡ ok ids)
    × ((after ≡ removals ids ((copies, true) ∷ t)) × All (λ i. is_hex64 i ≡ true) ids)

module _ (d : Host) where
  each_lem :
      (ids : List String) (t : Trace Call)
      → Triple
          (λ v. v.trace ≡ t)
          (remove_each d ids)
          (λ _ v. (v.trace ≡ removals ids t) × All (λ i. is_hex64 i ≡ true) ids)
          (λ _ _. Unit {0})
  unfolding remove_each
  each_lem [] t = Triple-pure tt (λ v j. (j, tt))
  each_lem (i ∷ ids) t =
      Triple-bind (λ _ v. (v.trace ≡ t) × (is_hex64 i ≡ true))
        (Triple-require _ _ (λ e v j. (j, e)) (λ e v j. tt))
        (λ _.
          Triple-bind (λ _ v. (v.trace ≡ (remove i, true) ∷ t) × (is_hex64 i ≡ true))
            (Triple-call _ _ (remove i) (d.remove i) (λ v j a e. (same v j.0, j.1)) (λ v j x e. tt))
            (λ _.
              Triple-weaken _ _
                (Triple-frame _ (is_hex64 i ≡ true) (each_lem ids ((remove i, true) ∷ t)))
                (λ v j. j) (λ a v j. (j.0.0, (j.1, j.0.1))) (λ x v j. j)))
    where
      same : (v : State) → v.trace ≡ t → (remove i, true) ∷ v.trace ≡ (remove i, true) ∷ t
      same v e = cc

  removal_triple :
      (t : Trace Call)
      → Triple
          (λ v. v.trace ≡ t)
          (remove_rollover_containers d)
          (λ ids v. RemovedAll d t ids v.trace)
          (λ _ _. Unit {0})
  unfolding remove_rollover_containers
  removal_triple t =
      Triple-bind (λ ids v. (d.copies t ≡ ok ids) × (v.trace ≡ (copies, true) ∷ t))
        (Triple-call _ _ copies d.copies (λ v j ids e. first v ids j e) (λ v j x e. tt))
        (λ ids.
          Triple-bind (λ _ v. RemovedAll d t ids v.trace)
            (Triple-weaken _ _
              (Triple-frame _ (d.copies t ≡ ok ids) (each_lem ids ((copies, true) ∷ t)))
              (λ v j. (j.1, j.0)) (λ a v j. (j.1, j.0)) (λ x v j. j))
            (λ _. Triple-pure ids (λ v j. j)))
    where
      first :
          (v : State) (ids : List String)
          → v.trace ≡ t
          → d.copies v.trace ≡ ok ids
          → (d.copies t ≡ ok ids) × ((copies, true) ∷ v.trace ≡ (copies, true) ∷ t)
      first v ids j e = (cc, cc)

-- A removal of the left-over copies that returns gives back the containers that docker listed at its
-- beginning; each of them has a whole container identity, and the calls that it made are that
-- listing and then one removal for each container, in order, all with success.
pub remove_rollover_containers_all :
    (d : Host) (w : State) (ids : List String)
    → (remove_rollover_containers d w).0 ≡ ok ids
    → RemovedAll d w.trace ids (remove_rollover_containers d w).1.trace
remove_rollover_containers_all d w ids e =
    post_ok (λ is v. RemovedAll d w.trace is v.trace) (λ _ _. Unit {0})
      (remove_rollover_containers d w).0 (remove_rollover_containers d w).1 ids
      ((removal_triple d w.trace).at w refl) e
