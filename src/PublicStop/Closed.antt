-- ===== src/PublicStop/Closed.antt =====
-- What a stop of the public services establishes (scripts/deploy-gcp.py, `stop_public_services`).
use map_service_infra.Base.{
  String, ◌≡◌, refl, Bool, true, false, not, List, [], ◌∷◌, ◌++◌, ◌⊎◌, inl, inr, arith,
  if◌then◌else◌,
}
use map_service_infra.Base.Lists.{All}
use map_service_infra.Base.Result.{Result, ok}
use map_service_infra.Base.Exec.Rules.{
  Triple, Triple-bind, Triple-attempt, Triple-pure, Triple-require, Triple-weaken, Triple-trivial,
  post_ok,
}
use map_service_infra.Base.World.{Trace, Triple-call}
use map_service_infra.Receiver.Model.{Call, Host, State, listing}
use map_service_infra.PublicStop.{
  is_empty, running_service_ids, try_stops, still_open, verify_all, stop_public_services,
}

module _ (d : Host) where
  -- A listing showed no running container of the service, and only listings came after it.
  abbrev pub ClosedSince : String → Trace Call → Type 0
  ClosedSince s [] = ⊥
  ClosedSince s ((listing n, _) ∷ t) = ((n ≡ s) × (d.listing n t ≡ ok [])) ⊎ ClosedSince s t
  ClosedSince s (_ ∷ t) = ⊥

  -- The service was listed, which the stop of it begins with.
  abbrev pub Listed : String → Trace Call → Type 0
  Listed s [] = ⊥
  Listed s ((listing n, _) ∷ t) = (n ≡ s) ⊎ Listed s t
  Listed s (_ ∷ t) = Listed s t

  -- A condition that further listings leave.
  abbrev Lasting : (Trace Call → Type 0) → Type 0
  Lasting R = (n : String) (done : Bool) (t : Trace Call) → R t → R ((listing n, done) ∷ t)

  running_lem :
      (R : Trace Call → Type 0) (s : String)
      → Lasting R
      → Triple
          (λ v. R v.trace)
          (running_service_ids d s)
          (λ ids v. R v.trace × (ids ≡ [] → ClosedSince s v.trace))
          (λ _ v. R v.trace)
  unfolding running_service_ids
  running_lem R s lasting =
      Triple-bind (λ ids v. R v.trace × (ids ≡ [] → ClosedSince s v.trace))
        (Triple-call _ _ (listing s) (d.listing s)
          (λ w j ids e.
            (lasting s true w.trace j, λ k. inl (refl, shown ids (d.listing s w.trace) e k)))
          (λ w j x e. lasting s false w.trace j))
        (λ ids.
          Triple-bind (λ _ v. R v.trace × (ids ≡ [] → ClosedSince s v.trace))
            (Triple-require _ _ (λ e v j. j) (λ e v j. j.0)) (λ _. Triple-pure ids (λ v j. j)))
    where
      shown : (ids : List String) (r : Result (List String)) → r ≡ ok ids → ids ≡ [] → r ≡ ok []
      shown ids r e k = cc

  still_open_lem :
      (R : Trace Call → Type 0) (s : String)
      → Lasting R
      → Triple
          (λ v. R v.trace)
          (still_open d s)
          (λ failed v. R v.trace × (failed ≡ false → ClosedSince s v.trace))
          (λ _ _. ⊥)
  unfolding still_open
  still_open_lem R s lasting =
      Triple-attempt (λ _ v. R v.trace)
        (Triple-bind (λ ids v. R v.trace × (ids ≡ [] → ClosedSince s v.trace))
          (running_lem R s lasting)
          (λ ids. Triple-pure (not (is_empty ids)) (λ v j. (j.0, λ e. j.1 (none_left ids e)))))
        (λ x. Triple-pure true (λ v j. (j, λ e. absurd (ground (arith, e)))))
    where
      none_left : (ids : List String) → not (is_empty ids) ≡ false → ids ≡ []
      none_left [] e = refl
      none_left (i ∷ ids) e = absurd (ground (arith, e))

  abbrev AllClosed : List String → Trace Call → Type 0
  AllClosed ss t = All (λ s. ClosedSince s t) ss

  closed_lasts : (s : String) → Lasting (λ t. ClosedSince s t)
  closed_lasts s n done t j = inr j

  verify_lem :
      (R : Trace Call → Type 0) (ss : List String)
      → Lasting R
      → Triple
          (λ v. R v.trace)
          (verify_all d ss)
          (λ errors v. R v.trace × (errors ≡ [] → AllClosed ss v.trace))
          (λ _ _. ⊥)
  unfolding verify_all
  verify_lem R [] lasting = Triple-pure [] (λ v j. (j, λ e. tt))
  verify_lem R (s ∷ rest) lasting =
      Triple-bind (λ failed v. R v.trace × (failed ≡ false → ClosedSince s v.trace))
        (still_open_lem R s lasting)
        (λ failed.
          Triple-bind
            (λ errors v.
              (R v.trace × (failed ≡ false → ClosedSince s v.trace))
              × (errors ≡ [] → AllClosed rest v.trace))
            (verify_lem (λ t. R t × (failed ≡ false → ClosedSince s t)) rest
              (λ n done t j. (lasting n done t j.0, λ e. inr (j.1 e))))
            (λ errors. Triple-pure _ (λ v j. (j.0.0, closed failed errors v j.0.1 j.1))))
    where
      closed :
          (failed : Bool) (errors : List String) (v : State)
          → (failed ≡ false → ClosedSince s v.trace)
          → (errors ≡ [] → AllClosed rest v.trace)
          → (if failed then s ∷ errors else errors) ≡ []
          → AllClosed (s ∷ rest) v.trace
      closed true errors v k m e = absurd (ground (arith, e))
      closed false errors v k m e = (k refl, m e)

  stop_triple :
      (ss : List String)
      → Triple
          (λ _. Unit {0})
          (stop_public_services d ss)
          (λ _ v. AllClosed ss v.trace)
          (λ _ _. Unit {0})
  unfolding stop_public_services
  stop_triple ss =
      Triple-bind (λ _ _. Unit {0}) (Triple-trivial (try_stops d ss))
        (λ unstopped.
          Triple-bind (λ unverified v. Unit {0} × (unverified ≡ [] → AllClosed ss v.trace))
            (Triple-weaken (λ unverified v. Unit {0} × (unverified ≡ [] → AllClosed ss v.trace))
              (λ _ _. ⊥) (verify_lem (λ t. Unit {0}) ss (λ n done t j. tt)) (λ v j. tt) (λ _ v j. j)
              (λ _ v j. tt))
            (λ unverified.
              Triple-require _ _ (λ e v j. j.1 (second unstopped unverified e)) (λ e v j. tt)))
    where
      second : (xs ys : List String) → is_empty (xs ++ ys) ≡ true → ys ≡ []
      second [] [] e = refl
      second [] (y ∷ ys) e = absurd (ground (arith, e))
      second (x ∷ xs) ys e = absurd (ground (arith, e))

-- A stop of the public services that returns has listed no running container of any of them, with
-- only listings after that, whatever docker answered before.
pub stop_public_services_closed :
    (d : Host) (services : List String) (w : State)
    → (stop_public_services d services w).0 ≡ ok tt
    → All (λ s. ClosedSince d s (stop_public_services d services w).1.trace) services
stop_public_services_closed d services w e =
    post_ok (λ _ v. All (λ s. ClosedSince d s v.trace) services) (λ _ _. Unit {0})
      (stop_public_services d services w).0 (stop_public_services d services w).1 tt
      ((stop_triple d services).at w tt) e
