-- ===== src/CutoverWatchdog/Authority/Facts.antt =====
-- Which calls of scripts/cutover_watchdog.py leave what was read as it is, and its readings of the
-- containers.
use map_service_infra.Base.{String, ◌≡◌, refl, Bool, true, false, List, [], ◌∷◌, inl, inr, arith}
use map_service_infra.Base.Json.{Json, Fields}
use map_service_infra.Base.Result.{Result, ok, err}
use map_service_infra.Base.Exec.{lift}
use map_service_infra.Base.Exec.Rules.{
  Post, Triple, Triple-bind, Triple-attempt, Triple-pure, Triple-raise, Triple-require,
  Triple-weaken, Triple-lift,
}
use map_service_infra.Base.World.{Trace, Answer, call, Keeps, Triple-call}
use map_service_infra.CutoverWatchdog.{
  Call, Host, State, scope, latch, maintenance, receipt, inspect, start, stop_public, ids,
  sole_container, containers, unlink, unlink_all, overrides, nginx_test, nginx_reload,
  return_to_canonical, find_item, public,
}
use map_service_infra.CutoverWatchdog.Receipt.{Item, Latch, parse_item}
use map_service_infra.CutoverWatchdog.Authority.{
  Idle, LatchedAs, NoHold, PublicIs, Seen, Authorized, ShowsItem,
}

abbrev pub Quiet : Call → Type 0
Quiet scope = ⊥
Quiet latch = ⊥
Quiet maintenance = ⊥
Quiet receipt = ⊥
Quiet (start cid) = ⊥
Quiet stop_public = ⊥
Quiet _ = Unit {0}

-- No quiet call spoils the condition.
abbrev pub Stable : (Trace Call → Type 0) → Type 0
Stable R = (c : Call) (done : Bool) (t : Trace Call) → Quiet c → R t → R ((c, done) ∷ t)

pub both : {R S : Trace Call → Type 0} → Stable R → Stable S → Stable (λ t. R t × S t)
both r s c done t q j = (r c done t q j.0, s c done t q j.1)

module _ (h : Host) where
  pub Authorized-stable : Stable (Authorized h)
  Authorized-stable (start cid) done t q j = absurd q
  Authorized-stable stop_public done t q j = absurd q
  Authorized-stable _ done t q j = j

  pub Idle-stable : Stable (Idle h)
  Idle-stable scope done t q j = absurd q
  Idle-stable _ done t q j = j

  pub latched_stable : (l : Latch) → Stable (LatchedAs h l)
  latched_stable l latch done t q j = absurd q
  latched_stable l _ done t q j = j

  pub NoHold-stable : Stable (NoHold h)
  NoHold-stable maintenance done t q j = absurd q
  NoHold-stable _ done t q j = j

  pub public_stable : (p : Fields) → Stable (PublicIs h p)
  public_stable p receipt done t q j = absurd q
  public_stable p _ done t q j = j

  pub Seen-stable : (i : Item) → Stable (Seen h i)
  Seen-stable i (inspect cid) done t q j = inr j
  Seen-stable i _ done t q j = j

  -- Every container of the list was seen so.
  abbrev pub AllSeen : List (String × Item) → Trace Call → Type 0
  AllSeen [] t = Unit {0}
  AllSeen ((s, i) ∷ rest) t = Seen h i t × AllSeen rest t

  pub AllSeen-stable : (items : List (String × Item)) → Stable (AllSeen items)
  AllSeen-stable [] c done t q j = tt
  AllSeen-stable ((s, i) ∷ rest) c done t q j =
      (Seen-stable i c done t q j.0, AllSeen-stable rest c done t q j.1)

  pub Quiet-call :
      {A : Type 0} (R : Trace Call → Type 0) (c : Call) (f : Answer Call A)
      → Stable R
      → Quiet c
      → Keeps {S = State} (λ v. R v.trace) (call c f)
  Quiet-call R c f stable q =
      Triple-call (λ _ v. R v.trace) (λ _ v. R v.trace) c f (λ w j a e. stable c true w.trace q j)
        (λ w j x e. stable c false w.trace q j)

  parsed_lem :
      (R : Trace Call → Type 0) (r : Result Item) (v : State)
      → R v.trace
      → ((i : Item) → r ≡ ok i → Seen h i v.trace)
      → Post (λ i u. R u.trace × Seen h i u.trace) (λ _ u. R u.trace) r v
  parsed_lem R (ok i) v j k = (j, k i refl)
  parsed_lem R (err e) v j k = j

  shown : (i : Item) (r : Result Json) (v : Json) → r ≡ ok v → parse_item v ≡ ok i → ShowsItem i r
  shown i (ok u) v e p = rw (ok_inj u v e) p
    where
      ok_inj : (u v : Json) → ok u ≡ ok v → u ≡ v
      ok_inj u v e = ground (arith, e)
  shown i (err x) v e p = absurd (ground (arith, e))

  one_container :
      (R : Trace Call → Type 0) (found : List String)
      → Stable R
      → Triple
          (λ v. R v.trace)
          (sole_container h found)
          (λ i v. R v.trace × Seen h i v.trace)
          (λ _ v. R v.trace)
  unfolding sole_container
  one_container R [] stable = Triple-raise _ (λ s j. j)
  one_container R (cid ∷ []) stable =
      Triple-bind (λ _ v. R v.trace) (Triple-require _ _ (λ e s j. j) (λ e s j. j))
        (λ _.
          Triple-bind (λ raw v. R v.trace × ((i : Item) → parse_item raw ≡ ok i → Seen h i v.trace))
            (Triple-call _ _ (inspect cid) (h.inspect cid)
              (λ w j raw e. (
                stable (inspect cid) true w.trace tt j,
                λ i k. inl (shown i (h.inspect cid w.trace) raw e k),
              ))
              (λ w j x e. stable (inspect cid) false w.trace tt j))
            (λ raw. Triple-lift (parse_item raw) (λ v j. parsed_lem R (parse_item raw) v j.0 j.1)))
  one_container R (a ∷ b ∷ rest) stable = Triple-raise _ (λ s j. j)

  pub containers_lem :
      (R : Trace Call → Type 0) (services : List String)
      → Stable R
      → Triple
          (λ v. R v.trace)
          (containers h services)
          (λ items v. R v.trace × AllSeen items v.trace)
          (λ _ v. R v.trace)
  unfolding containers
  containers_lem R [] stable = Triple-pure [] (λ v j. (j, tt))
  containers_lem R (s ∷ rest) stable =
      Triple-bind (λ _ v. R v.trace) (Quiet-call R (ids s) (h.ids s) stable tt)
        (λ found.
          Triple-bind (λ i v. R v.trace × Seen h i v.trace) (one_container R found stable)
            (λ item.
              Triple-bind (λ items v. (R v.trace × Seen h item v.trace) × AllSeen items v.trace)
                (Triple-weaken
                  (λ items v. (R v.trace × Seen h item v.trace) × AllSeen items v.trace)
                  (λ _ v. R v.trace × Seen h item v.trace)
                  (containers_lem (λ t. R t × Seen h item t) rest (both stable (Seen-stable item)))
                  (λ v j. j) (λ _ v j. j) (λ _ v j. j.0))
                (λ items. Triple-pure _ (λ v j. (j.0.0, (j.0.1, j.1))))))

  unlink_all_lem :
      (R : Trace Call → Type 0) (paths : List String)
      → Stable R
      → Keeps (λ v. R v.trace) (unlink_all h paths)
  unfolding unlink_all
  unlink_all_lem R [] stable = Triple-pure tt (λ v j. j)
  unlink_all_lem R (p ∷ ps) stable =
      Triple-bind (λ _ v. R v.trace) (Quiet-call R (unlink p) (h.unlink p) stable tt)
        (λ _. unlink_all_lem R ps stable)

  pub lift-Keeps :
      {A : Type 0} (R : Trace Call → Type 0) (r : Result A)
      → Keeps {S = State} (λ v. R v.trace) (lift r)
  lift-Keeps R (ok a) = record { at = λ s j. j }
  lift-Keeps R (err e) = record { at = λ s j. j }

  -- Handing the traffic back makes quiet calls only.
  pub return_lem :
      (R : Trace Call → Type 0) → Stable R → Keeps (λ v. R v.trace) (return_to_canonical h)
  unfolding return_to_canonical
  return_lem R stable =
      Triple-attempt (λ _ v. R v.trace)
        (Triple-bind (λ _ v. R v.trace) (Quiet-call R overrides h.overrides stable tt)
          (λ paths.
            Triple-bind (λ _ v. R v.trace) (unlink_all_lem R paths stable)
              (λ _.
                Triple-bind (λ _ v. R v.trace)
                  (Triple-weaken (λ items v. R v.trace × AllSeen items v.trace) (λ _ v. R v.trace)
                    (containers_lem R public stable) (λ v j. j) (λ _ v j. j.0) (λ _ v j. j))
                  (λ actual.
                    Triple-bind (λ _ v. R v.trace) (Triple-require _ _ (λ e s j. j) (λ e s j. j))
                      (λ _.
                        Triple-bind (λ _ v. R v.trace) (lift-Keeps R (find_item "proxy" actual))
                          (λ proxy.
                            Triple-bind (λ _ v. R v.trace)
                              (Quiet-call R (nginx_test proxy.id) (h.nginx_test proxy.id) stable tt)
                              (λ _.
                                Triple-bind (λ _ v. R v.trace)
                                  (Quiet-call R (nginx_reload proxy.id) (h.nginx_reload proxy.id)
                                    stable tt)
                                  (λ _. Triple-pure true (λ v j. j)))))))))
        (λ e. Triple-pure false (λ v j. j))
