-- ===== src/CutoverWatchdog/Authority/Run.antt =====
-- The whole of `recover_once` (scripts/cutover_watchdog.py).
use map_service_infra.Base.{
  String, ◌≡◌, refl, sym, subst, Bool, true, false, not, Option, none, some, List, ◌∷◌, inl, inr,
  arith, ◌&&◌, contains, string_eq, ◌==◌, if◌then◌else◌, eq_of_==,
}
use map_service_infra.Base.Json.{get, Json, Fields, null, bool, int, number, text, array, object}
use map_service_infra.Base.Result.{Result, ok, err}
use map_service_infra.Base.Exec.{◌>>=◌}
use map_service_infra.Base.Exec.Rules.{
  Post, Triple, Triple-bind, Triple-pure, Triple-raise, Triple-require, Triple-weaken, Triple-lift,
}
use map_service_infra.Base.World.{Trace, call, Keeps, Triple-call}
use map_service_infra.CutoverWatchdog.{
  Call, Host, State, Outcome, lock, scope, latch, maintenance, receipt, policy, restart_override,
  stop_public, all_agree, terminal, serving, idle, read_ready_receipt, choices, start_order, public,
  supervise, quarantine, decide, hand_back, held, on_hold, on_latch, require_latch, when_idle,
  receiver_scope_active, recover_once, return_to_canonical,
}
use map_service_infra.CutoverWatchdog.Receipt.{
  Latch, public_of, check_head, check_tail, check_public, is_hold,
}
use map_service_infra.CutoverWatchdog.Authority.{
  Idle, LatchedAs, NoHold, OnHold, MayStop, Authorized, ShowsPublic, ShowsIdle,
}
use map_service_infra.CutoverWatchdog.Authority.Starts.{
  Fine, Under, Under-stable, Free, Free-stable, Ready, Ready-stable, Set, start_stopped_lem,
}
use map_service_infra.CutoverWatchdog.Authority.Facts.{
  AllSeen, Quiet-call, containers_lem, return_lem,
}

head_lem :
    (l : Latch) (v : Json) (f : Fields) → check_head l v ≡ ok f → public_of v ≡ public_of (object f)
unfolding check_head
head_lem l (object g) f e = ground (arith, e)
head_lem l null f e = absurd (ground (arith, e))
head_lem l (bool b) f e = absurd (ground (arith, e))
head_lem l (int n) f e = absurd (ground (arith, e))
head_lem l (number n) f e = absurd (ground (arith, e))
head_lem l (text t) f e = absurd (ground (arith, e))
head_lem l (array xs) f e = absurd (ground (arith, e))

check_public_lem : (value : Option Json) (q p : Fields) → check_public value q ≡ ok p → q ≡ p
unfolding check_public
check_public_lem value q p e = ground (arith, e)

tail_lem :
    (cs : List (List String)) (f p : Fields) → check_tail cs f ≡ ok p → public_of (object f) ≡ p
unfolding check_tail
tail_lem cs f p e = ground (arith, e, check_public_lem (get "public" f) (public_of (object f)) p)

rollover_open : contains terminal "rollover" ≡ false
unfolding string_eq
rollover_open = refl

failed_open : contains terminal "rollover_failed_serving" ≡ false
unfolding string_eq
failed_open = refl

-- No phase of a replacement in progress is terminal.
not_terminal : (phase : String) → contains serving phase ≡ true → contains terminal phase ≡ false
not_terminal phase e = cases (phase == "rollover") refl (phase == "rollover_failed_serving") refl
  where
    open_at :
        (name : String)
        → contains terminal name ≡ false
        → (phase == name) ≡ true
        → contains terminal phase ≡ false
    open_at name shut k =
        subst (λ x. contains terminal x ≡ false) (sym (eq_of_== phase name k)) shut

    cases :
        (b : Bool)
        → (phase == "rollover") ≡ b
        → (c : Bool) → (phase == "rollover_failed_serving") ≡ c
        → contains terminal phase ≡ false
    cases true k c m = open_at "rollover" rollover_open k
    cases false k true m = open_at "rollover_failed_serving" failed_open m
    cases false k false m = absurd (ground (arith, e, k, m))

module _ (h : Host) where
  receipt_lem :
      (l : Latch)
      → Triple
          (λ v. Free h l v.trace)
          (call receipt h.receipt)
          (λ raw v. Ready h l (public_of raw) v.trace)
          (λ _ v. Fine h v)
  receipt_lem l =
      Triple-call _ _ receipt h.receipt (λ w j raw e. (j, shows raw (h.receipt w.trace) e))
        (λ w j x e. j.0.0.0)
    where
      shows : (raw : Json) (r : Result Json) → r ≡ ok raw → ShowsPublic (public_of raw) r
      shows raw (ok v) e = ground (arith, e)
      shows raw (err x) e = absurd (ground (arith, e))

  read_ready_lem :
      (l : Latch)
      → Triple
          (λ v. Free h l v.trace)
          (read_ready_receipt h l)
          (λ p v. Ready h l p v.trace)
          (λ _ v. Fine h v)
  unfolding read_ready_receipt
  read_ready_lem l =
      Triple-bind (λ raw v. Ready h l (public_of raw) v.trace) (receipt_lem l)
        (λ raw.
          Triple-bind (λ f v. Ready h l (public_of (object f)) v.trace)
            (Triple-lift (check_head l raw) (λ v j. headed raw (check_head l raw) refl v j))
            (λ f.
              Triple-bind (λ _ v. Ready h l (public_of (object f)) v.trace)
                (Triple-weaken (λ _ v. Ready h l (public_of (object f)) v.trace)
                  (λ _ v. Ready h l (public_of (object f)) v.trace)
                  (Quiet-call h (Ready h l (public_of (object f))) policy h.policy
                    (Ready-stable h l (public_of (object f))) tt)
                  (λ v j. j) (λ _ v j. j) (λ _ v j. j.0.0.0.0))
                (λ verified. Triple-lift (check_tail (choices h l verified) f) (λ v j.
                  tailed (choices h l verified) f (check_tail (choices h l verified) f) refl v j))))
    where
      headed :
          (raw : Json) (r : Result Fields)
          → check_head l raw ≡ r
          → (v : State) → Ready h l (public_of raw) v.trace
          → Post (λ f u. Ready h l (public_of (object f)) u.trace) (λ _ u. Fine h u) r v
      headed raw (ok f) e v j = subst (λ q. Ready h l q v.trace) (head_lem l raw f e) j
      headed raw (err x) e v j = j.0.0.0.0

      tailed :
          (cs : List (List String)) (f : Fields) (r : Result Fields)
          → check_tail cs f ≡ r
          → (v : State) → Ready h l (public_of (object f)) v.trace
          → Post (λ p u. Ready h l p u.trace) (λ _ u. Fine h u) r v
      tailed cs f (ok p) e v j = subst (λ q. Ready h l q v.trace) (tail_lem cs f p e) j
      tailed cs f (err x) e v j = j.0.0.0.0

  supervise_lem :
      (l : Latch)
      → contains terminal l.phase ≡ true
      → Triple (λ v. Free h l v.trace) (supervise h l) (λ _ v. Fine h v) (λ _ v. Fine h v)
  unfolding supervise
  supervise_lem l ends =
      Triple-bind (λ _ v. Free h l v.trace)
        (Triple-weaken (λ _ v. Free h l v.trace) (λ _ v. Free h l v.trace)
          (Quiet-call h (Free h l) restart_override h.restart_override (Free-stable h l) tt)
          (λ v j. j) (λ _ v j. j) (λ _ v j. j.0.0.0))
        (λ _.
          Triple-bind (λ p v. Ready h l p v.trace) (read_ready_lem l)
            (λ p.
              Triple-bind (λ items v. Ready h l p v.trace × AllSeen h items v.trace)
                (Triple-weaken (λ items v. Ready h l p v.trace × AllSeen h items v.trace)
                  (λ _ v. Ready h l p v.trace)
                  (containers_lem h (Ready h l p) public (Ready-stable h l p)) (λ v j. j)
                  (λ _ v j. j) (λ _ v j. j.0.0.0.0))
                (λ items.
                  Triple-bind (λ _ v. Set h l p items v.trace)
                    (Triple-require (all_agree p items) _ (λ e v j. (j.0, (j.1, e)))
                      (λ e v j. j.0.0.0.0.0))
                    (λ _.
                      Triple-bind (λ _ v. Fine h v) (start_stopped_lem h l p ends start_order items)
                        (λ _. Triple-pure _ (λ v j. j))))))

  -- A stop of the public services that is authorized.
  quarantine_lem :
      Triple
        (λ v. Authorized h v.trace × MayStop h v.trace)
        (quarantine h)
        (λ _ v. Fine h v)
        (λ _ v. Fine h v)
  unfolding quarantine
  quarantine_lem =
      Triple-bind (λ _ v. Fine h v)
        (Triple-call _ _ stop_public h.stop_public (λ w j a e. (j.1, j.0)) (λ w j x e. (j.1, j.0)))
        (λ _. Triple-pure _ (λ v j. j))

  -- What a reading of the maintenance file establishes.
  abbrev HoldIs : Bool → Trace Call → Type 0
  HoldIs true t = OnHold h t
  HoldIs false t = NoHold h t

  abbrev Read : Option Json → Trace Call → Type 0
  Read none t = NoHold h t
  Read (some v) t = is_hold h.instance_id v ≡ true → OnHold h t

  on_hold_lem :
      (l : Latch) (o : Option Json)
      → Triple
          (λ v. Under h l v.trace × Read o v.trace)
          (on_hold h o)
          (λ b v. Under h l v.trace × HoldIs b v.trace)
          (λ _ v. Fine h v)
  unfolding on_hold
  on_hold_lem l none = Triple-pure false (λ v j. j)
  on_hold_lem l (some x) =
      Triple-bind (λ _ v. Under h l v.trace × OnHold h v.trace)
        (Triple-require _ _ (λ e v j. (j.0, j.1 e)) (λ e v j. j.0.0.0))
        (λ _. Triple-pure true (λ v j. j))

  held_lem :
      (l : Latch)
      → Triple
          (λ v. Under h l v.trace)
          (held h)
          (λ b v. Under h l v.trace × HoldIs b v.trace)
          (λ _ v. Fine h v)
  unfolding held
  held_lem l =
      Triple-bind (λ o v. Under h l v.trace × Read o v.trace)
        (Triple-call _ _ maintenance h.maintenance (λ w j o e. (j, read o w.trace e))
          (λ w j x e. j.0.0))
        (on_hold_lem l)
    where
      read :
          (o : Option Json) (t : Trace Call)
          → h.maintenance t ≡ ok o
          → Read o ((maintenance, true) ∷ t)
      read none t e = e
      read (some x) t e = λ k. (x, e, k)

  decide_lem :
      (l : Latch) (b : Bool)
      → Triple
          (λ v. Under h l v.trace × HoldIs b v.trace)
          (decide h l b)
          (λ _ v. Fine h v)
          (λ _ v. Fine h v)
  unfolding decide
  decide_lem l true =
      Triple-weaken (λ _ v. Fine h v) (λ _ v. Fine h v) quarantine_lem
        (λ v j. (j.0.0.0, (j.0.0.1, (l, j.0.1, inl j.1)))) (λ _ v j. j) (λ _ v j. j)
  decide_lem l false = cases (contains terminal l.phase) refl
    where
      cases :
          (ends : Bool)
          → contains terminal l.phase ≡ ends
          → Triple
              (λ v. Under h l v.trace × NoHold h v.trace)
              (if not ends then quarantine h else supervise h l)
              (λ _ v. Fine h v)
              (λ _ v. Fine h v)
      cases true e =
          Triple-weaken (λ _ v. Fine h v) (λ _ v. Fine h v) (supervise_lem l e) (λ v j. j)
            (λ _ v j. j) (λ _ v j. j)
      cases false e =
          Triple-weaken (λ _ v. Fine h v) (λ _ v. Fine h v) quarantine_lem
            (λ v j. (j.0.0.0, (j.0.0.1, (l, j.0.1, inr e)))) (λ _ v j. j) (λ _ v j. j)

  hand_back_lem :
      (l : Latch) (back : Bool)
      → contains terminal l.phase ≡ false
      → Triple (λ v. Under h l v.trace) (hand_back h back) (λ _ v. Fine h v) (λ _ v. Fine h v)
  unfolding hand_back
  hand_back_lem l true e = Triple-pure _ (λ v j. j.0.0)
  hand_back_lem l false e =
      Triple-weaken (λ _ v. Fine h v) (λ _ v. Fine h v) quarantine_lem
        (λ v j. (j.0.0, (j.0.1, (l, j.1, inr e)))) (λ _ v j. j) (λ _ v j. j)

  on_latch_lem :
      (l : Latch)
      → Triple (λ v. Under h l v.trace) (on_latch h l) (λ _ v. Fine h v) (λ _ v. Fine h v)
  unfolding on_latch
  on_latch_lem l =
      Triple-bind (λ b v. Under h l v.trace × HoldIs b v.trace) (held_lem l)
        (λ b.
          Triple-weaken (λ _ v. Fine h v) (λ _ v. Fine h v)
            (cases (not b && contains serving l.phase) (in_service b)) (λ v j. j.0) (λ _ v j. j)
            (λ _ v j. j))
    where
      in_service :
          (b : Bool)
          → (not b && contains serving l.phase) ≡ true
          → contains terminal l.phase ≡ false
      in_service b e = not_terminal l.phase (second (not b) (contains serving l.phase) e)
        where
          second : (x y : Bool) → (x && y) ≡ true → y ≡ true
          second x y k = ground arith

      cases :
          (c : Bool)
          → (c ≡ true → contains terminal l.phase ≡ false)
          → Triple
              (λ v. Under h l v.trace)
              (if c
                then (do back ← return_to_canonical h; hand_back h back)
                else (do again ← held h; decide h l again))
              (λ _ v. Fine h v)
              (λ _ v. Fine h v)
      cases true e =
          Triple-bind (λ _ v. Under h l v.trace)
            (Triple-weaken (λ _ v. Under h l v.trace) (λ _ v. Under h l v.trace)
              (return_lem h (Under h l) (Under-stable h l)) (λ v j. j) (λ _ v j. j)
              (λ _ v j. j.0.0))
            (λ back. hand_back_lem l back (e refl))
      cases false e =
          Triple-bind (λ b v. Under h l v.trace × HoldIs b v.trace) (held_lem l)
            (λ b. decide_lem l b)

  abbrev OfLatch : Option Latch → Trace Call → Type 0
  OfLatch none t = Unit {0}
  OfLatch (some l) t = LatchedAs h l t

  require_latch_lem :
      (o : Option Latch)
      → Triple
          (λ v. (Authorized h v.trace × Idle h v.trace) × OfLatch o v.trace)
          (require_latch h o)
          (λ l v. Under h l v.trace)
          (λ _ v. Fine h v)
  unfolding require_latch
  require_latch_lem none = Triple-raise _ (λ v j. j.0.0)
  require_latch_lem (some l) = Triple-pure l (λ v j. j)

  when_idle_lem :
      (active : Bool)
      → Triple
          (λ v. Authorized h v.trace × (active ≡ false → Idle h v.trace))
          (when_idle h active)
          (λ _ v. Fine h v)
          (λ _ v. Fine h v)
  unfolding when_idle
  when_idle_lem true = Triple-pure _ (λ v j. j.0)
  when_idle_lem false =
      Triple-bind (λ o v. (Authorized h v.trace × Idle h v.trace) × OfLatch o v.trace)
        (Triple-call _ _ latch h.latch (λ w j o e. ((j.0, j.1 refl), of_latch o w.trace e))
          (λ w j x e. j.0))
        (λ o. Triple-bind (λ l v. Under h l v.trace) (require_latch_lem o) (λ l. on_latch_lem l))
    where
      of_latch :
          (o : Option Latch) (t : Trace Call) → h.latch t ≡ ok o → OfLatch o ((latch, true) ∷ t)
      of_latch none t e = tt
      of_latch (some l) t e = e

  scope_lem :
      Triple
        (λ v. Fine h v)
        (receiver_scope_active h)
        (λ active v. Authorized h v.trace × (active ≡ false → Idle h v.trace))
        (λ _ v. Fine h v)
  unfolding receiver_scope_active
  scope_lem =
      Triple-bind (λ s v. Authorized h v.trace × (not (idle s) ≡ false → Idle h v.trace))
        (Triple-call _ _ scope h.scope (λ w j s e. (j, shows s (h.scope w.trace) e)) (λ w j x e. j))
        (λ s.
          Triple-bind (λ _ v. Authorized h v.trace × (not (idle s) ≡ false → Idle h v.trace))
            (Triple-require _ _ (λ e v j. j) (λ e v j. j.0)) (λ _. Triple-pure _ (λ v j. j)))
    where
      shows : (s : String) (r : Result String) → r ≡ ok s → not (idle s) ≡ false → ShowsIdle r
      shows s (ok x) e k = ground (arith, e, k)
      shows s (err x) e k = absurd (ground (arith, e))

  recover_triple : Keeps (Fine h) (recover_once h)
  unfolding recover_once
  recover_triple =
      Triple-bind (λ _ v. Fine h v) (Triple-call _ _ lock h.lock (λ w j a e. j) (λ w j x e. j))
        (λ _.
          Triple-bind (λ active v. Authorized h v.trace × (active ≡ false → Idle h v.trace))
            scope_lem when_idle_lem)

-- Whatever the host answers, and however the files change between two readings: each container that
-- a cycle of the supervisor starts is one that an inspection showed down, without restart by Docker,
-- and with the identity that the ready receipt read last records; the latch read last was in a
-- terminal phase and there was no maintenance hold; and it stops the public services only under a
-- valid hold or a latch whose phase is not terminal. Both only after the receiver's unit had ended.
pub recover_once-Authorized :
    (h : Host) (w : State) → Authorized h w.trace → Authorized h (recover_once h w).1.trace
recover_once-Authorized h w j =
    at_post (recover_once h w).0 (recover_once h w).1 ((recover_triple h).at w j)
  where
    at_post :
        (r : Result Outcome) (v : State)
        → Post (λ _ u. Authorized h u.trace) (λ _ u. Authorized h u.trace) r v
        → Authorized h v.trace
    at_post (ok a) v k = k
    at_post (err e) v k = k
