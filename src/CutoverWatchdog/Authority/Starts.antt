-- ===== src/CutoverWatchdog/Authority/Starts.antt =====
-- The loop that starts what is down (`recover_once` of scripts/cutover_watchdog.py).
use map_service_infra.Base.{
  String, ◌≡◌, refl, subst, Bool, true, false, List, [], ◌∷◌, arith, ◌&&◌, contains, string_eq,
  ◌==◌, if◌then◌else◌,
}
use map_service_infra.Base.Json.{Fields}
use map_service_infra.Base.Result.{Result, ok, err}
use map_service_infra.Base.Exec.{pure, ◌>>◌}
use map_service_infra.Base.Exec.Rules.{
  Post, Triple, Triple-bind, Triple-pure, Triple-weaken, Triple-lift,
}
use map_service_infra.Base.World.{Trace, call, Keeps, Triple-call}
use map_service_infra.CutoverWatchdog.{
  Call, Host, State, topology, smoke, start, agrees, all_agree, terminal, find_item, before_start,
  start_if_down, start_stopped,
}
use map_service_infra.CutoverWatchdog.Receipt.{Item, Latch}
use map_service_infra.CutoverWatchdog.Authority.{
  Idle, LatchedAs, NoHold, PublicIs, Seen, MayStart, Authorized,
}
use map_service_infra.CutoverWatchdog.Authority.Facts.{
  Stable, both, Authorized-stable, Idle-stable, latched_stable, NoHold-stable, public_stable,
  AllSeen, AllSeen-stable, Seen-stable, Quiet-call,
}

module _ (h : Host) where
  abbrev pub Fine : State → Type 0
  Fine v = Authorized h v.trace

  abbrev pub Under : Latch → Trace Call → Type 0
  Under l t = (Authorized h t × Idle h t) × LatchedAs h l t

  pub Under-stable : (l : Latch) → Stable (Under l)
  Under-stable l = both (both (Authorized-stable h) (Idle-stable h)) (latched_stable h l)

  abbrev pub Free : Latch → Trace Call → Type 0
  Free l t = Under l t × NoHold h t

  pub Free-stable : (l : Latch) → Stable (Free l)
  Free-stable l = both (Under-stable l) (NoHold-stable h)

  abbrev pub Ready : Latch → Fields → Trace Call → Type 0
  Ready l p t = Free l t × PublicIs h p t

  pub Ready-stable : (l : Latch) (p : Fields) → Stable (Ready l p)
  Ready-stable l p = both (Free-stable l) (public_stable h p)

  -- Every container of the list agrees with the receipt and was seen so.
  abbrev pub AllGood : Fields → List (String × Item) → Trace Call → Type 0
  AllGood p items t = AllSeen h items t × (all_agree p items ≡ true)

  Good : Fields → Item → Trace Call → Type 0
  Good p i t = ((s : String) × (agrees p s i ≡ true)) × Seen h i t

  found_lem :
      (p : Fields) (s : String) (items : List (String × Item)) (t : Trace Call) (i : Item)
      → AllGood p items t
      → find_item s items ≡ ok i
      → Good p i t
  unfolding find_item Good all_agree
  found_lem p s [] t i g e = absurd (ground (arith, e))
  found_lem p s ((n, j) ∷ rest) t i g e =
      here (found_lem p s rest t i) (n == s) e (left (agrees p n j) (all_agree p rest) g.1)
        (right (agrees p n j) (all_agree p rest) g.1)
    where
      left : (a b : Bool) → (a && b) ≡ true → a ≡ true
      left a b k = ground arith

      right : (a b : Bool) → (a && b) ≡ true → b ≡ true
      right a b k = ground arith

      ok_item : (x y : Item) → ok x ≡ ok y → x ≡ y
      ok_item x y k = ground (arith, k)

      here :
          (AllGood p rest t → find_item s rest ≡ ok i → Good p i t)
          → (b : Bool) → (if b then ok j else find_item s rest) ≡ ok i
          → agrees p n j ≡ true
          → all_agree p rest ≡ true
          → Good p i t
      here again true k a r = subst (λ x. Good p x t) (ok_item j i k) ((n, a), g.0.0)
      here again false k a r = again (g.0.1, r) k

  abbrev pub Set : Latch → Fields → List (String × Item) → Trace Call → Type 0
  Set l p items t = Ready l p t × AllGood p items t

  Good-stable : (p : Fields) (i : Item) → Stable (Good p i)
  unfolding Good
  Good-stable p i c done t q j = (j.0, Seen-stable h i c done t q j.1)

  module _ (l : Latch) (p : Fields) (ends : contains terminal l.phase ≡ true) where
    Starting : Item → Trace Call → Type 0
    Starting i t = Ready l p t × Good p i t

    Starting-stable : (i : Item) → Stable (Starting i)
    unfolding Starting
    Starting-stable i = both (Ready-stable l p) (Good-stable p i)

    may_start : (i : Item) (t : Trace Call) → Starting i t → i.running ≡ false → MayStart h i t
    unfolding Starting Good
    may_start i t j down =
        ((l, j.0.0.0.1, ends), j.0.0.0.0.1, j.0.0.1, (p, j.1.0.0, j.0.1, j.1.0.1), j.1.1, down)

    MayStart-of :
        (i : Item) (t : Trace Call) → Ready l p t → Good p i t → i.running ≡ false → MayStart h i t
    unfolding Starting
    MayStart-of i t r g down = may_start i t (r, g) down

    started :
        (i : Item) (done : Bool) (t : Trace Call)
        → Ready l p t
        → MayStart h i t
        → Ready l p ((start i.id, done) ∷ t)
    started i done t j k = ((((((i, refl, k), j.0.0.0.0), j.0.0.0.1), j.0.0.1), j.0.1), j.1)

    before_lem :
        (R : Trace Call → Type 0) (s : String)
        → Stable R
        → Keeps (λ v. R v.trace) (before_start h s)
    unfolding before_start
    before_lem R s stable = cases (s == "edge")
      where
        cases :
            (b : Bool)
            → Keeps {S = State}
                (λ v. R v.trace)
                (if b then (do call topology h.topology; call smoke h.smoke) else pure tt)
        cases true =
            Triple-bind (λ _ v. R v.trace) (Quiet-call h R topology h.topology stable tt)
              (λ _. Quiet-call h R smoke h.smoke stable tt)
        cases false = Triple-pure tt (λ v j. j)

    seen_start :
        (cid : String) (done : Bool) (items : List (String × Item)) (t : Trace Call)
        → AllSeen h items t
        → AllSeen h items ((start cid, done) ∷ t)
    seen_start cid done [] t j = tt
    seen_start cid done ((s, i) ∷ rest) t j = (j.0, seen_start cid done rest t j.1)

    abbrev Whole : Item → List (String × Item) → Trace Call → Type 0
    Whole i items t = (Ready l p t × (AllSeen h items t × (all_agree p items ≡ true))) × Good p i t

    Whole-stable : (i : Item) (items : List (String × Item)) → Stable (Whole i items)
    Whole-stable i items =
        both (both (Ready-stable l p) (both (AllSeen-stable h items) (λ c done t q j. j)))
          (Good-stable p i)

    start_call :
        (i : Item) (items : List (String × Item))
        → i.running ≡ false
        → Triple
            (λ v. Whole i items v.trace)
            (call (start i.id) (h.start i.id))
            (λ _ v. Set l p items v.trace)
            (λ _ v. Fine v)
    start_call i items down =
        Triple-call _ _ (start i.id) (h.start i.id)
          (λ w j a e. (
            started i true w.trace j.0.0 (permitted w.trace j),
            (seen_start i.id true items w.trace j.0.1.0, j.0.1.1),
          ))
          (λ w j x e. (started i false w.trace j.0.0 (permitted w.trace j)).0.0.0.0)
      where
        permitted : (t : Trace Call) → Whole i items t → MayStart h i t
        permitted t j = MayStart-of i t j.0.0 j.1 down

    -- One service of the loop: the start is authorized, and the readings stay.
    start_if_down_lem :
        (s : String) (i : Item) (items : List (String × Item))
        → Triple
            (λ v. Set l p items v.trace × Good p i v.trace)
            (start_if_down h s i)
            (λ _ v. Set l p items v.trace)
            (λ _ v. Fine v)
    unfolding start_if_down
    start_if_down_lem s i items = cases i.running refl
      where
        cases :
            (b : Bool)
            → i.running ≡ b
            → Triple {S = State}
                (λ v. Whole i items v.trace)
                (if b then pure tt else (do before_start h s; call (start i.id) (h.start i.id)))
                (λ _ v. Set l p items v.trace)
                (λ _ v. Fine v)
        cases true e = Triple-pure tt (λ v j. j.0)
        cases false e =
            Triple-bind (λ _ v. Whole i items v.trace)
              (Triple-weaken (λ _ v. Whole i items v.trace) (λ _ v. Whole i items v.trace)
                (before_lem (Whole i items) s (Whole-stable i items)) (λ v j. j) (λ _ v j. j)
                (λ _ v j. j.0.0.0.0.0.0))
              (λ _. start_call i items e)

    pub start_stopped_lem :
        (services : List String) (items : List (String × Item))
        → Triple
            (λ v. Set l p items v.trace)
            (start_stopped h services items)
            (λ _ v. Fine v)
            (λ _ v. Fine v)
    unfolding start_stopped
    start_stopped_lem [] items = Triple-pure tt (λ v j. j.0.0.0.0.0)
    start_stopped_lem (s ∷ rest) items =
        Triple-bind (λ i v. Set l p items v.trace × Good p i v.trace)
          (Triple-lift (find_item s items) (λ v j. found_post (find_item s items) refl v j))
          (λ i.
            Triple-bind (λ _ v. Set l p items v.trace) (start_if_down_lem s i items)
              (λ _. start_stopped_lem rest items))
      where
        found_post :
            (r : Result Item)
            → find_item s items ≡ r
            → (v : State) → Set l p items v.trace
            → Post (λ i u. Set l p items u.trace × Good p i u.trace) (λ _ u. Fine u) r v
        found_post (ok i) e v j = (j, found_lem p s items v.trace i j.1 e)
        found_post (err x) e v j = j.0.0.0.0.0
