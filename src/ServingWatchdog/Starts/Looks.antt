-- ===== src/ServingWatchdog/Starts/Looks.antt =====
-- What the watchdog's readings of the receipt and of the containers establish
-- (scripts/ncp-serving-watchdog.py).
use map_service_infra.Base.{
  String, ◌≡◌, refl, sym, subst, Bool, true, false, Option, none, some, List, [], ◌∷◌, arith,
  string_eq, option_eq, if◌then◌else◌, inr,
}
use map_service_infra.Base.Lists.{All, All-map}
use map_service_infra.Base.Result.{ok}
use map_service_infra.Base.Exec.{◌>>=◌, attempt}
use map_service_infra.Base.Exec.Rules.{Triple, Triple-bind, Triple-weaken, Triple-pure}
use map_service_infra.Base.World.{Trace, call, Triple-call}
use map_service_infra.Serving.{Receipt, Container, File, absent, unreadable, written}
use map_service_infra.ServingWatchdog.{
  Call, Host, State, read_receipt, inspect, published_by, is_some_bool, of_file, published, state,
  with_state,
}
use map_service_infra.ServingWatchdog.Starts.{
  Grants, Granted, SeenDown, Due, Justified, Of, grants_lem,
}

module _ (h : Host) where
  abbrev pub Running : State → Type 0
  Running v = Justified h v.trace

  abbrev pub Allowed : List Container → State → Type 0
  Allowed cs v = Running v × All (λ c. Granted h c v.trace) cs

  abbrev pub Found : Option (List Container) → State → Type 0
  Found o v = Running v × Of (λ cs. All (λ c. Granted h c v.trace) cs) o

  abbrev pub Read : File → State → Type 0
  Read file v = Running v × ((c : Container) → Grants c (ok file) → Granted h c v.trace)

  read_lem : Triple Running (call read_receipt h.read_receipt) Read (λ _ v. Running v)
  read_lem =
      Triple-call Read (λ _ v. Running v) read_receipt h.read_receipt
        (λ w j file e. (j, λ c g. subst (Grants c) (sym e) g)) (λ w j x e. j)

  pub Of-Grants :
      (r : Receipt) (o : Option (List Container)) (v : State)
      → Read (written r) v
      → Of (All (λ c. Grants c (ok (written r)))) o
      → Found o v
  Of-Grants r none v (j, k) g = (j, tt)
  Of-Grants r (some cs) v (j, k) g =
      (j, All-map (λ c. Grants c (ok (written r))) (λ c. Granted h c v.trace) cs k g)

  of_file_lem : (file : File) → Triple (Read file) (of_file h file) Found (λ _ v. Running v)
  unfolding of_file
  of_file_lem absent = record { at = λ v j. (j.0, tt) }
  of_file_lem unreadable = record { at = λ v j. j.0 }
  of_file_lem (written r) = record { at = λ v j. Of-Grants r (published_by r) v j (grants_lem r) }

  pub published_lem : Triple Running (published h) Found (λ _ v. Running v)
  unfolding published
  published_lem = Triple-bind Read read_lem of_file_lem

-- A condition on the trace that no inspection spoils.
abbrev pub Calm : (Trace Call → Type 0) → Type 0
Calm R = (id : String) (done : Bool) (t : Trace Call) → R t → R ((inspect id, done) ∷ t)

module _ (h : Host) (R : Trace Call → Type 0) (calm : Calm R) where
  abbrev At : State → Type 0
  At v = R v.trace

  abbrev pub Looked : Container → Option Bool → State → Type 0
  Looked c s v = At v × (is_some_bool false s ≡ true → SeenDown h c v.trace)

  pub state_lem : (c : Container) → Triple At (state h c) (Looked c) (λ _ v. At v)
  unfolding state ◌>>=◌ attempt
  state_lem c = record {
    at = λ w j.
        ground (arith, calm c.container_id true w.trace j, calm c.container_id false w.trace j);
  }

module _ (h : Host) where
  abbrev pub AllGranted : List Container → Trace Call → Type 0
  AllGranted cs t = All (λ c. Granted h c t) cs

  abbrev pub AllDue : List Container → Trace Call → Type 0
  AllDue cs t = All (λ c. Due h c t) cs

  -- `due`: what is found down was granted and seen, whatever else is to be kept.
  pub with_state_lem :
      (R : Trace Call → Type 0) (calm : Calm R) (cs : List Container)
      → Triple
          (λ v. R v.trace × AllGranted cs v.trace)
          (with_state h false cs)
          (λ names v. R v.trace × AllDue names v.trace)
          (λ _ v. R v.trace)
  unfolding with_state
  with_state_lem R calm [] = Triple-pure [] (λ v j. (j.0, tt))
  with_state_lem R calm (c ∷ cs) =
      Triple-bind
        (λ s v.
          (R v.trace × Granted h c v.trace × AllGranted cs v.trace)
          × (is_some_bool false s ≡ true → SeenDown h c v.trace))
        (Triple-weaken (Looked h K keeps c) (λ _ v. K v.trace) (state_lem h K keeps c)
          (λ v j. (j.0, j.1.0, j.1.1)) (λ s v j. j) (λ x v j. j.0))
        (λ s.
          Triple-bind (λ names v. L s v.trace × AllDue names v.trace)
            (Triple-weaken (λ names v. L s v.trace × AllDue names v.trace) (λ _ v. L s v.trace)
              (with_state_lem (L s) (steady s) cs) (λ v j. ((j.0.0, j.0.1, j.1), j.0.2))
              (λ names v j. j) (λ x v j. j.0))
            (λ names. Triple-pure _ (λ v j. (j.0.0, collect s names v j))))
    where
      K : Trace Call → Type 0
      K t = R t × Granted h c t × AllGranted cs t

      keeps : Calm K
      keeps id done t j = (
        calm id done t j.0,
        j.1,
        All-map (λ x. Granted h x t) (λ x. Granted h x ((inspect id, done) ∷ t)) cs (λ x g. g) j.2,
      )

      L : Option Bool → Trace Call → Type 0
      L s t = R t × Granted h c t × (is_some_bool false s ≡ true → SeenDown h c t)

      steady : (s : Option Bool) → Calm (L s)
      steady s id done t j = (calm id done t j.0, j.1, λ k. inr (j.2 k))

      add :
          (b : Bool) (names : List Container) (t : Trace Call)
          → Granted h c t
          → (b ≡ true → SeenDown h c t)
          → AllDue names t
          → AllDue (if b then c ∷ names else names) t
      add true names t g k d = ((g, k refl), d)
      add false names t g k d = d

      collect :
          (s : Option Bool) (names : List Container) (v : State)
          → L s v.trace × AllDue names v.trace
          → AllDue (if is_some_bool false s then c ∷ names else names) v.trace
      collect s names v j = add (is_some_bool false s) names v.trace j.0.1 j.0.2 j.1
