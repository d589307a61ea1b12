-- ===== src/Receiver/Order.antt =====
-- What the calls of a deployment (scripts/deploy-gcp.py) show: the latch that is in force, the backup,
-- the answers of the services.
use map_service_infra.Base.{
  ℕ, String, ◌≡◌, refl, ◌⊎◌, inl, inr, Bool, true, false, Option, List, [], ◌∷◌, contains,
  string_eq,
}
use map_service_infra.Base.Json.{Json}
use map_service_infra.Base.Lists.{All}
use map_service_infra.Base.Result.{Result, ok}
use map_service_infra.Base.World.{Trace}
use map_service_infra.Base.Quiet.{Stable, Grown, more}
use map_service_infra.CutoverWatchdog.{terminal}
use map_service_infra.Receiver.Model.{
  Reply, answered, Host, Call, http, backup, write_latch, cloud_up, open_edge, restore, stop_new,
  aside,
}

-- The last attempt to write the latch has the property, which reads its phase and its success.
abbrev pub LastWrite : (String → Bool → Type 0) → Trace Call → Type 0
LastWrite P [] = ⊥
LastWrite P ((write_latch l, done) ∷ t) = P l.phase done
LastWrite P (_ ∷ t) = LastWrite P t

-- The latch is written and its phase is not terminal: a supervisor that reads it closes the public
-- services or waits, and starts nothing.
abbrev pub IsOpen : String → Bool → Type 0
IsOpen phase done = (contains terminal phase ≡ false) × (done ≡ true)

-- A backup was made, and since the last one was attempted it is that one.
abbrev pub BackedUp : Trace Call → Type 0
BackedUp [] = ⊥
BackedUp ((backup, done) ∷ t) = done ≡ true
BackedUp (_ ∷ t) = BackedUp t

-- Some write of the latch succeeded.
abbrev pub Begun : Trace Call → Type 0
Begun [] = ⊥
Begun ((write_latch l, done) ∷ t) = (done ≡ true) ⊎ Begun t
Begun (_ ∷ t) = Begun t

-- The last latch that a write was attempted of allows a rollback, or not.
abbrev pub Flagged : Bool → Trace Call → Type 0
Flagged b [] = ⊥
Flagged b ((write_latch l, _) ∷ t) = l.prior_rollback_compatible ≡ b
Flagged b (_ ∷ t) = Flagged b t

-- Requests that every deployment makes of the private addresses.
abbrev pub private_answers : List (String × ℕ)
private_answers =
    ("http://127.0.0.1:8290/healthz", 200)
    ∷ ("http://127.0.0.1:8290/healthz/app", 200)
    ∷ ("http://127.0.0.1:8290/api/v1/users/me", 401)
    ∷ ("http://127.0.0.1:8200/health/ready", 200)
    ∷ ("http://127.0.0.1:8201/health/ready", 200)
    ∷ ("http://127.0.0.1:8204/health", 200)
    ∷ []

abbrev pub Answers : ℕ → Result Reply → Type 0
Answers code r = (body : Option Json) × (r ≡ ok (answered code body))

module _ (h : Host) where
  -- Since the containers were last brought up, the request was answered so.
  abbrev pub Answered : String × ℕ → Trace Call → Type 0
  Answered q [] = ⊥
  Answered q ((cloud_up args env, _) ∷ t) = ⊥
  Answered q ((http url, _) ∷ t) = ((url ≡ q.0) × Answers q.1 (h.http url t)) ⊎ Answered q t
  Answered q (_ ∷ t) = Answered q t

  abbrev pub AllAnswered : List (String × ℕ) → Trace Call → Type 0
  AllAnswered qs t = All (λ q. Answered q t) qs

  -- Containers are brought up only after a backup and under a latch that is not terminal; the public
  -- entrance is opened only where besides every private address answered; what was before is restored,
  -- and what is new stopped, only after the latch was written, and where the latch allows a rollback.
  abbrev pub Ordered : Trace Call → Type 0
  Ordered [] = Unit {0}
  Ordered ((cloud_up args env, _) ∷ t) = (BackedUp t × LastWrite IsOpen t) × Ordered t
  Ordered ((open_edge args, _) ∷ t) =
      (BackedUp t × LastWrite IsOpen t × AllAnswered private_answers t) × Ordered t
  Ordered ((restore args, _) ∷ t) = (Begun t × Flagged true t) × Ordered t
  Ordered ((stop_new ids, _) ∷ t) = (Begun t × Flagged true t) × Ordered t
  Ordered (_ ∷ t) = Ordered t

  pub Answered-stable : (q : String × ℕ) → Stable aside (Answered q)
  Answered-stable q (http url) done t k j = inr j
  Answered-stable q (cloud_up args env) done t k j = cc
  Answered-stable q _ done t k j = j

  pub AllAnswered-stable : (qs : List (String × ℕ)) → Stable aside (AllAnswered qs)
  AllAnswered-stable [] c done t k j = tt
  AllAnswered-stable (q ∷ qs) c done t k j =
      (Answered-stable q c done t k j.0, AllAnswered-stable qs c done t k j.1)

  pub Ordered-stable : Stable aside Ordered
  Ordered-stable (cloud_up args env) done t k j = cc
  Ordered-stable (open_edge args) done t k j = cc
  Ordered-stable (restore args) done t k j = cc
  Ordered-stable (stop_new ids) done t k j = cc
  Ordered-stable _ done t k j = j

pub LastWrite-stable : (P : String → Bool → Type 0) → Stable aside (LastWrite P)
LastWrite-stable P (write_latch l) done t k j = cc
LastWrite-stable P _ done t k j = j

pub BackedUp-stable : Stable aside BackedUp
BackedUp-stable backup done t k j = cc
BackedUp-stable _ done t k j = j

pub Begun-stable : Stable aside Begun
Begun-stable (write_latch l) done t k j = cc
Begun-stable _ done t k j = j

pub Flagged-stable : (b : Bool) → Stable aside (Flagged b)
Flagged-stable b (write_latch l) done t k j = cc
Flagged-stable b _ done t k j = j

-- Calls that start, replace and stop no container of the release.
abbrev pub harmless : Call → Bool
harmless (cloud_up args env) = false
harmless (open_edge args) = false
harmless (restore args) = false
harmless (stop_new ids) = false
harmless _ = true

harmless_of_aside : (c : Call) → aside c ≡ true → harmless c ≡ true
harmless_of_aside (cloud_up args env) k = cc
harmless_of_aside (open_edge args) k = cc
harmless_of_aside (restore args) k = cc
harmless_of_aside (stop_new ids) k = cc
harmless_of_aside _ k = refl

pub Grown-stable : (t0 : Trace Call) → Stable aside (λ t. Grown harmless t0 t)
Grown-stable t0 c done t k g = more c done (harmless_of_aside c k) g

pub Begun-LastWrite :
    (P : String → Bool → Type 0) (t : Trace Call)
    → ((phase : String) (done : Bool) → P phase done → done ≡ true)
    → LastWrite P t
    → Begun t
Begun-LastWrite P [] succeeds j = j
Begun-LastWrite P ((write_latch l, done) ∷ t) succeeds j = inl (succeeds l.phase done j)
Begun-LastWrite P ((_, done) ∷ t) succeeds j = Begun-LastWrite P t succeeds j
