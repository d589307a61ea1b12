-- ===== src/Receiver/Readiness.antt =====
-- Whether the service answers, scripts/deploy-gcp.py: `remaining_smoke_time`, `http_status`,
-- `network_failure`, `public_probe`, `wait_public_readiness` and `smoke`. Time is in milliseconds.
-- The alarm of `smoke_deadline` is an exception that the host may raise at any call.
pub mod Quiet
pub mod Answers
pub mod Ending
pub mod Healthy
pub mod Public
use map_service_infra.Base.{
  ℕ, zero, suc, ◌+◌, ◌-◌, ◌*◌, min, ◌<>◌, String, Bool, true, false, not, ◌&&◌, ◌||◌, Option, none,
  some, List, [], ◌∷◌, ◌++◌, ◌==◌, string_eq, if◌then◌else◌, eqb, ltb, leb,
}
use map_service_infra.Base.Json.{Json, object, get}
use map_service_infra.Base.Result.{Error, coded, other, Result, ok, err}
use map_service_infra.Base.Exec.{Exec, pure, raise, lift, ◌>>=◌, ◌>>◌, attempt, require, when}
use map_service_infra.Base.World.{call}
use map_service_infra.CutoverWatchdog.Receipt.{is_text}
use map_service_infra.Receiver.Model.{
  Site, Failure, certificate, handshake, timed_out, name_again, name_error, connection_error,
  connection_number, transport, Reply, answered, failed, Host, State, clock, sleep, http, report,
}

pub record Probe : Type 0 where
  pub alias : String
  pub path : String
  pub expected : ℕ

abbrev pub edge_health : Probe
edge_health = record { alias = "edge_health"; path = "/healthz"; expected = 200 }

abbrev pub bff_ready : Probe
bff_ready = record { alias = "bff_ready"; path = "/healthz/app"; expected = 200 }

abbrev pub account_unauthorized : Probe
account_unauthorized = record {
  alias = "account_unauthorized";
  path = "/api/v1/users/me";
  expected = 401;
}

abbrev pub public_probes : List Probe
public_probes = edge_health ∷ bff_ready ∷ account_unauthorized ∷ []

abbrev pub smoke_milliseconds : ℕ
smoke_milliseconds = 90000

-- A `PublicProbeError` is a value here: its status, its kind and whether it is worth another round.
pub data Verdict : Type 0 where
  ready : Verdict
  unready : Option ℕ → String → Bool → Verdict

pub network_failure : Failure → String × Bool
network_failure certificate = ("tls_verification", false)
network_failure handshake = ("tls_error", true)
network_failure timed_out = ("timeout", true)
network_failure name_again = ("dns_temporary", true)
network_failure name_error = ("dns_error", false)
network_failure connection_error = ("connection", true)
network_failure connection_number = ("connection", true)
network_failure transport = ("transport_error", false)

abbrev deadline_code : String
deadline_code = "public readiness deadline exceeded"

answered_of : Reply → Result (ℕ × Option Json)
answered_of (answered code body) = ok (code, body)
answered_of (failed f) = err other

-- The part of `public_probe` on a readable body.
pub judge_body : Probe → ℕ → Option Json → Verdict
unfolding get
judge_body p code none =
    if p.alias == "bff_ready" then unready (some code) "invalid_readiness_body" false else ready
judge_body p code (some (object f)) =
    if p.alias == "bff_ready" && not (is_text "UP" (get "status" f))
    then unready (some code) "readiness_mismatch" false
    else ready
judge_body p code (some _) =
    if p.alias == "bff_ready" then unready (some code) "readiness_mismatch" false else ready

unfoldable pub judge_code : Probe → ℕ → Option Json → Verdict
unfolding judge_body
judge_code p code body =
    if eqb code p.expected
    then judge_body p code body
    else (if eqb code 502 || (eqb code 503 || eqb code 504)
        then unready (some code) "upstream_unavailable" true
        else unready (some code)
            (if p.alias == "account_unauthorized"
              then "authentication_mismatch"
              else "http_mismatch")
            false)

pub data Ended : Type 0 where
  complete exhausted : Ended

abbrev pub origin : String
origin = "http://127.0.0.1:8290"

-- The requests behind the readiness of the gateway.
abbrev pub endpoints : Site → List (String × ℕ)
endpoints s =
    (origin <> "/api/v1/users/me", 401)
    ∷ ("http://127.0.0.1:8200/health/ready", 200)
    ∷ ("http://127.0.0.1:8201/health/ready", 200)
    ∷ ("http://127.0.0.1:8204/health", 200)
    ∷ (if s.detached
        then []
        else ("http://127.0.0.1:8202/health/ready", 200)
          ∷ ("http://127.0.0.1:8203/", 200)
          ∷ ("http://127.0.0.1:8202/api/v1/auth/me", 401)
          ∷ [])

module _ (h : Host) where
  pub remaining_smoke_time : ℕ → Exec State ℕ
  remaining_smoke_time deadline = do
    now ← call clock h.now
    require (ltb now deadline) deadline_code
    pure (deadline - now)

  pub within : Option ℕ → Exec State Unit
  unfolding remaining_smoke_time
  within none = pure tt
  within (some deadline) = do _ ← remaining_smoke_time deadline; pure tt

  pub http_status : String → ℕ → Option ℕ → Exec State (Option Json)
  unfolding within answered_of
  http_status url expected deadline = do
    within deadline
    reply ← call (http url) (h.http url)
    (code, body) ← lift (answered_of reply)
    within deadline
    require (eqb code expected) "smoke response mismatch"
    pure body

  pub passed : Verdict → Exec State Verdict
  passed ready = do call (report "public_probe_pass") (h.report "public_probe_pass"); pure ready
  passed v = pure v

  pub judge : Probe → ℕ → Reply → Exec State Verdict
  unfolding remaining_smoke_time judge_code network_failure passed
  judge p deadline (failed f) = pure (unready none (network_failure f).0 (network_failure f).1)
  judge p deadline (answered code body) = do
    _ ← remaining_smoke_time deadline
    passed (judge_code p code body)

  pub public_probe : Site → Probe → ℕ → Exec State Verdict
  unfolding judge remaining_smoke_time
  public_probe s p deadline = do
    _ ← remaining_smoke_time deadline
    let url = s.target.public_url <> p.path
    reply ← call (http url) (h.http url)
    judge p deadline reply

  pub after_probe : Verdict → Exec State Verdict → Exec State Verdict
  after_probe ready next = next
  after_probe (unready c k r) next = pure (unready c k r)

  -- One round; the first probe that fails ends it.
  pub round : Site → ℕ → List Probe → Exec State Verdict
  unfolding public_probe after_probe
  round s deadline [] = pure ready
  round s deadline (p ∷ ps) = do v ← public_probe s p deadline; after_probe v (round s deadline ps)

  -- What follows a failed round, before the next.
  pub back_off : ℕ → ℕ → Bool → Exec State Unit
  unfolding remaining_smoke_time
  back_off deadline delay retryable = do
    let phase = if retryable then "public_probe_retry" else "public_probe_failed"
    call (report phase) (h.report phase)
    require retryable "public readiness failed"
    left ← remaining_smoke_time deadline
    call (sleep (min delay left)) (h.sleep (min delay left))

  pub finish : ℕ → Exec State Ended
  unfolding remaining_smoke_time
  finish deadline = do _ ← remaining_smoke_time deadline; pure complete

  pub after_round : ℕ → ℕ → Verdict → (Unit {0} → Exec State Ended) → Exec State Ended
  unfolding finish back_off
  after_round deadline delay ready again = finish deadline
  after_round deadline delay (unready c k retryable) again =
      back_off deadline delay retryable >>= again

  pub wait_loop : ℕ → Site → ℕ → ℕ → Exec State Ended
  unfolding round after_round remaining_smoke_time
  wait_loop zero s deadline delay = pure exhausted
  wait_loop (suc fuel) s deadline delay = do
    _ ← remaining_smoke_time deadline
    v ← round s deadline public_probes
    after_round deadline delay v (λ _. wait_loop fuel s deadline (min (delay * 2) 2000))

  pub ended : Ended → Exec State Unit
  ended complete = pure tt
  ended exhausted = raise other

  -- `except SmokeDeadline`
  pub on_deadline : Error → Exec State Unit
  on_deadline (coded c) = do
    when (c == deadline_code) (call (report "public_probe_failed") (h.report "public_probe_failed"))
    raise (coded c)
  on_deadline other = raise other

  abbrev pub rounds : ℕ
  rounds = 361

  unfoldable pub wait_public_readiness : Site → ℕ → Exec State Unit
  unfolding wait_loop ended on_deadline
  wait_public_readiness s deadline =
      attempt (do e ← wait_loop rounds s deadline 250; ended e) on_deadline

  pub all_answer : Option ℕ → List (String × ℕ) → Exec State Unit
  unfolding http_status
  all_answer deadline [] = pure tt
  all_answer deadline ((url, expected) ∷ rest) = do
    _ ← http_status url expected deadline
    all_answer deadline rest

  pub is_up : Option Json → Exec State Bool
  unfolding get
  is_up (some (object f)) = pure (is_text "UP" (get "status" f))
  is_up _ = raise other

  -- `check` of `smoke`
  pub check_private : Site → Option ℕ → Exec State Unit
  unfolding all_answer http_status is_up
  check_private s deadline = do
    _ ← http_status (origin <> "/healthz") 200 deadline
    body ← http_status (origin <> "/healthz/app") 200 deadline
    up ← is_up body
    require up "BFF readiness failed"
    all_answer deadline (endpoints s)

  unfoldable pub private_smoke : Site → Exec State Unit
  unfolding check_private
  private_smoke s = check_private s none

  unfoldable pub smoke : Site → Exec State Unit
  unfolding check_private wait_public_readiness remaining_smoke_time
  smoke s = do
    now ← call clock h.now
    let deadline = now + smoke_milliseconds
    _ ← remaining_smoke_time deadline
    check_private s (some deadline)
    wait_public_readiness s deadline
