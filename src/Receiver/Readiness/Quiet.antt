-- ===== src/Receiver/Readiness/Quiet.antt =====
-- The probes of scripts/deploy-gcp.py make calls aside only.
use map_service_infra.Base.{ℕ, zero, suc, String, Bool, List, [], ◌∷◌, Option, none, some}
use map_service_infra.Base.Json.{Json, object}
use map_service_infra.Base.Exec.{Exec}
use map_service_infra.Base.Result.{Error, coded, other}
use map_service_infra.Base.Quiet.{IsQuiet, quiet_rules, IsQuiet-bind, IsQuiet-pure, IsQuiet-raise}
use map_service_infra.Receiver.Model.{Site, Reply, answered, failed, Host, State, aside}
use map_service_infra.Receiver.Readiness.{
  Probe, Verdict, ready, unready, Ended, complete, exhausted, remaining_smoke_time, within,
  http_status, passed, after_probe, finish, after_round, judge, public_probe, round, back_off,
  wait_loop, ended, on_deadline, wait_public_readiness, all_answer, is_up, check_private,
  private_smoke, smoke, public_probes,
}

module _ (h : Host) where
  remaining-IsQuiet : (d : ℕ) → IsQuiet aside (remaining_smoke_time h d)
  unfolding remaining_smoke_time
  remaining-IsQuiet d = search quiet_rules depth 30

  within-IsQuiet : (d : Option ℕ) → IsQuiet aside (within h d)
  unfolding within
  within-IsQuiet none = IsQuiet-pure _
  within-IsQuiet (some d) = search (quiet_rules, remaining-IsQuiet) depth 30

  http_status-IsQuiet :
      (url : String) (expected : ℕ) (d : Option ℕ) → IsQuiet aside (http_status h url expected d)
  unfolding http_status
  http_status-IsQuiet url expected d = search (quiet_rules, within-IsQuiet) depth 30

  passed-IsQuiet : (v : Verdict) → IsQuiet aside (passed h v)
  unfolding passed
  passed-IsQuiet ready = search quiet_rules depth 30
  passed-IsQuiet (unready c k r) = IsQuiet-pure _

  judge-IsQuiet : (p : Probe) (d : ℕ) (r : Reply) → IsQuiet aside (judge h p d r)
  unfolding judge
  judge-IsQuiet p d (answered code body) =
      search (quiet_rules, remaining-IsQuiet, passed-IsQuiet) depth 30
  judge-IsQuiet p d (failed f) = IsQuiet-pure _

  public_probe-IsQuiet : (s : Site) (p : Probe) (d : ℕ) → IsQuiet aside (public_probe h s p d)
  unfolding public_probe
  public_probe-IsQuiet s p d = search (quiet_rules, remaining-IsQuiet, judge-IsQuiet) depth 30

  after_probe-IsQuiet :
      (v : Verdict) (m : Exec State Verdict) → IsQuiet aside m → IsQuiet aside (after_probe h v m)
  unfolding after_probe
  after_probe-IsQuiet ready m q = q
  after_probe-IsQuiet (unready c k r) m q = IsQuiet-pure _

  pub round-IsQuiet : (s : Site) (d : ℕ) (ps : List Probe) → IsQuiet aside (round h s d ps)
  unfolding round
  round-IsQuiet s d [] = IsQuiet-pure _
  round-IsQuiet s d (p ∷ ps) =
      IsQuiet-bind _ _ (public_probe-IsQuiet s p d)
        (λ v. after_probe-IsQuiet v _ (round-IsQuiet s d ps))

  back_off-IsQuiet : (d delay : ℕ) (r : Bool) → IsQuiet aside (back_off h d delay r)
  unfolding back_off
  back_off-IsQuiet d delay r = search (quiet_rules, remaining-IsQuiet) depth 30

  finish-IsQuiet : (d : ℕ) → IsQuiet aside (finish h d)
  unfolding finish
  finish-IsQuiet d = search (quiet_rules, remaining-IsQuiet) depth 30

  after_round-IsQuiet :
      (d delay : ℕ) (v : Verdict) (again : Unit {0} → Exec State Ended)
      → ((u : Unit {0}) → IsQuiet aside (again u))
      → IsQuiet aside (after_round h d delay v again)
  unfolding after_round
  after_round-IsQuiet d delay ready again q = finish-IsQuiet d
  after_round-IsQuiet d delay (unready c k r) again q =
      IsQuiet-bind _ _ (back_off-IsQuiet d delay r) q

  wait_loop-IsQuiet :
      (fuel : ℕ) (s : Site) (d delay : ℕ) → IsQuiet aside (wait_loop h fuel s d delay)
  unfolding wait_loop
  wait_loop-IsQuiet zero s d delay = IsQuiet-pure _
  wait_loop-IsQuiet (suc fuel) s d delay = IsQuiet-bind _ _ (remaining-IsQuiet d) (λ _.
      IsQuiet-bind _ _ (round-IsQuiet s d public_probes)
        (λ v. after_round-IsQuiet d delay v _ (λ _. wait_loop-IsQuiet fuel s d _)))

  ended-IsQuiet : (e : Ended) → IsQuiet aside (ended h e)
  unfolding ended
  ended-IsQuiet complete = IsQuiet-pure _
  ended-IsQuiet exhausted = IsQuiet-raise _

  on_deadline-IsQuiet : (e : Error) → IsQuiet aside (on_deadline h e)
  unfolding on_deadline
  on_deadline-IsQuiet (coded c) = search quiet_rules depth 30
  on_deadline-IsQuiet other = IsQuiet-raise _

  wait_public-IsQuiet : (s : Site) (d : ℕ) → IsQuiet aside (wait_public_readiness h s d)
  unfolding wait_public_readiness
  wait_public-IsQuiet s d =
      search (quiet_rules, wait_loop-IsQuiet, ended-IsQuiet, on_deadline-IsQuiet) depth 30

  all_answer-IsQuiet : (d : Option ℕ) (es : List (String × ℕ)) → IsQuiet aside (all_answer h d es)
  unfolding all_answer
  all_answer-IsQuiet d [] = IsQuiet-pure _
  all_answer-IsQuiet d ((url, expected) ∷ rest) =
      IsQuiet-bind _ _ (http_status-IsQuiet url expected d) (λ _. all_answer-IsQuiet d rest)

  pub is_up-IsQuiet : (o : Option Json) → IsQuiet aside (is_up h o)
  unfolding is_up
  is_up-IsQuiet (some (object f)) = IsQuiet-pure _
  is_up-IsQuiet _ = IsQuiet-raise _

  check_private-IsQuiet : (s : Site) (d : Option ℕ) → IsQuiet aside (check_private h s d)
  unfolding check_private
  check_private-IsQuiet s d =
      search (quiet_rules, http_status-IsQuiet, is_up-IsQuiet, all_answer-IsQuiet) depth 30

  pub private_smoke-IsQuiet : (s : Site) → IsQuiet aside (private_smoke h s)
  unfolding private_smoke
  private_smoke-IsQuiet s = check_private-IsQuiet s none

  pub smoke-IsQuiet : (s : Site) → IsQuiet aside (smoke h s)
  unfolding smoke
  smoke-IsQuiet s =
      search (quiet_rules, remaining-IsQuiet, check_private-IsQuiet, wait_public-IsQuiet) depth 30
