-- ===== src/Receiver/Readiness/Answers.antt =====
-- What a check of the private addresses that returns has seen (scripts/deploy-gcp.py, `smoke`).
use map_service_infra.Base.{
  ℕ, String, ◌≡◌, refl, subst, Bool, true, false, Option, none, List, [], ◌∷◌, inl, arith, eqb,
}
use map_service_infra.Base.Json.{Json}
use map_service_infra.Base.Result.{Result, ok, err}
use map_service_infra.Base.Exec.Rules.{
  Post, Triple, Triple-bind, Triple-pure, Triple-require, Triple-weaken, Triple-lift,
}
use map_service_infra.Base.World.{Trace, Triple-call}
use map_service_infra.Base.Quiet.{Stable, Triple-quiet}
use map_service_infra.Receiver.Model.{Site, Reply, answered, failed, Host, Call, State, http, aside}
use map_service_infra.Receiver.Order.{
  Answers, Answered, AllAnswered, Answered-stable, private_answers,
}
use map_service_infra.Receiver.Readiness.{
  answered_of, http_status, all_answer, check_private, private_smoke, endpoints,
}
use map_service_infra.Receiver.Readiness.Quiet.{is_up-IsQuiet}

module _ (h : Host) where
  -- What a reply shows, once it is found to be a response.
  abbrev Shows : String → Reply → Trace Call → Type 0
  Shows url reply t =
      (code : ℕ) (body : Option Json)
      → answered_of reply ≡ ok (code, body)
      → Answered h (url, code) t

  shown :
      (url : String) (reply : Reply) (r : Result Reply)
      → r ≡ ok reply
      → (code : ℕ) (body : Option Json) → answered_of reply ≡ ok (code, body)
      → Answers code r
  unfolding answered_of
  shown url (answered n b) r e code body k = (body, ground (arith, e, k))
  shown url (failed f) r e code body k = absurd (ground (arith, k))

  split :
      (R : Bool → Trace Call → Type 0) (url : String) (reply : Reply) (r : Result (ℕ × Option Json))
      (w : State)
      → answered_of reply ≡ r
      → R w.own w.trace
      → Shows url reply w.trace
      → Post (λ p v. R v.own v.trace × Answered h (url, p.0) v.trace) (λ _ v. R v.own v.trace) r w
  split R url reply (ok (code, body)) w e j k = (j, k code body e)
  split R url reply (err x) w e j k = j

  eqb_eq : (a b : ℕ) → eqb a b ≡ true → a ≡ b
  eqb_eq a b e = ground (arith, e)

  http_status_lem :
      (R : Bool → Trace Call → Type 0) (url : String) (expected : ℕ)
      → ((o : Bool) → Stable aside (R o))
      → Triple
          (λ w. R w.own w.trace)
          (http_status h url expected none)
          (λ _ w. R w.own w.trace × Answered h (url, expected) w.trace)
          (λ _ w. R w.own w.trace)
  unfolding http_status
  http_status_lem R url expected stable =
      Triple-bind (λ _ w. R w.own w.trace) (Triple-pure tt (λ w j. j))
        (λ _.
          Triple-bind (λ reply w. R w.own w.trace × Shows url reply w.trace)
            (Triple-call _ _ (http url) (h.http url)
              (λ w j reply e. (
                stable w.own (http url) true w.trace refl j,
                λ code body k. inl (refl, shown url reply (h.http url w.trace) e code body k),
              ))
              (λ w j x e. stable w.own (http url) false w.trace refl j))
            (λ reply.
              Triple-bind (λ p w. R w.own w.trace × Answered h (url, p.0) w.trace)
                (Triple-lift (answered_of reply)
                  (λ w j. split R url reply (answered_of reply) w refl j.0 j.1))
                (λ p.
                  Triple-bind (λ _ w. R w.own w.trace × Answered h (url, p.0) w.trace)
                    (Triple-pure tt (λ w j. j))
                    (λ _.
                      Triple-bind (λ _ w. R w.own w.trace × Answered h (url, expected) w.trace)
                        (Triple-require _ _
                          (λ e w j. (
                            j.0,
                            subst (λ n. Answered h (url, n) w.trace) (eqb_eq p.0 expected e) j.1,
                          ))
                          (λ e w j. j.0))
                        (λ _. Triple-pure p.1 (λ w j. j))))))

  all_answer_lem :
      (R : Bool → Trace Call → Type 0) (es : List (String × ℕ))
      → ((o : Bool) → Stable aside (R o))
      → Triple
          (λ w. R w.own w.trace)
          (all_answer h none es)
          (λ _ w. R w.own w.trace × AllAnswered h es w.trace)
          (λ _ w. R w.own w.trace)
  unfolding all_answer
  all_answer_lem R [] stable = Triple-pure tt (λ w j. (j, tt))
  all_answer_lem R ((url, code) ∷ rest) stable =
      Triple-bind (λ _ w. R w.own w.trace × Answered h (url, code) w.trace)
        (http_status_lem R url code stable)
        (λ _.
          Triple-weaken
            (λ _ w. (R w.own w.trace × Answered h (url, code) w.trace) × AllAnswered h rest w.trace)
            (λ _ w. R w.own w.trace × Answered h (url, code) w.trace)
            (all_answer_lem (λ o t. R o t × Answered h (url, code) t) rest
              (λ o c done t k j.
                (stable o c done t k j.0, Answered-stable h (url, code) c done t k j.1)))
            (λ w j. j) (λ _ w j. (j.0.0, (j.0.1, j.1))) (λ _ w j. j.0))

  pub private_smoke_lem :
      (R : Bool → Trace Call → Type 0) (s : Site)
      → ((o : Bool) → Stable aside (R o))
      → Triple
          (λ w. R w.own w.trace)
          (private_smoke h s)
          (λ _ w. R w.own w.trace × AllAnswered h private_answers w.trace)
          (λ _ w. R w.own w.trace)
  unfolding private_smoke check_private
  private_smoke_lem R s stable =
      Triple-bind (λ _ w. One w.own w.trace) (http_status_lem R (origin_health) 200 stable)
        (λ _.
          Triple-bind (λ _ w. Two w.own w.trace)
            (Triple-weaken (λ _ w. Two w.own w.trace) (λ _ w. One w.own w.trace)
              (http_status_lem One app_health 200 one_stable) (λ w j. j) (λ _ w j. j)
              (λ _ w j. j.0))
            (λ body.
              Triple-bind (λ _ w. Two w.own w.trace)
                (Triple-quiet Two two_stable (λ e w j. j.0.0) (is_up-IsQuiet h body))
                (λ up.
                  Triple-bind (λ _ w. Two w.own w.trace)
                    (Triple-require _ _ (λ e w j. j) (λ e w j. j.0.0))
                    (λ _.
                      Triple-weaken (λ _ w. Two w.own w.trace × AllAnswered h (endpoints s) w.trace)
                        (λ _ w. Two w.own w.trace) (all_answer_lem Two (endpoints s) two_stable)
                        (λ w j. j)
                        (λ _ w j. (
                          j.0.0.0,
                          (j.0.0.1, (j.0.1, (j.1.0, (j.1.1.0, (j.1.1.1.0, (j.1.1.1.1.0, tt)))))),
                        ))
                        (λ _ w j. j.0.0)))))
    where
      origin_health : String
      origin_health = "http://127.0.0.1:8290/healthz"

      app_health : String
      app_health = "http://127.0.0.1:8290/healthz/app"

      One : Bool → Trace Call → Type 0
      One o t = R o t × Answered h (origin_health, 200) t

      one_stable : (o : Bool) → Stable aside (One o)
      one_stable o c done t k j =
          (stable o c done t k j.0, Answered-stable h (origin_health, 200) c done t k j.1)

      Two : Bool → Trace Call → Type 0
      Two o t = One o t × Answered h (app_health, 200) t

      two_stable : (o : Bool) → Stable aside (Two o)
      two_stable o c done t k j =
          (one_stable o c done t k j.0, Answered-stable h (app_health, 200) c done t k j.1)
