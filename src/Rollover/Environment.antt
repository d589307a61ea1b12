-- ===== src/Rollover/Environment.antt =====
-- What the temporary copy's environment reaches (scripts/service-rollover.py, `create_args` and
-- `create_env`).
use map_service_infra.Base.{
  ℕ, String, ◌≡◌, refl, sym, subst, ap, ◌∙◌, Bool, true, false, not, ◌&&◌, Option, none, some, List,
  [], ◌∷◌, ◌++◌, ◌==◌, string_eq, arith, if◌then◌else◌, Bool-cases, inl, inr, eq_of_==,
}
use map_service_infra.Base.Result.{Result, ok, err, require, ◌>>=◌}
use map_service_infra.Rollover.Arguments.Client.{
  create_env, client_env, given, none_steers, steers, lookup,
}
use map_service_infra.Rollover.Arguments.{Entry, keys, create_args}

-- The same entry with other values in its environment.
abbrev pub with_environment : List (String × Option String) → Entry → Entry
with_environment env e = record e { environment = env }

-- Only the names of the environment reach the arguments that every local account can read: other
-- values under the same names give the same arguments, or the same refusal.
pub create_args_hides_values :
    (name project service : String) (e : Entry) (other_env : List (String × Option String))
    (networks : List String) (stop : ℕ)
    → keys other_env ≡ keys e.environment
    → create_args name project service (with_environment other_env e) networks stop
      ≡ create_args name project service e networks stop
unfolding create_args
create_args_hides_values name project service e other_env networks stop same = rw same refl

apart :
    (k j : String) (b : Bool) → steers k ≡ true → (not (steers j) && b) ≡ true → (j == k) ≡ false
apart k j b s f = elim (Bool-cases (j == k)) [
  | inr differs ↦ differs
  | inl e ↦ absurd (clash (eq_of_== j k e))
]
  where
    clash : j ≡ k → ⊥
    clash e = ground (arith, s, f, subst (λ i. steers i ≡ true) (sym e) s)

rest_free : (j : String) (b : Bool) → (not (steers j) && b) ≡ true → b ≡ true
rest_free j b f = ground arith

steering_absent :
    (k : String) (values : List (String × String))
    → steers k ≡ true
    → none_steers values ≡ true
    → lookup k values ≡ none
unfolding none_steers lookup
steering_absent k [] s n = refl
steering_absent k ((j, v) ∷ rest) s n =
    rw (apart k j (none_steers rest) s n)
      (steering_absent k rest s (rest_free j (none_steers rest) n))

-- The value from the first of two dicts that has one.
abbrev or_else : Option String → Option String → Option String
or_else none o = o
or_else (some v) o = some v

lookup-append :
    (k : String) (xs ys : List (String × String))
    → lookup k (xs ++ ys) ≡ or_else (lookup k xs) (lookup k ys)
unfolding lookup
lookup-append k [] ys = refl
lookup-append k ((j, v) ∷ xs) ys = ground (arith, lookup-append k xs ys)

client_absent : (k : String) → steers k ≡ false → lookup k client_env ≡ none
unfolding lookup
client_absent k s = ground arith

or_else-none : (o : Option String) → or_else o none ≡ o
or_else-none none = refl
or_else-none (some v) = refl

-- The joined environment, for a name that does steer the client and for one that does not.
joined_lem :
    (k : String) (values : List (String × String)) (b : Bool)
    → steers k ≡ b
    → none_steers values ≡ true
    → lookup k (values ++ client_env) ≡ (if b then lookup k client_env else lookup k values)
joined_lem k values true s free =
    lookup-append k values client_env
    ∙ ap (λ o. or_else o (lookup k client_env)) (steering_absent k values s free)
joined_lem k values false s free =
    lookup-append k values client_env
    ∙ (ap (or_else (lookup k values)) (client_absent k s) ∙ or_else-none (lookup k values))

abbrev pub ok_or_empty : Result (List (String × String)) → List (String × String)
ok_or_empty (ok env) = env
ok_or_empty (err e) = []

-- When `create_env` accepts a service's environment, the docker client sees its own value of every
-- name that steers it (PATH, DOCKER_HOST, DOCKER_CONFIG and every DOCKER_ name), and of any other
-- name the service's value.
pub create_env_lem :
    (e : Entry) (env : List (String × String)) (k : String)
    → create_env e ≡ ok env
    → lookup k env ≡ (if steers k then lookup k client_env else lookup k (given e.environment))
unfolding create_env
create_env_lem e env k accepted = from (none_steers (given e.environment)) refl accepted
  where
    from :
        (b : Bool)
        → none_steers (given e.environment) ≡ b
        → (require b "service_environment_collides_with_docker_client" >>= λ _.
            ok (given e.environment ++ client_env))
          ≡ ok env
        → lookup k env ≡ (if steers k then lookup k client_env else lookup k (given e.environment))
    from true free a =
        ap (λ r. lookup k (ok_or_empty r)) (sym a)
        ∙ joined_lem k (given e.environment) (steers k) refl free
    from false free a = absurd (ground (arith, a))
