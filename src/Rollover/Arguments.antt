-- ===== src/Rollover/Arguments.antt =====
-- How scripts/service-rollover.py builds the temporary container: `service_config`, `health_args`,
-- `create_args` and `create_env`, on the fields of the rendered configuration that they read.
pub mod Client
use map_service_infra.Base.{
  ℕ, zero, suc, String, ◌<>◌, Bool, true, false, not, ◌&&◌, ◌||◌, Option, none, some, List, [], ◌∷◌,
  ◌++◌, map, leb, eqb, ltb, ◌==◌, contains, string_eq, if◌then◌else◌, codes, is_hex_digit, hex_run,
  after_prefix,
}
use map_service_infra.Base.Lists.{length, all_of}
use map_service_infra.Base.Result.{Error, coded, other, Result, ok, err, require, ◌>>=◌, ◌>>◌}
use map_service_infra.Rollover.Duration.{duration, stop_floor}
use text.Mathlib.Text.{starts_with}

-- `healthcheck.test`
pub data HealthTest : Type 0 where
  missing not_a_list : HealthTest
  listed : List String → HealthTest

pub record HealthCheck : Type 0 where
  pub test : HealthTest
  pub disable : Bool
  pub interval : Option String
  pub timeout : Option String
  pub start_period : Option String
  pub retries : Option ℕ

pub record Mount : Type 0 where
  pub source : Option String
  pub target : Option String
  pub read_only : Bool

-- One service of the rendered configuration; an environment value is `none` for null, and otherwise
-- its text.
pub record Entry : Type 0 where
  pub image : String
  pub entrypoint : Bool
  pub command : Bool
  pub stop_grace_period : Option String
  pub healthcheck : HealthCheck
  pub environment : List (String × Option String)
  pub memory : Option String
  pub cpus : Option String
  pub volumes : List Mount
  pub security_opt : List String
  pub cap_drop : List String

-- A word of the command line; `seconds n` is the text of n with an `s`, `number n` the text of n.
pub data Arg : Type 0 where
  word : String → Arg
  seconds number : ℕ → Arg

abbrev is_lower : ℕ → Bool
is_lower c = leb b'a' c && leb c b'z'

-- `[a-z]+@sha256:[a-f0-9]{64}`; the letters come first, and `@` is none of them.
named_digest : List ℕ → Bool
unfolding after_prefix hex_run
named_digest [] = false
named_digest (c ∷ cs) =
    is_lower c && (after_prefix (codes "@sha256:") cs (hex_run 64) || named_digest cs)

-- `IMAGE.fullmatch(text)`
unfoldable pub is_pinned_image : String → Bool
unfolding after_prefix named_digest
is_pinned_image s = after_prefix (codes "ghcr.io/we-meet-trip/map-service-") (codes s) named_digest

abbrev is_name_start : ℕ → Bool
is_name_start c = is_lower c || (leb b'A' c && leb c b'Z') || (leb b'0' c && leb c b'9')

abbrev is_name_char : ℕ → Bool
is_name_char c = is_name_start c || (eqb c b'_' || (eqb c b'.' || eqb c b'-'))

name_codes : List ℕ → Bool
unfolding all_of
name_codes [] = false
name_codes (c ∷ cs) = is_name_start c && (leb (length cs) 62 && all_of is_name_char cs)

-- `NAME.fullmatch(text)`
unfoldable pub is_name : String → Bool
unfolding name_codes
is_name s = name_codes (codes s)

-- `service_config` on the service's entry, `none` if the configuration has none.
unfoldable pub service_config : Option Entry → Result Entry
unfolding is_pinned_image
service_config none = err (coded "service_missing_from_configuration")
service_config (some e) = do
  require (is_pinned_image e.image) "service_image_not_pinned"
  require (not e.entrypoint && not e.command) "service_overrides_its_own_process"
  ok e

abbrev irreproducible : String
irreproducible = "healthcheck_cannot_be_reproduced"

timed : String → Option String → Result (List Arg)
unfolding duration
timed flag none = ok []
timed flag (some raw) = duration (codes raw) >>= λ d. ok (word flag ∷ seconds d ∷ [])

counted : Option ℕ → List Arg
counted none = []
counted (some zero) = []
counted (some (suc n)) = word "--health-retries" ∷ number (suc n) ∷ []

shell_args : HealthCheck → List String → Result (List Arg)
unfolding timed counted
shell_args c (cmd ∷ []) = do
  interval ← timed "--health-interval" c.interval
  timeout ← timed "--health-timeout" c.timeout
  start ← timed "--health-start-period" c.start_period
  ok (
      (word "--health-cmd" ∷ word cmd ∷ [])
      ++ (interval ++ (timeout ++ (start ++ counted c.retries))))
shell_args c _ = err (coded irreproducible)

test_args : HealthCheck → List String → Result (List Arg)
unfolding shell_args
test_args c [] = ok []
test_args c (kind ∷ rest) =
    if kind == "NONE"
    then ok (word "--no-healthcheck" ∷ [])
    else if kind == "CMD-SHELL"
    then shell_args c rest
    else err (coded irreproducible)

kind_args : HealthCheck → HealthTest → Result (List Arg)
unfolding test_args
kind_args c missing = ok []
kind_args c not_a_list = err (coded irreproducible)
kind_args c (listed test) = test_args c test

unfoldable pub health_args : HealthCheck → Result (List Arg)
unfolding kind_args
health_args c = if c.disable then ok [] else kind_args c c.test

-- `<` on texts, by code points.
before : List ℕ → List ℕ → Bool
before [] [] = false
before [] (b ∷ bs) = true
before (a ∷ as') [] = false
before (a ∷ as') (b ∷ bs) = ltb a b || (eqb a b && before as' bs)

insert : String → List String → List String
unfolding before
insert k [] = k ∷ []
insert k (j ∷ js) = if before (codes j) (codes k) then j ∷ insert k js else k ∷ j ∷ js

sorted : List String → List String
unfolding insert
sorted [] = []
sorted (k ∷ ks) = insert k (sorted ks)

unfoldable pub keys : List (String × Option String) → List String
keys [] = []
keys ((k, v) ∷ rest) = k ∷ keys rest

env_args : List String → List Arg
env_args [] = []
env_args (k ∷ ks) = word "--env" ∷ word k ∷ env_args ks

flag_value : String → Option String → List Arg
flag_value flag none = []
flag_value flag (some v) = word flag ∷ word v ∷ []

mount_args : List Mount → List Arg
mount_args [] = []
mount_args (m ∷ ms) = one m.source m.target ++ mount_args ms
  where
    one : Option String → Option String → List Arg
    one (some s) (some t) =
        word "--volume" ∷ word (s <> (":" <> (t <> (if m.read_only then ":ro" else "")))) ∷ []
    one _ _ = []

each : String → List String → List Arg
each flag [] = []
each flag (v ∷ vs) = word flag ∷ word v ∷ each flag vs

abbrev first : List String → String
first [] = ""
first (n ∷ ns) = n

module _ (name project service : String) where
  unfoldable pub create_args : Entry → List String → ℕ → Result (List Arg)
  unfolding is_name health_args env_args sorted keys flag_value mount_args each
  create_args e networks stop = do
    require (is_name name) "rollover_name_invalid"
    health ← health_args e.healthcheck
    ok (
        (word "create"
          ∷ word "--pull=never"
          ∷ word "--name"
          ∷ word name
          ∷ word "--restart=no"
          ∷ word "--init"
          ∷ word "--stop-timeout"
          ∷ number stop
          ∷ word "--label"
          ∷ word "kr.mapservice.rollover=1"
          ∷ word "--label"
          ∷ word ("kr.mapservice.project=" <> project)
          ∷ word "--label"
          ∷ word ("kr.mapservice.service=" <> service)
          ∷ word "--log-driver=none"
          ∷ word "--network"
          ∷ word (first networks)
          ∷ [])
        ++ (health
            ++ (env_args (sorted (keys e.environment))
                ++ (flag_value "--memory" e.memory
                    ++ (flag_value "--cpus" e.cpus
                        ++ (mount_args e.volumes
                            ++ (each "--security-opt" e.security_opt
                                ++ (each "--cap-drop" e.cap_drop ++ (word e.image ∷ [])))))))))
