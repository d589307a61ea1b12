-- ===== src/Rollover/Arguments/Client.antt =====
-- The environment of the docker client, `create_env` of scripts/service-rollover.py.
use map_service_infra.Base.{
  String, Bool, true, not, ◌&&◌, ◌||◌, Option, none, some, List, [], ◌∷◌, ◌++◌, ◌==◌, contains,
  string_eq, if◌then◌else◌,
}
use map_service_infra.Base.Result.{Result, ok, require, ◌>>◌}
use text.Mathlib.Text.{starts_with}
use map_service_infra.Rollover.Arguments.{Entry}

-- `ENV`, the environment of every docker client.
abbrev pub client_env : List (String × String)
client_env =
    ("PATH", "/usr/bin:/bin:/usr/local/bin")
    ∷ ("DOCKER_HOST", "unix:///var/run/docker.sock")
    ∷ ("DOCKER_CONFIG", "/var/empty")
    ∷ []

-- The values that are not null.
unfoldable pub given : List (String × Option String) → List (String × String)
given [] = []
given ((k, none) ∷ rest) = given rest
given ((k, some v) ∷ rest) = (k, v) ∷ given rest

abbrev pub steers : String → Bool
steers k = contains ("PATH" ∷ "DOCKER_HOST" ∷ "DOCKER_CONFIG" ∷ []) k || starts_with k "DOCKER_"

unfoldable pub none_steers : List (String × String) → Bool
none_steers [] = true
none_steers ((k, v) ∷ rest) = not (steers k) && none_steers rest

-- `lookup` in a dict of texts.
unfoldable pub lookup : String → List (String × String) → Option String
lookup k [] = none
lookup k ((j, v) ∷ rest) = if j == k then some v else lookup k rest

-- The client's environment, in which docker finds the values for the bare `--env NAME`. In the
-- joined dict `{**ENV, **values}` a value wins over `ENV`, so the values come first for `lookup`.
unfoldable pub create_env : Entry → Result (List (String × String))
unfolding given none_steers
create_env e = do
  let values = given e.environment
  require (none_steers values) "service_environment_collides_with_docker_client"
  ok (values ++ client_env)
