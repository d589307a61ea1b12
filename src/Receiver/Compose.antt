-- ===== src/Receiver/Compose.antt =====
-- The Compose command line and the check before a deployment, scripts/deploy-gcp.py:
-- `compose_command` and `preflight`.
pub mod Config
pub mod Quiet
use map_service_infra.Base.{
  ◌<>◌, String, Bool, true, false, not, ◌&&◌, Option, none, some, List, [], ◌∷◌, ◌++◌, contains,
  string_eq, if◌then◌else◌,
}
use map_service_infra.Base.Json.{Json}
use map_service_infra.Base.Exec.{Exec, pure, lift, ◌>>=◌, ◌>>◌, require}
use map_service_infra.Base.World.{call}
use map_service_infra.Receiver.Model.{Site, Host, State, query, read}
use map_service_infra.Receiver.HostFiles.{is_host_file}
use Config.{check_config}

-- The arguments of `compose_command`.
pub record Files : Type 0 where
  pub bundle : Option String
  pub env_file : Option String
  pub infrastructure : Option String

abbrev pub overlay : String
overlay = "/etc/map-admin-ncp/compose.yml"

file_args : Option String → String → List String
file_args none name = []
file_args (some folder) name = "-f" ∷ (folder <> ("/" <> name)) ∷ []

base_args : String → List String → List String
base_args repo [] = []
base_args repo (f ∷ fs) = "-f" ∷ (repo <> ("/" <> f)) ∷ base_args repo fs

profile_args : List String → List String
profile_args [] = []
profile_args (p ∷ ps) = "--profile" ∷ p ∷ profile_args ps

pub service_profiles : Site → List String
service_profiles s =
    if s.target.dns_profile
    then "full" ∷ "vision" ∷ "edge" ∷ "dns" ∷ []
    else "full" ∷ "vision" ∷ "edge" ∷ []

env_path : Site → Option String → String
env_path s none = s.target.repo <> "/.env.test"
env_path s (some p) = p

app_files : Bool → List String
app_files dns =
    "docker-compose.yml"
    ∷ "docker-compose.test.yml"
    ∷ "docker-compose.registry.yml"
    ∷ "docker-compose.edge.yml"
    ∷ (if dns then "docker-compose.dns.yml" ∷ [] else [])

admin_files : List String
admin_files =
    "docker-compose.admin.yml" ∷ "docker-compose.admin.test.yml"
    ∷ "docker-compose.admin.registry.yml" ∷ []

head_args : Site → Files → List String
unfolding env_path
head_args s f = "docker" ∷ "compose" ∷ "--env-file" ∷ env_path s f.env_file ∷ []

module _ (h : Host) where
  unfoldable pub cloud_up_has : Site → String → Exec State Bool
  cloud_up_has s marker = do
    let path = s.target.repo <> "/scripts/cloud-up.sh"
    found ← call (read path) (h.read_lines path)
    pure (contains found marker)

  pub app_command : Site → Files → Exec State (List String)
  unfolding app_files base_args file_args profile_args service_profiles head_args
  app_command s f = do
    dns ←
        (if s.target.dns_profile
          then call (read "docker-compose.dns.yml") (h.present "docker-compose.dns.yml")
          else pure false)
    pure (
        head_args s f
        ++ (base_args s.target.repo (app_files dns)
            ++ (file_args f.bundle "compose.images.yml"
                ++ (file_args f.infrastructure "compose.infrastructure.yml"
                    ++ ("-f"
                        ∷ "/var/lib/map-deploy/public-restart.yml"
                        ∷ profile_args (service_profiles s))))))

  pub overlay_args : Site → Exec State (List String)
  unfolding cloud_up_has
  overlay_args s = do
    found ← call (read overlay) (h.present overlay)
    if not found then pure [] else (do
      info ← call (read overlay) (h.metadata overlay)
      require (is_host_file info) "unsafe root-owned host policy"
      marked ← cloud_up_has s "# MAP_ADMIN_NCP_TUNNEL_VERSION=1"
      require marked "release cannot preserve the installed NCP administrator connection"
      pure ("-f" ∷ overlay ∷ []))

  pub target_args : Option String → Exec State (List String)
  unfolding file_args
  target_args none = pure []
  target_args (some bundle) = do
    let path = bundle <> "/compose.target-images.yml"
    found ← call (read path) (h.present path)
    pure (if found then file_args (some bundle) "compose.target-images.yml" else [])

  pub admin_command : Site → Files → Exec State (List String)
  unfolding admin_files base_args overlay_args target_args file_args profile_args head_args
  admin_command s f = do
    files ←
        (if s.detached
          then pure (base_args s.target.repo ("docker-compose.target-exporters.yml" ∷ []))
          else (do over ← overlay_args s; pure (base_args s.target.repo admin_files ++ over)))
    images ←
        (if s.detached
          then target_args f.bundle
          else pure (file_args f.bundle "compose.admin-images.yml"))
    pure (
        head_args s f
        ++ (files
            ++ (images
                ++ (file_args f.infrastructure "compose.admin-infrastructure.yml"
                    ++ profile_args ("monitoring" ∷ [])))))

  unfoldable pub compose_command : Bool → Site → Files → Exec State (List String)
  unfolding admin_command app_command
  compose_command admin s f = if admin then admin_command s f else app_command s f

  unfoldable pub compose_config : Bool → Site → Files → Exec State Json
  unfolding compose_command
  compose_config admin s f = do
    args ← compose_command admin s f
    let asked = args ++ ("config" ∷ "--format" ∷ "json" ∷ [])
    call (query asked) (h.json asked)

  unfoldable pub preflight : Site → Files → Exec State Unit
  unfolding compose_config check_config
  preflight s f = do
    app ← compose_config false s f
    lift (check_config s false app)
    admin ← compose_config true s f
    lift (check_config s true admin)
