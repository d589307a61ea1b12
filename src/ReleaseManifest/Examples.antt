-- ===== src/ReleaseManifest/Examples.antt =====
-- A manifest, its bundle, and the theorems on scripts/release_manifest.py at it.
use map_service_infra.Base.{
  ℕ, String, ◌<>◌, ◌≡◌, refl, true, Option, none, some, List, [], ◌∷◌, map, ◌==◌, string_eq,
  option_eq, nat_eq, if◌then◌else◌,
}
use map_service_infra.Base.Json.{Json, int, text, object, end, field}
use map_service_infra.Base.Result.{Result, ok, err, other}
use map_service_infra.CutoverWatchdog.Receipt.{six_services, exact_image_tuple}
use map_service_infra.Base.Lists.{all_of}
use map_service_infra.ReleaseManifest.{
  repo_service, compose, Entry, Manifest, validate, candidate_images, pinned,
}
use map_service_infra.ReleaseManifest.Images.{validate-exact_image_tuple}
use map_service_infra.ReleaseManifest.Bundle.{
  Bundle, Expected, write_bundle, verify_bundle, agrees_with, verify_bundle-write_bundle,
}

abbrev sha : String
sha = "0123456789abcdef0123456789abcdef01234567"

abbrev digest : String
digest = "sha256:0123456789abcdef0123456789abcdef0123456789abcdef0123456789abcdef"

abbrev repo_of : String → String
repo_of s = "we-meet-trip/map-service-" <> s

abbrev entry_value : String → String → Json
entry_value repo s = object (
    field "source_repo" (text (repo_of repo)) (
      field "source_sha" (text sha) (
        field "image" (text ("ghcr.io/we-meet-trip/map-service-" <> s))
          (field "digest" (text digest) end))))

abbrev value : Json
value = object (
    field "schema_version" (int 1) (
      field "release_tag" (text "2024.05.1") (
        field "created_at" (text "2024-05-01T00:00:00Z") (
          field "infra_sha" (text sha) (
            field "source_ref" (text "develop") (
              field "github_run_id" (text "17") (
                field "workflow_repository" (text "we-meet-trip/map-service-infra") (
                  field "provenance"
                    (object (
                      field "workflow_path" (text ".github/workflows/image-release.yml") (
                        field "workflow_sha" (text sha) (
                          field "event_name" (text "repository_dispatch") (
                            field "dispatch"
                              (object (
                                field "repository" (text (repo_of "hub"))
                                  (field "sha" (text sha) (field "run_id" (text "16") end))))
                              end)))))
                    (field "services"
                      (object (
                        field "user" (entry_value "user" "user") (
                          field "agent" (entry_value "agent" "agent") (
                            field "hub" (entry_value "hub" "hub") (
                              field "yolo" (entry_value "yolo" "yolo") (
                                field "admin" (entry_value "admin" "admin")
                                  (field "admin-web" (entry_value "admin" "admin-web") end)))))))
                      end)))))))))

abbrev utcoffset : String → Option (Option ℕ)
utcoffset s = if s == "2024-05-01T00:00:00Z" then some (some 0) else none

abbrev entry : String → String → Entry
entry repo s = record {
  source_repo = repo_of repo;
  source_sha = sha;
  image = "ghcr.io/we-meet-trip/map-service-" <> s;
  digest = digest;
}

abbrev manifest : Manifest
manifest = record {
  plain = record {
    release_tag = "2024.05.1";
    infra_sha = sha;
    source_ref = "develop";
    run_id = "17";
  };
  workflow_sha = sha;
  services =
      entry "user" "user"
      ∷ entry "agent" "agent"
      ∷ entry "hub" "hub"
      ∷ entry "yolo" "yolo"
      ∷ entry "admin" "admin"
      ∷ entry "admin" "admin-web"
      ∷ [];
}

validates : validate utcoffset value ≡ ok manifest
unfolding validate string_eq all_of option_eq nat_eq repo_service
validates = refl

validate-exact_image_tuple_example :
    exact_image_tuple (some (object (candidate_images six_services manifest.services)))
    ≡ ok (map pinned manifest.services)
validate-exact_image_tuple_example = validate-exact_image_tuple utcoffset value manifest validates

-- A checksum that tells the three files apart, and a printer that is read back.
abbrev checksum : List String → String
checksum [] = "0"
checksum (l ∷ []) = "1"
checksum (l ∷ m ∷ ls) = l

abbrev load : String → Result Json
load s = if s == "printed" then ok value else err other

abbrev print : Json → String
print v = "printed"

abbrev size : List String → ℕ
size ls = 4096

abbrev service_lines : String → List String → List String
service_lines s rest =
    ("  " <> (s <> ":"))
    ∷ "    build: !reset null"
    ∷ ("    image: ghcr.io/we-meet-trip/map-service-" <> (s <> ("@" <> digest)))
    ∷ rest

abbrev top : String
top = "# Generated by release_manifest.py; apply after the registry overlay."

abbrev app_lines : List String
app_lines =
    top
    ∷ "services:"
    ∷ service_lines "user" (service_lines "agent" (service_lines "hub" (service_lines "yolo" [])))

abbrev admin_lines : List String
admin_lines = top ∷ "services:" ∷ service_lines "admin" (service_lines "admin-web" [])

abbrev bundle : Bundle
bundle = record {
  release = "printed";
  images = app_lines;
  admin_images = admin_lines;
  sums =
      "1  release.json"
      ∷ (top <> "  compose.images.yml")
      ∷ (top <> "  compose.admin-images.yml")
      ∷ [];
}

abbrev expected : Expected
expected = record { run_id = some "17"; infra_sha = none; workflow_sha = some sha }

writes : write_bundle utcoffset checksum print load size value ≡ ok bundle
unfolding write_bundle validate string_eq all_of option_eq nat_eq repo_service compose
writes = refl

reads : load (print value) ≡ ok value
unfolding string_eq
reads = refl

agrees : agrees_with utcoffset checksum print load size expected manifest ≡ true
unfolding agrees_with string_eq
agrees = refl

verify_bundle-write_bundle_example :
    verify_bundle utcoffset checksum print load size expected bundle ≡ ok manifest
verify_bundle-write_bundle_example =
    verify_bundle-write_bundle utcoffset checksum print load size value reads manifest bundle
      expected validates writes agrees refl
