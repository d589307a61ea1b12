-- ===== src/ReleaseManifest/Bundle.antt =====
-- The files of a release bundle: `write_bundle` and `verify_bundle` of scripts/release_manifest.py.
-- `sha256`, `json.dumps` and `json.loads` of the standard library, and the size of a text in bytes, are
-- parameters. A checksum file is the list of its lines, a Compose file the list of its.
use map_service_infra.Base.{
  ℕ, String, ◌<>◌, ◌≡◌, refl, sym, subst, Bool, true, ◌&&◌, Option, none, some, List, [], ◌∷◌, ◌==◌,
  string_eq, option_eq, leb, arith, ==_refl,
}
use map_service_infra.Base.Json.{Json}
use map_service_infra.Base.Result.{Result, ok, err, require, ◌>>=◌, ◌>>◌}
use map_service_infra.CutoverWatchdog.Receipt.{tuple_eq}
use map_service_infra.ReleaseManifest.{Manifest, validate, compose}

-- `SERVICES[:4]` and `SERVICES[4:]`
abbrev app_services : List String
app_services = "user" ∷ "agent" ∷ "hub" ∷ "yolo" ∷ []

abbrev admin_services : List String
admin_services = "admin" ∷ "admin-web" ∷ []

-- The files of a bundle.
pub record Bundle : Type 0 where
  pub release : String
  pub images : List String
  pub admin_images : List String
  pub sums : List String

-- What a caller expects of the manifest, where it does.
pub record Expected : Type 0 where
  pub run_id : Option String
  pub infra_sha : Option String
  pub workflow_sha : Option String

-- `expected is None or expected == actual`
pub agrees : Option String → String → Bool
agrees none actual = true
agrees (some e) actual = e == actual

module _ (utcoffset : String → Option (Option ℕ)) (digest : List String → String)
    (dump : Json → String) (load : String → Result Json) (size : List String → ℕ) where
  -- The lines that `write_bundle` makes of the contents that it wrote.
  checksums : String → List String → List String → List String
  checksums release images admin_images =
      (digest (release ∷ []) <> "  release.json")
      ∷ (digest images <> "  compose.images.yml")
      ∷ (digest admin_images <> "  compose.admin-images.yml")
      ∷ []

  -- The lines that `verify_bundle` expects of the files that it read.
  expected_sums : String → List String → List String → List String
  expected_sums release images admin_images =
      (digest (release ∷ []) <> "  release.json")
      ∷ (digest images <> "  compose.images.yml")
      ∷ (digest admin_images <> "  compose.admin-images.yml")
      ∷ []

  unfoldable pub write_bundle : Json → Result Bundle
  unfolding checksums
  write_bundle value = do
    m ← validate utcoffset value
    app ← compose m app_services
    admin ← compose m admin_services
    ok (record {
      release = dump value;
      images = app;
      admin_images = admin;
      sums = checksums (dump value) app admin;
    })

  -- The files are small enough.
  abbrev pub fits : Bundle → Bool
  fits b =
      leb (size (b.release ∷ [])) 65536
      && (leb (size b.images) 65536 && (leb (size b.admin_images) 65536 && leb (size b.sums) 65536))

  -- Without the check of the registry.
  unfoldable pub verify_bundle : Expected → Bundle → Result Manifest
  unfolding expected_sums agrees
  verify_bundle expected b = do
    require (fits b) "invalid bundle file"
    require (b.sums == expected_sums b.release b.images b.admin_images) "bundle checksum mismatch"
    value ← load b.release
    m ← validate utcoffset value
    require (agrees expected.run_id m.plain.run_id) "unexpected run ID"
    require (agrees expected.infra_sha m.plain.infra_sha) "unexpected infra SHA"
    require (agrees expected.workflow_sha m.workflow_sha) "unexpected workflow SHA"
    app ← compose m app_services
    require (b.images == app) "application Compose mismatch"
    admin ← compose m admin_services
    require (b.admin_images == admin) "admin Compose mismatch"
    ok m

  unfoldable pub agrees_with : Expected → Manifest → Bool
  unfolding agrees
  agrees_with expected m =
      agrees expected.run_id m.plain.run_id
      && (agrees expected.infra_sha m.plain.infra_sha
          && agrees expected.workflow_sha m.workflow_sha)

  -- What the files of the manifest say.
  abbrev files_of : Json → List String → List String → Bundle
  files_of value app admin = record {
    release = dump value;
    images = app;
    admin_images = admin;
    sums = checksums (dump value) app admin;
  }

  module _ (value : Json) (loads : load (dump value) ≡ ok value) where
    files_lem :
        (m : Manifest) (app admin : List String) (expected : Expected)
        → validate utcoffset value ≡ ok m
        → compose m app_services ≡ ok app
        → compose m admin_services ≡ ok admin
        → agrees_with expected m ≡ true
        → fits (files_of value app admin) ≡ true
        → verify_bundle expected (files_of value app admin) ≡ ok m
    unfolding verify_bundle agrees_with checksums expected_sums
    files_lem m app admin expected v a d g f = ground (
      arith,
      f,
      g,
      loads,
      v,
      a,
      d,
      ==_refl app,
      ==_refl admin,
      ==_refl (checksums (dump value) app admin),
    )

    written_lem :
        (m : Manifest) (b : Bundle) (expected : Expected) (ra rb : Result (List String))
        → compose m app_services ≡ ra
        → compose m admin_services ≡ rb
        → (ra >>= λ app. rb >>= λ admin. ok (files_of value app admin)) ≡ ok b
        → validate utcoffset value ≡ ok m
        → agrees_with expected m ≡ true
        → fits b ≡ true
        → verify_bundle expected b ≡ ok m
    written_lem m b expected (err x) rb a d w v g f = absurd (ground (arith, w))
    written_lem m b expected (ok app) (err x) a d w v g f = absurd (ground (arith, w))
    written_lem m b expected (ok app) (ok admin) a d w v g f =
        subst (λ c. verify_bundle expected c ≡ ok m) same
          (files_lem m app admin expected v a d g (subst (λ c. fits c ≡ true) (sym same) f))
      where
        same : files_of value app admin ≡ b
        same = ground (arith, w)

    -- The bundle that is written of a manifest verifies, and gives that manifest back: where `json.loads`
    -- reads what `json.dumps` wrote, the files are small enough, and the expected run and commits, where
    -- the caller names any, are those of the manifest.
    pub verify_bundle-write_bundle :
        (m : Manifest) (b : Bundle) (expected : Expected)
        → validate utcoffset value ≡ ok m
        → write_bundle value ≡ ok b
        → agrees_with expected m ≡ true
        → fits b ≡ true
        → verify_bundle expected b ≡ ok m
    unfolding write_bundle
    verify_bundle-write_bundle m b expected v w g f =
        written_lem m b expected (compose m app_services) (compose m admin_services) refl refl
          (subst
            (λ r.
              (r >>= λ n. compose n app_services >>= λ app.
              compose n admin_services >>= λ admin. ok (files_of value app admin))
              ≡ ok b)
            v w)
          v g f
