-- ===== src/Receiver/Hosts.antt =====
-- A host that answers every call of scripts/deploy-gcp.py without an error.
pub mod Ready
use map_service_infra.Base.{true, false, none, some, []}
use map_service_infra.Base.Json.{null}
use map_service_infra.Base.Result.{ok}
use map_service_infra.Receiver.Model.{Metadata, Release, answered, Host}

abbrev pub private_file : Metadata
private_file = record { regular = true; directory = false; uid = 0; mode = 0o600 }

abbrev pub empty_release : Release
empty_release = record {
  run_id = "17";
  infra_sha = "0123456789abcdef0123456789abcdef01234567";
  source_ref = "develop";
  release_tag = "v1";
  images = [];
}

abbrev pub willing : Host
willing = record {
  euid = λ t. ok 0;
  metadata = λ p t. ok private_file;
  present = λ p t. ok true;
  content = λ p t. ok (2, some null);
  read_lines = λ p t. ok [];
  read_json = λ p t. ok null;
  digest = λ p t. ok "";
  free = λ t. ok 0;
  stamp = λ t. ok "0";
  read_text = λ p t. ok [];
  instance_value = λ p t. ok "";
  output = λ a t. ok "";
  lines = λ a t. ok [];
  json = λ a t. ok null;
  listing = λ s t. ok [];
  stopping = λ ids t. ok tt;
  copies = λ t. ok [];
  remove = λ i t. ok tt;
  pull = λ i t. ok tt;
  stop_new = λ ids t. ok tt;
  now = λ t. ok 0;
  sleep = λ n t. ok tt;
  http = λ u t. ok (answered 200 none);
  report = λ p t. ok tt;
  guard = λ n t. ok tt;
  hand_back = λ t. true;
  unpack = λ t. ok empty_release;
  fetch = λ r t. ok tt;
  checkout = λ r t. ok tt;
  save = λ p t. ok tt;
  backup = λ t. ok tt;
  replace_environment = λ l t. ok tt;
  write_latch = λ l t. ok tt;
  receipt = λ p t. ok tt;
  result = λ p t. ok tt;
  cloud_up = λ a e t. ok 0;
  open_edge = λ a t. ok tt;
  restore = λ a t. ok tt;
}
