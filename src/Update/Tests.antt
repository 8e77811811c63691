-- ===== src/Update/Tests.antt =====
-- The update at concrete inputs.
use noderax_agent.Prelude.{
  ◌≡◌, refl, true, false, none, some, [], Text, codes, is_space, trim_left, trim_right, trim_space,
  text_eq, to_lower, ok, err,
}
use noderax_agent.Update.Unit.{sanitize_systemd_unit_component, is_unit_rune}
use noderax_agent.Update.Options.{
  UpdateOptions, RequestHost, updater_arguments, parse_update_options,
}
use noderax_agent.Update.Relaunch.{parse_update_options-updater_arguments}
use noderax_agent.Update.Release.{
  Manifest, Network, fetch_release_manifest, select_release_artifact,
}
use noderax_agent.Update.Step.{Machine}
use noderax_agent.Update.Apply.{apply_managed_update}
use noderax_agent.Update.Artifact.{ApplyHost, within, beyond}
use noderax_agent.Update.Apply.Checksum.{IsOldOrOfficial, apply_managed_update-IsOldOrOfficial}
use noderax_agent.Update.Apply.Reports.{IsReported, apply_managed_update-IsReported}

sanitized_test : sanitize_systemd_unit_component (codes " --Node_1//a") ≡ codes "node-1-a"
unfolding sanitize_systemd_unit_component trim_space trim_left trim_right to_lower is_space
    is_unit_rune
sanitized_test = refl

-- No request file is read.
abbrev requests : RequestHost
requests = record {
  read_file = λ path. err (codes "missing");
  remove = λ path. ok tt;
  decode = λ content. err (codes "not JSON");
}

abbrev options : UpdateOptions
options = record {
  target_version = codes "1.2.0";
  target_id = codes "t-1";
  request_file = [];
  rollback = true;
  apply_now = false;
}

parse_update_options-updater_arguments_example :
    parse_update_options requests (updater_arguments options)
    ≡ ok (record options { apply_now = true })
unfolding trim_space trim_left trim_right is_space
parse_update_options-updater_arguments_example =
    parse_update_options-updater_arguments requests options refl refl refl refl

-- The release has a binary for amd64, with its checksum in upper case.
abbrev manifest : Manifest
manifest = record {
  version = codes "1.2.0";
  channel = codes "tag";
  amd64 = some (record { binary_url = codes "https://x.io/b"; sha256 = codes " AB" });
  arm64 = none;
}

abbrev network : Network
network = record {
  new_request = λ url. ok tt;
  send = λ url. ok (record { status = 200; manifest = ok manifest; assets = ok [] });
}

-- The service is active at the second check.
abbrev apply_host : Text → ApplyHost
apply_host body = record {
  config = ok (codes "n", codes "t");
  client = ok tt;
  network = network;
  arch = codes "amd64";
  make_directory = ok tt;
  create_temp = ok tt;
  download_request = λ url. ok tt;
  send_download = λ url. ok (record { status = 200; body = body; copied = ok tt });
  chmod_download = ok tt;
  open_download = ok tt;
  hash_download = ok tt;
  sha256_hex = λ content. content;
  rename_staged = ok tt;
  chmod_staged = ok tt;
  rename_binary = ok tt;
  has_symlink = false;
  ensure_symlink = ok tt;
  refresh = λ n. ok tt;
  restart = ok tt;
  checks =
      within (record { context = none; is_active = false })
        (beyond (record { context = none; is_active = true }));
  journal = ok [];
}

abbrev machine : Machine
machine = record {
  binary = codes "old";
  staged = none;
  download = none;
  reports = [];
  progress = 0;
  refreshed = [];
  restarts = 0;
}

apply_managed_update-IsOldOrOfficial_example :
    IsOldOrOfficial
      (apply_host (codes "ab"))
      (codes "1.2.0")
      (codes "old")
      (apply_managed_update (apply_host (codes "ab")) (codes "1.2.0") machine).1.binary
apply_managed_update-IsOldOrOfficial_example =
    apply_managed_update-IsOldOrOfficial (apply_host (codes "ab")) (codes "1.2.0") machine

-- The content with the checksum is put in place; another content is not.
binary_test :
    ((apply_managed_update (apply_host (codes "ab")) (codes "1.2.0") machine).1.binary ≡ codes "ab")
    × ((apply_managed_update (apply_host (codes "xy")) (codes "1.2.0") machine).1.binary
        ≡ codes "old")
unfolding apply_managed_update trim_space trim_left trim_right is_space fetch_release_manifest
    text_eq select_release_artifact to_lower
binary_test = (refl, refl)

apply_managed_update-IsReported_example :
    IsReported [] (apply_managed_update (apply_host (codes "xy")) (codes "1.2.0") machine)
unfolding trim_space trim_left trim_right is_space
apply_managed_update-IsReported_example =
    apply_managed_update-IsReported (apply_host (codes "xy")) (codes "1.2.0") (codes "n")
      (codes "t") machine refl refl refl refl
