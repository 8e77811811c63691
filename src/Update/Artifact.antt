-- ===== src/Update/Artifact.antt =====
-- The host of an update, and how it downloads, checks and installs the artifact.
use noderax_agent.Prelude.{
  ℕ, Bool, Option, none, some, [], ◌∷◌, ◌++◌, if◌then◌else◌, Text, text_eq, to_lower, trim_space,
  Outcome,
}
use noderax_agent.Update.Release.{Network, is_success}
use noderax_agent.Update.Step.{
  UpdateError, directory_failed, temp_failed, download_request_failed, download_failed,
  download_status, download_write_failed, download_chmod_failed, open_failed, hash_failed,
  checksum_mismatch, stage_failed, chmod_failed, replace_failed, Status, Machine, Step, ◌>>=◌, ◌>>◌,
  return, throw, change, lift,
}

-- The answer to the request of a download: its status, what is written of its body, and whether all was.
pub record Download : Type 0 where
  pub status : ℕ
  pub body : Text
  pub copied : Outcome Text (Unit {0})

-- The checks of the restarted service, up to the first behind the deadline: the error of the context and
-- whether systemctl finds the service active.
pub record Check : Type 0 where
  pub context : Option Text
  pub is_active : Bool

pub data Checks : Type 0 where
  within : Check → Checks → Checks
  beyond : Check → Checks

-- What an update sees of the host.
pub record ApplyHost : Type 0 where
  pub config : Outcome Text (Text × Text)
  pub client : Outcome Text (Unit {0})
  pub network : Network
  pub arch : Text
  pub make_directory : Outcome Text (Unit {0})
  pub create_temp : Outcome Text (Unit {0})
  pub download_request : Text → Outcome Text (Unit {0})
  pub send_download : Text → Outcome Text Download
  pub chmod_download : Outcome Text (Unit {0})
  pub open_download : Outcome Text (Unit {0})
  pub hash_download : Outcome Text (Unit {0})
  pub sha256_hex : Text → Text
  pub rename_staged : Outcome Text (Unit {0})
  pub chmod_staged : Outcome Text (Unit {0})
  pub rename_binary : Outcome Text (Unit {0})
  pub has_symlink : Bool
  pub ensure_symlink : Outcome Text (Unit {0})
  pub refresh : ℕ → Outcome Text (Unit {0})
  pub restart : Outcome (Text × Text) (Unit {0})
  pub checks : Checks
  pub journal : Outcome (Text × Text) Text

-- `report`, whose own errors are logged.
unfoldable pub add_report : Status → ℕ → Option UpdateError → Machine → Machine
add_report status percent reason m = record m {
  reports = m.reports ++ record { status = status; percent = percent; reason = reason } ∷ [];
  progress = percent;
}

abbrev pub report : Status → ℕ → Step (Unit {0})
report status percent = change (add_report status percent none)

abbrev pub set_download : Option Text → Step (Unit {0})
set_download content = change (λ m. record m { download = content })

abbrev pub copy : Download → Step (Unit {0})
copy d =
    if is_success d.status
    then (do set_download (some d.body); lift download_write_failed d.copied)
    else throw (download_status d.status)

unfoldable pub download_release_artifact : ApplyHost → Text → Step (Unit {0})
download_release_artifact h url = do
  lift directory_failed h.make_directory
  lift temp_failed h.create_temp
  set_download (some [])
  lift download_request_failed (h.download_request url)
  d ← lift download_failed (h.send_download url)
  copy d
  lift download_chmod_failed h.chmod_download

abbrev pub content_of : Option Text → Text
content_of none = []
content_of (some content) = content

-- `strings.EqualFold`, of texts of which one is hexadecimal.
abbrev pub equal_fold : Text → Text → Bool
equal_fold s t = text_eq (to_lower s) (to_lower t)

abbrev pub compare_checksum : Text → Text → Step (Unit {0})
compare_checksum expected actual =
    if equal_fold (trim_space expected) actual
    then return tt
    else throw (checksum_mismatch expected actual)

unfoldable pub verify_artifact_checksum : ApplyHost → Text → Step (Unit {0})
verify_artifact_checksum h expected = do
  lift open_failed h.open_download
  lift hash_failed h.hash_download
  λ m. compare_checksum expected (h.sha256_hex (content_of m.download)) m

abbrev pub stage : Machine → Machine
stage m = record m { staged = some (content_of m.download); download = none }

abbrev pub replace : Machine → Machine
replace m = record m { binary = content_of m.staged; staged = none }

unfoldable pub install_release_artifact : ApplyHost → Step (Unit {0})
install_release_artifact h = do
  change (λ m. record m { staged = none })
  lift stage_failed h.rename_staged
  change stage
  lift chmod_failed h.chmod_staged
  lift replace_failed h.rename_binary
  change replace
