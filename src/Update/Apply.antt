-- ===== src/Update/Apply.antt =====
-- `applyManagedUpdate`: the refresh of the helpers, the restart, and the order of all steps.
pub mod Keeps
pub mod Checksum
pub mod Reports
use noderax_agent.Prelude.{
  ℕ, suc, ◌-◌, Bool, true, false, not, ◌||◌, Option, none, some, List, [], ◌∷◌, ◌++◌, ◌==◌,
  if◌then◌else◌, length, drop, Text, codes, is_empty, trim_space, join, Outcome, ok, err,
}
use noderax_agent.Update.Release.{Artifact, fetch_release_manifest, select_release_artifact}
use noderax_agent.Update.Step.{
  UpdateError, config_failed, identity_missing, client_failed, release_failed, symlink_failed,
  refresh_failed, restart_failed, context_done, not_active, downloading, verifying, installing,
  restarting, waiting_for_reconnect, failed, Report, Machine, Step, ◌>>=◌, ◌>>◌, return, throw,
  change, lift,
}
use noderax_agent.Update.Artifact.{
  ApplyHost, Check, Checks, add_report, beyond, download_release_artifact, install_release_artifact,
  report, verify_artifact_checksum, within,
}

-- The helpers, the sudoers and the applied profile, in the order of the code.
abbrev pub refreshes : List ℕ
refreshes = 0 ∷ 1 ∷ 2 ∷ 3 ∷ 4 ∷ 5 ∷ 6 ∷ []

unfoldable pub refresh_all : ApplyHost → List ℕ → Step (Unit {0})
refresh_all h [] = return tt
refresh_all h (n ∷ ns) =
    lift (refresh_failed n) (h.refresh n)
    >> (change (λ m. record m { refreshed = m.refreshed ++ n ∷ [] }) >> refresh_all h ns)

-- `strings.Split(s, "\n")`.
unfoldable pub split_lines : Text → Text → List Text
split_lines line [] = line ∷ []
split_lines line (c ∷ s) = elim (c == b'\n') [
  | true ↦ line ∷ split_lines [] s
  | false ↦ split_lines (line ++ c ∷ []) s
]

unfoldable pub last_line : List Text → Text
last_line [] = []
last_line (l ∷ []) = l
last_line (l ∷ k ∷ ls) = last_line (k ∷ ls)

abbrev pub failure_detail : Outcome (Text × Text) Text → Text
failure_detail (err (e, output)) =
    let message = trim_space output in
    if is_empty message
    then codes "unable to read journal: " ++ e
    else codes "unable to read journal: " ++ e ++ codes ": " ++ message
failure_detail (ok output) =
    let lines = split_lines [] (trim_space output) in
    if is_empty (trim_space (last_line lines))
    then codes "journal did not return any recent entries"
    else join (drop (length lines - 5) lines) (codes " | ")

unfoldable pub read_service_failure_detail : ApplyHost → Text
unfolding split_lines last_line
read_service_failure_detail h = failure_detail h.journal

abbrev pub checked :
    Option Text → Bool → Outcome UpdateError (Unit {0}) → Outcome UpdateError (Unit {0})
checked (some e) active next = err (context_done e)
checked none true next = ok tt
checked none false next = next

unfoldable pub wait_for_checks : Checks → Text → Outcome UpdateError (Unit {0})
wait_for_checks (within c checks) detail =
    checked c.context c.is_active (wait_for_checks checks detail)
wait_for_checks (beyond c) detail = checked c.context c.is_active (err (not_active detail))

unfoldable pub wait_for_restarted_service : ApplyHost → Step (Unit {0})
unfolding wait_for_checks read_service_failure_detail
wait_for_restarted_service h =
    lift (λ e. e) (wait_for_checks h.checks (read_service_failure_detail h))

abbrev pub restart_message : Text × Text → UpdateError
restart_message (e, output) =
    let message = trim_space output in
    if is_empty message then restart_failed e else restart_failed (e ++ codes ": " ++ message)

abbrev pub link_binary : ApplyHost → Step (Unit {0})
link_binary h = if h.has_symlink then lift symlink_failed h.ensure_symlink else return tt

-- The restart of the service, and the wait for it.
unfoldable pub restart_service : ApplyHost → Step (Unit {0})
unfolding wait_for_restarted_service add_report
restart_service h = do
  report restarting 90
  change (λ m. record m { restarts = suc m.restarts })
  lift restart_message h.restart
  wait_for_restarted_service h
  report waiting_for_reconnect 95

-- From the new binary on.
unfoldable pub after_install : ApplyHost → Step (Unit {0})
unfolding refresh_all restart_service
after_install h = link_binary h >> (refresh_all h refreshes >> restart_service h)

-- From the check of the download on.
unfoldable pub install_and_restart : ApplyHost → Artifact → Step (Unit {0})
unfolding verify_artifact_checksum install_release_artifact after_install add_report
install_and_restart h artifact = do
  report verifying 45
  verify_artifact_checksum h artifact.sha256
  report installing 70
  install_release_artifact h
  after_install h

-- `defer os.Remove(downloadPath)`.
abbrev pub removing_download : Step (Unit {0}) → Step (Unit {0})
removing_download s = λ m. let (result, m') = s m in (result, record m' { download = none })

unfoldable pub run_update : ApplyHost → Text → Step (Unit {0})
unfolding install_and_restart download_release_artifact
run_update h version = do
  report downloading 20
  manifest ← lift release_failed (fetch_release_manifest h.network version)
  artifact ← lift release_failed (select_release_artifact manifest h.arch)
  download_release_artifact h artifact.binary_url
  removing_download (install_and_restart h artifact)

-- The deferred report of a failure, with the progress made.
abbrev pub reported :
    Outcome UpdateError (Unit {0}) × Machine → Outcome UpdateError (Unit {0}) × Machine
reported (ok _, m) = (ok tt, m)
reported (err e, m) = (err e, add_report failed m.progress (some e) m)

abbrev pub reporting_failure : Step (Unit {0}) → Step (Unit {0})
reporting_failure s = λ m. reported (s m)

abbrev pub check_identity : Text × Text → Step (Unit {0})
check_identity (node_id, token) =
    if is_empty (trim_space node_id) || is_empty (trim_space token)
    then throw identity_missing
    else return tt

unfoldable pub apply_managed_update : ApplyHost → Text → Step (Unit {0})
unfolding run_update add_report
apply_managed_update h version = do
  credentials ← lift config_failed h.config
  check_identity credentials
  lift client_failed h.client
  change (λ m. record m { progress = 0 })
  reporting_failure (run_update h version)
