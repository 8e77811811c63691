-- ===== src/Update/Apply/Checksum.antt =====
-- What an update may put in the place of the managed binary.
use noderax_agent.Prelude.{
  ℕ, ◌≡◌, refl, ◌⊎◌, inl, inr, true, none, List, Bool-cases, Text, is_empty, ◌||◌, trim_space,
  Outcome, ok, err,
}
use noderax_agent.Update.Release.{
  Artifact, Manifest, fetch_release_manifest, select_release_artifact,
}
use noderax_agent.Update.Official.{
  IsPublished, IsBuiltFor, fetch_release_manifest-IsPublished, select_release_artifact-IsBuiltFor,
}
use noderax_agent.Update.Step.{
  UpdateError, release_failed, open_failed, hash_failed, stage_failed, chmod_failed, replace_failed,
  config_failed, client_failed, Report, Machine, Step, ◌>>=◌, ◌>>◌, change, lift, Holds, Holds-bind,
  Holds-lift-bind, Holds-map, verifying, installing, waiting_for_reconnect,
}
use noderax_agent.Update.Apply.Keeps.{download_keeps, refresh_keeps, link_keeps, wait_keeps}
use noderax_agent.Update.Apply.{
  refreshes, refresh_all, wait_for_restarted_service, restart_message, link_binary, restart_service,
  after_install, install_and_restart, removing_download, run_update, reported, check_identity,
  apply_managed_update,
}
use noderax_agent.Update.Artifact.{
  ApplyHost, add_report, report, download_release_artifact, content_of, equal_fold,
  verify_artifact_checksum, install_release_artifact,
}

-- A content with the checksum of the artifact that the manifest has for the host, where the manifest
-- is one that an official place has for the version.
abbrev pub IsOfficial : ApplyHost → Text → Text → Type 0
IsOfficial h version content =
    (manifest : Manifest) × (artifact : Artifact) × (fetch_release_manifest h.network version
      ≡ ok manifest)
    × (select_release_artifact manifest h.arch ≡ ok artifact)
    × IsPublished h.network version manifest
    × IsBuiltFor h.arch manifest artifact
    × (equal_fold (trim_space artifact.sha256) (h.sha256_hex content) ≡ true)

-- The binary is the old one, or an official one.
abbrev pub IsOldOrOfficial : ApplyHost → Text → Text → Text → Type 0
IsOldOrOfficial h version old binary = (binary ≡ old) ⊎ IsOfficial h version binary

-- What follows the new binary leaves it alone.
module _ (h : ApplyHost) (P : Text → Type 0) where
  abbrev OnBinary : Text → List Report → ℕ → Type 0
  OnBinary binary reports progress = P binary

  abbrev OnError : UpdateError → Machine → Type 0
  OnError e m = P m.binary

  abbrev OnResult : Unit {0} → Machine → Type 0
  OnResult u m = P m.binary

  restart_keeps : (m : Machine) → P m.binary → Holds OnError OnResult (restart_service h m)
  unfolding restart_service add_report
  restart_keeps m s =
      Holds-lift-bind OnError OnResult restart_message h.restart _ _ (λ _. s)
        λ _ _.
          Holds-bind OnError OnResult OnResult (wait_for_restarted_service h)
            (λ _. report waiting_for_reconnect 95) _ (wait_keeps h OnBinary _ s) λ _ m' s'. s'

  after_install_keeps : (m : Machine) → P m.binary → Holds OnError OnResult (after_install h m)
  unfolding after_install
  after_install_keeps m s =
      Holds-bind OnError OnResult OnResult (link_binary h)
        (λ _. refresh_all h refreshes >> restart_service h) m (link_keeps h OnBinary m s)
        λ _ m1 s1.
          Holds-bind OnError OnResult OnResult (refresh_all h refreshes) (λ _. restart_service h) m1
            (refresh_keeps h OnBinary refreshes m1 s1) λ _ m2 s2. restart_keeps m2 s2

module _ (h : ApplyHost) (version old : Text) (artifact : Artifact) where
  abbrev Fine : UpdateError → Machine → Type 0
  Fine e m = IsOldOrOfficial h version old m.binary

  abbrev FineR : Unit {0} → Machine → Type 0
  FineR u m = IsOldOrOfficial h version old m.binary

  -- The old binary beside a download that has the checksum.
  abbrev Checked : Unit {0} → Machine → Type 0
  Checked u m =
      (m.binary ≡ old)
      × (equal_fold (trim_space artifact.sha256) (h.sha256_hex (content_of m.download)) ≡ true)

  verify-Checked :
      (m : Machine)
      → m.binary ≡ old
      → Holds Fine Checked (verify_artifact_checksum h artifact.sha256 m)
  unfolding verify_artifact_checksum
  verify-Checked m s =
      Holds-lift-bind Fine Checked open_failed h.open_download _ m (λ _. inl s)
        λ _ _.
          Holds-lift-bind Fine Checked hash_failed h.hash_download _ m (λ _. inl s)
            λ _ _.
              elim (Bool-cases
                (equal_fold (trim_space artifact.sha256) (h.sha256_hex (content_of m.download)))) [
                  | inl same ↦ rw same (s, same)
                  | inr other ↦ rw other (inl s)
                ]

  install-Fine :
      (m : Machine)
      → m.binary ≡ old
      → IsOfficial h version (content_of m.download)
      → Holds Fine FineR (install_release_artifact h m)
  unfolding install_release_artifact
  install-Fine m s o =
      Holds-lift-bind Fine FineR stage_failed h.rename_staged _ _ (λ _. inl s)
        λ _ _.
          Holds-lift-bind Fine FineR chmod_failed h.chmod_staged _ _ (λ _. inl s)
            λ _ _.
              Holds-lift-bind Fine FineR replace_failed h.rename_binary _ _ (λ _. inl s)
                λ _ _. inr o

  install_and_restart-Fine :
      (manifest : Manifest) (m : Machine)
      → fetch_release_manifest h.network version ≡ ok manifest
      → select_release_artifact manifest h.arch ≡ ok artifact
      → m.binary ≡ old
      → Holds Fine FineR (install_and_restart h artifact m)
  unfolding install_and_restart add_report
  install_and_restart-Fine manifest m fetched selected s =
      Holds-bind Fine Checked FineR (verify_artifact_checksum h artifact.sha256)
        (λ _. report installing 70 >> (install_release_artifact h >> after_install h))
        (add_report verifying 45 none m) (verify-Checked (add_report verifying 45 none m) s)
        λ _ m1 (s1, sum).
          Holds-bind Fine FineR FineR (install_release_artifact h) (λ _. after_install h)
            (add_report installing 70 none m1)
            (install-Fine (add_report installing 70 none m1) s1 (
              manifest,
              artifact,
              fetched,
              selected,
              fetch_release_manifest-IsPublished h.network version manifest fetched,
              select_release_artifact-IsBuiltFor manifest h.arch artifact selected,
              sum,
            ))
            λ _ m2 s2. after_install_keeps h (IsOldOrOfficial h version old) m2 s2

removing-Fine :
    (P : Text → Type 0) (s : Step (Unit {0})) (m : Machine)
    → Holds (λ _ m'. P m'.binary) (λ _ m'. P m'.binary) (s m)
    → Holds (λ _ m'. P m'.binary) (λ _ m'. P m'.binary) (removing_download s m)
removing-Fine P s m p = by_result (s m) p
  where
    by_result :
        (r : Outcome UpdateError (Unit {0}) × Machine)
        → Holds (λ _ m'. P m'.binary) (λ _ m'. P m'.binary) r
        → Holds
            (λ _ m'. P m'.binary)
            (λ _ m'. P m'.binary)
            (let (result, m') = r in (result, record m' { download = none }))
    by_result (ok u, m') q = q
    by_result (err e, m') q = q

run_update-Fine :
    (h : ApplyHost) (version old : Text) (m : Machine)
    → m.binary ≡ old
    → Holds
        (λ _ m'. IsOldOrOfficial h version old m'.binary)
        (λ _ m'. IsOldOrOfficial h version old m'.binary)
        (run_update h version m)
unfolding run_update add_report
run_update-Fine h version old m s =
    let P = IsOldOrOfficial h version old in
    let E = λ (_ : UpdateError) (m' : Machine). P m'.binary in
    let R = λ (_ : Unit {0}) (m' : Machine). P m'.binary in
    Holds-lift-bind E R release_failed (fetch_release_manifest h.network version) _ _ (λ _. inl s)
      λ manifest fetched.
        Holds-lift-bind E R release_failed (select_release_artifact manifest h.arch) _ _
          (λ _. inl s)
          λ artifact selected.
            Holds-bind E (λ _ m'. m'.binary ≡ old) R
              (download_release_artifact h artifact.binary_url)
              (λ _. removing_download (install_and_restart h artifact)) _
              (Holds-map (λ _ m'. m'.binary ≡ old) (λ _ m'. m'.binary ≡ old) E
                (λ _ m'. m'.binary ≡ old) _ (λ _ _ q. inl q) (λ _ _ q. q)
                (download_keeps h (λ b _ _. b ≡ old) artifact.binary_url _ s))
              λ _ m1 s1.
                removing-Fine P (install_and_restart h artifact) m1
                  (install_and_restart-Fine h version old artifact manifest m1 fetched selected s1)

reported-Fine :
    (P : Text → Type 0) (r : Outcome UpdateError (Unit {0}) × Machine)
    → Holds (λ _ m'. P m'.binary) (λ _ m'. P m'.binary) r
    → P (reported r).1.binary
unfolding add_report
reported-Fine P (ok u, m) p = p
reported-Fine P (err e, m) p = p

-- Whatever the network sends and whichever step fails, an update leaves the managed binary as it
-- was, or puts in its place a content with the checksum that a manifest has for the architecture of
-- the host, amd64 or arm64. The manifest has the channel of tags and was answered with success by
-- the CDN under the asked version, or by the URL that the release of the asked version on GitHub
-- has for an asset named release-manifest.json.
pub apply_managed_update-IsOldOrOfficial :
    (h : ApplyHost) (version : Text) (m : Machine)
    → IsOldOrOfficial h version m.binary (apply_managed_update h version m).1.binary
unfolding apply_managed_update
apply_managed_update-IsOldOrOfficial h version m = by_config h.config
  where
    by_client :
        (c : Outcome Text (Unit {0}))
        → IsOldOrOfficial h version m.binary
            ((lift client_failed c
                >> (change (λ m'. record m' { progress = 0 }) >> λ m'.
                    reported (run_update h version m')))
              m).1.binary
    by_client (err e) = inl refl
    by_client (ok tt) =
        reported-Fine (IsOldOrOfficial h version m.binary) _
          (run_update-Fine h version m.binary (record m { progress = 0 }) refl)

    by_config :
        (c : Outcome Text (Text × Text))
        → IsOldOrOfficial h version m.binary
            ((lift config_failed c >>= λ credentials.
                check_identity credentials
                >> (lift client_failed h.client
                    >> (change (λ m'. record m' { progress = 0 }) >> λ m'.
                        reported (run_update h version m'))))
              m).1.binary
    by_config (err e) = inl refl
    by_config (ok (node_id, token)) =
        elim (Bool-cases (is_empty (trim_space node_id) || is_empty (trim_space token))) [
          | inl blank ↦ rw blank (inl refl)
          | inr given ↦ rw given (by_client h.client)
        ]
