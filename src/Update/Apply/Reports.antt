-- ===== src/Update/Apply/Reports.antt =====
-- The reports of an update: the stages in their order, and a failure where there is one.
use noderax_agent.Prelude.{
  ℕ, zero, suc, ◌≤◌, ◌≡◌, refl, inl, inr, false, none, some, List, [], ◌∷◌, ◌++◌, arith, Bool-cases,
  Text, is_empty, trim_space, Outcome, ok, err,
}
use noderax_agent.Update.Release.{Artifact, fetch_release_manifest, select_release_artifact}
use noderax_agent.Update.Step.{
  UpdateError, release_failed, open_failed, hash_failed, stage_failed, chmod_failed, replace_failed,
  Status, downloading, verifying, installing, restarting, waiting_for_reconnect, failed, Report,
  Machine, ◌>>◌, Holds, Holds-bind, Holds-lift-bind, Holds-map,
}
use noderax_agent.Update.Apply.{
  refreshes, refresh_all, wait_for_restarted_service, restart_message, link_binary, restart_service,
  after_install, install_and_restart, removing_download, run_update, reported, apply_managed_update,
}
use noderax_agent.Update.Artifact.{
  ApplyHost, add_report, report, download_release_artifact, content_of, equal_fold,
  verify_artifact_checksum, install_release_artifact,
}
use noderax_agent.Update.Apply.Keeps.{download_keeps, refresh_keeps, link_keeps, wait_keeps}

-- The stages in their order, with the progress that is reported for each.
abbrev pub stage_status : ℕ → Status
stage_status zero = downloading
stage_status (suc zero) = verifying
stage_status (suc (suc zero)) = installing
stage_status (suc (suc (suc zero))) = restarting
stage_status (suc (suc (suc (suc n)))) = waiting_for_reconnect

abbrev pub stage_percent : ℕ → ℕ
stage_percent zero = 20
stage_percent (suc zero) = 45
stage_percent (suc (suc zero)) = 70
stage_percent (suc (suc (suc zero))) = 90
stage_percent (suc (suc (suc (suc n)))) = 95

abbrev pub stage_report : ℕ → Report
stage_report n = record { status = stage_status n; percent = stage_percent n; reason = none }

-- The reports behind the stages before the n-th.
abbrev pub up_to : List Report → ℕ → List Report
up_to base zero = base
up_to base (suc n) = up_to base n ++ stage_report n ∷ []

abbrev pub failure : ℕ → UpdateError → Report
failure percent e = record { status = failed; percent = percent; reason = some e }

module _ (h : ApplyHost) (base : List Report) where
  abbrev AtStage : ℕ → Text → List Report → ℕ → Type 0
  AtStage n binary reports progress = (reports ≡ up_to base (suc n)) × (progress ≡ stage_percent n)

  -- An error in some stage.
  abbrev Stopped : UpdateError → Machine → Type 0
  Stopped e m =
      (n : ℕ) × (n ≤ 4) × (m.reports ≡ up_to base (suc n)) × (m.progress ≡ stage_percent n)

  abbrev Done : ℕ → Unit {0} → Machine → Type 0
  Done n u m = AtStage n m.binary m.reports m.progress

  stopped :
      (n : ℕ)
      → n ≤ 4
      → (e : UpdateError) (m : Machine) → AtStage n m.binary m.reports m.progress
      → Stopped e m
  stopped n l e m (r, p) = (n, l, r, p)

  widen :
      (n : ℕ) (r : Outcome UpdateError (Unit {0}) × Machine)
      → n ≤ 4
      → Holds (λ _ m. AtStage n m.binary m.reports m.progress) (Done n) r
      → Holds Stopped (Done n) r
  widen n r l q =
      Holds-map (λ _ m. AtStage n m.binary m.reports m.progress) (Done n) Stopped (Done n) r
        (stopped n l) (λ _ _ x. x) q

  -- The report of the next stage.
  reports-add_report :
      (n : ℕ) (m : Machine)
      → AtStage n m.binary m.reports m.progress
      → let m' = add_report (stage_status (suc n)) (stage_percent (suc n)) none m in
        AtStage (suc n) m'.binary m'.reports m'.progress
  unfolding add_report
  reports-add_report n m (r, p) = (rw r refl, refl)

  verify_stage :
      (sum : Text) (m : Machine)
      → AtStage 1 m.binary m.reports m.progress
      → Holds Stopped (Done 1) (verify_artifact_checksum h sum m)
  unfolding verify_artifact_checksum
  verify_stage sum m (r, p) =
      Holds-lift-bind Stopped (Done 1) open_failed h.open_download _ m (λ _. (1, omega arith, r, p))
        λ _ _.
          Holds-lift-bind Stopped (Done 1) hash_failed h.hash_download _ m
            (λ _. (1, omega arith, r, p))
            λ _ _.
              elim (Bool-cases
                (equal_fold (trim_space sum) (h.sha256_hex (content_of m.download)))) [
                  | inl same ↦ rw same (r, p)
                  | inr other ↦ rw other (1, omega arith, r, p)
                ]

  install_stage :
      (m : Machine)
      → AtStage 2 m.binary m.reports m.progress
      → Holds Stopped (Done 2) (install_release_artifact h m)
  unfolding install_release_artifact
  install_stage m (r, p) =
      Holds-lift-bind Stopped (Done 2) stage_failed h.rename_staged _ _
        (λ _. (2, omega arith, r, p))
        λ _ _.
          Holds-lift-bind Stopped (Done 2) chmod_failed h.chmod_staged _ _
            (λ _. (2, omega arith, r, p))
            λ _ _.
              Holds-lift-bind Stopped (Done 2) replace_failed h.rename_binary _ _
                (λ _. (2, omega arith, r, p)) λ _ _. (r, p)

  restart_stage :
      (m : Machine)
      → AtStage 2 m.binary m.reports m.progress
      → Holds Stopped (Done 4) (restart_service h m)
  unfolding restart_service
  restart_stage m (r, p) =
      let m1 = record (add_report restarting 90 none m) { restarts = suc m.restarts } in
      let (r1, p1) = reports-add_report 2 m (r, p) in
      Holds-lift-bind Stopped (Done 4) restart_message h.restart _ _ (λ _. (3, omega arith, r1, p1))
        λ _ _.
          Holds-bind Stopped (Done 3) (Done 4) (wait_for_restarted_service h)
            (λ _. report waiting_for_reconnect 95) m1
            (widen 3 (wait_for_restarted_service h m1) (omega arith)
              (wait_keeps h (AtStage 3) m1 (r1, p1)))
            λ _ m2 q. reports-add_report 3 m2 q

  after_stage :
      (m : Machine)
      → AtStage 2 m.binary m.reports m.progress
      → Holds Stopped (Done 4) (after_install h m)
  unfolding after_install
  after_stage m q =
      Holds-bind Stopped (Done 2) (Done 4) (link_binary h)
        (λ _. refresh_all h refreshes >> restart_service h) m
        (widen 2 (link_binary h m) (omega arith) (link_keeps h (AtStage 2) m q))
        λ _ m1 q1.
          Holds-bind Stopped (Done 2) (Done 4) (refresh_all h refreshes) (λ _. restart_service h) m1
            (widen 2 (refresh_all h refreshes m1) (omega arith)
              (refresh_keeps h (AtStage 2) refreshes m1 q1))
            λ _ m2 q2. restart_stage m2 q2

  install_and_restart_stages :
      (artifact : Artifact) (m : Machine)
      → AtStage 0 m.binary m.reports m.progress
      → Holds Stopped (Done 4) (install_and_restart h artifact m)
  unfolding install_and_restart
  install_and_restart_stages artifact m q =
      let m1 = add_report verifying 45 none m in
      Holds-bind Stopped (Done 1) (Done 4) (verify_artifact_checksum h artifact.sha256)
        (λ _. report installing 70 >> (install_release_artifact h >> after_install h)) m1
        (verify_stage artifact.sha256 m1 (reports-add_report 0 m q))
        λ _ m2 q2.
          let m3 = add_report installing 70 none m2 in
          Holds-bind Stopped (Done 2) (Done 4) (install_release_artifact h) (λ _. after_install h)
            m3 (install_stage m3 (reports-add_report 1 m2 q2)) λ _ m4 q4. after_stage m4 q4

  removing_stages :
      (r : Outcome UpdateError (Unit {0}) × Machine)
      → Holds Stopped (Done 4) r
      → Holds Stopped (Done 4) (let (result, m') = r in (result, record m' { download = none }))
  removing_stages (ok u, m) q = q
  removing_stages (err e, m) q = q

  run_update_stages :
      (version : Text) (m : Machine)
      → m.reports ≡ base
      → Holds Stopped (Done 4) (run_update h version m)
  unfolding run_update
  run_update_stages version m b =
      let m1 = add_report downloading 20 none m in
      let q : AtStage 0 m1.binary m1.reports m1.progress =
        (unfold add_report in (rw b refl, refl)) in
      let (r, p) = q in
      Holds-lift-bind Stopped (Done 4) release_failed (fetch_release_manifest h.network version) _
        m1 (λ _. (0, omega arith, r, p))
        λ manifest _.
          Holds-lift-bind Stopped (Done 4) release_failed (select_release_artifact manifest h.arch)
            _ m1 (λ _. (0, omega arith, r, p))
            λ artifact _.
              Holds-bind Stopped (Done 0) (Done 4) (download_release_artifact h artifact.binary_url)
                (λ _. removing_download (install_and_restart h artifact)) m1
                (widen 0 (download_release_artifact h artifact.binary_url m1) (omega arith)
                  (download_keeps h (AtStage 0) artifact.binary_url m1 q))
                λ _ m2 q2.
                  removing_stages (install_and_restart h artifact m2)
                    (install_and_restart_stages artifact m2 q2)

-- The reports of an update that ends: those of the five stages, or those of the stages up to the one in
-- which it fails and then the failure, with the progress of that stage and the error returned.
abbrev pub IsReported : List Report → Outcome UpdateError (Unit {0}) × Machine → Type 0
IsReported base (ok u, m) = m.reports ≡ up_to base 5
IsReported base (err e, m) =
    (n : ℕ) × (n ≤ 4) × (m.reports ≡ up_to base (suc n) ++ failure (stage_percent n) e ∷ [])

reported-IsReported :
    (h : ApplyHost) (base : List Report) (r : Outcome UpdateError (Unit {0}) × Machine)
    → Holds (Stopped h base) (Done h base 4) r
    → IsReported base (reported r)
unfolding add_report
reported-IsReported h base (ok u, m) (r, p) = r
reported-IsReported h base (err e, m) (n, l, r, p) = (n, l, rw (r, p) refl)

-- An update of an agent that has an identity and a client of the backend, on any host, reports the
-- stages of downloading, verifying, installing, restarting and waiting in this order: all of them
-- where it succeeds, and where it fails those up to the stage that fails and then the failure, with
-- the progress of that stage and the error that the update returns.
pub apply_managed_update-IsReported :
    (h : ApplyHost) (version node_id token : Text) (m : Machine)
    → h.config ≡ ok (node_id, token)
    → is_empty (trim_space node_id) ≡ false
    → is_empty (trim_space token) ≡ false
    → h.client ≡ ok tt
    → IsReported m.reports (apply_managed_update h version m)
unfolding apply_managed_update
apply_managed_update-IsReported h version node_id token m c n t l =
    rw (c, n, t, l)
      (reported-IsReported h m.reports (run_update h version (record m { progress = 0 }))
        (run_update_stages h m.reports version (record m { progress = 0 }) refl))
