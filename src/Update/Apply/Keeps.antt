-- ===== src/Update/Apply/Keeps.antt =====
-- The steps of an update that touch neither the managed binary nor the reports.
use noderax_agent.Prelude.{ℕ, inl, inr, some, List, [], ◌∷◌, Bool-cases, Text}
use noderax_agent.Update.Release.{is_success}
use noderax_agent.Update.Step.{
  UpdateError, directory_failed, temp_failed, download_request_failed, download_failed,
  download_write_failed, download_chmod_failed, symlink_failed, refresh_failed, Report, Machine,
  lift, Holds, Holds-bind, Holds-lift-bind, Holds-lift_keeps,
}
use noderax_agent.Update.Apply.{
  refresh_all, wait_for_checks, read_service_failure_detail, wait_for_restarted_service,
  link_binary,
}
use noderax_agent.Update.Artifact.{ApplyHost, Download, copy, download_release_artifact}

-- Steps that leave the binary and the reports alone keep what is known of them.
module _ (h : ApplyHost) (P : Text → List Report → ℕ → Type 0) where
  abbrev pub OnError : UpdateError → Machine → Type 0
  OnError e m = P m.binary m.reports m.progress

  abbrev pub OnResult : Unit {0} → Machine → Type 0
  OnResult u m = P m.binary m.reports m.progress

  pub copy_keeps :
      (d : Download) (m : Machine)
      → P m.binary m.reports m.progress
      → Holds OnError OnResult (copy d m)
  copy_keeps d m s = elim (Bool-cases (is_success d.status)) [
    | inr bad ↦ rw bad s
    | inl good ↦ rw good (
        Holds-lift_keeps (λ (m' : Machine). P m'.binary m'.reports m'.progress)
          download_write_failed d.copied (record m { download = some d.body }) s)
  ]

  pub download_keeps :
      (url : Text) (m : Machine)
      → P m.binary m.reports m.progress
      → Holds OnError OnResult (download_release_artifact h url m)
  unfolding download_release_artifact
  download_keeps url m s =
      Holds-lift-bind OnError OnResult directory_failed h.make_directory _ m (λ _. s)
        λ _ _.
          Holds-lift-bind OnError OnResult temp_failed h.create_temp _ m (λ _. s)
            λ _ _.
              Holds-lift-bind OnError OnResult download_request_failed (h.download_request url) _ _
                (λ _. s)
                λ _ _.
                  Holds-lift-bind OnError OnResult download_failed (h.send_download url) _ _
                    (λ _. s)
                    λ d _.
                      Holds-bind OnError OnResult OnResult (copy d)
                        (λ _. lift download_chmod_failed h.chmod_download) _ (copy_keeps d _ s)
                        λ _ m' s'.
                          Holds-lift_keeps (λ (m' : Machine). P m'.binary m'.reports m'.progress)
                            download_chmod_failed h.chmod_download m' s'

  pub refresh_keeps :
      (ns : List ℕ) (m : Machine)
      → P m.binary m.reports m.progress
      → Holds OnError OnResult (refresh_all h ns m)
  unfolding refresh_all
  refresh_keeps [] m s = s
  refresh_keeps (n ∷ ns) m s =
      Holds-lift-bind OnError OnResult (refresh_failed n) (h.refresh n) _ m (λ _. s)
        λ _ _. refresh_keeps ns _ s

  pub link_keeps :
      (m : Machine) → P m.binary m.reports m.progress → Holds OnError OnResult (link_binary h m)
  link_keeps m s = elim (Bool-cases h.has_symlink) [
    | inr without ↦ rw without s
    | inl there ↦ rw there (
        Holds-lift_keeps (λ (m' : Machine). P m'.binary m'.reports m'.progress) symlink_failed
          h.ensure_symlink m s)
  ]

  pub wait_keeps :
      (m : Machine)
      → P m.binary m.reports m.progress
      → Holds OnError OnResult (wait_for_restarted_service h m)
  unfolding wait_for_restarted_service
  wait_keeps m s =
      Holds-lift_keeps (λ (m' : Machine). P m'.binary m'.reports m'.progress)
        (λ (e : UpdateError). e) (wait_for_checks h.checks (read_service_failure_detail h)) m s
