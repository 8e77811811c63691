-- ===== src/Tasks/Executor/LogScans.antt =====
-- The root scope of log scans, and the file that a log scan leaves.
use noderax_agent.Prelude.{
  ◌≡◌, true, false, some, [], ◌∷◌, ◌++◌, Text, codes, is_empty, text_eq, is_space, trim_left,
  trim_right, trim_space, ok, err,
}
use noderax_agent.Rootaccess.{Manager, can_use_root_scope}
use noderax_agent.Rootaccess.Profiles.{profile_allows_operational}
use noderax_agent.Tasks.Executor.Types.{
  Host, LogScanPayload, scope_not_allowed, log_scan_temp, create_temp, write_string, chmod, close,
}
use noderax_agent.Tasks.Executor.Build.{Files, write_result, run_stages, write_temp}
use noderax_agent.Tasks.Executor.Root.{is_linux, ensure_linux_task_support}
use noderax_agent.Tasks.Executor.Commands.{
  decode_payload, agent_path, effective_scope, root_log_scan_command, log_scan_command,
}

operational_denied :
    (m : Manager)
    → profile_allows_operational m.state.applied_profile ≡ false
    → can_use_root_scope m (codes "operational") ≡ false
unfolding can_use_root_scope trim_space trim_left trim_right is_space text_eq
operational_denied m denied = denied

-- A log scan runs as root only under a profile that allows operational commands: under any other, a
-- valid scan that asks for root is refused. Its request has been written to a temporary file by then,
-- and is still there after the refusal.
pub log_scan_command_refused :
    (h : Host) (m : Manager) (p : LogScanPayload) (payload agent : Text) (fs : Files)
    → is_linux h ≡ true
    → is_empty payload ≡ false
    → h.decode_log_scan payload ≡ ok p
    → is_empty (trim_space p.mode) ≡ false
    → is_empty (trim_space p.source_preset_id) ≡ false
    → h.look_path (codes "noderax-agent") ≡ some agent
    → run_stages (h.write_steps log_scan_temp) (create_temp ∷ write_string ∷ chmod ∷ close ∷ [])
      ≡ ok tt
    → p.run_as_root ≡ true
    → h.root_scope_checker ≡ some (can_use_root_scope m)
    → profile_allows_operational m.state.applied_profile ≡ false
    → effective_scope p.root_scope ≡ codes "operational"
    → log_scan_command h payload fs
      ≡ (err (scope_not_allowed (codes "operational")), fs ++ (log_scan_temp, payload) ∷ [])
unfolding log_scan_command ensure_linux_task_support decode_payload agent_path write_temp
    write_result root_log_scan_command text_eq
log_scan_command_refused h m p payload agent fs linux full parsed mode preset found written root
      checker denied scope =
    simp (
      linux,
      full,
      parsed,
      mode,
      preset,
      found,
      written,
      root,
      scope,
      checker,
      operational_denied m denied,
    )
