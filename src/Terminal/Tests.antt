-- ===== src/Terminal/Tests.antt =====
-- Terminal sessions at concrete inputs.
use noderax_agent.Prelude.{
  ◌≡◌, refl, true, false, none, some, List, [], ◌∷◌, ◌||◌, Text, text_eq, has_prefix, trim_space,
  trim_left, trim_right, is_space, arith, if◌then◌else◌, pos, codes, ok, err,
}
use noderax_agent.Terminal.Size.{Size, winsize}
use noderax_agent.Terminal.Output.{
  Selected, tick, read, Holds, stream_pty_output, read_bytes_of, empty_stream,
  stream_pty_output-Holds,
}
use noderax_agent.Terminal.Sessions.{
  Host, Manager, start_session, resize_session, Reachable, start, step, started, resized,
  no_sessions,
}
use noderax_agent.Terminal.Shells.{
  ShellHost, resolve, member, add_resolved, dedupe_from, dedupe_shell_candidates, look_paths,
  select_root_shell_candidates, select_shell_candidates,
}
use noderax_agent.Terminal.Shells.Choice.{IsChoice, select_shell_candidates-IsChoice}
use noderax_agent.Terminal.Sessions.Table.{AllSessions, Reachable-AllSessions}

-- A width that the PTY cannot have.
abbrev wide : Size
wide = record { cols = 65556; rows = 34 }

-- The PTY gets 20 columns.
winsize_test : winsize wide ≡ record { cols = 20; rows = 34 }
unfolding winsize
winsize_test = refl

abbrev selected : List Selected
selected =
    read (codes "$ ") false ∷ tick ∷ tick ∷ read (codes "ls") false ∷ read (codes "!") true ∷ []

stream_pty_output-Holds_example :
    Holds 4096 (read_bytes_of selected) (stream_pty_output selected empty_stream)
stream_pty_output-Holds_example =
    stream_pty_output-Holds 4096 selected
      (omega arith, (tt, (tt, (omega arith, (omega arith, tt)))))

-- zsh starts only without a controlling terminal, and bash not at all.
abbrev host : Host
host = record {
  shells = codes "/bin/bash" ∷ codes "/bin/zsh" ∷ [];
  root_shells = [];
  can_start_root_terminal = none;
  start = λ shell run_as_root size mode.
      if text_eq shell (codes "/bin/bash") then err (codes "no PTY") else elim mode [
        | noderax_agent.Terminal.Sessions.controlling_tty ↦ err (codes "no TTY")
        | _ ↦ ok 42
      ];
}

abbrev later : Manager
later =
    (resize_session (codes "s") (pos 100) (pos 50) (ok tt)
      (start_session host (codes "s") (pos 80) (pos 0) false no_sessions).1).1

later-Reachable : Reachable later
later-Reachable =
    step (step start (started host (codes "s") (pos 80) (pos 0) false))
      (resized (codes "s") (pos 100) (pos 50) (ok tt))

Reachable-AllSessions_example : AllSessions later.sessions
Reachable-AllSessions_example = Reachable-AllSessions later later-Reachable

-- The host of a user of zsh, which the path finds, with bash as its only other shell.
abbrev shell_host : ShellHost
shell_host = record {
  shell = codes " zsh ";
  look_path = λ name. if text_eq name (codes "zsh") then some (codes "/usr/bin/zsh") else none;
  stat = λ path.
      if text_eq path (codes "/usr/bin/zsh") || text_eq path (codes "/bin/bash")
      then some false
      else none;
}

abbrev shells_found : List Text
shells_found = codes "/usr/bin/zsh" ∷ codes "/bin/bash" ∷ []

select_shell_candidates_test : select_shell_candidates shell_host ≡ shells_found
unfolding select_shell_candidates dedupe_shell_candidates dedupe_from select_root_shell_candidates
    look_paths text_eq add_resolved resolve has_prefix member trim_space trim_left trim_right
    is_space
select_shell_candidates_test = refl

select_shell_candidates-IsChoice_example : IsChoice shell_host (select_shell_candidates shell_host)
select_shell_candidates-IsChoice_example = select_shell_candidates-IsChoice shell_host
