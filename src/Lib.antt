-- ===== src/Lib.antt =====
-- Verification of the agent of the noderax platform (Go).
--
-- The agent enrolls with its backend, claims tasks from it, runs them on the host, some of them as
-- root, and reports what became of them; one type of task scans the logs of the host, and one updates
-- the agent itself. A realtime session carries events and metrics.
--
-- The parts, and the files that model them:
--
--   Logscan     internal/logscan/scanner.go. Logscan/Run is `Run` with the presets; it takes the limits
--               from Logscan/Limits and calls `scanFile` (Logscan/File) or `scanJournal`
--               (Logscan/Journal). Logscan/Tail is `tailFileEntries`, Logscan/Offset is
--               `readFileFromOffset`, and Logscan/Lines is what both use of package bufio. Files
--               and the output of journalctl are what the host shows (`FileHost`, `JournalHost`).
--   Rootaccess  internal/rootaccess/manager.go, with the profiles of internal/api/types.go in
--               Rootaccess/Profiles. The manager is a state with the state file and the runs of the
--               helper, and each operation takes it to the next. The host says how each call ends.
--   Tasks       internal/tasks. Tasks/Events is http_events.go; Tasks/Executor is
--               executor.go: how a task becomes a command line, its timeout and its execution, with the
--               package helper script that internal/agentctl/commands.go renders; Tasks/Service is
--               service.go: the running set (Running), the claim loop (Poll), `handleTask` (Handle)
--               and the log sink (Sink).
--   Terminal    internal/terminal: the sizes (Size), the gathering of output (Output), and the table
--               of sessions of manager.go with the attempts of manager_unix.go (Sessions), which takes
--               the shells to try as they come; Shells is how manager.go chooses them.
--   Config      internal/config/config.go. Config/Merge is `mergeConfigFile`, Config/Env `mergeEnv`,
--               Config/Checks `Validate`, and Config/Load `Load`, `LoadFile`, `SaveFile` and
--               `normalize`, over files that are there by their paths (`Disk`).
--   Agent       internal/agent. Agent/Identity is the identity with its file and `persistIdentity`;
--               Agent/Enrollment is the wait for an approval and Agent/Ways are the ways to an identity
--               of enrollment.go; Agent/Service is what `NewService` and `bootstrapIdentity` make of the
--               identity, the handler of a rotated token, and a start of the program with the files
--               that it finds.
--   Update      internal/agentctl/update.go. Update/Options is the parsing of the options and of the
--               request file, and the command line of the updater; Update/Unit is the name of its
--               unit; Update/Release is the choice of a release, from the places that Update/Official
--               describes; Update/Artifact is its download, check and installation; Update/Apply is `applyManagedUpdate` with all it calls, as steps that
--               change the host (Update/Step) and may fail.
--   Realtime    internal/realtime. Realtime/Queue is the outbound queue of client.go, Realtime/Session
--               the handlers that `connect` sets, Realtime/Dispatch `handleMessage` of handlers.go,
--               Realtime/Backoff the loop of `Run`, Realtime/Output `truncateTaskOutput`, and
--               Realtime/Target `normalizeRealtimeTarget`.
--   Prelude     Go's strings, integers, maps and pairs of a result and an error, for all of them.
--
-- They meet in these places. The executor asks the root access manager whether a scope is allowed
-- (Tasks/Executor/Scopes); the claim loop hands the snapshots that it gets to the manager, and so do the
-- handlers of the session, which also call the rotation of the token and report what the manager applied;
-- the messages of the session start and stop terminals and handlers of tasks (Realtime/Dispatch); a start
-- loads the configuration, and a rotation or an enrollment writes it with the identity; and a task of type
-- log.scan becomes a command that runs the log scan.
--
-- A Go function that returns an error is a function into `Outcome`. A function that writes files and
-- may fail in between is a `Build`, whose files are kept when a later step fails. Text is a list of
-- runes; the log scan, which counts bytes, works on lists of bytes. Durations are in nanoseconds; that of
-- a request or a task timeout wraps at 64 bits. A float64 is a NaN, an infinity or a fraction with a power of two
-- (Config/Types), of which only comparisons with whole numbers are used.
--
-- Loops are structural recursion on the lines, the chunks or the claims they go over. `read_loop`
-- recurs on the number of entries that the limit still allows, since a round that goes on appends one.
-- `retry_from` recurs on the attempts that are left. The wait for an enrollment, the prompt, the check of a
-- restarted service and the loop that connects again go over the rounds that happen, and their results say
-- where the rounds end without an answer.
--
-- Parameters of the model: packages os, os/exec, net/http, net/url, crypto/sha256 and encoding/json, the
-- text of durations and floats, `filepath.Clean`, random numbers, and the socket.io library, as fields of
-- the hosts and codecs, as events, or as arguments. The refreshes of the helper scripts in an update are
-- steps of the host that may fail.
-- A host is any value of its type; where a theorem needs a file that opens, or a state file that can be
-- written, that is a named hypothesis, and so is that a message decoded from a line of JSON is no longer
-- than the line (Logscan/Journal/Messages). Concurrency is modelled where it matters as steps in any order
-- (Tasks/Service/Running, Tasks/Service/Sink, Terminal/Sessions, Realtime/Queue); else the locks make an
-- operation one step.
--
-- Not modelled: the rewriting of the JSON of a task that arrives over the session, and the metadata of
-- the events; metrics and readings of the host; the API client, which is HTTP and JSON; the
-- installation commands but for the package helper; the workers of the agent service and their
-- shutdown; the parsers of package lists and searches, of which the execution takes the results; and
-- `scanOutput`, with its stop at a line of one MiB, the line on the error that it adds, and the lines
-- that are lost where the wait closes the pipes before it ends: the execution takes the lines that reach
-- `captureLog`. A handler is modelled with its calls accepted, started and completed, without the log of
-- the task; the end of a connection with the disconnection, without the context and the errors of its
-- write loop.
-- Logging is left out everywhere.
pub mod Agent
pub mod Config
pub mod Logscan
pub mod Prelude
pub mod Realtime
pub mod Rootaccess
pub mod Tasks
pub mod Terminal
pub mod Update
