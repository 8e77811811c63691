-- ===== src/Logscan.antt =====
-- internal/logscan/scanner.go: bounded scans of a log file or of the systemd journal.
-- `Types` has the data, `Limits` the clamping of a request, `Lines` the readers of package bufio,
-- `Tail` and `Offset` the two ways to read a file, `File` the choice between them by the cursor,
-- `Journal` the scan of the output of journalctl, `Run` the entry point.
pub mod Types
pub mod Limits
pub mod Lines
pub mod Messages
pub mod Tail
pub mod Offset
pub mod File
pub mod Journal
pub mod Run
mod Tests
