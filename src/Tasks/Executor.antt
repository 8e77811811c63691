-- ===== src/Tasks/Executor.antt =====
-- `ShellExecutor` of internal/tasks/executor.go: the command line that runs a task.
pub mod Types
pub mod Timeouts
pub mod Build
pub mod Packages
pub mod Requests
pub mod Root
pub mod Commands
pub mod Scopes
pub mod Mutations
pub mod Helper
pub mod LogScans
pub mod Execute
