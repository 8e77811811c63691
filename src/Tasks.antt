-- ===== src/Tasks.antt =====
-- Package internal/tasks: the tasks that the agent claims, runs and reports.
pub mod Events
pub mod Executor
pub mod Service
pub mod Tests
