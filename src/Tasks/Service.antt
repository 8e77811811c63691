-- ===== src/Tasks/Service.antt =====
-- `Service` of internal/tasks/service.go: claiming, dispatching and reporting tasks.
pub mod Running
pub mod Poll
pub mod Handle
pub mod Sink
pub mod Tests
