-- ===== src/Tasks/Events.antt =====
-- `HTTPTaskEvents` of internal/tasks/http_events.go, with the classes of errors of
-- internal/tasks/service.go.
pub mod Retry
pub mod LogLine
