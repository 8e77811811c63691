-- ===== src/Update.antt =====
-- internal/agentctl/update.go: the update of the agent by itself.
pub mod Unit
pub mod Options
pub mod Relaunch
pub mod Release
pub mod Official
pub mod Step
pub mod Artifact
pub mod Apply
mod Tests
