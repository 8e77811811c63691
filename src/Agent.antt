-- ===== src/Agent.antt =====
-- Package internal/agent: the identity of the agent, its enrollment, and its start.
pub mod Identity
pub mod Enrollment
pub mod Ways
pub mod Service
pub mod Rotation
pub mod Restart
pub mod Approval
pub mod Waiting
pub mod Tests
