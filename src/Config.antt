-- ===== src/Config.antt =====
-- Package internal/config: the configuration of the agent.
pub mod Types
pub mod Merge
pub mod Env
pub mod Checks
pub mod Load
pub mod Valid
pub mod RoundTrip
pub mod Restart
pub mod Tests
