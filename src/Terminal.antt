-- ===== src/Terminal.antt =====
-- Package internal/terminal: interactive shells on the host.
pub mod Size
pub mod Output
pub mod Sessions
pub mod Shells
pub mod Tests
