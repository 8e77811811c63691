-- ===== src/Realtime.antt =====
-- Package internal/realtime: the session with the backend over socket.io.
pub mod Queue
pub mod Output
pub mod Session
pub mod Backoff
pub mod Target
pub mod Dispatch
mod Tests
