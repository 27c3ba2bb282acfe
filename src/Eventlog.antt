-- ===== src/Eventlog.antt =====
-- The confidential computing event log: deps/eventlog/src/lib.rs.
pub mod TcgEnum
pub mod Log
pub mod Replay
pub mod Parse
mod Tests
