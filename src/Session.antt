-- ===== src/Session.antt =====
-- Session consensus and persistence, crates/session-store/src.
pub mod Graph
pub mod Redb
pub mod Wal
pub mod Raft
pub mod LogStore
pub mod StateMachine
pub mod Tests
