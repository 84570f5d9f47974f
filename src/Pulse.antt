-- ===== src/Pulse.antt =====
-- The PulseAudio native protocol's codecs and its client, crates/gw-pulse/src.
pub mod Codec
pub mod Tags
pub mod Reader
pub mod Command
pub mod Socket
pub mod Daemon
mod Tests
