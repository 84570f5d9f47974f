-- ===== src/Rtp.antt =====
-- The RTP/AES67 transport, crates/net-rtp-aes67/src.
pub mod Error
pub mod Header
pub mod Packet
pub mod Payload
pub mod Pcm
pub mod Udp
pub mod Netmap
pub mod Jitter
pub mod Worker
mod Tests
