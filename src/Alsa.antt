-- ===== src/Alsa.antt =====
-- The ALSA gateway's formats and parameter negotiation, crates/gw-alsa/src.
pub mod Format
pub mod Params
mod Tests
