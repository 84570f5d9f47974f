-- ===== src/Rtp/Payload.antt =====
-- Payload types and the RTP clock of crates/net-rtp-aes67/src/codec.rs.
use sonicbrew.Base.{ℕ, ◌*◌, ◌/◌, ◌%◌, ◌^◌, max, leb, if◌then◌else◌}

-- `Codec` of lib.rs
pub data Codec : Type 0 where
  pcm_l16 pcm_l24 opus : Codec
  custom : ℕ → Codec

unfoldable pub codec_to_payload_type : Codec → ℕ → ℕ
codec_to_payload_type pcm_l16 channels = if leb 2 channels then 10 else 11
codec_to_payload_type pcm_l24 channels = 96
codec_to_payload_type opus channels = 97
codec_to_payload_type (custom n) channels = n

unfoldable pub bytes_per_sample : Codec → ℕ
bytes_per_sample pcm_l16 = 2
bytes_per_sample pcm_l24 = 3
bytes_per_sample opus = 1
bytes_per_sample (custom n) = 1

-- The division's `as u32` drops the bits above 2 ^ 32.
unfoldable pub timestamp_advance : ℕ → Codec → ℕ → ℕ
unfolding bytes_per_sample
timestamp_advance len codec channels = len / (bytes_per_sample codec * max channels 1) % 2 ^ 32
