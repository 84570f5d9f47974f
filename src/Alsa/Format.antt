-- ===== src/Alsa/Format.antt =====
-- The sample formats of crates/gw-alsa/src/format.rs.
use sonicbrew.Base.{ℕ}

pub data AlsaFormat : Type 0 where
  s16_le s24_le s24_3le s32_le float32_le float64_le : AlsaFormat

-- The numbers of `snd_pcm_format_t`.
unfoldable pub to_alsa_value : AlsaFormat → ℕ
to_alsa_value s16_le = 2
to_alsa_value s24_le = 6
to_alsa_value s24_3le = 32
to_alsa_value s32_le = 10
to_alsa_value float32_le = 14
to_alsa_value float64_le = 15

unfoldable pub physical_width_bytes : AlsaFormat → ℕ
physical_width_bytes s16_le = 2
physical_width_bytes s24_le = 3
physical_width_bytes s24_3le = 3
physical_width_bytes s32_le = 4
physical_width_bytes float32_le = 4
physical_width_bytes float64_le = 8

unfoldable pub container_width_bytes : AlsaFormat → ℕ
unfolding physical_width_bytes
container_width_bytes s24_le = 4
container_width_bytes format = physical_width_bytes format
