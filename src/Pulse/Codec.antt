-- ===== src/Pulse/Codec.antt =====
-- The packet header, the sample specification and the length-prefixed text of
-- crates/gw-pulse/src/codec.rs. A buffer is the list of its bytes.
pub mod Frames
use sonicbrew.Base.{
  ℕ, ◌+◌, ◌-◌, ◌*◌, Bool, ◌&&◌, Option, none, some, List, [], ◌∷◌, ltb, leb, ◌==◌, if◌then◌else◌,
  length, take, drop,
}
use sonicbrew.Base.Bytes.{from_be32, from_be64, byte_at}

abbrev pub header_len : ℕ
header_len = 20

-- 4 MiB
abbrev pub max_len : ℕ
max_len = 4 * 1024 * 1024

pub data PulseError : Type 0 where
  truncated : PulseError
  invalid_tag : ℕ → PulseError
  invalid_sample_format : ℕ → PulseError
  oversized : PulseError
  invalid_utf8 : PulseError

pub data Result {ℓ} (A : Type ℓ) : Type ℓ where
  ok : A → Result A
  err : PulseError → Result A

pub record PacketHeader : Type 0 where
  pub length : ℕ
  pub channel : ℕ
  pub offset : ℕ
  pub flags : ℕ
  pub opcode : ℕ

-- Four bytes from an index on.
abbrev pub be32_at : List ℕ → ℕ → ℕ
be32_at buf i =
    from_be32 (byte_at buf i) (byte_at buf (i + 1)) (byte_at buf (i + 2)) (byte_at buf (i + 3))

unfoldable pub parse_header : List ℕ → Result PacketHeader
parse_header buf =
    if ltb (length buf) header_len
    then err truncated
    else ok (record {
      length = be32_at buf 0;
      channel = be32_at buf 4;
      offset =
          from_be64 (byte_at buf 8) (byte_at buf 9) (byte_at buf 10) (byte_at buf 11)
            (byte_at buf 12) (byte_at buf 13) (byte_at buf 14) (byte_at buf 15);
      flags = be32_at buf 16;
      opcode = if leb (header_len + 4) (length buf) then be32_at buf 20 else 0;
    })

unfoldable pub is_valid : PacketHeader → Bool
is_valid h = ltb 0 h.length && leb h.length max_len

pub data SampleFormat : Type 0 where
  s16_le float32_le : SampleFormat

unfoldable pub from_pa_byte : ℕ → Option SampleFormat
from_pa_byte b = if b == 0 then some s16_le else if b == 5 then some float32_le else none

pub record SampleSpec : Type 0 where
  pub sample_rate : ℕ
  pub channels : ℕ
  pub format : SampleFormat

unfoldable pub parse_spec : List ℕ → Result SampleSpec
unfolding from_pa_byte
parse_spec buf = if ltb (length buf) 6 then err truncated else elim (from_pa_byte (byte_at buf 5)) [
  | none ↦ err (invalid_sample_format (byte_at buf 5))
  | some format ↦
      ok (record { sample_rate = be32_at buf 0; channels = byte_at buf 4; format = format })
]

unfoldable pub to_audio_frame_meta : SampleSpec → ℕ × ℕ
to_audio_frame_meta s = (s.channels, s.sample_rate)

-- `strip_suffix(b"\0").unwrap_or(bytes)`
unfoldable pub strip_nul : List ℕ → List ℕ
strip_nul [] = []
strip_nul (b ∷ []) = if b == 0 then [] else b ∷ []
strip_nul (b ∷ c ∷ bs) = b ∷ strip_nul (c ∷ bs)

-- The text and the bytes after it.
unfoldable pub parse_pa_string : List ℕ → Result (List ℕ × List ℕ)
unfolding strip_nul
parse_pa_string buf =
    if ltb (length buf) 4
    then err truncated
    else if ltb max_len (be32_at buf 0)
    then err oversized
    else if ltb (length buf) (4 + be32_at buf 0)
    then err oversized
    else ok (strip_nul (take (be32_at buf 0) (drop 4 buf)), drop (4 + be32_at buf 0) buf)
