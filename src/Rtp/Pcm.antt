-- ===== src/Rtp/Pcm.antt =====
-- The PCM framing of crates/net-rtp-aes67/src/codec.rs: planar samples as interleaved big-endian words.
-- A float is a value of `F`, and what the code does with floats is a parameter.
pub mod Interleave
pub mod RoundTrip
mod Tests
use sonicbrew.Base.{
  ℕ, zero, suc, ◌+◌, ◌-◌, ◌*◌, ◌/◌, ◌%◌, ◌^◌, List, [], ◌∷◌, ◌++◌, ltb, ◌==◌, if◌then◌else◌, length,
  take, drop, set, get_or, replicate,
}
use sonicbrew.Base.Bytes.{to_be16, from_be16, byte_at}
use sonicbrew.Base.Int.{ℤ, pos, negsuc, signed16}

pub record Float (F : Type 0) : Type 0 where
  pub literal : ℤ → F
  pub clamp : F → F → F → F
  pub mul : F → F → F
  pub div : F → F → F
  pub round : F → F
  pub as_i32 : F → ℤ
  pub of_i32 : ℤ → F

abbrev pub l16_full_scale : ℕ
l16_full_scale = 32767

abbrev pub l16_decode_div : ℕ
l16_decode_div = 32768

abbrev pub l24_full_scale : ℕ
l24_full_scale = 8388607

abbrev pub l24_decode_div : ℕ
l24_decode_div = 8388608

-- The low bits of a number in two's complement.
abbrev pub word : ℕ → ℤ → ℕ
word bits (pos n) = n % 2 ^ bits
word bits (negsuc n) = 2 ^ bits - 1 - n % 2 ^ bits

-- `v as i16` and its bytes
unfoldable pub pack16 : ℤ → List ℕ
pack16 s = to_be16 (word 16 s)

unfoldable pub unpack16 : List ℕ → ℤ
unpack16 chunk = signed16 (from_be16 (byte_at chunk 0) (byte_at chunk 1))

-- The shifts and masks of three bytes.
unfoldable pub pack24 : ℤ → List ℕ
pack24 s = word 24 s / 2 ^ 16 % 2 ^ 8 ∷ word 24 s / 2 ^ 8 % 2 ^ 8 ∷ word 24 s % 2 ^ 8 ∷ []

-- Bit 23 is the sign.
abbrev pub signed24 : ℕ → ℤ
signed24 raw = if ltb raw (2 ^ 23) then pos raw else negsuc (2 ^ 24 - raw - 1)

unfoldable pub unpack24 : List ℕ → ℤ
unpack24 chunk = signed24 ((byte_at chunk 0 * 2 ^ 8 + byte_at chunk 1) * 2 ^ 8 + byte_at chunk 2)

module _ {F : Type 0} (float : Float F) where
  -- `(x.clamp(-1.0, 1.0) * full_scale).round() as i32`
  abbrev pub quantize : ℕ → F → ℤ
  quantize full_scale x = float.as_i32 (
      float.round (
        float.mul (float.clamp x (float.literal (negsuc 0)) (float.literal (pos 1)))
          (float.literal (pos full_scale))))

  -- `(s as f32) / decode_div`
  abbrev pub restore : ℕ → ℤ → F
  restore decode_div s = float.div (float.of_i32 s) (float.literal (pos decode_div))

  abbrev pub nought : F
  nought = float.literal (pos 0)

  -- The loops over the channels of a frame and over the frames, by the rounds that are left.
  unfoldable pub encode_channels : List F → ℕ → ℕ → (ℤ → List ℕ) → ℕ → ℕ → ℕ → List ℕ
  encode_channels frames num_frames full_scale pack zero c i = []
  encode_channels frames num_frames full_scale pack (suc rounds) c i =
      pack (quantize full_scale (get_or frames (c * num_frames + i) nought))
      ++ encode_channels frames num_frames full_scale pack rounds (c + 1) i

  unfoldable pub encode_frames : List F → ℕ → ℕ → ℕ → (ℤ → List ℕ) → ℕ → ℕ → List ℕ
  unfolding encode_channels
  encode_frames frames ch num_frames full_scale pack zero i = []
  encode_frames frames ch num_frames full_scale pack (suc rounds) i =
      encode_channels frames num_frames full_scale pack ch 0 i
      ++ encode_frames frames ch num_frames full_scale pack rounds (i + 1)

  unfoldable pub encode_pcm : List F → ℕ → ℕ → (ℤ → List ℕ) → List ℕ
  unfolding encode_frames
  encode_pcm frames ch full_scale pack =
      if ch == 0
      then []
      else encode_frames frames ch (length frames / ch) full_scale pack (length frames / ch) 0

  unfoldable pub decode_channels :
      List ℕ → ℕ → ℕ → ℕ → ℕ → (List ℕ → ℤ) → ℕ → ℕ → ℕ → List F → List F
  decode_channels bytes ch num_frames decode_div width unpack zero c i out = out
  decode_channels bytes ch num_frames decode_div width unpack (suc rounds) c i out =
      decode_channels bytes ch num_frames decode_div width unpack rounds (c + 1) i (
        set out (c * num_frames + i)
          (restore decode_div (unpack (take width (drop ((i * ch + c) * width) bytes)))))

  unfoldable pub decode_frames : List ℕ → ℕ → ℕ → ℕ → ℕ → (List ℕ → ℤ) → ℕ → ℕ → List F → List F
  unfolding decode_channels
  decode_frames bytes ch num_frames decode_div width unpack zero i out = out
  decode_frames bytes ch num_frames decode_div width unpack (suc rounds) i out =
      decode_frames bytes ch num_frames decode_div width unpack rounds (i + 1)
        (decode_channels bytes ch num_frames decode_div width unpack ch 0 i out)

  unfoldable pub decode_pcm : List ℕ → ℕ → ℕ → ℕ → (List ℕ → ℤ) → List F
  unfolding decode_frames
  decode_pcm bytes ch decode_div width unpack =
      if ch == 0
      then []
      else (let num_frames = length bytes / width / ch in
          decode_frames bytes ch num_frames decode_div width unpack num_frames 0
            (replicate (num_frames * ch) nought))

  unfoldable pub encode_l16 : List F → ℕ → List ℕ
  unfolding encode_pcm
  encode_l16 frames channels = encode_pcm frames channels l16_full_scale pack16

  unfoldable pub decode_l16 : List ℕ → ℕ → List F
  unfolding decode_pcm
  decode_l16 bytes channels = decode_pcm bytes channels l16_decode_div 2 unpack16

  unfoldable pub encode_l24 : List F → ℕ → List ℕ
  unfolding encode_pcm
  encode_l24 frames channels = encode_pcm frames channels l24_full_scale pack24

  unfoldable pub decode_l24 : List ℕ → ℕ → List F
  unfolding decode_pcm
  decode_l24 bytes channels = decode_pcm bytes channels l24_decode_div 3 unpack24
