-- ===== src/Browser.antt =====
-- The binary frames of the browser gateway, crates/gw-browser/src/codec.rs. A sample is the 32 bits of
-- its `f32`. The Opus decoder is the `audio_opus_bsd` crate's, and an option of the build.
pub mod RoundTrip
pub mod Accepted
mod Tests
use sonicbrew.Base.{
  ℕ, zero, suc, ◌+◌, ◌*◌, ◌%◌, Bool, not, Option, none, some, List, [], ◌∷◌, ◌++◌, ltb, ◌==◌,
  if◌then◌else◌, length, drop,
}
use sonicbrew.Base.Bytes.{to_le32, from_le32, byte_at}

abbrev pub header_len : ℕ
header_len = 6

abbrev pub tag_pcm : ℕ
tag_pcm = 0

abbrev pub tag_opus : ℕ
tag_opus = 1

pub record FrameSpec : Type 0 where
  pub channels : ℕ
  pub sample_rate : ℕ

-- `AudioFrame` of the `audio_core_bsd` crate.
pub record AudioFrame : Type 0 where
  pub channels : ℕ
  pub sample_rate : ℕ
  pub samples : List ℕ

-- What a `GatewayError::BadFrame` reports, with the numbers that its text shows.
pub data BadFrame : Type 0 where
  channel_count zero_channels empty_payload opus_off opus_init opus_decode : BadFrame
  short_header : BadFrame
  unknown_tag : ℕ → BadFrame
  channel_mismatch rate_mismatch not_multiple : ℕ → ℕ → BadFrame

pub data Result (A : Type 0) : Type 0 where
  ok : A → Result A
  err : BadFrame → Result A

-- `OpusDecoder` of the `audio_opus_bsd` crate; `none` where a call fails.
pub record OpusCrate : Type 1 where
  pub OpusDecoder : Type 0
  pub new : ℕ → ℕ → Option OpusDecoder
  pub decode_frame : OpusDecoder → List ℕ → Option AudioFrame

-- The loop over the samples of `encode_frame`.
unfoldable pub put_samples : List ℕ → List ℕ
put_samples [] = []
put_samples (s ∷ samples) = to_le32 s ++ put_samples samples

unfoldable pub encode_frame : AudioFrame → Result (List ℕ)
unfolding put_samples
encode_frame frame =
    if ltb frame.channels 256
    then ok (tag_pcm ∷ frame.channels ∷ to_le32 frame.sample_rate ++ put_samples frame.samples)
    else err channel_count

-- The loop over `chunks_exact(4)` of `decode_pcm`.
unfoldable pub take_samples : List ℕ → List ℕ
take_samples [] = []
take_samples (a ∷ []) = []
take_samples (a ∷ b ∷ []) = []
take_samples (a ∷ b ∷ c ∷ []) = []
take_samples (a ∷ b ∷ c ∷ d ∷ rest) = from_le32 a b c d ∷ take_samples rest

unfoldable pub decode_pcm : List ℕ → ℕ → ℕ → FrameSpec → Result AudioFrame
unfolding take_samples
decode_pcm payload channels sample_rate spec =
    if channels == 0
    then err zero_channels
    else if not (channels == spec.channels)
    then err (channel_mismatch channels spec.channels)
    else if not (sample_rate == spec.sample_rate)
    then err (rate_mismatch sample_rate spec.sample_rate)
    else if length payload == 0
    then err empty_payload
    else if not (length payload % (channels * 4) == 0)
    then err (not_multiple (length payload) (channels * 4))
    else ok (record {
      channels = spec.channels;
      sample_rate = spec.sample_rate;
      samples = take_samples payload;
    })

abbrev decoded : (opus : OpusCrate) → Option opus.OpusDecoder → List ℕ → Result AudioFrame
decoded opus none payload = err opus_init
decoded opus (some decoder) payload = elim (opus.decode_frame decoder payload) [
  | none ↦ err opus_decode
  | some frame ↦ ok frame
]

-- `none` is a build without the `opus` feature.
unfoldable pub decode_opus : Option OpusCrate → List ℕ → ℕ → ℕ → FrameSpec → Result AudioFrame
decode_opus none payload channels sample_rate spec = err opus_off
decode_opus (some opus) payload channels sample_rate spec =
    if not (channels == spec.channels)
    then err (channel_mismatch channels spec.channels)
    else if not (sample_rate == spec.sample_rate)
    then err (rate_mismatch sample_rate spec.sample_rate)
    else decoded opus (opus.new sample_rate spec.channels) payload

unfoldable pub decode_frame : Option OpusCrate → List ℕ → FrameSpec → Result AudioFrame
unfolding decode_pcm decode_opus
decode_frame opus bytes spec =
    if ltb (length bytes) header_len
    then err short_header
    else let tag = byte_at bytes 0 in
      let channels = byte_at bytes 1 in
      let sample_rate =
        from_le32 (byte_at bytes 2) (byte_at bytes 3) (byte_at bytes 4) (byte_at bytes 5) in
      let payload = drop header_len bytes in
      if tag == tag_pcm
      then decode_pcm payload channels sample_rate spec
      else if tag == tag_opus
      then decode_opus opus payload channels sample_rate spec
      else err (unknown_tag tag)
