-- ===== src/Browser/RoundTrip.antt =====
-- Frames of crates/gw-browser/src/codec.rs there and back.
use sonicbrew.Base.{
  ℕ, ◌*◌, ◌/◌, ◌%◌, ◌^◌, ◌<◌, ◌≡◌, refl, ap, ◌∙◌, true, false, Option, List, [], ◌∷◌, ◌++◌, ltb,
  ◌==◌, if◌then◌else◌, length, All, arith,
}
use native.Mathlib.Nat.{mul-mod_left, mul-pos}
use sonicbrew.Base.Bytes.{to_le32, from_le32, be32_roundtrip}
use sonicbrew.Browser.{
  FrameSpec, AudioFrame, ok, err, short_header, OpusCrate, put_samples, take_samples, encode_frame,
  decode_pcm, decode_frame,
}

abbrev pub spec_of : AudioFrame → FrameSpec
spec_of frame = record { channels = frame.channels; sample_rate = frame.sample_rate }

-- What `encode_frame` can put on the wire, and `decode_frame` takes: samples for every channel.
pub record IsFrame (frame : AudioFrame) : Type 0 where
  pub some_channel : 0 < frame.channels
  pub channel_byte : frame.channels < 256
  pub rate : frame.sample_rate < 2 ^ 32
  pub per_channel : ℕ
  pub some_sample : 0 < per_channel
  pub planar : length frame.samples ≡ per_channel * frame.channels
  pub words : All (λ s. s < 2 ^ 32) frame.samples

length-put_samples : (samples : List ℕ) → length (put_samples samples) ≡ length samples * 4
unfolding put_samples
length-put_samples [] = refl
length-put_samples (s ∷ samples) = omega (arith, length-put_samples samples)

take_samples-put_samples :
    (samples : List ℕ)
    → All (λ s. s < 2 ^ 32) samples
    → take_samples (put_samples samples) ≡ samples
unfolding take_samples put_samples
take_samples-put_samples [] h = refl
take_samples-put_samples (s ∷ samples) h =
    rw (be32_roundtrip s h.0, take_samples-put_samples samples h.1) refl

positive : {n : ℕ} → 0 < n → (n == 0) ≡ false
positive h = ground arith

decode_pcm-put_samples :
    (frame : AudioFrame)
    → IsFrame frame
    → decode_pcm (put_samples frame.samples) frame.channels frame.sample_rate (spec_of frame)
      ≡ ok frame
unfolding decode_pcm
decode_pcm-put_samples frame f =
    let size : length (put_samples frame.samples) ≡ f.per_channel * (frame.channels * 4) =
      length-put_samples frame.samples ∙ ap (λ n. n * 4) f.planar ∙ omega arith in
    let some_channel : (frame.channels == 0) ≡ false = ground (arith, f.some_channel) in
    let some_byte : (f.per_channel * (frame.channels * 4) == 0) ≡ false =
      positive (mul-pos f.some_sample (mul-pos f.some_channel (omega arith))) in
    let same : (n : ℕ) → (n == n) ≡ true = λ n. ground arith in
    rw
      (
        some_channel,
        same frame.channels,
        same frame.sample_rate,
        size,
        some_byte,
        mul-mod_left f.per_channel (frame.channels * 4),
        take_samples-put_samples frame.samples f.words,
      )
      refl

decode_frame-pcm :
    (opus : Option OpusCrate) (c r0 r1 r2 r3 : ℕ) (payload : List ℕ) (spec : FrameSpec)
    → decode_frame opus (0 ∷ c ∷ r0 ∷ r1 ∷ r2 ∷ r3 ∷ payload) spec
      ≡ decode_pcm payload c (from_le32 r0 r1 r2 r3) spec
unfolding decode_frame
decode_frame-pcm opus c r0 r1 r2 r3 payload spec =
    let long : ltb (length (0 ∷ c ∷ r0 ∷ r1 ∷ r2 ∷ r3 ∷ payload)) 6 ≡ false = ground arith in
    ap (λ b. if b then err short_header else decode_pcm payload c (from_le32 r0 r1 r2 r3) spec) long

-- A frame that can be sent is encoded, and what it is encoded to is decoded to the same frame by a
-- gateway with its channels and its rate, whether or not the gateway was built with Opus.
pub decode_frame-encode_frame :
    (opus : Option OpusCrate) (frame : AudioFrame)
    → IsFrame frame
    → (bytes : List ℕ) × (encode_frame frame ≡ ok bytes)
      × (decode_frame opus bytes (spec_of frame) ≡ ok frame)
unfolding encode_frame
decode_frame-encode_frame opus frame f =
    let byte : ltb frame.channels 256 ≡ true = ground (arith, f.channel_byte) in
    let payload = put_samples frame.samples in
    (
      0 ∷ frame.channels ∷ to_le32 frame.sample_rate ++ payload,
      rw byte refl,
      decode_frame-pcm opus frame.channels (frame.sample_rate % 256)
            (frame.sample_rate / 2 ^ 8 % 256) (frame.sample_rate / 2 ^ 16 % 256)
            (frame.sample_rate / 2 ^ 24 % 256) payload (spec_of frame)
          ∙ ap (λ rate. decode_pcm payload frame.channels rate (spec_of frame))
              (be32_roundtrip frame.sample_rate f.rate)
          ∙ decode_pcm-put_samples frame f,
    )
