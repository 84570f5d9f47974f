-- ===== src/Browser/Tests.antt =====
-- Frames of the browser gateway at concrete bytes: two channels of one sample, 1.0 and -1.0.
use sonicbrew.Base.{ℕ, ◌≡◌, refl, none, List, [], ◌∷◌, All, arith}
use sonicbrew.Base.Bytes.{IsByte}
use sonicbrew.Browser.{AudioFrame, ok, encode_frame, decode_frame, decode_pcm, take_samples}
use sonicbrew.Browser.RoundTrip.{IsFrame, spec_of, decode_frame-encode_frame}
use sonicbrew.Browser.Accepted.{encode_frame-decode_frame}

abbrev stereo : AudioFrame
stereo = record { channels = 2; sample_rate = 48000; samples = 0x3F800000 ∷ 0xBF800000 ∷ [] }

abbrev wire : List ℕ
wire = 0 ∷ 2 ∷ 0x80 ∷ 0xBB ∷ 0 ∷ 0 ∷ 0 ∷ 0 ∷ 0x80 ∷ 0x3F ∷ 0 ∷ 0 ∷ 0x80 ∷ 0xBF ∷ []

stereo-IsFrame : IsFrame stereo
stereo-IsFrame = record {
  some_channel = omega arith;
  channel_byte = omega arith;
  rate = omega arith;
  per_channel = 1;
  some_sample = omega arith;
  planar = refl;
  words = (omega arith, (omega arith, tt));
}

decode_frame-encode_frame_example :
    (bytes : List ℕ) × (encode_frame stereo ≡ ok bytes)
    × (decode_frame none bytes (spec_of stereo) ≡ ok stereo)
decode_frame-encode_frame_example = decode_frame-encode_frame none stereo stereo-IsFrame

wire_bytes : All IsByte wire
wire_bytes = ground arith

wire_decodes : decode_frame none wire (spec_of stereo) ≡ ok stereo
unfolding decode_frame decode_pcm take_samples
wire_decodes = refl

encode_frame-decode_frame_example : encode_frame stereo ≡ ok wire
encode_frame-decode_frame_example =
    encode_frame-decode_frame wire (spec_of stereo) stereo wire_bytes wire_decodes
