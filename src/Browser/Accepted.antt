-- ===== src/Browser/Accepted.antt =====
-- The frames that crates/gw-browser/src/codec.rs accepts.
use sonicbrew.Base.{
  ℕ, zero, suc, ◌+◌, ◌*◌, ◌/◌, ◌%◌, ◌≡◌, ◌≢◌, refl, sym, ap, ◌∙◌, Bool, true, false, not,
  Bool-cases, none, List, [], ◌∷◌, ◌++◌, ltb, ◌==◌, if◌then◌else◌, length, All, arith, inl, inr,
}
use native.Mathlib.Nat.{mod-add-div'}
use sonicbrew.Base.Bytes.{to_le32, from_le32, IsByte, to_le32-from_le32}
use sonicbrew.Browser.{
  FrameSpec, AudioFrame, Result, ok, err, BadFrame, channel_count, tag_pcm, tag_opus, put_samples,
  take_samples, encode_frame, decode_pcm, decode_opus, decode_frame,
}

if_err :
    {A : Type 0} (b : Bool) (e : BadFrame) {r : Result A} {a : A}
    → (if b then err e else r) ≡ ok a
    → (b ≡ false) × (r ≡ ok a)
if_err false e h = (refl, h)
if_err true e h = absurd (ground (arith, h))

ok-injective : {A : Type 0} {a b : A} → ok a ≡ ok b → a ≡ b
ok-injective {a = a} h = ap (λ r. elim r [ ok x ↦ x | err e ↦ a ]) h

put_samples-take_samples :
    (k : ℕ) (bytes : List ℕ)
    → length bytes ≡ k * 4
    → All IsByte bytes
    → put_samples (take_samples bytes) ≡ bytes
unfolding put_samples take_samples
put_samples-take_samples k [] size h = refl
put_samples-take_samples k (a ∷ []) size h = absurd (omega (arith, size))
put_samples-take_samples k (a ∷ b ∷ []) size h = absurd (omega (arith, size))
put_samples-take_samples k (a ∷ b ∷ c ∷ []) size h = absurd (omega (arith, size))
put_samples-take_samples zero (a ∷ b ∷ c ∷ d ∷ rest) size h = absurd (omega (arith, size))
put_samples-take_samples (suc k) (a ∷ b ∷ c ∷ d ∷ rest) size (ha, (hb, (hc, (hd, hs)))) =
    ap (λ xs. to_le32 (from_le32 a b c d) ++ xs)
      (put_samples-take_samples k rest (omega (arith, size)) hs)
    ∙ ap (λ xs. xs ++ rest) (to_le32-from_le32 a b c d ha hb hc hd)

-- What a payload that `decode_pcm` accepts shows.
record IsPayload (payload : List ℕ) (channels sample_rate : ℕ) (spec : FrameSpec)
    (frame : AudioFrame) : Type 0 where
  some_channel : channels ≢ 0
  same_channels : channels ≡ spec.channels
  same_rate : sample_rate ≡ spec.sample_rate
  words : (k : ℕ) × (length payload ≡ k * 4)
  is_frame : frame ≡ record {
    channels = spec.channels;
    sample_rate = spec.sample_rate;
    samples = take_samples payload;
  }

equal_of_not : (m n : ℕ) → not (m == n) ≡ false → m ≡ n
equal_of_not m n h = ground (arith, h)

decode_pcm-IsPayload :
    (payload : List ℕ) (channels sample_rate : ℕ) (spec : FrameSpec) (frame : AudioFrame)
    → decode_pcm payload channels sample_rate spec ≡ ok frame
    → IsPayload payload channels sample_rate spec frame
unfolding decode_pcm
decode_pcm-IsPayload payload channels sample_rate spec frame h =
    let (some_channel, h1) = if_err (channels == 0) _ h in
    let (same_channels, h2) = if_err (not (channels == spec.channels)) _ h1 in
    let (same_rate, h3) = if_err (not (sample_rate == spec.sample_rate)) _ h2 in
    let (some_byte, h4) = if_err (length payload == 0) _ h3 in
    let (whole, h5) = if_err (not (length payload % (channels * 4) == 0)) _ h4 in
    let stride : length payload % (channels * 4) ≡ 0 = equal_of_not _ _ whole in
    record {
      some_channel = ground (arith, some_channel);
      same_channels = equal_of_not _ _ same_channels;
      same_rate = equal_of_not _ _ same_rate;
      words = (
        length payload / (channels * 4) * channels,
        sym (mod-add-div' (length payload) (channels * 4))
            ∙ ap (λ r. r + length payload / (channels * 4) * (channels * 4)) stride
            ∙ omega arith,
      );
      is_frame = sym (ok-injective h5);
    }

-- A build without Opus takes no other tag.
decode_frame-tag :
    (t c r0 r1 r2 r3 : ℕ) (payload : List ℕ) (spec : FrameSpec) (frame : AudioFrame)
    → decode_frame none (t ∷ c ∷ r0 ∷ r1 ∷ r2 ∷ r3 ∷ payload) spec ≡ ok frame
    → (t ≡ 0) × (decode_pcm payload c (from_le32 r0 r1 r2 r3) spec ≡ ok frame)
unfolding decode_frame decode_opus
decode_frame-tag t c r0 r1 r2 r3 payload spec frame h =
    let (long, h1) = if_err (ltb (length (t ∷ c ∷ r0 ∷ r1 ∷ r2 ∷ r3 ∷ payload)) 6) _ h in
    elim (Bool-cases (t == tag_pcm)) [
      | inl pcm ↦ (ground (arith, pcm), rw pcm at h1)
      | inr other ↦
          let h2 = rw other at h1 in
          elim (Bool-cases (t == tag_opus)) [
            | inl opus ↦ absurd (ground (arith, rw opus at h2))
            | inr unknown ↦ absurd (ground (arith, rw unknown at h2))
          ]
    ]

encode_frame-IsPayload :
    (c r0 r1 r2 r3 : ℕ) (payload : List ℕ) (spec : FrameSpec) (frame : AudioFrame)
    → All IsByte (c ∷ r0 ∷ r1 ∷ r2 ∷ r3 ∷ payload)
    → IsPayload payload c (from_le32 r0 r1 r2 r3) spec frame
    → encode_frame frame ≡ ok (0 ∷ c ∷ r0 ∷ r1 ∷ r2 ∷ r3 ∷ payload)
unfolding encode_frame
encode_frame-IsPayload c r0 r1 r2 r3 payload spec frame (hc, (h0, (h1, (h2, (h3, hp))))) p =
    let byte : ltb c 256 ≡ true = ground (arith, hc) in
    let (k, size) = p.words in
    let rate = from_le32 r0 r1 r2 r3 in
    ap encode_frame p.is_frame
    ∙ ap
        (λ ch. encode_frame (record {
          channels = ch;
          sample_rate = spec.sample_rate;
          samples = take_samples payload;
        }))
        (sym p.same_channels)
    ∙ ap
        (λ r.
          encode_frame (record { channels = c; sample_rate = r; samples = take_samples payload }))
        (sym p.same_rate)
    ∙ ap
        (λ b.
          if b
          then ok (0 ∷ c ∷ to_le32 rate ++ put_samples (take_samples payload))
          else err channel_count)
        byte
    ∙ ap (λ xs. ok (0 ∷ c ∷ to_le32 rate ++ xs)) (put_samples-take_samples k payload size hp)
    ∙ ap (λ xs. ok (0 ∷ c ∷ xs ++ payload)) (to_le32-from_le32 r0 r1 r2 r3 h0 h1 h2 h3)

-- Whatever bytes a gateway without Opus decodes to a frame, the frame is encoded to the same bytes.
pub encode_frame-decode_frame :
    (bytes : List ℕ) (spec : FrameSpec) (frame : AudioFrame)
    → All IsByte bytes
    → decode_frame none bytes spec ≡ ok frame
    → encode_frame frame ≡ ok bytes
unfolding decode_frame
encode_frame-decode_frame [] spec frame h d = absurd (ground (arith, d))
encode_frame-decode_frame (t ∷ []) spec frame h d = absurd (ground (arith, d))
encode_frame-decode_frame (t ∷ c ∷ []) spec frame h d = absurd (ground (arith, d))
encode_frame-decode_frame (t ∷ c ∷ r0 ∷ []) spec frame h d = absurd (ground (arith, d))
encode_frame-decode_frame (t ∷ c ∷ r0 ∷ r1 ∷ []) spec frame h d = absurd (ground (arith, d))
encode_frame-decode_frame (t ∷ c ∷ r0 ∷ r1 ∷ r2 ∷ []) spec frame h d = absurd (ground (arith, d))
encode_frame-decode_frame (t ∷ c ∷ r0 ∷ r1 ∷ r2 ∷ r3 ∷ payload) spec frame
      (ht, (hc, (h0, (h1, (h2, (h3, hp)))))) d =
    let (pcm, d') = decode_frame-tag t c r0 r1 r2 r3 payload spec frame d in
    encode_frame-IsPayload c r0 r1 r2 r3 payload spec frame (hc, (h0, (h1, (h2, (h3, hp)))))
      (decode_pcm-IsPayload payload c (from_le32 r0 r1 r2 r3) spec frame d')
    ∙ ap (λ tag. ok (tag ∷ c ∷ r0 ∷ r1 ∷ r2 ∷ r3 ∷ payload)) (sym pcm)
