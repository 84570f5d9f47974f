-- ===== src/Rtp/Pcm/RoundTrip.antt =====
-- Samples that crates/net-rtp-aes67/src/codec.rs writes as L16 or L24 and reads back.
use sonicbrew.Base.{
  ℕ, zero, suc, ◌+◌, ◌-◌, ◌*◌, ◌/◌, ◌%◌, ◌^◌, ◌<◌, ◌≤◌, ◌≡◌, refl, ap, ◌∙◌, true, false, some, List,
  [], ◌∷◌, length, length-replicate, get_elem?, get_or, drop, replicate, ltb, ◌==◌, arith,
}
use native.Mathlib.Nat.{mul_comm, mul-zero, mul-div_cancel, zero-mul}
use mathlib.Core.Path.{subst}
use sonicbrew.Base.Bytes.{from_be16}
use sonicbrew.Base.Int.{ℤ, pos, negsuc}
use sonicbrew.Rtp.Pcm.{
  Float, quantize, restore, nought, pack16, unpack16, pack24, unpack24, encode_frames, encode_pcm,
  decode_pcm, encode_l16, decode_l16, encode_l24, decode_l24, l16_full_scale, l16_decode_div,
  l24_full_scale, l24_decode_div,
}
use sonicbrew.Rtp.Pcm.Interleave.{decode_frames-Block, Block-place, length-encode_frames}

-- A whole number from minus a bound to the bound.
abbrev pub IsWithin : ℕ → ℤ → Type 0
IsWithin bound (pos n) = n ≤ bound
IsWithin bound (negsuc n) = n < bound

unpack16-pack16 : (s : ℤ) → IsWithin l16_full_scale s → unpack16 (pack16 s) ≡ s
unfolding pack16 unpack16
unpack16-pack16 (pos n) h =
    let same : from_be16 (n % 2 ^ 16 / 256 % 256) (n % 2 ^ 16 % 256) ≡ n = omega (arith, h) in
    let small : ltb n (2 ^ 15) ≡ true = ground (arith, h) in rw (same, small) refl
unpack16-pack16 (negsuc n) h =
    let w = 2 ^ 16 - 1 - n % 2 ^ 16 in
    let same : from_be16 (w / 256 % 256) (w % 256) ≡ 2 ^ 16 - 1 - n = omega (arith, h) in
    let large : ltb (2 ^ 16 - 1 - n) (2 ^ 15) ≡ false = ground (arith, h) in
    let back : 2 ^ 16 - (2 ^ 16 - 1 - n) - 1 ≡ n = omega (arith, h) in rw (same, large, back) refl

-- The number that three bytes of a number hold.
abbrev raw24 : ℕ → ℕ
raw24 w = (w / 2 ^ 16 % 2 ^ 8 * 2 ^ 8 + w / 2 ^ 8 % 2 ^ 8) * 2 ^ 8 + w % 2 ^ 8

unpack24-pack24 : (s : ℤ) → IsWithin l24_full_scale s → unpack24 (pack24 s) ≡ s
unfolding pack24 unpack24
unpack24-pack24 (pos n) h =
    let same : raw24 (n % 2 ^ 24) ≡ n = omega (arith, h) in
    let small : ltb n (2 ^ 23) ≡ true = ground (arith, h) in rw (same, small) refl
unpack24-pack24 (negsuc n) h =
    let same : raw24 (2 ^ 24 - 1 - n % 2 ^ 24) ≡ 2 ^ 24 - 1 - n = omega (arith, h) in
    let large : ltb (2 ^ 24 - 1 - n) (2 ^ 23) ≡ false = ground (arith, h) in
    let back : 2 ^ 24 - (2 ^ 24 - 1 - n) - 1 ≡ n = omega (arith, h) in rw (same, large, back) refl

some_frames : (j ch m : ℕ) → j < ch * m → 0 < m
some_frames j ch zero h = absurd (omega (arith, subst (λ k. j < k) (mul-zero ch) h))
some_frames j ch (suc m) h = omega arith

get_or-some :
    {A : Type 0} (xs : List A) (i : ℕ) (d : A) {x : A} → get_elem? xs i ≡ some x → get_or xs i d ≡ x
get_or-some [] i d h = absurd (ground (arith, h))
get_or-some (y ∷ xs) zero d h = ground (arith, h)
get_or-some (y ∷ xs) (suc i) d h = get_or-some xs i d h

length-pack16 : (s : ℤ) → length (pack16 s) ≡ 2
unfolding pack16
length-pack16 s = refl

length-pack24 : (s : ℤ) → length (pack24 s) ≡ 3
unfolding pack24
length-pack24 s = refl

module _ {F : Type 0} (float : Float F) where
  decode_pcm_sample :
      (frames : List F) (ch full_scale decode_div width : ℕ) (pack : ℤ → List ℕ)
      (unpack : List ℕ → ℤ) (j : ℕ)
      → ((s : ℤ) → length (pack s) ≡ width)
      → 0 < ch
      → 0 < width
      → j < ch * (length frames / ch)
      → let out =
          decode_pcm float
            (encode_pcm float frames ch full_scale pack)
            ch
            decode_div
            width
            unpack in
        (length out ≡ ch * (length frames / ch))
        × (get_elem? out j
            ≡ some (
                restore float decode_div
                  (unpack (pack (quantize float full_scale (get_or frames j (nought float)))))))
  unfolding decode_pcm encode_pcm
  decode_pcm_sample frames ch full_scale decode_div width pack unpack j sized some_ch wide inside =
      let n = length frames / ch in
      let bytes = encode_frames float frames ch n full_scale pack n 0 in
      let not_zero : (ch == 0) ≡ false = ground (arith, some_ch) in
      let size : length bytes ≡ n * ch * width =
        length-encode_frames float frames ch n full_scale decode_div width pack unpack sized n 0 in
      let count : length bytes / width / ch ≡ n =
        ap (λ m. m / width / ch) size
        ∙ ap (λ m. m / ch) (mul-div_cancel (n * ch) wide)
        ∙ mul-div_cancel n some_ch in
      let out = replicate (n * ch) (nought float) in
      let room = length-replicate (n * ch) (nought float) ∙ mul_comm n ch in
      let block =
        decode_frames-Block float frames ch n full_scale decode_div width pack unpack sized bytes n
          0 out (omega arith) room
          (ap (λ m. drop m bytes) (ap (λ m. m * width) (zero-mul ch) ∙ zero-mul width)) in
      rw (not_zero, count)
        (
          block.size ∙ room,
          Block-place float frames ch n full_scale decode_div width pack unpack sized out _ j
              (some_frames j ch n inside) block inside,
        )

  -- For a sample whose scaling and rounding, after the clamp, give at most the full scale of 16 and of 24
  -- bits: for any number of channels
  -- but 0, what is encoded as L16 or as L24 and decoded again has as many samples as there are in whole
  -- frames, in the planar order of the input, and that sample is at its place, quantized once and
  -- scaled back.
  pub decode_pcm-encode_pcm :
      (frames : List F) (ch j : ℕ) (x : F)
      → IsWithin l16_full_scale (quantize float l16_full_scale x)
      → IsWithin l24_full_scale (quantize float l24_full_scale x)
      → 0 < ch
      → j < ch * (length frames / ch)
      → get_elem? frames j ≡ some x
      → let l16 = decode_l16 float (encode_l16 float frames ch) ch in
        let l24 = decode_l24 float (encode_l24 float frames ch) ch in
        (length l16 ≡ ch * (length frames / ch))
        × (get_elem? l16 j ≡ some (restore float l16_decode_div (quantize float l16_full_scale x)))
        × (length l24 ≡ ch * (length frames / ch))
        × (get_elem? l24 j ≡ some (restore float l24_decode_div (quantize float l24_full_scale x)))
  unfolding encode_l16 decode_l16 encode_l24 decode_l24
  decode_pcm-encode_pcm frames ch j x within16 within24 some_ch inside at =
      let read = get_or-some frames j (nought float) at in
      let (size16, got16) =
        decode_pcm_sample frames ch l16_full_scale l16_decode_div 2 pack16 unpack16 j length-pack16
          some_ch (omega arith) inside in
      let (size24, got24) =
        decode_pcm_sample frames ch l24_full_scale l24_decode_div 3 pack24 unpack24 j length-pack24
          some_ch (omega arith) inside in
      (
        size16,
        got16
            ∙ ap
                (λ y. some (
                  restore float l16_decode_div
                    (unpack16 (pack16 (quantize float l16_full_scale y)))))
                read
            ∙ ap (λ s. some (restore float l16_decode_div s)) (unpack16-pack16 _ within16),
        size24,
        got24
            ∙ ap
                (λ y. some (
                  restore float l24_decode_div
                    (unpack24 (pack24 (quantize float l24_full_scale y)))))
                read
            ∙ ap (λ s. some (restore float l24_decode_div s)) (unpack24-pack24 _ within24),
      )
