-- ===== src/Rtp/Pcm/Tests.antt =====
-- The PCM framing of crates/net-rtp-aes67 at concrete samples, with whole numbers for the floats: a
-- sample stands for its sign at full scale.
use sonicbrew.Base.{
  ℕ, zero, suc, ◌*◌, ◌/◌, ◌≡◌, refl, some, List, [], ◌∷◌, length, get_elem?, arith,
}
use sonicbrew.Base.Int.{ℤ, pos, negsuc}
use sonicbrew.Rtp.Pcm.{
  Float, quantize, restore, pack24, encode_channels, encode_frames, encode_pcm, encode_l16,
  decode_l16, encode_l24, decode_l24, l16_full_scale, l16_decode_div, l24_full_scale,
  l24_decode_div,
}
use sonicbrew.Rtp.Pcm.RoundTrip.{IsWithin, decode_pcm-encode_pcm}

abbrev sign : ℤ → ℤ
sign (pos zero) = pos 0
sign (pos (suc n)) = pos 1
sign (negsuc n) = negsuc 0

abbrev negated : ℤ → ℤ
negated (pos zero) = pos 0
negated (pos (suc n)) = negsuc n
negated (negsuc n) = pos (suc n)

abbrev times_sign : ℤ → ℤ → ℤ
times_sign (pos zero) s = pos 0
times_sign (pos (suc n)) s = s
times_sign (negsuc n) s = negated s

abbrev whole : Float ℤ
whole = record {
  literal = λ x. x;
  clamp = λ x lo hi. sign x;
  mul = times_sign;
  div = λ x y. x;
  round = λ x. x;
  as_i32 = λ x. x;
  of_i32 = λ x. x;
}

quantize-IsWithin : (scale : ℕ) (y : ℤ) → IsWithin scale (quantize whole scale y)
quantize-IsWithin scale (pos zero) = omega arith
quantize-IsWithin scale (pos (suc n)) = omega arith
quantize-IsWithin zero (negsuc n) = omega arith
quantize-IsWithin (suc scale) (negsuc n) = omega arith

-- Two channels of two samples.
abbrev planar : List ℤ
planar = pos 1 ∷ pos 0 ∷ negsuc 0 ∷ pos 5 ∷ []

interleaved :
    encode_l24 whole planar 2
    ≡ 0x7F ∷ 0xFF ∷ 0xFF ∷ 0x80 ∷ 0 ∷ 1 ∷ 0 ∷ 0 ∷ 0 ∷ 0x7F ∷ 0xFF ∷ 0xFF ∷ []
unfolding encode_l24 encode_pcm encode_frames encode_channels pack24
interleaved = refl

decode_pcm-encode_pcm_example :
    let l16 = decode_l16 whole (encode_l16 whole planar 2) 2 in
    let l24 = decode_l24 whole (encode_l24 whole planar 2) 2 in
    (length l16 ≡ 2 * (length planar / 2))
    × (get_elem? l16 2
        ≡ some (restore whole l16_decode_div (quantize whole l16_full_scale (negsuc 0))))
    × (length l24 ≡ 2 * (length planar / 2))
    × (get_elem? l24 2
        ≡ some (restore whole l24_decode_div (quantize whole l24_full_scale (negsuc 0))))
decode_pcm-encode_pcm_example =
    decode_pcm-encode_pcm whole planar 2 2 (negsuc 0) (quantize-IsWithin l16_full_scale (negsuc 0))
      (quantize-IsWithin l24_full_scale (negsuc 0)) (omega arith) (omega arith) refl
