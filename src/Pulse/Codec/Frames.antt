-- ===== src/Pulse/Codec/Frames.antt =====
-- The readers of crates/gw-pulse/src/codec.rs on the bytes that the protocol describes.
use sonicbrew.Base.{
  ℕ, ◌+◌, ◌≤◌, ◌≡◌, refl, false, List, ◌∷◌, ◌++◌, ltb, length, take, drop, take-append, drop-append,
  length-append, drop-add, ◌∙◌, arith,
}
use sonicbrew.Base.Bytes.{from_be32, to_be32, be32_roundtrip}
use sonicbrew.Pulse.Codec.{ok, max_len, parse_pa_string, strip_nul}

parse_pa_string-cons :
    (a b c d n : ℕ) (bytes : List ℕ)
    → from_be32 a b c d ≡ n
    → n ≤ max_len
    → n ≤ length bytes
    → parse_pa_string (a ∷ b ∷ c ∷ d ∷ bytes) ≡ ok (strip_nul (take n bytes), drop n bytes)
unfolding parse_pa_string
parse_pa_string-cons a b c d n bytes e small inside =
    let some_prefix : ltb (length (a ∷ b ∷ c ∷ d ∷ bytes)) 4 ≡ false = ground arith in
    let in_limit : ltb max_len n ≡ false = ground (arith, small) in
    let in_buffer : ltb (length (a ∷ b ∷ c ∷ d ∷ bytes)) (4 + n) ≡ false = ground (arith, inside) in
    rw (some_prefix, e, in_limit, in_buffer, drop-add 4 n (a ∷ b ∷ c ∷ d ∷ bytes), parse_pa_string)
      refl

-- A prefix with the length of a text, the text and any further bytes are read as the text without its
-- last NUL byte and those further bytes.
pub parse_pa_string-append :
    (text rest : List ℕ)
    → length text ≤ max_len
    → parse_pa_string (to_be32 (length text) ++ (text ++ rest)) ≡ ok (strip_nul text, rest)
parse_pa_string-append text rest h =
    let inside : length text ≤ length (text ++ rest) = omega (arith, length-append text rest) in
    let prefix = be32_roundtrip (length text) (omega (arith, h)) in
    parse_pa_string-cons _ _ _ _ (length text) (text ++ rest) prefix h inside
    ∙ rw (take-append text rest, drop-append text rest) refl
