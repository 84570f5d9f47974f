-- ===== src/Pulse/Reader.antt =====
-- `TagReader` of crates/gw-pulse/src/tags.rs. A reading step returns its value or its error, and the
-- reader with the position where it ended.
pub mod RoundTrip
pub mod Text
pub mod Volumes
pub mod Proplist
pub mod Message
pub mod Server
use sonicbrew.Base.{
  ℕ, suc, zero, ◌+◌, ◌-◌, ◌*◌, ◌^◌, Bool, true, false, ◌&&◌, Option, none, some, List, [], ◌∷◌,
  ◌++◌, ltb, leb, ◌==◌, if◌then◌else◌, length, take, drop, get_elem?,
}
use sonicbrew.Base.Bytes.{from_be32, from_be64, byte_at}
use sonicbrew.Pulse.Codec.{
  PulseError, truncated, invalid_tag, oversized, invalid_utf8, Result, ok, err, max_len, be32_at,
}
use sonicbrew.Pulse.Tags.{
  tag_u32, tag_u8, tag_boolean_true, tag_boolean_false, tag_string, tag_string_null, tag_arbitrary,
  tag_u64, tag_proplist, tag_volume, tag_sample_spec, tag_channel_map, tag_cvolume,
}

pub record TagReader : Type 0 where
  pub buf : List ℕ
  pub pos : ℕ

abbrev pub Read : Type 0 → Type 0
Read A = TagReader → Result A × TagReader

abbrev pub and_then : {A B : Type 0} → (A → Read B) → Result A × TagReader → Result B × TagReader
and_then f (ok a, r) = f a r
and_then f (err e, r) = (err e, r)

infixl 5 ◌>>=◌
abbrev pub ◌>>=◌ : {A B : Type 0} → Read A → (A → Read B) → Read B
(m >>= f) r = and_then f (m r)

abbrev pub pure : {A : Type 0} → A → Read A
pure a r = (ok a, r)

abbrev pub fail : {A : Type 0} → PulseError → Read A
fail e r = (err e, r)

-- `TagReader::new`
abbrev pub new : List ℕ → TagReader
new buf = record { buf = buf; pos = 0 }

unfoldable pub remaining : TagReader → ℕ
remaining r = length r.buf - r.pos

-- `take`, where the end of a sum of two `usize` is checked.
unfoldable pub take_bytes : ℕ → Read (List ℕ)
take_bytes n r =
    if leb (2 ^ 64) (r.pos + n)
    then (err oversized, r)
    else if ltb (length r.buf) (r.pos + n)
    then (err truncated, r)
    else (ok (take n (drop r.pos r.buf)), record r { pos = r.pos + n })

abbrev peeked : Option ℕ → Result ℕ
peeked none = err truncated
peeked (some b) = ok b

unfoldable pub peek_byte : Read ℕ
peek_byte r = (peeked (get_elem? r.buf r.pos), r)

-- `self.take(1)?[0]`
unfoldable pub take_byte : Read ℕ
unfolding take_bytes
take_byte = do bytes ← take_bytes 1; pure (byte_at bytes 0)

unfoldable pub expect_tag : ℕ → Read (Unit {0})
unfolding take_byte
expect_tag expected = do
  byte ← take_byte
  if byte == expected then pure tt else fail (invalid_tag byte)

unfoldable pub read_u32 : Read ℕ
unfolding expect_tag take_bytes
read_u32 = do _ ← expect_tag tag_u32; bytes ← take_bytes 4; pure (be32_at bytes 0)

unfoldable pub read_u8 : Read ℕ
unfolding expect_tag take_byte
read_u8 = do _ ← expect_tag tag_u8; take_byte

unfoldable pub read_boolean : Read Bool
unfolding take_byte
read_boolean = do
  byte ← take_byte
  if byte == tag_boolean_true
      then pure true
      else if byte == tag_boolean_false
      then pure false
      else fail (invalid_tag byte)

-- `iter().position(|&b| b == 0)`
unfoldable pub position_nul : List ℕ → Option ℕ
position_nul [] = none
position_nul (b ∷ bs) =
    let rest = position_nul bs in
    if b == 0 then some 0 else elim rest [ none ↦ none | some i ↦ some (suc i) ]

-- A check for UTF-8: how many bytes are still due, and the range of the next one.
abbrev due : ℕ → Option (ℕ × ℕ × ℕ)
due b =
    if ltb b 0x80
    then some (0, 0, 0)
    else if ltb b 0xC2
    then none
    else if ltb b 0xE0
    then some (1, 0x80, 0xBF)
    else if b == 0xE0
    then some (2, 0xA0, 0xBF)
    else if b == 0xED
    then some (2, 0x80, 0x9F)
    else if ltb b 0xF0
    then some (2, 0x80, 0xBF)
    else if b == 0xF0
    then some (3, 0x90, 0xBF)
    else if ltb b 0xF4
    then some (3, 0x80, 0xBF)
    else if b == 0xF4
    then some (3, 0x80, 0x8F)
    else none

unfoldable pub is_utf8_from : ℕ → ℕ → ℕ → List ℕ → Bool
is_utf8_from zero lo hi [] = true
is_utf8_from (suc n) lo hi [] = false
is_utf8_from zero lo hi (b ∷ bs) = elim (due b) [
  | none ↦ false
  | some (n, lo', hi') ↦ is_utf8_from n lo' hi' bs
]
is_utf8_from (suc n) lo hi (b ∷ bs) = leb lo b && leb b hi && is_utf8_from n 0x80 0xBF bs

-- `std::str::from_utf8` succeeds
abbrev pub is_utf8 : List ℕ → Bool
is_utf8 bytes = is_utf8_from 0 0 0 bytes

-- The body of a string, after its tag.
unfoldable pub read_text : Read (List ℕ)
unfolding position_nul
read_text r = elim (position_nul (drop r.pos r.buf)) [
  | none ↦ (err truncated, r)
  | some nul ↦
      if ltb max_len nul
      then (err oversized, r)
      else if is_utf8 (take nul (drop r.pos r.buf))
      then (ok (take nul (drop r.pos r.buf)), record r { pos = r.pos + nul + 1 })
      else (err invalid_utf8, r)
]

unfoldable pub read_string : Read (Option (List ℕ))
unfolding take_byte read_text
read_string = do
  byte ← take_byte
  if byte == tag_string_null
      then pure none
      else if byte == tag_string
      then (do text ← read_text; pure (some text))
      else fail (invalid_tag byte)

unfoldable pub read_arbitrary : Read (List ℕ)
unfolding expect_tag take_bytes
read_arbitrary = do
  _ ← expect_tag tag_arbitrary
  len_bytes ← take_bytes 4
  if ltb max_len (be32_at len_bytes 0) then fail oversized else take_bytes (be32_at len_bytes 0)

unfoldable pub read_u64 : Read ℕ
unfolding expect_tag take_bytes
read_u64 = do
  _ ← expect_tag tag_u64
  b ← take_bytes 8
  pure (
      from_be64 (byte_at b 0) (byte_at b 1) (byte_at b 2) (byte_at b 3) (byte_at b 4) (byte_at b 5)
        (byte_at b 6) (byte_at b 7))

unfoldable pub read_sample_spec : Read (ℕ × ℕ × ℕ)
unfolding expect_tag take_bytes
read_sample_spec = do
  _ ← expect_tag tag_sample_spec
  bytes ← take_bytes 6
  pure (be32_at bytes 2, byte_at bytes 1, byte_at bytes 0)

unfoldable pub read_volume : Read ℕ
unfolding expect_tag take_bytes
read_volume = do _ ← expect_tag tag_volume; bytes ← take_bytes 4; pure (be32_at bytes 0)

-- The words of `bytes` at `i * 4` for `i` below a count.
unfoldable pub words : ℕ → List ℕ → List ℕ
words zero bytes = []
words (suc n) bytes = be32_at bytes 0 ∷ words n (drop 4 bytes)

unfoldable pub read_cvolume : Read (List ℕ)
unfolding expect_tag take_byte take_bytes words
read_cvolume = do
  _ ← expect_tag tag_cvolume
  count ← take_byte
  if ltb max_len count
      then fail oversized
      else (do bytes ← take_bytes (count * 4); pure (words count bytes))

unfoldable pub read_channel_map : Read (List ℕ)
unfolding expect_tag take_byte take_bytes
read_channel_map = do _ ← expect_tag tag_channel_map; count ← take_byte; take_bytes count
