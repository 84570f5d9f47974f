-- ===== src/Rtp/Header/RoundTrip.antt =====
-- Encoding and parsing of the header in crates/net-rtp-aes67/src/codec.rs undo one another.
use sonicbrew.Base.{
  ℕ, ◌%◌, ◌<◌, ◌≡◌, refl, List, ◌∷◌, ◌++◌, length, arith, Bool, true, not, ◌||◌, ◌==◌, ==_iff, All,
  take,
}
use sonicbrew.Base.Table.{passes, passes_at}
use sonicbrew.Base.Bytes.{
  be16_roundtrip, be32_roundtrip, IsByte, to_be16-from_be16, to_be32-from_be32,
}
use sonicbrew.Rtp.Error.{ok}
use sonicbrew.Rtp.Header.{
  RtpHeader, IsHeader, parse, encode, byte0, byte1, version_of, padding_of, extension_of,
  csrc_count_of, marker_of, payload_type_of, rtp_version, rtp_header_len,
}
use sonicbrew.Rtp.Header.Fields.{byte0-ReadsFlags, byte1-marker, byte1-payload_type}

-- What a header becomes on the wire: version 2, the low four bits of the CSRC count, the low seven
-- bits of the payload type, and every other field as it was.
abbrev pub on_wire : RtpHeader → RtpHeader
on_wire h = record h {
  version = rtp_version;
  csrc_count = h.csrc_count % 16;
  payload_type = h.payload_type % 128;
}

length-encode : (h : RtpHeader) → length (encode h) ≡ rtp_header_len
unfolding encode
length-encode h = refl

-- Parsing the encoding of any header, whatever bytes follow, gives back its form on the wire.
pub parse-encode :
    (h : RtpHeader) (rest : List ℕ) → IsHeader h → parse (encode h ++ rest) ≡ ok (on_wire h)
unfolding parse encode
parse-encode h rest valid =
    let flags = byte0-ReadsFlags h.padding h.extension h.csrc_count valid.csrc_count_u8 in
    ground (
      arith,
      flags.version,
      flags.padding,
      flags.extension,
      flags.csrc_count,
      byte1-marker h.marker h.payload_type,
      byte1-payload_type h.marker h.payload_type,
      be16_roundtrip h.seq,
      be32_roundtrip h.timestamp,
      be32_roundtrip h.ssrc,
    )

byte0_table :
    passes 256
      (λ b. not (version_of b == 2) || byte0 (padding_of b) (extension_of b) (csrc_count_of b) == b)
    ≡ true
unfolding passes byte0
byte0_table = refl

byte1_table : passes 256 (λ b. byte1 (marker_of b) (payload_type_of b) == b) ≡ true
unfolding passes byte1
byte1_table = refl

byte0-fields :
    (b : ℕ)
    → b < 256
    → version_of b ≡ 2
    → byte0 (padding_of b) (extension_of b) (csrc_count_of b) ≡ b
byte0-fields b h v =
    (==_iff _ _).0 (second _ _ ((==_iff _ _).1 v) (passes_at 256 _ b byte0_table h))
  where
    second : (x y : Bool) → x ≡ true → (not x || y) ≡ true → y ≡ true
    second x y e f = ground arith

byte1-fields : (b : ℕ) → b < 256 → byte1 (marker_of b) (payload_type_of b) ≡ b
byte1-fields b h = (==_iff _ _).0 (passes_at 256 _ b byte1_table h)

-- A header that `parse` accepts encodes to the first twelve bytes that it was read from.
pub encode-parse :
    (buf : List ℕ) (h : RtpHeader)
    → All IsByte buf
    → parse buf ≡ ok h
    → encode h ≡ take rtp_header_len buf
unfolding parse encode
encode-parse (a ∷ b ∷ c ∷ d ∷ e ∷ f ∷ g ∷ i ∷ j ∷ k ∷ l ∷ m ∷ rest) h bytes p = ground (
  arith,
  byte0-fields a,
  byte1-fields b,
  to_be16-from_be16 c d,
  to_be32-from_be32 e f g i,
  to_be32-from_be32 j k l m,
)
encode-parse _ h bytes p = cc
