-- ===== src/Rtp/Header.antt =====
-- `RtpHeader` of crates/net-rtp-aes67/src/codec.rs: the 12-byte fixed header of RFC 3550. A byte is a
-- number below 256; `>> k` is `/ 2 ^ k` and `<< k` on a byte is `* 2 ^ k % 256`.
pub mod Fields
pub mod RoundTrip
use sonicbrew.Base.{
  ℕ, ◌+◌, ◌*◌, ◌/◌, ◌%◌, ◌^◌, ◌<◌, bit_and, bit_or, Bool, true, false, not, List, [], ◌∷◌, ◌++◌,
  length, ltb, ◌==◌, if◌then◌else◌,
}
use sonicbrew.Base.Bytes.{from_be16, from_be32, to_be16, to_be32, byte_at}
use sonicbrew.Rtp.Error.{Result, ok, err, network, header_truncated, bad_version}

abbrev pub rtp_version : ℕ
rtp_version = 2

abbrev pub rtp_header_len : ℕ
rtp_header_len = 12

pub record RtpHeader : Type 0 where
  pub version : ℕ
  pub padding : Bool
  pub extension : Bool
  pub csrc_count : ℕ
  pub marker : Bool
  pub payload_type : ℕ
  pub seq : ℕ
  pub timestamp : ℕ
  pub ssrc : ℕ

-- The ranges of the fields' Rust types.
pub record IsHeader (h : RtpHeader) : Type 0 where
  pub version_u8 : h.version < 2 ^ 8
  pub csrc_count_u8 : h.csrc_count < 2 ^ 8
  pub payload_type_u8 : h.payload_type < 2 ^ 8
  pub seq_u16 : h.seq < 2 ^ 16
  pub timestamp_u32 : h.timestamp < 2 ^ 32
  pub ssrc_u32 : h.ssrc < 2 ^ 32

-- `RtpHeader::new`
unfoldable pub new : ℕ → ℕ → ℕ → ℕ → RtpHeader
new payload_type seq timestamp ssrc = record {
  version = rtp_version;
  padding = false;
  extension = false;
  csrc_count = 0;
  marker = false;
  payload_type = bit_and payload_type 0x7F;
  seq = seq;
  timestamp = timestamp;
  ssrc = ssrc;
}

-- The fields that `parse` reads from bytes 0 and 1.
abbrev pub version_of : ℕ → ℕ
version_of b = bit_and (b / 2 ^ 6) 0x03

abbrev pub padding_of : ℕ → Bool
padding_of b = not (bit_and (b / 2 ^ 5) 0x01 == 0)

abbrev pub extension_of : ℕ → Bool
extension_of b = not (bit_and (b / 2 ^ 4) 0x01 == 0)

abbrev pub csrc_count_of : ℕ → ℕ
csrc_count_of b = bit_and b 0x0F

abbrev pub marker_of : ℕ → Bool
marker_of b = not (bit_and (b / 2 ^ 7) 0x01 == 0)

abbrev pub payload_type_of : ℕ → ℕ
payload_type_of b = bit_and b 0x7F

abbrev pub fields_of : List ℕ → RtpHeader
fields_of buf = record {
  version = version_of (byte_at buf 0);
  padding = padding_of (byte_at buf 0);
  extension = extension_of (byte_at buf 0);
  csrc_count = csrc_count_of (byte_at buf 0);
  marker = marker_of (byte_at buf 1);
  payload_type = payload_type_of (byte_at buf 1);
  seq = from_be16 (byte_at buf 2) (byte_at buf 3);
  timestamp = from_be32 (byte_at buf 4) (byte_at buf 5) (byte_at buf 6) (byte_at buf 7);
  ssrc = from_be32 (byte_at buf 8) (byte_at buf 9) (byte_at buf 10) (byte_at buf 11);
}

-- `RtpHeader::parse`
unfoldable pub parse : List ℕ → Result RtpHeader
parse buf =
    if ltb (length buf) rtp_header_len
    then err (network (header_truncated (length buf)))
    else if not (version_of (byte_at buf 0) == rtp_version)
    then err (network (bad_version (version_of (byte_at buf 0))))
    else ok (fields_of buf)

-- `u8::from(bool)`
abbrev pub u8_of : Bool → ℕ
u8_of true = 1
u8_of false = 0

-- The two bytes that `encode` assembles from flags and counts.
unfoldable pub byte0 : Bool → Bool → ℕ → ℕ
byte0 padding extension csrc_count =
    bit_or
      (bit_or (bit_or (rtp_version * 2 ^ 6 % 256) (u8_of padding * 2 ^ 5 % 256))
        (u8_of extension * 2 ^ 4 % 256))
      (bit_and csrc_count 0x0F)

unfoldable pub byte1 : Bool → ℕ → ℕ
byte1 marker payload_type = bit_or (u8_of marker * 2 ^ 7 % 256) (bit_and payload_type 0x7F)

-- `RtpHeader::encode`
unfoldable pub encode : RtpHeader → List ℕ
encode h =
    byte0 h.padding h.extension h.csrc_count
    ∷ byte1 h.marker h.payload_type
    ∷ (to_be16 h.seq ++ (to_be32 h.timestamp ++ to_be32 h.ssrc))

-- `RtpHeader::encoded_len`
unfoldable pub encoded_len : RtpHeader → ℕ
encoded_len h = rtp_header_len + 4 * h.csrc_count
