-- ===== src/Rtp/Packet/RoundTrip.antt =====
-- A packet of crates/net-rtp-aes67/src/codec.rs sent and read back.
use sonicbrew.Base.{
  ℕ, ◌+◌, ◌*◌, ◌%◌, ◌≡◌, ◌∙◌, List, drop-add, ◌++◌, length, ltb, drop, if◌then◌else◌, arith,
}
use sonicbrew.Rtp.Error.{ok, err, network, packet_too_short}
use sonicbrew.Rtp.Header
use sonicbrew.Rtp.Header.{IsHeader, encoded_len, rtp_header_len, RtpHeader}
use sonicbrew.Rtp.Header.RoundTrip.{on_wire, parse-encode}
use sonicbrew.Rtp.Packet.{RtpPacket, encode, parse}

-- The bytes that the reader takes for the CSRC list.
abbrev pub claimed : RtpPacket → ℕ
claimed p = 4 * (p.header.csrc_count % 16)

drop-encode :
    (h : RtpHeader) (k : ℕ) (xs : List ℕ) → drop (12 + k) (Header.encode h ++ xs) ≡ drop k xs
unfolding Header.encode
drop-encode h k xs = drop-add 12 k (Header.encode h ++ xs)

length-encode_packet :
    (h : RtpHeader) (xs : List ℕ) → length (Header.encode h ++ xs) ≡ 12 + length xs
unfolding Header.encode
length-encode_packet h xs = omega arith

-- The encoder writes no CSRC list and keeps the CSRC count, so the reader takes the first `claimed`
-- bytes of the payload for the list: it returns the rest of the payload, or an error where the
-- payload is shorter than that.
pub parse-encode-claimed :
    (p : RtpPacket)
    → IsHeader p.header
    → parse (encode p) ≡ (
        if ltb (length p.payload) (claimed p)
        then err (
            network
              (packet_too_short (rtp_header_len + length p.payload) (rtp_header_len + claimed p)))
        else ok (record { header = on_wire p.header; payload = drop (claimed p) p.payload }))
unfolding parse encode encoded_len
parse-encode-claimed p valid = rw (parse-encode p.header p.payload valid) (
    ground
      (arith, length-encode_packet p.header p.payload, drop-encode p.header (claimed p) p.payload))

-- With no CSRC identifiers, as in every header that this crate builds, the packet comes back with
-- its whole payload.
pub parse-encode_packet :
    (p : RtpPacket)
    → IsHeader p.header
    → p.header.csrc_count ≡ 0
    → parse (encode p) ≡ ok (record { header = on_wire p.header; payload = p.payload })
parse-encode_packet p valid none_listed =
    let none_claimed : claimed p ≡ 0 = omega arith in
    parse-encode-claimed p valid ∙ rw none_claimed (ground arith)
