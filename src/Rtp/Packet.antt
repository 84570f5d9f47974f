-- ===== src/Rtp/Packet.antt =====
-- `RtpPacket` of crates/net-rtp-aes67/src/codec.rs: a header and the bytes behind it.
pub mod RoundTrip
use sonicbrew.Base.{ℕ, List, ◌++◌, length, ltb, drop, if◌then◌else◌}
use sonicbrew.Rtp.Error.{Result, ok, err, network, packet_too_short, ◌>>=◌}
use sonicbrew.Rtp.Header
use sonicbrew.Rtp.Header.{RtpHeader, encoded_len}

pub record RtpPacket : Type 0 where
  pub header : RtpHeader
  pub payload : List ℕ

-- `RtpPacket::encode`
unfoldable pub encode : RtpPacket → List ℕ
encode p = Header.encode p.header ++ p.payload

abbrev split_payload : List ℕ → RtpHeader → Result RtpPacket
split_payload buf header =
    let header_len = encoded_len header in
    if ltb (length buf) header_len
    then err (network (packet_too_short (length buf) header_len))
    else ok (record { header = header; payload = drop header_len buf })

-- `RtpPacket::parse`
unfoldable pub parse : List ℕ → Result RtpPacket
parse buf = do header ← Header.parse buf; split_payload buf header
