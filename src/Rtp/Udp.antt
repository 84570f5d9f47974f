-- ===== src/Rtp/Udp.antt =====
-- The send and receive paths of `UdpTransport` in crates/net-rtp-aes67/src/transport.rs. The socket is
-- not part of the state: what it does with a datagram is an argument, and so is what it receives.
pub mod Stream
use sonicbrew.Base.{ℕ, ◌+◌, ◌%◌, ◌^◌, Bool, true, false, List, length}
use sonicbrew.Rtp.Error.{Result, ok, err, network, io, ◌>>=◌}
use sonicbrew.Rtp.Header
use sonicbrew.Rtp.Packet
use sonicbrew.Rtp.Packet.{RtpPacket}
use sonicbrew.Rtp.Payload.{Codec, codec_to_payload_type, timestamp_advance}

pub record UdpTransport : Type 0 where
  pub seq : ℕ
  pub timestamp : ℕ
  pub ssrc : ℕ
  pub channels : ℕ

-- The header that the next packet carries.
unfoldable pub next_header : UdpTransport → Codec → Header.RtpHeader
unfolding Header.new codec_to_payload_type
next_header t codec = Header.new (codec_to_payload_type codec t.channels) t.seq t.timestamp t.ssrc

-- `send_rtp`: the datagram, the new state, and the result for a socket that sends it (`true`) or
-- fails. The state moves on before the socket is asked.
unfoldable pub send_rtp :
    UdpTransport → List ℕ → Codec → Bool → List ℕ × Result (Unit {0}) × UdpTransport
unfolding next_header
send_rtp t payload codec sent = (
  Packet.encode (record { header = next_header t codec; payload = payload }),
  elim sent [ true ↦ ok tt | false ↦ err (network io) ],
  record t {
    seq = (t.seq + 1) % 2 ^ 16;
    timestamp = (t.timestamp + timestamp_advance (length payload) codec t.channels) % 2 ^ 32;
  },
)

-- `recv_rtp_with_seq`, for the datagram that the socket received.
unfoldable pub recv_rtp_with_seq : List ℕ → Result (ℕ × List ℕ)
recv_rtp_with_seq datagram = do
  packet ← Packet.parse datagram
  ok (packet.header.seq, packet.payload)

-- `recv_rtp`
unfoldable pub recv_rtp : List ℕ → Result (List ℕ)
recv_rtp datagram = do packet ← Packet.parse datagram; ok packet.payload
