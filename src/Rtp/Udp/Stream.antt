-- ===== src/Rtp/Udp/Stream.antt =====
-- What arrives of the packets that crates/net-rtp-aes67/src/transport.rs sends.
use sonicbrew.Base.{ℕ, ◌+◌, ◌%◌, ◌^◌, ◌<◌, ◌≡◌, refl, Bool, List, [], ◌∷◌, map, arith}
use mathlib.Core.Path.{ap₂}
use sonicbrew.Base.Bits.{low_seven}
use sonicbrew.Rtp.Error.{Result, ok}
use sonicbrew.Rtp.Header
use sonicbrew.Rtp.Header.{IsHeader}
use sonicbrew.Rtp.Packet.RoundTrip.{parse-encode_packet}
use sonicbrew.Rtp.Payload.{Codec, custom, codec_to_payload_type}
use sonicbrew.Rtp.Udp.{UdpTransport, next_header, send_rtp, recv_rtp_with_seq}

-- The ranges of the state's Rust types.
pub record IsTransport (t : UdpTransport) : Type 0 where
  pub seq_u16 : t.seq < 2 ^ 16
  pub timestamp_u32 : t.timestamp < 2 ^ 32
  pub ssrc_u32 : t.ssrc < 2 ^ 32

abbrev pub IsCodec : Codec → Type 0
IsCodec (custom n) = n < 2 ^ 8
IsCodec Codec.pcm_l16 = Unit {0}
IsCodec Codec.pcm_l24 = Unit {0}
IsCodec Codec.opus = Unit {0}

payload_type-lt :
    (codec : Codec) (channels : ℕ) → IsCodec codec → codec_to_payload_type codec channels < 2 ^ 8
unfolding codec_to_payload_type
payload_type-lt (custom n) channels h = h
payload_type-lt Codec.pcm_l16 channels h = ground arith
payload_type-lt Codec.pcm_l24 channels h = omega arith
payload_type-lt Codec.opus channels h = omega arith

next_header-IsHeader :
    (t : UdpTransport) (codec : Codec)
    → IsTransport t
    → IsCodec codec
    → IsHeader (next_header t codec)
unfolding next_header Header.new
next_header-IsHeader t codec v h = record {
  version_u8 = omega arith;
  csrc_count_u8 = omega arith;
  payload_type_u8 = omega (
    arith,
    low_seven (codec_to_payload_type codec t.channels) (payload_type-lt codec t.channels h),
  );
  seq_u16 = v.seq_u16;
  timestamp_u32 = v.timestamp_u32;
  ssrc_u32 = v.ssrc_u32;
}

-- Sending keeps the state within its types, whether the socket took the datagram or not.
pub send_rtp-IsTransport :
    (t : UdpTransport) (payload : List ℕ) (codec : Codec) (sent : Bool)
    → IsTransport t
    → IsTransport (send_rtp t payload codec sent).2
unfolding send_rtp
send_rtp-IsTransport t payload codec sent v = omega arith

-- The receiver of a datagram gets the sender's sequence number and the whole payload.
pub recv-send :
    (t : UdpTransport) (payload : List ℕ) (codec : Codec) (sent : Bool)
    → IsTransport t
    → IsCodec codec
    → recv_rtp_with_seq (send_rtp t payload codec sent).0 ≡ ok (t.seq, payload)
unfolding send_rtp recv_rtp_with_seq
recv-send t payload codec sent v h =
    rw
      (parse-encode_packet (record { header = next_header t codec; payload = payload })
        (next_header-IsHeader t codec v h) refl)
      refl

-- The datagrams of a run of sends, each with what the socket does.
unfoldable pub send_all : UdpTransport → Codec → List (List ℕ × Bool) → List (List ℕ)
send_all t codec [] = []
send_all t codec ((payload, sent) ∷ rest) =
    let (datagram, result, t') = send_rtp t payload codec sent in datagram ∷ send_all t' codec rest

-- The payloads with the sequence numbers that they are to have, counted up from `seq`.
abbrev pub numbered : ℕ → List (List ℕ × Bool) → List (Result (ℕ × List ℕ))
numbered seq [] = []
numbered seq ((payload, sent) ∷ rest) = ok (seq, payload) ∷ numbered ((seq + 1) % 2 ^ 16) rest

-- Over any run of sends, failing ones included, the n-th datagram reads back as the n-th payload under
-- the sequence number that lies n after the first, modulo 2 ^ 16.
pub recv-send_all :
    (sends : List (List ℕ × Bool)) (t : UdpTransport) (codec : Codec)
    → IsTransport t
    → IsCodec codec
    → map recv_rtp_with_seq (send_all t codec sends) ≡ numbered t.seq sends
unfolding send_all send_rtp
recv-send_all [] t codec v h = refl
recv-send_all ((payload, sent) ∷ rest) t codec v h = ap₂ ◌∷◌ (recv-send t payload codec sent v h) (
    recv-send_all rest (send_rtp t payload codec sent).2 codec
      (send_rtp-IsTransport t payload codec sent v) h)
