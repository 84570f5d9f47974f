-- ===== src/Rtp/Tests.antt =====
-- The properties of crates/net-rtp-aes67 at concrete inputs, and runs of the code.
use sonicbrew.Base.{
  All, ◌≤◌, ◌++◌, ℕ, ◌+◌, ◌≡◌, refl, Bool, true, false, some, List, [], ◌∷◌, map, arith,
}
use sonicbrew.Base.HashMap
use sonicbrew.Rtp.Error.{ok}
use sonicbrew.Rtp.Header
use sonicbrew.Rtp.Header.{RtpHeader, IsHeader}
use sonicbrew.Rtp.Header.RoundTrip.{on_wire}
use sonicbrew.Rtp.Packet
use sonicbrew.Rtp.Packet.{RtpPacket}
use sonicbrew.Rtp.Packet.RoundTrip.{parse-encode-claimed, parse-encode_packet}
use sonicbrew.Rtp.Payload.{pcm_l16}
use sonicbrew.Rtp.Udp.{UdpTransport, recv_rtp_with_seq}
use sonicbrew.Rtp.Udp.Stream.{IsTransport, send_all, numbered, recv-send_all}
use sonicbrew.Rtp.Jitter.{JitterBuffer, push, pop, skip_gap, closest, forward_distance}
use sonicbrew.Rtp.Jitter.Invariant.{IsValid, push-IsValid, pop-IsValid}
use sonicbrew.Rtp.Jitter.Skip.{skip_gap-IsValid, pop-skip_gap}
use sonicbrew.Rtp.Jitter.Order.{Op, push_op, pop_op, skip_op, run, step, Emits, run-Emits}
use sonicbrew.Rtp.Worker.{drain_jitter, recv_frames}
use sonicbrew.Rtp.Worker.Drain.{Drained, drain_jitter-Drained}
use sonicbrew.Rtp.Worker.Late.{waiting, recv_all, recv-reorder_lost, recv_all-in_order}

abbrev plain : RtpHeader
plain = record {
  version = 2;
  padding = false;
  extension = true;
  csrc_count = 0;
  marker = true;
  payload_type = 96;
  seq = 0x1234;
  timestamp = 0xDEAD_BEEF;
  ssrc = 0x0A0B_0C0D;
}

plain-IsHeader : IsHeader plain
plain-IsHeader = omega arith

abbrev listed : RtpHeader
listed = record plain { csrc_count = 1 }

listed-IsHeader : IsHeader listed
listed-IsHeader = omega arith

abbrev wire : List ℕ
wire = 0x80 ∷ 0x60 ∷ 0 ∷ 1 ∷ 0 ∷ 0 ∷ 0 ∷ 2 ∷ 0 ∷ 0 ∷ 0 ∷ 3 ∷ 7 ∷ []

wire_parsed : Header.parse wire ≡ ok (Header.new 96 1 2 3)
unfolding Header.parse Header.new
wire_parsed = refl

abbrev five_bytes : RtpPacket
five_bytes = record { header = plain; payload = 1 ∷ 2 ∷ 3 ∷ 4 ∷ 5 ∷ [] }

abbrev with_source : RtpPacket
with_source = record five_bytes { header = listed }

parse-encode-claimed_example :
    Packet.parse (Packet.encode with_source)
    ≡ ok (record { header = on_wire listed; payload = 5 ∷ [] })
parse-encode-claimed_example = parse-encode-claimed with_source listed-IsHeader

parse-encode_packet_example :
    Packet.parse (Packet.encode five_bytes)
    ≡ ok (record { header = on_wire plain; payload = 1 ∷ 2 ∷ 3 ∷ 4 ∷ 5 ∷ [] })
parse-encode_packet_example = parse-encode_packet five_bytes plain-IsHeader refl

abbrev sender : UdpTransport
sender = record { seq = 65535; timestamp = 0; ssrc = 9; channels = 2 }

sender-IsTransport : IsTransport sender
sender-IsTransport = omega arith

abbrev sends : List (List ℕ × Bool)
sends = (1 ∷ 2 ∷ 3 ∷ 4 ∷ [], true) ∷ (5 ∷ [], false) ∷ ([], true) ∷ []

recv-send_all_example : map recv_rtp_with_seq (send_all sender pcm_l16 sends) ≡ numbered 65535 sends
recv-send_all_example = recv-send_all sends sender pcm_l16 sender-IsTransport tt

abbrev held : JitterBuffer ℕ
held = record { next_seq = some 65534; buf = (1, 11) ∷ (65535, 10) ∷ []; capacity = 4 }

held-IsValid : IsValid held
unfolding HashMap.contains_key
held-IsValid = record { bounded = omega arith; distinct = (refl, (refl, tt)); window = omega arith }

push-IsValid_example : IsValid (push held 0 12).1
push-IsValid_example = push-IsValid held 0 12 (omega arith) held-IsValid

pop-IsValid_example : IsValid (pop held).1
pop-IsValid_example = pop-IsValid held held-IsValid

skip_gap-IsValid_example : IsValid (skip_gap held).1
skip_gap-IsValid_example = skip_gap-IsValid held held-IsValid

pop-skip_gap_example : (p : ℕ × ℕ) × ((pop (skip_gap held).1).0 ≡ some p)
pop-skip_gap_example = pop-skip_gap held held-IsValid (omega arith)

abbrev script : List (Op ℕ)
script = push_op 0 12 ∷ skip_op ∷ pop_op ∷ pop_op ∷ push_op 65535 9 ∷ pop_op ∷ []

run-script : run script held ≡ (65535, 10) ∷ (0, 12) ∷ (1, 11) ∷ []
unfolding run step push pop skip_gap closest forward_distance HashMap.get HashMap.remove
    HashMap.insert HashMap.contains_key
run-script = refl

-- The payloads are those that were pushed or held.
abbrev IsKnown : ℕ × ℕ → Type 0
IsKnown p = (9 ≤ p.1) × (p.1 ≤ 12)

run-Emits_example : Emits 65534 0 (run script held) × All IsKnown (run script held)
run-Emits_example =
    run-Emits script held 65534 (omega arith) (omega arith) held-IsValid refl IsKnown (omega arith)
      (omega arith)

drain_jitter-Drained_example :
    Drained
      (λ (n : ℕ). n + 1)
      held
      (drain_jitter (λ (n : ℕ). n + 1) held).0
      (drain_jitter (λ (n : ℕ). n + 1) held).1
drain_jitter-Drained_example = drain_jitter-Drained (λ (n : ℕ). n + 1) held held-IsValid

recv-reorder_lost_example :
    let (first, jb) = recv_frames (λ (n : ℕ). n) (waiting 5 64) 7 70 in
    let (second, jb') = recv_frames (λ (n : ℕ). n) jb 6 60 in
    (first ≡ 70 ∷ []) × (second ≡ []) × (jb'.next_seq ≡ some 8)
recv-reorder_lost_example =
    recv-reorder_lost (λ (n : ℕ). n) 5 7 6 64 70 60 (omega arith) (omega arith) (omega arith)
      (omega arith) (omega arith) (omega arith)

-- A ring for two frames, which holds one; the graph takes one before each packet.
recv_all-in_order_example :
    let (taken, left, _) =
      recv_all
        (λ (n : ℕ). n)
        2
        65535
        ((1, 10) ∷ (1, 11) ∷ (0, 12) ∷ [])
        (9 ∷ [])
        (waiting 65535 64) in
    taken ++ left ≡ 9 ∷ 10 ∷ 11 ∷ 12 ∷ []
recv_all-in_order_example =
    recv_all-in_order (λ (n : ℕ). n) ((1, 10) ∷ (1, 11) ∷ (0, 12) ∷ []) 65535 2 64 (9 ∷ [])
      (omega arith) (omega arith) (omega arith, (omega arith, (omega arith, tt)))
