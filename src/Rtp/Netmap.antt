-- ===== src/Rtp/Netmap.antt =====
-- The rings of crates/net-rtp-aes67/src/transport/netmap_backend.rs, which the code shares with the kernel.
-- A slot holds the bytes that its length covers; each slot has a buffer of its own.
pub mod Overrun
pub mod Transfer
mod Tests
use sonicbrew.Base.{
  ℕ, ◌+◌, ◌-◌, ◌%◌, ◌^◌, Option, none, some, List, [], ltb, leb, ◌==◌, if◌then◌else◌, length, take,
  get_or, set, min,
}
use sonicbrew.Rtp.Error.{
  Result, ok, err, network, io, not_open, ring_full, no_packet, slot_length, buffer_size,
  slot_too_small, corrupt_tx, corrupt_rx,
}
use sonicbrew.Rtp.Header
use sonicbrew.Rtp.Packet
use sonicbrew.Rtp.Packet.{RtpPacket}
use sonicbrew.Rtp.Payload.{Codec, codec_to_payload_type, timestamp_advance}

pub record Ring : Type 0 where
  pub num_slots : ℕ
  pub buf_size : ℕ
  pub head : ℕ
  pub cur : ℕ
  pub tail : ℕ
  pub slots : List (List ℕ)

pub record Inner : Type 0 where
  pub tx : Ring
  pub rx : Ring

pub record NetmapTransport : Type 0 where
  pub inner : Option Inner
  pub seq : ℕ
  pub timestamp : ℕ
  pub ssrc : ℕ
  pub channels : ℕ

unfoldable pub slots_free : Ring → ℕ
slots_free r =
    let n = r.num_slots in
    if n == 0 then 0 else let inflight = (r.head + 2 ^ 32 - r.tail) % 2 ^ 32 % n in n - inflight

-- `send_raw` on the TX ring.
unfoldable pub stage : List ℕ → Ring → Result ℕ × Ring
unfolding slots_free
stage packet tx =
    if ltb 65535 (length packet)
    then (err (network (slot_length (length packet))), tx)
    else if ltb tx.buf_size (length packet)
    then (err (network (buffer_size (length packet) tx.buf_size)), tx)
    else if slots_free tx == 0
    then (err (network ring_full), tx)
    else if leb tx.num_slots tx.head
    then (err (network (corrupt_tx tx.head tx.num_slots)), tx)
    else (
      ok (length packet),
      record tx {
        slots = set tx.slots tx.head packet;
        head = (tx.head + 1) % tx.num_slots;
        cur = (tx.head + 1) % tx.num_slots;
      },
    )

abbrev put_tx : NetmapTransport → Inner → Result ℕ × Ring → Result ℕ × NetmapTransport
put_tx t inner (result, tx) = (result, record t { inner = some (record inner { tx = tx }) })

unfoldable pub send_raw : List ℕ → NetmapTransport → Result ℕ × NetmapTransport
unfolding stage
send_raw packet t = elim t.inner [
  | none ↦ (err (network not_open), t)
  | some inner ↦ put_tx t inner (stage packet inner.tx)
]

-- `recv_raw` on the RX ring, into a buffer of a length: the bytes that are copied, none where nothing
-- is pending.
unfoldable pub fetch : ℕ → Ring → Result (List ℕ) × Ring
fetch room rx =
    if leb rx.num_slots rx.cur
    then (err (network (corrupt_rx rx.cur rx.num_slots)), rx)
    else if rx.cur == rx.tail
    then (ok [], rx)
    else let packet = get_or rx.slots rx.cur [] in
      let next = (rx.cur + 1) % rx.num_slots in
      (
        ok (take (min (min (length packet) room) rx.buf_size) packet),
        record rx { cur = next; head = next },
      )

abbrev put_rx : NetmapTransport → Inner → Result (List ℕ) × Ring → Result (List ℕ) × NetmapTransport
put_rx t inner (result, rx) = (result, record t { inner = some (record inner { rx = rx }) })

unfoldable pub recv_raw : ℕ → NetmapTransport → Result (List ℕ) × NetmapTransport
unfolding fetch
recv_raw room t = elim t.inner [
  | none ↦ (err (network not_open), t)
  | some inner ↦ put_rx t inner (fetch room inner.rx)
]

-- `txsync`: the kernel's new tail of the TX ring, where the call succeeds.
unfoldable pub txsync : Option ℕ → NetmapTransport → Result (Unit {0}) × NetmapTransport
txsync answer t = elim t.inner [
  | none ↦ (err (network not_open), t)
  | some inner ↦ elim answer [
    | none ↦ (err (network io), t)
    | some tail ↦
        (ok tt, record t { inner = some (record inner { tx = record inner.tx { tail = tail } }) })
  ]
]

-- `rxsync`: what the kernel leaves in the RX ring, where the call succeeds.
unfoldable pub rxsync : Option Ring → NetmapTransport → Result (Unit {0}) × NetmapTransport
rxsync answer t = elim t.inner [
  | none ↦ (err (network not_open), t)
  | some inner ↦ elim answer [
    | none ↦ (err (network io), t)
    | some rx ↦ (ok tt, record t { inner = some (record inner { rx = rx }) })
  ]
]

abbrev after_stage : ℕ → Option ℕ → Result ℕ × NetmapTransport → Result (Unit {0}) × NetmapTransport
after_stage size answer (err e, t) = (err e, t)
after_stage size answer (ok staged, t) =
    if ltb staged size then (err (network (slot_too_small staged size)), t) else txsync answer t

-- `send_rtp`; the sequence number and the timestamp move on before the ring is asked.
unfoldable pub send_rtp :
    NetmapTransport → List ℕ → Codec → Option ℕ → Result (Unit {0}) × NetmapTransport
unfolding send_raw txsync
send_rtp t payload codec answer =
    let header = Header.new (codec_to_payload_type codec t.channels) t.seq t.timestamp t.ssrc in
    let bytes = Packet.encode (record { header = header; payload = payload }) in
    after_stage (length bytes) answer (
      send_raw bytes (record t {
        seq = (t.seq + 1) % 2 ^ 16;
        timestamp = (t.timestamp + timestamp_advance (length payload) codec t.channels) % 2 ^ 32;
      }))

abbrev payload_of : List ℕ → Result (List ℕ)
payload_of bytes =
    if length bytes == 0
    then err (network no_packet)
    else elim (Packet.parse bytes) [ err e ↦ err e | ok packet ↦ ok packet.payload ]

abbrev parsed : Result (List ℕ) × NetmapTransport → Result (List ℕ) × NetmapTransport
parsed (err e, t) = (err e, t)
parsed (ok bytes, t) = (payload_of bytes, t)

abbrev after_rxsync : Result (Unit {0}) × NetmapTransport → Result (List ℕ) × NetmapTransport
after_rxsync (err e, t) = (err e, t)
after_rxsync (ok _, t) = parsed (recv_raw 65535 t)

-- `recv_rtp`
unfoldable pub recv_rtp : NetmapTransport → Option Ring → Result (List ℕ) × NetmapTransport
unfolding recv_raw rxsync
recv_rtp t answer = after_rxsync (rxsync answer t)
