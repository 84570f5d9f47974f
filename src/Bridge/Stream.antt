-- ===== src/Bridge/Stream.antt =====
-- The connection and the samples of crates/gw-alsa-plugin/src/bridge.rs. A stream is the list of the bytes
-- that it still holds, a sample the 32 bits of its `f32`.
use sonicbrew.Base.{
  ℕ, zero, suc, ◌*◌, ◌^◌, ◌<◌, ◌≡◌, refl, sym, ap, ◌∙◌, Bool, true, false, ◌||◌, not, Bool-cases,
  Option, none, some, List, [], ◌∷◌, ◌++◌, ltb, ◌==◌, if◌then◌else◌, length, length-append, take,
  drop, take-append, drop-append, arith, All, inl, inr,
}
use sonicbrew.Base.Bytes.{to_le32, from_le32, byte_at, be32_roundtrip}
use sonicbrew.Bridge
use sonicbrew.Bridge.{
  StreamDir, playback, capture, as_u32, Handshake, HandshakeError, new, write_handshake,
  read_handshake, max_channels, max_rate,
}
use sonicbrew.Bridge.RoundTrip.{
  IsHandshake, read_handshake-write_handshake, read_handshake-IsHandshake,
}

-- `OpenError`; a socket that cannot be opened or written is `io`.
pub data OpenError : Type 0 where
  io : OpenError
  handshake : HandshakeError → OpenError
  mismatch : Handshake → Handshake → OpenError

pub data Result {ℓ} (A : Type ℓ) : Type ℓ where
  ok : A → Result A
  err : OpenError → Result A

abbrev same_dir : StreamDir → StreamDir → Bool
same_dir playback playback = true
same_dir playback capture = false
same_dir capture playback = false
same_dir capture capture = true

abbrev pub agree : Handshake → Handshake → Bool
agree offered echoed = not (
    not (same_dir echoed.stream_dir offered.stream_dir)
    || not (echoed.channels == offered.channels)
    || not (echoed.rate == offered.rate))

abbrev pub checked : Handshake → Bridge.Result Handshake × List ℕ → Result (List ℕ × Handshake)
checked offered (Bridge.err e, stream) = err (handshake e)
checked offered (Bridge.ok echoed, stream) =
    if agree offered echoed then ok (stream, echoed) else err (mismatch offered echoed)

-- `BridgeStream::connect`: whether the connection and the write succeed, and what the server sends. The
-- handshake is written first; what stays in the stream comes with the result.
unfoldable pub connect : Bool → StreamDir → ℕ → ℕ → List ℕ → Result (List ℕ × Handshake)
connect false dir channels rate incoming = err io
connect true dir channels rate incoming = checked (new dir channels rate) (read_handshake incoming)

-- The bytes that `send_frames` writes.
unfoldable pub send_frames : List ℕ → List ℕ
send_frames [] = []
send_frames (s ∷ samples) = to_le32 s ++ send_frames samples

abbrev from_chunks : ℕ → List ℕ → List ℕ
from_chunks zero bytes = []
from_chunks (suc n) bytes =
    from_le32 (byte_at bytes 0) (byte_at bytes 1) (byte_at bytes 2) (byte_at bytes 3)
    ∷ from_chunks n (drop 4 bytes)

-- The samples that fill a buffer of a length, or none on a stream that ends early.
unfoldable pub recv_frames_into : ℕ → List ℕ → Option (List ℕ) × List ℕ
recv_frames_into n stream =
    if ltb (length stream) (n * 4)
    then (none, [])
    else (some (from_chunks n (take (n * 4) stream)), drop (n * 4) stream)

length-send_frames : (samples : List ℕ) → length (send_frames samples) ≡ length samples * 4
unfolding send_frames
length-send_frames [] = refl
length-send_frames (s ∷ samples) = omega (arith, length-send_frames samples)

from_chunks-send_frames :
    (samples : List ℕ)
    → All (λ s. s < 2 ^ 32) samples
    → from_chunks (length samples) (send_frames samples) ≡ samples
unfolding send_frames
from_chunks-send_frames [] h = refl
from_chunks-send_frames (s ∷ samples) h =
    rw (be32_roundtrip s h.0, from_chunks-send_frames samples h.1) refl

-- Samples that one side sends are the samples that the other receives into a buffer of their number, and
-- what is sent after them is left.
pub recv_frames_into-send_frames :
    (samples rest : List ℕ)
    → All (λ s. s < 2 ^ 32) samples
    → recv_frames_into (length samples) (send_frames samples ++ rest) ≡ (some samples, rest)
unfolding recv_frames_into
recv_frames_into-send_frames samples rest h =
    let size : length samples * 4 ≡ length (send_frames samples) =
      sym (length-send_frames samples) in
    let enough : ltb (length (send_frames samples ++ rest)) (length (send_frames samples)) ≡ false =
      ground (arith, length-append (send_frames samples) rest) in
    rw
      (
        size,
        enough,
        take-append (send_frames samples) rest,
        drop-append (send_frames samples) rest,
        from_chunks-send_frames samples h,
      )
      refl

same_dir_refl : (d : StreamDir) → same_dir d d ≡ true
same_dir_refl playback = refl
same_dir_refl capture = refl

agree_refl : (h : Handshake) → agree h h ≡ true
agree_refl h = rw (same_dir_refl h.stream_dir) (ground arith)

same_dir_eq : (d e : StreamDir) → same_dir d e ≡ true → d ≡ e
same_dir_eq playback playback h = refl
same_dir_eq playback capture h = absurd (ground (arith, h))
same_dir_eq capture playback h = absurd (ground (arith, h))
same_dir_eq capture capture h = refl

-- A server that echoes a handshake with channels and a rate in range makes the connection, and what it
-- sends after the echo is left for the samples.
pub connect-write_handshake :
    (dir : StreamDir) (channels rate : ℕ) (rest : List ℕ)
    → IsHandshake (new dir channels rate)
    → connect true dir channels rate (write_handshake (new dir channels rate) ++ rest)
      ≡ ok (rest, new dir channels rate)
unfolding connect
connect-write_handshake dir channels rate rest h =
    ap (checked (new dir channels rate))
      (read_handshake-write_handshake (new dir channels rate) rest h)
    ∙ rw (agree_refl (new dir channels rate)) refl

same_handshake :
    (a b : Handshake)
    → IsHandshake b
    → a.magic ≡ Bridge.bridge_magic
    → a.version ≡ Bridge.bridge_proto_version
    → agree a b ≡ true
    → b ≡ a
same_handshake a b h m v same =
    let dirs = same_dir_eq b.stream_dir a.stream_dir (ground (arith, same)) in
    let cs : b.channels ≡ a.channels = ground (arith, same) in
    let rs : b.rate ≡ a.rate = ground (arith, same) in
    let ms : b.magic ≡ a.magic = h.magic ∙ sym m in
    let vs : b.version ≡ a.version = h.version ∙ sym v in
    λ i. record { magic = ms i; version = vs i; stream_dir = dirs i; channels = cs i; rate = rs i }

ok-injective : {A : Type 0} {a b : A} → ok a ≡ ok b → a ≡ b
ok-injective {a = a} h = ap (λ r. elim r [ ok x ↦ x | err e ↦ a ]) h

checked-ok :
    (offered : Handshake) (stream : List ℕ) (read : Bridge.Result Handshake × List ℕ)
    {rest : List ℕ} {agreed : Handshake}
    → read_handshake stream ≡ read
    → offered.magic ≡ Bridge.bridge_magic
    → offered.version ≡ Bridge.bridge_proto_version
    → checked offered read ≡ ok (rest, agreed)
    → agreed ≡ offered
checked-ok offered stream (Bridge.err e, left) at m v h = absurd (ground (arith, h))
checked-ok offered stream (Bridge.ok echoed, left) at m v h =
    elim (Bool-cases (agree offered echoed)) [
      | inl same ↦
          sym (ap (λ r. r.1) (ok-injective (rw same at h)))
          ∙ same_handshake offered echoed (read_handshake-IsHandshake stream left echoed at) m v
              same
      | inr differ ↦ absurd (ground (arith, rw differ at h))
    ]

-- Whatever the server sends, a connection that is made has exactly the direction, the channels and the
-- rate that were offered, and the bridge's magic and version.
pub connect-new :
    (dir : StreamDir) (channels rate : ℕ) (incoming rest : List ℕ) (agreed : Handshake)
    → connect true dir channels rate incoming ≡ ok (rest, agreed)
    → agreed ≡ new dir channels rate
unfolding connect new
connect-new dir channels rate incoming rest agreed h =
    checked-ok (new dir channels rate) incoming (read_handshake incoming) refl refl refl h
