-- ===== src/Bridge/RoundTrip.antt =====
-- What one side of crates/gw-alsa-plugin/src/bridge.rs writes, the other reads, and nothing else is taken.
use sonicbrew.Base.{
  ℕ, ◌<◌, ◌≤◌, ◌≡◌, ◌^◌, refl, ◌∙◌, ap, false, Bool-cases, ◌||◌, some, List, ◌++◌, ltb, ◌==◌,
  length, arith, inl, inr, ==_iff, Option-cases,
}
use mathlib.Core.Path.{subst}
use sonicbrew.Base.Bytes.{be32_roundtrip}
use sonicbrew.Bridge.{
  StreamDir, playback, capture, as_u32, from_u32, Handshake, ok, err, check_words, write_handshake,
  read_handshake, max_channels, max_rate, word, bridge_magic, bridge_proto_version,
}

-- The values that a handshake may carry.
pub record IsHandshake (hs : Handshake) : Type 0 where
  pub magic : hs.magic ≡ bridge_magic
  pub version : hs.version ≡ bridge_proto_version
  pub channels : 0 < hs.channels
  pub channels_max : hs.channels ≤ max_channels
  pub rate : 0 < hs.rate
  pub rate_max : hs.rate ≤ max_rate

ok-injective : {A : Type 0} {a b : A} → ok a ≡ ok b → a ≡ b
ok-injective {a = a} h = ap (λ r. elim r [ ok x ↦ x | err e ↦ a ]) h

small : (d : StreamDir) → as_u32 d < 2 ^ 32
unfolding as_u32
small playback = omega arith
small capture = omega arith

from_u32-as_u32 : (d : StreamDir) → from_u32 (as_u32 d) ≡ some d
unfolding from_u32 as_u32
from_u32-as_u32 playback = refl
from_u32-as_u32 capture = refl

check_words-ok :
    (hs : Handshake)
    → IsHandshake hs
    → check_words hs.magic hs.version (as_u32 hs.stream_dir) hs.channels hs.rate ≡ ok hs
unfolding check_words
check_words-ok hs h =
    rw (from_u32-as_u32 hs.stream_dir)
      (ground (arith, h.magic, h.version, h.channels, h.channels_max, h.rate, h.rate_max))

-- Only handshakes with the right magic and version, and with channels and a rate in range, are accepted.
pub check_words-IsHandshake :
    (magic version dir channels rate : ℕ) (hs : Handshake)
    → check_words magic version dir channels rate ≡ ok hs
    → IsHandshake hs
unfolding check_words
check_words-IsHandshake magic version dir channels rate hs h =
    elim (Bool-cases (magic == bridge_magic)) [
      | inr bad ↦ absurd (ground (arith, rw bad at h))
      | inl m ↦ elim (Bool-cases (version == bridge_proto_version)) [
        | inr bad ↦ absurd (ground (arith, rw (m, bad) at h))
        | inl v ↦ elim (Option-cases (from_u32 dir)) [
          | inl bad ↦ absurd (ground (arith, rw (m, v, bad) at h))
          | inr (d, e) ↦ elim (Bool-cases (channels == 0 || ltb max_channels channels)) [
            | inl bad ↦ absurd (ground (arith, rw (m, v, e, bad) at h))
            | inr c ↦ elim (Bool-cases (rate == 0 || ltb max_rate rate)) [
              | inl bad ↦ absurd (ground (arith, rw (m, v, e, c, bad) at h))
              | inr r ↦ subst IsHandshake (ok-injective (rw (m, v, e, c, r) at h)) (record {
                magic = (==_iff magic bridge_magic).0 m;
                version = (==_iff version bridge_proto_version).0 v;
                channels = ground (arith, c);
                channels_max = ground (arith, c);
                rate = ground (arith, r);
                rate_max = ground (arith, r);
              })
            ]
          ]
        ]
      ]
    ]

check_words-write_handshake :
    (hs : Handshake) (rest : List ℕ)
    → IsHandshake hs
    → let stream = write_handshake hs ++ rest in
      check_words (word stream 0) (word stream 1) (word stream 2) (word stream 3) (word stream 4)
      ≡ ok hs
unfolding write_handshake
check_words-write_handshake hs rest h =
    let m = be32_roundtrip hs.magic (omega (arith, h.magic)) in
    let v = be32_roundtrip hs.version (omega (arith, h.version)) in
    let d = be32_roundtrip (as_u32 hs.stream_dir) (small hs.stream_dir) in
    let c = be32_roundtrip hs.channels (omega (arith, h.channels_max)) in
    let r = be32_roundtrip hs.rate (omega (arith, h.rate_max)) in
    (λ i. check_words (m i) (v i) (d i) (c i) (r i)) ∙ check_words-ok hs h

-- A valid handshake that is written to a stream is read back from its front, and what stands behind it
-- stays in the stream.
pub read_handshake-write_handshake :
    (hs : Handshake) (rest : List ℕ)
    → IsHandshake hs
    → read_handshake (write_handshake hs ++ rest) ≡ (ok hs, rest)
unfolding read_handshake write_handshake
read_handshake-write_handshake hs rest h =
    let whole : ltb (length (write_handshake hs ++ rest)) 20 ≡ false = ground arith in
    rw whole (ap (λ r. (r, rest)) (check_words-write_handshake hs rest h))

-- Whatever stream it reads, a handshake that `read_handshake` accepts has the bridge's magic and version,
-- and channels and a rate in range.
pub read_handshake-IsHandshake :
    (stream rest : List ℕ) (hs : Handshake) → read_handshake stream ≡ (ok hs, rest) → IsHandshake hs
unfolding read_handshake check_words
read_handshake-IsHandshake stream rest hs h = elim (Bool-cases (ltb (length stream) 20)) [
  | inl short ↦ absurd (ground (arith, ap (λ r. r.0) (rw short at h)))
  | inr whole ↦
      check_words-IsHandshake (word stream 0) (word stream 1) (word stream 2) (word stream 3)
        (word stream 4) hs (ap (λ r. r.0) (rw whole at h))
]
