-- ===== src/Rtp/Error.antt =====
-- `TransportError` of crates/net-rtp-aes67/src/lib.rs. The text of `Network` is kept as the format
-- string that wrote it, by a constructor, with the values that it prints.
use sonicbrew.Base.{ℕ}

pub data Message : Type 0 where
  header_truncated : ℕ → Message
  bad_version : ℕ → Message
  packet_too_short : ℕ → ℕ → Message
  io : Message
  not_open ring_full no_packet : Message
  slot_length : ℕ → Message
  buffer_size slot_too_small : ℕ → ℕ → Message
  corrupt_tx corrupt_rx : ℕ → ℕ → Message

pub data TransportError : Type 0 where
  unimplemented : TransportError
  network : Message → TransportError

pub data Result {ℓ} (A : Type ℓ) : Type ℓ where
  ok : A → Result A
  err : TransportError → Result A

infixl 5 ◌>>=◌
abbrev pub ◌>>=◌ {ℓ κ} : {A : Type ℓ} {B : Type κ} → Result A → (A → Result B) → Result B
ok a >>= f = f a
err e >>= f = err e
