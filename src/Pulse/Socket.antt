-- ===== src/Pulse/Socket.antt =====
-- The connection under `PulseDaemon` of crates/gw-pulse/src/daemon.rs and its errors: what the peer has
-- sent and is not read yet, and what was written. An action returns its value or its error, and the
-- state that it leaves.
use sonicbrew.Base.{
  ℕ, Option, none, some, List, [], ◌∷◌, ◌++◌, ltb, if◌then◌else◌, length, take, drop, String,
}
use sonicbrew.Pulse.Codec
use sonicbrew.Pulse.Codec.{PulseError}

pub data IoError : Type 0 where
  write_failed short_read timed_out connect_failed read_failed : IoError

-- The texts of the `Protocol` errors, with what they name.
pub data Problem : Type 0 where
  invalid_frame_length : ℕ → Problem
  command_field tag_field : PulseError → Problem
  expected_reply : ℕ → ℕ → Problem
  opcode_exceeds_u16 old_protocol : Problem

pub data PulseDaemonError : Type 0 where
  io : IoError → PulseDaemonError
  protocol : Problem → PulseDaemonError
  codec : PulseError → PulseDaemonError
  no_server_socket : List String → PulseDaemonError
  cookie_length : ℕ → PulseDaemonError
  server : ℕ → List ℕ → PulseDaemonError

pub data Result {ℓ} (A : Type ℓ) : Type ℓ where
  ok : A → Result A
  err : PulseDaemonError → Result A

abbrev pub Action : Type 0 → Type 0 → Type 0
Action S A = S → Result A × S

abbrev pub and_then : {S A B : Type 0} → (A → Action S B) → Result A × S → Result B × S
and_then f (ok a, s) = f a s
and_then f (err e, s) = (err e, s)

infixl 5 ◌>>=◌
abbrev pub ◌>>=◌ : {S A B : Type 0} → Action S A → (A → Action S B) → Action S B
(m >>= f) s = and_then f (m s)

abbrev pub pure : {S A : Type 0} → A → Action S A
pure a s = (ok a, s)

abbrev pub fail : {S A : Type 0} → PulseDaemonError → Action S A
fail e s = (err e, s)

-- `?` on the codec's result.
abbrev pub lift : {S A : Type 0} → Codec.Result A → Action S A
lift (Codec.ok a) = pure a
lift (Codec.err e) = fail (codec e)

-- For each of the next writes: whether it succeeds, or after how many bytes it fails.
pub record Socket : Type 0 where
  pub incoming : List ℕ
  pub written : List ℕ
  pub write_faults : List (Option ℕ)

-- The write that meets the next fault.
abbrev write_with : List (Option ℕ) → List ℕ → Action Socket (Unit {0})
write_with [] bytes s = (ok tt, record s { written = s.written ++ bytes })
write_with (none ∷ faults) bytes s =
    (ok tt, record s { written = s.written ++ bytes; write_faults = faults })
write_with (some n ∷ faults) bytes s =
    (err (io write_failed), record s { written = s.written ++ take n bytes; write_faults = faults })

unfoldable pub write_all : List ℕ → Action Socket (Unit {0})
write_all bytes s = write_with s.write_faults bytes s

-- A read that the peer does not fill takes what there is, and fails at the end of the stream or of the
-- time-out.
unfoldable pub read_exact : ℕ → Action Socket (List ℕ)
read_exact n s =
    if ltb (length s.incoming) n
    then (err (io short_read), record s { incoming = [] })
    else (ok (take n s.incoming), record s { incoming = drop n s.incoming })
