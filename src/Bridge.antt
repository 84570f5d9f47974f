-- ===== src/Bridge.antt =====
-- The handshake of the ALSA plugin's bridge, crates/gw-alsa-plugin/src/bridge.rs. A stream is the list of
-- the bytes that it still holds.
pub mod RoundTrip
pub mod Config
pub mod Stream
mod Tests
use sonicbrew.Base.{
  ℕ, ◌+◌, ◌*◌, Bool, ◌||◌, not, Option, none, some, List, [], ◌∷◌, ◌++◌, ltb, ◌==◌, if◌then◌else◌,
  length, drop,
}
use sonicbrew.Base.Bytes.{to_le32, from_le32, byte_at}

abbrev pub bridge_magic : ℕ
bridge_magic = 0x5342_4E52

abbrev pub bridge_proto_version : ℕ
bridge_proto_version = 1

abbrev pub max_channels : ℕ
max_channels = 1024

abbrev pub max_rate : ℕ
max_rate = 768000

pub data StreamDir : Type 0 where
  playback capture : StreamDir

-- `dir as u32`
unfoldable pub as_u32 : StreamDir → ℕ
as_u32 playback = 0
as_u32 capture = 1

unfoldable pub from_u32 : ℕ → Option StreamDir
from_u32 v = if v == 0 then some playback else if v == 1 then some capture else none

pub record Handshake : Type 0 where
  pub magic : ℕ
  pub version : ℕ
  pub stream_dir : StreamDir
  pub channels : ℕ
  pub rate : ℕ

-- `Handshake::new`
unfoldable pub new : StreamDir → ℕ → ℕ → Handshake
new stream_dir channels rate = record {
  magic = bridge_magic;
  version = bridge_proto_version;
  stream_dir = stream_dir;
  channels = channels;
  rate = rate;
}

-- The field that an `Invalid` names.
pub data Field : Type 0 where
  stream_dir_field channels_field rate_field : Field

pub data HandshakeError : Type 0 where
  io : HandshakeError
  bad_magic : ℕ → HandshakeError
  unsupported_version : ℕ → HandshakeError
  invalid : Field → HandshakeError

pub data Result {ℓ} (A : Type ℓ) : Type ℓ where
  ok : A → Result A
  err : HandshakeError → Result A

-- The bytes that `write_handshake` writes.
unfoldable pub write_handshake : Handshake → List ℕ
unfolding as_u32
write_handshake hs =
    to_le32 hs.magic
    ++ to_le32 hs.version
    ++ to_le32 (as_u32 hs.stream_dir)
    ++ to_le32 hs.channels
    ++ to_le32 hs.rate

-- The closure `word`.
abbrev pub word : List ℕ → ℕ → ℕ
word buf i =
    from_le32 (byte_at buf (i * 4)) (byte_at buf (i * 4 + 1)) (byte_at buf (i * 4 + 2))
      (byte_at buf (i * 4 + 3))

-- The checks of `read_handshake`, on the five words.
unfoldable pub check_words : ℕ → ℕ → ℕ → ℕ → ℕ → Result Handshake
unfolding from_u32
check_words magic version dir channels rate =
    if not (magic == bridge_magic)
    then err (bad_magic magic)
    else if not (version == bridge_proto_version)
    then err (unsupported_version version)
    else elim (from_u32 dir) [
      | none ↦ err (invalid stream_dir_field)
      | some stream_dir ↦
          if channels == 0 || ltb max_channels channels
          then err (invalid channels_field)
          else if rate == 0 || ltb max_rate rate
          then err (invalid rate_field)
          else ok (record {
            magic = magic;
            version = version;
            stream_dir = stream_dir;
            channels = channels;
            rate = rate;
          })
    ]

-- `read_exact` fails on a stream that ends early, and has then taken what there was.
unfoldable pub read_handshake : List ℕ → Result Handshake × List ℕ
unfolding check_words
read_handshake stream = if ltb (length stream) 20 then (err io, []) else (
  check_words (word stream 0) (word stream 1) (word stream 2) (word stream 3) (word stream 4),
  drop 20 stream,
)
