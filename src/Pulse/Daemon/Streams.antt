-- ===== src/Pulse/Daemon/Streams.antt =====
-- The calls on a connected `PulseDaemon` of crates/gw-pulse/src/daemon.rs: playback and introspection.
use sonicbrew.Base.{
  ℕ, zero, suc, ◌+◌, ◌*◌, ◌%◌, ◌^◌, true, false, Option, none, some, List, [], ◌∷◌, ◌++◌, ltb,
  if◌then◌else◌, length, replicate,
}
use sonicbrew.Base.Ascii.{ascii}
use sonicbrew.Base.Bytes.{to_be32, to_be64, to_le32}
use sonicbrew.Pulse.Tags.{
  TagWriter, write_u32, write_u8, write_boolean, write_string, write_string_null, write_proplist,
  write_sample_spec, write_channel_map, write_cvolume,
}
use sonicbrew.Pulse.Reader.{new, read_u32}
use sonicbrew.Pulse.Reader.Server.{ServerInfo, read_server_info}
use sonicbrew.Pulse.Command
use sonicbrew.Pulse.Socket.{
  opcode_exceeds_u16, old_protocol, protocol, err, Action, ◌>>=◌, pure, fail, lift, Socket,
  write_all,
}
use sonicbrew.Pulse.Daemon.{PulseDaemon, request, expect, on_stream, empty, u32_max}

pub record PlaybackStream : Type 0 where
  pub index : ℕ

abbrev sample_bytes : List ℕ → List ℕ
sample_bytes [] = []
sample_bytes (s ∷ samples) = to_le32 s ++ sample_bytes samples

unfoldable pub write_memblock : ℕ → List ℕ → Action Socket (Unit {0})
write_memblock channel samples = do
  _ ← write_all (to_be32 (length samples * 4 % 2 ^ 32))
  _ ← write_all (to_be32 channel)
  _ ← write_all (to_be64 0)
  _ ← write_all (to_be32 0)
  write_all (sample_bytes samples)

unfoldable pub write_audio : PlaybackStream → List ℕ → Action PulseDaemon (Unit {0})
unfolding write_memblock
write_audio stream samples = on_stream (write_memblock stream.index samples)

unfoldable pub roundtrip : ℕ → ℕ → List ℕ → Action PulseDaemon (ℕ × List ℕ)
roundtrip patience cmd body = do
  frame ← request patience cmd body
  if ltb frame.command (2 ^ 16)
      then pure (frame.command, frame.payload)
      else fail (protocol opcode_exceeds_u16)

-- `(0..channels).collect()`, by the first number and the count.
abbrev positions : ℕ → ℕ → List ℕ
positions first zero = []
positions first (suc n) = first ∷ positions (first + 1) n

abbrev write_flags : ℕ → TagWriter → TagWriter
write_flags zero w = w
write_flags (suc n) w = write_flags n (write_boolean w false)

abbrev write_sink : Option (List ℕ) → TagWriter → TagWriter
write_sink (some sink) w = write_string w sink
write_sink none w = write_string_null w

-- The sample specification, the channel map, the sink and the default buffer metrics.
abbrev write_target : Option (List ℕ) → ℕ → ℕ → TagWriter
write_target sink rate channels =
    let w = write_sample_spec empty rate channels Command.sample_float32le in
    let w = write_channel_map w (positions 0 channels) in
    let w = write_u32 w u32_max in
    let w = write_sink sink w in
    let w = write_u32 w u32_max in
    let w = write_boolean w false in
    let w = write_u32 w u32_max in
    let w = write_u32 w u32_max in let w = write_u32 w u32_max in write_u32 w 0

unfoldable pub stream_request : List ℕ → Option (List ℕ) → ℕ → ℕ → List ℕ
stream_request name sink rate channels =
    let w = write_target sink rate channels in
    let w = write_cvolume w (replicate channels Command.volume_norm) in
    let w = write_flags 9 w in
    let w =
      write_proplist w (
        (ascii "media.name", name) ∷ (ascii "application.name", ascii "sonicbrew gw-pulse") ∷ []) in
    let w = write_flags 6 (write_boolean w true) in (write_u8 w 0).buf

unfoldable pub create_playback_stream :
    ℕ → List ℕ → Option (List ℕ) → ℕ → ℕ → Action PulseDaemon PlaybackStream
unfolding stream_request
create_playback_stream patience name sink rate channels d =
    if ltb d.server_version 13
    then (err (protocol old_protocol), d)
    else expect patience Command.create_playback_stream Command.reply
        (stream_request name sink rate channels)
        (λ payload. do index ← lift (read_u32 (new payload)).0; pure (record { index = index })) d

unfoldable pub delete_playback_stream : ℕ → PlaybackStream → Action PulseDaemon (Unit {0})
delete_playback_stream patience stream =
    expect patience Command.delete_playback_stream Command.reply (write_u32 empty stream.index).buf
      (λ _. pure tt)

unfoldable pub server_info : ℕ → Action PulseDaemon ServerInfo
unfolding read_server_info
server_info patience d =
    expect patience Command.query_info Command.server_info []
      (λ payload. lift (read_server_info d.server_version (new payload)).0) d
