-- ===== src/Pulse/Daemon.antt =====
-- `PulseDaemon` of crates/gw-pulse/src/daemon.rs: control frames, requests and the streams. A sample is
-- the 32 bits of its `f32`, a text the list of its bytes.
pub mod Streams
pub mod Frames
pub mod Request
pub mod Handshake
mod Tests
use sonicbrew.Base.{
  ℕ, zero, suc, ◌+◌, ◌-◌, ◌*◌, ◌%◌, ◌^◌, Bool, true, false, ◌&&◌, ◌||◌, not, Option, none, some,
  List, [], ◌∷◌, ◌++◌, ltb, leb, ◌==◌, if◌then◌else◌, length, drop, replicate, String, min,
}
use sonicbrew.Base.Ascii.{ascii}
use sonicbrew.Base.Bytes.{to_be32, to_be64, to_le32}
use sonicbrew.Pulse.Codec
use sonicbrew.Pulse.Codec.{PulseError, header_len, parse_header, is_valid}
use sonicbrew.Pulse.Tags.{
  tag_u32, TagWriter, write_u32, write_u8, write_boolean, write_string, write_string_null,
  write_arbitrary, write_proplist, write_sample_spec, write_channel_map, write_cvolume,
}
use sonicbrew.Pulse.Reader.{
  TagReader, new, read_u32, read_string, read_sample_spec, read_channel_map, remaining,
}
use sonicbrew.Pulse.Command
use sonicbrew.Pulse.Socket.{
  IoError, timed_out, Problem, invalid_frame_length, command_field, tag_field, expected_reply,
  opcode_exceeds_u16, old_protocol, PulseDaemonError, io, protocol, server, cookie_length, Result,
  ok, err, Action, ◌>>=◌, pure, fail, lift, Socket, write_all, read_exact,
}

abbrev pub protocol_version : ℕ
protocol_version = 35

abbrev pub auth_cookie_len : ℕ
auth_cookie_len = 256

abbrev pub u32_max : ℕ
u32_max = 2 ^ 32 - 1

pub record Frame : Type 0 where
  pub command : ℕ
  pub tag : ℕ
  pub payload : List ℕ

-- A payload of 4 GiB or more is a panic of the source.
unfoldable pub write_frame : ℕ → ℕ → List ℕ → Action Socket (Unit {0})
write_frame command tag tagstruct =
    let payload = tag_u32 ∷ (to_be32 command ++ (tag_u32 ∷ (to_be32 tag ++ tagstruct))) in
    do
      _ ← write_all (to_be32 (length payload))
      _ ← write_all (to_be32 u32_max)
      _ ← write_all (to_be64 0)
      _ ← write_all (to_be32 0)
      write_all payload

-- A word at the head of a reply, and what is read after it.
abbrev head_word :
    {A : Type 0}
    → (PulseError → Problem)
    → (ℕ → TagReader → Result A)
    → Codec.Result ℕ × TagReader
    → Result A
head_word problem next (Codec.ok word, r) = next word r
head_word problem next (Codec.err e, r) = err (protocol (problem e))

unfoldable pub frame_of : List ℕ → Result Frame
frame_of body =
    head_word command_field
      (λ command r.
        head_word tag_field
          (λ tag r'. ok (record {
            command = command;
            tag = tag;
            payload = drop (min r'.pos (length body)) body;
          }))
          (read_u32 r))
      (read_u32 (new body))

unfoldable pub read_frame : Action Socket Frame
unfolding frame_of
read_frame = do
  descriptor ← read_exact header_len
  header ← lift (parse_header descriptor)
  if is_valid header
      then (do body ← read_exact header.length; λ s. (frame_of body, s))
      else fail (protocol (invalid_frame_length header.length))

-- `unwrap_or(0)`, and `ok().flatten().unwrap_or_else(…)`
abbrev code_or_zero : Codec.Result ℕ → ℕ
code_or_zero (Codec.ok n) = n
code_or_zero (Codec.err _) = 0

abbrev message_or_default : Codec.Result (Option (List ℕ)) → List ℕ
message_or_default (Codec.ok (some text)) = text
message_or_default (Codec.ok none) = ascii "no message"
message_or_default (Codec.err _) = ascii "no message"

unfoldable pub error_reply : Frame → PulseDaemonError
error_reply frame =
    let (code, r) = read_u32 (new frame.payload) in
    server (code_or_zero code) (message_or_default (read_string r).0)

pub record PulseDaemon : Type 0 where
  pub stream : Socket
  pub socket_path : String
  pub next_tag : ℕ
  pub server_version : ℕ

abbrev pub on_stream : {A : Type 0} → Action Socket A → Action PulseDaemon A
on_stream m d = let (result, stream) = m d.stream in (result, record d { stream = stream })

-- The loop of `request`. The deadline passes after a number of frames.
unfoldable pub await_reply : ℕ → ℕ → Action Socket Frame
unfolding read_frame error_reply
await_reply zero tag = fail (io timed_out)
await_reply (suc patience) tag = do
  frame ← read_frame
  if not (frame.tag == tag)
      then await_reply patience tag
      else if frame.command == Command.error || frame.command == Command.timeout
      then fail (error_reply frame)
      else pure frame

unfoldable pub request : ℕ → ℕ → List ℕ → Action PulseDaemon Frame
unfolding write_frame await_reply
request patience command tagstruct d =
    (do
      _ ← on_stream (write_frame command d.next_tag tagstruct)
      on_stream (await_reply patience d.next_tag))
      (record d { next_tag = (d.next_tag + 1) % 2 ^ 32 })

-- A request whose reply must be one command, and what is made of its payload.
abbrev pub expect :
    {A : Type 0} → ℕ → ℕ → ℕ → List ℕ → (List ℕ → Action PulseDaemon A) → Action PulseDaemon A
expect patience command answer tagstruct next = do
  frame ← request patience command tagstruct
  if frame.command == answer
      then next frame.payload
      else fail (protocol (expected_reply command frame.command))

abbrev pub empty : TagWriter
empty = record { buf = [] }

abbrev pub auth_request : Option (List ℕ) → List ℕ
auth_request none = (write_u32 empty protocol_version).buf
auth_request (some cookie) = (write_arbitrary (write_u32 empty protocol_version) cookie).buf

unfoldable pub auth : ℕ → Option (List ℕ) → Action PulseDaemon (Unit {0})
auth patience cookie = expect patience Command.auth Command.reply (auth_request cookie) (λ payload.
    do
      version ← lift (read_u32 (new payload)).0
      λ d. (ok tt, record d { server_version = version }))

abbrev pub name_request : List ℕ → List ℕ
name_request pid =
    (write_proplist empty (
      (ascii "application.name", ascii "sonicbrew gw-pulse")
      ∷ (ascii "application.process.id", pid)
      ∷ [])).buf

-- The client index is read when there is one, and not kept.
abbrev pub client_index : List ℕ → Action PulseDaemon (Unit {0})
client_index [] = pure tt
client_index (b ∷ bs) = do _ ← lift (read_u32 (new (b ∷ bs))).0; pure tt

unfoldable pub set_client_name : ℕ → List ℕ → Action PulseDaemon (Unit {0})
set_client_name patience pid =
    expect patience Command.set_client_name Command.reply (name_request pid) client_index

-- `Some` cookie of another length than 256 bytes
abbrev pub wrong_length : Option (List ℕ) → Option ℕ
wrong_length none = none
wrong_length (some cookie) = if length cookie == auth_cookie_len then none else some (length cookie)

abbrev pub handshake : ℕ → List ℕ → Option (List ℕ) → Action PulseDaemon (Unit {0})
handshake patience pid cookie = do _ ← auth patience cookie; set_client_name patience pid

abbrev pub connected : Result (Unit {0}) × PulseDaemon → Result PulseDaemon
connected (ok _, d) = ok d
connected (err e, d) = err e

abbrev pub refuse : Option ℕ → Result PulseDaemon → Result PulseDaemon
refuse (some n) result = err (cookie_length n)
refuse none result = result

-- The socket that the system connected is an argument; one that it did not is an error before.
unfoldable pub connect_with_cookie :
    ℕ → List ℕ → String → Option (List ℕ) → Socket → Result PulseDaemon
unfolding auth set_client_name
connect_with_cookie patience pid path cookie stream = refuse (wrong_length cookie) (
    connected (
      handshake patience pid cookie
        (record { stream = stream; socket_path = path; next_tag = 1; server_version = 0 })))
