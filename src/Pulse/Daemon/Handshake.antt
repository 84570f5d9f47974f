-- ===== src/Pulse/Daemon/Handshake.antt =====
-- The handshake of crates/gw-pulse/src/daemon.rs with a server that answers.
use sonicbrew.Base.{
  ℕ, ◌+◌, ◌^◌, ◌<◌, ◌≤◌, ◌≡◌, refl, ap, ◌∙◌, true, Option, none, some, List, [], ◌∷◌, ◌++◌, length,
  length-append, arith, ◌==◌, String,
}
use sonicbrew.Base.Bytes.{to_be32}
use sonicbrew.Pulse.Codec
use sonicbrew.Pulse.Codec.{max_len}
use sonicbrew.Pulse.Tags.{tag_u32, tag_string_null, write_u32, write_arbitrary, write_proplist}
use sonicbrew.Pulse.Reader.{read_u32, new}
use sonicbrew.Pulse.Reader.RoundTrip.{Reads-read_u32}
use sonicbrew.Pulse.Command
use sonicbrew.Pulse.Socket.{Socket, ok, Action}
use sonicbrew.Pulse.Daemon.{
  Frame, PulseDaemon, expect, auth, auth_request, set_client_name, name_request,
  connect_with_cookie, connected, auth_cookie_len, client_index, wrong_length, refuse, handshake,
}
use sonicbrew.Pulse.Daemon.Frames.{IsFrame, frame_bytes}
use sonicbrew.Pulse.Daemon.Request.{Unsolicited, all_bytes, after, request-answer}

-- A server's frames up to and with its reply to the request with a tag.
pub record IsAnswer (patience tag : ℕ) (others : List Frame) (reply : Frame) : Type 0 where
  pub is_frame : IsFrame reply
  pub in_time : length others < patience
  pub unsolicited : Unsolicited tag others
  pub tag_of : reply.tag ≡ tag
  pub command_of : reply.command ≡ Command.reply

-- A reply to a request on a ready connection is what the caller goes on with.
pub expect-reply :
    {A : Type 0} (patience command : ℕ) (body : List ℕ) (next : List ℕ → Action PulseDaemon A)
    (d : PulseDaemon) (others : List Frame) (reply : Frame) (rest : List ℕ)
    → d.stream.write_faults ≡ []
    → command < 2 ^ 32
    → 10 + length body ≤ max_len
    → IsAnswer patience d.next_tag others reply
    → d.stream.incoming ≡ all_bytes others ++ (frame_bytes reply ++ rest)
    → expect patience command Command.reply body next d
      ≡ next reply.payload (after d command body rest)
expect-reply patience command body next d others reply rest ready small fits h e =
    let found =
      request-answer patience command body d others reply rest ready small fits h.in_time
        h.unsolicited h.is_frame h.tag_of e in
    rw (found, h.command_of) refl

-- The payload of a reply that starts with a word.
version_of :
    (v : ℕ) (more : List ℕ)
    → v < 2 ^ 32
    → length more ≤ max_len
    → (read_u32 (new (tag_u32 ∷ (to_be32 v ++ more)))).0 ≡ Codec.ok v
version_of v more h fits = ap (λ r. r.0) (Reads-read_u32 v h [] more (omega (arith, fits)))

-- A cookie that `AUTH` can carry.
abbrev pub IsCookie : Option (List ℕ) → Type 0
IsCookie none = Unit {0}
IsCookie (some cookie) = length cookie ≡ auth_cookie_len

wrong_length-none : (cookie : Option (List ℕ)) → IsCookie cookie → wrong_length cookie ≡ none
wrong_length-none none h = refl
wrong_length-none (some cookie) h =
    let same : (length cookie == auth_cookie_len) ≡ true = ground (arith, h) in rw same refl

auth_request_fits :
    (cookie : Option (List ℕ)) → IsCookie cookie → 10 + length (auth_request cookie) ≤ max_len
unfolding write_u32 write_arbitrary
auth_request_fits none h = omega arith
auth_request_fits (some cookie) h = omega (arith, h)

name_request_fits : (pid : List ℕ) → length pid ≤ 20 → 10 + length (name_request pid) ≤ max_len
unfolding write_proplist
name_request_fits pid h = omega (arith, h, length-append pid (tag_string_null ∷ []))

-- A reply to `SET_CLIENT_NAME`: empty, or with the client's index.
abbrev pub client_payload : Option ℕ → List ℕ
client_payload none = []
client_payload (some index) = tag_u32 ∷ (to_be32 index ++ [])

abbrev IsIndex : Option ℕ → Type 0
IsIndex none = Unit {0}
IsIndex (some index) = index < 2 ^ 32

client_index_read :
    (index : Option ℕ) (d : PulseDaemon)
    → IsIndex index
    → client_index (client_payload index) d ≡ (ok tt, d)
client_index_read none d h = refl
client_index_read (some index) d h = rw (version_of index [] h (omega arith)) refl

-- What the server sends in a handshake: its reply to `AUTH` with its version first, and then its reply
-- to `SET_CLIENT_NAME`, each after any frames that are not meant for the client.
pub record Server (patience : ℕ) (version : ℕ) (index : Option ℕ) : Type 0 where
  pub before_auth : List Frame
  pub auth_reply : Frame
  pub more : List ℕ
  pub before_name : List Frame
  pub name_reply : Frame
  pub auth_answer : IsAnswer patience 1 before_auth auth_reply
  pub name_answer : IsAnswer patience 2 before_name name_reply
  pub version_small : version < 2 ^ 32
  pub index_small : IsIndex index
  pub more_fits : length more ≤ max_len
  pub auth_payload : auth_reply.payload ≡ tag_u32 ∷ (to_be32 version ++ more)
  pub name_payload : name_reply.payload ≡ client_payload index

module _ {patience version : ℕ} {index : Option ℕ} (server : Server patience version index) where
  abbrev pub name_part : List ℕ → List ℕ
  name_part rest = all_bytes server.before_name ++ (frame_bytes server.name_reply ++ rest)

  abbrev pub sent_by : List ℕ → List ℕ
  sent_by rest = all_bytes server.before_auth ++ (frame_bytes server.auth_reply ++ name_part rest)

  abbrev pub request_frame : ℕ → ℕ → List ℕ → Frame
  request_frame command tag body = record { command = command; tag = tag; payload = body }

  auth-version :
      (cookie : Option (List ℕ)) (d : PulseDaemon) (rest : List ℕ)
      → IsCookie cookie
      → d.stream.write_faults ≡ []
      → d.next_tag ≡ 1
      → d.stream.incoming ≡ sent_by rest
      → auth patience cookie d ≡ (
        ok tt,
        record (after d Command.auth (auth_request cookie) (name_part rest)) {
          server_version = version;
        },
      )
  unfolding auth
  auth-version cookie d rest given ready first e =
      expect-reply patience Command.auth (auth_request cookie) _ d server.before_auth
        server.auth_reply (name_part rest) ready (omega arith) (auth_request_fits cookie given)
        (rw first server.auth_answer) e
      ∙ rw
          (
            server.auth_payload,
            version_of version server.more server.version_small server.more_fits,
          )
          refl

  set_client_name-after :
      (pid : List ℕ) (d : PulseDaemon) (rest : List ℕ)
      → length pid ≤ 20
      → d.stream.write_faults ≡ []
      → d.next_tag ≡ 2
      → d.stream.incoming ≡ name_part rest
      → set_client_name patience pid d
        ≡ (ok tt, after d Command.set_client_name (name_request pid) rest)
  unfolding set_client_name
  set_client_name-after pid d rest short ready second e =
      expect-reply patience Command.set_client_name (name_request pid) client_index d
        server.before_name server.name_reply rest ready (omega arith) (name_request_fits pid short)
        (rw second server.name_answer) e
      ∙ rw server.name_payload (client_index_read index _ server.index_small)

  -- With no cookie or one of 256 bytes, a process id of at most 20 digits, and a connection that takes
  -- what is written, a server that answers both requests in time, whatever else it sends before each
  -- answer, makes the client connect: with the server's version, with 3 as the next tag, after writing
  -- the frame of `AUTH` and then that of `SET_CLIENT_NAME`, and with what the server sent later unread.
  pub connect_with_cookie-Server :
      (pid : List ℕ) (path : String) (cookie : Option (List ℕ)) (rest : List ℕ)
      → length pid ≤ 20
      → IsCookie cookie
      → connect_with_cookie patience pid path cookie
          (record { incoming = sent_by rest; written = []; write_faults = [] })
        ≡ ok (record {
          stream = record {
            incoming = rest;
            written =
                frame_bytes (request_frame Command.auth 1 (auth_request cookie))
                ++ frame_bytes (request_frame Command.set_client_name 2 (name_request pid));
            write_faults = [];
          };
          socket_path = path;
          next_tag = 3;
          server_version = version;
        })
  unfolding connect_with_cookie
  connect_with_cookie-Server pid path cookie rest short given =
      let stream : Socket = record { incoming = sent_by rest; written = []; write_faults = [] } in
      let d : PulseDaemon = record {
        stream = stream;
        socket_path = path;
        next_tag = 1;
        server_version = 0;
      } in
      let d' : PulseDaemon = record (after d Command.auth (auth_request cookie) (name_part rest)) {
        server_version = version;
      } in
      ap (λ w. refuse w (connected (handshake patience pid cookie d)))
        (wrong_length-none cookie given)
      ∙ rw
          (
            auth-version cookie d rest given refl refl refl,
            set_client_name-after pid d' rest short refl refl refl,
          )
          refl
