-- ===== src/Pulse/Daemon/Tests.antt =====
-- The daemon client of crates/gw-pulse at concrete inputs, and runs of the code.
use sonicbrew.Base.{ℕ, ◌≡◌, refl, none, some, List, [], ◌∷◌, ◌++◌, arith}
use sonicbrew.Base.Ascii.{ascii}
use sonicbrew.Base.Bytes.{to_be32}
use sonicbrew.Pulse.Tags.{tag_u32}
use sonicbrew.Pulse.Reader.{read_u32, read_string}
use sonicbrew.Pulse.Command
use sonicbrew.Pulse.Socket.{ok, err, server}
use sonicbrew.Pulse.Daemon.{
  Frame, PulseDaemon, request, error_reply, auth_request, name_request, connect_with_cookie,
}
use sonicbrew.Pulse.Daemon.Frames.{IsFrame, frame_bytes}
use sonicbrew.Pulse.Daemon.Request.{after, request-answer}
use sonicbrew.Pulse.Daemon.Handshake.{Server, sent_by, request_frame, connect_with_cookie-Server}

-- A request for more data, which nobody asked for.
abbrev unsolicited : Frame
unsolicited = record { command = 61; tag = 0xFFFF_FFFF; payload = [] }

abbrev reply : ℕ → List ℕ → Frame
reply tag payload = record { command = Command.reply; tag = tag; payload = payload }

unsolicited-IsFrame : IsFrame unsolicited
unsolicited-IsFrame = record {
  command_small = omega arith;
  tag_small = omega arith;
  fits = omega arith;
}

abbrev refusal : Frame
refusal = record { command = Command.error; tag = 7; payload = tag_u32 ∷ to_be32 14 }

refusal-IsFrame : IsFrame refusal
refusal-IsFrame = record {
  command_small = omega arith;
  tag_small = omega arith;
  fits = omega arith;
}

abbrev daemon : PulseDaemon
daemon = record {
  stream = record {
    incoming = frame_bytes unsolicited ++ (frame_bytes refusal ++ 1 ∷ []);
    written = [];
    write_faults = [];
  };
  socket_path = "/tmp/pulse-native";
  next_tag = 7;
  server_version = 35;
}

request-answer_example :
    request 5 Command.query_info [] daemon
    ≡ (err (server 14 (ascii "no message")), after daemon Command.query_info [] (1 ∷ []))
unfolding error_reply read_u32 read_string
request-answer_example =
    request-answer 5 Command.query_info [] daemon (unsolicited ∷ []) refusal (1 ∷ []) refl
      (omega arith) (omega arith) (omega arith) ((unsolicited-IsFrame, λ h. ground (arith, h)), tt)
      refusal-IsFrame refl refl

abbrev version_reply : Frame
version_reply = reply 1 (tag_u32 ∷ (to_be32 35 ++ []))

abbrev name_reply : Frame
name_reply = reply 2 (tag_u32 ∷ (to_be32 9 ++ []))

abbrev answers : Server 3 35 (some 9)
answers = record {
  before_auth = unsolicited ∷ [];
  auth_reply = version_reply;
  more = [];
  before_name = [];
  name_reply = name_reply;
  auth_answer = record {
    is_frame = record { command_small = omega arith; tag_small = omega arith; fits = omega arith };
    in_time = omega arith;
    unsolicited = ((unsolicited-IsFrame, λ h. ground (arith, h)), tt);
    tag_of = refl;
    command_of = refl;
  };
  name_answer = record {
    is_frame = record { command_small = omega arith; tag_small = omega arith; fits = omega arith };
    in_time = omega arith;
    unsolicited = tt;
    tag_of = refl;
    command_of = refl;
  };
  version_small = omega arith;
  index_small = omega arith;
  more_fits = omega arith;
  auth_payload = refl;
  name_payload = refl;
}

abbrev pid : List ℕ
pid = ascii "4711"

connect_with_cookie-Server_example :
    connect_with_cookie 3 pid "/tmp/pulse-native" none
      (record { incoming = sent_by answers []; written = []; write_faults = [] })
    ≡ ok (record {
      stream = record {
        incoming = [];
        written =
            frame_bytes (request_frame answers Command.auth 1 (auth_request none))
            ++ frame_bytes (request_frame answers Command.set_client_name 2 (name_request pid));
        write_faults = [];
      };
      socket_path = "/tmp/pulse-native";
      next_tag = 3;
      server_version = 35;
    })
connect_with_cookie-Server_example =
    connect_with_cookie-Server answers pid "/tmp/pulse-native" none [] (omega arith) tt
