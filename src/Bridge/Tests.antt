-- ===== src/Bridge/Tests.antt =====
-- The properties of crates/gw-alsa-plugin/src/bridge.rs at a concrete handshake.
use sonicbrew.Base.{Bool, ◌≡◌, refl, [], ◌∷◌, ◌++◌, arith}
use sonicbrew.Base.Ascii.{ascii}
use sonicbrew.Base.Int.{pos}
use sonicbrew.Bridge.{Handshake, new, capture, write_handshake}
use sonicbrew.Bridge.RoundTrip.{IsHandshake}
use sonicbrew.Bridge.Stream.{
  connect, connect-write_handshake, connect-new, send_frames, recv_frames_into,
  recv_frames_into-send_frames,
}
use sonicbrew.Bridge.Stream
use sonicbrew.Bridge.Config
use sonicbrew.Bridge.Config.{
  BridgeConfig, tcp, str, int, config_from_pairs, invalid, port_zero, take_pairs, take_pair, key_of,
  same_text, config_of, endpoint_of, parse_server, rsplit_colon, has_colon, parse_u16, parse_digits,
  Text, default_channels, default_rate,
}
use sonicbrew.Bridge.Config.Bounds.{IsConfig, config_from_pairs-IsConfig}

abbrev stereo : Handshake
stereo = new capture 2 48000

stereo-IsHandshake : IsHandshake stereo
unfolding new
stereo-IsHandshake = record {
  magic = refl;
  version = refl;
  channels = omega arith;
  channels_max = omega arith;
  rate = omega arith;
  rate_max = omega arith;
}

connected :
    connect Bool.true capture 2 48000 (write_handshake stereo ++ 7 ∷ [])
    ≡ Stream.ok (7 ∷ [], stereo)
connected = connect-write_handshake capture 2 48000 (7 ∷ []) stereo-IsHandshake

connect-new_example : stereo ≡ new capture 2 48000
connect-new_example =
    connect-new capture 2 48000 (write_handshake stereo ++ 7 ∷ []) (7 ∷ []) stereo connected

-- A bracketed IPv6 host keeps its brackets.
abbrev bracketed : BridgeConfig
bracketed = record { endpoint = tcp (ascii "[::1]") 9001; channels = 8; rate = 96000 }

bracketed_server :
    config_from_pairs (
      (ascii "server", str (ascii "[::1]:9001"))
      ∷ (ascii "channels", int (pos 8))
      ∷ (ascii "rate", int (pos 96000))
      ∷ (ascii "hint", str [])
      ∷ [])
    ≡ Config.ok bracketed
unfolding config_from_pairs take_pairs take_pair key_of same_text config_of endpoint_of parse_server
    rsplit_colon has_colon parse_u16 parse_digits
bracketed_server = refl

config_from_pairs-IsConfig_example : IsConfig bracketed
config_from_pairs-IsConfig_example = config_from_pairs-IsConfig _ bracketed bracketed_server
