-- ===== src/Pulse/Reader/Server.antt =====
-- The body of a `SERVER_INFO` reply, as `server_info` of crates/gw-pulse/src/daemon.rs reads it.
use sonicbrew.Base.{ℕ, ◌&&◌, not, Option, none, some, List, [], leb, ◌==◌, if◌then◌else◌}
use sonicbrew.Pulse.Reader.{
  Read, ◌>>=◌, pure, read_u32, read_string, read_sample_spec, read_channel_map, remaining,
}

pub record RawSampleSpec : Type 0 where
  pub sample_rate : ℕ
  pub channels : ℕ
  pub format : ℕ

pub record ServerInfo : Type 0 where
  pub user_name : Option (List ℕ)
  pub host_name : Option (List ℕ)
  pub server_version : List ℕ
  pub server_name : List ℕ
  pub default_sink_name : Option (List ℕ)
  pub default_source_name : Option (List ℕ)
  pub cookie : ℕ
  pub sample_spec : RawSampleSpec

-- `unwrap_or_default`
abbrev text_or_empty : Option (List ℕ) → List ℕ
text_or_empty none = []
text_or_empty (some text) = text

-- `skip_channel_map` of crates/gw-pulse/src/tags.rs
unfoldable pub skip_channel_map : Read (Unit {0})
skip_channel_map = do _ ← read_channel_map; pure tt

-- Servers add a channel map from version 15 on; it is skipped when it is there.
abbrev pub skip_map : ℕ → Read (Unit {0})
skip_map version r =
    if leb 15 version && not (remaining r == 0) then skip_channel_map r else pure tt r

unfoldable pub read_server_info : ℕ → Read ServerInfo
unfolding skip_channel_map
read_server_info version = do
  user_name ← read_string
  host_name ← read_string
  server_version ← read_string
  server_name ← read_string
  (sample_rate, channels, format) ← read_sample_spec
  default_sink_name ← read_string
  default_source_name ← read_string
  cookie ← read_u32
  _ ← skip_map version
  pure (record {
    user_name = user_name;
    host_name = host_name;
    server_version = text_or_empty server_version;
    server_name = text_or_empty server_name;
    default_sink_name = default_sink_name;
    default_source_name = default_source_name;
    cookie = cookie;
    sample_spec = record { sample_rate = sample_rate; channels = channels; format = format };
  })
