-- ===== src/Pulse/Command.antt =====
-- The commands of the native protocol, from crates/gw-pulse/src/codec.rs.
use sonicbrew.Base.{ℕ}

abbrev pub error : ℕ
error = 0

abbrev pub timeout : ℕ
timeout = 1

abbrev pub reply : ℕ
reply = 2

abbrev pub create_playback_stream : ℕ
create_playback_stream = 3

abbrev pub delete_playback_stream : ℕ
delete_playback_stream = 4

abbrev pub auth : ℕ
auth = 8

abbrev pub set_client_name : ℕ
set_client_name = 9

abbrev pub sample_float32le : ℕ
sample_float32le = 5

abbrev pub volume_norm : ℕ
volume_norm = 0x10000

abbrev pub query_info : ℕ
query_info = 20

abbrev pub server_info : ℕ
server_info = 2
