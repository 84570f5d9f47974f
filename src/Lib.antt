-- ===== src/Lib.antt =====
-- sonicbrew: a network audio server. Its crates are a session store (the graph's topology, in a
-- write-ahead log or replicated by Raft), a control API over it, an audio engine, and gateways
-- to other systems: RTP/AES67, PulseAudio, ALSA and browsers. This library models the parts
-- whose logic is in the repository, file by file, and proves what makes them correct.
--
-- The files and the code that they model:
--
-- Base: lists, bytes, tests on numbers and hash maps that the models share. Numbers are
-- unbounded; a machine integer's wrap-around is written out where the source has one.
-- Rtp: crates/net-rtp-aes67/src. Header, Packet, Payload, Pcm (codec.rs), Udp (transport.rs),
-- Netmap (transport/netmap_backend.rs), Jitter (jitter.rs), Worker (worker.rs).
-- Session: crates/session-store/src. Graph (the topology types of audio_graph_bsd), Redb (what
-- is asked of the database and of serde), Wal (lib.rs), Raft (openraft's types), LogStore
-- (raft_log_store.rs), StateMachine (raft_state_machine.rs).
-- Control: crates/control-api/src/lib.rs. Text, Params and Types (the values), Store (the
-- SessionStore trait, with the laws that its implementation by Session.Wal meets), Controller
-- and Preset (GraphController), Rest (the handlers).
-- Pulse: crates/gw-pulse/src. Codec and Command (codec.rs), Tags (the writer of tags.rs),
-- Reader (its reader), Socket and Daemon (daemon.rs).
-- Alsa: crates/gw-alsa/src. Format (format.rs), Params (params.rs).
-- Bridge: crates/gw-alsa-plugin/src/bridge.rs: the handshake, Stream (BridgeStream and the
-- samples), Config (config_from_pairs).
-- Browser: crates/gw-browser/src/codec.rs.
-- Engine: crates/audio-engine/src/lib.rs. Nodes.ChannelMap and Nodes.Delay model the nodes of
-- those names under nodes/.
-- Monitor: crates/monitor/src/lib.rs.
--
-- How they interact: the controller changes the topology through a session store, an interface
-- of operations and laws that Control.Store defines; the single-node engine of Session.Wal
-- fills it. The state machine of Session.StateMachine applies the entries that the log of
-- Session.LogStore holds. The engine rebuilds its graph from the topology that a session store
-- shows after each event. A request to Control.Rest ends in one call of the controller. The RTP
-- worker feeds datagrams from Rtp.Udp to Rtp.Jitter.
--
-- Conventions: a type's fields and an operation's branches are those of the source, under the
-- source's names in snake case; a handler that changes state returns its result and the new
-- state; a section under a lock is one step, so that a sequence of calls is a sequence of
-- steps, and the lock-free counter of Monitor takes a step at each atomic operation. A write to
-- the database takes the step at which it fails, if any, as an argument, and a failing write
-- leaves the rows as they were. Code of other crates is a parameter with laws: redb
-- (Session.Redb.Redb), serde_json and bincode (Serde), audio_graph_bsd
-- (Control.Store.AudioGraph, Engine.GraphCrate), audio_opus_bsd (Browser.OpusCrate). Floats are
-- parameters too (Rtp.Pcm.Float, Engine.Nodes.Float), or the 32 bits that carry them.
--
-- Bounds and fuel: the loop of drain_jitter runs on fuel, one more than the packets that wait,
-- which is enough since each of its rounds but the first takes a packet out. The number of
-- decimal digits of a node id is bounded by the id. The deadline of a PulseAudio request is the
-- number of frames that it may wait for, so that its loop takes a step at each. All other loops
-- are structural. Sequence numbers are taken modulo 2 ^ 16, RTP timestamps modulo 2 ^ 32, a
-- buffer offset below 2 ^ 64, node ids saturate at 2 ^ 64 - 1.
--
-- The controller and the REST handlers are modelled one call at a time, though the source may
-- run several at once; the laws of LocalSessionStore are those of the single-node engine, and
-- DistributedRaftEngine, whose error may follow a commit, does not meet them.
--
-- Not modelled: calls of the controller that overlap; sockets, threads, axum and tokio glue;
-- the opening of netmap ports, which is ioctl and mmap; the signal processing nodes but two,
-- whose value is in f32 arithmetic; the Raft protocol, which is openraft's; the socket and
-- cookie paths of the PulseAudio client; the command line of the binary; the ALSA plugin's C
-- interface.
pub mod Base
pub mod Monitor
pub mod Engine
pub mod Browser
pub mod Pulse
pub mod Rtp
pub mod Alsa
pub mod Bridge
pub mod Control
pub mod Session
