-- ===== src/Session/Graph.antt =====
-- The topology types of the `audio_graph_bsd` crate, as crates/session-store and crates/control-api
-- build them and match on them. What the crate does with a mutation is a parameter.
use sonicbrew.Base.{ℕ, List, []}

pub data PortDir : Type 0 where
  input output : PortDir

pub data SampleFmt : Type 0 where
  f32 : SampleFmt

pub record PortMeta : Type 0 where
  pub direction : PortDir
  pub channels : ℕ
  pub sample_format : SampleFmt

pub record NodeSnapshot : Type 0 where
  pub id : ℕ
  pub inputs : List PortMeta
  pub outputs : List PortMeta

-- A node and one of its ports.
abbrev pub Endpoint : Type 0
Endpoint = ℕ × ℕ

-- An edge, with `from` and `to` as its source and target.
pub record SnapshotEdge : Type 0 where
  pub source : Endpoint
  pub target : Endpoint

pub data Mutation : Type 0 where
  add_node : NodeSnapshot → Mutation
  remove_node : ℕ → Mutation
  add_link : SnapshotEdge → Mutation
  remove_link : ℕ → Mutation

pub data TopologyEvent : Type 0 where
  node_added : NodeSnapshot → TopologyEvent
  node_removed : ℕ → TopologyEvent
  link_added : SnapshotEdge → TopologyEvent
  link_removed : ℕ → TopologyEvent

pub record TopologySnapshot : Type 0 where
  pub nodes : List NodeSnapshot
  pub edges : List SnapshotEdge

-- `TopologySnapshot::new`
abbrev pub empty : TopologySnapshot
empty = record { nodes = []; edges = [] }

-- `snapshot.apply(&mutation)`, as a function of the snapshot.
abbrev pub Apply : Type 0
Apply = TopologySnapshot → Mutation → TopologySnapshot
