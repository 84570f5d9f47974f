-- ===== src/Control/Preset.antt =====
-- The presets of crates/control-api/src/lib.rs: the whole graph written out, and put back into a
-- controller.
pub mod Clear
pub mod Restore
pub mod RoundTrip
mod Tests
use sonicbrew.Base.{ℕ, Option, List, [], ◌∷◌, map, ◌%◌, ◌^◌, String}
use sonicbrew.Session.Graph.{
  TopologySnapshot, NodeSnapshot, SnapshotEdge, add_node, remove_node, add_link, input, output,
}
use sonicbrew.Control.Params.{NodeParams}
use sonicbrew.Control.Store.{AudioGraph, LocalSessionStore}
use sonicbrew.Control.Types.{NodeInfo, LinkInfo, Result, ok, err}
use sonicbrew.Control.Controller.{
  GraphController, topology, mutate, register, unregister, list_nodes, list_links, build_ports,
}

abbrev pub preset_version : ℕ
preset_version = 1

-- `PresetLink`, with `from` and `to` as its source and target.
pub record PresetLink : Type 0 where
  pub source : ℕ
  pub source_port : ℕ
  pub target : ℕ
  pub target_port : ℕ

module _ (F : Type 0) where
  pub record PresetNode : Type 0 where
    pub id : ℕ
    pub label : String
    pub inputs : ℕ
    pub outputs : ℕ
    pub kind : Option String
    pub params : Option (NodeParams F)

  pub record Preset : Type 0 where
    pub version : ℕ
    pub nodes : List PresetNode
    pub links : List PresetLink

  abbrev pub preset_node : NodeInfo F → PresetNode
  preset_node n = record {
    id = n.id;
    label = n.label;
    inputs = n.inputs;
    outputs = n.outputs;
    kind = n.kind;
    params = n.params;
  }

abbrev pub preset_link : LinkInfo → PresetLink
preset_link l = record {
  source = l.source;
  source_port = l.source_port;
  target = l.target;
  target_port = l.target_port;
}

abbrev pub snapshot_of : {F : Type 0} → PresetNode F → NodeSnapshot
snapshot_of n = record {
  id = n.id;
  inputs = build_ports n.inputs input;
  outputs = build_ports n.outputs output;
}

abbrev pub edge_of : PresetLink → SnapshotEdge
edge_of l = record { source = (l.source, l.source_port); target = (l.target, l.target_port) }

abbrev pub node_ids : List NodeSnapshot → List ℕ
node_ids = map (λ n. n.id)

module _ (F : Type 0) (graph : AudioGraph) (store : LocalSessionStore graph) where
  abbrev Controller : Type 0
  Controller = GraphController F graph store

  unfoldable pub export_preset : Controller → Preset F
  unfolding list_nodes list_links
  export_preset c = record {
    version = preset_version;
    nodes = map (preset_node F) (list_nodes F graph store c);
    links = map preset_link (list_links F graph store c);
  }

  -- `?` after one loop of `import_preset`: what stands is left as it is.
  abbrev pub and_then :
      Result (Unit {0}) × Controller
      → (Controller → Result (Unit {0}) × Controller)
      → Result (Unit {0}) × Controller
  and_then (ok _, c) next = next c
  and_then (err e, c) next = (err e, c)

  -- The loops of `import_preset`.
  unfoldable pub remove_all : List ℕ → Controller → Result (Unit {0}) × Controller
  remove_all [] c = (ok tt, c)
  remove_all (id ∷ ids) c =
      mutate F graph store c (remove_node id)
        (λ c'. remove_all ids (unregister F graph store id c'))

  unfoldable pub add_all : List (PresetNode F) → Controller → Result (Unit {0}) × Controller
  add_all [] c = (ok tt, c)
  add_all (n ∷ ns) c =
      mutate F graph store c (add_node (snapshot_of n))
        (λ c'. add_all ns (register F graph store n.id n.label n.kind n.params c'))

  unfoldable pub link_all : List PresetLink → Controller → Result (Unit {0}) × Controller
  link_all [] c = (ok tt, c)
  link_all (l ∷ ls) c = mutate F graph store c (add_link (edge_of l)) (λ c'. link_all ls c')

  unfoldable pub import_preset : Controller → Preset F → Result (Unit {0}) × Controller
  unfolding remove_all add_all link_all
  import_preset c preset =
      and_then (remove_all (node_ids (topology F graph store c).nodes) c) (λ cleared.
        and_then (add_all preset.nodes cleared) (λ filled. link_all preset.links filled))
