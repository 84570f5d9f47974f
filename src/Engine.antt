-- ===== src/Engine.antt =====
-- The audio engine's graph: crates/audio-engine/src/lib.rs. A rebuild makes a graph from a topology, and
-- the engine takes the newest one between two cycles. The graph itself is the `audio_graph_bsd` crate's.
pub mod Build
pub mod Reload
pub mod Nodes
mod Tests
use sonicbrew.Base.{ℕ, ◌≡◌, Option, none, some, List, [], ◌∷◌, ◌++◌, length}
use sonicbrew.Base.HashMap
use sonicbrew.Base.HashMap.{HashMap}
use sonicbrew.Session.Graph.{TopologySnapshot, NodeSnapshot, SnapshotEdge, Endpoint}

pub data BuiltNode (Node Sink : Type 0) : Type 0 where
  plain : Node → BuiltNode Node Sink
  sink : Sink → BuiltNode Node Sink

-- What the crate's fallible calls return.
pub data Outcome (E A : Type 0) : Type 0 where
  done : A → Outcome E A
  failed : E → Outcome E A

-- `Graph` of the crate. `slots` are the nodes that were registered, as what, and `links` the edges, in
-- order; ids are handed out from 0 on.
pub record GraphCrate (Node Sink : Type 0) : Type 1 where
  pub Graph : Type 0
  pub GraphError : Type 0
  pub GraphConfig : Type 0
  pub ProcessContext : Type 0
  pub new : Graph
  pub add_node : Graph → Node → ℕ × Graph
  pub add_sink : Graph → Sink → ℕ × Graph
  pub link : Graph → Endpoint → Endpoint → Outcome GraphError Graph
  pub compile : Graph → GraphConfig → Outcome GraphError Graph
  pub process_cycle : Graph → ProcessContext → Graph
  pub flush_sinks : Graph → Graph
  pub slots : Graph → List (BuiltNode Node Sink)
  pub links : Graph → List SnapshotEdge
  pub slots-new : slots new ≡ []
  pub links-new : links new ≡ []
  pub add_node_id : (g : Graph) (n : Node) → (add_node g n).0 ≡ length (slots g)
  pub slots-add_node : (g : Graph) (n : Node) → slots (add_node g n).1 ≡ slots g ++ plain n ∷ []
  pub links-add_node : (g : Graph) (n : Node) → links (add_node g n).1 ≡ links g
  pub add_sink_id : (g : Graph) (n : Sink) → (add_sink g n).0 ≡ length (slots g)
  pub slots-add_sink : (g : Graph) (n : Sink) → slots (add_sink g n).1 ≡ slots g ++ sink n ∷ []
  pub links-add_sink : (g : Graph) (n : Sink) → links (add_sink g n).1 ≡ links g
  pub slots-link :
      (g : Graph) (from to : Endpoint) {g' : Graph} → link g from to ≡ done g' → slots g' ≡ slots g
  pub links-link :
      (g : Graph) (from to : Endpoint) {g' : Graph}
      → link g from to ≡ done g'
      → links g' ≡ links g ++ record { source = from; target = to } ∷ []
  pub slots-compile :
      (g : Graph) (config : GraphConfig) {g' : Graph}
      → compile g config ≡ done g'
      → slots g' ≡ slots g
  pub links-compile :
      (g : Graph) (config : GraphConfig) {g' : Graph}
      → compile g config ≡ done g'
      → links g' ≡ links g
  pub slots-process_cycle :
      (g : Graph) (ctx : ProcessContext) → slots (process_cycle g ctx) ≡ slots g
  pub links-process_cycle :
      (g : Graph) (ctx : ProcessContext) → links (process_cycle g ctx) ≡ links g
  pub slots-flush_sinks : (g : Graph) → slots (flush_sinks g) ≡ slots g
  pub links-flush_sinks : (g : Graph) → links (flush_sinks g) ≡ links g

module _ {Node Sink : Type 0} (graph_crate : GraphCrate Node Sink) where
  -- The texts of `EngineError::Build`, with what they name.
  pub data EngineError : Type 0 where
    no_node edge_from_unknown edge_to_unknown : ℕ → EngineError
    graph_error : graph_crate.GraphError → EngineError

  -- What `NodeFactory::build` answers while one graph is built. Its `&self` reads registries that change
  -- between builds: the factories of a run are a function of them (Engine.Reload).
  abbrev pub NodeFactory : Type 0
  NodeFactory = ℕ → Option (BuiltNode Node Sink)

  abbrev pub Built : Type 0 → Type 0
  Built = Outcome EngineError

  -- `?`
  abbrev pub and_then : {A B : Type 0} → Built A → (A → Built B) → Built B
  and_then (done a) next = next a
  and_then (failed e) next = failed e

  abbrev pub from_graph : {A : Type 0} → Outcome graph_crate.GraphError A → Built A
  from_graph (done a) = done a
  from_graph (failed e) = failed (graph_error e)

  abbrev pub ok_or_else : {A : Type 0} → Option A → EngineError → Built A
  ok_or_else (some a) e = done a
  ok_or_else none e = failed e

  abbrev pub add_built : graph_crate.Graph → BuiltNode Node Sink → ℕ × graph_crate.Graph
  add_built g (plain node) = graph_crate.add_node g node
  add_built g (sink s) = graph_crate.add_sink g s

  -- The loop over the nodes, with the map from the topology's ids to the graph's.
  unfoldable pub add_all :
      NodeFactory
      → List NodeSnapshot
      → graph_crate.Graph
      → HashMap ℕ
      → Built (graph_crate.Graph × HashMap ℕ)
  add_all factory [] g id_map = done (g, id_map)
  add_all factory (ns ∷ nodes) g id_map =
      and_then (ok_or_else (factory ns.id) (no_node ns.id)) (λ built.
        let (new_id, g') = add_built g built in
        add_all factory nodes g' (HashMap.insert ns.id new_id id_map))

  -- The loop over the edges.
  unfoldable pub link_all :
      HashMap ℕ → List SnapshotEdge → graph_crate.Graph → Built graph_crate.Graph
  link_all id_map [] g = done g
  link_all id_map (edge ∷ edges) g =
      and_then (ok_or_else (HashMap.get edge.source.0 id_map) (edge_from_unknown edge.source.0))
        (λ from_node.
          and_then (ok_or_else (HashMap.get edge.target.0 id_map) (edge_to_unknown edge.target.0))
            (λ to_node.
              and_then
                (from_graph
                  (graph_crate.link g (from_node, edge.source.1) (to_node, edge.target.1)))
                (λ g'. link_all id_map edges g')))

  unfoldable pub build_graph :
      TopologySnapshot → graph_crate.GraphConfig → NodeFactory → Built graph_crate.Graph
  unfolding add_all link_all
  build_graph snapshot config factory =
      and_then (add_all factory snapshot.nodes graph_crate.new []) (λ (g, id_map).
        and_then (link_all id_map snapshot.edges g)
          (λ linked. from_graph (graph_crate.compile linked config)))

  -- A rebuild that fails leaves the slot as it was.
  abbrev pub deposit : Built graph_crate.Graph → Option graph_crate.Graph → Option graph_crate.Graph
  deposit (done g) slot = some g
  deposit (failed e) slot = slot

  -- `rebuild_once`, after the topology was read from the store.
  unfoldable pub rebuild_once :
      graph_crate.GraphConfig
      → NodeFactory
      → TopologySnapshot
      → Option graph_crate.Graph
      → Option graph_crate.Graph
  unfolding build_graph
  rebuild_once config factory topo slot = deposit (build_graph topo config factory) slot

  -- `GraphEngine`; the slot is shared with the rebuild task.
  pub record GraphEngine : Type 0 where
    pub graph : graph_crate.Graph
    pub slot : Option graph_crate.Graph

  abbrev pub swap : graph_crate.Graph → Option graph_crate.Graph → graph_crate.Graph
  swap g none = g
  swap g (some new_graph) = new_graph

  -- `GraphEngine::step`. The errors of the graph are traced and the cycle goes on.
  unfoldable pub step : graph_crate.ProcessContext → GraphEngine → GraphEngine
  step ctx e =
      let g = graph_crate.flush_sinks (graph_crate.process_cycle e.graph ctx) in
      record { graph = swap g e.slot; slot = none }
