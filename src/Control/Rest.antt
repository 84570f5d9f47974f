-- ===== src/Control/Rest.antt =====
-- The REST handlers of crates/control-api/src/lib.rs. What axum makes of paths and JSON bodies is a
-- `Request`.
pub mod Unchanged
pub mod InStep
mod Tests
use sonicbrew.Base.{ℕ, zero, Option, none, some, List, [], ◌∷◌}
use sonicbrew.Control.Store.{AudioGraph, LocalSessionStore}
use sonicbrew.Control.Types.{
  ControlError, unimplemented, bad_request, graph, link_not_persisted, not_found, Result, ok, err,
  NodeInfo, NodeSpec, LinkInfo,
}
use sonicbrew.Control.Controller.{
  GraphController, create_node, list_nodes, list_links, link_ports, delete_node, delete_link,
}
use sonicbrew.Control.Preset.{Preset, export_preset, import_preset}

-- `LinkRequest`, with `from` and `to` as its source and target.
pub record LinkRequest : Type 0 where
  pub source : ℕ
  pub source_port : Option ℕ
  pub target : ℕ
  pub target_port : Option ℕ

module _ (F : Type 0) where
  pub record TopologyInfo : Type 0 where
    pub nodes : List (NodeInfo F)
    pub links : List LinkInfo

  pub data Request : Type 0 where
    get_nodes get_links get_topology get_preset : Request
    post_node : NodeSpec F → Request
    post_link : LinkRequest → Request
    post_preset : Preset F → Request
    delete_nodes delete_links : ℕ → Request

  -- The bodies of answers: JSON, or the text of an error.
  pub data Body : Type 0 where
    no_body : Body
    nodes_json : List (NodeInfo F) → Body
    links_json : List LinkInfo → Body
    topology_json : TopologyInfo → Body
    preset_json : Preset F → Body
    id_json : ℕ → Body
    error_text : ControlError → Body

  pub record Response : Type 0 where
    pub status : ℕ
    pub body : Body

-- The status codes of HTTP that the handlers use.
abbrev pub status_ok : ℕ
status_ok = 200

abbrev pub status_created : ℕ
status_created = 201

abbrev pub status_no_content : ℕ
status_no_content = 204

unfoldable pub status_for : ControlError → ℕ
status_for (bad_request p) = 400
status_for (graph e) = 422
status_for link_not_persisted = 422
status_for (not_found m) = 404
status_for unimplemented = 501

abbrev pub unwrap_or_zero : Option ℕ → ℕ
unwrap_or_zero none = 0
unwrap_or_zero (some n) = n

module _ (F : Type 0) (audio_graph : AudioGraph) (store : LocalSessionStore audio_graph) where
  abbrev Controller : Type 0
  Controller = GraphController F audio_graph store

  abbrev json : Body F → Controller → Response F × Controller
  json body c = (record { status = status_ok; body = body }, c)

  -- The answers of the handlers that make something, and of those that have nothing to show.
  abbrev pub answer_id : Result ℕ × Controller → Response F × Controller
  answer_id (ok id, c) = (record { status = status_created; body = id_json id }, c)
  answer_id (err e, c) = (record { status = status_for e; body = no_body }, c)

  abbrev pub answer_empty : Result (Unit {0}) × Controller → Response F × Controller
  answer_empty (ok _, c) = (record { status = status_no_content; body = no_body }, c)
  answer_empty (err e, c) = (record { status = status_for e; body = error_text e }, c)

  unfoldable pub topology_info : Controller → TopologyInfo F
  topology_info c = record {
    nodes = list_nodes F audio_graph store c;
    links = list_links F audio_graph store c;
  }

  unfoldable pub create_link : LinkRequest → Controller → Response F × Controller
  create_link req c = answer_id (
      link_ports F audio_graph store c req.source (unwrap_or_zero req.source_port) req.target
        (unwrap_or_zero req.target_port))

  -- `build_router`, with the handlers that it routes to, each run while no other one runs. The source's
  -- handlers take several locks in turn and may overlap: what they do then is not modelled.
  unfoldable pub handle : Request F → Controller → Response F × Controller
  unfolding create_link topology_info status_for
  handle get_nodes c = json (nodes_json (list_nodes F audio_graph store c)) c
  handle get_links c = json (links_json (list_links F audio_graph store c)) c
  handle get_topology c = json (topology_json (topology_info c)) c
  handle get_preset c = json (preset_json (export_preset F audio_graph store c)) c
  handle (post_node spec) c = answer_id (create_node F audio_graph store c spec)
  handle (post_link req) c = create_link req c
  handle (post_preset preset) c = answer_empty (import_preset F audio_graph store c preset)
  handle (delete_nodes id) c = answer_empty (delete_node F audio_graph store c id)
  handle (delete_links id) c = answer_empty (delete_link F audio_graph store c id)

  -- The answers to the requests that a server gets one after another, and its controller after them.
  unfoldable pub serve : List (Request F) → Controller → List (Response F) × Controller
  unfolding handle
  serve [] c = ([], c)
  serve (r ∷ rs) c =
      let (response, c') = handle r c in
      let (responses, c'') = serve rs c' in (response ∷ responses, c'')
