-- ===== src/Control/Controller.antt =====
-- `GraphController` of crates/control-api/src/lib.rs: the graph in the session store, and the labels,
-- kinds and parameters of its nodes in registries beside it.
pub mod Ids
pub mod Agree
pub mod Invariant
pub mod Listing
pub mod Links
use sonicbrew.Base.{
  ℕ, ◌+◌, ◌-◌, ◌*◌, ◌%◌, ◌^◌, ◌≡◌, refl, Bool, true, false, not, Option, none, some, List, [], ◌∷◌,
  ◌++◌, length, map, max, min, ltb, leb, if◌then◌else◌, String, replicate,
}
use sonicbrew.Base.HashMap
use sonicbrew.Base.HashMap.{HashMap}
use sonicbrew.Session.Graph.{
  TopologySnapshot, NodeSnapshot, SnapshotEdge, Mutation, PortDir, PortMeta, input, output, f32,
  add_node, remove_node, add_link, remove_link,
}
use sonicbrew.Session.Wal.{StoreError}
use sonicbrew.Session.Wal
use sonicbrew.Control.Text.{trims_to_nothing, same_text, node_label}
use sonicbrew.Control.Params.{NodeParams, kind_name}
use sonicbrew.Control.Types.{
  Problem, empty_label, params_mismatch, from_port_range, to_port_range, Missing, node, link,
  source_node, destination_node, ControlError, unimplemented, bad_request, graph,
  link_not_persisted, not_found, Result, ok, err, store_err_to_control, NodeInfo, NodeSpec,
  LinkInfo,
}
use sonicbrew.Control.Store.{AudioGraph, LocalSessionStore}

-- `usize::MAX` on a 64-bit machine.
abbrev pub usize_max : ℕ
usize_max = 2 ^ 64 - 1

unfoldable pub build_ports : ℕ → PortDir → List PortMeta
build_ports count dir =
    replicate count (record { direction = dir; channels = 1; sample_format = f32 })

abbrev pub label_or_default : ℕ → Option String → String
label_or_default id none = node_label id
label_or_default id (some label) = label

unfoldable pub link_infos : ℕ → List SnapshotEdge → List LinkInfo
link_infos id [] = []
link_infos id (e ∷ edges) =
    record {
      id = id;
      source = e.source.0;
      source_port = e.source.1 % 2 ^ 16;
      target = e.target.0;
      target_port = e.target.1 % 2 ^ 16;
    }
    ∷ link_infos (id + 1) edges

-- `nodes.iter().map(|n| n.id).max().unwrap_or(0)`
unfoldable pub max_id : List NodeSnapshot → ℕ
max_id [] = 0
max_id (n ∷ nodes) = max n.id (max_id nodes)

-- `insert`, where there is something to insert.
abbrev pub insert_some : {V : Type 0} → ℕ → Option V → HashMap V → HashMap V
insert_some id none m = m
insert_some id (some v) m = HashMap.insert id v m

-- `edges.len().checked_sub(1).ok_or_else(…)`
abbrev pub last_link : List SnapshotEdge → Result ℕ
last_link [] = err link_not_persisted
last_link (e ∷ edges) = ok (length edges)

-- The kind that a spec declares or its parameters imply, where the two agree.
unfoldable pub agreed_kind :
    {F : Type 0} → Option String → Option (NodeParams F) → Result (Option String)
agreed_kind kind none = ok kind
agreed_kind none (some params) = ok (some (kind_name params))
agreed_kind (some expected) (some params) =
    if same_text expected (kind_name params)
    then ok (some expected)
    else err (bad_request (params_mismatch (kind_name params) expected))

module _ (F : Type 0) (audio_graph : AudioGraph)
    (session_store : LocalSessionStore audio_graph) where
  pub record GraphController : Type 0 where
    pub store : session_store.State
    pub labels : HashMap String
    pub kinds : HashMap String
    pub params : HashMap (NodeParams F)

  abbrev pub topology : GraphController → TopologySnapshot
  topology c = session_store.get_topology c.store

  abbrev pub node_at : GraphController → ℕ → Option NodeSnapshot
  node_at c id = audio_graph.node (topology c) id

  -- `GraphController::new`
  abbrev pub new : session_store.State → GraphController
  new store = record { store = store; labels = []; kinds = []; params = [] }

  -- What a handler does after the store's answer.
  abbrev pub settle :
      {A : Type 0}
      → GraphController
      → (GraphController → Result A × GraphController)
      → Wal.Result ℕ × session_store.State
      → Result A × GraphController
  settle c next (Wal.ok id, store) = next (record c { store = store })
  settle c next (Wal.err e, store) = (err (store_err_to_control e), record c { store = store })

  -- `store.apply_mutation(m).map_err(store_err_to_control)?`, and what follows it.
  abbrev pub mutate :
      {A : Type 0}
      → GraphController
      → Mutation
      → (GraphController → Result A × GraphController)
      → Result A × GraphController
  mutate c m next = settle c next (session_store.apply_mutation c.store m)

  unfoldable pub info_of : GraphController → NodeSnapshot → NodeInfo F
  info_of c n = record {
    id = n.id;
    label = label_or_default n.id (HashMap.get n.id c.labels);
    inputs = length n.inputs % 2 ^ 16;
    outputs = length n.outputs % 2 ^ 16;
    kind = HashMap.get n.id c.kinds;
    params = HashMap.get n.id c.params;
  }

  unfoldable pub list_nodes : GraphController → List (NodeInfo F)
  unfolding info_of
  list_nodes c = map (info_of c) (topology c).nodes

  unfoldable pub list_links : GraphController → List LinkInfo
  unfolding link_infos
  list_links c = link_infos 0 (topology c).edges

  abbrev pub register :
      ℕ → String → Option String → Option (NodeParams F) → GraphController → GraphController
  register id label kind params c = record c {
    labels = HashMap.insert id label c.labels;
    kinds = insert_some id kind c.kinds;
    params = insert_some id params c.params;
  }

  -- `create_node`, as it runs while no other call changes the controller or its store. The source locks the
  -- store and each registry in turn: two calls at once may take the same id, which is not modelled.
  unfoldable pub create_node : GraphController → NodeSpec F → Result ℕ × GraphController
  create_node c spec =
      if trims_to_nothing spec.label
      then (err (bad_request empty_label), c)
      else elim (agreed_kind spec.kind spec.params) [
        | err e ↦ (err e, c)
        | ok kind ↦
            let new_id = min (max_id (topology c).nodes + 1) usize_max in
            let snapshot : NodeSnapshot = record {
              id = new_id;
              inputs = build_ports spec.inputs input;
              outputs = build_ports spec.outputs output;
            } in
            mutate c (add_node snapshot)
              (λ c'. (ok new_id, register new_id spec.label kind spec.params c'))
      ]

  abbrev pub unregister : ℕ → GraphController → GraphController
  unregister id c = record c {
    labels = HashMap.remove id c.labels;
    kinds = HashMap.remove id c.kinds;
    params = HashMap.remove id c.params;
  }

  unfoldable pub delete_node : GraphController → ℕ → Result (Unit {0}) × GraphController
  delete_node c id = elim (node_at c id) [
    | none ↦ (err (not_found (node id)), c)
    | some n ↦ mutate c (remove_node id) (λ c'. (ok tt, unregister id c'))
  ]

  unfoldable pub delete_link : GraphController → ℕ → Result (Unit {0}) × GraphController
  delete_link c id =
      if leb (length (topology c).edges) id
      then (err (not_found (link id)), c)
      else mutate c (remove_link id) (λ c'. (ok tt, c'))

  unfoldable pub link_ports : GraphController → ℕ → ℕ → ℕ → ℕ → Result ℕ × GraphController
  link_ports c source source_port target target_port = elim (node_at c source) [
    | none ↦ (err (not_found (source_node source)), c)
    | some src ↦
        if leb (length src.outputs) source_port
        then (err (bad_request (from_port_range source (length src.outputs) source_port)), c)
        else elim (node_at c target) [
          | none ↦ (err (not_found (destination_node target)), c)
          | some dst ↦
              if leb (length dst.inputs) target_port
              then (err (bad_request (to_port_range target (length dst.inputs) target_port)), c)
              else mutate c
                  (add_link
                    (record { source = (source, source_port); target = (target, target_port) }))
                  (λ c'. (last_link (topology c').edges, c'))
        ]
  ]

  -- `link`
  unfoldable pub link_nodes : GraphController → ℕ → ℕ → Result ℕ × GraphController
  unfolding link_ports
  link_nodes c source target = link_ports c source 0 target 0

  unfoldable pub load_module : GraphController → String → Result ℕ × GraphController
  load_module c path = (err unimplemented, c)
