-- ===== src/Control/Preset/Restore.antt =====
-- `import_preset` of crates/control-api/src/lib.rs then adds the preset's nodes and its links.
use sonicbrew.Base.{
  ◌≡◌, refl, ap, ◌∙◌, sym, none, some, List, [], ◌∷◌, ◌++◌, map, append_assoc, append-nil,
}
use sonicbrew.Session.Graph.{TopologySnapshot, NodeSnapshot, add_node, add_link}
use sonicbrew.Control.Params.{NodeParams, kind_name}
use sonicbrew.Control.Store.{AudioGraph, LocalSessionStore, find_node}
use sonicbrew.Control.Types.{NodeInfo, NodeSpec, ok}
use sonicbrew.Control.Controller.{GraphController, topology, register, info_of, list_nodes}
use sonicbrew.Control.Controller.Invariant.{IsRegistered, nodes, mutate-ok, register-IsRegistered}
use sonicbrew.Control.Controller.Listing.{info_from, infos-register, info_of-registered, map-append}
use sonicbrew.Control.Preset.{PresetNode, PresetLink, snapshot_of, edge_of, add_all, link_all}

-- The ids of a preset are new to a graph, and no two are the same.
abbrev pub Fresh : {F : Type 0} → List (PresetNode F) → List NodeSnapshot → Type 0
Fresh [] ns = Unit {0}
Fresh (p ∷ ps) ns = (find_node p.id ns ≡ none) × Fresh ps (ns ++ snapshot_of p ∷ [])

-- Where a node of a preset has parameters, its kind is the one that they imply.
abbrev pub Agreeing : {F : Type 0} → List (PresetNode F) → Type 0
Agreeing [] = Unit {0}
Agreeing {F} (p ∷ ps) =
    ((q : NodeParams F) → p.params ≡ some q → p.kind ≡ some (kind_name q)) × Agreeing ps

abbrev spec_of : {F : Type 0} → PresetNode F → NodeSpec F
spec_of p = record {
  label = p.label;
  inputs = p.inputs;
  outputs = p.outputs;
  kind = p.kind;
  params = p.params;
}

module _ (F : Type 0) (graph : AudioGraph) (store : LocalSessionStore graph) where
  abbrev Controller : Type 0
  Controller = GraphController F graph store

  -- What the listing shows of a node of a preset.
  abbrev pub info_of_preset : PresetNode F → NodeInfo F
  info_of_preset p = info_from F graph store p.id p.kind (spec_of p)

  list_nodes-register :
      (c : Controller) (s : store.State) (p : PresetNode F)
      → IsRegistered F graph store c
      → find_node p.id (nodes F graph store c) ≡ none
      → (store.get_topology s).nodes ≡ nodes F graph store c ++ snapshot_of p ∷ []
      → list_nodes F graph store
          (register F graph store p.id p.label p.kind p.params (record c { store = s }))
        ≡ list_nodes F graph store c ++ info_of_preset p ∷ []
  unfolding list_nodes
  list_nodes-register c s p v free grown = rw grown (
      map-append
        (info_of F graph store
          (register F graph store p.id p.label p.kind p.params (record c { store = s })))
        (nodes F graph store c) (snapshot_of p)
      ∙ rw
          (
            infos-register F graph store c s p.id p.label p.kind p.params (nodes F graph store c)
                free,
            info_of-registered F graph store c s p.id p.kind (spec_of p) (v.kinds p.id free)
                (v.params p.id free),
          )
          refl)

  pub add_all-list_nodes :
      (ps : List (PresetNode F)) (c : Controller)
      → IsRegistered F graph store c
      → store.Reliable c.store
      → Fresh ps (nodes F graph store c)
      → Agreeing ps
      → (c' : Controller) × (add_all F graph store ps c ≡ (ok tt, c'))
        × IsRegistered F graph store c'
        × store.Reliable c'.store
        × (list_nodes F graph store c' ≡ list_nodes F graph store c ++ map info_of_preset ps)
        × ((topology F graph store c').edges ≡ (topology F graph store c).edges)
  unfolding add_all
  add_all-list_nodes [] c v reliable fresh agreeing =
      (c, refl, v, reliable, sym (append-nil (list_nodes F graph store c)), refl)
  add_all-list_nodes (p ∷ ps) c v reliable fresh agreeing =
      let (_, s, done, reliable') = store.accepts c.store (add_node (snapshot_of p)) reliable in
      let grown =
        store.accepted c.store (add_node (snapshot_of p)) done
        ∙ graph.apply-add_node (topology F graph store c) (snapshot_of p) fresh.0 in
      let next = register F graph store p.id p.label p.kind p.params (record c { store = s }) in
      let (c', ran, v', reliable'', listed, edges) =
        add_all-list_nodes ps next
          (register-IsRegistered F graph store c s (snapshot_of p) p.label p.kind p.params v fresh.0
            (ap (λ t. t.nodes) grown) agreeing.0)
          reliable' (rw (ap (λ t. t.nodes) grown) fresh.1) agreeing.1 in
      (
        c',
        mutate-ok F graph store c
              (λ c'.
                add_all F graph store ps (register F graph store p.id p.label p.kind p.params c'))
              done
            ∙ ran,
        v',
        reliable'',
        listed
            ∙ ap (λ l. l ++ map info_of_preset ps)
                (list_nodes-register c s p v fresh.0 (ap (λ t. t.nodes) grown))
            ∙ append_assoc (list_nodes F graph store c) (info_of_preset p ∷ [])
                (map info_of_preset ps),
        edges ∙ ap (λ t. t.edges) grown,
      )

  pub link_all-edges :
      (ls : List PresetLink) (c : Controller)
      → store.Reliable c.store
      → (s : store.State) × (link_all F graph store ls c ≡ (ok tt, record c { store = s }))
        × (store.get_topology s ≡ record (topology F graph store c) {
          edges = (topology F graph store c).edges ++ map edge_of ls;
        })
  unfolding link_all
  link_all-edges [] c reliable = (
    c.store,
    refl,
    ap (λ es. record (topology F graph store c) { edges = es })
        (sym (append-nil (topology F graph store c).edges)),
  )
  link_all-edges (l ∷ ls) c reliable =
      let (_, s, done, reliable') = store.accepts c.store (add_link (edge_of l)) reliable in
      let grown =
        store.accepted c.store (add_link (edge_of l)) done
        ∙ graph.apply-add_link (topology F graph store c) (edge_of l) in
      let (s', ran, linked) = link_all-edges ls (record c { store = s }) reliable' in
      (
        s',
        mutate-ok F graph store c (λ c'. link_all F graph store ls c') done ∙ ran,
        linked
            ∙ ap (λ (t : TopologySnapshot). record t { edges = t.edges ++ map edge_of ls }) grown
            ∙ ap (λ es. record (topology F graph store c) { edges = es })
                (append_assoc (topology F graph store c).edges (edge_of l ∷ []) (map edge_of ls)),
      )
