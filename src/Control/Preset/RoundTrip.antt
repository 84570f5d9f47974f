-- ===== src/Control/Preset/RoundTrip.antt =====
-- An exported preset of crates/control-api/src/lib.rs puts the graph back.
use sonicbrew.Base.{
  ℕ, ◌+◌, ◌≡◌, refl, ap, ◌∙◌, sym, none, List, [], ◌∷◌, arith, ◌++◌, map, length, ◌%◌, ◌^◌,
}
use mathlib.Core.Path.{subst}
use sonicbrew.Session.Graph.{NodeSnapshot, SnapshotEdge}
use sonicbrew.Control.Store.{AudioGraph, LocalSessionStore, find_node}
use sonicbrew.Control.Types.{ok}
use sonicbrew.Control.Controller.{
  GraphController, topology, info_of, list_nodes, list_links, link_infos,
}
use sonicbrew.Control.Controller.Invariant.{IsRegistered, nodes, same_nodes-IsRegistered}
use sonicbrew.Control.Controller.Ids.{find_node-append}
use sonicbrew.Control.Preset.{
  PresetNode, preset_node, preset_link, snapshot_of, edge_of, node_ids, export_preset,
  import_preset, and_then, add_all, link_all,
}
use sonicbrew.Control.Preset.Clear.{Leaves, remove_all-empty}
use sonicbrew.Control.Preset.Restore.{
  Fresh, Agreeing, info_of_preset, add_all-list_nodes, link_all-edges,
}

-- No two nodes have the same id.
abbrev pub AreDistinct : List NodeSnapshot → Type 0
AreDistinct [] = Unit {0}
AreDistinct (n ∷ ns) = (find_node n.id ns ≡ none) × AreDistinct ns

abbrev AreNew : List NodeSnapshot → List NodeSnapshot → Type 0
AreNew [] old = Unit {0}
AreNew (n ∷ ns) old = (find_node n.id old ≡ none) × AreNew ns old

AreNew-append :
    (ns old : List NodeSnapshot) (n : NodeSnapshot)
    → find_node n.id ns ≡ none
    → AreNew ns old
    → AreNew ns (old ++ n ∷ [])
unfolding find_node
AreNew-append [] old n free new = tt
AreNew-append (m ∷ ns) old n free new =
    ground (arith, AreNew-append ns old n, find_node-append old n m.id)

AreNew-nil : (ns : List NodeSnapshot) → AreNew ns []
unfolding find_node
AreNew-nil [] = tt
AreNew-nil (n ∷ ns) = (refl, AreNew-nil ns)

-- A number that fits in 16 bits is cut to itself.
cut_twice : (n : ℕ) → n % 2 ^ 16 % 2 ^ 16 ≡ n % 2 ^ 16
cut_twice n = omega arith

edges_again :
    (i : ℕ) (es : List SnapshotEdge)
    → link_infos i (map edge_of (map preset_link (link_infos i es))) ≡ link_infos i es
unfolding link_infos
edges_again i [] = refl
edges_again i (e ∷ es) =
    rw (cut_twice e.source.1, cut_twice e.target.1, edges_again (i + 1) es) refl

module _ (F : Type 0) (graph : AudioGraph) (store : LocalSessionStore graph) where
  abbrev Controller : Type 0
  Controller = GraphController F graph store

  abbrev exported : Controller → List NodeSnapshot → List (PresetNode F)
  exported c ns = map (preset_node F) (map (info_of F graph store c) ns)

  exported-Fresh :
      (c : Controller) (ns old : List NodeSnapshot)
      → AreDistinct ns
      → AreNew ns old
      → Fresh (exported c ns) old
  unfolding info_of
  exported-Fresh c [] old distinct new = tt
  exported-Fresh c (n ∷ ns) old distinct new =
      let added = snapshot_of (preset_node F (info_of F graph store c n)) in
      (
        new.0,
        exported-Fresh c ns (old ++ added ∷ []) distinct.1
            (AreNew-append ns old added distinct.0 new.1),
      )

  exported-Agreeing :
      (c : Controller) (ns : List NodeSnapshot)
      → IsRegistered F graph store c
      → Agreeing (exported c ns)
  unfolding info_of
  exported-Agreeing c [] v = tt
  exported-Agreeing c (n ∷ ns) v = (v.agree n.id, exported-Agreeing c ns v)

  infos_again :
      (c : Controller) (ns : List NodeSnapshot)
      → map (info_of_preset F graph store) (exported c ns) ≡ map (info_of F graph store c) ns
  unfolding info_of
  infos_again c [] = refl
  infos_again c (n ∷ ns) =
      rw (cut_twice (length n.inputs), cut_twice (length n.outputs), infos_again c ns) refl

  nodes_again :
      (c filled : Controller) (s : store.State) (es : List SnapshotEdge)
      → list_nodes F graph store filled
        ≡ map (info_of_preset F graph store) (exported c (nodes F graph store c))
      → store.get_topology s ≡ record (topology F graph store filled) { edges = es }
      → list_nodes F graph store (record filled { store = s }) ≡ list_nodes F graph store c
  unfolding list_nodes info_of
  nodes_again c filled s es listed all =
      ap (λ t. map (info_of F graph store filled) t.nodes) all
      ∙ listed
      ∙ infos_again c (nodes F graph store c)

  links_again :
      (c : Controller) (s : store.State) (old : List SnapshotEdge)
      → (store.get_topology s).edges
        ≡ old ++ map edge_of (map preset_link (list_links F graph store c))
      → old ≡ []
      → link_infos 0 (store.get_topology s).edges ≡ list_links F graph store c
  unfolding list_links
  links_again c s old all none_old =
      ap (link_infos 0) all
      ∙ ap (λ es. link_infos 0 (es ++ map edge_of (map preset_link (list_links F graph store c))))
          none_old
      ∙ edges_again 0 (topology F graph store c).edges

  no_nodes : (c : Controller) → nodes F graph store c ≡ [] → list_nodes F graph store c ≡ []
  unfolding list_nodes
  no_nodes c h = ap (map (info_of F graph store c)) h

  -- A preset that is exported from a controller whose registries are in step, and whose nodes have
  -- different ids, is imported without an error by any controller whose registries are in step, whose
  -- links all leave a node, and whose store accepts. Whatever the second controller held before, its
  -- nodes with their labels, kinds and parameters, and its links, are then listed as the first one
  -- lists its own.
  pub import_preset-export_preset :
      (c d : Controller)
      → IsRegistered F graph store c
      → AreDistinct (nodes F graph store c)
      → IsRegistered F graph store d
      → Leaves (node_ids (nodes F graph store d)) (topology F graph store d).edges
      → store.Reliable d.store
      → let (result, d') = import_preset F graph store d (export_preset F graph store c) in
        (result ≡ ok tt)
        × (list_nodes F graph store d' ≡ list_nodes F graph store c)
        × (list_links F graph store d' ≡ list_links F graph store c)
        × IsRegistered F graph store d'
  unfolding import_preset export_preset list_nodes list_links
  import_preset-export_preset c d v distinct w linked reliable =
      let (emptied, removed, w', reliable', empty) =
        remove_all-empty F graph store d w reliable linked in
      let preset = exported c (nodes F graph store c) in
      let (filled, added, w'', reliable'', listed, unlinked) =
        add_all-list_nodes F graph store preset emptied w' reliable'
          (subst (Fresh preset) (sym (ap (λ t. t.nodes) empty))
            (exported-Fresh c (nodes F graph store c) [] distinct (AreNew-nil _)))
          (exported-Agreeing c (nodes F graph store c) v) in
      let links = map preset_link (link_infos 0 (topology F graph store c).edges) in
      let (s, joined, all) = link_all-edges F graph store links filled reliable'' in
      let ran =
        ap
          (λ r. and_then F graph store r (λ cleared.
            and_then F graph store (add_all F graph store preset cleared)
              (link_all F graph store links)))
          removed
        ∙ ap (λ r. and_then F graph store r (link_all F graph store links)) added
        ∙ joined in
      (
        ap (λ r. r.0) ran,
        ap (λ r. list_nodes F graph store r.1) ran
            ∙ nodes_again c filled s _
                (listed
                  ∙ ap (λ l. l ++ map (info_of_preset F graph store) preset)
                      (no_nodes emptied (ap (λ t. t.nodes) empty)))
                all,
        ap (λ r. list_links F graph store r.1) ran
            ∙ links_again c s (topology F graph store filled).edges (ap (λ t. t.edges) all)
                (unlinked ∙ ap (λ t. t.edges) empty),
        subst (λ r. IsRegistered F graph store r.1) (sym ran)
            (same_nodes-IsRegistered F graph store filled s (ap (λ t. t.nodes) all) w''),
      )
