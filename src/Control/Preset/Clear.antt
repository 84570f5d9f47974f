-- ===== src/Control/Preset/Clear.antt =====
-- `import_preset` of crates/control-api/src/lib.rs first removes every node, and its links with it.
use sonicbrew.Base.{ℕ, ◌≡◌, refl, ap, ◌∙◌, Bool, true, false, ◌||◌, List, [], ◌∷◌, ◌==◌, arith}
use sonicbrew.Session.Graph.{TopologySnapshot, NodeSnapshot, SnapshotEdge, remove_node}
use sonicbrew.Control.Store.{AudioGraph, LocalSessionStore, other_nodes, other_edges}
use sonicbrew.Control.Types.{ok}
use sonicbrew.Control.Controller.{GraphController, topology, unregister}
use sonicbrew.Control.Controller.Invariant.{IsRegistered, nodes, mutate-ok, unregister-IsRegistered}
use sonicbrew.Control.Preset.{remove_all, node_ids}

abbrev pub occurs : ℕ → List ℕ → Bool
occurs i [] = false
occurs i (j ∷ ids) = j == i || occurs i ids

abbrev pub AllFrom : List ℕ → List NodeSnapshot → Type 0
AllFrom ids [] = Unit {0}
AllFrom ids (n ∷ ns) = (occurs n.id ids ≡ true) × AllFrom ids ns

-- Every link leaves a node that is there.
abbrev pub Leaves : List ℕ → List SnapshotEdge → Type 0
Leaves ids [] = Unit {0}
Leaves ids (e ∷ es) = (occurs e.source.0 ids ≡ true) × Leaves ids es

abbrev pub without : List ℕ → TopologySnapshot → TopologySnapshot
without [] s = s
without (id ∷ ids) s =
    without ids (record { nodes = other_nodes id s.nodes; edges = other_edges id s.edges })

AllFrom-other_nodes :
    (i : ℕ) (ids : List ℕ) (ns : List NodeSnapshot)
    → AllFrom (i ∷ ids) ns
    → AllFrom ids (other_nodes i ns)
unfolding other_nodes
AllFrom-other_nodes i ids [] h = tt
AllFrom-other_nodes i ids (n ∷ ns) h = ground (arith, AllFrom-other_nodes i ids ns)

Leaves-other_edges :
    (i : ℕ) (ids : List ℕ) (es : List SnapshotEdge)
    → Leaves (i ∷ ids) es
    → Leaves ids (other_edges i es)
unfolding other_edges
Leaves-other_edges i ids [] h = tt
Leaves-other_edges i ids (e ∷ es) h = ground (arith, Leaves-other_edges i ids es)

none_left : (ns : List NodeSnapshot) → AllFrom [] ns → ns ≡ []
none_left [] h = refl
none_left (n ∷ ns) h = absurd (ground (arith, h))

no_edge_left : (es : List SnapshotEdge) → Leaves [] es → es ≡ []
no_edge_left [] h = refl
no_edge_left (e ∷ es) h = absurd (ground (arith, h))

without_empty :
    (ids : List ℕ) (s : TopologySnapshot)
    → AllFrom ids s.nodes
    → Leaves ids s.edges
    → without ids s ≡ record { nodes = []; edges = [] }
without_empty [] s h k =
    ap (λ ns. record s { nodes = ns }) (none_left s.nodes h)
    ∙ ap (λ es. record { nodes = []; edges = es }) (no_edge_left s.edges k)
without_empty (id ∷ ids) s h k =
    without_empty ids _ (AllFrom-other_nodes id ids s.nodes h) (Leaves-other_edges id ids s.edges k)

AllFrom-cons :
    (i : ℕ) (ids : List ℕ) (ns : List NodeSnapshot) → AllFrom ids ns → AllFrom (i ∷ ids) ns
AllFrom-cons i ids [] h = tt
AllFrom-cons i ids (n ∷ ns) h = ground (arith, AllFrom-cons i ids ns)

pub AllFrom-node_ids : (ns : List NodeSnapshot) → AllFrom (node_ids ns) ns
AllFrom-node_ids [] = tt
AllFrom-node_ids (n ∷ ns) = (ground arith, AllFrom-cons n.id (node_ids ns) ns (AllFrom-node_ids ns))

module _ (F : Type 0) (graph : AudioGraph) (store : LocalSessionStore graph) where
  abbrev Controller : Type 0
  Controller = GraphController F graph store

  pub remove_all-without :
      (ids : List ℕ) (c : Controller)
      → IsRegistered F graph store c
      → store.Reliable c.store
      → (c' : Controller) × (remove_all F graph store ids c ≡ (ok tt, c'))
        × IsRegistered F graph store c'
        × store.Reliable c'.store
        × (topology F graph store c' ≡ without ids (topology F graph store c))
  unfolding remove_all
  remove_all-without [] c v reliable = (c, refl, v, reliable, refl)
  remove_all-without (id ∷ ids) c v reliable =
      let (_, s, done, reliable') = store.accepts c.store (remove_node id) reliable in
      let less =
        store.accepted c.store (remove_node id) done
        ∙ graph.apply-remove_node (topology F graph store c) id in
      let next = unregister F graph store id (record c { store = s }) in
      let (c', ran, v', reliable'', rest) =
        remove_all-without ids next
          (unregister-IsRegistered F graph store c s id v (ap (λ t. t.nodes) less)) reliable' in
      (
        c',
        mutate-ok F graph store c
              (λ c'. remove_all F graph store ids (unregister F graph store id c')) done
            ∙ ran,
        v',
        reliable'',
        rest ∙ ap (without ids) less,
      )

  pub remove_all-empty :
      (c : Controller)
      → IsRegistered F graph store c
      → store.Reliable c.store
      → Leaves (node_ids (nodes F graph store c)) (topology F graph store c).edges
      → (c' : Controller) × (remove_all F graph store (node_ids (nodes F graph store c)) c
          ≡ (ok tt, c'))
        × IsRegistered F graph store c'
        × store.Reliable c'.store
        × (topology F graph store c' ≡ record { nodes = []; edges = [] })
  remove_all-empty c v reliable linked =
      let (c', ran, v', reliable', rest) =
        remove_all-without (node_ids (nodes F graph store c)) c v reliable in
      (
        c',
        ran,
        v',
        reliable',
        rest ∙ without_empty _ (topology F graph store c) (AllFrom-node_ids _) linked,
      )
