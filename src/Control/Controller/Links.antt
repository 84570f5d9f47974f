-- ===== src/Control/Controller/Links.antt =====
-- Linking ports and deleting nodes and links in crates/control-api/src/lib.rs.
use sonicbrew.Base.{
  ℕ, ◌+◌, ◌%◌, ◌^◌, ◌<◌, ◌≡◌, refl, ap, ◌∙◌, Bool-cases, true, false, none, some, List, [], ◌∷◌,
  ◌++◌, ◌==◌, if◌then◌else◌, arith, inl, inr, leb, ltb, length, length-append,
}
use sonicbrew.Session.Graph.{NodeSnapshot, SnapshotEdge, remove_node, add_link, remove_link}
use sonicbrew.Control.Store.{AudioGraph, LocalSessionStore, remove_at}
use sonicbrew.Control.Types.{ok, err, not_found, link}
use sonicbrew.Control.Controller.{
  GraphController, topology, node_at, delete_node, delete_link, link_ports, list_nodes, list_links,
  link_infos, info_of, last_link,
}
use sonicbrew.Control.Controller.Ids.{find_node-other_nodes, Untouched, Untouched-other_edges}
use sonicbrew.Control.Controller.Invariant.{IsRegistered, nodes, mutate-ok, unregister-IsRegistered}
use sonicbrew.Control.Controller.Listing.{link_infos-append}

pub last_link-append :
    (es : List SnapshotEdge) (e : SnapshotEdge) → last_link (es ++ e ∷ []) ≡ ok (length es)
last_link-append [] e = refl
last_link-append (d ∷ es) e =
    let grown : length (es ++ e ∷ []) ≡ length (d ∷ es) =
      omega (arith, length-append es (e ∷ [])) in
    ap ok grown

module _ (F : Type 0) (graph : AudioGraph) (store : LocalSessionStore graph) where
  abbrev Controller : Type 0
  Controller = GraphController F graph store

  -- Between an output port of one node and an input port of another, a store that accepts makes the
  -- link: its id is the number of links before, and the listing is the old one with the link's entry at
  -- the end. The nodes stay the same.
  pub list_links-link_ports :
      (c : Controller) (from_node to_node : NodeSnapshot)
      (source source_port target target_port : ℕ)
      → store.Reliable c.store
      → node_at F graph store c source ≡ some from_node
      → source_port < length from_node.outputs
      → node_at F graph store c target ≡ some to_node
      → target_port < length to_node.inputs
      → let (result, c') = link_ports F graph store c source source_port target target_port in
        let id = length (topology F graph store c).edges in
        (result ≡ ok id)
        × (list_links F graph store c'
            ≡ list_links F graph store c
              ++ record {
                id = id;
                source = source;
                source_port = source_port % 2 ^ 16;
                target = target;
                target_port = target_port % 2 ^ 16;
              }
                ∷ [])
        × (list_nodes F graph store c' ≡ list_nodes F graph store c)
  unfolding link_ports list_links list_nodes link_infos info_of
  list_links-link_ports c from_node to_node source source_port target target_port reliable from lt
        to lt' =
      let edge : SnapshotEdge = record {
        source = (source, source_port);
        target = (target, target_port);
      } in
      let (_, s, done, _) = store.accepts c.store (add_link edge) reliable in
      let topology' =
        store.accepted c.store (add_link edge) done
        ∙ graph.apply-add_link (topology F graph store c) edge in
      let same : 0 + length (topology F graph store c).edges
          ≡ length (topology F graph store c).edges =
        omega arith in
      let in_range : leb (length from_node.outputs) source_port ≡ false = ground arith in
      let in_range' : leb (length to_node.inputs) target_port ≡ false = ground arith in
      rw (from, in_range, to, in_range', mutate-ok F graph store c _ done, link_ports)
        (
          rw topology' (last_link-append (topology F graph store c).edges edge),
          rw topology' (
              link_infos-append 0 (topology F graph store c).edges edge
              ∙ ap (λ j. link_infos 0 (topology F graph store c).edges ++ link_infos j (edge ∷ []))
                  same),
          rw topology' refl,
        )

  -- Deleting a node that exists, on a store that accepts, removes the node and every link that touches
  -- it, and leaves every other node; the registries stay in step.
  pub delete_node-Untouched :
      (c : Controller) (id : ℕ) (n : NodeSnapshot)
      → store.Reliable c.store
      → node_at F graph store c id ≡ some n
      → IsRegistered F graph store c
      → let (result, c') = delete_node F graph store c id in
        (result ≡ ok tt)
        × ((i : ℕ)
            → node_at F graph store c' i ≡ (if id == i then none else node_at F graph store c i))
        × Untouched id (topology F graph store c').edges
        × IsRegistered F graph store c'
  unfolding delete_node
  delete_node-Untouched c id n reliable found v =
      let (_, s, done, _) = store.accepts c.store (remove_node id) reliable in
      let topology' =
        store.accepted c.store (remove_node id) done
        ∙ graph.apply-remove_node (topology F graph store c) id in
      rw (found, mutate-ok F graph store c _ done, delete_node)
        (
          refl,
          (λ i.
              rw
                (
                  graph.node-find_node (store.get_topology s) i,
                  graph.node-find_node (topology F graph store c) i,
                  topology',
                )
                (find_node-other_nodes (nodes F graph store c) id i)),
          rw topology' (Untouched-other_edges id (topology F graph store c).edges),
          unregister-IsRegistered F graph store c s id v (ap (λ t. t.nodes) topology'),
        )

  -- A link is not deleted unless its id is below the number of links. On a store that accepts, deleting
  -- it removes the edge at that place, so that the ids of all later links fall by one.
  pub delete_link-remove_at :
      (c : Controller) (id : ℕ)
      → store.Reliable c.store
      → let (result, c') = delete_link F graph store c id in
        let edges = (topology F graph store c).edges in
        if ltb id (length edges)
        then (result ≡ ok tt) × (list_links F graph store c' ≡ link_infos 0 (remove_at id edges))
        else (result ≡ err (not_found (link id))) × (c' ≡ c)
  unfolding delete_link list_links
  delete_link-remove_at c id reliable =
      let edges = (topology F graph store c).edges in
      let (_, s, done, _) = store.accepts c.store (remove_link id) reliable in
      let topology' =
        store.accepted c.store (remove_link id) done
        ∙ graph.apply-remove_link (topology F graph store c) id in
      elim (Bool-cases (ltb id (length edges))) [
        | inl lt ↦
            let present : leb (length edges) id ≡ false = ground (arith, lt) in
            rw (lt, present, mutate-ok F graph store c _ done, delete_link)
              (refl, rw topology' refl)
        | inr ge ↦
            let absent : leb (length edges) id ≡ true = ground (arith, ge) in
            rw (ge, absent, delete_link) (refl, refl)
      ]
