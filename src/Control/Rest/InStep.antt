-- ===== src/Control/Rest/InStep.antt =====
-- The registries beside the graph stay in step with it over any run of requests to the server of
-- crates/control-api/src/lib.rs.
use sonicbrew.Base.{
  ℕ, ◌<◌, ◌≡◌, refl, ap, ◌∙◌, Bool-cases, Option-cases, List, [], ◌∷◌, leb, length, arith, inl, inr,
}
use sonicbrew.Base.HashMap
use sonicbrew.Session.Redb.{Redb, Serde}
use sonicbrew.Session.Graph.{SnapshotEdge, Mutation, remove_node, add_link, remove_link}
use sonicbrew.Control.Store.{AudioGraph, LocalSessionStore, engine_store}
use sonicbrew.Control.Types.{Result, ok, err}
use sonicbrew.Control.Controller.{
  GraphController, new, topology, node_at, mutate, last_link, max_id, usize_max, create_node,
  delete_node, delete_link, link_ports, unregister,
}
use sonicbrew.Control.Controller.Invariant.{
  IsRegistered, nodes, outcome, mutate-ok, mutate-err, create_node-IsRegistered,
  same_nodes-IsRegistered, unregister-IsRegistered,
}
use sonicbrew.Control.Rest.{
  Request, get_nodes, get_links, get_topology, get_preset, post_node, post_link, post_preset,
  delete_nodes, delete_links, answer_id, answer_empty, handle, serve, create_link, unwrap_or_zero,
}
use sonicbrew.Control.Rest.Unchanged.{IsSingle}

module _ (F : Type 0) (graph : AudioGraph) (store : LocalSessionStore graph) where
  abbrev Controller : Type 0
  Controller = GraphController F graph store

  -- Requests but imports, each met while the ids are below `usize::MAX`.
  abbrev pub Roomy : List (Request F) → Controller → Type 0
  Roomy [] c = Unit {0}
  Roomy (r ∷ rs) c =
      IsSingle r
      × (max_id (nodes F graph store c) < usize_max)
      × Roomy rs (handle F graph store r c).1

  -- A mutation of links, after which the handler only answers.
  mutate-IsRegistered :
      {A : Type 0} (c : Controller) (m : Mutation) (answer : Controller → Result A)
      → (graph.apply (topology F graph store c) m).nodes ≡ nodes F graph store c
      → IsRegistered F graph store c
      → IsRegistered F graph store (mutate F graph store c m (λ c'. (answer c', c'))).1
  mutate-IsRegistered c m answer same v =
      elim (outcome F graph store (store.apply_mutation c.store m)) [
        | inl (id, s, done) ↦ rw (mutate-ok F graph store c (λ c'. (answer c', c')) done) (
            same_nodes-IsRegistered F graph store c s
              (ap (λ t. t.nodes) (store.accepted c.store m done) ∙ same) v)
        | inr (e, s, refused) ↦ rw (mutate-err F graph store c (λ c'. (answer c', c')) refused) (
            same_nodes-IsRegistered F graph store c s
              (ap (λ t. t.nodes) (store.refused c.store m refused)) v)
      ]

  delete_node-IsRegistered :
      (c : Controller) (id : ℕ)
      → IsRegistered F graph store c
      → IsRegistered F graph store (delete_node F graph store c id).1
  unfolding delete_node
  delete_node-IsRegistered c id v = elim (Option-cases (node_at F graph store c id)) [
    | inl absent ↦ rw (absent, delete_node) v
    | inr (n, found) ↦
        let next : Controller → Result (Unit {0}) × Controller =
          λ c'. (ok tt, unregister F graph store id c') in
        elim (outcome F graph store (store.apply_mutation c.store (remove_node id))) [
          | inl (i, s, done) ↦
              rw (found, delete_node, mutate-ok F graph store c next done)
                (unregister-IsRegistered F graph store c s id v (
                  ap (λ t. t.nodes)
                    (store.accepted c.store (remove_node id) done
                      ∙ graph.apply-remove_node (topology F graph store c) id)))
          | inr (e, s, refused) ↦
              rw (found, delete_node, mutate-err F graph store c next refused)
                (same_nodes-IsRegistered F graph store c s
                  (ap (λ t. t.nodes) (store.refused c.store (remove_node id) refused)) v)
        ]
  ]

  delete_link-IsRegistered :
      (c : Controller) (id : ℕ)
      → IsRegistered F graph store c
      → IsRegistered F graph store (delete_link F graph store c id).1
  unfolding delete_link
  delete_link-IsRegistered c id v =
      elim (Bool-cases (leb (length (topology F graph store c).edges) id)) [
        | inl beyond ↦ rw beyond v
        | inr there ↦ rw there (
            mutate-IsRegistered c (remove_link id) (λ c'. ok tt)
              (ap (λ t. t.nodes) (graph.apply-remove_link (topology F graph store c) id)) v)
      ]

  link_ports-IsRegistered :
      (c : Controller) (source source_port target target_port : ℕ)
      → IsRegistered F graph store c
      → IsRegistered F graph store
          (link_ports F graph store c source source_port target target_port).1
  unfolding link_ports
  link_ports-IsRegistered c source source_port target target_port v =
      elim (Option-cases (node_at F graph store c source)) [
        | inl absent ↦ rw (absent, link_ports) v
        | inr (src, found) ↦ elim (Bool-cases (leb (length src.outputs) source_port)) [
          | inl beyond ↦ rw (found, beyond, link_ports) v
          | inr inside ↦ elim (Option-cases (node_at F graph store c target)) [
            | inl absent ↦ rw (found, inside, absent, link_ports) v
            | inr (dst, found') ↦ elim (Bool-cases (leb (length dst.inputs) target_port)) [
              | inl beyond ↦ rw (found, inside, found', beyond, link_ports) v
              | inr inside' ↦
                  let edge : SnapshotEdge = record {
                    source = (source, source_port);
                    target = (target, target_port);
                  } in
                  rw (found, inside, found', inside', link_ports)
                    (mutate-IsRegistered c (add_link edge)
                      (λ c'. last_link (topology F graph store c').edges)
                      (ap (λ t. t.nodes) (graph.apply-add_link (topology F graph store c) edge)) v)
            ]
          ]
        ]
      ]

  answer_id-after : (r : Result ℕ × Controller) → (answer_id F graph store r).1 ≡ r.1
  answer_id-after (ok id, c) = refl
  answer_id-after (err e, c) = refl

  answer_empty-after : (r : Result (Unit {0}) × Controller) → (answer_empty F graph store r).1 ≡ r.1
  answer_empty-after (ok u, c) = refl
  answer_empty-after (err e, c) = refl

  handle-IsRegistered :
      (c : Controller) (r : Request F)
      → IsSingle r
      → max_id (nodes F graph store c) < usize_max
      → IsRegistered F graph store c
      → IsRegistered F graph store (handle F graph store r c).1
  unfolding handle create_link
  handle-IsRegistered c get_nodes single room v = v
  handle-IsRegistered c get_links single room v = v
  handle-IsRegistered c get_topology single room v = v
  handle-IsRegistered c get_preset single room v = v
  handle-IsRegistered c (post_preset preset) single room v = absurd single
  handle-IsRegistered c (post_node spec) single room v =
      rw (answer_id-after (create_node F graph store c spec))
        (create_node-IsRegistered F graph store c spec room v)
  handle-IsRegistered c (post_link req) single room v =
      let from_port = unwrap_or_zero req.source_port in
      let to_port = unwrap_or_zero req.target_port in
      rw (answer_id-after (link_ports F graph store c req.source from_port req.target to_port))
        (link_ports-IsRegistered c req.source from_port req.target to_port v)
  handle-IsRegistered c (delete_nodes id) single room v =
      rw (answer_empty-after (delete_node F graph store c id)) (delete_node-IsRegistered c id v)
  handle-IsRegistered c (delete_links id) single room v =
      rw (answer_empty-after (delete_link F graph store c id)) (delete_link-IsRegistered c id v)

  serve_from :
      (rs : List (Request F)) (c : Controller)
      → Roomy rs c
      → IsRegistered F graph store c
      → IsRegistered F graph store (serve F graph store rs c).1
  unfolding serve
  serve_from [] c roomy v = v
  serve_from (r ∷ rs) c (single, room, roomy) v =
      serve_from rs _ roomy (handle-IsRegistered c r single room v)

module _ (F : Type 0) (graph : AudioGraph) (redb : Redb) (json : Serde Mutation) where
  abbrev store : LocalSessionStore graph
  store = engine_store graph redb json

  -- On the single-node engine, whichever of its writes fail, a controller that starts with empty
  -- registries keeps them in step with the graph over any requests but imports, handled one after
  -- another, while the ids stay below `usize::MAX`.
  pub serve-IsRegistered :
      (rs : List (Request F)) (s : store.State)
      → Roomy F graph store rs (new F graph store s)
      → IsRegistered F graph store (serve F graph store rs (new F graph store s)).1
  unfolding HashMap.get
  serve-IsRegistered rs s roomy = serve_from F graph store rs (new F graph store s) roomy (record {
    labels = λ i absent. refl;
    kinds = λ i absent. refl;
    params = λ i absent. refl;
    agree = λ i p found. absurd (ground (arith, found));
  })
