-- ===== src/Control/Rest/Unchanged.antt =====
-- What a request leaves behind that the handlers of crates/control-api/src/lib.rs refuse.
use sonicbrew.Base.{
  ℕ, ◌≤◌, ◌≡◌, ◌≢◌, refl, sym, ap, ◌∙◌, Bool-cases, Option-cases, List, [], ◌∷◌, ◌++◌, map, leb,
  length, arith, inl, inr,
}
use sonicbrew.Session.Graph.{
  TopologySnapshot, SnapshotEdge, Mutation, add_node, remove_node, add_link, remove_link,
}
use sonicbrew.Session.Redb.{Redb, Serde}
use sonicbrew.Session.Wal
use sonicbrew.Control.Text.{trims_to_nothing}
use sonicbrew.Control.Store.{AudioGraph, LocalSessionStore, engine_store}
use sonicbrew.Control.Types.{ControlError, Result, ok, err, NodeSpec}
use sonicbrew.Control.Controller.{
  GraphController, topology, node_at, register, unregister, mutate, last_link, create_node,
  agreed_kind, delete_node, delete_link, link_ports, list_nodes, list_links, link_infos, info_of,
}
use sonicbrew.Control.Controller.Agree.{agreed_cases, next_id}
use sonicbrew.Control.Controller.Invariant.{nodes, new_node, outcome, mutate-ok, mutate-err}
use sonicbrew.Control.Rest.{
  Request, get_nodes, get_links, get_topology, get_preset, post_node, post_link, post_preset,
  delete_nodes, delete_links, answer_id, answer_empty, handle, create_link, topology_info,
  unwrap_or_zero,
}

-- All requests but the import of a preset make one change at most.
abbrev pub IsSingle : {F : Type 0} → Request F → Type 0
IsSingle get_nodes = Unit {0}
IsSingle get_links = Unit {0}
IsSingle get_topology = Unit {0}
IsSingle get_preset = Unit {0}
IsSingle (post_node spec) = Unit {0}
IsSingle (post_link req) = Unit {0}
IsSingle (post_preset preset) = ⊥
IsSingle (delete_nodes id) = Unit {0}
IsSingle (delete_links id) = Unit {0}

last_link-append :
    (es : List SnapshotEdge) (e : SnapshotEdge) {p : ControlError}
    → last_link (es ++ e ∷ []) ≢ err p
last_link-append [] e h = ground (arith, h)
last_link-append (f ∷ es) e h = ground (arith, h)

module _ (F : Type 0) (graph : AudioGraph) (store : LocalSessionStore graph) where
  abbrev Controller : Type 0
  Controller = GraphController F graph store

  -- A controller that differs in its store alone, and not in the store's topology.
  pub record Unchanged (c c' : Controller) : Type 0 where
    pub store_after : store.State
    pub registries : c' ≡ record c { store = store_after }
    pub same : store.get_topology store_after ≡ topology F graph store c

  still : (c : Controller) → Unchanged c c
  still c = record { store_after = c.store; registries = refl; same = refl }

  -- After a mutation whose acceptance is no error, an error comes from the store.
  mutate-Unchanged :
      {A : Type 0} (c : Controller) (m : Mutation) (next : Controller → Result A × Controller)
      (e : ControlError)
      → ((id : ℕ) (s : store.State)
          → store.apply_mutation c.store m ≡ (Wal.ok id, s)
          → (next (record c { store = s })).0 ≢ err e)
      → (mutate F graph store c m next).0 ≡ err e
      → Unchanged c (mutate F graph store c m next).1
  mutate-Unchanged c m next e fine h =
      elim (outcome F graph store (store.apply_mutation c.store m)) [
        | inl (id, s, done) ↦
            absurd (fine id s done (rw (mutate-ok F graph store c next done) at h))
        | inr (e', s, refused) ↦
            rw (mutate-err F graph store c next refused) (record {
              store_after = s;
              registries = refl;
              same = store.refused c.store m refused;
            })
      ]

  create_node-Unchanged :
      (c : Controller) (spec : NodeSpec F) (e : ControlError)
      → (create_node F graph store c spec).0 ≡ err e
      → Unchanged c (create_node F graph store c spec).1
  unfolding create_node
  create_node-Unchanged c spec e h = elim (Bool-cases (trims_to_nothing spec.label)) [
    | inl blank ↦ rw blank (still c)
    | inr given ↦ elim (agreed_cases (agreed_kind spec.kind spec.params)) [
      | inr (e', differ) ↦ rw (given, differ) (still c)
      | inl (kind, agree) ↦
          rw (given, agree)
            (mutate-Unchanged c (add_node (new_node F graph store c spec))
              (λ c'. (
                ok (next_id (nodes F graph store c)),
                register F graph store (next_id (nodes F graph store c)) spec.label kind spec.params
                    c',
              ))
              e (λ id s done k. ground (arith, k)) (rw (given, agree) at h))
    ]
  ]

  delete_node-Unchanged :
      (c : Controller) (id : ℕ) (e : ControlError)
      → (delete_node F graph store c id).0 ≡ err e
      → Unchanged c (delete_node F graph store c id).1
  unfolding delete_node
  delete_node-Unchanged c id e h = elim (Option-cases (node_at F graph store c id)) [
    | inl absent ↦ rw (absent, delete_node) (still c)
    | inr (n, found) ↦
        rw (found, delete_node)
          (mutate-Unchanged c (remove_node id) (λ c'. (ok tt, unregister F graph store id c')) e
            (λ id s done k. ground (arith, k)) (rw (found, delete_node) at h))
  ]

  delete_link-Unchanged :
      (c : Controller) (id : ℕ) (e : ControlError)
      → (delete_link F graph store c id).0 ≡ err e
      → Unchanged c (delete_link F graph store c id).1
  unfolding delete_link
  delete_link-Unchanged c id e h =
      elim (Bool-cases (leb (length (topology F graph store c).edges) id)) [
        | inl beyond ↦ rw beyond (still c)
        | inr there ↦ rw there (
            mutate-Unchanged c (remove_link id) (λ c'. (ok tt, c')) e
              (λ id s done k. ground (arith, k)) (rw there at h))
      ]

  -- A link that the store accepts stands in its topology, so that it has an id.
  add_link-Unchanged :
      (c : Controller) (edge : SnapshotEdge) (e : ControlError)
      → (mutate F graph store c
          (add_link edge)
          (λ c'. (last_link (topology F graph store c').edges, c'))).0
        ≡ err e
      → Unchanged c
          (mutate F graph store c
            (add_link edge)
            (λ c'. (last_link (topology F graph store c').edges, c'))).1
  add_link-Unchanged c edge e h =
      mutate-Unchanged c (add_link edge) (λ c'. (last_link (topology F graph store c').edges, c')) e
        (λ id s done k.
          let grown =
            store.accepted c.store (add_link edge) done
            ∙ graph.apply-add_link (topology F graph store c) edge in
          last_link-append (topology F graph store c).edges edge
            (sym (ap (λ t. last_link t.edges) grown) ∙ k))
        h

  link_ports-Unchanged :
      (c : Controller) (source source_port target target_port : ℕ) (e : ControlError)
      → (link_ports F graph store c source source_port target target_port).0 ≡ err e
      → Unchanged c (link_ports F graph store c source source_port target target_port).1
  unfolding link_ports
  link_ports-Unchanged c source source_port target target_port e h =
      elim (Option-cases (node_at F graph store c source)) [
        | inl absent ↦ rw (absent, link_ports) (still c)
        | inr (src, found) ↦ elim (Bool-cases (leb (length src.outputs) source_port)) [
          | inl beyond ↦ rw (found, beyond, link_ports) (still c)
          | inr inside ↦ elim (Option-cases (node_at F graph store c target)) [
            | inl absent ↦ rw (found, inside, absent, link_ports) (still c)
            | inr (dst, found') ↦ elim (Bool-cases (leb (length dst.inputs) target_port)) [
              | inl beyond ↦ rw (found, inside, found', beyond, link_ports) (still c)
              | inr inside' ↦
                  rw (found, inside, found', inside', link_ports)
                    (add_link-Unchanged c
                      (record { source = (source, source_port); target = (target, target_port) }) e
                      (rw (found, inside, found', inside', link_ports) at h))
            ]
          ]
        ]
      ]

  answer_id-Unchanged :
      (c : Controller) (r : Result ℕ × Controller)
      → ((e : ControlError) → r.0 ≡ err e → Unchanged c r.1)
      → 400 ≤ (answer_id F graph store r).0.status
      → Unchanged c (answer_id F graph store r).1
  answer_id-Unchanged c (ok id, c') f h = absurd (omega (arith, h))
  answer_id-Unchanged c (err e, c') f h = f e refl

  answer_empty-Unchanged :
      (c : Controller) (r : Result (Unit {0}) × Controller)
      → ((e : ControlError) → r.0 ≡ err e → Unchanged c r.1)
      → 400 ≤ (answer_empty F graph store r).0.status
      → Unchanged c (answer_empty F graph store r).1
  answer_empty-Unchanged c (ok u, c') f h = absurd (omega (arith, h))
  answer_empty-Unchanged c (err e, c') f h = f e refl

  handle-Unchanged :
      (c : Controller) (r : Request F)
      → IsSingle r
      → 400 ≤ (handle F graph store r c).0.status
      → Unchanged c (handle F graph store r c).1
  unfolding handle create_link
  handle-Unchanged c get_nodes single h = absurd (omega (arith, h))
  handle-Unchanged c get_links single h = absurd (omega (arith, h))
  handle-Unchanged c get_topology single h = absurd (omega (arith, h))
  handle-Unchanged c get_preset single h = absurd (omega (arith, h))
  handle-Unchanged c (post_preset preset) single h = absurd single
  handle-Unchanged c (post_node spec) single h =
      answer_id-Unchanged c (create_node F graph store c spec) (create_node-Unchanged c spec) h
  handle-Unchanged c (post_link req) single h =
      let from_port = unwrap_or_zero req.source_port in
      let to_port = unwrap_or_zero req.target_port in
      answer_id-Unchanged c (link_ports F graph store c req.source from_port req.target to_port)
        (link_ports-Unchanged c req.source from_port req.target to_port) h
  handle-Unchanged c (delete_nodes id) single h =
      answer_empty-Unchanged c (delete_node F graph store c id) (delete_node-Unchanged c id) h
  handle-Unchanged c (delete_links id) single h =
      answer_empty-Unchanged c (delete_link F graph store c id) (delete_link-Unchanged c id) h

  topology_info-Unchanged :
      (c c' : Controller)
      → Unchanged c c'
      → topology_info F graph store c' ≡ topology_info F graph store c
  unfolding topology_info list_nodes list_links
  topology_info-Unchanged c c' u =
      ap (topology_info F graph store) u.registries
      ∙ ap
          (λ (t : TopologySnapshot). record {
            nodes = map (info_of F graph store c) t.nodes;
            links = link_infos 0 t.edges;
          })
          u.same

module _ (F : Type 0) (graph : AudioGraph) (redb : Redb) (json : Serde Mutation) where
  abbrev store : LocalSessionStore graph
  store = engine_store graph redb json

  -- On the single-node engine, whichever of its writes fail, a request that is answered with an error
  -- leaves the nodes and the links as they were, if no other request is handled at the same time, unless
  -- the request is the import of a preset.
  pub topology_info-handle :
      (c : GraphController F graph store) (r : Request F)
      → IsSingle r
      → 400 ≤ (handle F graph store r c).0.status
      → topology_info F graph store (handle F graph store r c).1 ≡ topology_info F graph store c
  topology_info-handle c r single h =
      topology_info-Unchanged F graph store c _ (handle-Unchanged F graph store c r single h)
