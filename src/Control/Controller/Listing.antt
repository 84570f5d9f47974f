-- ===== src/Control/Controller/Listing.antt =====
-- What a client of crates/control-api/src/lib.rs reads back after the operations that change the graph.
use sonicbrew.Base.{
  ℕ, ◌+◌, ◌%◌, ◌^◌, ◌<◌, ◌≡◌, refl, ap, ◌∙◌, Bool-cases, false, Option, none, some, List, [], ◌∷◌,
  ◌++◌, ◌==◌, arith, String, inl, inr, ==_iff, length, map, length-replicate,
}
use sonicbrew.Base.HashMap
use sonicbrew.Base.HashMap.{get-insert, get-remove}
use sonicbrew.Session.Graph.{
  PortDir, PortMeta, f32, input, output, NodeSnapshot, SnapshotEdge, add_node,
}
use sonicbrew.Control.Text.{trims_to_nothing}
use sonicbrew.Control.Params.{NodeParams}
use sonicbrew.Control.Store.{AudioGraph, LocalSessionStore, find_node}
use sonicbrew.Control.Types.{NodeInfo, NodeSpec, ok}
use sonicbrew.Control.Controller.{
  GraphController, topology, create_node, list_nodes, list_links, link_infos, info_of, agreed_kind,
  max_id, usize_max, insert_some, register, build_ports,
}
use sonicbrew.Control.Controller.Agree.{next_id, find_node-next_id, get-insert_some}
use sonicbrew.Control.Controller.Invariant.{IsRegistered, nodes, new_node, mutate-ok}

pub link_infos-append :
    (i : ℕ) (es : List SnapshotEdge) (e : SnapshotEdge)
    → link_infos i (es ++ e ∷ []) ≡ link_infos i es ++ link_infos (i + length es) (e ∷ [])
unfolding link_infos
link_infos-append i [] e =
    let same : i ≡ i + 0 = omega arith in ap (λ j. link_infos j (e ∷ [])) same
link_infos-append i (d ∷ es) e =
    let shift : i + 1 + length es ≡ i + length (d ∷ es) = omega arith in
    rw (link_infos-append (i + 1) es e, shift) refl

pub map-append :
    {A B : Type 0} (f : A → B) (xs : List A) (x : A) → map f (xs ++ x ∷ []) ≡ map f xs ++ f x ∷ []
map-append f [] x = refl
map-append f (y ∷ xs) x = ap (◌∷◌ (f y)) (map-append f xs x)

abbrev pub port_of : PortDir → PortMeta
port_of dir = record { direction = dir; channels = 1; sample_format = f32 }

kept :
    {V : Type 0} (v : Option V) {o : Option V}
    → o ≡ none
    → (elim v as (λ _. Option V) [ none ↦ o | some x ↦ some x ]) ≡ v
kept none h = h
kept (some x) h = refl

get-insert_some_self :
    {V : Type 0} (id : ℕ) (v : Option V) (m : HashMap.HashMap V)
    → HashMap.get id m ≡ none
    → HashMap.get id (insert_some id v m) ≡ v
get-insert_some_self id v m h = rw (get-insert_some id id v m, (==_iff id id).1 refl) (kept v h)

module _ (F : Type 0) (graph : AudioGraph) (store : LocalSessionStore graph) where
  abbrev Controller : Type 0
  Controller = GraphController F graph store

  info_of-register :
      (c : Controller) (s : store.State) (id : ℕ) (label : String) (kind : Option String)
      (params : Option (NodeParams F)) (n : NodeSnapshot)
      → (n.id == id) ≡ false
      → info_of F graph store
          (register F graph store id label kind params (record c { store = s }))
          n
        ≡ info_of F graph store c n
  unfolding info_of
  info_of-register c s id label kind params n other =
      let other' : (id == n.id) ≡ false = ground (arith, other) in
      rw
        (
          get-insert id n.id label c.labels,
          get-insert_some id n.id kind c.kinds,
          get-insert_some id n.id params c.params,
          other',
        )
        refl

  pub infos-register :
      (c : Controller) (s : store.State) (id : ℕ) (label : String) (kind : Option String)
      (params : Option (NodeParams F)) (ns : List NodeSnapshot)
      → find_node id ns ≡ none
      → map
          (info_of F graph store
            (register F graph store id label kind params (record c { store = s })))
          ns
        ≡ map (info_of F graph store c) ns
  unfolding find_node
  infos-register c s id label kind params [] absent = refl
  infos-register c s id label kind params (n ∷ ns) absent = elim (Bool-cases (n.id == id)) [
    | inl same ↦ absurd (ground (arith, rw same at absent))
    | inr other ↦ rw (info_of-register c s id label kind params n other) (
        ap (◌∷◌ (info_of F graph store c n))
          (infos-register c s id label kind params ns (rw other at absent)))
  ]

  -- What the listing shows of a node that a spec with this kind made.
  abbrev pub info_from : ℕ → Option String → NodeSpec F → NodeInfo F
  info_from id kind spec = record {
    id = id;
    label = spec.label;
    inputs = spec.inputs % 2 ^ 16;
    outputs = spec.outputs % 2 ^ 16;
    kind = kind;
    params = spec.params;
  }

  pub info_of-registered :
      (c : Controller) (s : store.State) (id : ℕ) (kind : Option String) (spec : NodeSpec F)
      → HashMap.get id c.kinds ≡ none
      → HashMap.get id c.params ≡ none
      → info_of F graph store
          (register F graph store id spec.label kind spec.params (record c { store = s }))
          (record {
            id = id;
            inputs = build_ports spec.inputs input;
            outputs = build_ports spec.outputs output;
          })
        ≡ info_from id kind spec
  unfolding info_of build_ports
  info_of-registered c s id kind spec no_kind no_params =
      rw
        (
          get-insert id id spec.label c.labels,
          (==_iff id id).1 refl,
          get-insert_some_self id kind c.kinds no_kind,
          get-insert_some_self id spec.params c.params no_params,
          length-replicate spec.inputs (port_of input),
          length-replicate spec.outputs (port_of output),
        )
        refl

  -- On a controller whose registries are in step with its graph, whose ids are below `usize::MAX`, and whose
  -- store accepts, a spec with a label, and with a kind and parameters that agree, makes a node under the
  -- id after the largest, while no other call runs. The listing of the nodes is then the old one with the new node's
  -- entry at the end, with the label, kind and parameters of the spec; the links are the old ones.
  pub list_nodes-create_node :
      (c : Controller) (spec : NodeSpec F) (kind : Option String)
      → max_id (nodes F graph store c) < usize_max
      → IsRegistered F graph store c
      → store.Reliable c.store
      → trims_to_nothing spec.label ≡ false
      → agreed_kind spec.kind spec.params ≡ ok kind
      → let (result, c') = create_node F graph store c spec in
        let id = next_id (nodes F graph store c) in
        (result ≡ ok id)
        × (list_nodes F graph store c' ≡ list_nodes F graph store c ++ info_from id kind spec ∷ [])
        × (list_links F graph store c' ≡ list_links F graph store c)
  unfolding create_node list_nodes list_links
  list_nodes-create_node c spec kind room v reliable given agree =
      let id = next_id (nodes F graph store c) in
      let free = find_node-next_id (nodes F graph store c) room in
      let (_, s, done, _) =
        store.accepts c.store (add_node (new_node F graph store c spec)) reliable in
      let topology' =
        store.accepted c.store (add_node (new_node F graph store c spec)) done
        ∙ graph.apply-add_node (topology F graph store c) (new_node F graph store c spec) free in
      rw (given, agree, mutate-ok F graph store c _ done)
        (
          refl,
          rw topology' (
              map-append
                (info_of F graph store
                  (register F graph store id spec.label kind spec.params (record c { store = s })))
                (nodes F graph store c) (new_node F graph store c spec)
              ∙ rw
                  (
                    infos-register c s id spec.label kind spec.params (nodes F graph store c) free,
                    info_of-registered c s id kind spec (v.kinds id free) (v.params id free),
                  )
                  refl),
          rw topology' refl,
        )
