-- ===== src/Control/Controller/Invariant.antt =====
-- The registries beside the graph in crates/control-api/src/lib.rs stay in step with it.
use sonicbrew.Base.{
  ℕ, ◌<◌, ◌≡◌, refl, ap, ◌∙◌, Bool-cases, false, Option, none, some, List, [], ◌∷◌, ◌++◌, ◌==◌,
  arith, String, ◌⊎◌, inl, inr, ==_iff,
}
use mathlib.Core.Path.{subst}
use sonicbrew.Base.HashMap
use sonicbrew.Base.HashMap.{HashMap, get-insert, get-remove}
use sonicbrew.Session.Graph.{NodeSnapshot, Mutation, add_node, input, output}
use sonicbrew.Session.Wal
use sonicbrew.Session.Wal.{StoreError}
use sonicbrew.Control.Text.{trims_to_nothing}
use sonicbrew.Control.Params.{NodeParams, kind_name}
use sonicbrew.Control.Store.{AudioGraph, LocalSessionStore, find_node, other_nodes}
use sonicbrew.Control.Types.{NodeSpec, Result, err, store_err_to_control}
use sonicbrew.Control.Controller.{
  GraphController, topology, create_node, agreed_kind, settle, max_id, usize_max, register,
  unregister, mutate, build_ports,
}
use sonicbrew.Control.Controller.Ids.{find_node-append, find_node-other_nodes}
use sonicbrew.Control.Controller.Agree.{
  get-insert_some, new_agree, next_id, find_node-next_id, agreed_cases, agreed_of,
}

module _ (F : Type 0) (graph : AudioGraph) (store : LocalSessionStore graph) where
  abbrev Controller : Type 0
  Controller = GraphController F graph store

  abbrev pub nodes : Controller → List NodeSnapshot
  nodes c = (topology F graph store c).nodes

  -- No entry stands under an id that no node has, and the kind of a node is the one that its
  -- parameters imply.
  pub record IsRegistered (c : Controller) : Type 0 where
    pub labels : (i : ℕ) → find_node i (nodes c) ≡ none → HashMap.get i c.labels ≡ none
    pub kinds : (i : ℕ) → find_node i (nodes c) ≡ none → HashMap.get i c.kinds ≡ none
    pub params : (i : ℕ) → find_node i (nodes c) ≡ none → HashMap.get i c.params ≡ none
    pub agree :
        (i : ℕ) (p : NodeParams F)
        → HashMap.get i c.params ≡ some p
        → HashMap.get i c.kinds ≡ some (kind_name p)

  -- A store gives either answer.
  pub outcome :
      (r : Wal.Result ℕ × store.State)
      → ((id : ℕ) × (s : store.State) × (r ≡ (Wal.ok id, s)))
        ⊎ ((e : StoreError) × (s : store.State) × (r ≡ (Wal.err e, s)))
  outcome (Wal.ok id, s) = inl (id, s, refl)
  outcome (Wal.err e, s) = inr (e, s, refl)

  pub mutate-ok :
      {A : Type 0} (c : Controller) {m : Mutation} {id : ℕ} {s : store.State}
      (next : Controller → Result A × Controller)
      → store.apply_mutation c.store m ≡ (Wal.ok id, s)
      → mutate F graph store c m next ≡ next (record c { store = s })
  mutate-ok c next h = ap (settle F graph store c next) h

  pub mutate-err :
      {A : Type 0} (c : Controller) {m : Mutation} {e : StoreError} {s : store.State}
      (next : Controller → Result A × Controller)
      → store.apply_mutation c.store m ≡ (Wal.err e, s)
      → mutate F graph store c m next ≡ (err (store_err_to_control e), record c { store = s })
  mutate-err c next h = ap (settle F graph store c next) h

  pub store-added :
      (c : Controller) (s : store.State) (n : NodeSnapshot) {id : ℕ}
      → find_node n.id (nodes c) ≡ none
      → store.apply_mutation c.store (add_node n) ≡ (Wal.ok id, s)
      → (store.get_topology s).nodes ≡ nodes c ++ n ∷ []
  store-added c s n free h =
      ap (λ t. t.nodes)
        (store.accepted c.store (add_node n) h
          ∙ graph.apply-add_node (topology F graph store c) n free)

  -- The snapshot that a spec makes.
  abbrev pub new_node : Controller → NodeSpec F → NodeSnapshot
  new_node c spec = record {
    id = next_id (nodes c);
    inputs = build_ports spec.inputs input;
    outputs = build_ports spec.outputs output;
  }

  -- A controller whose store moved, but not its nodes.
  pub same_nodes-IsRegistered :
      (c : Controller) (s : store.State)
      → (store.get_topology s).nodes ≡ nodes c
      → IsRegistered c
      → IsRegistered (record c { store = s })
  same_nodes-IsRegistered c s same v = record {
    labels = λ i absent. v.labels i (rw same at absent);
    kinds = λ i absent. v.kinds i (rw same at absent);
    params = λ i absent. v.params i (rw same at absent);
    agree = v.agree;
  }

  absent_parts :
      (ns : List NodeSnapshot) (n : NodeSnapshot) (i : ℕ)
      → find_node i (ns ++ n ∷ []) ≡ none
      → (find_node i ns ≡ none) × ((n.id == i) ≡ false)
  absent_parts ns n i h = ground (arith, find_node-append ns n i)

  pub register-IsRegistered :
      (c : Controller) (s : store.State) (n : NodeSnapshot) (label : String) (kind : Option String)
      (params : Option (NodeParams F))
      → IsRegistered c
      → find_node n.id (nodes c) ≡ none
      → (store.get_topology s).nodes ≡ nodes c ++ n ∷ []
      → ((p : NodeParams F) → params ≡ some p → kind ≡ some (kind_name p))
      → IsRegistered (register F graph store n.id label kind params (record c { store = s }))
  register-IsRegistered c s n label kind params v free grown agreed = record {
    labels = λ i absent.
        let (old, other) = absent_parts (nodes c) n i (rw grown at absent) in
        rw (get-insert n.id i label c.labels, other) (v.labels i old);
    kinds = λ i absent.
        let (old, other) = absent_parts (nodes c) n i (rw grown at absent) in
        rw (get-insert_some n.id i kind c.kinds, other) (v.kinds i old);
    params = λ i absent.
        let (old, other) = absent_parts (nodes c) n i (rw grown at absent) in
        rw (get-insert_some n.id i params c.params, other) (v.params i old);
    agree = λ i q found. elim (Bool-cases (n.id == i)) [
      | inl same ↦
          let found' = rw (get-insert_some n.id i params c.params, same) at found in
          rw (get-insert_some n.id i kind c.kinds, same)
            (new_agree kind params q (HashMap.get i c.kinds)
              (v.params i (subst (λ j. find_node j (nodes c) ≡ none) ((==_iff n.id i).0 same) free))
              agreed found')
      | inr other ↦
          rw (get-insert_some n.id i kind c.kinds, other)
            (v.agree i q (rw (get-insert_some n.id i params c.params, other) at found))
    ];
  }

  -- Creating a node keeps the registries in step, whatever the spec and the store's answer, while the
  -- ids stay below `usize::MAX`.
  pub create_node-IsRegistered :
      (c : Controller) (spec : NodeSpec F)
      → max_id (nodes c) < usize_max
      → IsRegistered c
      → IsRegistered (create_node F graph store c spec).1
  unfolding create_node
  create_node-IsRegistered c spec room v = elim (Bool-cases (trims_to_nothing spec.label)) [
    | inl blank ↦ rw blank v
    | inr given ↦ elim (agreed_cases (agreed_kind spec.kind spec.params)) [
      | inr (e, differ) ↦ rw (given, differ) v
      | inl (kind, agree) ↦
          elim (outcome (store.apply_mutation c.store (add_node (new_node c spec)))) [
            | inl (id, s, done) ↦
                rw (given, agree, mutate-ok c _ done)
                  (register-IsRegistered c s (new_node c spec) spec.label kind spec.params v
                    (find_node-next_id (nodes c) room)
                    (store-added c s (new_node c spec) (find_node-next_id (nodes c) room) done)
                    (agreed_of spec.kind spec.params kind agree))
            | inr (e, s, refused) ↦
                rw (given, agree, mutate-err c _ refused)
                  (same_nodes-IsRegistered c s (ap (λ t. t.nodes) (store.refused c.store _ refused))
                    v)
          ]
    ]
  ]

  still :
      (c : Controller) (s : store.State) (id : ℕ)
      → (store.get_topology s).nodes ≡ other_nodes id (nodes c)
      → (i : ℕ) → (id == i) ≡ false
      → find_node i (store.get_topology s).nodes ≡ none
      → find_node i (nodes c) ≡ none
  still c s id kept i other absent =
      rw (find_node-other_nodes (nodes c) id i, other) at (rw kept at absent)

  pub unregister-IsRegistered :
      (c : Controller) (s : store.State) (id : ℕ)
      → IsRegistered c
      → (store.get_topology s).nodes ≡ other_nodes id (nodes c)
      → IsRegistered (unregister F graph store id (record c { store = s }))
  unregister-IsRegistered c s id v kept = record {
    labels = λ i absent. elim (Bool-cases (id == i)) [
      | inl same ↦ rw (get-remove id i c.labels, same) refl
      | inr other ↦
          rw (get-remove id i c.labels, other) (v.labels i (still c s id kept i other absent))
    ];
    kinds = λ i absent. elim (Bool-cases (id == i)) [
      | inl same ↦ rw (get-remove id i c.kinds, same) refl
      | inr other ↦
          rw (get-remove id i c.kinds, other) (v.kinds i (still c s id kept i other absent))
    ];
    params = λ i absent. elim (Bool-cases (id == i)) [
      | inl same ↦ rw (get-remove id i c.params, same) refl
      | inr other ↦
          rw (get-remove id i c.params, other) (v.params i (still c s id kept i other absent))
    ];
    agree = λ i q found. elim (Bool-cases (id == i)) [
      | inl same ↦ absurd (ground (arith, rw (get-remove id i c.params, same) at found))
      | inr other ↦
          rw (get-remove id i c.kinds, other)
            (v.agree i q (rw (get-remove id i c.params, other) at found))
    ];
  }
