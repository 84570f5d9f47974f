-- ===== src/Engine/Build.antt =====
-- What `build_graph` of crates/audio-engine/src/lib.rs makes of a topology.
use sonicbrew.Base.{
  ℕ, ◌+◌, ◌≡◌, refl, ap, sym, ◌∙◌, Option, none, some, Option-cases, List, [], ◌∷◌, ◌++◌, length,
  length-append, append_assoc, append-nil, arith, inl, inr, ◌⊎◌, ◌==◌, if◌then◌else◌, true, false,
  Bool,
}
use sonicbrew.Base.HashMap
use sonicbrew.Base.HashMap.{HashMap, get-insert}
use sonicbrew.Session.Graph.{TopologySnapshot, NodeSnapshot, SnapshotEdge}
use sonicbrew.Engine.{
  BuiltNode, plain, sink, Outcome, done, failed, GraphCrate, NodeFactory, add_built, add_all,
  link_all, build_graph,
}

-- Where the last node with an id stands, counted from a first place.
abbrev pub or_before : Option ℕ → Option ℕ → Option ℕ
or_before (some i) before = some i
or_before none before = before

unfoldable pub place : ℕ → List NodeSnapshot → ℕ → Option ℕ
place id [] first = none
place id (n ∷ nodes) first =
    or_before (place id nodes (first + 1)) (if n.id == id then some first else none)

abbrev pub cons_some : {A : Type 0} → Option A → Option (List A) → Option (List A)
cons_some (some a) (some rest) = some (a ∷ rest)
cons_some (some a) none = none
cons_some none rest = none

-- An edge between the places of its nodes.
abbrev pub relink : Option ℕ → Option ℕ → SnapshotEdge → Option SnapshotEdge
relink (some from) (some to) e =
    some (record { source = (from, e.source.1); target = (to, e.target.1) })
relink (some from) none e = none
relink none to e = none

unfoldable pub relinked : (ℕ → Option ℕ) → List SnapshotEdge → Option (List SnapshotEdge)
relinked place_of [] = some []
relinked place_of (e ∷ edges) =
    cons_some (relink (place_of e.source.0) (place_of e.target.0) e) (relinked place_of edges)

pub relinked_ext :
    (f g : ℕ → Option ℕ) (edges : List SnapshotEdge)
    → ((id : ℕ) → f id ≡ g id)
    → relinked f edges ≡ relinked g edges
unfolding relinked
relinked_ext f g [] same = refl
relinked_ext f g (e ∷ edges) same =
    rw (same e.source.0, same e.target.0, relinked_ext f g edges same) refl

pub done_injective : {E A : Type 0} {a b : A} → ◌≡◌ {A = Outcome E A} (done a) (done b) → a ≡ b
done_injective {a} h = ap (λ o. elim o [ done x ↦ x | failed _ ↦ a ]) h

or_before_insert :
    (p q : Option ℕ) (i : ℕ) (here : Bool)
    → or_before p (if here then some i else q)
      ≡ or_before (or_before p (if here then some i else none)) q
or_before_insert (some j) q i here = refl
or_before_insert none q i true = refl
or_before_insert none q i false = refl

pub or_before-none : (p : Option ℕ) → or_before p none ≡ p
or_before-none (some i) = refl
or_before-none none = refl

pub outcome :
    {E A : Type 0} (o : Outcome E A) → ((a : A) × (o ≡ done a)) ⊎ ((e : E) × (o ≡ failed e))
outcome (done a) = inl (a, refl)
outcome (failed e) = inr (e, refl)

module _ {Node Sink : Type 0} (crate : GraphCrate Node Sink) where
  unfoldable pub built_nodes :
      (ℕ → Option (BuiltNode Node Sink)) → List NodeSnapshot → Option (List (BuiltNode Node Sink))
  built_nodes factory [] = some []
  built_nodes factory (n ∷ nodes) = cons_some (factory n.id) (built_nodes factory nodes)

  add_built_parts :
      (g : crate.Graph) (b : BuiltNode Node Sink)
      → ((add_built crate g b).0 ≡ length (crate.slots g))
        × (crate.slots (add_built crate g b).1 ≡ crate.slots g ++ b ∷ [])
        × (crate.links (add_built crate g b).1 ≡ crate.links g)
  add_built_parts g (plain n) =
      (crate.add_node_id g n, crate.slots-add_node g n, crate.links-add_node g n)
  add_built_parts g (sink s) =
      (crate.add_sink_id g s, crate.slots-add_sink g s, crate.links-add_sink g s)

  -- What the loop over the nodes leaves.
  pub record Added (factory : NodeFactory crate) (nodes : List NodeSnapshot) (g : crate.Graph)
      (m : HashMap ℕ) (g' : crate.Graph) (m' : HashMap ℕ) : Type 0 where
    pub bs : List (BuiltNode Node Sink)
    pub built : built_nodes factory nodes ≡ some bs
    pub slots : crate.slots g' ≡ crate.slots g ++ bs
    pub links : crate.links g' ≡ crate.links g
    pub ids :
        (id : ℕ)
        → HashMap.get id m' ≡ or_before (place id nodes (length (crate.slots g))) (HashMap.get id m)

  pub add_all-Added :
      (factory : NodeFactory crate) (nodes : List NodeSnapshot) (g : crate.Graph) (m : HashMap ℕ)
      {g' : crate.Graph} {m' : HashMap ℕ}
      → add_all crate factory nodes g m ≡ done (g', m')
      → Added factory nodes g m g' m'
  unfolding add_all built_nodes place
  add_all-Added factory [] g m {g'} {m'} h =
      let same = done_injective h in
      record {
        bs = [];
        built = refl;
        slots = sym (ap (λ p. crate.slots p.0) same) ∙ sym (append-nil (crate.slots g));
        links = sym (ap (λ p. crate.links p.0) same);
        ids = λ id. sym (ap (λ p. HashMap.get id p.1) same);
      }
  add_all-Added factory (n ∷ nodes) g m {g'} {m'} h = elim (Option-cases (factory n.id)) [
    | inl absent ↦ absurd (ground (arith, rw absent at h))
    | inr (b, found) ↦
        let (new_id, grown, kept) = add_built_parts g b in
        let rest =
          add_all-Added factory nodes (add_built crate g b).1
            (HashMap.insert n.id (add_built crate g b).0 m) (rw found at h) in
        record {
          bs = b ∷ rest.bs;
          built = rw (found, rest.built) refl;
          slots =
              rest.slots
              ∙ ap (λ l. l ++ rest.bs) grown
              ∙ append_assoc (crate.slots g) (b ∷ []) rest.bs;
          links = rest.links ∙ kept;
          ids = λ id.
              rest.ids id
              ∙ rw
                  (
                    ap length grown ∙ length-append (crate.slots g) (b ∷ []),
                    get-insert n.id id (add_built crate g b).0 m,
                    new_id,
                  )
                  (or_before_insert (place id nodes (length (crate.slots g) + 1)) (HashMap.get id m)
                    (length (crate.slots g)) (n.id == id));
        }
  ]

  -- What the loop over the edges leaves.
  record Linked (m : HashMap ℕ) (edges : List SnapshotEdge) (g g' : crate.Graph) : Type 0 where
    es : List SnapshotEdge
    linked : relinked (λ id. HashMap.get id m) edges ≡ some es
    slots : crate.slots g' ≡ crate.slots g
    links : crate.links g' ≡ crate.links g ++ es

  link_all-Linked :
      (m : HashMap ℕ) (edges : List SnapshotEdge) (g : crate.Graph) {g' : crate.Graph}
      → link_all crate m edges g ≡ done g'
      → Linked m edges g g'
  unfolding link_all relinked
  link_all-Linked m [] g h =
      let same = done_injective h in
      record {
        es = [];
        linked = refl;
        slots = sym (ap crate.slots same);
        links = sym (ap crate.links same) ∙ sym (append-nil (crate.links g));
      }
  link_all-Linked m (e ∷ edges) g h = elim (Option-cases (HashMap.get e.source.0 m)) [
    | inl absent ↦ absurd (ground (arith, rw absent at h))
    | inr (from, found) ↦ elim (Option-cases (HashMap.get e.target.0 m)) [
      | inl absent ↦ absurd (ground (arith, rw (found, absent) at h))
      | inr (to, found') ↦ elim (outcome (crate.link g (from, e.source.1) (to, e.target.1))) [
        | inr (error, refused) ↦ absurd (ground (arith, rw (found, found', refused) at h))
        | inl (g₁, joined) ↦
            let rest = link_all-Linked m edges g₁ (rw (found, found', joined) at h) in
            record {
              es = record { source = (from, e.source.1); target = (to, e.target.1) } ∷ rest.es;
              linked = rw (found, found', rest.linked) refl;
              slots = rest.slots ∙ crate.slots-link g _ _ joined;
              links =
                  rest.links
                  ∙ ap (λ l. l ++ rest.es) (crate.links-link g _ _ joined)
                  ∙ append_assoc (crate.links g) _ rest.es;
            }
      ]
    ]
  ]

  pub first_place :
      (id : ℕ) (nodes : List NodeSnapshot)
      → or_before (place id nodes (length (crate.slots crate.new))) (HashMap.get id [])
        ≡ place id nodes 0
  unfolding HashMap.get
  first_place id nodes =
      or_before-none (place id nodes (length (crate.slots crate.new)))
      ∙ ap (λ slots. place id nodes (length slots)) crate.slots-new

  -- A graph that is built has exactly the nodes that the factory makes for the topology's nodes, in their
  -- order and each as a sink where it was made as one, and exactly the topology's edges, each between
  -- the places of the nodes that it names: however the ids of the topology lie.
  pub build_graph-relinked :
      (snapshot : TopologySnapshot) (config : crate.GraphConfig) (factory : NodeFactory crate)
      (g : crate.Graph)
      → build_graph crate snapshot config factory ≡ done g
      → (built_nodes factory snapshot.nodes ≡ some (crate.slots g))
        × (relinked (λ id. place id snapshot.nodes 0) snapshot.edges ≡ some (crate.links g))
  unfolding build_graph
  build_graph-relinked snapshot config factory g h =
      elim (outcome (add_all crate factory snapshot.nodes crate.new [])) [
        | inr (e, refused) ↦ absurd (ground (arith, rw refused at h))
        | inl ((g₁, m), added) ↦ elim (outcome (link_all crate m snapshot.edges g₁)) [
          | inr (e, refused) ↦ absurd (ground (arith, rw (added, refused) at h))
          | inl (g₂, linked) ↦ elim (outcome (crate.compile g₂ config)) [
            | inr (e, refused) ↦ absurd (ground (arith, rw (added, linked, refused) at h))
            | inl (g₃, compiled) ↦
                let same : g₃ ≡ g = done_injective (rw (added, linked, compiled) at h) in
                let a = add_all-Added factory snapshot.nodes crate.new [] added in
                let l = link_all-Linked m snapshot.edges g₁ linked in
                let slots =
                  ap crate.slots (sym same)
                  ∙ crate.slots-compile g₂ config compiled
                  ∙ l.slots
                  ∙ a.slots
                  ∙ ap (λ ss. ss ++ a.bs) crate.slots-new in
                let links =
                  ap crate.links (sym same)
                  ∙ crate.links-compile g₂ config compiled
                  ∙ l.links
                  ∙ ap (λ ls. ls ++ l.es) (a.links ∙ crate.links-new) in
                (
                  a.built ∙ ap some (sym slots),
                  relinked_ext _ _ snapshot.edges
                        (λ id. sym (a.ids id ∙ first_place id snapshot.nodes))
                      ∙ l.linked
                      ∙ ap some (sym links),
                )
          ]
        ]
      ]
