-- ===== src/Control/Store.antt =====
-- What the controller relies on: the `audio_graph_bsd` crate's reading of a mutation, as the comments
-- and tests of crates/control-api and crates/session-store document it, and the `SessionStore` trait of
-- crates/session-store/src/lib.rs, as its single-node engine implements it.
use sonicbrew.Base.{
  ℕ, ◌≡◌, refl, ◌||◌, Option, none, some, List, [], ◌∷◌, ◌++◌, ◌==◌, if◌then◌else◌, suc, zero, ap,
  sym, ◌∙◌, arith,
}
use sonicbrew.Session.Graph.{
  TopologySnapshot, NodeSnapshot, SnapshotEdge, Mutation, Apply, add_node, remove_node, add_link,
  remove_link,
}
use sonicbrew.Session.Redb.{Redb, Serde, Fault}
use sonicbrew.Session.Wal
use sonicbrew.Session.Wal.{Result, ok, err, StoreError, EngineState}

unfoldable pub find_node : ℕ → List NodeSnapshot → Option NodeSnapshot
find_node id [] = none
find_node id (n ∷ nodes) = if n.id == id then some n else find_node id nodes

-- The nodes but those with an id, and the edges that do not touch it.
unfoldable pub other_nodes : ℕ → List NodeSnapshot → List NodeSnapshot
other_nodes id [] = []
other_nodes id (n ∷ nodes) =
    let rest = other_nodes id nodes in if n.id == id then rest else n ∷ rest

unfoldable pub other_edges : ℕ → List SnapshotEdge → List SnapshotEdge
other_edges id [] = []
other_edges id (e ∷ edges) =
    let rest = other_edges id edges in
    if e.source.0 == id || e.target.0 == id then rest else e ∷ rest

unfoldable pub remove_at : {A : Type 0} → ℕ → List A → List A
remove_at i [] = []
remove_at zero (x ∷ xs) = xs
remove_at (suc i) (x ∷ xs) = x ∷ remove_at i xs

-- The crate's `TopologySnapshot::apply` and `TopologySnapshot::node`.
pub record AudioGraph : Type 0 where
  pub apply : Apply
  pub node : TopologySnapshot → ℕ → Option NodeSnapshot
  pub node-find_node : (s : TopologySnapshot) (id : ℕ) → node s id ≡ find_node id s.nodes
  pub apply-add_node :
      (s : TopologySnapshot) (n : NodeSnapshot)
      → find_node n.id s.nodes ≡ none
      → apply s (add_node n) ≡ record s { nodes = s.nodes ++ n ∷ [] }
  pub apply-remove_node :
      (s : TopologySnapshot) (id : ℕ)
      → apply s (remove_node id)
        ≡ record { nodes = other_nodes id s.nodes; edges = other_edges id s.edges }
  pub apply-add_link :
      (s : TopologySnapshot) (e : SnapshotEdge)
      → apply s (add_link e) ≡ record s { edges = s.edges ++ e ∷ [] }
  pub apply-remove_link :
      (s : TopologySnapshot) (i : ℕ)
      → apply s (remove_link i) ≡ record s { edges = remove_at i s.edges }

-- The trait `SessionStore`, for stores whose answer tells what they did: an accepted mutation has been
-- applied and a refused one has not. The single-node engine is one, as the laws of `engine_store`
-- show. `DistributedRaftEngine` is not: its error may follow a commit. A store in a `Reliable` state accepts
-- whatever it is given.
pub record LocalSessionStore (graph : AudioGraph) : Type 1 where
  pub State : Type 0
  pub get_topology : State → TopologySnapshot
  pub apply_mutation : State → Mutation → Result ℕ × State
  pub accepted :
      (s : State) (m : Mutation) {id : ℕ} {s' : State}
      → apply_mutation s m ≡ (ok id, s')
      → get_topology s' ≡ graph.apply (get_topology s) m
  pub refused :
      (s : State) (m : Mutation) {e : StoreError} {s' : State}
      → apply_mutation s m ≡ (err e, s')
      → get_topology s' ≡ get_topology s
  pub Reliable : State → Type 0
  pub accepts :
      (s : State) (m : Mutation)
      → Reliable s
      → (id : ℕ) × (s' : State) × (apply_mutation s m ≡ (ok id, s')) × Reliable s'

-- The single-node engine as a store. The faults that its next writes meet are part of the state, and a
-- state without any is reliable.
module _ (graph : AudioGraph) (redb : Redb) (json : Serde Mutation) where
  pub record Engine : Type 0 where
    pub engine : EngineState redb json graph.apply
    pub faults : List (Option Fault)

  abbrev next_fault : List (Option Fault) → Option Fault × List (Option Fault)
  next_fault [] = (none, [])
  next_fault (fault ∷ faults) = (fault, faults)

  abbrev apply_engine : Engine → Mutation → Result ℕ × Engine
  apply_engine s m =
      let (fault, faults) = next_fault s.faults in
      let (result, engine) = Wal.apply_mutation redb json graph.apply s.engine m fault in
      (result, record { engine = engine; faults = faults })

  pub engine_accepted :
      (engine : EngineState redb json graph.apply) (m : Mutation) (fault : Option Fault) {id : ℕ}
      → (Wal.apply_mutation redb json graph.apply engine m fault).0 ≡ ok id
      → (Wal.apply_mutation redb json graph.apply engine m fault).1.snapshot
        ≡ graph.apply engine.snapshot m
  unfolding Wal.apply_mutation
  engine_accepted engine m none h = refl
  engine_accepted engine m (some fault) h = absurd (ground (arith, h))

  pub engine_refused :
      (engine : EngineState redb json graph.apply) (m : Mutation) (fault : Option Fault)
      {e : StoreError}
      → (Wal.apply_mutation redb json graph.apply engine m fault).0 ≡ err e
      → (Wal.apply_mutation redb json graph.apply engine m fault).1.snapshot ≡ engine.snapshot
  unfolding Wal.apply_mutation
  engine_refused engine m none h = absurd (ground (arith, h))
  engine_refused engine m (some fault) h = refl

  pub engine_accepts :
      (s : Engine) (m : Mutation)
      → s.faults ≡ []
      → (id : ℕ) × (s' : Engine) × (apply_engine s m ≡ (ok id, s')) × (s'.faults ≡ [])
  unfolding Wal.apply_mutation
  engine_accepts s m h = rw h (s.engine.next_id, _, refl, refl)

  abbrev pub engine_store : LocalSessionStore graph
  engine_store = record {
    State = Engine;
    get_topology = λ s. s.engine.snapshot;
    apply_mutation = apply_engine;
    accepted = λ s m h.
        sym (ap (λ r. r.1.engine.snapshot) h)
        ∙ engine_accepted s.engine m (next_fault s.faults).0 (ap (λ r. r.0) h);
    refused = λ s m h.
        sym (ap (λ r. r.1.engine.snapshot) h)
        ∙ engine_refused s.engine m (next_fault s.faults).0 (ap (λ r. r.0) h);
    Reliable = λ s. s.faults ≡ [];
    accepts = λ s m h. engine_accepts s m h;
  }
