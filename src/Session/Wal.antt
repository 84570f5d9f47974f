-- ===== src/Session/Wal.antt =====
-- The single-node engine of crates/session-store/src/lib.rs: a write-ahead log of mutations and the
-- topology that its replay gives.
pub mod Recovery
use sonicbrew.Base.{ℕ, ◌+◌, Option, none, some, List, [], ◌∷◌, ◌++◌}
use sonicbrew.Session.Graph.{
  TopologySnapshot, Mutation, TopologyEvent, Apply, empty, add_node, remove_node, add_link,
  remove_link, node_added, node_removed, link_added, link_removed,
}
use sonicbrew.Session.Redb.{Redb, Serde, Rows, Fault}

-- `StoreError` with the step that a persistence message names, and the row that cannot be read.
pub data StoreError : Type 0 where
  unimplemented : StoreError
  persistence : Fault → ℕ → StoreError
  deserialize_mutation : StoreError
  invalid_mutation : StoreError

pub data Result {ℓ} (A : Type ℓ) : Type ℓ where
  ok : A → Result A
  err : StoreError → Result A

infixl 5 ◌>>=◌
abbrev pub ◌>>=◌ {ℓ κ} : {A : Type ℓ} {B : Type κ} → Result A → (A → Result B) → Result B
ok a >>= f = f a
err e >>= f = err e

unfoldable pub mutation_to_event : Mutation → TopologyEvent
mutation_to_event (add_node node) = node_added node
mutation_to_event (remove_node id) = node_removed id
mutation_to_event (add_link edge) = link_added edge
mutation_to_event (remove_link id) = link_removed id

module _ (redb : Redb) (json : Serde Mutation) (apply : Apply) where
  -- `sent` is what the broadcast channel was given, in order.
  pub record EngineState : Type 0 where
    pub snapshot : TopologySnapshot
    pub next_id : ℕ
    pub db : redb.Table
    pub sent : List TopologyEvent

  -- `serde_json::from_slice` in `open`.
  abbrev read_mutation : Option Mutation → Result Mutation
  read_mutation (some mutation) = ok mutation
  read_mutation none = err deserialize_mutation

  -- The loop of `open` over the rows.
  unfoldable pub replay : Rows → TopologySnapshot → ℕ → Result (TopologySnapshot × ℕ)
  replay [] snapshot next_id = ok (snapshot, next_id)
  replay ((key, bytes) ∷ rows) snapshot next_id = do
    mutation ← read_mutation (json.deserialize bytes)
    replay rows (apply snapshot mutation) (next_id + 1)

  -- `RaftEngine::open` on a database that opens.
  unfoldable pub open_engine : redb.Table → Result EngineState
  unfolding replay
  open_engine db = do
    (snapshot, next_id) ← replay (redb.rows db) empty 0
    ok (record { snapshot = snapshot; next_id = next_id; db = db; sent = [] })

  -- `apply_mutation`, with the step at which the write fails, if any. The snapshot, the counter and
  -- the subscribers come after the commit.
  unfoldable pub apply_mutation : EngineState → Mutation → Option Fault → Result ℕ × EngineState
  apply_mutation state mutation (some fault) = (err (persistence fault state.next_id), state)
  apply_mutation state mutation none = (
    ok state.next_id,
    record state {
      db = redb.insert state.db state.next_id (json.serialize mutation);
      snapshot = apply state.snapshot mutation;
      next_id = state.next_id + 1;
      sent = state.sent ++ mutation_to_event mutation ∷ [];
    },
  )

  unfoldable pub get_topology : EngineState → TopologySnapshot
  get_topology state = state.snapshot
