-- ===== src/Session/StateMachine.antt =====
-- The replicated state machine of crates/session-store/src/raft_state_machine.rs. Each of its two
-- tables holds one row; a write replaces the row or, where it fails, leaves it.
pub mod Replay
pub mod Transfer
use sonicbrew.Base.{ℕ, ◌+◌, Option, none, some, List, [], ◌∷◌, length}
use sonicbrew.Session.Graph.{TopologySnapshot, Mutation, Apply, empty}
use sonicbrew.Session.Raft.{
  LogId, Entry, EntryPayload, blank, normal, membership, StoredMembership, Result, ok, err, io,
  deserialize, ◌>>=◌,
}
use sonicbrew.Session.Redb.{Serde, Bytes, Fault}

pub record PersistedState (M : Type 0) : Type 0 where
  pub topology : TopologySnapshot
  pub last_applied : Option LogId
  pub last_membership : StoredMembership M
  pub next_mutation_id : ℕ

-- `SnapshotMeta`; the id is the text "index-length", kept as its two numbers.
pub record SnapshotMeta (M : Type 0) : Type 0 where
  pub last_log_id : Option LogId
  pub last_membership : StoredMembership M
  pub snapshot_id : ℕ × ℕ

pub record PersistedSnapshot (M : Type 0) : Type 0 where
  pub meta : SnapshotMeta M
  pub payload : Bytes

-- `ClientWriteResponse`, whose default is id 0.
pub record ClientWriteResponse : Type 0 where
  pub mutation_id : ℕ

abbrev pub default_response : ClientWriteResponse
default_response = record { mutation_id = 0 }

pub record Codecs (M : Type 0) : Type 0 where
  pub state : Serde (PersistedState M)
  pub topology : Serde TopologySnapshot
  pub snapshot : Serde (PersistedSnapshot M)

pub record StateMachine : Type 0 where
  pub state : Option Bytes
  pub snapshot : Option Bytes

module _ {M : Type 0} (codecs : Codecs M) (graph_apply : Apply) (default_membership : M) where
  abbrev pub default_state : PersistedState M
  default_state = record {
    topology = empty;
    last_applied = none;
    last_membership = record { log_id = none; config = default_membership };
    next_mutation_id = 0;
  }

  -- `StateMachine::open` seeds the state row where there is none.
  unfoldable pub open_machine : StateMachine → StateMachine
  open_machine sm = elim sm.state [
    | none ↦ record sm { state = some (codecs.state.serialize default_state) }
    | some bytes ↦ sm
  ]

  abbrev decoded : {A : Type 0} → Serde A → Bytes → Result A
  decoded serde bytes = elim (serde.deserialize bytes) [ none ↦ err deserialize | some a ↦ ok a ]

  unfoldable pub read_state : StateMachine → Result (PersistedState M)
  read_state sm = elim sm.state [ none ↦ err io | some bytes ↦ decoded codecs.state bytes ]

  -- `StateMachineReader::topology`, where a missing row is an empty topology.
  unfoldable pub reader_topology : StateMachine → Result TopologySnapshot
  reader_topology sm = elim sm.state [
    | none ↦ ok empty
    | some bytes ↦ do state ← decoded codecs.state bytes; ok state.topology
  ]

  unfoldable pub write_state :
      StateMachine → PersistedState M → Option Fault → Result (Unit {0}) × StateMachine
  write_state sm state none = (ok tt, record sm { state = some (codecs.state.serialize state) })
  write_state sm state (some fault) = (err io, sm)

  unfoldable pub write_snapshot :
      StateMachine → PersistedSnapshot M → Option Fault → Result (Unit {0}) × StateMachine
  write_snapshot sm snap none =
      (ok tt, record sm { snapshot = some (codecs.snapshot.serialize snap) })
  write_snapshot sm snap (some fault) = (err io, sm)

  -- The cases of `entry.payload`, for a state whose `last_applied` is set.
  unfoldable pub apply_payload :
      LogId → EntryPayload M → PersistedState M → ClientWriteResponse × PersistedState M
  apply_payload log_id blank state = (default_response, state)
  apply_payload log_id (normal mutation) state = (
    record { mutation_id = state.next_mutation_id },
    record state {
      next_mutation_id = state.next_mutation_id + 1;
      topology = graph_apply state.topology mutation;
    },
  )
  apply_payload log_id (membership config) state = (
    default_response,
    record state { last_membership = record { log_id = some log_id; config = config } },
  )

  -- The loop of `apply` over the entries.
  unfoldable pub apply_entries :
      List (Entry M) → PersistedState M → List ClientWriteResponse × PersistedState M
  unfolding apply_payload
  apply_entries [] state = ([], state)
  apply_entries (e ∷ es) state =
      let (response, state') =
        apply_payload e.log_id e.payload (record state { last_applied = some e.log_id }) in
      let (responses, state'') = apply_entries es state' in (response ∷ responses, state'')

  abbrev finish_apply :
      StateMachine
      → List (Entry M)
      → Option Fault
      → Result (PersistedState M)
      → Result (List ClientWriteResponse) × StateMachine
  finish_apply sm es fault (err e) = (err e, sm)
  finish_apply sm es fault (ok state) =
      let (responses, state') = apply_entries es state in
      let (written, sm') = write_state sm state' fault in (do _ ← written; ok responses, sm')

  -- `apply`, with the failure that the write meets, if any.
  unfoldable pub apply :
      StateMachine
      → List (Entry M)
      → Option Fault
      → Result (List ClientWriteResponse) × StateMachine
  unfolding read_state write_state
  apply sm es fault = finish_apply sm es fault (read_state sm)

  -- What a snapshot carries to another node.
  abbrev pub Snapshot : Type 0
  Snapshot = SnapshotMeta M × Bytes

  abbrev index_or_zero : Option LogId → ℕ
  index_or_zero none = 0
  index_or_zero (some log_id) = log_id.index

  abbrev snapshot_of : PersistedState M → PersistedSnapshot M
  snapshot_of state =
      let payload = codecs.topology.serialize state.topology in
      record {
        meta = record {
          last_log_id = state.last_applied;
          last_membership = state.last_membership;
          snapshot_id = (index_or_zero state.last_applied, length payload);
        };
        payload = payload;
      }

  abbrev finish_build :
      StateMachine → Option Fault → Result (PersistedState M) → Result Snapshot × StateMachine
  finish_build sm fault (err e) = (err e, sm)
  finish_build sm fault (ok state) =
      let (written, sm') = write_snapshot sm (snapshot_of state) fault in
      (do _ ← written; ok ((snapshot_of state).meta, (snapshot_of state).payload), sm')

  unfoldable pub build_snapshot : StateMachine → Option Fault → Result Snapshot × StateMachine
  unfolding read_state write_snapshot
  build_snapshot sm fault = finish_build sm fault (read_state sm)

  abbrev finish_install :
      StateMachine
      → SnapshotMeta M
      → Bytes
      → Option Fault
      → Option Fault
      → Option TopologySnapshot
      → Result (Unit {0}) × StateMachine
  finish_install sm meta payload state_fault snapshot_fault none = (err deserialize, sm)
  finish_install sm meta payload state_fault snapshot_fault (some topology) =
      let installed : PersistedState M = record {
        topology = topology;
        last_applied = meta.last_log_id;
        last_membership = meta.last_membership;
        next_mutation_id = 0;
      } in
      let (written, sm') = write_state sm installed state_fault in
      elim written [
        | err e ↦ (err e, sm')
        | ok _ ↦ write_snapshot sm' (record { meta = meta; payload = payload }) snapshot_fault
      ]

  -- `install_snapshot`, with the failures that its two writes meet.
  unfoldable pub install_snapshot :
      StateMachine
      → SnapshotMeta M
      → Bytes
      → Option Fault
      → Option Fault
      → Result (Unit {0}) × StateMachine
  unfolding write_state write_snapshot
  install_snapshot sm meta payload state_fault snapshot_fault =
      finish_install sm meta payload state_fault snapshot_fault
        (codecs.topology.deserialize payload)

  unfoldable pub get_current_snapshot : StateMachine → Result (Option Snapshot)
  get_current_snapshot sm = elim sm.snapshot [
    | none ↦ ok none
    | some bytes ↦ do snap ← decoded codecs.snapshot bytes; ok (some (snap.meta, snap.payload))
  ]
