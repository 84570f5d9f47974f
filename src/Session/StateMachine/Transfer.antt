-- ===== src/Session/StateMachine/Transfer.antt =====
-- Building a snapshot on one node and installing it on another, in
-- crates/session-store/src/raft_state_machine.rs.
use sonicbrew.Base.{◌+◌, ◌≡◌, refl, sym, ◌∙◌, Option, none, some, List, arith}
use sonicbrew.Session.Graph.{Apply}
use sonicbrew.Session.Raft.{Entry, Result, ok}
use sonicbrew.Session.Redb.{Bytes, Fault}
use sonicbrew.Session.StateMachine.{
  PersistedState, PersistedSnapshot, SnapshotMeta, Codecs, StateMachine, build_snapshot,
  install_snapshot, get_current_snapshot, apply, snapshot_of,
}
use sonicbrew.Session.StateMachine.Replay.{IsAt, read_state-IsAt, apply-Applies}

module _ {M : Type 0} (codecs : Codecs M) (graph_apply : Apply) (default_membership : M) where
  abbrev build : StateMachine → Option Fault → Result (SnapshotMeta M × Bytes) × StateMachine
  build = build_snapshot codecs graph_apply default_membership

  abbrev pub install : StateMachine → PersistedSnapshot M → Result (Unit {0}) × StateMachine
  install sm snap =
      install_snapshot codecs graph_apply default_membership sm snap.meta snap.payload none none

  abbrev pub taken : PersistedState M → PersistedSnapshot M
  taken = snapshot_of codecs graph_apply default_membership

  -- The state that an install leaves: all of the sender's but the counter, which starts again.
  abbrev pub received : PersistedState M → PersistedState M
  received state = record state { next_mutation_id = 0 }

  build-taken :
      (sm : StateMachine) (state : PersistedState M)
      → IsAt codecs graph_apply default_membership sm state
      → build sm none ≡ (
        ok ((taken state).meta, (taken state).payload),
        record sm { snapshot = some (codecs.snapshot.serialize (taken state)) },
      )
  unfolding build_snapshot
  build-taken sm state at =
      rw (read_state-IsAt codecs graph_apply default_membership sm state at) refl

  install-taken :
      (sm : StateMachine) (state : PersistedState M)
      → install sm (taken state) ≡ (
        ok tt,
        record {
          state = some (codecs.state.serialize (received state));
          snapshot = some (codecs.snapshot.serialize (taken state));
        },
      )
  unfolding install_snapshot
  install-taken sm state = rw (codecs.topology.deserialize-serialize state.topology) refl

  -- A snapshot that one node builds and any other installs gives the other the sender's topology, last
  -- applied entry and membership, and both offer the same snapshot from then on. The counter of
  -- mutations starts again at 0.
  pub install-build :
      (sender receiver : StateMachine) (state : PersistedState M)
      → IsAt codecs graph_apply default_membership sender state
      → let (built, sender') = build sender none in
        let (installed, receiver') = install receiver (taken state) in
        (built ≡ ok ((taken state).meta, (taken state).payload))
        × (installed ≡ ok tt)
        × IsAt codecs graph_apply default_membership receiver' (received state)
        × (get_current_snapshot codecs graph_apply default_membership receiver'
            ≡ get_current_snapshot codecs graph_apply default_membership sender')
        × (get_current_snapshot codecs graph_apply default_membership receiver'
            ≡ ok (some ((taken state).meta, (taken state).payload)))
  unfolding get_current_snapshot
  install-build sender receiver state at =
      rw (build-taken sender state at, install-taken receiver state)
        (
          refl,
          refl,
          refl,
          refl,
          ground (arith, codecs.snapshot.deserialize-serialize (taken state)),
        )

  -- After the install the two nodes agree on the topology whatever entries both apply next, and their
  -- counters differ by the number of mutations that the sender had applied.
  pub agree_after_install :
      (sender receiver : StateMachine) (state : PersistedState M) (es : List (Entry M))
      → IsAt codecs graph_apply default_membership sender state
      → let receiver' = (install receiver (taken state)).1 in
        let sender'' = (apply codecs graph_apply default_membership sender es none).1 in
        let receiver'' = (apply codecs graph_apply default_membership receiver' es none).1 in
        (s r : PersistedState M) × IsAt codecs graph_apply default_membership sender'' s
        × IsAt codecs graph_apply default_membership receiver'' r
        × (r.topology ≡ s.topology)
        × (r.last_applied ≡ s.last_applied)
        × (r.next_mutation_id + state.next_mutation_id ≡ s.next_mutation_id)
  agree_after_install sender receiver state es at =
      let receiver' = (install receiver (taken state)).1 in
      let at' : IsAt codecs graph_apply default_membership receiver' (received state) =
        rw (install-taken receiver state) refl in
      let (s, at_s, sent, _) =
        apply-Applies codecs graph_apply default_membership sender state es at in
      let (r, at_r, got, _) =
        apply-Applies codecs graph_apply default_membership receiver' (received state) es at' in
      (
        s,
        r,
        at_s,
        at_r,
        got.topology ∙ sym sent.topology,
        got.last_applied ∙ sym sent.last_applied,
        omega (arith, got.counter, sent.counter),
      )
