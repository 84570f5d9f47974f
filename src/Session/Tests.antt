-- ===== src/Session/Tests.antt =====
-- The properties of crates/session-store at concrete inputs, and runs of the code.
pub mod Numbers
use sonicbrew.Base.{
  ◌<◌, lt→ltb, arith, ℕ, ◌+◌, ◌≡◌, refl, Option, none, some, List, [], ◌∷◌, ◌++◌, map, length,
}
use mathlib.Core.List.{foldl}
use sonicbrew.Session.Graph.{
  TopologySnapshot, Mutation, TopologyEvent, NodeSnapshot, SnapshotEdge, add_node, remove_node,
  add_link, node_added, empty,
}
use sonicbrew.Session.Redb.{Bytes, memory, Fault, commit, get_row}
use sonicbrew.Session.Wal
use sonicbrew.Session.Wal.{open_engine, mutation_to_event}
use sonicbrew.Session.Wal.Recovery.{Call, accepted, fresh, run, open_engine-run, run-accepted}
use sonicbrew.Session.Raft.{LogId, Entry, blank, normal, membership, ok, err, deserialize, ◌>>=◌}
use sonicbrew.Session.LogStore.State.{get_log_state-IsLog, get_log_state-save_committed}
use sonicbrew.Session.LogStore.{
  get_log_state, save_committed, read_committed, RaftLogStore, append, truncate, purge,
  limited_get_log_entries, open_new,
}
use sonicbrew.Session.LogStore.Keys.{entry_for}
use sonicbrew.Session.LogStore.Log.{stored, stored-append, stored-purge-truncate}
use sonicbrew.Session.LogStore.Entries.{IsLog, append-IsLog}
use sonicbrew.Session.StateMachine.{
  build_snapshot, get_current_snapshot, StateMachine, open_machine, default_state, PersistedState,
  ClientWriteResponse, apply,
}
use sonicbrew.Session.StateMachine.Replay.{
  IsAt, Applies, answers, entries_step, apply-Applies, apply-append,
}
use sonicbrew.Session.StateMachine.Transfer.{
  install, taken, received, install-build, agree_after_install,
}
use sonicbrew.Session.Tests.Numbers.{json, codecs, bincode, grow}

abbrev speaker : NodeSnapshot
speaker = record { id = 1; inputs = []; outputs = [] }

abbrev wire : SnapshotEdge
wire = record { source = (1, 0); target = (2, 0) }

-- The second write fails.
abbrev calls : List Call
calls = (add_node speaker, none) ∷ (remove_node 1, some commit) ∷ (add_link wire, none) ∷ []

open_engine-run_example :
    open_engine memory json grow (run memory json grow calls (fresh memory json grow)).db
    ≡ Wal.ok (record (run memory json grow calls (fresh memory json grow)) { sent = [] })
open_engine-run_example = open_engine-run memory json grow calls

run-accepted_example :
    ((run memory json grow calls (fresh memory json grow)).snapshot
      ≡ foldl grow empty (accepted calls))
    × ((run memory json grow calls (fresh memory json grow)).next_id ≡ length (accepted calls))
    × ((run memory json grow calls (fresh memory json grow)).sent
        ≡ map mutation_to_event (accepted calls))
run-accepted_example = run-accepted memory json grow calls

abbrev id_at : ℕ → LogId
id_at i = record { term = 1; node_id = 4; index = i }

abbrev entry_at : ℕ → Entry ℕ
entry_at i = record { log_id = id_at i; payload = normal (remove_node i) }

abbrev four : List (Entry ℕ)
four = entry_at 5 ∷ entry_at 6 ∷ entry_at 7 ∷ entry_at 8 ∷ []

abbrev empty_log : RaftLogStore memory bincode
empty_log = open_new memory bincode

abbrev log : RaftLogStore memory bincode
log = (append memory bincode empty_log four none).1

empty_log-IsLog : IsLog memory bincode empty_log 5 []
empty_log-IsLog = record { holds = refl; follows = tt }

log-IsLog : IsLog memory bincode log 5 four
log-IsLog =
    append-IsLog memory bincode empty_log 5 [] four empty_log-IsLog
      (refl, (refl, (refl, (refl, tt))))

stored-purge-truncate_example :
    stored memory bincode
      (purge memory bincode (truncate memory bincode log (id_at 8) none).1 (id_at 5) none).1
      7
    ≡ stored memory bincode log 7
stored-purge-truncate_example = stored-purge-truncate memory bincode log (id_at 8) (id_at 5) 7

abbrev machine : StateMachine
machine = record {
  state = some (codecs.state.serialize (default_state codecs grow 0));
  snapshot = none;
}

opens : open_machine codecs grow 0 (record { state = none; snapshot = none }) ≡ machine
unfolding open_machine
opens = refl

abbrev es : List (Entry ℕ)
es =
    record { log_id = id_at 1; payload = blank }
    ∷ record { log_id = id_at 2; payload = normal (add_node speaker) }
    ∷ record { log_id = id_at 3; payload = membership 9 }
    ∷ []

apply-append_example :
    let (first, sm') = apply codecs grow 0 machine es none in
    let (second, sm'') = apply codecs grow 0 sm' four none in
    apply codecs grow 0 machine (es ++ four) none
    ≡ (do rs ← first; ss ← second; ok (rs ++ ss), sm'')
apply-append_example = apply-append codecs grow 0 machine (default_state codecs grow 0) es four refl

abbrev start : PersistedState ℕ
start = default_state codecs grow 0

apply-Applies_example :
    let (result, sm') = apply codecs grow 0 machine es none in
    (state' : PersistedState ℕ) × IsAt codecs grow 0 sm' state'
    × Applies codecs grow 0 es start state'
    × (result ≡ ok (answers 0 es))
apply-Applies_example = apply-Applies codecs grow 0 machine start es refl

abbrev receiver : StateMachine
receiver = record { state = none; snapshot = none }

-- A state after one mutation.
abbrev moved : PersistedState ℕ
moved = record start {
  topology = record { nodes = speaker ∷ []; edges = [] };
  last_applied = some (id_at 3);
  next_mutation_id = 1;
}

abbrev sender : StateMachine
sender = record { state = some (codecs.state.serialize moved); snapshot = none }

install-build_example :
    let (built, sender') = build_snapshot codecs grow 0 sender none in
    let (installed, receiver') = install codecs grow 0 receiver (taken codecs grow 0 moved) in
    (built ≡ ok ((taken codecs grow 0 moved).meta, (taken codecs grow 0 moved).payload))
    × (installed ≡ ok tt)
    × IsAt codecs grow 0 receiver' (received codecs grow 0 moved)
    × (get_current_snapshot codecs grow 0 receiver' ≡ get_current_snapshot codecs grow 0 sender')
    × (get_current_snapshot codecs grow 0 receiver'
        ≡ ok (some ((taken codecs grow 0 moved).meta, (taken codecs grow 0 moved).payload)))
install-build_example = install-build codecs grow 0 sender receiver moved refl

agree_after_install_example :
    let receiver' = (install codecs grow 0 receiver (taken codecs grow 0 moved)).1 in
    let sender'' = (apply codecs grow 0 sender four none).1 in
    let receiver'' = (apply codecs grow 0 receiver' four none).1 in
    (s r : PersistedState ℕ) × IsAt codecs grow 0 sender'' s
    × IsAt codecs grow 0 receiver'' r
    × (r.topology ≡ s.topology)
    × (r.last_applied ≡ s.last_applied)
    × (r.next_mutation_id + 1 ≡ s.next_mutation_id)
agree_after_install_example = agree_after_install codecs grow 0 sender receiver moved four refl

short_unread : (bytes : Bytes) → length bytes < 24 → bincode.deserialize_log_id bytes ≡ none
short_unread bytes h = rw (lt→ltb (length bytes) 24 h) refl

get_log_state-save_committed_example :
    let s' = (save_committed memory bincode log none none).1 in
    (read_committed memory bincode s' ≡ ok none)
    × (get_log_state memory bincode s' ≡ err deserialize)
get_log_state-save_committed_example =
    get_log_state-save_committed memory bincode log 5 four short_unread (omega arith) log-IsLog
