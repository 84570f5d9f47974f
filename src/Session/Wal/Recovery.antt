-- ===== src/Session/Wal/Recovery.antt =====
-- Reopening the engine of crates/session-store/src/lib.rs after any run of mutations.
use mathlib.Core.List.{foldl}
use sonicbrew.Base.{
  ℕ, ◌+◌, ◌≡◌, refl, sym, ◌∙◌, Option, none, some, List, [], ◌∷◌, ◌++◌, map, append_assoc,
  append-nil, length, arith, inl, inr, Option-cases,
}
use sonicbrew.Session.Graph.{TopologySnapshot, Mutation, Apply, empty}
use sonicbrew.Session.Redb.{
  Redb, Serde, Rows, Fault, KeysBelow, insert_row-append, KeysBelow-append,
}
use sonicbrew.Session.Wal.{EngineState, ok, replay, open_engine, apply_mutation, mutation_to_event}

-- A call of `apply_mutation`, with the fault that it meets, if any.
abbrev pub Call : Type 0
Call = Mutation × Option Fault

-- The mutations of the calls that meet no fault.
abbrev pub accepted : List Call → List Mutation
accepted [] = []
accepted ((mutation, none) ∷ calls) = mutation ∷ accepted calls
accepted ((mutation, some fault) ∷ calls) = accepted calls

module _ (redb : Redb) (json : Serde Mutation) (apply : Apply) where
  -- An engine that was opened on a new database.
  abbrev pub fresh : EngineState redb json apply
  fresh = record { snapshot = empty; next_id = 0; db = redb.create; sent = [] }

  unfoldable pub run : List Call → EngineState redb json apply → EngineState redb json apply
  run [] state = state
  run ((mutation, fault) ∷ calls) state =
      run calls (apply_mutation redb json apply state mutation fault).1

  replay-append :
      (rows : Rows) (s : TopologySnapshot) (n k : ℕ) (m : Mutation) {s' : TopologySnapshot} {n' : ℕ}
      → replay redb json apply rows s n ≡ ok (s', n')
      → replay redb json apply (rows ++ (k, json.serialize m) ∷ []) s n ≡ ok (apply s' m, n' + 1)
  unfolding replay
  replay-append [] s n k m e = ground (arith, json.deserialize-serialize m)
  replay-append ((j, w) ∷ rows) s n k m e = elim (Option-cases (json.deserialize w)) [
    | inl bad ↦ ground arith
    | inr (m', good) ↦
        rw (good, replay) (replay-append rows (apply s m') (n + 1) k m (rw (good, replay) at e))
  ]

  -- The log replays to the state, and no row stands at or above the next id.
  pub record IsLogged (state : EngineState redb json apply) : Type 0 where
    pub replays :
        replay redb json apply (redb.rows state.db) empty 0 ≡ ok (state.snapshot, state.next_id)
    pub below : KeysBelow state.next_id (redb.rows state.db)

  fresh-IsLogged : IsLogged fresh
  unfolding replay
  fresh-IsLogged = record { replays = rw redb.rows-create; below = rw redb.rows-create tt }

  apply_mutation-IsLogged :
      (state : EngineState redb json apply) (m : Mutation) (fault : Option Fault)
      → IsLogged state
      → IsLogged (apply_mutation redb json apply state m fault).1
  unfolding apply_mutation
  apply_mutation-IsLogged state m (some fault) v = v
  apply_mutation-IsLogged state m none v =
      let grown : redb.rows (redb.insert state.db state.next_id (json.serialize m))
          ≡ redb.rows state.db ++ (state.next_id, json.serialize m) ∷ [] =
        redb.rows-insert _ _ _ ∙ insert_row-append state.next_id _ _ v.below in
      record {
        replays = rw grown (replay-append (redb.rows state.db) empty 0 state.next_id m v.replays);
        below = rw grown (KeysBelow-append state.next_id _ _ v.below);
      }

  run-IsLogged :
      (calls : List Call) (state : EngineState redb json apply)
      → IsLogged state
      → IsLogged (run calls state)
  unfolding run
  run-IsLogged [] state v = v
  run-IsLogged ((m, fault) ∷ calls) state v =
      run-IsLogged calls _ (apply_mutation-IsLogged state m fault v)

  -- After any calls on a new database, failing ones included, reopening it succeeds and gives the
  -- topology and the next id that the engine had, with no event sent.
  pub open_engine-run :
      (calls : List Call)
      → open_engine redb json apply (run calls fresh).db
        ≡ ok (record (run calls fresh) { sent = [] })
  unfolding open_engine
  open_engine-run calls = rw (run-IsLogged calls fresh fresh-IsLogged).replays

  run_from :
      (calls : List Call) (state : EngineState redb json apply)
      → ((run calls state).snapshot ≡ foldl apply state.snapshot (accepted calls))
        × ((run calls state).next_id ≡ state.next_id + length (accepted calls))
        × ((run calls state).sent ≡ state.sent ++ map mutation_to_event (accepted calls))
  unfolding run apply_mutation
  run_from [] state = (refl, omega arith, sym (append-nil state.sent))
  run_from ((m, some fault) ∷ calls) state = run_from calls state
  run_from ((m, none) ∷ calls) state =
      let (topology, ids, events) =
        run_from calls (apply_mutation redb json apply state m none).1 in
      (topology, omega (arith, ids), events ∙ append_assoc state.sent _ _)

  -- After any calls on a new engine the topology is that of the accepted mutations in order, the next
  -- id is their number, and the subscribers were sent their events, each once and in order.
  pub run-accepted :
      (calls : List Call)
      → ((run calls fresh).snapshot ≡ foldl apply empty (accepted calls))
        × ((run calls fresh).next_id ≡ length (accepted calls))
        × ((run calls fresh).sent ≡ map mutation_to_event (accepted calls))
  run-accepted calls =
      let (topology, ids, events) = run_from calls fresh in (topology, omega (arith, ids), events)
