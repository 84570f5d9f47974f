-- ===== src/Session/LogStore/Log.antt =====
-- The log of crates/session-store/src/raft_log_store.rs as a map from indices to entries.
use sonicbrew.Base.{ℕ, ◌≡◌, refl, Option, none, some, List, [], ◌∷◌, ltb, if◌then◌else◌, arith}
use sonicbrew.Session.Raft.{LogId, Entry, ok, err}
use sonicbrew.Session.Redb.{Redb, Bytes, Fault}
use sonicbrew.Session.LogStore.{Bincode, RaftLogStore, append, truncate, purge}
use sonicbrew.Session.LogStore.Keys.{
  get-remove_from, get-remove_upto, entry_for, get-insert_entries,
}

module _ (redb : Redb) {M V : Type 0} (bincode : Bincode M V) where
  -- What is stored at an index.
  abbrev pub stored : RaftLogStore redb bincode → ℕ → Option Bytes
  stored s j = redb.get s.logs j

  -- A successful `append` puts each entry at its index, a later one over an earlier one, and leaves all
  -- other indices alone; a failing one changes nothing.
  pub stored-append :
      (s : RaftLogStore redb bincode) (es : List (Entry M)) (fault : Option Fault) (j : ℕ)
      → let (result, s') = append redb bincode s es fault in
        stored s' j
        ≡ elim result [ ok _ ↦ entry_for redb bincode j es (stored s j) | err _ ↦ stored s j ]
  unfolding append
  stored-append s [] fault j = refl
  stored-append s (e ∷ es) none j = get-insert_entries redb bincode (e ∷ es) s.logs j
  stored-append s (e ∷ es) (some fault) j = refl

  -- After `truncate` at an index and `purge` up to another, exactly the indices strictly between them
  -- still hold what they held.
  pub stored-purge-truncate :
      (s : RaftLogStore redb bincode) (from upto : LogId) (j : ℕ)
      → let s' = (truncate redb bincode s from none).1 in
        stored (purge redb bincode s' upto none).1 j
        ≡ (if ltb j from.index then if ltb upto.index j then stored s j else none else none)
  unfolding truncate purge
  stored-purge-truncate s from upto j = ground (
    arith,
    get-remove_from redb bincode s.logs from.index j,
    get-remove_upto redb bincode (truncate redb bincode s from none).1.logs upto.index j,
  )
