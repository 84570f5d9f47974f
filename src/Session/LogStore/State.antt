-- ===== src/Session/LogStore/State.antt =====
-- What `get_log_state` of crates/session-store/src/raft_log_store.rs reports of a log.
use sonicbrew.Base.{ℕ, ◌<◌, ◌≡◌, refl, none, List, length}
use sonicbrew.Session.Raft.{Entry, ok, err, deserialize}
use sonicbrew.Session.Redb.{Redb, Bytes}
use sonicbrew.Session.LogStore.{
  Bincode, RaftLogStore, get_log_state, save_committed, read_committed, single_row_key,
}
use sonicbrew.Session.LogStore.Keys.{get-insert}
use sonicbrew.Session.LogStore.Entries.{IsLog, last_log_id, scan_last-encoded}

module _ (redb : Redb) {M V : Type 0} (bincode : Bincode M V) where
  -- Before any committed id is saved, the state of a log is the id of its last entry, and nothing purged.
  pub get_log_state-IsLog :
      (s : RaftLogStore redb bincode) (k : ℕ) (es : List (Entry M))
      → IsLog redb bincode s k es
      → redb.get s.committed single_row_key ≡ none
      → get_log_state redb bincode s
        ≡ ok (record { last_purged_log_id = none; last_log_id = last_log_id es none })
  unfolding get_log_state
  get_log_state-IsLog s k es log fresh =
      rw (log.holds, scan_last-encoded redb bincode es none, fresh) refl

  -- A log id takes 24 bytes and an absent one fewer. Then, after `save_committed(None)` succeeds,
  -- `read_committed` reads it back, but the state of the log cannot be read.
  pub get_log_state-save_committed :
      (s : RaftLogStore redb bincode) (k : ℕ) (es : List (Entry M))
      → ((bytes : Bytes) → length bytes < 24 → bincode.deserialize_log_id bytes ≡ none)
      → length (bincode.committed.serialize none) < 24
      → IsLog redb bincode s k es
      → let s' = (save_committed redb bincode s none none).1 in
        (read_committed redb bincode s' ≡ ok none)
        × (get_log_state redb bincode s' ≡ err deserialize)
  unfolding get_log_state save_committed read_committed
  get_log_state-save_committed s k es too_short absent_short log =
      let saved =
        get-insert redb s.committed single_row_key single_row_key
          (bincode.committed.serialize none) in
      let unread = too_short (bincode.committed.serialize none) absent_short in
      (
        rw (saved, bincode.committed.deserialize-serialize none) refl,
        rw (log.holds, scan_last-encoded redb bincode es none, saved, unread) refl,
      )
