-- ===== src/Session/LogStore.antt =====
-- The Raft log of crates/session-store/src/raft_log_store.rs: entries by index, the vote and the
-- committed log id, each in a table of its own.
pub mod Keys
pub mod Log
pub mod Entries
pub mod State
use sonicbrew.Base.{
  ℕ, ◌<◌, Bool, true, ◌&&◌, Option, none, some, List, [], ◌∷◌, ltb, leb, if◌then◌else◌,
}
use sonicbrew.Session.Raft.{LogId, Entry, Result, ok, err, io, deserialize, ◌>>=◌}
use sonicbrew.Session.Redb.{Redb, Serde, Rows, Bytes, Fault}

abbrev pub single_row_key : ℕ
single_row_key = 0

-- `std::ops::Bound<u64>`
pub data Bound : Type 0 where
  included excluded : ℕ → Bound
  unbounded : Bound

unfoldable pub from_start : Bound → ℕ → Bool
from_start (included v) k = leb v k
from_start (excluded v) k = ltb v k
from_start unbounded k = true

unfoldable pub to_end : Bound → ℕ → Bool
to_end (included v) k = leb k v
to_end (excluded v) k = ltb k v
to_end unbounded k = true

-- The rows of `table.range((start, end))`.
unfoldable pub range : Bound → Bound → Rows → Rows
unfolding from_start to_end
range start end [] = []
range start end ((k, v) ∷ rows) =
    let rest = range start end rows in
    if from_start start k && to_end end k then (k, v) ∷ rest else rest

-- The keys that `truncate` and `purge` collect before they remove them.
unfoldable pub keys_from : ℕ → Rows → List ℕ
keys_from index [] = []
keys_from index ((k, v) ∷ rows) =
    let rest = keys_from index rows in if leb index k then k ∷ rest else rest

unfoldable pub keys_upto : ℕ → Rows → List ℕ
keys_upto index [] = []
keys_upto index ((k, v) ∷ rows) =
    let rest = keys_upto index rows in if leb k index then k ∷ rest else rest

module _ {A : Type 0} where
  -- A value that must be readable.
  abbrev pub readable : Option A → Result A
  readable none = err deserialize
  readable (some a) = ok a

-- The serializers: of an entry, of the vote, of the optional log id that `save_committed` writes, and
-- the reader of a bare log id that `get_log_state` applies to that row.
pub record Bincode (M V : Type 0) : Type 0 where
  pub entry : Serde (Entry M)
  pub vote : Serde V
  pub committed : Serde (Option LogId)
  pub deserialize_log_id : Bytes → Option LogId

module _ (redb : Redb) {M V : Type 0} (bincode : Bincode M V) where
  pub record RaftLogStore : Type 0 where
    pub logs : redb.Table
    pub vote : redb.Table
    pub committed : redb.Table

  pub record LogState : Type 0 where
    pub last_purged_log_id : Option LogId
    pub last_log_id : Option LogId

  -- `RaftLogStore::open` on a new file.
  abbrev pub open_new : RaftLogStore
  open_new = record { logs = redb.create; vote = redb.create; committed = redb.create }

  unfoldable pub read_entries : Rows → Result (List (Entry M))
  read_entries [] = ok []
  read_entries ((k, bytes) ∷ rows) = do
    entry ← readable (bincode.entry.deserialize bytes)
    entries ← read_entries rows
    ok (entry ∷ entries)

  unfoldable pub try_get_log_entries : RaftLogStore → Bound → Bound → Result (List (Entry M))
  unfolding read_entries range
  try_get_log_entries s start end = read_entries (range start end (redb.rows s.logs))

  unfoldable pub limited_get_log_entries : RaftLogStore → ℕ → ℕ → Result (List (Entry M))
  unfolding try_get_log_entries
  limited_get_log_entries s start end = try_get_log_entries s (included start) (excluded end)

  -- The scan for the last entry in `get_log_state`.
  unfoldable pub scan_last : Rows → Option LogId → Result (Option LogId)
  scan_last [] last = ok last
  scan_last ((k, bytes) ∷ rows) last = do
    entry ← readable (bincode.entry.deserialize bytes)
    scan_last rows (some entry.log_id)

  abbrev read_purged : Option Bytes → Result (Option LogId)
  read_purged none = ok none
  read_purged (some bytes) = do
    log_id ← readable (bincode.deserialize_log_id bytes)
    ok (some log_id)

  unfoldable pub get_log_state : RaftLogStore → Result LogState
  unfolding scan_last
  get_log_state s = do
    last ← scan_last (redb.rows s.logs) none
    purged ← read_purged (redb.get s.committed single_row_key)
    ok (record { last_purged_log_id = purged; last_log_id = last })

  abbrev read_some_vote : Option Bytes → Result (Option V)
  read_some_vote none = ok none
  read_some_vote (some bytes) = do vote ← readable (bincode.vote.deserialize bytes); ok (some vote)

  unfoldable pub read_vote : RaftLogStore → Result (Option V)
  read_vote s = read_some_vote (redb.get s.vote single_row_key)

  abbrev read_some_committed : Option Bytes → Result (Option LogId)
  read_some_committed none = ok none
  read_some_committed (some bytes) = readable (bincode.committed.deserialize bytes)

  unfoldable pub read_committed : RaftLogStore → Result (Option LogId)
  read_committed s = read_some_committed (redb.get s.committed single_row_key)

  -- A write ends with the new state, or with an error and the old one.
  abbrev pub Write : Type 0
  Write = Result (Unit {0}) × RaftLogStore

  abbrev commits : RaftLogStore → RaftLogStore → Option Fault → Write
  commits old new none = (ok tt, new)
  commits old new (some fault) = (err io, old)

  unfoldable pub save_vote : RaftLogStore → V → Option Fault → Write
  save_vote s v =
      commits s (record s { vote = redb.insert s.vote single_row_key (bincode.vote.serialize v) })

  unfoldable pub save_committed : RaftLogStore → Option LogId → Option Fault → Write
  save_committed s log_id = commits s (record s {
    committed = redb.insert s.committed single_row_key (bincode.committed.serialize log_id);
  })

  unfoldable pub insert_entries : redb.Table → List (Entry M) → redb.Table
  insert_entries t [] = t
  insert_entries t (e ∷ es) =
      insert_entries (redb.insert t e.log_id.index (bincode.entry.serialize e)) es

  -- `append`: with no entries it writes nothing, and so cannot fail.
  unfoldable pub append : RaftLogStore → List (Entry M) → Option Fault → Write
  unfolding insert_entries
  append s [] fault = (ok tt, s)
  append s (e ∷ es) fault = commits s (record s { logs = insert_entries s.logs (e ∷ es) }) fault

  unfoldable pub remove_keys : redb.Table → List ℕ → redb.Table
  remove_keys t [] = t
  remove_keys t (k ∷ ks) = remove_keys (redb.remove t k) ks

  unfoldable pub truncate : RaftLogStore → LogId → Option Fault → Write
  unfolding remove_keys
  truncate s log_id =
      commits s (record s { logs = remove_keys s.logs (keys_from log_id.index (redb.rows s.logs)) })

  unfoldable pub purge : RaftLogStore → LogId → Option Fault → Write
  unfolding remove_keys
  purge s log_id =
      commits s (record s { logs = remove_keys s.logs (keys_upto log_id.index (redb.rows s.logs)) })
