-- ===== src/Session/Redb.antt =====
-- What crates/session-store asks of a `redb` table with `u64` keys: the rows in ascending order of
-- their keys, a lookup, and writes that become visible by a commit, all or none of them.
use sonicbrew.Base.{
  ℕ, ◌+◌, ◌<◌, ◌≡◌, ◌++◌, arith, refl, Option, none, some, List, [], ◌∷◌, ◌==◌, ltb, if◌then◌else◌,
}

abbrev pub Bytes : Type 0
Bytes = List ℕ

abbrev pub Rows : Type 0
Rows = List (ℕ × Bytes)

-- The documented effect of `insert` and `remove` on the rows.
unfoldable pub insert_row : ℕ → Bytes → Rows → Rows
insert_row k v [] = (k, v) ∷ []
insert_row k v ((j, w) ∷ rows) =
    let rest = insert_row k v rows in
    if ltb k j then (k, v) ∷ (j, w) ∷ rows else if j == k then (k, v) ∷ rows else (j, w) ∷ rest

unfoldable pub remove_row : ℕ → Rows → Rows
remove_row k [] = []
remove_row k ((j, w) ∷ rows) =
    let rest = remove_row k rows in if j == k then rest else (j, w) ∷ rest

unfoldable pub get_row : ℕ → Rows → Option Bytes
get_row k [] = none
get_row k ((j, w) ∷ rows) = if j == k then some w else get_row k rows

pub record Redb : Type 1 where
  pub Table : Type 0
  pub create : Table
  pub rows : Table → Rows
  pub get : Table → ℕ → Option Bytes
  pub insert : Table → ℕ → Bytes → Table
  pub remove : Table → ℕ → Table
  pub rows-create : rows create ≡ []
  pub rows-insert : (t : Table) (k : ℕ) (v : Bytes) → rows (insert t k v) ≡ insert_row k v (rows t)
  pub rows-remove : (t : Table) (k : ℕ) → rows (remove t k) ≡ remove_row k (rows t)
  pub get-rows : (t : Table) (k : ℕ) → get t k ≡ get_row k (rows t)

-- `serde` with a byte format, for one type: what is written is read back.
pub record Serde (A : Type 0) : Type 0 where
  pub serialize : A → Bytes
  pub deserialize : Bytes → Option A
  pub deserialize-serialize : (a : A) → deserialize (serialize a) ≡ some a

-- The steps of a write at which the database or the serializer may fail.
pub data Fault : Type 0 where
  serialize_fault begin_write open_table insert_fault commit : Fault

-- A table of rows in memory meets the interface.
abbrev pub memory : Redb
memory = record {
  Table = Rows;
  create = [];
  rows = λ t. t;
  get = λ t k. get_row k t;
  insert = λ t k v. insert_row k v t;
  remove = λ t k. remove_row k t;
  rows-create = refl;
  rows-insert = λ t k v. refl;
  rows-remove = λ t k. refl;
  get-rows = λ t k. refl;
}

-- All keys of the rows lie below `n`.
abbrev pub KeysBelow : ℕ → Rows → Type 0
KeysBelow n [] = Unit {0}
KeysBelow n ((k, v) ∷ rows) = (k < n) × KeysBelow n rows

-- A key above all others is inserted at the end.
pub insert_row-append :
    (n : ℕ) (v : Bytes) (rows : Rows) → KeysBelow n rows → insert_row n v rows ≡ rows ++ (n, v) ∷ []
unfolding insert_row
insert_row-append n v [] h = refl
insert_row-append n v ((k, w) ∷ rows) h = ground (arith, insert_row-append n v rows h.1)

pub KeysBelow-append :
    (n : ℕ) (v : Bytes) (rows : Rows) → KeysBelow n rows → KeysBelow (n + 1) (rows ++ (n, v) ∷ [])
KeysBelow-append n v [] h = omega arith
KeysBelow-append n v ((k, w) ∷ rows) h = (omega arith, KeysBelow-append n v rows h.1)
