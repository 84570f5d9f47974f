-- ===== src/Session/LogStore/Keys.antt =====
-- What the writes of crates/session-store/src/raft_log_store.rs do to a lookup.
use sonicbrew.Base.{
  ℕ, ◌≡◌, refl, ap, ◌∙◌, Bool, true, false, ◌||◌, Option, none, some, List, [], ◌∷◌, ◌==◌, leb, inl,
  inr, Bool-cases, if◌then◌else◌, arith,
}
use sonicbrew.Session.Raft.{Entry}
use sonicbrew.Session.Redb.{Redb, Rows, Bytes, insert_row, remove_row, get_row}
use sonicbrew.Session.LogStore.{Bincode, keys_from, keys_upto, remove_keys, insert_entries}

get_row-insert_row :
    (k j : ℕ) (v : Bytes) (rows : Rows)
    → get_row j (insert_row k v rows) ≡ (if k == j then some v else get_row j rows)
unfolding get_row insert_row
get_row-insert_row k j v [] = refl
get_row-insert_row k j v ((i, w) ∷ rows) = ground (arith, get_row-insert_row k j v rows)

get_row-remove_row :
    (k j : ℕ) (rows : Rows)
    → get_row j (remove_row k rows) ≡ (if k == j then none else get_row j rows)
unfolding get_row remove_row
get_row-remove_row k j [] = ground arith
get_row-remove_row k j ((i, w) ∷ rows) = ground (arith, get_row-remove_row k j rows)

abbrev pub listed : ℕ → List ℕ → Bool
listed j [] = false
listed j (k ∷ ks) = k == j || listed j ks

listed-keys_from :
    (index j : ℕ) (rows : Rows) → listed j (keys_from index rows) ≡ true → leb index j ≡ true
unfolding keys_from
listed-keys_from index j [] h = cc
listed-keys_from index j ((k, v) ∷ rows) h = elim (Bool-cases (leb index k)) [
  | inl e ↦ ground (arith, (rw e at h), listed-keys_from index j rows)
  | inr e ↦ listed-keys_from index j rows (rw e at h)
]

listed-keys_upto :
    (index j : ℕ) (rows : Rows) → listed j (keys_upto index rows) ≡ true → leb j index ≡ true
unfolding keys_upto
listed-keys_upto index j [] h = cc
listed-keys_upto index j ((k, v) ∷ rows) h = elim (Bool-cases (leb k index)) [
  | inl e ↦ ground (arith, (rw e at h), listed-keys_upto index j rows)
  | inr e ↦ listed-keys_upto index j rows (rw e at h)
]

-- A key that is not among those to remove has no row, or lies outside the range.
get_row-keys_from :
    (index j : ℕ) (rows : Rows)
    → (if listed j (keys_from index rows) then none else get_row j rows)
      ≡ (if leb index j then none else get_row j rows)
unfolding get_row keys_from
get_row-keys_from index j [] = ground arith
get_row-keys_from index j ((k, v) ∷ rows) = elim (Bool-cases (leb index k)) [
  | inl e ↦
      rw (e, keys_from)
        (ground (arith, get_row-keys_from index j rows, listed-keys_from index j rows))
  | inr e ↦
      rw (e, keys_from)
        (ground (arith, get_row-keys_from index j rows, listed-keys_from index j rows))
]

get_row-keys_upto :
    (index j : ℕ) (rows : Rows)
    → (if listed j (keys_upto index rows) then none else get_row j rows)
      ≡ (if leb j index then none else get_row j rows)
unfolding get_row keys_upto
get_row-keys_upto index j [] = ground arith
get_row-keys_upto index j ((k, v) ∷ rows) = elim (Bool-cases (leb k index)) [
  | inl e ↦
      rw (e, keys_upto)
        (ground (arith, get_row-keys_upto index j rows, listed-keys_upto index j rows))
  | inr e ↦
      rw (e, keys_upto)
        (ground (arith, get_row-keys_upto index j rows, listed-keys_upto index j rows))
]

module _ (redb : Redb) where
  pub get-insert :
      (t : redb.Table) (k j : ℕ) (v : Bytes)
      → redb.get (redb.insert t k v) j ≡ (if k == j then some v else redb.get t j)
  get-insert t k j v =
      rw (redb.get-rows (redb.insert t k v) j, redb.rows-insert t k v, redb.get-rows t j)
        (get_row-insert_row k j v (redb.rows t))

  get-remove :
      (t : redb.Table) (k j : ℕ)
      → redb.get (redb.remove t k) j ≡ (if k == j then none else redb.get t j)
  get-remove t k j =
      rw (redb.get-rows (redb.remove t k) j, redb.rows-remove t k, redb.get-rows t j)
        (get_row-remove_row k j (redb.rows t))

module _ (redb : Redb) {M V : Type 0} (bincode : Bincode M V) where
  get-remove_keys :
      (ks : List ℕ) (t : redb.Table) (j : ℕ)
      → redb.get (remove_keys redb bincode t ks) j ≡ (if listed j ks then none else redb.get t j)
  unfolding remove_keys
  get-remove_keys [] t j = refl
  get-remove_keys (k ∷ ks) t j =
      ground (arith, get-remove_keys ks (redb.remove t k) j, get-remove redb t k j)

  pub get-remove_from :
      (t : redb.Table) (index j : ℕ)
      → redb.get (remove_keys redb bincode t (keys_from index (redb.rows t))) j
        ≡ (if leb index j then none else redb.get t j)
  get-remove_from t index j =
      get-remove_keys (keys_from index (redb.rows t)) t j
      ∙ rw (redb.get-rows t j) (get_row-keys_from index j (redb.rows t))

  pub get-remove_upto :
      (t : redb.Table) (index j : ℕ)
      → redb.get (remove_keys redb bincode t (keys_upto index (redb.rows t))) j
        ≡ (if leb j index then none else redb.get t j)
  get-remove_upto t index j =
      get-remove_keys (keys_upto index (redb.rows t)) t j
      ∙ rw (redb.get-rows t j) (get_row-keys_upto index j (redb.rows t))

  -- The last of the entries that stands at an index.
  abbrev pub entry_for : ℕ → List (Entry M) → Option Bytes → Option Bytes
  entry_for j [] old = old
  entry_for j (e ∷ es) old =
      entry_for j es (if e.log_id.index == j then some (bincode.entry.serialize e) else old)

  pub get-insert_entries :
      (es : List (Entry M)) (t : redb.Table) (j : ℕ)
      → redb.get (insert_entries redb bincode t es) j ≡ entry_for j es (redb.get t j)
  unfolding insert_entries
  get-insert_entries [] t j = refl
  get-insert_entries (e ∷ es) t j =
      get-insert_entries es (redb.insert t e.log_id.index (bincode.entry.serialize e)) j
      ∙ ap (entry_for j es) (get-insert redb t e.log_id.index j (bincode.entry.serialize e))
