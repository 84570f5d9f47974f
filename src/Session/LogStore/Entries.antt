-- ===== src/Session/LogStore/Entries.antt =====
-- The log of crates/session-store/src/raft_log_store.rs as a list of consecutive entries.
use sonicbrew.Base.{
  ℕ, suc, ◌+◌, ◌≡◌, refl, sym, ◌∙◌, ap, ◌&&◌, Option, none, some, List, [], ◌∷◌, ◌++◌, leb, ltb,
  if◌then◌else◌, arith, length, append_assoc, append-nil, inl, inr, Bool-cases,
}
use mathlib.Core.Path.{subst}
use sonicbrew.Session.Raft.{LogId, Entry, ok}
use sonicbrew.Session.Redb.{Redb, Rows, KeysBelow, insert_row-append, KeysBelow-append}
use sonicbrew.Session.LogStore.{
  Bincode, RaftLogStore, range, included, excluded, read_entries, limited_get_log_entries,
  insert_entries, append, scan_last,
}

-- Entries at the indices from `k` on, one after the other.
abbrev pub Follows : {M : Type 0} → ℕ → List (Entry M) → Type 0
Follows k [] = Unit {0}
Follows k (e ∷ es) = (e.log_id.index ≡ k) × Follows (suc k) es

-- The entries with an index from `a` up to and without `b`.
abbrev pub between : {M : Type 0} → ℕ → ℕ → List (Entry M) → List (Entry M)
between a b [] = []
between a b (e ∷ es) =
    let rest = between a b es in
    if leb a e.log_id.index && ltb e.log_id.index b then e ∷ rest else rest

abbrev pub last_log_id : {M : Type 0} → List (Entry M) → Option LogId → Option LogId
last_log_id [] last = last
last_log_id (e ∷ es) last = last_log_id es (some e.log_id)

Follows-append :
    {M : Type 0} (k : ℕ) (es fs : List (Entry M))
    → Follows k es
    → Follows (k + length es) fs
    → Follows k (es ++ fs)
Follows-append k [] fs h f = subst (λ n. Follows n fs) (omega arith) f
Follows-append k (e ∷ es) fs h f =
    (h.0, Follows-append (suc k) es fs h.1 (subst (λ n. Follows n fs) (omega arith) f))

module _ (redb : Redb) {M V : Type 0} (bincode : Bincode M V) where
  abbrev encoded : List (Entry M) → Rows
  encoded [] = []
  encoded (e ∷ es) = (e.log_id.index, bincode.entry.serialize e) ∷ encoded es

  -- The table holds exactly these entries, which stand at the indices from `k` on.
  pub record IsLog (s : RaftLogStore redb bincode) (k : ℕ) (es : List (Entry M)) : Type 0 where
    pub holds : redb.rows s.logs ≡ encoded es
    pub follows : Follows k es

  encoded-append : (es fs : List (Entry M)) → encoded (es ++ fs) ≡ encoded es ++ encoded fs
  encoded-append [] fs = refl
  encoded-append (e ∷ es) fs =
      ap (◌∷◌ (e.log_id.index, bincode.entry.serialize e)) (encoded-append es fs)

  encoded-KeysBelow :
      (k : ℕ) (es : List (Entry M)) → Follows k es → KeysBelow (k + length es) (encoded es)
  encoded-KeysBelow k [] h = tt
  encoded-KeysBelow k (e ∷ es) h = (
    omega arith,
    subst (λ n. KeysBelow n (encoded es)) (omega arith) (encoded-KeysBelow (suc k) es h.1),
  )

  rows-insert_entries :
      (es : List (Entry M)) (t : redb.Table) (k : ℕ)
      → KeysBelow k (redb.rows t)
      → Follows k es
      → redb.rows (insert_entries redb bincode t es) ≡ redb.rows t ++ encoded es
  unfolding insert_entries
  rows-insert_entries [] t k below h = sym (append-nil (redb.rows t))
  rows-insert_entries (e ∷ es) t k below h =
      let bytes = bincode.entry.serialize e in
      let here : KeysBelow e.log_id.index (redb.rows t) =
        subst (λ n. KeysBelow n (redb.rows t)) (sym h.0) below in
      let grown : redb.rows (redb.insert t e.log_id.index bytes)
          ≡ redb.rows t ++ (e.log_id.index, bytes) ∷ [] =
        redb.rows-insert t e.log_id.index bytes ∙ insert_row-append e.log_id.index bytes _ here in
      rows-insert_entries es (redb.insert t e.log_id.index bytes) (suc k)
        (rw grown (
          subst (λ n. KeysBelow n (redb.rows t ++ (e.log_id.index, bytes) ∷ [])) (omega arith)
            (KeysBelow-append e.log_id.index bytes _ here)))
        h.1
      ∙ rw grown (append_assoc (redb.rows t) ((e.log_id.index, bytes) ∷ []) (encoded es))

  -- Appending entries that follow the log's last index extends the log by them.
  pub append-IsLog :
      (s : RaftLogStore redb bincode) (k : ℕ) (es fs : List (Entry M))
      → IsLog s k es
      → Follows (k + length es) fs
      → IsLog (append redb bincode s fs none).1 k (es ++ fs)
  unfolding append
  append-IsLog s k es [] log h = rw append-nil log
  append-IsLog s k es (f ∷ fs) log h = record {
    holds =
        rows-insert_entries (f ∷ fs) s.logs (k + length es)
          (rw log.holds (encoded-KeysBelow k es log.follows)) h
        ∙ rw log.holds (sym (encoded-append es (f ∷ fs)));
    follows = Follows-append k es (f ∷ fs) log.follows h;
  }

  read-range :
      (a b : ℕ) (es : List (Entry M))
      → read_entries redb bincode (range (included a) (excluded b) (encoded es))
        ≡ ok (between a b es)
  unfolding read_entries range
  read-range a b [] = refl
  read-range a b (e ∷ es) = elim (Bool-cases (leb a e.log_id.index && ltb e.log_id.index b)) [
    | inl inside ↦
        rw (inside, range)
          (ground (arith, bincode.entry.deserialize-serialize e, read-range a b es))
    | inr outside ↦ rw (outside, range) (read-range a b es)
  ]

  -- Reading a range of a log gives exactly its entries in that range, in order.
  pub limited_get_log_entries-between :
      (s : RaftLogStore redb bincode) (k a b : ℕ) (es : List (Entry M))
      → IsLog s k es
      → limited_get_log_entries redb bincode s a b ≡ ok (between a b es)
  unfolding limited_get_log_entries
  limited_get_log_entries-between s k a b es log = rw log.holds (read-range a b es)

  pub scan_last-encoded :
      (es : List (Entry M)) (last : Option LogId)
      → scan_last redb bincode (encoded es) last ≡ ok (last_log_id es last)
  unfolding scan_last
  scan_last-encoded [] last = refl
  scan_last-encoded (e ∷ es) last =
      rw (bincode.entry.deserialize-serialize e) (scan_last-encoded es (some e.log_id))
