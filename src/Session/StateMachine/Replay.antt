-- ===== src/Session/StateMachine/Replay.antt =====
-- Applying entries in crates/session-store/src/raft_state_machine.rs.
use mathlib.Core.List.{foldl}
use sonicbrew.Base.{
  ℕ, ◌+◌, ◌≡◌, refl, sym, ◌∙◌, ap, Option, none, some, List, [], ◌∷◌, ◌++◌, length, arith,
}
use sonicbrew.Session.Graph.{Mutation, Apply}
use sonicbrew.Session.Raft.{
  LogId, Entry, EntryPayload, StoredMembership, blank, normal, membership, ok, ◌>>=◌,
}
use sonicbrew.Session.StateMachine.{
  PersistedState, ClientWriteResponse, Codecs, StateMachine, read_state, apply_payload,
  apply_entries, apply,
}

-- The mutations that a list of entries carries.
abbrev pub mutation_of : {M : Type 0} → EntryPayload M → List Mutation → List Mutation
mutation_of blank rest = rest
mutation_of (normal mutation) rest = mutation ∷ rest
mutation_of (membership config) rest = rest

abbrev pub mutations : {M : Type 0} → List (Entry M) → List Mutation
mutations [] = []
mutations (e ∷ es) = mutation_of e.payload (mutations es)

abbrev pub last_of : {M : Type 0} → List (Entry M) → Option LogId → Option LogId
last_of [] last = last
last_of (e ∷ es) last = last_of es (some e.log_id)

-- The answers to a list of entries: the mutations take the ids from `n` on, in order, and all other
-- entries are answered with 0.
abbrev answer_of : {M : Type 0} → ℕ → EntryPayload M → ClientWriteResponse
answer_of n blank = record { mutation_id = 0 }
answer_of n (normal mutation) = record { mutation_id = n }
answer_of n (membership config) = record { mutation_id = 0 }

abbrev pub answers : {M : Type 0} → ℕ → List (Entry M) → List ClientWriteResponse
answers n [] = []
answers n (e ∷ es) = answer_of n e.payload ∷ answers (n + length (mutation_of e.payload [])) es

-- The last membership that a list of entries carries, under its entry's id.
abbrev membership_after :
    {M : Type 0} → LogId → EntryPayload M → StoredMembership M → StoredMembership M
membership_after id blank m = m
membership_after id (normal mutation) m = m
membership_after id (membership config) m = record { log_id = some id; config = config }

abbrev pub last_membership_of :
    {M : Type 0} → List (Entry M) → StoredMembership M → StoredMembership M
last_membership_of [] m = m
last_membership_of (e ∷ es) m = last_membership_of es (membership_after e.log_id e.payload m)

module _ {M : Type 0} (codecs : Codecs M) (graph_apply : Apply) (default_membership : M) where
  -- The state row holds `state`.
  abbrev pub IsAt : StateMachine → PersistedState M → Type 0
  IsAt sm state = sm.state ≡ some (codecs.state.serialize state)

  abbrev pub entries_step :
      List (Entry M) → PersistedState M → List ClientWriteResponse × PersistedState M
  entries_step = apply_entries codecs graph_apply default_membership

  pub read_state-IsAt :
      (sm : StateMachine) (state : PersistedState M)
      → IsAt sm state
      → read_state codecs graph_apply default_membership sm ≡ ok state
  unfolding read_state
  read_state-IsAt sm state at = ground (arith, codecs.state.deserialize-serialize state)

  payload_step :
      (id : LogId) (p : EntryPayload M) (s : PersistedState M) (rest : List Mutation)
      → let s' = (apply_payload codecs graph_apply default_membership id p s).1 in
        (foldl graph_apply s.topology (mutation_of p rest) ≡ foldl graph_apply s'.topology rest)
        × (s.next_mutation_id + length (mutation_of p rest) ≡ s'.next_mutation_id + length rest)
        × (s'.last_applied ≡ s.last_applied)
        × (s'.last_membership ≡ membership_after id p s.last_membership)
  unfolding apply_payload
  payload_step id blank s rest = (refl, refl, refl, refl)
  payload_step id (normal m) s rest = (refl, omega arith, refl, refl)
  payload_step id (membership c) s rest = (refl, refl, refl, refl)

  payload_answer :
      (id : LogId) (p : EntryPayload M) (s : PersistedState M)
      → let (response, s') = apply_payload codecs graph_apply default_membership id p s in
        (response ≡ answer_of s.next_mutation_id p)
        × (s.next_mutation_id + length (mutation_of p []) ≡ s'.next_mutation_id)
  unfolding apply_payload
  payload_answer id blank s = (refl, omega arith)
  payload_answer id (normal m) s = (refl, refl)
  payload_answer id (membership c) s = (refl, omega arith)

  entries-answers :
      (es : List (Entry M)) (s : PersistedState M)
      → (entries_step es s).0 ≡ answers s.next_mutation_id es
  unfolding apply_entries
  entries-answers [] s = refl
  entries-answers (e ∷ es) s =
      let s₀ : PersistedState M = record s { last_applied = some e.log_id } in
      let (response, s₁) =
        apply_payload codecs graph_apply default_membership e.log_id e.payload s₀ in
      let (answered, counted) = payload_answer e.log_id e.payload s₀ in
      ap (λ r. r ∷ (entries_step es s₁).0) answered
      ∙ ap (◌∷◌ (answer_of s.next_mutation_id e.payload))
          (entries-answers es s₁ ∙ ap (λ n. answers n es) (sym counted))

  -- What a batch does to the state: the topology takes its mutations in order, the counter grows by
  -- their number, the last entry is the last applied, and the last membership is the last that the batch
  -- carries.
  pub record Applies (es : List (Entry M)) (s s' : PersistedState M) : Type 0 where
    pub topology : s'.topology ≡ foldl graph_apply s.topology (mutations es)
    pub counter : s'.next_mutation_id ≡ s.next_mutation_id + length (mutations es)
    pub last_applied : s'.last_applied ≡ last_of es s.last_applied
    pub last_membership : s'.last_membership ≡ last_membership_of es s.last_membership

  entries-Applies :
      (es : List (Entry M)) (s : PersistedState M) → Applies es s (entries_step es s).1
  unfolding apply_entries
  entries-Applies [] s = record {
    topology = refl;
    counter = omega arith;
    last_applied = refl;
    last_membership = refl;
  }
  entries-Applies (e ∷ es) s =
      let s₀ : PersistedState M = record s { last_applied = some e.log_id } in
      let s₁ = (apply_payload codecs graph_apply default_membership e.log_id e.payload s₀).1 in
      let ih = entries-Applies es s₁ in
      let (topology, counter, last, config) = payload_step e.log_id e.payload s₀ (mutations es) in
      record {
        topology = ih.topology ∙ sym topology;
        counter = omega (arith, ih.counter, counter);
        last_applied = ih.last_applied ∙ ap (last_of es) last;
        last_membership = ih.last_membership ∙ ap (last_membership_of es) config;
      }

  entries_step-append :
      (es fs : List (Entry M)) (s : PersistedState M)
      → entries_step (es ++ fs) s ≡ (
        (entries_step es s).0 ++ (entries_step fs (entries_step es s).1).0,
        (entries_step fs (entries_step es s).1).1,
      )
  unfolding apply_entries
  entries_step-append [] fs s = refl
  entries_step-append (e ∷ es) fs s =
      let s₀ : PersistedState M = record s { last_applied = some e.log_id } in
      let s₁ = (apply_payload codecs graph_apply default_membership e.log_id e.payload s₀).1 in
      rw (entries_step-append es fs s₁) refl

  apply-IsAt :
      (sm : StateMachine) (state : PersistedState M) (es : List (Entry M))
      → IsAt sm state
      → apply codecs graph_apply default_membership sm es none ≡ (
        ok (entries_step es state).0,
        record sm { state = some (codecs.state.serialize (entries_step es state).1) },
      )
  unfolding apply
  apply-IsAt sm state es at = rw (read_state-IsAt sm state at) refl

  -- From a readable state, `apply` without a fault stores the state that the batch leads to: the topology
  -- with its mutations in order, the counter raised by their number, the last entry as the last applied,
  -- and the last membership that it carries. It answers the entries one by one: the mutations with the
  -- ids from the counter on, in order, and all others with 0.
  pub apply-Applies :
      (sm : StateMachine) (state : PersistedState M) (es : List (Entry M))
      → IsAt sm state
      → let (result, sm') = apply codecs graph_apply default_membership sm es none in
        (state' : PersistedState M) × IsAt sm' state'
        × Applies es state state'
        × (result ≡ ok (answers state.next_mutation_id es))
  apply-Applies sm state es at =
      rw (apply-IsAt sm state es at) (
        (entries_step es state).1,
        refl,
        entries-Applies es state,
        ap ok (entries-answers es state),
      )

  -- However the log is cut into batches, the machine ends in the same state with the same answers.
  pub apply-append :
      (sm : StateMachine) (state : PersistedState M) (es fs : List (Entry M))
      → IsAt sm state
      → let (first, sm') = apply codecs graph_apply default_membership sm es none in
        let (second, sm'') = apply codecs graph_apply default_membership sm' fs none in
        apply codecs graph_apply default_membership sm (es ++ fs) none
        ≡ (do rs ← first; ss ← second; ok (rs ++ ss), sm'')
  apply-append sm state es fs at =
      rw
        (
          apply-IsAt sm state es at,
          apply-IsAt (record sm { state = some (codecs.state.serialize (entries_step es state).1) })
              (entries_step es state).1 fs refl,
          apply-IsAt sm state (es ++ fs) at,
          entries_step-append es fs state,
        )
        refl
