-- ===== src/Rtp/Jitter/Order.antt =====
-- The order in which crates/net-rtp-aes67/src/jitter.rs emits packets, over any run of its operations.
use sonicbrew.Base.{
  ℕ, suc, ◌+◌, ◌%◌, ◌^◌, ◌≤◌, ◌<◌, ◌≡◌, refl, sym, ap, ◌⊎◌, inl, inr, true, false, leb, length,
  Option, none, some, List, [], ◌∷◌, ◌++◌, map, arith, Bool-cases, Option-cases, All,
}
use mathlib.Core.Path.{subst, ap₂}
use sonicbrew.Base.Int.{pos, ltb_ℤ}
use sonicbrew.Base.HashMap
use sonicbrew.Base.HashMap.{
  HashMap, AllKeys_at, contains_key-insert, insert-All, remove-All, get-All,
}
use sonicbrew.Rtp.Jitter.{JitterBuffer, gap, forward_distance, buffer, push, pop, closest, skip_gap}
use sonicbrew.Rtp.Jitter.Distance.{half}
use sonicbrew.Rtp.Jitter.Invariant.{IsValid, InWindow, mk, found_key, push-IsValid, pop-IsValid}
use sonicbrew.Rtp.Jitter.Skip.{skip_gap-IsValid}

-- What a receiver asks of its buffer.
pub data Op {ℓ} (A : Type ℓ) : Type ℓ where
  push_op : ℕ → A → Op A
  pop_op : Op A
  skip_op : Op A

-- Offsets that rise strictly, from `lo` on, each less than half the sequence space after the one before it:
-- in the arithmetic of sequence numbers each number is later than the one before.
abbrev pub Ascends : ℕ → List ℕ → Type 0
Ascends lo [] = Unit {0}
Ascends lo (i ∷ is) = (lo ≤ i) × (i < lo + half) × Ascends (suc i) is

-- What was pushed.
abbrev pub pushed {ℓ} : {A : Type ℓ} → List (Op A) → List (ℕ × A)
pushed [] = []
pushed (push_op seq payload ∷ ops) = (seq, payload) ∷ pushed ops
pushed (pop_op ∷ ops) = pushed ops
pushed (skip_op ∷ ops) = pushed ops

stays : (b : ℕ) → b < 2 ^ 16 → some b ≡ some ((b + 0) % 2 ^ 16)
stays b h = ap some (omega arith)

module _ {ℓ} {A : Type ℓ} where
  abbrev pub emitted : Option (ℕ × A) → List (ℕ × A)
  emitted none = []
  emitted (some p) = p ∷ []

  unfoldable pub step : Op A → JitterBuffer A → List (ℕ × A) × JitterBuffer A
  step (push_op seq payload) jb = ([], (push jb seq payload).1)
  step pop_op jb = let (out, jb') = pop jb in (emitted out, jb')
  step skip_op jb = ([], (skip_gap jb).1)

  -- All that is emitted, in order.
  unfoldable pub run : List (Op A) → JitterBuffer A → List (ℕ × A)
  run [] jb = []
  run (op ∷ ops) jb = let (out, jb') = step op jb in out ++ run ops jb'

  abbrev pub IsOp : Op A → Type 0
  IsOp (push_op seq payload) = seq < 2 ^ 16
  IsOp pop_op = Unit {0}
  IsOp skip_op = Unit {0}

  abbrev pub seqs : List (ℕ × A) → List ℕ
  seqs = map (λ p. p.0)

  -- How one operation moves the baseline `b`: it stays; or it skips to a packet that is there, from one that
  -- is not; or `b` is emitted and the baseline goes on by one.
  abbrev Stays : ℕ → HashMap A → List (ℕ × A) → ℕ → HashMap A → Type ℓ
  Stays b m out by m' =
      (out ≡ []) × (by ≡ 0) × (HashMap.contains_key b m ≡ true → HashMap.contains_key b m' ≡ true)

  abbrev Jumps : ℕ → HashMap A → List (ℕ × A) → ℕ → HashMap A → Type ℓ
  Jumps b m out by m' =
      (out ≡ [])
      × (by < half)
      × (HashMap.contains_key b m ≡ false)
      × (HashMap.contains_key ((b + by) % 2 ^ 16) m' ≡ true)

  abbrev EmitsOne : ℕ → List (ℕ × A) → ℕ → Type ℓ
  EmitsOne b out by = (a : A) × (out ≡ (b, a) ∷ []) × (by ≡ 1)

  record Moves (b : ℕ) (m : HashMap A) (out : List (ℕ × A)) (jb : JitterBuffer A) : Type ℓ where
    by : ℕ
    next_seq : jb.next_seq ≡ some ((b + by) % 2 ^ 16)
    how : Stays b m out by jb.buf ⊎ (Jumps b m out by jb.buf ⊎ EmitsOne b out by)

  still :
      (b : ℕ) (m : HashMap A) (capacity : ℕ) → b < 2 ^ 16 → Moves b m [] (mk (some b) m capacity)
  still b m capacity h = record {
    by = 0;
    next_seq = stays b h;
    how = inl (refl, refl, λ there. there);
  }

  buffer-Moves :
      (b : ℕ) (m : HashMap A) (capacity seq : ℕ) (payload : A)
      → b < 2 ^ 16
      → Moves b m [] (buffer (mk (some b) m capacity) seq payload).1
  unfolding buffer
  buffer-Moves b m capacity seq payload h = elim (Bool-cases (HashMap.contains_key seq m)) [
    | inl there ↦ rw there (still b m capacity h)
    | inr absent ↦ elim (Bool-cases (leb capacity (length m))) [
      | inl full ↦ rw (absent, full) (still b m capacity h)
      | inr room ↦
          rw (absent, room)
            (record {
              by = 0;
              next_seq = stays b h;
              how =
                  inl (
                    refl,
                    refl,
                    λ there. ground (arith, contains_key-insert seq b payload m, there),
                  );
            })
    ]
  ]

  push-Moves :
      (b : ℕ) (m : HashMap A) (capacity seq : ℕ) (payload : A)
      → b < 2 ^ 16
      → Moves b m [] (push (mk (some b) m capacity) seq payload).1
  unfolding push
  push-Moves b m capacity seq payload h =
      elim (Bool-cases (ltb_ℤ (forward_distance b seq) (pos 0))) [
        | inl late ↦ rw (late, push) (still b m capacity h)
        | inr ahead ↦ rw (ahead, push) (buffer-Moves b m capacity seq payload h)
      ]

  pop-Moves :
      (b : ℕ) (m : HashMap A) (capacity : ℕ)
      → b < 2 ^ 16
      → let (out, jb) = pop (mk (some b) m capacity) in Moves b m (emitted out) jb
  unfolding pop
  pop-Moves b m capacity h = elim (Option-cases (HashMap.get b m)) [
    | inl e ↦ rw (e, pop) (still b m capacity h)
    | inr (a, e) ↦ rw (e, pop) (record { by = 1; next_seq = refl; how = inr (inr (a, refl, refl)) })
  ]

  skip-Moves :
      (b : ℕ) (m : HashMap A) (capacity : ℕ)
      → IsValid (mk (some b) m capacity)
      → Moves b m [] (skip_gap (mk (some b) m capacity)).1
  unfolding skip_gap
  skip-Moves b m capacity v = elim (Bool-cases (HashMap.contains_key b m)) [
    | inl e ↦ rw (e, skip_gap) (still b m capacity v.window.0)
    | inr e ↦ elim (Option-cases (closest b none m)) [
      | inl f ↦ rw (e, f, skip_gap) (still b m capacity v.window.0)
      | inr ((s, d), f) ↦
          let (inside, _, _, near) = found_key b m s d f in
          let u16 = (AllKeys_at (InWindow b) s m inside v.window.1).0 in
          let there : s ≡ (b + gap b s) % 2 ^ 16 = omega (arith, v.window.0, u16) in
          rw (e, f, skip_gap)
            (record {
              by = gap b s;
              next_seq = ap some there;
              how =
                  inr (
                    inl (refl, near, e, subst (λ k. HashMap.contains_key k m ≡ true) there inside));
            })
    ]
  ]

  abbrev StepGood : Op A → ℕ → JitterBuffer A → Type ℓ
  StepGood op b jb = IsValid (step op jb).1 × Moves b jb.buf (step op jb).0 (step op jb).1

  step_at :
      (op : Op A) (b : ℕ) (m : HashMap A) (capacity : ℕ)
      → IsOp op
      → IsValid (mk (some b) m capacity)
      → StepGood op b (mk (some b) m capacity)
  unfolding step
  step_at (push_op seq payload) b m capacity h v = (
    push-IsValid (mk (some b) m capacity) seq payload h v,
    push-Moves b m capacity seq payload v.window.0,
  )
  step_at pop_op b m capacity h v =
      (pop-IsValid (mk (some b) m capacity) v, pop-Moves b m capacity v.window.0)
  step_at skip_op b m capacity h v =
      (skip_gap-IsValid (mk (some b) m capacity) v, skip-Moves b m capacity v)

  step-StepGood :
      (op : Op A) (jb : JitterBuffer A) (b : ℕ)
      → IsOp op
      → IsValid jb
      → jb.next_seq ≡ some b
      → StepGood op b jb
  step-StepGood op jb b h v e =
      let at_base : mk (some b) jb.buf jb.capacity ≡ jb =
        ap (λ n. mk n jb.buf jb.capacity) (sym e) in
      subst (StepGood op b) at_base
        (step_at op b jb.buf jb.capacity h (subst IsValid (sym at_base) v))

  -- The emitted sequence numbers are those at rising offsets from `b0`.
  pub record Emits (b0 lo : ℕ) (out : List (ℕ × A)) : Type 0 where
    pub offsets : List ℕ
    pub ascends : Ascends lo offsets
    pub at_offsets : seqs out ≡ map (λ i. (b0 + i) % 2 ^ 16) offsets

  -- The baseline stands at an offset `cur`: where the last emission left it, or at a packet that is there.
  abbrev Stands : ℕ → ℕ → ℕ → HashMap A → Type 0
  Stands lo cur b m =
      (cur ≡ lo) ⊎ ((lo ≤ cur) × (cur < lo + half) × (HashMap.contains_key b m ≡ true))

  within_reach : (lo cur b : ℕ) (m : HashMap A) → Stands lo cur b m → (lo ≤ cur) × (cur < lo + half)
  within_reach lo cur b m (inl fresh) = (omega (arith, fresh), omega (arith, fresh))
  within_reach lo cur b m (inr (above, near, there)) = (above, near)

  run_from :
      (ops : List (Op A)) (jb : JitterBuffer A) (b0 lo cur b : ℕ)
      → All IsOp ops
      → IsValid jb
      → jb.next_seq ≡ some b
      → b ≡ (b0 + cur) % 2 ^ 16
      → Stands lo cur b jb.buf
      → Emits b0 lo (run ops jb)
  unfolding run
  run_from [] jb b0 lo cur b h v e at stands = record {
    offsets = [];
    ascends = tt;
    at_offsets = refl;
  }
  run_from (op ∷ ops) jb b0 lo cur b h v e at stands =
      let (v', moves) = step-StepGood op jb b h.0 v e in
      let on : (b + moves.by) % 2 ^ 16 ≡ (b0 + (cur + moves.by)) % 2 ^ 16 = omega arith in
      let more =
        λ (lo' : ℕ) (s : Stands lo' (cur + moves.by) ((b + moves.by) % 2 ^ 16) (step op jb).1.buf).
          run_from ops (step op jb).1 b0 lo' (cur + moves.by) ((b + moves.by) % 2 ^ 16) h.1 v'
            moves.next_seq on s in
      elim moves.how [
        | inl (silent, no_move, kept) ↦ rw silent (
            more lo (elim stands [
              | inl fresh ↦ inl (omega (arith, fresh, no_move))
              | inr (above, near, there) ↦
                  let b_u16 : b < 2 ^ 16 = omega (arith, at) in
                  let here : b ≡ (b + moves.by) % 2 ^ 16 = omega (arith, no_move, b_u16) in
                  inr (
                    omega (arith, above, no_move),
                    omega (arith, near, no_move),
                    subst (λ k. HashMap.contains_key k (step op jb).1.buf ≡ true) here (kept there),
                  )
            ]))
        | inr (inl (silent, near, absent, there)) ↦ rw silent (
            more lo (elim stands [
              | inl fresh ↦ inr (omega (arith, fresh), omega (arith, fresh, near), there)
              | inr (above, close, present) ↦ absurd (ground (arith, absent, present))
            ]))
        | inr (inr (a, one, by_one)) ↦
            let rest = more (suc cur) (inl (omega (arith, by_one))) in
            let (low, high) = within_reach lo cur b jb.buf stands in
            rw one (record {
              offsets = cur ∷ rest.offsets;
              ascends = (low, high, rest.ascends);
              at_offsets = ap₂ ◌∷◌ at rest.at_offsets;
            })
      ]

  -- What holds of every packet in the buffer and of every packet pushed.
  module _ (P : ℕ × A → Type 0) where
    buffer-All :
        (jb : JitterBuffer A) (seq : ℕ) (payload : A)
        → P (seq, payload)
        → All P jb.buf
        → All P (buffer jb seq payload).1.buf
    unfolding buffer
    buffer-All jb seq payload h all = elim (Bool-cases (HashMap.contains_key seq jb.buf)) [
      | inl there ↦ rw there all
      | inr absent ↦ elim (Bool-cases (leb jb.capacity (length jb.buf))) [
        | inl full ↦ rw (absent, full) all
        | inr room ↦ rw (absent, room) (insert-All P seq payload jb.buf h all)
      ]
    ]

    push-All :
        (next : Option ℕ) (m : HashMap A) (capacity seq : ℕ) (payload : A)
        → P (seq, payload)
        → All P m
        → All P (push (mk next m capacity) seq payload).1.buf
    unfolding push
    push-All none m capacity seq payload h all =
        buffer-All (mk (some seq) m capacity) seq payload h all
    push-All (some b) m capacity seq payload h all =
        elim (Bool-cases (ltb_ℤ (forward_distance b seq) (pos 0))) [
          | inl late ↦ rw (late, push) all
          | inr ahead ↦ rw (ahead, push) (buffer-All (mk (some b) m capacity) seq payload h all)
        ]

    pop-All :
        (next : Option ℕ) (m : HashMap A) (capacity : ℕ)
        → All P m
        → let (out, jb) = pop (mk next m capacity) in All P (emitted out) × All P jb.buf
    unfolding pop
    pop-All none m capacity all = (tt, all)
    pop-All (some b) m capacity all = elim (Option-cases (HashMap.get b m)) [
      | inl missing ↦ rw (missing, pop) (tt, all)
      | inr (a, found) ↦ rw (found, pop) ((get-All P b a m found all, tt), remove-All P b m all)
    ]

    buf-skip_gap :
        (next : Option ℕ) (m : HashMap A) (capacity : ℕ) → (skip_gap (mk next m capacity)).1.buf ≡ m
    unfolding skip_gap
    buf-skip_gap none m capacity = refl
    buf-skip_gap (some b) m capacity = elim (Bool-cases (HashMap.contains_key b m)) [
      | inl there ↦ rw (there, skip_gap) refl
      | inr absent ↦ elim (Option-cases (closest b none m)) [
        | inl alone ↦ rw (absent, alone, skip_gap) refl
        | inr ((s, d), found) ↦ rw (absent, found, skip_gap) refl
      ]
    ]

    All-append : (xs ys : List (ℕ × A)) → All P xs → All P ys → All P (xs ++ ys)
    All-append [] ys h k = k
    All-append (x ∷ xs) ys h k = (h.0, All-append xs ys h.1 k)

    run-All :
        (ops : List (Op A)) (jb : JitterBuffer A)
        → All P jb.buf
        → All P (pushed ops)
        → All P (run ops jb)
    unfolding run step
    run-All [] jb held given = tt
    run-All (push_op seq payload ∷ ops) jb held given =
        run-All ops _ (push-All jb.next_seq jb.buf jb.capacity seq payload given.0 held) given.1
    run-All (pop_op ∷ ops) jb held given =
        let (out, left) = pop-All jb.next_seq jb.buf jb.capacity held in
        All-append _ _ out (run-All ops _ left given)
    run-All (skip_op ∷ ops) jb held given =
        run-All ops _ (rw (buf-skip_gap jb.next_seq jb.buf jb.capacity) held) given

  -- From a valid buffer whose next packet is `b`, any pushes, pops and skips emit sequence numbers that stand,
  -- modulo 2 ^ 16, at strictly rising offsets from `b`, each less than 2 ^ 15 after the place that follows
  -- the one before it: each number is later than the one before. Each emitted packet was in the buffer
  -- or was pushed: what holds of all of those holds of it.
  pub run-Emits :
      (ops : List (Op A)) (jb : JitterBuffer A) (b : ℕ)
      → b < 2 ^ 16
      → All IsOp ops
      → IsValid jb
      → jb.next_seq ≡ some b
      → (P : ℕ × A → Type 0) → All P jb.buf
      → All P (pushed ops)
      → Emits b 0 (run ops jb) × All P (run ops jb)
  run-Emits ops jb b u16 h v e P held given =
      (run_from ops jb b 0 0 b h v e (omega arith) (inl refl), run-All P ops jb held given)
