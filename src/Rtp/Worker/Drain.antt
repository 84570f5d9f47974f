-- ===== src/Rtp/Worker/Drain.antt =====
-- `drain_jitter` of crates/net-rtp-aes67/src/worker.rs ends with an empty buffer.
use sonicbrew.Base.{
  ℕ, zero, suc, ◌+◌, ◌≤◌, ◌<◌, ◌≡◌, ◌≢◌, ap, inl, inr, true, false, Option, none, some, List,
  length, length-append, arith, Bool-cases, Option-cases, ◌==◌,
}
use sonicbrew.Base.HashMap
use sonicbrew.Base.HashMap.{HashMap, length-remove_present, contains_key_of_get}
use sonicbrew.Rtp.Jitter.{JitterBuffer, pop, closest, skip_gap, len, is_empty, count_of}
use sonicbrew.Rtp.Jitter.Invariant.{IsValid, mk, found_key, pop-IsValid}
use sonicbrew.Rtp.Jitter.Skip.{skip_gap-IsValid, pop-skip_gap, none_left, pop_present}
use sonicbrew.Rtp.Worker.{drain_run, drain_loop, drain_jitter}

module _ {ℓ} {A : Type ℓ} where
  -- What one `pop` takes from the count of buffered packets.
  abbrev taken : Option (ℕ × A) → ℕ
  taken none = 0
  taken (some p) = 1

  pop-len_at :
      (next : Option ℕ) (m : HashMap A) (capacity : ℕ)
      → IsValid (mk next m capacity)
      → let (out, jb) = pop (mk next m capacity) in length jb.buf + taken out ≡ length m
  unfolding pop
  pop-len_at none m capacity v = omega arith
  pop-len_at (some b) m capacity v = elim (Option-cases (HashMap.get b m)) [
    | inl e ↦ rw (e, pop) (omega arith)
    | inr (a, e) ↦ rw (e, pop) (length-remove_present b m v.distinct (contains_key_of_get b a m e))
  ]

  pop-len :
      (jb : JitterBuffer A) → IsValid jb → length (pop jb).1.buf + taken (pop jb).0 ≡ length jb.buf
  pop-len jb v = pop-len_at jb.next_seq jb.buf jb.capacity v

  pop-none : (jb : JitterBuffer A) → (pop jb).0 ≡ none → (pop jb).1 ≡ jb
  unfolding pop
  pop-none jb e = ground arith

  pop-some :
      (jb : JitterBuffer A) {p : ℕ × A}
      → IsValid jb
      → (pop jb).0 ≡ some p
      → length (pop jb).1.buf + 1 ≡ length jb.buf
  pop-some jb v e = omega (arith, pop-len jb v, ap taken e)

  skip-len : (jb : JitterBuffer A) → (skip_gap jb).1.buf ≡ jb.buf
  unfolding skip_gap
  skip-len jb = ground arith

  -- A valid buffer that holds packets, none of them next in order, has a gap to skip.
  skip_at_pos :
      (next : Option ℕ) (m : HashMap A) (capacity : ℕ)
      → IsValid (mk next m capacity)
      → 0 < length m
      → (pop (mk next m capacity)).0 ≡ none
      → (skip_gap (mk next m capacity)).0 ≢ 0
  unfolding pop skip_gap
  skip_at_pos none m capacity v h e = absurd (omega (arith, v.window))
  skip_at_pos (some b) m capacity v h e = elim (Bool-cases (HashMap.contains_key b m)) [
    | inl present ↦ let (a, found) = pop_present b m capacity present in λ z. cc (found, e)
    | inr absent ↦ elim (Option-cases (closest b none m)) [
      | inl f ↦ absurd (omega (arith, none_left b m v.window.0 v.window.1 absent f))
      | inr ((s, d), f) ↦
          let (_, eq, lo, _) = found_key b m s d f in
          rw (absent, f, skip_gap) (λ z. absurd (omega (arith, lo, z, ap count_of eq)))
    ]
  ]

  skip_pos :
      (jb : JitterBuffer A)
      → IsValid jb
      → 0 < length jb.buf
      → (pop jb).0 ≡ none
      → (skip_gap jb).0 ≢ 0
  skip_pos jb v h e = skip_at_pos jb.next_seq jb.buf jb.capacity v h e

module _ {ℓ κ} {A : Type ℓ} {F : Type κ} (frame : A → F) where
  -- The state in which the inner loop stops: valid, with nothing next in order, and each packet that
  -- is gone handed out as a frame.
  record Ran (jb : JitterBuffer A) (frames : List F) (jb' : JitterBuffer A) : Type ℓ where
    pub valid : IsValid jb'
    stopped : (pop jb').0 ≡ none
    pub counted : length frames + length jb'.buf ≡ length jb.buf

  drain_run-Ran :
      (fuel : ℕ) (jb : JitterBuffer A)
      → length jb.buf < fuel
      → IsValid jb
      → let (frames, jb') = drain_run frame fuel jb in Ran jb frames jb'
  unfolding drain_run
  drain_run-Ran zero jb h v = absurd (omega arith)
  drain_run-Ran (suc fuel) jb h v = elim (Option-cases (pop jb).0) [
    | inl e ↦
        rw (e, drain_run)
          (rw (pop-none jb e) (record { valid = v; stopped = e; counted = omega arith }))
    | inr ((seq, payload), e) ↦
        rw (e, drain_run)
          (let ih =
              drain_run-Ran fuel (pop jb).1 (omega (arith, pop-some jb v e)) (pop-IsValid jb v) in
            record {
              valid = ih.valid;
              stopped = ih.stopped;
              counted = omega (arith, ih.counted, pop-some jb v e);
            })
  ]

  -- Where the outer loop stops: nothing is buffered, and each packet became a frame.
  pub record Drained (jb : JitterBuffer A) (frames : List F) (jb' : JitterBuffer A) : Type ℓ where
    pub valid : IsValid jb'
    pub emptied : length jb'.buf ≡ 0
    pub counted : length frames ≡ length jb.buf

  empty_iff : (jb : JitterBuffer A) → is_empty jb ≡ true → length jb.buf ≡ 0
  unfolding is_empty
  empty_iff jb h = ground arith

  not_empty : (jb : JitterBuffer A) → is_empty jb ≡ false → 0 < length jb.buf
  unfolding is_empty
  not_empty jb h = grind arith

  -- A run from a buffer whose next packet is there takes one packet at least.
  run_takes :
      (jb : JitterBuffer A) (p : ℕ × A)
      → IsValid jb
      → (pop jb).0 ≡ some p
      → 0 < length (drain_run frame (suc (len jb)) jb).0
  unfolding drain_run len
  run_takes jb p v e = rw (e, drain_run) (omega arith)

  after_skip : (jb : JitterBuffer A) → length (skip_gap jb).1.buf ≡ length jb.buf
  after_skip jb = ap length (skip-len jb)

  -- The loop over one more round, where `more` describes the rest.
  round :
      (fuel : ℕ) (jb : JitterBuffer A)
      → IsValid jb
      → ((jb' : JitterBuffer A)
          → IsValid jb'
          → length jb'.buf + length (drain_run frame (suc (len jb)) jb).0 ≡ length jb.buf
          → (p : ℕ × A) × ((pop jb').0 ≡ some p)
          → Drained jb' (drain_loop frame fuel jb').0 (drain_loop frame fuel jb').1)
      → Drained jb (drain_loop frame (suc fuel) jb).0 (drain_loop frame (suc fuel) jb).1
  unfolding drain_loop len
  round fuel jb v more =
      let ran = drain_run-Ran (suc (length jb.buf)) jb (omega arith) v in
      let (frames, jb') = drain_run frame (suc (length jb.buf)) jb in
      elim (Bool-cases (is_empty jb')) [
        | inl done ↦
            rw (done, drain_loop)
              (record {
                valid = ran.valid;
                emptied = empty_iff jb' done;
                counted = omega (arith, ran.counted, empty_iff jb' done);
              })
        | inr waiting ↦
            let jb'' = (skip_gap jb').1 in
            let rest : Drained jb'' (drain_loop frame fuel jb'').0 (drain_loop frame fuel jb'').1 =
              more jb'' (skip_gap-IsValid jb' ran.valid)
                (omega (arith, after_skip jb', ran.counted))
                (pop-skip_gap jb' ran.valid (not_empty jb' waiting)) in
            let goes_on : ((skip_gap jb').0 == 0) ≡ false =
              ground (arith, skip_pos jb' ran.valid (not_empty jb' waiting) ran.stopped) in
            rw (waiting, goes_on, drain_loop)
              (record {
                valid = rest.valid;
                emptied = rest.emptied;
                counted = omega (
                  arith,
                  length-append frames (drain_loop frame fuel jb'').0,
                  rest.counted,
                  after_skip jb',
                  ran.counted,
                );
              })
      ]

  drain_some :
      (fuel : ℕ) (jb : JitterBuffer A)
      → IsValid jb
      → (p : ℕ × A) × ((pop jb).0 ≡ some p)
      → length jb.buf ≤ fuel
      → Drained jb (drain_loop frame fuel jb).0 (drain_loop frame fuel jb).1
  drain_some zero jb v (p, e) h = absurd (omega (arith, pop-some jb v e))
  drain_some (suc fuel) jb v (p, e) h =
      round fuel jb v
        (λ jb' v' sum next. drain_some fuel jb' v' next (omega (arith, sum, run_takes jb p v e)))

  -- Draining a valid buffer ends with an empty and valid one, and hands out one frame for each packet
  -- that was buffered.
  pub drain_jitter-Drained :
      (jb : JitterBuffer A)
      → IsValid jb
      → Drained jb (drain_jitter frame jb).0 (drain_jitter frame jb).1
  unfolding drain_jitter
  drain_jitter-Drained jb v =
      round (length jb.buf) jb v
        (λ jb' v' sum next. drain_some (length jb.buf) jb' v' next (omega (arith, sum)))
