-- ===== src/Engine/Nodes/Delay/Echo.antt =====
-- The delay of crates/audio-engine/src/nodes/delay.rs computes an echo, whatever the size of its ring and
-- however the signal is cut into blocks.
use sonicbrew.Base.{
  ℕ, suc, ◌+◌, ◌-◌, ◌/◌, ◌<◌, ◌≡◌, refl, sym, ap, ◌∙◌, false, List, [], ◌∷◌, ◌++◌, append_assoc,
  append-nil, ◌==◌, length, length-append, length-set, length-replicate, get_or, set, replicate,
  min, max, arith, get_or-append, set-append, All,
}
use native.Mathlib.Nat.{zero-mul}
use mathlib.Core.Path.{subst}
use sonicbrew.Engine.Nodes.{Float, AudioFrame}
use sonicbrew.Engine.Nodes.Delay.{
  DelayNode, new, wet_of, out_of, process_sample, process_channel, process_channels,
  process_samples, process,
}
use sonicbrew.Engine.Nodes.Delay.Ring.{IsRing, replicate-IsRing, push-IsRing}

abbrev pub frame : {F : Type 0} → ℕ → List F → AudioFrame F
frame rate samples = record { channels = 1; sample_rate = rate; samples = samples }

-- A signal in blocks, each with what its output replaces.
abbrev pub signal : {F : Type 0} → List (List F × List F) → List F
signal [] = []
signal ((inp, out) ∷ blocks) = inp ++ signal blocks

abbrev pub samples_of : {F : Type 0} → List (AudioFrame F) → List F
samples_of [] = []
samples_of (f ∷ frames) = f.samples ++ samples_of frames

abbrev pub run : {F : Type 0} → Float F → ℕ → DelayNode F → List (List F × List F) → List F
run float rate node [] = []
run float rate node ((inp, out) ∷ blocks) =
    let (node', frames) = process float node (frame rate inp ∷ []) (frame rate out ∷ []) in
    samples_of frames ++ run float rate node' blocks

module _ {F : Type 0} (float : Float F) (lag : ℕ) (feedback mix : F) where
  -- The echo of a signal after the values in a history, the newest first: each sample takes up the value
  -- that lies `lag + 1` before it.
  abbrev pub echo : List F → List F → List F
  echo history [] = []
  echo history (x ∷ xs) =
      let wet = wet_of float feedback x (get_or history lag float.nought) in
      out_of float mix x wet ∷ echo (wet ∷ history) xs

  abbrev pub later : List F → List F → List F
  later history [] = history
  later history (x ∷ xs) =
      later (wet_of float feedback x (get_or history lag float.nought) ∷ history) xs

  echo-append :
      (history xs ys : List F)
      → echo history (xs ++ ys) ≡ echo history xs ++ echo (later history xs) ys
  echo-append history [] ys = refl
  echo-append history (x ∷ xs) ys =
      let wet = wet_of float feedback x (get_or history lag float.nought) in
      ap (◌∷◌ (out_of float mix x wet)) (echo-append (wet ∷ history) xs ys)

  -- A node with one channel.
  abbrev pub mono : List F → ℕ → DelayNode F
  mono ring wp = record {
    buffer = ring ∷ [];
    write_pos = wp ∷ [];
    delay_samples = suc lag;
    feedback = feedback;
    mix = mix;
  }

  -- The node and its history.
  pub record Tracks (history : List F) (node : DelayNode F) : Type 0 where
    pub ring : List F
    pub wp : ℕ
    pub is_mono : node ≡ mono ring wp
    pub is_ring : IsRing float.nought history ring wp
    pub reach : lag < length ring

  process_sample-Tracks :
      (history : List F) (node : DelayNode F) (x : F)
      → Tracks history node
      → let wet = wet_of float feedback x (get_or history lag float.nought) in
        ((process_sample float node x 0).0 ≡ out_of float mix x wet)
        × Tracks (wet ∷ history) (process_sample float node x 0).1
  unfolding process_sample
  process_sample-Tracks history node x t =
      let delayed = t.is_ring.past lag t.reach in
      rw (t.is_mono, delayed)
        (
          refl,
          record {
            ring = _;
            wp = _;
            is_mono = refl;
            is_ring = push-IsRing float.nought history t.ring t.wp _ t.is_ring;
            reach = subst (λ n. lag < n) (sym (length-set t.ring t.wp _)) t.reach;
          },
        )

  process_channel-echo :
      (xs rest pre done : List F) (idx : ℕ) (history : List F) (node : DelayNode F)
      → Tracks history node
      → length pre ≡ idx
      → length done ≡ idx
      → length rest ≡ length xs
      → let (node', out) =
          process_channel float (length xs) idx 0 (pre ++ xs) (node, done ++ rest) in
        Tracks (later history xs) node' × (out ≡ done ++ echo history xs)
  unfolding process_channel
  process_channel-echo [] [] pre done idx history node t hp hd hr = (t, refl)
  process_channel-echo [] (o ∷ rest) pre done idx history node t hp hd hr =
      absurd (omega (arith, hr))
  process_channel-echo (x ∷ xs) [] pre done idx history node t hp hd hr = absurd (omega (arith, hr))
  process_channel-echo (x ∷ xs) (o ∷ rest) pre done idx history node t hp hd hr =
      let (y, t') = process_sample-Tracks history node x t in
      let wet = wet_of float feedback x (get_or history lag float.nought) in
      let node' = (process_sample float node x 0).1 in
      let sample = out_of float mix x wet in
      let here : idx ≡ length pre + 0 = omega (arith, hp) in
      let there : idx ≡ length done + 0 = omega (arith, hd) in
      let next =
        process_channel-echo xs rest (pre ++ x ∷ []) (done ++ sample ∷ []) (idx + 1) (wet ∷ history)
          node' t' (omega (arith, hp, length-append pre (x ∷ [])))
          (omega (arith, hd, length-append done (sample ∷ []))) (omega (arith, hr)) in
      let rounds = length xs in
      let step =
        ap
          (λ v.
            let (made, after) = process_sample float node v 0 in
            process_channel float rounds (idx + 1) 0 (pre ++ x ∷ xs)
              (after, set (done ++ o ∷ rest) idx made))
          (get_or-append pre (x ∷ xs) idx 0 float.nought here)
        ∙ ap
            (λ v.
              process_channel float rounds (idx + 1) 0 (pre ++ x ∷ xs)
                (node', set (done ++ o ∷ rest) idx v))
            y
        ∙ ap (λ out. process_channel float rounds (idx + 1) 0 (pre ++ x ∷ xs) (node', out))
            (set-append done (o ∷ rest) idx 0 sample there
              ∙ sym (append_assoc done (sample ∷ []) rest))
        ∙ ap
            (λ inp.
              process_channel float rounds (idx + 1) 0 inp (node', (done ++ sample ∷ []) ++ rest))
            (sym (append_assoc pre (x ∷ []) xs)) in
      subst (λ r. Tracks (later history (x ∷ xs)) r.0 × (r.1 ≡ done ++ echo history (x ∷ xs)))
        (sym step) (next.0, next.1 ∙ append_assoc done (sample ∷ []) (echo (wet ∷ history) xs))

  process_samples_mono :
      (inp out : List F) (node : DelayNode F)
      → 0 < length inp
      → length out ≡ length inp
      → process_samples float node 1 inp out
        ≡ process_channel float (length inp) 0 0 inp (node, out)
  unfolding process_samples process_channels
  process_samples_mono inp out node some_inp h =
      let whole : min (length inp) (length out) ≡ length inp = omega (arith, h) in
      let some_sample : (length inp == 0) ≡ false = ground (arith, some_inp) in
      let one_channel : length inp / 1 ≡ length inp = omega arith in
      rw (whole, some_sample, one_channel)
        (ap (λ i. process_channel float (length inp) i 0 inp (node, out)) (zero-mul (length inp)))

  process-echo :
      (rate : ℕ) (inp out : List F) (history : List F) (node : DelayNode F)
      → Tracks history node
      → length out ≡ length inp
      → let (node', frames) = process float node (frame rate inp ∷ []) (frame rate out ∷ []) in
        Tracks (later history inp) node' × (frames ≡ frame rate (echo history inp) ∷ [])
  unfolding process process_samples process_channels
  process-echo rate [] [] history node t h = (t, refl)
  process-echo rate [] (o ∷ out) history node t h = absurd (omega (arith, h))
  process-echo rate (x ∷ inp) [] history node t h = absurd (omega (arith, h))
  process-echo rate (x ∷ inp) (o ∷ out) history node t h =
      let (t', made) =
        process_channel-echo (x ∷ inp) (o ∷ out) [] [] 0 history node t refl refl h in
      subst
        (λ r.
          Tracks (later history (x ∷ inp)) r.0
          × (frame rate r.1 ∷ [] ≡ frame rate (echo history (x ∷ inp)) ∷ []))
        (sym (process_samples_mono (x ∷ inp) (o ∷ out) node (omega arith) h))
        (t', ap (λ samples. frame rate samples ∷ []) made)

  run-echo :
      (rate : ℕ) (blocks : List (List F × List F)) (history : List F) (node : DelayNode F)
      → Tracks history node
      → All (λ b. length b.1 ≡ length b.0) blocks
      → run float rate node blocks ≡ echo history (signal blocks)
  run-echo rate [] history node t h = refl
  run-echo rate ((inp, out) ∷ blocks) history node t h =
      let (t', made) = process-echo rate inp out history node t h.0 in
      let node' = (process float node (frame rate inp ∷ []) (frame rate out ∷ [])).0 in
      ap (λ frames. samples_of frames ++ run float rate node' blocks) made
      ∙ ap (λ xs. xs ++ run float rate node' blocks) (append-nil (echo history inp))
      ∙ ap (λ xs. echo history inp ++ xs) (run-echo rate blocks (later history inp) node' t' h.1)
      ∙ sym (echo-append history inp (signal blocks))

-- The delay that a new node has, less one.
abbrev pub lag_of : ℕ → ℕ → ℕ
lag_of max_delay_samples delay_samples = min (max delay_samples 1) (max max_delay_samples 1) - 1

module _ {F : Type 0} (float : Float F) where
  new-Tracks :
      (max_delay delay : ℕ) (feedback mix : F)
      → Tracks float
          (lag_of max_delay delay)
          (float.clamp feedback float.nought float.feedback_ceil)
          (float.clamp mix float.nought float.one)
          []
          (new float max_delay delay feedback mix 1)
  unfolding new
  new-Tracks max_delay delay feedback mix =
      let cap = max max_delay 1 in
      let lag : min (max delay 1) cap ≡ suc (lag_of max_delay delay) = omega arith in
      record {
        ring = replicate cap float.nought;
        wp = 0;
        is_mono =
            ap
              (λ d. record {
                buffer = replicate cap float.nought ∷ [];
                write_pos = 0 ∷ [];
                delay_samples = d;
                feedback = float.clamp feedback float.nought float.feedback_ceil;
                mix = float.clamp mix float.nought float.one;
              })
              lag;
        is_ring = replicate-IsRing float.nought cap (omega arith);
        reach = omega (arith, length-replicate cap float.nought);
      }

  -- A new delay with one channel, whatever its ring's size and its delay, computes the echo of its
  -- input: however the signal is cut into blocks, each sample is mixed from the input and from the
  -- input with the value that lies the delay before it fed back, silence before the start.
  pub run-new :
      (max_delay delay rate : ℕ) (feedback mix : F) (blocks : List (List F × List F))
      → All (λ b. length b.1 ≡ length b.0) blocks
      → run float rate (new float max_delay delay feedback mix 1) blocks
        ≡ echo float
            (lag_of max_delay delay)
            (float.clamp feedback float.nought float.feedback_ceil)
            (float.clamp mix float.nought float.one)
            []
            (signal blocks)
  run-new max_delay delay rate feedback mix blocks h =
      run-echo float _ _ _ rate blocks [] _ (new-Tracks max_delay delay feedback mix) h
