-- ===== src/Engine/Nodes/ChannelMap/Swap.antt =====
-- What the swap of crates/audio-engine/src/nodes/channel_map.rs does to the two channels of a frame.
use sonicbrew.Base.{
  take-length, ℕ, zero, suc, ◌+◌, ◌*◌, ◌/◌, ◌<◌, ◌≡◌, refl, sym, ap, ◌∙◌, false, List, [], ◌∷◌,
  ◌++◌, append_assoc, append-nil, ◌==◌, length, length-append, drop, min, arith, get_or-append,
  set-append,
}
use sonicbrew.Engine.Nodes.{Float}
use sonicbrew.Engine.Nodes.ChannelMap.{swap, each_frame, route, map_channels, process}

-- Each sample changes places with the one after it.
abbrev pub swap_pairs : {F : Type 0} → List F → List F
swap_pairs [] = []
swap_pairs (a ∷ []) = a ∷ []
swap_pairs (a ∷ b ∷ xs) = b ∷ a ∷ swap_pairs xs

pub swap_pairs-append :
    {A : Type 0} (m : ℕ) (xs ys : List A)
    → length xs ≡ m * 2
    → swap_pairs (xs ++ ys) ≡ swap_pairs xs ++ swap_pairs ys
swap_pairs-append m [] ys h = refl
swap_pairs-append m (x ∷ []) ys h = absurd (omega (arith, h))
swap_pairs-append zero (x ∷ y ∷ xs) ys h = absurd (omega (arith, h))
swap_pairs-append (suc m) (x ∷ y ∷ xs) ys h =
    ap (λ zs. y ∷ x ∷ zs) (swap_pairs-append m xs ys (omega (arith, h)))

dropped : {A : Type 0} (xs ys : List A) → length xs ≡ length ys → drop (length ys) xs ≡ []
dropped [] [] h = refl
dropped [] (y ∷ ys) h = refl
dropped (x ∷ xs) [] h = absurd (omega (arith, h))
dropped (x ∷ xs) (y ∷ ys) h = dropped xs ys (omega (arith, h))

module _ {F : Type 0} (float : Float F) where
  route-swap :
      (f : ℕ) (pre : List F) (a b : F) (xs : List F)
      → length pre ≡ f * 2
      → route float swap 2 f (pre ++ a ∷ b ∷ xs) ≡ (pre ++ b ∷ a ∷ []) ++ xs
  unfolding route
  route-swap f pre a b xs h =
      let here : f * 2 ≡ length pre + 0 = omega (arith, h) in
      let there : f * 2 + 1 ≡ length pre + 1 = omega (arith, h) in
      rw
        (
          get_or-append pre (a ∷ b ∷ xs) (f * 2 + 1) 1 float.nought there,
          get_or-append pre (a ∷ b ∷ xs) (f * 2) 0 float.nought here,
          set-append pre (a ∷ b ∷ xs) (f * 2) 0 b here,
          set-append pre (b ∷ b ∷ xs) (f * 2 + 1) 1 a there,
        )
        (sym (append_assoc pre (b ∷ a ∷ []) xs))

  each_frame-swap :
      (rounds f : ℕ) (pre xs : List F)
      → length pre ≡ f * 2
      → length xs ≡ rounds * 2
      → each_frame (route float swap 2) rounds f (pre ++ xs) ≡ pre ++ swap_pairs xs
  unfolding each_frame
  each_frame-swap zero f pre [] hp hx = refl
  each_frame-swap zero f pre (x ∷ xs) hp hx = absurd (omega (arith, hx))
  each_frame-swap (suc rounds) f pre [] hp hx = absurd (omega (arith, hx))
  each_frame-swap (suc rounds) f pre (x ∷ []) hp hx = absurd (omega (arith, hx))
  each_frame-swap (suc rounds) f pre (a ∷ b ∷ xs) hp hx =
      ap (each_frame (route float swap 2) rounds (f + 1)) (route-swap f pre a b xs hp)
      ∙ each_frame-swap rounds (f + 1) (pre ++ b ∷ a ∷ []) xs
          (omega (arith, hp, length-append pre (b ∷ a ∷ []))) (omega (arith, hx))
      ∙ append_assoc pre (b ∷ a ∷ []) (swap_pairs xs)

  map_channels-swap :
      (m : ℕ) (inp out : List F)
      → 0 < m
      → length inp ≡ m * 2
      → length out ≡ length inp
      → map_channels float swap 2 inp out ≡ swap_pairs inp
  unfolding map_channels
  map_channels-swap m inp out some_frame size same =
      let whole : min (length inp) (length out) ≡ length inp = omega (arith, same) in
      let some_sample : (length inp == 0) ≡ false = ground (arith, size, some_frame) in
      let frames : length inp / 2 ≡ m = omega (arith, size) in
      rw (whole, some_sample, frames, take-length inp, dropped out inp same, append-nil inp)
        (each_frame-swap m 0 [] inp refl size)

  -- On a stereo frame whose channels each have an even number of samples, not 0, the swap leaves every
  -- sample in its own channel: it exchanges neighbours in time, and not left and right.
  pub process-swap :
      (m rate rate' : ℕ) (left right out : List F)
      → 0 < m
      → length left ≡ m * 2
      → length right ≡ m * 2
      → length out ≡ length left + length right
      → process float
          (record { mode = swap })
          (record { channels = 2; sample_rate = rate; samples = left ++ right } ∷ [])
          (record { channels = 2; sample_rate = rate'; samples = out } ∷ [])
        ≡ record {
          channels = 2;
          sample_rate = rate';
          samples = swap_pairs left ++ swap_pairs right;
        }
          ∷ []
  unfolding process map_channels
  process-swap m rate rate' left right out some_frame hl hr ho =
      let size : length (left ++ right) ≡ (m + m) * 2 =
        omega (arith, length-append left right, hl, hr) in
      ap (λ samples. record { channels = 2; sample_rate = rate'; samples = samples } ∷ [])
        (map_channels-swap (m + m) (left ++ right) out (omega (arith, some_frame)) size
            (ho ∙ sym (length-append left right))
          ∙ swap_pairs-append m left right hl)
