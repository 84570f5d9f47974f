-- ===== src/Engine/Nodes/Tests.antt =====
-- The nodes of crates/audio-engine/src/nodes at concrete samples, with natural numbers for the floats.
use sonicbrew.Base.{ℕ, ◌+◌, ◌-◌, ◌*◌, ◌≡◌, refl, [], ◌∷◌, min, max, arith}
use sonicbrew.Engine.Nodes.{Float}
use sonicbrew.Engine.Nodes.ChannelMap.{swap}
use sonicbrew.Engine.Nodes.ChannelMap.{process as map_frames}
use sonicbrew.Engine.Nodes.ChannelMap.Swap.{process-swap}
use sonicbrew.Engine.Nodes.Delay.{new}
use sonicbrew.Engine.Nodes.Delay.Echo.{run, run-new}

abbrev whole : Float ℕ
whole = record {
  nought = 0;
  one = 1;
  half = 1;
  frac_pi_4 = 1;
  feedback_ceil = 1;
  add = λ x y. x + y;
  sub = λ x y. x - y;
  mul = λ x y. x * y;
  clamp = λ x lo hi. min (max x lo) hi;
  sin = λ x. x;
  cos = λ x. x;
}

-- Two channels of two samples.
process-swap_example :
    map_frames whole
      (record { mode = swap })
      (record { channels = 2; sample_rate = 48000; samples = 1 ∷ 2 ∷ 3 ∷ 4 ∷ [] } ∷ [])
      (record { channels = 2; sample_rate = 48000; samples = 0 ∷ 0 ∷ 0 ∷ 0 ∷ [] } ∷ [])
    ≡ record { channels = 2; sample_rate = 48000; samples = 2 ∷ 1 ∷ 4 ∷ 3 ∷ [] } ∷ []
process-swap_example =
    process-swap whole 1 48000 48000 (1 ∷ 2 ∷ []) (3 ∷ 4 ∷ []) (0 ∷ 0 ∷ 0 ∷ 0 ∷ []) (omega arith)
      refl refl refl

-- A delay of two samples in a ring of three, the signal in two blocks.
run-new_example :
    run whole 48000 (new whole 3 2 1 1 1) ((5 ∷ 6 ∷ 7 ∷ [], 0 ∷ 0 ∷ 0 ∷ []) ∷ (8 ∷ [], 0 ∷ []) ∷ [])
    ≡ 5 ∷ 6 ∷ 12 ∷ 14 ∷ []
run-new_example =
    run-new whole 3 2 48000 1 1 ((5 ∷ 6 ∷ 7 ∷ [], 0 ∷ 0 ∷ 0 ∷ []) ∷ (8 ∷ [], 0 ∷ []) ∷ [])
      (refl, (refl, tt))
