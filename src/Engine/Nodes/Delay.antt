-- ===== src/Engine/Nodes/Delay.antt =====
-- `DelayNode` of crates/audio-engine/src/nodes/delay.rs: a ring buffer for each channel. Where the code would
-- panic, on a frame with more channels than the node, the model finds an empty ring.
pub mod Ring
pub mod Echo
use sonicbrew.Base.{
  ℕ, zero, suc, ◌+◌, ◌-◌, ◌*◌, ◌/◌, ◌%◌, Bool, ◌||◌, List, [], ◌∷◌, ◌==◌, if◌then◌else◌, length,
  get_or, set, replicate, min, max,
}
use sonicbrew.Engine.Nodes.{Float, AudioFrame}

pub record DelayNode (F : Type 0) : Type 0 where
  pub buffer : List (List F)
  pub write_pos : List ℕ
  pub delay_samples : ℕ
  pub feedback : F
  pub mix : F

module _ {F : Type 0} (float : Float F) where
  -- `clamp(1, cap)` and the other bounds of `DelayNode::new`
  unfoldable pub new : ℕ → ℕ → F → F → ℕ → DelayNode F
  new max_delay_samples delay_samples feedback mix channels =
      let cap = max max_delay_samples 1 in
      let ch = max channels 1 in
      record {
        buffer = replicate ch (replicate cap float.nought);
        write_pos = replicate ch 0;
        delay_samples = min (max delay_samples 1) cap;
        feedback = float.clamp feedback float.nought float.feedback_ceil;
        mix = float.clamp mix float.nought float.one;
      }

  -- The value that goes into the ring, and the sample that comes out.
  abbrev pub wet_of : F → F → F → F
  wet_of feedback x delayed = float.add x (float.mul delayed feedback)

  abbrev pub out_of : F → F → F → F
  out_of mix x wet = float.add (float.mul x (float.sub float.one mix)) (float.mul wet mix)

  unfoldable pub process_sample : DelayNode F → F → ℕ → F × DelayNode F
  process_sample node x ch =
      let ring = get_or node.buffer ch [] in
      let cap = length ring in
      let wp = get_or node.write_pos ch 0 in
      let read_pos = (wp + cap - node.delay_samples) % cap in
      let delayed = get_or ring read_pos float.nought in
      let wet = wet_of node.feedback x delayed in
      (
        out_of node.mix x wet,
        record node {
          buffer = set node.buffer ch (set ring wp wet);
          write_pos = set node.write_pos ch ((wp + 1) % cap);
        },
      )

  -- The loops of `process`: the samples of a channel from an index on, and the channels.
  unfoldable pub process_channel : ℕ → ℕ → ℕ → List F → DelayNode F × List F → DelayNode F × List F
  unfolding process_sample
  process_channel zero idx c inp (node, out) = (node, out)
  process_channel (suc rounds) idx c inp (node, out) =
      let (y, node') = process_sample node (get_or inp idx float.nought) c in
      process_channel rounds (idx + 1) c inp (node', set out idx y)

  unfoldable pub process_channels : ℕ → ℕ → ℕ → List F → DelayNode F × List F → DelayNode F × List F
  unfolding process_channel
  process_channels zero c per_ch inp state = state
  process_channels (suc rounds) c per_ch inp state =
      process_channels rounds (c + 1) per_ch inp (process_channel per_ch (c * per_ch) c inp state)

  unfoldable pub process_samples : DelayNode F → ℕ → List F → List F → DelayNode F × List F
  unfolding process_channels
  process_samples node ch inp out =
      let n = min (length inp) (length out) in
      if ch == 0 || n == 0 then (node, out) else process_channels ch 0 (n / ch) inp (node, out)

  unfoldable pub process :
      DelayNode F → List (AudioFrame F) → List (AudioFrame F) → DelayNode F × List (AudioFrame F)
  unfolding process_samples
  process node [] outs = (node, outs)
  process node (inp ∷ ins) [] = (node, [])
  process node (inp ∷ ins) (out ∷ outs) =
      let (node', samples) = process_samples node inp.channels inp.samples out.samples in
      (node', record out { samples = samples } ∷ outs)
