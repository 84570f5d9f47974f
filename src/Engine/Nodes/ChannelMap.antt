-- ===== src/Engine/Nodes/ChannelMap.antt =====
-- `ChannelMapNode` of crates/audio-engine/src/nodes/channel_map.rs.
pub mod Swap
use sonicbrew.Base.{
  ℕ, zero, suc, ◌+◌, ◌*◌, ◌/◌, Bool, ◌||◌, List, [], ◌∷◌, ◌++◌, leb, ◌==◌, if◌then◌else◌, length,
  get_or, set, take, drop, min,
}
use sonicbrew.Engine.Nodes.{Float, AudioFrame}

pub data ChannelMode (F : Type 0) : Type 0 where
  passthrough swap mute_left mute_right : ChannelMode F
  pan : F → ChannelMode F
  mono_to_stereo stereo_to_mono : ChannelMode F

pub record ChannelMapNode (F : Type 0) : Type 0 where
  pub mode : ChannelMode F

-- `for f in 0..frames`, by the rounds that are left.
unfoldable pub each_frame : {F : Type 0} → (ℕ → List F → List F) → ℕ → ℕ → List F → List F
each_frame body zero f samples = samples
each_frame body (suc rounds) f samples = each_frame body rounds (f + 1) (body f samples)

module _ {F : Type 0} (float : Float F) where
  abbrev at : List F → ℕ → F
  at samples i = get_or samples i float.nought

  -- The body of the loop of a mode, for a number of channels.
  unfoldable pub route : ChannelMode F → ℕ → ℕ → List F → List F
  route passthrough ch f s = s
  route swap ch f s = set (set s (f * ch) (at s (f * ch + 1))) (f * ch + 1) (at s (f * ch))
  route mute_left ch f s = set s (f * ch) float.nought
  route mute_right ch f s = set s (f * ch + 1) float.nought
  route (pan p) ch f s =
      let angle = float.mul (float.add p float.one) float.frac_pi_4 in
      set (set s (f * ch) (float.mul (at s (f * ch)) (float.cos angle))) (f * ch + 1)
        (float.mul (at s (f * ch + 1)) (float.sin angle))
  route mono_to_stereo ch f s = set s (f * ch + 1) (at s (f * ch))
  route stereo_to_mono ch f s =
      let mid = float.mul (float.add (at s (f * ch)) (at s (f * ch + 1))) float.half in
      set (set s (f * ch) mid) (f * ch + 1) mid

  -- All modes but the first need two channels.
  unfoldable pub map_channels : ChannelMode F → ℕ → List F → List F → List F
  unfolding each_frame route
  map_channels mode ch inp out =
      let n = min (length inp) (length out) in
      let copied = take n inp ++ drop n out in
      if ch == 0 || n == 0
      then copied
      else if leb 2 ch
      then each_frame (route mode ch) (n / ch) 0 copied
      else copied

  -- Without an input or an output frame, nothing is done.
  unfoldable pub process :
      ChannelMapNode F → List (AudioFrame F) → List (AudioFrame F) → List (AudioFrame F)
  unfolding map_channels
  process node [] outs = outs
  process node (inp ∷ ins) [] = []
  process node (inp ∷ ins) (out ∷ outs) =
      record out { samples = map_channels node.mode inp.channels inp.samples out.samples } ∷ outs
