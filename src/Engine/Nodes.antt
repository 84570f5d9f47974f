-- ===== src/Engine/Nodes.antt =====
-- What the processing nodes of crates/audio-engine/src/nodes share: a frame of audio, and what they do with
-- floats, which are values of `F`.
pub mod ChannelMap
pub mod Delay
mod Tests
use sonicbrew.Base.{ℕ, ◌≡◌, List, []}

pub record Float (F : Type 0) : Type 0 where
  pub nought : F
  pub one : F
  pub half : F
  pub frac_pi_4 : F
  pub feedback_ceil : F
  pub add : F → F → F
  pub sub : F → F → F
  pub mul : F → F → F
  pub clamp : F → F → F → F
  pub sin : F → F
  pub cos : F → F

-- `AudioFrame` of the `audio_core_bsd` crate: the samples of one channel after those of another.
pub record AudioFrame (F : Type 0) : Type 0 where
  pub channels : ℕ
  pub sample_rate : ℕ
  pub samples : List F
