-- ===== src/Control/Params.antt =====
-- The parameters of a node and the kind that they belong to. A float is taken as a value of `F`.
use sonicbrew.Base.{ℕ, Option, List, String}

pub data NodeParams (F : Type 0) : Type 0 where
  gain : F → NodeParams F
  mixer : ℕ → List F → NodeParams F
  eq : String → F → F → F → NodeParams F
  compressor : F → F → F → F → F → NodeParams F
  limiter : F → NodeParams F
  meter : NodeParams F
  channel_map : String → Option F → NodeParams F
  delay : F → F → F → F → NodeParams F
  noise_gate : F → F → F → F → NodeParams F
  noise : String → F → ℕ → NodeParams F
  tone : String → F → F → NodeParams F
  reverb : F → F → F → F → NodeParams F
  chorus : F → F → F → F → NodeParams F
  distortion : String → F → F → F → NodeParams F
  flanger : F → F → F → F → F → NodeParams F
  aux_send : F → NodeParams F
  phaser : F → F → F → F → F → ℕ → NodeParams F
  bitcrusher : ℕ → ℕ → NodeParams F
  tremolo : F → F → NodeParams F
  stereo_widener : F → NodeParams F

unfoldable pub kind_name : {F : Type 0} → NodeParams F → String
kind_name (gain _) = "gain"
kind_name (mixer _ _) = "mixer"
kind_name (eq _ _ _ _) = "eq"
kind_name (compressor _ _ _ _ _) = "compressor"
kind_name (limiter _) = "limiter"
kind_name meter = "meter"
kind_name (channel_map _ _) = "channel_map"
kind_name (delay _ _ _ _) = "delay"
kind_name (noise_gate _ _ _ _) = "noise_gate"
kind_name (noise _ _ _) = "noise"
kind_name (tone _ _ _) = "tone"
kind_name (reverb _ _ _ _) = "reverb"
kind_name (chorus _ _ _ _) = "chorus"
kind_name (distortion _ _ _ _) = "distortion"
kind_name (flanger _ _ _ _ _) = "flanger"
kind_name (aux_send _) = "aux_send"
kind_name (phaser _ _ _ _ _ _) = "phaser"
kind_name (bitcrusher _ _) = "bitcrusher"
kind_name (tremolo _ _) = "tremolo"
kind_name (stereo_widener _) = "stereo_widener"
