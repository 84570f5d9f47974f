-- ===== src/Alsa/Tests.antt =====
-- The properties of crates/gw-alsa at concrete inputs.
use sonicbrew.Base.{◌<◌, ◌≡◌, refl, none, some, [], ◌∷◌, arith}
use sonicbrew.Alsa.Format.{s24_le}
use sonicbrew.Alsa.Params.{
  HwConstraints, HwParams, negotiate, ok, pick_rate, pick_channels, pick_format, pick_period,
  pick_buffer, contains, minimum,
}
use sonicbrew.Alsa.Params.Policy.{HasChoice, negotiate-inverted}

abbrev asked : HwConstraints
asked = record {
  rates = some (96000 ∷ 44100 ∷ 22050 ∷ []);
  channels = none;
  formats = some (s24_le ∷ []);
  period_size = some (128, 1024);
  buffer_size = some (64, 512);
}

abbrev given : HwParams
given = record {
  sample_rate = 44100;
  channels = 2;
  format = s24_le;
  period_size = 128;
  buffer_size = 256;
}

-- The range 5000..=1000 gives 5000.
abbrev inverted : HwConstraints
inverted = record asked { buffer_size = some (5000, 1000) }

inverted_negotiated : negotiate inverted ≡ ok (record given { buffer_size = 5000 })
unfolding negotiate pick_rate pick_channels pick_format pick_period pick_buffer contains minimum
inverted_negotiated = refl

inverted-HasChoice : HasChoice inverted
inverted-HasChoice = record {
  rates = λ h. ground (arith, h);
  channels = λ h. ground (arith, h);
  formats = λ h. ground (arith, h);
  period = omega arith;
  buffer = omega arith;
}

negotiate-inverted_example : (p : HwParams) × (negotiate inverted ≡ ok p) × (1000 < p.buffer_size)
negotiate-inverted_example =
    negotiate-inverted inverted 5000 1000 inverted-HasChoice refl (omega arith)
