-- ===== src/Alsa/Params.antt =====
-- The negotiation of hardware parameters in crates/gw-alsa/src/params.rs.
pub mod Policy
use sonicbrew.Base.{
  ℕ, ◌+◌, ◌-◌, ◌*◌, ◌^◌, Bool, true, false, ◌||◌, Option, none, some, List, [], ◌∷◌, ltb, leb, ◌==◌,
  if◌then◌else◌, min, max,
}
use sonicbrew.Alsa.Format.{AlsaFormat, s16_le}

abbrev pub u32_max : ℕ
u32_max = 2 ^ 32 - 1

-- A `RangeInclusive<u32>`: its start and its end.
abbrev pub Range : Type 0
Range = ℕ × ℕ

pub record HwConstraints : Type 0 where
  pub rates : Option (List ℕ)
  pub channels : Option (List ℕ)
  pub formats : Option (List AlsaFormat)
  pub period_size : Option Range
  pub buffer_size : Option Range

pub record HwParams : Type 0 where
  pub sample_rate : ℕ
  pub channels : ℕ
  pub format : AlsaFormat
  pub period_size : ℕ
  pub buffer_size : ℕ

pub data NegotiateError : Type 0 where
  no_rate no_channels no_format no_period buffer_too_small : NegotiateError

pub data Result {ℓ} (A : Type ℓ) : Type ℓ where
  ok : A → Result A
  err : NegotiateError → Result A

infixl 5 ◌>>=◌
abbrev pub ◌>>=◌ : {A B : Type 0} → Result A → (A → Result B) → Result B
ok a >>= f = f a
err e >>= f = err e

unfoldable pub contains : List ℕ → ℕ → Bool
contains [] x = false
contains (y ∷ ys) x = y == x || contains ys x

unfoldable pub minimum : List ℕ → Option ℕ
minimum [] = none
minimum (x ∷ xs) = elim (minimum xs) [ none ↦ some x | some m ↦ some (min x m) ]

abbrev pub or_error : {A : Type 0} → NegotiateError → Option A → Result A
or_error e none = err e
or_error e (some a) = ok a

-- The first preferred value that is allowed, and else the lowest.
abbrev pub prefer : ℕ → ℕ → NegotiateError → List ℕ → Result ℕ
prefer first second e [] = err e
prefer first second e (x ∷ xs) =
    if contains (x ∷ xs) first
    then ok first
    else if contains (x ∷ xs) second
    then ok second
    else or_error e (minimum (x ∷ xs))

abbrev pub allowed_rates : Option (List ℕ) → List ℕ
allowed_rates none = 48000 ∷ 44100 ∷ []
allowed_rates (some rates) = rates

unfoldable pub pick_rate : Option (List ℕ) → Result ℕ
unfolding contains minimum
pick_rate rates = prefer 48000 44100 no_rate (allowed_rates rates)

abbrev pub allowed_channels : Option (List ℕ) → List ℕ
allowed_channels none = 2 ∷ 1 ∷ []
allowed_channels (some channels) = channels

unfoldable pub pick_channels : Option (List ℕ) → Result ℕ
unfolding contains minimum
pick_channels channels = prefer 2 1 no_channels (allowed_channels channels)

abbrev pub allowed_formats : Option (List AlsaFormat) → List AlsaFormat
allowed_formats none = s16_le ∷ []
allowed_formats (some formats) = formats

abbrev pub first_format : List AlsaFormat → Result AlsaFormat
first_format [] = err no_format
first_format (format ∷ formats) = ok format

unfoldable pub pick_format : Option (List AlsaFormat) → Result AlsaFormat
pick_format formats = first_format (allowed_formats formats)

unfoldable pub pick_period : Option Range → Result ℕ
pick_period none = ok 256
pick_period (some (start, end)) = if ltb end start then err no_period else ok start

unfoldable pub pick_buffer : Option Range → ℕ → Result ℕ
pick_buffer none two_period = ok two_period
pick_buffer (some (start, end)) two_period =
    if ltb end two_period then err buffer_too_small else ok (max start two_period)

-- `period.saturating_mul(2)` on `u32`
abbrev pub two_periods : ℕ → ℕ
two_periods period = min (period * 2) u32_max

unfoldable pub negotiate : HwConstraints → Result HwParams
unfolding pick_rate pick_channels pick_format pick_period pick_buffer
negotiate c = do
  sample_rate ← pick_rate c.rates
  channels ← pick_channels c.channels
  format ← pick_format c.formats
  period_size ← pick_period c.period_size
  buffer_size ← pick_buffer c.buffer_size (two_periods period_size)
  ok (record {
    sample_rate = sample_rate;
    channels = channels;
    format = format;
    period_size = period_size;
    buffer_size = buffer_size;
  })
