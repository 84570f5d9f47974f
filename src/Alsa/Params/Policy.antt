-- ===== src/Alsa/Params/Policy.antt =====
-- What crates/gw-alsa/src/params.rs selects, and when it selects something.
use sonicbrew.Base.{
  ℕ, ◌<◌, ◌≤◌, ◌≡◌, ◌≢◌, refl, sym, ap, true, false, Bool-cases, Option, none, some, Option-cases,
  List, [], ◌∷◌, min, max, arith, inl, inr,
}
use mathlib.Core.Path.{subst}
use sonicbrew.Alsa.Format.{AlsaFormat}
use sonicbrew.Alsa.Params.{
  Range, HwConstraints, HwParams, Result, ok, err, ◌>>=◌, no_rate, no_channels, contains, minimum,
  prefer, NegotiateError, allowed_rates, allowed_channels, allowed_formats, pick_rate,
  pick_channels, pick_format, pick_period, pick_buffer, two_periods, negotiate,
}

contains-minimum : (xs : List ℕ) (m : ℕ) → minimum xs ≡ some m → contains xs m ≡ true
unfolding minimum contains
contains-minimum [] m h = absurd (ground (arith, h))
contains-minimum (x ∷ xs) m h = elim (Option-cases (minimum xs)) [
  | inl e ↦ ground (arith, rw e at h)
  | inr (n, e) ↦ ground (arith, contains-minimum xs n e, rw e at h)
]

minimum-some : (x : ℕ) (xs : List ℕ) → (m : ℕ) × (minimum (x ∷ xs) ≡ some m)
unfolding minimum
minimum-some x xs = elim (Option-cases (minimum xs)) [
  | inl e ↦ (x, rw e refl)
  | inr (n, e) ↦ (min x n, rw e refl)
]

contains-some : (xs : List ℕ) (w : ℕ) → contains xs w ≡ true → (m : ℕ) × (minimum xs ≡ some m)
contains-some [] w h = absurd (unfold contains in ground (arith, h))
contains-some (x ∷ xs) w h = minimum-some x xs

minimum-le : (xs : List ℕ) (m w : ℕ) → minimum xs ≡ some m → contains xs w ≡ true → m ≤ w
unfolding minimum contains
minimum-le [] m w h k = absurd (ground (arith, h))
minimum-le (x ∷ xs) m w h k = elim (Option-cases (minimum xs)) [
  | inl e ↦ elim (Bool-cases (contains xs w)) [
    | inl deep ↦ absurd (let (n, f) = contains-some xs w deep in ground (arith, e, f))
    | inr here ↦ ground (arith, rw e at h, rw here at k)
  ]
  | inr (n, e) ↦ elim (Bool-cases (contains xs w)) [
    | inl deep ↦ ground (arith, minimum-le xs n w e deep, rw e at h)
    | inr here ↦ ground (arith, rw e at h, rw here at k)
  ]
]

-- The choice among allowed values is one of them, the first preference where that is allowed, else the
-- second where that is, and there is one unless nothing is allowed.
prefer-contains :
    (first second : ℕ) (e : NegotiateError) (xs : List ℕ) (v : ℕ)
    → prefer first second e xs ≡ ok v
    → (contains xs v ≡ true)
      × (contains xs first ≡ true → v ≡ first)
      × (contains xs first ≡ false → contains xs second ≡ true → v ≡ second)
      × (contains xs first ≡ false
          → contains xs second ≡ false
          → (w : ℕ) → contains xs w ≡ true
          → v ≤ w)
prefer-contains first second e [] v h = absurd (ground (arith, h))
prefer-contains first second e (x ∷ xs) v h = elim (Bool-cases (contains (x ∷ xs) first)) [
  | inl a ↦
      let same : first ≡ v = ground (arith, rw a at h) in
      (
        subst (λ w. contains (x ∷ xs) w ≡ true) same a,
        (λ _. sym same),
        (λ n _. absurd (ground (arith, a, n))),
        (λ n _ w _. absurd (ground (arith, a, n))),
      )
  | inr a ↦ elim (Bool-cases (contains (x ∷ xs) second)) [
    | inl b ↦
        let same : second ≡ v = ground (arith, rw (a, b) at h) in
        (
          subst (λ w. contains (x ∷ xs) w ≡ true) same b,
          (λ y. absurd (ground (arith, a, y))),
          (λ _ _. sym same),
          (λ _ n w _. absurd (ground (arith, b, n))),
        )
    | inr b ↦
        let (m, low) = minimum-some x xs in
        let same : m ≡ v = ground (arith, rw (a, b, low) at h) in
        (
          subst (λ w. contains (x ∷ xs) w ≡ true) same (contains-minimum (x ∷ xs) m low),
          (λ y. absurd (ground (arith, a, y))),
          (λ _ y. absurd (ground (arith, b, y))),
          (λ _ _ w k. subst (λ u. u ≤ w) same (minimum-le (x ∷ xs) m w low k)),
        )
  ]
]

ok-injective : {A : Type 0} {a b : A} → ok a ≡ ok b → a ≡ b
ok-injective {a = a} h = ap (λ r. elim r [ ok x ↦ x | err e ↦ a ]) h

bind-ok :
    {A B : Type 0} (m : Result A) (f : A → Result B) (b : B)
    → (m >>= f) ≡ ok b
    → (a : A) × (m ≡ ok a) × (f a ≡ ok b)
bind-ok (ok a) f b h = (a, refl, h)
bind-ok (err e) f b h = absurd (ground (arith, h))

abbrev pub period_start : Option Range → ℕ
period_start none = 256
period_start (some (start, end)) = start

abbrev pub BufferIn : Option Range → ℕ → ℕ → Type 0
BufferIn none two_period size = size ≡ two_period
BufferIn (some (start, end)) two_period size = size ≡ max start two_period × two_period ≤ end

abbrev pub IsFirst : List AlsaFormat → AlsaFormat → Type 0
IsFirst formats f = (rest : List AlsaFormat) × (formats ≡ f ∷ rest)

pick_format-IsFirst :
    (r : Option (List AlsaFormat)) (f : AlsaFormat)
    → pick_format r ≡ ok f
    → IsFirst (allowed_formats r) f
unfolding pick_format
pick_format-IsFirst none f h = ([], ap (λ g. g ∷ []) (ok-injective h))
pick_format-IsFirst (some []) f h = absurd (ground (arith, h))
pick_format-IsFirst (some (g ∷ gs)) f h = (gs, ap (λ k. k ∷ gs) (ok-injective h))

-- The table at the head of the source file, row by row.
pub record IsPolicy (c : HwConstraints) (p : HwParams) : Type 0 where
  pub rate : contains (allowed_rates c.rates) p.sample_rate ≡ true
  pub rate_48000 : contains (allowed_rates c.rates) 48000 ≡ true → p.sample_rate ≡ 48000
  pub rate_44100 :
      contains (allowed_rates c.rates) 48000 ≡ false
      → contains (allowed_rates c.rates) 44100 ≡ true
      → p.sample_rate ≡ 44100
  pub rate_lowest :
      contains (allowed_rates c.rates) 48000 ≡ false
      → contains (allowed_rates c.rates) 44100 ≡ false
      → (w : ℕ) → contains (allowed_rates c.rates) w ≡ true
      → p.sample_rate ≤ w
  pub channels : contains (allowed_channels c.channels) p.channels ≡ true
  pub stereo : contains (allowed_channels c.channels) 2 ≡ true → p.channels ≡ 2
  pub mono :
      contains (allowed_channels c.channels) 2 ≡ false
      → contains (allowed_channels c.channels) 1 ≡ true
      → p.channels ≡ 1
  pub channels_lowest :
      contains (allowed_channels c.channels) 2 ≡ false
      → contains (allowed_channels c.channels) 1 ≡ false
      → (w : ℕ) → contains (allowed_channels c.channels) w ≡ true
      → p.channels ≤ w
  pub format : IsFirst (allowed_formats c.formats) p.format
  pub period : p.period_size ≡ period_start c.period_size
  pub buffer : BufferIn c.buffer_size (two_periods p.period_size) p.buffer_size

pick_period-start : (r : Option Range) (v : ℕ) → pick_period r ≡ ok v → v ≡ period_start r
unfolding pick_period
pick_period-start none v h = ground (arith, h)
pick_period-start (some (start, end)) v h = ground (arith, h)

pick_buffer-BufferIn : (r : Option Range) (two v : ℕ) → pick_buffer r two ≡ ok v → BufferIn r two v
unfolding pick_buffer
pick_buffer-BufferIn none two v h = ground (arith, h)
pick_buffer-BufferIn (some (start, end)) two v h = (ground (arith, h), ground (arith, h))

pub negotiate-IsPolicy : (c : HwConstraints) (p : HwParams) → negotiate c ≡ ok p → IsPolicy c p
unfolding negotiate pick_rate pick_channels
negotiate-IsPolicy c p h =
    let (rate, h₁, k₁) = bind-ok (pick_rate c.rates) _ p h in
    let (channels, h₂, k₂) = bind-ok (pick_channels c.channels) _ p k₁ in
    let (format, h₃, k₃) = bind-ok (pick_format c.formats) _ p k₂ in
    let (period, h₄, k₄) = bind-ok (pick_period c.period_size) _ p k₃ in
    let (buffer, h₅, k₅) = bind-ok (pick_buffer c.buffer_size (two_periods period)) _ p k₄ in
    let made = prefer-contains 48000 44100 no_rate (allowed_rates c.rates) rate h₁ in
    let heard = prefer-contains 2 1 no_channels (allowed_channels c.channels) channels h₂ in
    subst (IsPolicy c) (ok-injective k₅) (record {
      rate = made.0;
      rate_48000 = made.1;
      rate_44100 = made.2;
      rate_lowest = made.3;
      channels = heard.0;
      stereo = heard.1;
      mono = heard.2;
      channels_lowest = heard.3;
      format = pick_format-IsFirst c.formats format h₃;
      period = pick_period-start c.period_size period h₄;
      buffer = pick_buffer-BufferIn c.buffer_size (two_periods period) buffer h₅;
    })

-- The range's end holds two periods.
abbrev pub IsPossible : Option Range → ℕ → Type 0
IsPossible none two_period = Unit {0}
IsPossible (some (start, end)) two_period = two_period ≤ end

abbrev pub IsOrdered : Option Range → Type 0
IsOrdered none = Unit {0}
IsOrdered (some (start, end)) = start ≤ end

-- The lists allow something, the range of periods is not inverted, and the buffer's end holds two of the
-- periods that the table selects.
pub record HasChoice (c : HwConstraints) : Type 0 where
  pub rates : allowed_rates c.rates ≢ []
  pub channels : allowed_channels c.channels ≢ []
  pub formats : allowed_formats c.formats ≢ []
  pub period : IsOrdered c.period_size
  pub buffer : IsPossible c.buffer_size (two_periods (period_start c.period_size))

prefer-ok :
    (first second : ℕ) (e : NegotiateError) (xs : List ℕ)
    → xs ≢ []
    → (v : ℕ) × (prefer first second e xs ≡ ok v)
prefer-ok first second e [] some_value = absurd (some_value refl)
prefer-ok first second e (x ∷ xs) some_value = elim (Bool-cases (contains (x ∷ xs) first)) [
  | inl a ↦ (first, rw a refl)
  | inr a ↦ elim (Bool-cases (contains (x ∷ xs) second)) [
    | inl b ↦ (second, rw (a, b) refl)
    | inr b ↦ let (m, low) = minimum-some x xs in (m, rw (a, b, low) refl)
  ]
]

pick_format-ok :
    (r : Option (List AlsaFormat))
    → allowed_formats r ≢ []
    → (f : AlsaFormat) × (pick_format r ≡ ok f)
unfolding pick_format
pick_format-ok none h = (_, refl)
pick_format-ok (some []) h = absurd (h refl)
pick_format-ok (some (f ∷ fs)) h = (f, refl)

pick_period-ok : (r : Option Range) → IsOrdered r → pick_period r ≡ ok (period_start r)
unfolding pick_period
pick_period-ok none h = refl
pick_period-ok (some (start, end)) h = ground (arith, h)

pick_buffer-ok :
    (r : Option Range) (two : ℕ) → IsPossible r two → (v : ℕ) × (pick_buffer r two ≡ ok v)
unfolding pick_buffer
pick_buffer-ok none two h = (two, refl)
pick_buffer-ok (some (start, end)) two h = (max start two, ground (arith, h))

pub negotiate-HasChoice : (c : HwConstraints) → HasChoice c → (p : HwParams) × (negotiate c ≡ ok p)
unfolding negotiate pick_rate pick_channels
negotiate-HasChoice c h =
    let (rate, h₁) = prefer-ok 48000 44100 no_rate (allowed_rates c.rates) h.rates in
    let (channels, h₂) = prefer-ok 2 1 no_channels (allowed_channels c.channels) h.channels in
    let (format, h₃) = pick_format-ok c.formats h.formats in
    let (buffer, h₅) =
      pick_buffer-ok c.buffer_size (two_periods (period_start c.period_size)) h.buffer in
    (
      record {
        sample_rate = rate;
        channels = channels;
        format = format;
        period_size = period_start c.period_size;
        buffer_size = buffer;
      },
      rw (h₁, h₂, h₃, pick_period-ok c.period_size h.period, h₅) refl,
    )

-- A range of buffer sizes whose start lies above its end is not refused when its end holds two periods
-- and the other constraints leave a choice: the negotiation returns parameters, and their buffer is
-- larger than the range's end.
pub negotiate-inverted :
    (c : HwConstraints) (start end : ℕ)
    → HasChoice c
    → c.buffer_size ≡ some (start, end)
    → end < start
    → (p : HwParams) × (negotiate c ≡ ok p) × (end < p.buffer_size)
negotiate-inverted c start end choice range inverted =
    let (p, h) = negotiate-HasChoice c choice in
    let buffer = rw range at (negotiate-IsPolicy c p h).buffer in
    let chosen : p.buffer_size ≡ max start (two_periods p.period_size) = buffer.0 in
    (p, h, omega (arith, chosen, inverted))
