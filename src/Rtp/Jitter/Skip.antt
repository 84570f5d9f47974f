-- ===== src/Rtp/Jitter/Skip.antt =====
-- `skip_gap` of crates/net-rtp-aes67/src/jitter.rs: it keeps a buffer valid, and a waiting buffer
-- goes on.
use sonicbrew.Base.{
  ℕ, ◌^◌, ◌≤◌, ◌<◌, ◌≡◌, refl, inl, inr, true, false, Option, none, some, [], ◌∷◌, length, arith,
  Bool-cases, Option-cases,
}
use mathlib.Core.Path.{subst}
use sonicbrew.Base.Int.{ℤ}
use sonicbrew.Base.HashMap
use sonicbrew.Base.HashMap.{HashMap, AllKeys, AllKeys_at, get_of_contains_key}
use sonicbrew.Rtp.Jitter.{JitterBuffer, gap, pop, closest, skip_gap}
use sonicbrew.Rtp.Jitter.Distance.{half, gap_pos}
use sonicbrew.Rtp.Jitter.Gap.{reach, closest-nearest, closest-none}
use sonicbrew.Rtp.Jitter.Invariant.{IsValid, InWindow, Window, mk, found_key, rebase}

module _ {ℓ} {A : Type ℓ} where
  -- In the window and away from the baseline every key is ahead.
  pub none_left :
      (base : ℕ) (m : HashMap A)
      → base < 2 ^ 16
      → AllKeys (InWindow base) m
      → HashMap.contains_key base m ≡ false
      → closest base none m ≡ none
      → length m ≡ 0
  unfolding HashMap.contains_key
  none_left base [] hb fits absent e = refl
  none_left base ((k, v) ∷ m) hb fits absent e = absurd (
      omega (
        arith,
        (closest-none base ((k, v) ∷ m) e).0 (gap_pos base k hb fits.0.0 (ground arith)),
        fits.0.1,
      ))

  -- What `skip_gap` does to a valid buffer whose next packet is missing.
  pub record Skips (base : ℕ) (m : HashMap A) (s : ℕ) : Type 0 where
    pub buffered : HashMap.contains_key s m ≡ true
    pub ahead : 0 < gap base s
    pub near : gap base s < half
    pub nearest : AllKeys (λ k. 0 < gap base k → gap base s ≤ gap base k) m
    pub window : Window (some s) m

  pub Skips-found :
      (base : ℕ) (m : HashMap A) (s : ℕ) (d : ℤ)
      → Window (some base) m
      → HashMap.contains_key base m ≡ false
      → closest base none m ≡ some (s, d)
      → Skips base m s
  Skips-found base m s d (hb, fits) absent e =
      let (inside, eq, lo, hi) = found_key base m s d e in
      let hs : s < 2 ^ 16 = (AllKeys_at (InWindow base) s m inside fits).0 in
      let near : AllKeys (λ k. 0 < gap base k → gap base s ≤ gap base k) m =
        subst (λ r. AllKeys (λ k. 0 < gap base k → reach base r ≤ gap base k) m) e
          (closest-nearest base none m tt) in
      record {
        buffered = inside;
        ahead = lo;
        near = hi;
        nearest = near;
        window = (hs, rebase base s m hb hs fits near absent);
      }

  skip_at :
      (next : Option ℕ) (m : HashMap A) (capacity : ℕ)
      → IsValid (mk next m capacity)
      → IsValid (skip_gap (mk next m capacity)).1
  unfolding skip_gap
  skip_at none m capacity v = v
  skip_at (some base) m capacity v = elim (Bool-cases (HashMap.contains_key base m)) [
    | inl present ↦ rw (present, skip_gap) v
    | inr absent ↦ elim (Option-cases (closest base none m)) [
      | inl e ↦ rw (absent, e, skip_gap) v
      | inr ((s, d), e) ↦
          rw (absent, e, skip_gap)
            (record {
              bounded = v.bounded;
              distinct = v.distinct;
              window = (Skips-found base m s d v.window absent e).window;
            })
    ]
  ]

  -- Declaring a gap lost, or finding none, keeps a buffer valid.
  pub skip_gap-IsValid : (jb : JitterBuffer A) → IsValid jb → IsValid (skip_gap jb).1
  skip_gap-IsValid jb v = skip_at jb.next_seq jb.buf jb.capacity v

  pub pop_present :
      (base : ℕ) (m : HashMap A) (capacity : ℕ)
      → HashMap.contains_key base m ≡ true
      → (a : A) × ((pop (mk (some base) m capacity)).0 ≡ some (base, a))
  pop_present base m capacity h =
      let (a, e) = get_of_contains_key base m h in (a, unfold pop in rw (e, pop))

  progress_at :
      (next : Option ℕ) (m : HashMap A) (capacity : ℕ)
      → IsValid (mk next m capacity)
      → 0 < length m
      → (p : ℕ × A) × ((pop (skip_gap (mk next m capacity)).1).0 ≡ some p)
  unfolding skip_gap
  progress_at none m capacity v h = absurd (omega (arith, v.window))
  progress_at (some base) m capacity v h = elim (Bool-cases (HashMap.contains_key base m)) [
    | inl present ↦
        let (a, e) = pop_present base m capacity present in ((base, a), rw (present, skip_gap) e)
    | inr absent ↦ elim (Option-cases (closest base none m)) [
      | inl e ↦ absurd (omega (arith, none_left base m v.window.0 v.window.1 absent e))
      | inr ((s, d), e) ↦
          let (a, e') =
            pop_present s m capacity (Skips-found base m s d v.window absent e).buffered in
          ((s, a), rw (absent, e, skip_gap) e')
    ]
  ]

  -- A valid buffer that holds a packet emits one after `skip_gap`: a loss never blocks it for good.
  pub pop-skip_gap :
      (jb : JitterBuffer A)
      → IsValid jb
      → 0 < length jb.buf
      → (p : ℕ × A) × ((pop (skip_gap jb).1).0 ≡ some p)
  pop-skip_gap jb v h = progress_at jb.next_seq jb.buf jb.capacity v h
