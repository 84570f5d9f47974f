-- ===== src/Rtp/Jitter/Invariant.antt =====
-- What every operation of crates/net-rtp-aes67/src/jitter.rs keeps: no more packets than the capacity,
-- no sequence number twice, and none behind the baseline.
use sonicbrew.Base.{
  ℕ, ◌+◌, ◌%◌, ◌^◌, ◌≤◌, ◌<◌, ◌≡◌, refl, inl, inr, ◌≢◌, true, false, Option, none, some, [], ◌∷◌,
  length, arith, Bool-cases, Option-cases, leb,
}
use sonicbrew.Base.Int.{ℤ, pos, ltb_ℤ}
use mathlib.Core.Path.{subst}
use sonicbrew.Base.HashMap
use sonicbrew.Base.HashMap.{
  HashMap, AllKeys, AllKeys-map, Distinct, insert-AllKeys, remove-AllKeys, insert-Distinct,
  remove-Distinct, length-insert_absent, length-remove_present, contains_key_of_get,
}
use sonicbrew.Rtp.Jitter.{JitterBuffer, gap, forward_distance, new, buffer, push, pop, closest}
use sonicbrew.Rtp.Jitter.Distance.{half, behind_test, gap_advance, gap_pos}
use sonicbrew.Rtp.Jitter.Gap.{IsCandidate, closest-IsCandidate, closest-contains_key}

-- A sequence number that the buffer may hold while `base` is the next one to emit.
abbrev pub InWindow : ℕ → ℕ → Type 0
InWindow base k = (k < 2 ^ 16) × (gap base k < half)

after_base :
    (base k : ℕ) → base < 2 ^ 16 → InWindow base k → k ≢ base → InWindow ((base + 1) % 2 ^ 16) k
after_base base k u16 fits ne = (fits.0, omega (arith, gap_pos base k u16 fits.0 ne))

module _ {ℓ} {A : Type ℓ} where
  abbrev pub Window : Option ℕ → HashMap A → Type 0
  Window none m = length m ≡ 0
  Window (some base) m = (base < 2 ^ 16) × AllKeys (InWindow base) m

  pub record IsValid (jb : JitterBuffer A) : Type 0 where
    pub bounded : length jb.buf ≤ jb.capacity
    pub distinct : Distinct jb.buf
    pub window : Window jb.next_seq jb.buf

  pub new-IsValid : (capacity : ℕ) → IsValid (new capacity)
  unfolding new
  new-IsValid capacity = record { bounded = omega arith; distinct = tt; window = refl }

  abbrev pub mk : Option ℕ → HashMap A → ℕ → JitterBuffer A
  mk next m capacity = record { next_seq = next; buf = m; capacity = capacity }

  buffer-IsValid :
      (base : ℕ) (m : HashMap A) (capacity seq : ℕ) (payload : A)
      → InWindow base seq
      → IsValid (mk (some base) m capacity)
      → IsValid (buffer (mk (some base) m capacity) seq payload).1
  unfolding buffer
  buffer-IsValid base m capacity seq payload fits v =
      elim (Bool-cases (HashMap.contains_key seq m)) [
        | inl e ↦ rw e v
        | inr e ↦ rw e (elim (Bool-cases (leb capacity (length m))) [
          | inl full ↦ rw full v
          | inr room ↦ rw room (record {
            bounded = ground (arith, length-insert_absent seq payload m e);
            distinct = insert-Distinct seq payload m v.distinct;
            window = (v.window.0, insert-AllKeys (InWindow base) seq payload m fits v.window.1);
          })
        ])
      ]

  push_at :
      (next : Option ℕ) (m : HashMap A) (capacity seq : ℕ) (payload : A)
      → seq < 2 ^ 16
      → IsValid (mk next m capacity)
      → IsValid (push (mk next m capacity) seq payload).1
  push_at none [] capacity seq payload u16 v =
      unfold push in
      buffer-IsValid seq [] capacity seq payload (u16, omega arith)
        (record { bounded = omega arith; distinct = tt; window = (u16, tt) })
  push_at none (e ∷ m) capacity seq payload u16 v = absurd (omega (arith, v.window))
  push_at (some base) m capacity seq payload u16 v =
      unfold push in
      elim (Bool-cases (ltb_ℤ (forward_distance base seq) (pos 0))) [
        | inl late ↦ rw late v
        | inr ahead ↦ rw ahead (
            buffer-IsValid base m capacity seq payload (u16, ground (arith, behind_test base seq))
              v)
      ]

  -- Pushing any sequence number keeps a buffer valid.
  pub push-IsValid :
      (jb : JitterBuffer A) (seq : ℕ) (payload : A)
      → seq < 2 ^ 16
      → IsValid jb
      → IsValid (push jb seq payload).1
  push-IsValid jb seq payload u16 v = push_at jb.next_seq jb.buf jb.capacity seq payload u16 v

  pop_at :
      (next : Option ℕ) (m : HashMap A) (capacity : ℕ)
      → IsValid (mk next m capacity)
      → IsValid (pop (mk next m capacity)).1
  unfolding pop
  pop_at none m capacity v = v
  pop_at (some base) m capacity v = elim (Option-cases (HashMap.get base m)) [
    | inl missing ↦ rw (missing, pop) v
    | inr (payload, found) ↦
        rw (found, pop)
          (record {
            bounded = omega (
              arith,
              v.bounded,
              length-remove_present base m v.distinct (contains_key_of_get base payload m found),
            );
            distinct = remove-Distinct base m v.distinct;
            window = (
              omega arith,
              remove-AllKeys (InWindow base) _ base m
                  (λ k fits ne. after_base base k v.window.0 fits ne) v.window.1,
            );
          })
  ]

  -- Emitting a packet, or finding none, keeps a buffer valid.
  pub pop-IsValid : (jb : JitterBuffer A) → IsValid jb → IsValid (pop jb).1
  pop-IsValid jb v = pop_at jb.next_seq jb.buf jb.capacity v

  -- The search starts with no candidate, so what it finds is the key of an entry.
  pub found_key :
      (base : ℕ) (m : HashMap A) (s : ℕ) (d : ℤ)
      → closest base none m ≡ some (s, d)
      → (HashMap.contains_key s m ≡ true)
        × (d ≡ pos (gap base s))
        × (0 < gap base s)
        × (gap base s < half)
  found_key base m s d e =
      let (eq, lo, hi) = subst (IsCandidate base) e (closest-IsCandidate base none m tt) in
      (ground (arith, closest-contains_key base none m s d e), eq, lo, hi)

  -- From the nearest key on, every key is still in the window.
  pub rebase :
      (base s : ℕ) (m : HashMap A)
      → base < 2 ^ 16
      → s < 2 ^ 16
      → AllKeys (InWindow base) m
      → AllKeys (λ k. 0 < gap base k → gap base s ≤ gap base k) m
      → HashMap.contains_key base m ≡ false
      → AllKeys (InWindow s) m
  unfolding HashMap.contains_key
  rebase base s [] hb hs fits near absent = tt
  rebase base s ((k, v) ∷ m) hb hs fits near absent =
      let ne : k ≢ base = ground arith in
      let rest : HashMap.contains_key base m ≡ false = ground arith in
      (
        (
          fits.0.0,
          omega
              (arith, near.0 (gap_pos base k hb fits.0.0 ne), gap_advance base s k hb hs fits.0.0),
        ),
        rebase base s m hb hs fits.1 near.1 rest,
      )
