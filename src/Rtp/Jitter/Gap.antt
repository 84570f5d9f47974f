-- ===== src/Rtp/Jitter/Gap.antt =====
-- The search of `skip_gap` in crates/net-rtp-aes67/src/jitter.rs.
use sonicbrew.Base.{
  ℕ, ◌≤◌, ◌<◌, ◌≡◌, ◌⊎◌, inl, true, ◌&&◌, Option, none, some, [], ◌∷◌, if◌then◌else◌, arith,
}
use sonicbrew.Base.Int.{ℤ, pos, ltb_ℤ}
use mathlib.Core.Path.{subst}
use sonicbrew.Base.HashMap
use sonicbrew.Base.HashMap.{HashMap, AllKeys, AllKeys-map}
use sonicbrew.Rtp.Jitter.{gap, forward_distance, improves, closest}
use sonicbrew.Rtp.Jitter.Distance.{half}

-- How far the best candidate so far lies ahead; half the space where there is none.
abbrev pub reach : ℕ → Option (ℕ × ℤ) → ℕ
reach base none = half
reach base (some (s, d)) = gap base s

-- A candidate is ahead, and carries its distance.
abbrev pub IsCandidate : ℕ → Option (ℕ × ℤ) → Type 0
IsCandidate base none = Unit {0}
IsCandidate base (some (s, d)) = (d ≡ pos (gap base s)) × (0 < gap base s) × (gap base s < half)

abbrev pub candidate : ℕ → ℕ → Option (ℕ × ℤ) → Option (ℕ × ℤ)
candidate base seq best =
    let d = forward_distance base seq in
    if ltb_ℤ (pos 0) d && improves d best then some (seq, d) else best

-- One round of the loop keeps a candidate, never moves it away, and does not pass the key by.
candidate_step :
    (base seq : ℕ) (best : Option (ℕ × ℤ))
    → IsCandidate base best
    → IsCandidate base (candidate base seq best)
      × (reach base (candidate base seq best) ≤ reach base best)
      × (0 < gap base seq → reach base (candidate base seq best) ≤ gap base seq)
unfolding forward_distance
candidate_step base seq none c = ground arith
candidate_step base seq (some (s, d)) c = ground arith

module _ {ℓ} {A : Type ℓ} where
  pub closest-IsCandidate :
      (base : ℕ) (best : Option (ℕ × ℤ)) (m : HashMap A)
      → IsCandidate base best
      → IsCandidate base (closest base best m)
  unfolding closest
  closest-IsCandidate base best [] c = c
  closest-IsCandidate base best ((s, v) ∷ m) c =
      closest-IsCandidate base (candidate base s best) m ((candidate_step base s best c).0)

  closest-le :
      (base : ℕ) (best : Option (ℕ × ℤ)) (m : HashMap A)
      → IsCandidate base best
      → reach base (closest base best m) ≤ reach base best
  unfolding closest
  closest-le base best [] c = omega arith
  closest-le base best ((s, v) ∷ m) c =
      let (c', le, _) = candidate_step base s best c in
      omega (arith, closest-le base (candidate base s best) m c', le)

  -- No buffered key that is ahead is nearer than what the loop returns.
  pub closest-nearest :
      (base : ℕ) (best : Option (ℕ × ℤ)) (m : HashMap A)
      → IsCandidate base best
      → AllKeys (λ k. 0 < gap base k → reach base (closest base best m) ≤ gap base k) m
  unfolding closest
  closest-nearest base best [] c = tt
  closest-nearest base best ((s, v) ∷ m) c =
      let (c', _, near) = candidate_step base s best c in
      (
        λ h. omega (arith, closest-le base (candidate base s best) m c', near h),
        closest-nearest base (candidate base s best) m c',
      )

  -- What the loop returns is the candidate that it began with, or the key of an entry.
  pub closest-contains_key :
      (base : ℕ) (best : Option (ℕ × ℤ)) (m : HashMap A) (s : ℕ) (d : ℤ)
      → closest base best m ≡ some (s, d)
      → (best ≡ some (s, d)) ⊎ (HashMap.contains_key s m ≡ true)
  unfolding closest HashMap.contains_key
  closest-contains_key base best [] s d e = inl e
  closest-contains_key base best ((k, v) ∷ m) s d e =
      ground (arith, closest-contains_key base (candidate base k best) m s d e)

  -- Nothing found means that no key is ahead.
  pub closest-none :
      (base : ℕ) (m : HashMap A)
      → closest base none m ≡ none
      → AllKeys (λ k. 0 < gap base k → half ≤ gap base k) m
  closest-none base m e =
      AllKeys-map (λ k. 0 < gap base k → reach base (closest base none m) ≤ gap base k) _ m
        (λ k h _ ahead. subst (λ r. reach base r ≤ gap base k) e (h ahead))
        (closest-nearest base none m tt)
