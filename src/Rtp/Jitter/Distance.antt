-- ===== src/Rtp/Jitter/Distance.antt =====
-- Sequence-number arithmetic of crates/net-rtp-aes67/src/jitter.rs.
use sonicbrew.Base.{ℕ, ◌+◌, ◌^◌, ◌≤◌, ◌<◌, ◌≡◌, ◌≢◌, ◌↔◌, true, arith}
use sonicbrew.Base.Int.{pos, ltb_ℤ}
use sonicbrew.Rtp.Jitter.{gap, forward_distance}

-- Half of the sequence space.
abbrev pub half : ℕ
half = 2 ^ 15

pub gap-lt : (from to : ℕ) → gap from to < 2 ^ 16
gap-lt from to = omega arith

pub gap_self : (s : ℕ) → s < 2 ^ 16 → gap s s ≡ 0
gap_self s h = omega arith

pub gap_pos : (s t : ℕ) → s < 2 ^ 16 → t < 2 ^ 16 → t ≢ s → 0 < gap s t
gap_pos s t hs ht ne = omega arith

-- Behind the baseline, to `push`, is at least half the space ahead.
pub behind_test :
    (base seq : ℕ) → (ltb_ℤ (forward_distance base seq) (pos 0) ≡ true) ↔ (half ≤ gap base seq)
unfolding forward_distance
behind_test base seq = ground arith

-- Ahead, to `skip_gap`.
pub ahead_test :
    (base seq : ℕ)
    → (ltb_ℤ (pos 0) (forward_distance base seq) ≡ true)
      ↔ ((0 < gap base seq) × (gap base seq < half))
unfolding forward_distance
ahead_test base seq = ground arith

pub forward_distance_ahead :
    (base seq : ℕ) → gap base seq < half → forward_distance base seq ≡ pos (gap base seq)
unfolding forward_distance
forward_distance_ahead base seq h = ground arith

-- Moving the baseline forward by at most the distance of `s` shortens that distance by as much.
pub gap_advance :
    (base next s : ℕ)
    → base < 2 ^ 16
    → next < 2 ^ 16
    → s < 2 ^ 16
    → gap base next ≤ gap base s
    → gap next s + gap base next ≡ gap base s
gap_advance base next s hb hn hs h = omega arith

-- The wrap-aware distance is antisymmetric away from the half-window point: exactly one of two
-- different sequence numbers is behind the other.
pub forward_distance_antisym :
    (s t : ℕ)
    → s < 2 ^ 16
    → t < 2 ^ 16
    → s ≢ t
    → gap s t ≢ half
    → (ltb_ℤ (forward_distance s t) (pos 0) ≡ true) ↔ (ltb_ℤ (pos 0) (forward_distance t s) ≡ true)
unfolding forward_distance
forward_distance_antisym s t hs ht ne off = ground arith
