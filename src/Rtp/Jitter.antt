-- ===== src/Rtp/Jitter.antt =====
-- The receive-side reorder buffer, crates/net-rtp-aes67/src/jitter.rs.
pub mod Distance
pub mod Gap
pub mod Invariant
pub mod Skip
pub mod Order
use sonicbrew.Base.{
  ℕ, ◌+◌, ◌-◌, ◌%◌, ◌^◌, Bool, true, false, ◌&&◌, Option, none, some, List, [], ◌∷◌, length, leb,
  if◌then◌else◌,
}
use sonicbrew.Base.Int.{ℤ, pos, negsuc, ltb_ℤ, signed16}
use sonicbrew.Base.HashMap
use sonicbrew.Base.HashMap.{HashMap}

-- `to.wrapping_sub(from)` on `u16`.
abbrev pub gap : ℕ → ℕ → ℕ
gap from to = (to + 2 ^ 16 - from) % 2 ^ 16

-- The same word read as an `i16`.
unfoldable pub forward_distance : ℕ → ℕ → ℤ
forward_distance from to = signed16 (gap from to)

pub data PushOutcome {ℓ} (A : Type ℓ) : Type ℓ where
  accepted : PushOutcome A
  duplicate : PushOutcome A
  rejected : A → PushOutcome A

pub record JitterBuffer {ℓ} (A : Type ℓ) : Type ℓ where
  pub next_seq : Option ℕ
  pub buf : HashMap A
  pub capacity : ℕ

-- `best.is_none_or(|(_, bd)| d < bd)`
abbrev pub improves : ℤ → Option (ℕ × ℤ) → Bool
improves d none = true
improves d (some (s, bd)) = ltb_ℤ d bd

-- `usize::try_from(d).unwrap_or(0)`
abbrev pub count_of : ℤ → ℕ
count_of (pos n) = n
count_of (negsuc n) = 0

module _ {ℓ} {A : Type ℓ} where
  unfoldable pub new : ℕ → JitterBuffer A
  new capacity = record { next_seq = none; buf = []; capacity = capacity }

  unfoldable pub len : JitterBuffer A → ℕ
  len jb = length jb.buf

  unfoldable pub is_empty : JitterBuffer A → Bool
  is_empty jb = elim jb.buf [ [] ↦ true | e ∷ rest ↦ false ]

  -- The end of `push`, behind the test of the baseline.
  unfoldable pub buffer : JitterBuffer A → ℕ → A → PushOutcome A × JitterBuffer A
  buffer jb seq payload =
      if HashMap.contains_key seq jb.buf
      then (duplicate, jb)
      else if leb jb.capacity (length jb.buf)
      then (rejected payload, jb)
      else (accepted, record jb { buf = HashMap.insert seq payload jb.buf })

  unfoldable pub push : JitterBuffer A → ℕ → A → PushOutcome A × JitterBuffer A
  unfolding buffer
  push jb seq payload = elim jb.next_seq [
    | none ↦ buffer (record jb { next_seq = some seq }) seq payload
    | some base ↦
        if ltb_ℤ (forward_distance base seq) (pos 0) then (duplicate, jb) else buffer jb seq payload
  ]

  unfoldable pub pop : JitterBuffer A → Option (ℕ × A) × JitterBuffer A
  pop jb = elim jb.next_seq [
    | none ↦ (none, jb)
    | some next ↦ elim (HashMap.get next jb.buf) [
      | none ↦ (none, jb)
      | some val ↦ (
        some (next, val),
        record jb { next_seq = some ((next + 1) % 2 ^ 16); buf = HashMap.remove next jb.buf },
      )
    ]
  ]

  -- The loop over the keys in `skip_gap`.
  unfoldable pub closest : ℕ → Option (ℕ × ℤ) → HashMap A → Option (ℕ × ℤ)
  closest base best [] = best
  closest base best ((seq, payload) ∷ rest) =
      let d = forward_distance base seq in
      closest base (if ltb_ℤ (pos 0) d && improves d best then some (seq, d) else best) rest

  unfoldable pub skip_gap : JitterBuffer A → ℕ × JitterBuffer A
  skip_gap jb = elim jb.next_seq [
    | none ↦ (0, jb)
    | some base ↦
        if HashMap.contains_key base jb.buf then (0, jb) else elim (closest base none jb.buf) [
          | none ↦ (0, jb)
          | some (seq, d) ↦ (count_of d, record jb { next_seq = some seq })
        ]
  ]
