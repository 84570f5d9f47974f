-- ===== src/Monitor/Window.antt =====
-- The latency window and its statistics in crates/monitor/src/lib.rs.
use sonicbrew.Base.{
  ℕ, ◌+◌, ◌-◌, ◌<◌, ◌≤◌, ◌≡◌, refl, Bool-cases, List, [], ◌∷◌, length, length-append, drop, arith,
  min, leb, leb→le, inl, inr,
}
use sonicbrew.Monitor.{latency_window, LatencyHistogram, record_sample}

-- All samples of a list, recorded one after the other.
abbrev pub record_all : LatencyHistogram → List ℕ → LatencyHistogram
record_all samples [] = samples
record_all samples (v ∷ vs) = record_all (record_sample samples v) vs

length-drop_one : (xs : List ℕ) → length (drop 1 xs) ≡ length xs - 1
length-drop_one [] = refl
length-drop_one (x ∷ xs) = omega arith

length-record_sample :
    (samples : LatencyHistogram) (v : ℕ)
    → length samples ≤ latency_window
    → length (record_sample samples v) ≡ min latency_window (length samples + 1)
unfolding record_sample
length-record_sample samples v h = elim (Bool-cases (leb latency_window (length samples))) [
  | inl full ↦ rw full (
      omega (
        arith,
        length-append (drop 1 samples) (v ∷ []),
        length-drop_one samples,
        leb→le latency_window (length samples) full,
        h,
      ))
  | inr room ↦
      let below : length samples < latency_window = ground (arith, room) in
      rw room (omega (arith, length-append samples (v ∷ []), below))
]

-- After samples are recorded in a window, it holds all of them and all that it held, up to 1024.
pub length-record_all :
    (samples : LatencyHistogram) (vs : List ℕ)
    → length samples ≤ latency_window
    → length (record_all samples vs) ≡ min latency_window (length samples + length vs)
unfolding record_sample
length-record_all samples [] h = omega (arith, h)
length-record_all samples (v ∷ vs) h = omega (
  arith,
  length-record_all (record_sample samples v) vs (omega (arith, length-record_sample samples v h)),
  length-record_sample samples v h,
)
