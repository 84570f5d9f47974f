-- ===== src/Monitor.antt =====
-- The metrics recorder of crates/monitor/src/lib.rs. A lock's section is one step; the atomic counter is
-- modelled by the steps of its compare-and-exchange loop.
pub mod Window
pub mod Xrun
mod Tests
use sonicbrew.Base.{
  String, ℕ, ◌+◌, ◌-◌, ◌/◌, ◌^◌, Bool, not, ◌&&◌, ◌==◌, List, [], ◌∷◌, ◌++◌, length, drop, min, max,
  ltb, leb, if◌then◌else◌,
}

abbrev pub latency_window : ℕ
latency_window = 1024

abbrev pub u64_max : ℕ
u64_max = 2 ^ 64 - 1

-- `LatencyHistogram`: the samples, the oldest first.
abbrev pub LatencyHistogram : Type 0
LatencyHistogram = List ℕ

-- `LatencyHistogram::record`
unfoldable pub record_sample : LatencyHistogram → ℕ → LatencyHistogram
record_sample samples latency_us =
    (if leb latency_window (length samples) then drop 1 samples else samples) ++ latency_us ∷ []

pub record LatencyStats : Type 0 where
  pub least : ℕ
  pub greatest : ℕ
  pub avg : ℕ

-- The loop of `from_samples`: minimum, maximum and sum.
unfoldable pub scan : ℕ → ℕ → ℕ → List ℕ → ℕ × ℕ × ℕ
scan least greatest sum [] = (least, greatest, sum)
scan least greatest sum (v ∷ samples) = scan (min least v) (max greatest v) (sum + v) samples

abbrev stats_of : ℕ → ℕ × ℕ × ℕ → LatencyStats
stats_of count (least, greatest, sum) = record {
  least = least;
  greatest = greatest;
  avg = min (sum / count) u64_max;
}

-- `try_from` of a mean above `u64::MAX` falls back to it.
unfoldable pub from_samples : List ℕ → LatencyStats
unfolding scan
from_samples [] = record { least = 0; greatest = 0; avg = 0 }
from_samples (v ∷ samples) = stats_of (length (v ∷ samples)) (scan u64_max 0 0 (v ∷ samples))

pub record MetricsRecorder : Type 0 where
  pub window : LatencyHistogram
  pub last_p50 : ℕ
  pub last_p99 : ℕ
  pub xrun_total : ℕ
  pub prefix : String

-- `record_latency`
unfoldable pub record_latency : MetricsRecorder → ℕ → ℕ → MetricsRecorder
unfolding record_sample
record_latency m p50_us p99_us = record m {
  window = record_sample (record_sample m.window p50_us) p99_us;
  last_p50 = p50_us;
  last_p99 = p99_us;
}

-- A caller of `record_xrun`: before the load, in the loop with the value it last saw, or returned.
pub data Progress : Type 0 where
  before_load : Progress
  looping : ℕ → Progress
  returned : Progress

pub record Caller : Type 0 where
  pub count : ℕ
  pub progress : Progress

abbrev exchanges : Bool → ℕ → ℕ → Bool
exchanges spurious current total = not spurious && total == current

-- One atomic step of a caller on the counter. `spurious` says that a weak exchange fails although the
-- counter holds the expected value.
unfoldable pub step_caller : Bool → ℕ → Caller → ℕ × Caller
step_caller spurious total caller = elim caller.progress [
  | before_load ↦ (total, record caller { progress = looping total })
  | returned ↦ (total, caller)
  | looping current ↦
      if leb caller.count current
      then (total, record caller { progress = returned })
      else if exchanges spurious current total
      then (caller.count, record caller { progress = returned })
      else (total, record caller { progress = looping total })
]
