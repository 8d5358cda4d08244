-- ===== src/Session/Latency.antt =====
-- session/result.py: `compute_latency_stats`. Times are in nanoseconds, where the source has
-- milliseconds. The rank `int(p / 100 * (n - 1))` is exact here; the floating-point product gives
-- the same rank for the percentages 50, 95 and 99 and up to a million samples.
pub mod Sorting
pub mod Order
use serial_testkit.Prelude.{
  ℕ, zero, suc, ◌+◌, ◌-◌, ◌*◌, ◌/◌, Option, none, some, List, [], ◌∷◌, length,
}
use serial_testkit.Exec.{Result, ok, err, index_error}
use serial_testkit.Exec.Fallible.{◌>>=◌}
use serial_testkit.Session.Outcome.{Ratio, SessionResult}
use serial_testkit.Session.Latency.Sorting.{sorted, sum}

pub record LatencyStats : Type 0 where
  pub count : ℕ
  pub min_ns : ℕ
  pub max_ns : ℕ
  pub avg_ns : Ratio
  pub p50_ns : ℕ
  pub p95_ns : ℕ
  pub p99_ns : ℕ

-- `xs[i]`
unfoldable pub index : List ℕ → ℕ → Result ℕ
index [] i = err index_error
index (x ∷ xs) zero = ok x
index (x ∷ xs) (suc i) = index xs i

-- `xs[-1]`
unfoldable pub last : List ℕ → Result ℕ
last [] = err index_error
last (x ∷ []) = ok x
last (x ∷ y ∷ ys) = last (y ∷ ys)

unfoldable pub percentile : List ℕ → ℕ → Result ℕ
percentile sorted_data p = index sorted_data (p * (length sorted_data - 1) / 100)

abbrev pub stats_of : List ℕ → List ℕ → Result (Option LatencyStats)
stats_of rtt_samples samples = do
  least ← index samples 0
  greatest ← last samples
  p50 ← percentile samples 50
  p95 ← percentile samples 95
  p99 ← percentile samples 99
  ok (
      some (record {
        count = length rtt_samples;
        min_ns = least;
        max_ns = greatest;
        avg_ns = record { num = sum samples; den = length rtt_samples };
        p50_ns = p50;
        p95_ns = p95;
        p99_ns = p99;
      }))

unfoldable pub compute_latency_stats : List ℕ → Result (Option LatencyStats)
compute_latency_stats [] = ok none
compute_latency_stats (s ∷ ss) = stats_of (s ∷ ss) (sorted (s ∷ ss))

-- `SessionResult.latency_stats`
abbrev pub latency_stats : SessionResult → Result (Option LatencyStats)
latency_stats r = compute_latency_stats r.rtt_samples
