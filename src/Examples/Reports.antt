-- ===== src/Examples/Reports.antt =====
-- Latency statistics, exit codes and the duration test on concrete data.

use Prim.Native.String.{String}
use serial_testkit.Prelude.{◌≡◌, refl, true, false, some, [], ◌∷◌, List}
use serial_testkit.Exec.{ok}
use serial_testkit.Session.Latency.{LatencyStats, index, last, percentile, compute_latency_stats}
use serial_testkit.Session.Latency.Sorting.{sorted, insert, sum}
use serial_testkit.Session.Latency.Order.{IsSummary, compute_latency_stats-IsSummary}
use serial_testkit.Remote.Results.{
  TestResult, pos, initiator, parse_result, stats_of, search_stats, stats_at, role_of, completed,
}
use serial_testkit.Remote.Text.{
  codes, is_prefix, is_in, lower, digits, number, skip_spaces, spaces, fixed,
}
use serial_testkit.DurationTest.{at_start, main_loop, determine_error_message}
use serial_testkit.DurationTest.Cycle.{
  IsBehind, Explains, main_loop-IsBehind, determine_error_message-Explains,
}

compute_latency_stats-IsSummary_example :
    (st : LatencyStats) × (compute_latency_stats (7 ∷ 3 ∷ 5 ∷ []) ≡ ok (some st))
    × IsSummary (7 ∷ 3 ∷ 5 ∷ []) st
compute_latency_stats-IsSummary_example = compute_latency_stats-IsSummary 7 (3 ∷ 5 ∷ [])

-- The 95th percentile of three samples is the middle one.
p95_of_three :
    compute_latency_stats (7 ∷ 3 ∷ 5 ∷ [])
    ≡ ok (
        some (record {
          count = 3;
          min_ns = 3;
          max_ns = 7;
          avg_ns = record { num = 15; den = 3 };
          p50_ns = 5;
          p95_ns = 5;
          p99_ns = 5;
        }))
unfolding compute_latency_stats percentile index last sorted insert sum
p95_of_three = refl

abbrev good_output : String
good_output = "initiator: sent=9 recv=9 ok=9\nTest completed successfully"

abbrev bad_output : String
bad_output = "initiator: sent=9 recv=9 ok=8\nTest completed successfully"

abbrev pass : TestResult
pass = record {
  output = good_output;
  returncode = pos 0;
  sent = 9;
  recv = 9;
  ok = 9;
  role = initiator;
  success = true;
}

abbrev fail : TestResult
fail = record pass { output = bad_output; ok = 8; success = false }

-- The second output is read as it is written.
parsed : parse_result bad_output (pos 0) ≡ fail
unfolding parse_result stats_of search_stats stats_at role_of completed codes is_prefix is_in lower
    digits number skip_spaces spaces fixed
parsed = refl

abbrev runs : List (TestResult × TestResult)
runs = (pass, pass) ∷ (pass, fail) ∷ (pass, pass) ∷ []

main_loop-IsBehind_example : IsBehind 3 (main_loop at_start runs)
main_loop-IsBehind_example = main_loop-IsBehind runs

determine_error_message-Explains_example :
    Explains
      (parse_result good_output (pos 0))
      (parse_result bad_output (pos 0))
      (determine_error_message (parse_result good_output (pos 0)) (parse_result bad_output (pos 0)))
determine_error_message-Explains_example =
    determine_error_message-Explains good_output bad_output (pos 0) (pos 0)
