-- ===== src/DurationTest.antt =====
-- tools/duration_test.py: what a test pair counts for, the error message of a failed pair, and the
-- cycle through the parameters.
pub mod Cycle
pub mod Texts
pub mod Program
pub mod Pairs
pub mod Runs
pub mod Ends
pub mod Returns
use serial_testkit.Prelude.{
  ℕ, zero, suc, ◌+◌, ◌%◌, Bool, true, false, not, ◌&&◌, Option, none, some, List, [], ◌∷◌, ltb,
  ◌==◌, if◌then◌else◌, length,
}
use serial_testkit.Remote.Results.{TestResult, completed}

pub data Reason : Type 0 where
  did_not_complete : Reason
  crc_failures : ℕ → ℕ → Reason
  no_messages : Reason

pub data ErrorMessage : Type 0 where
  local_failed : Reason → ErrorMessage
  remote_failed : Reason → ErrorMessage
  unknown_error : ErrorMessage

-- The three tests that both sides go through, if the side was no success.
unfoldable pub reason_of : TestResult → Option Reason
reason_of r =
    if r.success
    then none
    else if not (completed r.output)
    then some did_not_complete
    else if not (r.ok == r.recv)
    then some (crc_failures r.ok r.recv)
    else if r.recv == 0
    then some no_messages
    else none

abbrev pub message_of : Option Reason → Option Reason → ErrorMessage
message_of (some reason) _ = local_failed reason
message_of none (some reason) = remote_failed reason
message_of none none = unknown_error

unfoldable pub determine_error_message : TestResult → TestResult → ErrorMessage
determine_error_message local_result remote_result =
    message_of (reason_of local_result) (reason_of remote_result)

-- The counters and the indices of the parameters.
pub record Progress : Type 0 where
  pub tests_run : ℕ
  pub tests_passed : ℕ
  pub tests_failed : ℕ
  pub duration_idx : ℕ
  pub delay_idx : ℕ
  pub flow_idx : ℕ

abbrev pub at_start : Progress
at_start = record {
  tests_run = 0;
  tests_passed = 0;
  tests_failed = 0;
  duration_idx = 0;
  delay_idx = 0;
  flow_idx = 0;
}

-- The lengths of FLOW_CONTROLS, DURATIONS and START_DELAYS.
abbrev pub flow_controls : ℕ
flow_controls = 2

abbrev pub durations : ℕ
durations = 8

abbrev pub start_delays : ℕ
start_delays = 6

-- `if passed: … else: …`
unfoldable pub count_test : Progress → Bool → Progress
count_test p passed =
    if passed
    then record p { tests_run = p.tests_run + 1; tests_passed = p.tests_passed + 1 }
    else record p { tests_run = p.tests_run + 1; tests_failed = p.tests_failed + 1 }

-- "Cycle through parameters"
unfoldable pub cycle : Progress → Progress
cycle p =
    let flow = (p.flow_idx + 1) % flow_controls in
    let duration = (p.duration_idx + 1) % durations in
    if not (flow == 0)
    then record p { flow_idx = flow }
    else if not (duration == 0)
    then record p { flow_idx = flow; duration_idx = duration }
    else record p {
      flow_idx = flow;
      duration_idx = duration;
      delay_idx = (p.delay_idx + 1) % start_delays;
    }

-- A turn of the loop, on the results of its pair of tests.
unfoldable pub on_results : Progress → TestResult × TestResult → Progress
on_results p (local_result, remote_result) =
    cycle (count_test p (local_result.success && remote_result.success))

-- The loop, on the results of its turns.
unfoldable pub main_loop : Progress → List (TestResult × TestResult) → Progress
main_loop p [] = p
main_loop p (r ∷ rs) = main_loop (on_results p r) rs

-- `0 if tests_failed == 0 else 1`
unfoldable pub exit_status : Progress → ℕ
exit_status p = if p.tests_failed == 0 then 0 else 1
