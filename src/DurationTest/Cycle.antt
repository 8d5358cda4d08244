-- ===== src/DurationTest/Cycle.antt =====
-- tools/duration_test.py: counters, parameters, exit status and messages over a run of tests.
use serial_testkit.Prelude.{
  ℕ, ◌+◌, ◌/◌, ◌%◌, ◌≡◌, ◌≢◌, ◌↔◌, refl, true, false, List, [], ◌∷◌, length, All, arith,
}
use serial_testkit.DurationTest.{
  Reason, did_not_complete, crc_failures, no_messages, ErrorMessage, local_failed, remote_failed,
  unknown_error, reason_of, determine_error_message, Progress, at_start, count_test, cycle,
  on_results, main_loop, exit_status,
}
use serial_testkit.Remote.Results.{ℤ, TestResult, completed, parse_result}
use Prim.Native.String.{String}

abbrev pub IsPass : TestResult × TestResult → Type 0
IsPass (local_result, remote_result) =
    (local_result.success ≡ true) × (remote_result.success ≡ true)

-- Behind `n` tests: every test was counted once, and the parameters are those of test `n` in the
-- order flow control, duration, delay.
pub record IsBehind (n : ℕ) (p : Progress) : Type 0 where
  pub run : p.tests_run ≡ n
  pub judged : p.tests_passed + p.tests_failed ≡ n
  pub flow : p.flow_idx ≡ n % 2
  pub duration : p.duration_idx ≡ n / 2 % 8
  pub delay : p.delay_idx ≡ n / 16 % 6

on_results-IsBehind :
    (n : ℕ) (p : Progress) (r : TestResult × TestResult)
    → IsBehind n p
    → IsBehind (n + 1) (on_results p r)
unfolding on_results cycle count_test
on_results-IsBehind n p (l, r) h = ground (arith, h.flow, h.duration, h.delay)

main_loop_from-IsBehind :
    (n : ℕ) (p : Progress) (rs : List (TestResult × TestResult))
    → IsBehind n p
    → IsBehind (n + length rs) (main_loop p rs)
unfolding main_loop
main_loop_from-IsBehind n p [] h = ground arith
main_loop_from-IsBehind n p (r ∷ rs) h =
    let k = main_loop_from-IsBehind (n + 1) (on_results p r) rs (on_results-IsBehind n p r h) in
    ground arith

-- After a run of tests the tool has counted each of them once, as passed or as failed, and its next
-- parameters are those of its number: the flow control changes with each test, the duration with
-- every second one, the delay with every sixteenth, each of them in a cycle.
pub main_loop-IsBehind :
    (rs : List (TestResult × TestResult)) → IsBehind (length rs) (main_loop at_start rs)
main_loop-IsBehind rs = let k = main_loop_from-IsBehind 0 at_start rs (ground arith) in ground arith

tests_failed-on_results :
    (p : Progress) (l r : TestResult)
    → ((on_results p (l, r)).tests_failed ≡ 0) ↔ ((p.tests_failed ≡ 0) × IsPass (l, r))
unfolding on_results cycle count_test
tests_failed-on_results p l r = (λ e. ground arith, λ e. ground arith)

exit_status-on_results :
    (p : Progress) (rs : List (TestResult × TestResult))
    → (exit_status (main_loop p rs) ≡ 0) ↔ ((p.tests_failed ≡ 0) × All IsPass rs)
unfolding exit_status main_loop
exit_status-on_results p [] = (λ e. ground arith, λ e. ground arith)
exit_status-on_results p ((l, r) ∷ rs) =
    let (to, from) = exit_status-on_results (on_results p (l, r)) rs in
    let (count, back) = tests_failed-on_results p l r in
    (
      λ e. let (z, all) = to e in let (z', pass) = count z in (z', (pass, all)),
      λ (z, (pass, all)). from (back (z, pass), all),
    )

-- The tool exits with 0 exactly if both sides of every test were a success.
pub exit_status-main_loop :
    (rs : List (TestResult × TestResult))
    → (exit_status (main_loop at_start rs) ≡ 0) ↔ All IsPass rs
exit_status-main_loop rs =
    let (to, from) = exit_status-on_results at_start rs in (λ e. (to e).1, λ h. from (refl, h))

-- The condition that a reason names holds of a result.
abbrev pub Holds : TestResult → Reason → Type 0
Holds r did_not_complete = completed r.output ≡ false
Holds r (crc_failures good received) =
    (completed r.output ≡ true) × (good ≡ r.ok) × (received ≡ r.recv) × (good ≢ received)
Holds r no_messages = (completed r.output ≡ true) × (r.ok ≡ 0) × (r.recv ≡ 0)

-- A message names a true reason, of the remote side only if the local side was a success.
abbrev pub Explains : TestResult → TestResult → ErrorMessage → Type 0
Explains l r (local_failed reason) = (l.success ≡ false) × Holds l reason
Explains l r (remote_failed reason) = (l.success ≡ true) × (r.success ≡ false) × Holds r reason
Explains l r unknown_error = (l.success ≡ true) × (r.success ≡ true)

-- On results that were parsed from outputs, the error message names a side that failed and a
-- condition that holds of it, the remote side only if the local one was a success; it is "Unknown
-- error" only if both were.
pub determine_error_message-Explains :
    (output output' : String) (code code' : ℤ)
    → (let l = parse_result output code in
        let r = parse_result output' code' in Explains l r (determine_error_message l r))
unfolding parse_result determine_error_message reason_of
determine_error_message-Explains output output' code code' = ground arith
