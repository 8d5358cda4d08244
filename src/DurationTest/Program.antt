-- ===== src/DurationTest/Program.antt =====
-- tools/duration_test.py: `main`, behind the parsing of its arguments.

use Prim.Native.String.{String, ◌++◌}
use serial_testkit.Prelude.{
  ℕ, zero, suc, ◌+◌, ◌-◌, ◌*◌, ◌/◌, Bool, true, false, not, ◌&&◌, List, [], ◌∷◌, ltb, if◌then◌else◌,
}
use serial_testkit.Exec.{
  Result, ok, err, Exec, index_error, pure, lift, call, out_of_fuel, ◌>>=◌, ◌>>◌,
}
use serial_testkit.Remote.Text.{decimal}
use serial_testkit.Remote.Results.{TestResult}
use serial_testkit.Remote.Commands.{Shell, RemoteConfig, LocalConfig}
use serial_testkit.Remote.Helper.{
  FlowControl, no_flow, crtscts, upload_code, verify_connectivity, cleanup_all, run_test_pair,
}
use serial_testkit.DurationTest.{
  determine_error_message, Progress, at_start, cycle, count_test, exit_status,
}
use serial_testkit.DurationTest.Texts.{
  Row, message_text, log_text, row_of, four_digits, config_text, counts_text,
}

-- DURATIONS, in seconds
abbrev pub all_durations : List ℕ
all_durations = 2 ∷ 5 ∷ 10 ∷ 15 ∷ 20 ∷ 30 ∷ 45 ∷ 61 ∷ []

-- START_DELAYS, in milliseconds
abbrev pub all_start_delays : List ℕ
all_start_delays = 0 ∷ 500 ∷ 1000 ∷ 2000 ∷ 3000 ∷ 5000 ∷ []

-- FLOW_CONTROLS
abbrev pub all_flow_controls : List FlowControl
all_flow_controls = no_flow ∷ crtscts ∷ []

-- `items[i]`
unfoldable pub item : {A : Type 0} → List A → ℕ → Result A
item [] i = err index_error
item (a ∷ rest) zero = ok a
item (a ∷ rest) (suc i) = item rest i

-- What the tool uses of the file system, the clock (in nanoseconds) and the module uuid.
pub record Desk (W : Type 0) : Type 0 where
  pub monotonic : W → ℕ × W
  -- `datetime.now()`, as the run's id and as a test's timestamp
  pub run_id : W → String × W
  pub timestamp : W → String × W
  -- `uuid.uuid4().hex[:8]`
  pub unique : W → String × W
  -- `mkdir(exist_ok=True)`
  pub make_dir : String → Exec W (Unit {0})
  -- the CSV file: opened, with its header, and with a row that is flushed
  pub open_csv : String → Exec W (Unit {0})
  pub write_row : String → Row → Exec W (Unit {0})
  -- a file that is opened, written and closed
  pub write_file : String → String → Exec W (Unit {0})
  -- the text of a time in seconds, and of `tests_passed / tests_run * 100`
  pub seconds : ℕ → String
  pub percent : ℕ → ℕ → String

module _ {W : Type 0} (S : Shell W) (D : Desk W) (c : RemoteConfig) (l : LocalConfig) (minutes : ℕ)
    (results_dir : String) where
  abbrev say : String → Exec W (Unit {0})
  say line = call (S.say line)

  abbrev pub csv_path : String → String
  csv_path run_id = results_dir ++ "/results_" ++ run_id ++ ".csv"

  unfoldable pub save_failed_test_logs :
      String → String → String → String → TestResult → TestResult → Exec W (Unit {0})
  save_failed_test_logs test_id timestamp config error local_result remote_result = do
    D.make_dir (results_dir ++ "/logs")
    D.write_file (results_dir ++ "/logs/" ++ test_id ++ "_local.log")
        (log_text test_id timestamp config error local_result)
    D.write_file (results_dir ++ "/logs/" ++ test_id ++ "_remote.log")
        (log_text test_id timestamp config error remote_result)

  -- `if passed: … else: …`, with the error message for the CSV file.
  unfoldable pub report_test : String → String → String → TestResult → TestResult → Exec W String
  report_test test_id timestamp config l r =
      let error = message_text (determine_error_message l r) in
      if l.success && r.success then (do say (counts_text l r); pure "") else (do
        say ("  FAILED: " ++ error)
        save_failed_test_logs test_id timestamp config error l r
        pure error)

  -- Behind the pair of tests: its report, its row, and the next parameters.
  unfoldable pub after_pair :
      String
      → String
      → String
      → ℕ
      → FlowControl
      → ℕ
      → Progress
      → TestResult × TestResult
      → Exec W Progress
  after_pair run_id test_id timestamp duration flow start_delay p (local_result, remote_result) =
      let config = config_text duration (D.seconds start_delay) flow in
      let passed = local_result.success && remote_result.success in
      do
        error ← report_test test_id timestamp config local_result remote_result
        D.write_row (csv_path run_id) (
            row_of test_id timestamp duration (D.seconds start_delay) flow passed error local_result
              remote_result)
        call (S.sleep 2000)
        pure (cycle (count_test p passed))

  -- A test with its parameters.
  unfoldable pub run_test : String → String → ℕ → ℕ → FlowControl → ℕ → Progress → Exec W Progress
  run_test run_id test_id elapsed duration flow start_delay p = do
    say (
        "["
        ++ decimal (elapsed / 60_000_000_000)
        ++ "/"
        ++ decimal minutes
        ++ "m] Test "
        ++ decimal (p.tests_run + 1)
        ++ ": "
        ++ config_text duration (D.seconds start_delay) flow)
    timestamp ← call D.timestamp
    results ← call (run_test_pair S c l duration flow start_delay)
    after_pair run_id test_id timestamp duration flow start_delay p results

  -- A turn of the loop.
  unfoldable pub test_round : String → ℕ → Progress → Exec W Progress
  test_round run_id start p = do
    now ← call D.monotonic
    unique ← call D.unique
    duration ← lift (item all_durations p.duration_idx)
    start_delay ← lift (item all_start_delays p.delay_idx)
    flow ← lift (item all_flow_controls p.flow_idx)
    run_test run_id (run_id ++ "_" ++ four_digits p.tests_run ++ "_" ++ unique) (now - start)
        duration flow start_delay p

  -- `while time.monotonic() < end_time`
  unfoldable pub test_loop : ℕ → String → ℕ → ℕ → Progress → Exec W Progress
  test_loop zero run_id start end_time p = out_of_fuel
  test_loop (suc fuel) run_id start end_time p = do
    now ← call D.monotonic
    if ltb now end_time
        then (do p' ← test_round run_id start p; test_loop fuel run_id start end_time p')
        else pure p

  unfoldable pub say_all : List String → Exec W (Unit {0})
  say_all [] = pure tt
  say_all (line ∷ lines) = do say line; say_all lines

  abbrev rule : String
  rule = "============================================================"

  unfoldable pub say_summary : String → Progress → Exec W (Unit {0})
  say_summary run_id p = do
    say_all (
        ""
        ∷ rule
        ∷ "Duration Testing Complete"
        ∷ rule
        ∷ ("Total tests: " ++ decimal p.tests_run)
        ∷ ("Passed: " ++ decimal p.tests_passed)
        ∷ ("Failed: " ++ decimal p.tests_failed)
        ∷ [])
    if ltb 0 p.tests_run
        then say ("Pass rate: " ++ D.percent p.tests_passed p.tests_run ++ "%")
        else pure tt
    say ("Results saved to: " ++ csv_path run_id)
    if ltb 0 p.tests_failed then say ("Failed test logs: " ++ results_dir ++ "/logs") else pure tt

  unfoldable pub finish_tests : String → Progress → Exec W ℕ
  finish_tests run_id p = do say_summary run_id p; pure (exit_status p)

  -- A round takes a nanosecond at least, so one more than the time in nanoseconds is enough fuel.
  unfoldable pub tests_from : String → ℕ → Exec W ℕ
  tests_from run_id start = do
    D.open_csv (csv_path run_id)
    p ←
        test_loop (minutes * 60_000_000_000 + 1) run_id start (start + minutes * 60_000_000_000)
          at_start
    finish_tests run_id p

  abbrev pub opening : String → List String
  opening run_id =
      ("Starting duration testing for " ++ decimal minutes ++ " minutes")
      ∷ ("Results will be saved to: " ++ csv_path run_id)
      ∷ "Testing flow control modes: ['none', 'crtscts']"
      ∷ ""
      ∷ []

  unfoldable pub run_tests : String → Exec W ℕ
  run_tests run_id = do say_all (opening run_id); start ← call D.monotonic; tests_from run_id start

  -- `if args.upload: …`, and whether the tests go on.
  unfoldable pub upload_first : Bool → Exec W Bool
  upload_first false = pure true
  upload_first true = do
    say "Uploading code to remote..."
    good ← upload_code S c l
    if good
        then (do say "Code uploaded successfully"; pure true)
        else (do say "Failed to upload code"; pure false)

  unfoldable pub duration_main : Bool → Exec W ℕ
  duration_main upload = do
    D.make_dir results_dir
    run_id ← call D.run_id
    say "Verifying remote connectivity..."
    connected ← call (verify_connectivity S c l)
    if not connected then (do say "Failed to connect to remote RPi"; pure 1) else (do
      say "Remote connectivity OK"
      ready ← upload_first upload
      if not ready then pure 1 else (do
        say "Cleaning up existing test processes..."
        cleanup_all S c l
        run_tests run_id))
