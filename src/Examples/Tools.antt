-- ===== src/Examples/Tools.antt =====
-- The tools and the reports on a machine whose commands all succeed. Its world is the clock.

use Prim.Native.String.{String}
use serial_testkit.Prelude.{
  ℕ, ◌+◌, ◌≡◌, ◌↔◌, ◌⊎◌, refl, Bool, true, false, none, some, List, [], ◌∷◌, arith,
}
use serial_testkit.Exec.{ok, err, value_error, pure}
use serial_testkit.Exec.Ends.{Ends}
use serial_testkit.Device.{Os, basename, sysfs_path, configure_ftdi_latency_timer}
use serial_testkit.Device.Timer.{HasFile, applies, Settles, configure_ftdi_latency_timer-Settles}
use serial_testkit.Exec.Does.{Does}
use serial_testkit.Remote.Text.{
  codes, is_prefix, is_in, lower, digits, number, skip_spaces, spaces, fixed,
}
use serial_testkit.Remote.Results.{
  TestResult, pos, initiator, is_zero, stats_of, search_stats, stats_at, role_of, completed,
  parse_result,
}
use serial_testkit.Remote.Commands.{Shell, RemoteConfig, LocalConfig, finished, captured, ssh_cmd}
use serial_testkit.Remote.Helper.{
  no_flow, local_result, run_local_test, run_test_pair, upload_code, verify_connectivity,
  cleanup_all, kill_remote_tests, kill_local_tests,
}
use serial_testkit.Remote.Uploads.{all_fine, upload_jobs, HasFiles, upload_code-all_fine}
use serial_testkit.Remote.Program.{remote_main, test}
use serial_testkit.Remote.Verdicts.{Passed, JoinedWell, remote_main-test}
use serial_testkit.DurationTest.{on_results, count_test, cycle, exit_status}
use serial_testkit.DurationTest.Program.{
  Desk, item, report_test, after_pair, run_test, test_round, test_loop, say_all, say_summary,
  finish_tests, tests_from, run_tests, upload_first, duration_main,
}
use serial_testkit.DurationTest.Runs.{Exits, duration_main-exit}
use serial_testkit.DurationTest.Ends.{ShellTime}
use serial_testkit.DurationTest.Returns.{DeskTime, duration_main-Ends}
use serial_testkit.Session.Outcome.{SessionResult, no_stats}
use serial_testkit.Reporting.{
  Formats, PeeringReport, make_peering_report, peering_lines, make_peering_report-prints,
}

abbrev good_output : String
good_output = "OK initiator: sent=9 recv=9 ok=9\nTest completed successfully"

abbrev joined : TestResult
joined = record {
  output = good_output;
  returncode = pos 0;
  sent = 9;
  recv = 9;
  ok = 9;
  role = initiator;
  success = true;
}

abbrev shell : Shell ℕ
shell = record {
  run = λ args timeout w. (finished good_output "" (pos 0), w);
  glob_py = λ dir w. ("/kit/a.py" ∷ [], w);
  exists = λ path w. (true, w);
  make_dir = λ dir w. (ok tt, w);
  say = λ line w. (tt, w);
  sleep = λ n w. (tt, w + 60_000_000_000);
  start = λ f w. (tt, w);
  join = λ t w. (some joined, w);
  strip = λ s. s;
  lines = λ s. s ∷ [];
  is_port = λ s. false;
}

abbrev desk : Desk ℕ
desk = record {
  monotonic = λ w. (w, w);
  run_id = λ w. ("run", w);
  timestamp = λ w. ("now", w);
  unique = λ w. ("0", w);
  make_dir = λ dir w. (ok tt, w);
  open_csv = λ path w. (ok tt, w);
  write_row = λ path row w. (ok tt, w);
  write_file = λ path text w. (ok tt, w);
  seconds = λ n. "0";
  percent = λ a b. "100.0";
}

abbrev remote : RemoteConfig
remote = record {
  host = "rpi";
  user = "pi";
  password = "secret";
  device = "/dev/ttyAMA4";
  path = "~/kit";
}

abbrev here : LocalConfig
here = record { device = "/dev/ttyUSB0"; script_dir = "/kit" }

abbrev there : String → Bool
there path = true

shell-HasFiles : HasFiles shell "/kit" ("/kit/a.py" ∷ []) there
shell-HasFiles = record { globs = λ w. refl; tells = λ path w. refl }

upload_code-all_fine_example :
    (upload_code shell remote here 0).0
    ≡ ok (all_fine shell (upload_jobs remote here ("/kit/a.py" ∷ []) there) 0)
upload_code-all_fine_example = upload_code-all_fine shell remote here shell-HasFiles 0

abbrev no_seconds : ℕ → String
no_seconds n = "0"

abbrev no_help : ℕ → Unit {0} × ℕ
no_help w = (tt, w)

remote_main-test_example :
    (code : ℕ) × ((remote_main shell remote here no_seconds no_help (test 5 no_flow 0) 0).0
      ≡ ok code)
    × ((code ≡ 0) ↔ Passed (finished good_output "" (pos 0)) × JoinedWell (some joined))
    × ((code ≡ 0) ⊎ (code ≡ 1))
remote_main-test_example = remote_main-test shell remote here no_seconds no_help 5 no_flow 0 0

-- One test in a minute.
exits : (duration_main shell desk remote here 1 "results" false 0).0 ≡ ok 0
unfolding duration_main verify_connectivity ssh_cmd captured is_zero upload_first cleanup_all
    kill_remote_tests kill_local_tests run_tests tests_from finish_tests say_all say_summary
    exit_status test_loop test_round run_test after_pair report_test item on_results count_test
    cycle run_test_pair run_local_test local_result parse_result stats_of search_stats stats_at
    role_of completed codes is_prefix is_in lower digits number skip_spaces spaces fixed
exits = refl

abbrev code : ℕ
code = 0

duration_main-exit_example : Exits shell desk remote here 1 "results" false 0 code
duration_main-exit_example =
    duration_main-exit shell desk remote here 1 "results" false 0 code exits

shell-ShellTime : ShellTime shell (λ w. w)
shell-ShellTime = record {
  run_later = λ args t w. omega arith;
  glob_later = λ dir w. omega arith;
  exists_later = λ path w. omega arith;
  say_later = λ line w. omega arith;
  sleep_later = λ n w h. omega arith;
  start_later = λ f w. omega arith;
  join_later = λ t w. omega arith;
}

comes_back : {A : Type 0} (a : A) → Ends (λ (w : ℕ). w) (pure a)
comes_back a = record { returns = λ w e. cc; later = λ w. omega arith }

desk-DeskTime : DeskTime desk (λ w. w)
desk-DeskTime = record {
  now_from = λ w. omega arith;
  now_until = λ w. omega arith;
  run_id_later = λ w. omega arith;
  timestamp_later = λ w. omega arith;
  unique_later = λ w. omega arith;
  make_dir_ends = λ dir. comes_back tt;
  open_csv_ends = λ path. comes_back tt;
  write_row_ends = λ path row. comes_back tt;
  write_file_ends = λ path text. comes_back tt;
}

duration_main-Ends_example :
    Ends (λ (w : ℕ). w) (duration_main shell desk remote here 1 "results" false)
duration_main-Ends_example =
    duration_main-Ends shell desk remote here 1 "results" shell-ShellTime desk-DeskTime false

abbrev formats : Formats
formats = record {
  grouped = λ q. "0";
  two_places = λ q. "0";
  one_place = λ q. "0";
  hex = λ bs. "00";
}

-- A report that is connected and has no role.
abbrev no_role : PeeringReport
no_role = record {
  connected = true;
  connection_id = some (1 ∷ 2 ∷ 3 ∷ 4 ∷ []);
  role = none;
  error = none;
  msg_count = none;
}

make_peering_report-prints_example :
    ((lines : List String) × (make_peering_report no_role ≡ ok no_role)
      × (peering_lines formats no_role ≡ some lines))
    ⊎ (make_peering_report no_role ≡ err value_error) × (peering_lines formats no_role ≡ none)
make_peering_report-prints_example = make_peering_report-prints formats no_role

abbrev measured : SessionResult
measured = record {
  success = true;
  stats = record no_stats { rtt_samples = 7 ∷ 3 ∷ [] };
  error = none;
  fin_ack_received = true;
  fin_received = false;
}

-- An operating system whose world is what the timer's file holds.
abbrev os : Os ℕ
os = record {
  path_exists = λ path w. (true, w);
  read_int = λ path w. (ok w, w);
  write_int = λ path n w. (ok tt, n);
  realpath = λ path w. (path, w);
  comports = λ w. (ok [], w);
  open_port = λ device baudrate rtscts w. (ok tt, w);
  reset_output_buffer = λ w. (ok tt, w);
  close = λ w. (ok tt, w);
}

os-HasFile : HasFile os (sysfs_path (basename "/dev/ttyUSB0")) true true (λ n. n) (λ (w : ℕ). w)
os-HasFile = record {
  told = λ w. refl;
  still_told = λ w. refl;
  reads = λ w. record { value = w; next = w; runs = refl; holds = (refl, refl) };
  writes = λ n w h. record { value = tt; next = n; runs = refl; holds = refl };
  refused = λ n w h. absurd (cc);
}

configure_ftdi_latency_timer-Settles_example :
    Does
      (configure_ftdi_latency_timer os "/dev/ttyUSB0")
      16
      λ b w. Settles (applies "/dev/ttyUSB0" true) true (λ n. n) (λ (v : ℕ). v) 16 b w
configure_ftdi_latency_timer-Settles_example =
    configure_ftdi_latency_timer-Settles os "/dev/ttyUSB0" os-HasFile 16
