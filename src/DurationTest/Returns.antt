-- ===== src/DurationTest/Returns.antt =====
-- tools/duration_test.py: `main` against the clock.

use Prim.Native.String.{String, ◌++◌}
use serial_testkit.Prelude.{
  ℕ, zero, suc, ◌+◌, ◌-◌, ◌*◌, ◌/◌, ◌≤◌, ◌<◌, ◌≡◌, ◌≢◌, refl, Bool, true, false, not, ◌&&◌, List,
  [], ◌∷◌, ltb, ltb→lt, inl, inr, Bool-cases, arith,
}
use serial_testkit.Exec.{Result, ok, err, stuck, lift, call, proceed, ◌>>=◌}
use serial_testkit.Exec.Ends.{
  Ends, EndsAt, EndsAt-bind, Progress, Ends-pure, Ends-lift, Ends-call, Ends-if, Ends-bind,
  Progress-bind, Progress-of, Progress-then, ends_rules,
}
use serial_testkit.Remote.Text.{decimal}
use serial_testkit.Remote.Results.{TestResult}
use serial_testkit.Remote.Commands.{Shell, RemoteConfig, LocalConfig}
use serial_testkit.Remote.Helper.{
  FlowControl, run_test_pair, verify_connectivity, cleanup_all, upload_code,
}
use serial_testkit.DurationTest
use serial_testkit.DurationTest.{at_start, cycle, count_test, exit_status}
use serial_testkit.DurationTest.Texts.{Row, config_text, four_digits, row_of}
use serial_testkit.DurationTest.Program.{
  Desk, item, all_durations, all_start_delays, all_flow_controls, save_failed_test_logs, say_all,
  opening, csv_path, report_test, after_pair, run_test, test_round, test_loop, say_summary,
  finish_tests, tests_from, run_tests, upload_first, duration_main,
}
use serial_testkit.DurationTest.Ends.{
  ShellTime, say-Ends, upload_code-Ends, cleanup_all-Ends, verify_connectivity-later,
  run_test_pair-later,
}

-- Nothing turns the clock back, and `time.monotonic()` reads it; every call comes back.
pub record DeskTime {W : Type 0} (D : Desk W) (clock : W → ℕ) : Type 0 where
  pub now_from : (w : W) → clock w ≤ (D.monotonic w).0
  pub now_until : (w : W) → (D.monotonic w).0 ≤ clock (D.monotonic w).1
  pub run_id_later : (w : W) → clock w ≤ clock (D.run_id w).1
  pub timestamp_later : (w : W) → clock w ≤ clock (D.timestamp w).1
  pub unique_later : (w : W) → clock w ≤ clock (D.unique w).1
  pub make_dir_ends : (dir : String) → Ends clock (D.make_dir dir)
  pub open_csv_ends : (path : String) → Ends clock (D.open_csv path)
  pub write_row_ends : (path : String) (row : Row) → Ends clock (D.write_row path row)
  pub write_file_ends : (path text : String) → Ends clock (D.write_file path text)

item-ends : {A : Type 0} (items : List A) (i : ℕ) → item items i ≢ stuck
unfolding item
item-ends [] i e = cc
item-ends (a ∷ items) zero e = cc
item-ends (a ∷ items) (suc i) e = item-ends items i e

module _ {W : Type 0} (S : Shell W) (D : Desk W) (c : RemoteConfig) (l : LocalConfig) (minutes : ℕ)
    (results_dir : String) {clock : W → ℕ} (T : ShellTime S clock) (U : DeskTime D clock) where
  told : (line : String) → Ends clock (call (S.say line))
  told line = say-Ends S c l T line

  now-Ends : Ends clock (call D.monotonic)
  now-Ends = Ends-call _ (λ w. omega (arith, U.now_from w, U.now_until w))

  report_test-Ends :
      (test_id timestamp config : String) (lr rr : TestResult)
      → Ends clock (report_test S D c l minutes results_dir test_id timestamp config lr rr)
  unfolding report_test save_failed_test_logs
  report_test-Ends test_id timestamp config lr rr =
      search (ends_rules, told, U.make_dir_ends, U.write_file_ends) depth 12

  slept : Progress clock (call (S.sleep 2000))
  slept = Progress-of _ (record {
    ends = Ends-call _ (λ w. omega (arith, T.sleep_later 2000 w (omega arith)));
    ticks = λ w. T.sleep_later 2000 w (omega arith);
  })

  after_pair-Progress :
      (run_id test_id timestamp : String) (duration : ℕ) (flow : FlowControl) (start_delay : ℕ)
      (p : DurationTest.Progress) (r : TestResult × TestResult)
      → Progress clock (
          after_pair S D c l minutes results_dir run_id test_id timestamp duration flow start_delay
            p r)
  unfolding after_pair
  after_pair-Progress run_id test_id timestamp duration flow start_delay p (lr, rr) =
      Progress-bind
        (report_test S D c l minutes results_dir test_id timestamp
          (config_text duration (D.seconds start_delay) flow) lr rr)
        _ (report_test-Ends test_id timestamp _ lr rr)
        λ error.
          Progress-bind
            (D.write_row (csv_path S D c l minutes results_dir run_id) (
              row_of test_id timestamp duration (D.seconds start_delay) flow
                (lr.success && rr.success) error lr rr))
            _ (U.write_row_ends _ _)
            λ _.
              Progress-then _ _ slept
                λ _. Ends-pure (cycle (count_test p (lr.success && rr.success)))

  run_test-Progress :
      (run_id test_id : String) (elapsed duration : ℕ) (flow : FlowControl) (start_delay : ℕ)
      (p : DurationTest.Progress)
      → Progress clock
          (run_test S D c l minutes results_dir run_id test_id elapsed duration flow start_delay p)
  unfolding run_test
  run_test-Progress run_id test_id elapsed duration flow start_delay p =
      Progress-bind
        (call (
          S.say (
            "["
            ++ decimal (elapsed / 60_000_000_000)
            ++ "/"
            ++ decimal minutes
            ++ "m] Test "
            ++ decimal (p.tests_run + 1)
            ++ ": "
            ++ config_text duration (D.seconds start_delay) flow)))
        _ (told _)
        λ _. Progress-bind (call D.timestamp) _ (Ends-call _ U.timestamp_later) λ timestamp.
          Progress-bind (call (run_test_pair S c l duration flow start_delay)) _
            (Ends-call _ (run_test_pair-later S c l T duration flow start_delay))
            (after_pair-Progress run_id test_id timestamp duration flow start_delay p)

  test_round-Progress :
      (run_id : String) (start : ℕ) (p : DurationTest.Progress)
      → Progress clock (test_round S D c l minutes results_dir run_id start p)
  unfolding test_round
  test_round-Progress run_id start p = Progress-bind (call D.monotonic) _ now-Ends λ now.
      Progress-bind (call D.unique) _ (Ends-call _ U.unique_later) λ unique.
        Progress-bind (lift (item all_durations p.duration_idx)) _ (Ends-lift _ (item-ends _ _))
          λ duration.
            Progress-bind (lift (item all_start_delays p.delay_idx)) _ (Ends-lift _ (item-ends _ _))
              λ start_delay.
                Progress-bind (lift (item all_flow_controls p.flow_idx)) _
                  (Ends-lift _ (item-ends _ _))
                  λ flow.
                    run_test-Progress run_id
                      (run_id ++ "_" ++ four_digits p.tests_run ++ "_" ++ unique) (now - start)
                      duration flow start_delay p

  -- Behind the test of the clock: a round, and the rest of the loop.
  rounds-Ends :
      (fuel : ℕ) (run_id : String) (start end_time : ℕ) (p : DurationTest.Progress) (w : W)
      → ((p' : DurationTest.Progress) (w' : W)
          → clock w < clock w'
          → (test_loop S D c l minutes results_dir fuel run_id start end_time p' w').0 ≢ stuck
            × (clock w'
                ≤ clock (test_loop S D c l minutes results_dir fuel run_id start end_time p' w').1))
      → (let m =
            test_round S D c l minutes results_dir run_id start p
            >>= test_loop S D c l minutes results_dir fuel run_id start end_time in
          ((m w).0 ≢ stuck) × (clock w ≤ clock (m w).1))
  rounds-Ends fuel run_id start end_time p w f =
      let r = test_round-Progress run_id start p in
      go (test_round S D c l minutes results_dir run_id start p w).0 _ (r.ends.returns w)
        (r.ends.later w) (r.progress w)
    where
      go :
          (r : Result DurationTest.Progress) (w' : W)
          → r ≢ stuck
          → clock w ≤ clock w'
          → ((p' : DurationTest.Progress) → r ≡ ok p' → clock w < clock w')
          → (let q =
                proceed r (test_loop S D c l minutes results_dir fuel run_id start end_time) w' in
              (q.0 ≢ stuck) × (clock w ≤ clock q.1))
      go (ok p') w' n h k = let (a, b) = f p' w' (k p' refl) in (a, omega (arith, h, b))
      go (err x) w' n h k = (λ e. cc, h)
      go stuck w' n h k = absurd (n refl)

  test_loop-Ends :
      (fuel : ℕ) (run_id : String) (start end_time : ℕ) (p : DurationTest.Progress) (w : W)
      → 0 < fuel
      → end_time < clock w + fuel
      → (let q = test_loop S D c l minutes results_dir fuel run_id start end_time p w in
          (q.0 ≢ stuck) × (clock w ≤ clock q.1))
  unfolding test_loop
  test_loop-Ends zero run_id start end_time p w h k = absurd (omega arith)
  test_loop-Ends (suc fuel) run_id start end_time p w h k =
      let a = U.now_from w in
      let b = U.now_until w in
      elim (Bool-cases (ltb (D.monotonic w).0 end_time)) [
        | inr over ↦ rw over (λ e. cc, omega (arith, a, b))
        | inl more ↦
            let less = ltb→lt _ _ more in
            let (n, later) =
              rounds-Ends fuel run_id start end_time p (D.monotonic w).1 λ p' w' ticked.
                test_loop-Ends fuel run_id start end_time p' w' (omega (arith, a, k, less))
                  (omega (arith, a, b, k, ticked)) in
            rw more (n, omega (arith, a, b, later))
      ]

  all_told : (lines : List String) → Ends clock (say_all S D c l minutes results_dir lines)
  unfolding say_all
  all_told [] = Ends-pure tt
  all_told (line ∷ lines) = Ends-bind (call (S.say line)) _ (told line) λ _. all_told lines

  finish_tests-Ends :
      (run_id : String) (p : DurationTest.Progress)
      → Ends clock (finish_tests S D c l minutes results_dir run_id p)
  unfolding finish_tests say_summary
  finish_tests-Ends run_id p = search (ends_rules, told, all_told) depth 16

  tests_from-EndsAt :
      (run_id : String) (start : ℕ) (w : W)
      → start ≤ clock w
      → EndsAt clock (tests_from S D c l minutes results_dir run_id start) w
  unfolding tests_from
  tests_from-EndsAt run_id start w h =
      let opened = U.open_csv_ends (csv_path S D c l minutes results_dir run_id) in
      EndsAt-bind (D.open_csv (csv_path S D c l minutes results_dir run_id)) _ w
        (opened.returns w, opened.later w)
        λ _ w' k.
          EndsAt-bind
            (test_loop S D c l minutes results_dir (minutes * 60_000_000_000 + 1) run_id start
              (start + minutes * 60_000_000_000) at_start)
            (finish_tests S D c l minutes results_dir run_id) w'
            (test_loop-Ends (minutes * 60_000_000_000 + 1) run_id start
              (start + minutes * 60_000_000_000) at_start w' (omega arith) (omega (arith, h, k)))
            λ p w'' later.
              ((finish_tests-Ends run_id p).returns w'', (finish_tests-Ends run_id p).later w'')

  run_tests-Ends : (run_id : String) → Ends clock (run_tests S D c l minutes results_dir run_id)
  unfolding run_tests
  run_tests-Ends run_id =
      Ends-bind (say_all S D c l minutes results_dir (opening S D c l minutes results_dir run_id))
        (λ _. call D.monotonic >>= tests_from S D c l minutes results_dir run_id) (all_told _)
        λ _. record {
          returns = λ w. (timed w).0;
          later = λ w. omega (arith, (timed w).1, U.now_from w, U.now_until w);
        }
    where
      timed :
          (w : W)
          → EndsAt clock
              (tests_from S D c l minutes results_dir run_id (D.monotonic w).0)
              (D.monotonic w).1
      timed w = tests_from-EndsAt run_id (D.monotonic w).0 (D.monotonic w).1 (U.now_until w)

  upload_first-Ends : (upload : Bool) → Ends clock (upload_first S D c l minutes results_dir upload)
  unfolding upload_first
  upload_first-Ends false = Ends-pure true
  upload_first-Ends true = Ends-bind (call (S.say "Uploading code to remote...")) _ (told _) λ _.
      Ends-bind (upload_code S c l) _ (upload_code-Ends S c l T) λ good.
        Ends-if good _ _
          (λ _.
            Ends-bind (call (S.say "Code uploaded successfully")) _ (told _) λ _. Ends-pure true)
          λ _. Ends-bind (call (S.say "Failed to upload code")) _ (told _) λ _. Ends-pure false

  -- On a clock that runs, `main` of the duration test comes to its end, by a return or an exception,
  -- whatever the commands, the threads and the files do, as long as each call of them comes back.
  pub duration_main-Ends :
      (upload : Bool) → Ends clock (duration_main S D c l minutes results_dir upload)
  unfolding duration_main
  duration_main-Ends upload =
      Ends-bind (D.make_dir results_dir) _ (U.make_dir_ends results_dir) λ _.
        Ends-bind (call D.run_id) _ (Ends-call _ U.run_id_later) λ run_id.
          Ends-bind (call (S.say "Verifying remote connectivity...")) _ (told _) λ _.
            Ends-bind (call (verify_connectivity S c l)) _
              (Ends-call _ (verify_connectivity-later S c l T))
              λ connected.
                Ends-if (not connected) _ _
                  (λ _.
                    Ends-bind (call (S.say "Failed to connect to remote RPi")) _ (told _)
                      λ _. Ends-pure 1)
                  λ _. Ends-bind (call (S.say "Remote connectivity OK")) _ (told _) λ _.
                    Ends-bind (upload_first S D c l minutes results_dir upload) _
                      (upload_first-Ends upload)
                      λ ready.
                        Ends-if (not ready) _ _ (λ _. Ends-pure 1)
                          λ _.
                            Ends-bind (call (S.say "Cleaning up existing test processes...")) _
                              (told _)
                              λ _.
                                Ends-bind (cleanup_all S c l) _ (cleanup_all-Ends S c l T)
                                  λ _. run_tests-Ends run_id
