-- ===== src/DurationTest/Runs.antt =====
-- tools/duration_test.py: how a run of `main` comes to its exit status.

use Prim.Native.String.{String}
use serial_testkit.Prelude.{
  ℕ, ◌+◌, ◌*◌, ◌≡◌, ◌↔◌, ◌⊎◌, inl, inr, sym, ap, ◌∙◌, Bool, true, false, not, List, All, arith,
}
use serial_testkit.Exec.{ok}
use serial_testkit.Exec.Steps.{bind-ok, if-ok, ok-same}
use serial_testkit.Remote.Results.{TestResult}
use serial_testkit.Remote.Commands.{Shell, RemoteConfig, LocalConfig}
use serial_testkit.Remote.Helper.{verify_connectivity, cleanup_all}
use serial_testkit.DurationTest.{Progress, at_start, exit_status}
use serial_testkit.DurationTest.Program.{
  Desk, say_all, opening, csv_path, test_loop, say_summary, finish_tests, tests_from, run_tests,
  upload_first, duration_main,
}
use serial_testkit.DurationTest.Pairs.{said, RunsPairs, test_loop-RunsPairs}
use serial_testkit.DurationTest.Cycle.{IsPass, exit_status-main_loop}

module _ {W : Type 0} (S : Shell W) (D : Desk W) (c : RemoteConfig) (l : LocalConfig) (minutes : ℕ)
    (results_dir : String) where
  -- The worlds that `main` goes through: at the check of the connection, behind it, behind the
  -- upload, behind the cleaning, and at the start of the loop.
  abbrev run_of : W → String
  run_of w = (D.run_id (D.make_dir results_dir w).1).0

  abbrev pub asked : W → W
  asked w =
      said S D c l minutes results_dir "Verifying remote connectivity..."
        (D.run_id (D.make_dir results_dir w).1).1

  abbrev pub reached : W → W
  reached w =
      said S D c l minutes results_dir "Remote connectivity OK"
        (verify_connectivity S c l (asked w)).1

  abbrev uploaded : Bool → W → W
  uploaded upload w = (upload_first S D c l minutes results_dir upload (reached w)).1

  abbrev cleaned : Bool → W → W
  cleaned upload w =
      (cleanup_all S c l (
        said S D c l minutes results_dir "Cleaning up existing test processes..."
          (uploaded upload w))).1

  abbrev opened : Bool → W → W
  opened upload w =
      (say_all S D c l minutes results_dir (opening S D c l minutes results_dir (run_of w))
        (cleaned upload w)).1

  abbrev start_of : Bool → W → ℕ
  start_of upload w = (D.monotonic (opened upload w)).0

  abbrev looping : Bool → W → W
  looping upload w =
      (D.open_csv (csv_path S D c l minutes results_dir (run_of w))
        (D.monotonic (opened upload w)).1).1

  -- The pairs of tests of the run from `w`.
  abbrev pub Tests : Bool → W → List (TestResult × TestResult) → Type 0
  Tests upload w =
      let start = start_of upload w in
      RunsPairs S D c l minutes results_dir (run_of w) start (start + minutes * 60_000_000_000)
        at_start (looping upload w)

  -- The exit status of the pairs `rs`.
  abbrev pub StatusOf : ℕ → List (TestResult × TestResult) → Type 0
  StatusOf code rs = ((code ≡ 0) ↔ All IsPass rs) × ((code ≡ 0) ⊎ (code ≡ 1))

  exit_status-or : (p : Progress) → (exit_status p ≡ 0) ⊎ (exit_status p ≡ 1)
  unfolding exit_status
  exit_status-or p = ground arith

  -- How `main` comes to an exit status: without a test, or behind its pairs of tests.
  pub data Exits (upload : Bool) (w : W) (code : ℕ) : Type 0 where
    unreachable : (verify_connectivity S c l (asked w)).0 ≡ false → code ≡ 1 → Exits upload w code
    not_uploaded :
        (verify_connectivity S c l (asked w)).0 ≡ true
        → (upload_first S D c l minutes results_dir upload (reached w)).0 ≡ ok false
        → code ≡ 1
        → Exits upload w code
    tested :
        (verify_connectivity S c l (asked w)).0 ≡ true
        → (upload_first S D c l minutes results_dir upload (reached w)).0 ≡ ok true
        → (rs : List (TestResult × TestResult)) → Tests upload w rs
        → StatusOf code rs
        → Exits upload w code

  run_tests-StatusOf :
      (upload : Bool) (w : W) (code : ℕ)
      → (run_tests S D c l minutes results_dir (run_of w) (cleaned upload w)).0 ≡ ok code
      → (rs : List (TestResult × TestResult)) × Tests upload w rs × StatusOf code rs
  unfolding run_tests tests_from finish_tests
  run_tests-StatusOf upload w code e =
      let start = start_of upload w in
      let (_, _, e₁) =
        bind-ok
          (say_all S D c l minutes results_dir (opening S D c l minutes results_dir (run_of w))) _
          (cleaned upload w) code e in
      let (_, _, e₂) =
        bind-ok (D.open_csv (csv_path S D c l minutes results_dir (run_of w))) _ _ code e₁ in
      let (p, e₃, e₄) =
        bind-ok
          (test_loop S D c l minutes results_dir (minutes * 60_000_000_000 + 1) (run_of w) start
            (start + minutes * 60_000_000_000) at_start)
          _ (looping upload w) code e₂ in
      let (rs, all, k) =
        test_loop-RunsPairs S D c l minutes results_dir _ (run_of w) start _ at_start p
          (looping upload w) e₃ in
      let (_, _, e₅) = bind-ok (say_summary S D c l minutes results_dir (run_of w) p) _ _ code e₄ in
      let same : exit_status p ≡ code = ok-same _ code e₅ in
      (rs, all, (rw (← same, k) (exit_status-main_loop rs), rw (← same) (exit_status-or p)))

  -- When `main` returns an exit status, it is 1 where the remote machine was not reached when it
  -- was asked, or was reached and the upload then came out as a failure. Otherwise it is 0 or 1,
  -- and 0 exactly if both sides were a success in every pair of tests of this run: these are, from
  -- the world that the cleaning and the opening of the CSV file have left, the results of one pair
  -- in each turn while the clock shows less than the end, each turn with the parameters at its
  -- indices and in the world that the one before has left.
  pub duration_main-exit :
      (upload : Bool) (w : W) (code : ℕ)
      → (duration_main S D c l minutes results_dir upload w).0 ≡ ok code
      → Exits upload w code
  unfolding duration_main
  duration_main-exit upload w code e =
      let (_, _, e₁) = bind-ok (D.make_dir results_dir) _ w code e in
      elim (if-ok (not (verify_connectivity S c l (asked w)).0) _ _ _ code e₁) [
        | inl (off, e₂) ↦ unreachable (ground arith) (sym (ok-same 1 code e₂))
        | inr (on, e₂) ↦
            let (ready, e₃, e₄) =
              bind-ok (upload_first S D c l minutes results_dir upload) _ (reached w) code e₂ in
            elim (if-ok (not ready) _ _ _ code e₄) [
              | inl (bad, e₅) ↦
                  not_uploaded (ground arith) (e₃ ∙ ap ok (ground arith)) (sym (ok-same 1 code e₅))
              | inr (good, e₅) ↦
                  let (_, _, e₆) = bind-ok (cleanup_all S c l) _ _ code e₅ in
                  let (rs, all, status) = run_tests-StatusOf upload w code e₆ in
                  tested (ground arith) (e₃ ∙ ap ok (ground arith)) rs all status
            ]
      ]
