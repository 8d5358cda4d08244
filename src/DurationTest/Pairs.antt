-- ===== src/DurationTest/Pairs.antt =====
-- tools/duration_test.py: the pairs of tests that the loop of `main` runs, each from the world that
-- the one before has left.

use Prim.Native.String.{String, ◌++◌}
use serial_testkit.Prelude.{
  ℕ, zero, suc, ◌+◌, ◌-◌, ◌/◌, ◌≡◌, inl, inr, refl, sym, ap, ◌∙◌, true, false, List, [], ◌∷◌, ltb,
}
use serial_testkit.Exec.{ok, lift}
use serial_testkit.Exec.Steps.{bind-ok, if-ok, ok-same}
use serial_testkit.Remote.Text.{decimal}
use serial_testkit.Remote.Results.{TestResult}
use serial_testkit.Remote.Commands.{Shell, RemoteConfig, LocalConfig}
use serial_testkit.Remote.Helper.{FlowControl, run_test_pair}
use serial_testkit.DurationTest.{Progress, on_results, main_loop}
use serial_testkit.DurationTest.Texts.{config_text}
use serial_testkit.DurationTest.Program.{
  Desk, item, all_durations, all_start_delays, all_flow_controls, report_test, after_pair, run_test,
  test_round, test_loop,
}

module _ {W : Type 0} (S : Shell W) (D : Desk W) (c : RemoteConfig) (l : LocalConfig) (minutes : ℕ)
    (results_dir : String) where
  -- Behind a line that is printed.
  abbrev pub said : String → W → W
  said line w = (S.say line w).1

  -- In a turn that starts at `w`: behind the turn's number and its line, where the pair starts.
  abbrev before_pair : ℕ → ℕ → ℕ → FlowControl → Progress → W → W
  before_pair start duration delay flow p w =
      let (now, w') = D.monotonic w in
      (D.timestamp (
        said
          ("["
            ++ decimal ((now - start) / 60_000_000_000)
            ++ "/"
            ++ decimal minutes
            ++ "m] Test "
            ++ decimal (p.tests_run + 1)
            ++ ": "
            ++ config_text duration (D.seconds delay) flow)
          (D.unique w').1)).1

  -- The turn that starts at `w` runs its pair of tests with the parameters at the indices, and `r`
  -- is what this pair comes to.
  pub record RunsPair (start : ℕ) (p : Progress) (w : W) (r : TestResult × TestResult)
      : Type 0 where
    pub duration : ℕ
    pub delay : ℕ
    pub flow : FlowControl
    pub duration_at : item all_durations p.duration_idx ≡ ok duration
    pub delay_at : item all_start_delays p.delay_idx ≡ ok delay
    pub flow_at : item all_flow_controls p.flow_idx ≡ ok flow
    pub results :
        (run_test_pair S c l duration flow delay (before_pair start duration delay flow p w)).0 ≡ r

  -- The pairs that the loop runs from `w`: while the clock shows less than `end_time`, a turn and
  -- its pair, and the next ones from the world that the turn has left.
  unfoldable pub RunsPairs : String → ℕ → ℕ → Progress → W → List (TestResult × TestResult) → Type 0
  RunsPairs run_id start end_time p w [] = ltb (D.monotonic w).0 end_time ≡ false
  RunsPairs run_id start end_time p w (r ∷ rs) =
      let (now, v) = D.monotonic w in
      (ltb now end_time ≡ true)
      × RunsPair start p v r
      × RunsPairs run_id start end_time (on_results p r)
          (test_round S D c l minutes results_dir run_id start p v).1 rs

  after_pair-on_results :
      (run_id test_id timestamp : String) (duration : ℕ) (flow : FlowControl) (delay : ℕ)
      (p p' : Progress) (r : TestResult × TestResult) (w : W)
      → (after_pair S D c l minutes results_dir run_id test_id timestamp duration flow delay p r
          w).0
        ≡ ok p'
      → p' ≡ on_results p r
  unfolding after_pair on_results
  after_pair-on_results run_id test_id timestamp duration flow delay p p' (lr, rr) w e =
      let (error, _, e₁) =
        bind-ok (report_test S D c l minutes results_dir test_id timestamp _ lr rr) _ w p' e in
      let (_, _, e₂) = bind-ok (D.write_row _ _) _ _ p' e₁ in sym (ok-same _ p' e₂)

  test_round-RunsPair :
      (run_id : String) (start : ℕ) (p p' : Progress) (w : W)
      → (test_round S D c l minutes results_dir run_id start p w).0 ≡ ok p'
      → (r : TestResult × TestResult) × RunsPair start p w r × (p' ≡ on_results p r)
  unfolding test_round run_test
  test_round-RunsPair run_id start p p' w e =
      let (duration, i, e₁) = bind-ok (lift (item all_durations p.duration_idx)) _ _ p' e in
      let (delay, j, e₂) = bind-ok (lift (item all_start_delays p.delay_idx)) _ _ p' e₁ in
      let (flow, k, e₃) = bind-ok (lift (item all_flow_controls p.flow_idx)) _ _ p' e₂ in
      let v = before_pair start duration delay flow p w in
      (
        (run_test_pair S c l duration flow delay v).0,
        record {
          duration = duration;
          delay = delay;
          flow = flow;
          duration_at = i;
          delay_at = j;
          flow_at = k;
          results = refl;
        },
        after_pair-on_results run_id _ _ duration flow delay p p' _ _ e₃,
      )

  -- What the loop has counted, as the list of the pairs that it has run.
  pub test_loop-RunsPairs :
      (fuel : ℕ) (run_id : String) (start end_time : ℕ) (p p' : Progress) (w : W)
      → (test_loop S D c l minutes results_dir fuel run_id start end_time p w).0 ≡ ok p'
      → (rs : List (TestResult × TestResult)) × RunsPairs run_id start end_time p w rs
        × (p' ≡ main_loop p rs)
  unfolding test_loop RunsPairs main_loop
  test_loop-RunsPairs zero run_id start end_time p p' w e = absurd (cc)
  test_loop-RunsPairs (suc fuel) run_id start end_time p p' w e =
      let v = (D.monotonic w).1 in
      elim (if-ok (ltb (D.monotonic w).0 end_time) _ _ v p' e) [
        | inl (again, e₁) ↦
            let (q, e₂, e₃) =
              bind-ok (test_round S D c l minutes results_dir run_id start p) _ v p' e₁ in
            let (r, one, k) = test_round-RunsPair run_id start p q v e₂ in
            let (rs, all, k') = test_loop-RunsPairs fuel run_id start end_time q p' _ e₃ in
            (r ∷ rs, (again, one, rw (← k) all), k' ∙ ap (λ q. main_loop q rs) k)
        | inr (over, e₁) ↦ ([], over, sym (ok-same p p' e₁))
      ]
