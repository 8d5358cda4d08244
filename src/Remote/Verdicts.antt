-- ===== src/Remote/Verdicts.antt =====
-- tools/remote.py: when a test, and the command that runs a pair of tests, is a success.

use Prim.Native.String.{String, ◌++◌}
use serial_testkit.Prelude.{
  ℕ, ◌<◌, ◌≡◌, ◌↔◌, ◌⊎◌, inl, inr, refl, ap, ◌∙◌, Bool, true, false, ◌&&◌, Option, none, some, ltb,
  ◌==◌, ==-self, lt→ltb, if◌then◌else◌, arith,
}
use serial_testkit.Exec.{ok}
use serial_testkit.Remote.Text.{decimal}
use serial_testkit.Remote.Results.{ℤ, TestResult, stats_of, completed, parse_result}
use serial_testkit.Remote.Commands.{
  Outcome, finished, timed_out, failed, Shell, RemoteConfig, LocalConfig,
}
use serial_testkit.Remote.Helper.{
  FlowControl, flow_name, or_incomplete, test_timeout, test_args, local_result, run_local_test,
  run_remote_test, run_test_pair,
}
use serial_testkit.Remote.Program.{remote_main, test}

-- A process that came to its end with an output that says that the test is complete and whose
-- counters say that at least one message was received, and every one with a good CRC.
pub record Passed (r : Outcome) : Type 0 where
  pub stdout : String
  pub stderr : String
  pub returncode : ℤ
  pub sent : ℕ
  pub received : ℕ
  pub ended : r ≡ finished stdout stderr returncode
  pub complete : completed (stdout ++ stderr) ≡ true
  pub counted : stats_of (stdout ++ stderr) ≡ (sent, received, received)
  pub some_received : 0 < received

-- The thread came to its end in time, with the result of a success.
abbrev pub JoinedWell : Option TestResult → Type 0
JoinedWell o = (r : TestResult) × (o ≡ some r) × (r.success ≡ true)

parsed-Passed :
    (stdout stderr : String) (returncode : ℤ)
    → (parse_result (stdout ++ stderr) returncode).success ≡ true
    → Passed (finished stdout stderr returncode)
unfolding parse_result
parsed-Passed stdout stderr returncode h = go (stats_of (stdout ++ stderr)) refl
  where
    go :
        (t : ℕ × ℕ × ℕ)
        → stats_of (stdout ++ stderr) ≡ t
        → Passed (finished stdout stderr returncode)
    go (sent, recv, good) e =
        let h' : (completed (stdout ++ stderr) && good == recv && ltb 0 recv) ≡ true = rw e at h in
        let same : good ≡ recv = ground arith in
        record {
          stdout = stdout;
          stderr = stderr;
          returncode = returncode;
          sent = sent;
          received = recv;
          ended = refl;
          complete = ground arith;
          counted = rw same at e;
          some_received = ground arith;
        }

local_result-Passed : (r : Outcome) → (local_result r).success ≡ true → Passed r
unfolding local_result
local_result-Passed (finished stdout stderr returncode) h = parsed-Passed stdout stderr returncode h
local_result-Passed timed_out h = absurd (cc)
local_result-Passed (failed e) h = absurd (cc)

Passed-local_result : (r : Outcome) → Passed r → (local_result r).success ≡ true
unfolding local_result parse_result
Passed-local_result r p =
    rw (p.ended, p.complete, p.counted, ==-self p.received, lt→ltb 0 p.received p.some_received)
      refl

joined_success : (o : Option TestResult) → ((or_incomplete o).success ≡ true) ↔ JoinedWell o
joined_success none = (λ h. absurd (cc), λ (r, e, h). absurd (cc))
joined_success (some r) =
    (λ h. (r, refl, h), λ (q, e, h). ap (λ o. (or_incomplete o).success) e ∙ h)

-- The exit status of two verdicts.
status :
    (a b : Bool) {P Q : Type 0}
    → (a ≡ true) ↔ P
    → (b ≡ true) ↔ Q
    → (code : ℕ) × (ok (if a && b then 0 else 1) ≡ ok code)
      × ((code ≡ 0) ↔ P × Q)
      × ((code ≡ 0) ⊎ (code ≡ 1))
status true true (p, p') (q, q') = (0, refl, (λ e. (p refl, q refl), λ x. refl), inl refl)
status true false (p, p') (q, q') =
    (1, refl, (λ e. absurd (omega arith), λ (x, y). absurd (cc (q' y))), inr refl)
status false b (p, p') (q, q') =
    (1, refl, (λ e. absurd (omega arith), λ (x, y). absurd (cc (p' x))), inr refl)

module _ {W : Type 0} (S : Shell W) (c : RemoteConfig) (l : LocalConfig) (seconds : ℕ → String)
    (print_help : W → Unit {0} × W) (duration : ℕ) (flow : FlowControl) (delay : ℕ) where
  -- The pair of tests, from the world `w`: the local process, when the thread of the remote test is
  -- started and the delay is over, and then what the thread has left within its time.
  abbrev started : W → W
  started w = (S.start (run_remote_test S c l duration flow (some (test_timeout duration))) w).1

  abbrev delayed : W → W
  delayed w = (if ltb 0 delay then S.sleep delay (started w) else (tt, started w)).1

  abbrev pub local_process : W → Outcome × W
  local_process w = S.run (test_args l duration flow) (some (test_timeout duration)) (delayed w)

  abbrev pub remote_thread : W → Option TestResult × W
  remote_thread w = S.join (test_timeout duration) (local_process w).1

  -- Behind the first line that the command prints.
  abbrev pub announced : W → W
  announced w =
      (S.say
        ("Running test: duration="
          ++ decimal duration
          ++ "s, flow="
          ++ flow_name flow
          ++ ", delay="
          ++ seconds delay
          ++ "s")
        w).1

  -- The command `test` returns 0 or 1, whatever comes of its processes. It returns 0 exactly if the
  -- local process came to its end within three times the duration and a minute, with an output that
  -- says that the test is complete and counts at least one received message and all of them good,
  -- and the thread of the remote test came to its end within that time with a success.
  pub remote_main-test :
      (w : W)
      → (code : ℕ) × ((remote_main S c l seconds print_help (test duration flow delay) w).0
          ≡ ok code)
        × ((code ≡ 0)
            ↔ Passed (local_process (announced w)).0 × JoinedWell (remote_thread (announced w)).0)
        × ((code ≡ 0) ⊎ (code ≡ 1))
  unfolding remote_main run_test_pair run_local_test
  remote_main-test w =
      let v = announced w in
      status (local_result (local_process v).0).success (or_incomplete (remote_thread v).0).success
        (local_result-Passed (local_process v).0, Passed-local_result (local_process v).0)
        (joined_success (remote_thread v).0)
