-- ===== src/Remote/Program.antt =====
-- tools/remote.py: `main`, behind the parsing of its arguments.

use Prim.Native.String.{String, ◌++◌}
use serial_testkit.Prelude.{ℕ, Bool, true, false, ◌&&◌, List, [], ◌∷◌, if◌then◌else◌}
use serial_testkit.Exec.{Exec, pure, call, ◌>>=◌, ◌>>◌}
use serial_testkit.Remote.Text.{decimal}
use serial_testkit.Remote.Results.{Role, unknown, initiator, responder, TestResult}
use serial_testkit.Remote.Commands.{Shell, RemoteConfig, LocalConfig}
use serial_testkit.Remote.Helper.{
  FlowControl, flow_name, upload_code, verify_connectivity, check_local_serial_ports,
  check_remote_serial_ports, cleanup_all, run_test_pair,
}

-- `args.command`, with the arguments of the test command; the delay in milliseconds.
pub data Command : Type 0 where
  upload verify ports cleanup : Command
  test : ℕ → FlowControl → ℕ → Command
  no_command : Command

abbrev role_name : Role → String
role_name unknown = "unknown"
role_name initiator = "initiator"
role_name responder = "responder"

abbrev bool_name : Bool → String
bool_name true = "True"
bool_name false = "False"

-- `sent=… recv=… ok=… role=… success=…`
unfoldable pub summary : TestResult → String
summary r =
    "sent="
    ++ decimal r.sent
    ++ " recv="
    ++ decimal r.recv
    ++ " ok="
    ++ decimal r.ok
    ++ " role="
    ++ role_name r.role
    ++ " success="
    ++ bool_name r.success

module _ {W : Type 0} (S : Shell W) (c : RemoteConfig) (l : LocalConfig)
    -- the text of a time in seconds, and `parser.print_help()`
    (seconds : ℕ → String) (print_help : W → Unit {0} × W) where
  unfoldable pub say_all : List String → Exec W (Unit {0})
  say_all [] = pure tt
  say_all (line ∷ rest) = do call (S.say ("  " ++ line)); say_all rest

  -- `0 if … else 1`, with a line for each case.
  unfoldable pub verdict : Bool → String → String → Exec W ℕ
  verdict good good_line bad_line =
      if good then (do call (S.say good_line); pure 0) else (do call (S.say bad_line); pure 1)

  unfoldable pub remote_main : Command → Exec W ℕ
  remote_main upload = do
    good ← upload_code S c l
    verdict good "Code uploaded successfully" "Failed to upload code"
  remote_main verify = do
    good ← call (verify_connectivity S c l)
    verdict good "Remote connectivity OK" "Remote connectivity FAILED"
  remote_main ports = do
    call (S.say "Local serial ports:")
    here ← check_local_serial_ports S c l
    say_all here
    call (S.say "Remote serial ports:")
    there ← call (check_remote_serial_ports S c l)
    say_all there
    pure 0
  remote_main cleanup = do cleanup_all S c l; call (S.say "Cleaned up all test processes"); pure 0
  remote_main (test duration flow delay) = do
    call (
        S.say (
          "Running test: duration="
          ++ decimal duration
          ++ "s, flow="
          ++ flow_name flow
          ++ ", delay="
          ++ seconds delay
          ++ "s"))
    (local_result, remote_result) ← call (run_test_pair S c l duration flow delay)
    call (S.say ("Local:  " ++ summary local_result))
    call (S.say ("Remote: " ++ summary remote_result))
    pure (if local_result.success && remote_result.success then 0 else 1)
  remote_main no_command = do call print_help; pure 1
