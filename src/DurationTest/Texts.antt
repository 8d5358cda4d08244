-- ===== src/DurationTest/Texts.antt =====
-- tools/duration_test.py: the texts, logs and rows that `main` writes.

use Prim.Native.String.{String, ◌++◌}
use serial_testkit.Prelude.{ℕ, Bool, ltb, if◌then◌else◌}
use serial_testkit.Remote.Text.{decimal}
use serial_testkit.Remote.Results.{Role, TestResult}
use serial_testkit.Remote.Helper.{FlowControl, flow_name}
use serial_testkit.DurationTest.{
  Reason, did_not_complete, crc_failures, no_messages, ErrorMessage, local_failed, remote_failed,
  unknown_error,
}

-- A row of the CSV file.
pub record Row : Type 0 where
  pub test_id : String
  pub timestamp : String
  pub duration_s : ℕ
  pub start_delay_s : String
  pub flow_control : FlowControl
  pub passed : Bool
  pub local_sent : ℕ
  pub local_recv : ℕ
  pub local_ok : ℕ
  pub remote_sent : ℕ
  pub remote_recv : ℕ
  pub remote_ok : ℕ
  pub local_role : Role
  pub remote_role : Role
  pub error_message : String

unfoldable pub side_text : String → Reason → String
side_text side did_not_complete = side ++ " test did not complete successfully"
side_text side (crc_failures good received) =
    side ++ " CRC failures: " ++ decimal good ++ "/" ++ decimal received
side_text side no_messages = side ++ " received no messages"

unfoldable pub message_text : ErrorMessage → String
message_text (local_failed r) = side_text "Local" r
message_text (remote_failed r) = side_text "Remote" r
message_text unknown_error = "Unknown error"

unfoldable pub log_text : String → String → String → String → TestResult → String
log_text test_id timestamp config error r =
    "Test ID: " ++ test_id ++ "\nTimestamp: " ++ timestamp ++ "\nConfig: " ++ config ++ "\nError: "
    ++ error ++ "\n\n--- OUTPUT ---\n" ++ r.output

unfoldable pub row_of :
    String → String → ℕ → String → FlowControl → Bool → String → TestResult → TestResult → Row
row_of test_id timestamp duration delay flow passed error l r = record {
  test_id = test_id;
  timestamp = timestamp;
  duration_s = duration;
  start_delay_s = delay;
  flow_control = flow;
  passed = passed;
  local_sent = l.sent;
  local_recv = l.recv;
  local_ok = l.ok;
  remote_sent = r.sent;
  remote_recv = r.recv;
  remote_ok = r.ok;
  local_role = l.role;
  remote_role = r.role;
  error_message = error;
}

-- `{n:04d}`
unfoldable pub four_digits : ℕ → String
four_digits n =
    if ltb n 10
    then "000" ++ decimal n
    else if ltb n 100
    then "00" ++ decimal n
    else if ltb n 1000
    then "0" ++ decimal n
    else decimal n

-- `duration=…s, delay=…s, flow=…`
unfoldable pub config_text : ℕ → String → FlowControl → String
config_text duration delay flow =
    "duration=" ++ decimal duration ++ "s, delay=" ++ delay ++ "s, flow=" ++ flow_name flow

unfoldable pub counts_text : TestResult → TestResult → String
counts_text l r =
    "  PASSED: local="
    ++ decimal l.recv
    ++ "/"
    ++ decimal l.sent
    ++ ", remote="
    ++ decimal r.recv
    ++ "/"
    ++ decimal r.sent
