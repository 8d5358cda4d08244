-- ===== src/Client/Runner.antt =====
-- client/runner.py: peering, exchange, exit code.
use Prim.Native.String.{String}
use serial_testkit.Prelude.{ℕ, Bool, not, Option, none, some, ◌==◌, if◌then◌else◌}
use serial_testkit.Exec.{Exec, pure, attempt, is_peering_error, finally, ◌>>=◌, ◌>>◌}
use serial_testkit.Host.{Host}
use serial_testkit.Device.{Os, any_error, fix_latency, open_serial}
use serial_testkit.Protocol.{Connection, default_syn_interval}
use serial_testkit.Client.Handshake.{client_handshake}
use serial_testkit.Session.Outcome.{SessionResult, crc_pass_rate, below_hundred}
use serial_testkit.Session.ClientExchange.{client_exchange}

pub data ExitCode : Type 0 where
  success peering_failed no_data crc_errors : ExitCode

-- "Map session result to exit code".
unfoldable pub exit_code : SessionResult → ExitCode
exit_code r =
    if not r.success
    then peering_failed
    else if r.received == 0
    then no_data
    else if below_hundred (crc_pass_rate r)
    then crc_errors
    else success

module _ {W : Type 0} (H : Host W) where
  abbrev pub run_session : ℕ → Option Connection → Exec W ExitCode
  run_session msg_count none = pure peering_failed
  run_session msg_count (some conn) = do
    session_result ← client_exchange H conn msg_count
    pure (exit_code session_result)

  -- The body of `run_client` on an open port.
  unfoldable pub run_peered : ℕ → ℕ → Exec W ExitCode
  run_peered handshake_timeout msg_count = do
    conn ← attempt is_peering_error (
        client_handshake H handshake_timeout default_syn_interval
          (some (record { msg_count = msg_count })))
    run_session msg_count conn

  -- Behind the attempt to open the port.
  abbrev pub run_opened : Os W → ℕ → ℕ → Option (Unit {0}) → Exec W ExitCode
  run_opened O handshake_timeout msg_count none = pure peering_failed
  run_opened O handshake_timeout msg_count (some _) =
      finally (run_peered handshake_timeout msg_count) O.close

  unfoldable pub run_client : Os W → String → ℕ → Bool → ℕ → ℕ → Bool → Exec W ExitCode
  run_client O device baudrate rtscts handshake_timeout msg_count no_latency_fix = do
    fix_latency O device no_latency_fix
    opened ← attempt any_error (open_serial O device baudrate rtscts)
    run_opened O handshake_timeout msg_count opened
