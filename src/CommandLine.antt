-- ===== src/CommandLine.antt =====
-- serialtest.py: `main`, behind the parsing of its arguments.

use Prim.Native.String.{String}
use text.Mathlib.Text.{◌==◌ as str_eq}
use serial_testkit.Prelude.{ℕ, Bool, false}
use serial_testkit.Exec.{Exec, pure, ◌>>=◌}
use serial_testkit.Host.{Host}
use serial_testkit.Device.{Os}
use serial_testkit.Protocol.{Role, client, server, seconds}
use serial_testkit.Client.Runner.{
  ExitCode, success, peering_failed, no_data, crc_errors, run_client,
}
use serial_testkit.Server.Runner.{run_server}

abbrev pub default_baudrate : ℕ
default_baudrate = 115_200

-- in seconds
abbrev pub default_handshake_timeout : ℕ
default_handshake_timeout = 30

abbrev pub default_msg_count : ℕ
default_msg_count = 100

-- The parsed arguments; the choices of `--role` are those of Role.
pub record Args : Type 0 where
  pub device : String
  pub role : Role
  pub flow_control : String
  pub baudrate : ℕ
  pub msg_count : ℕ
  pub handshake_timeout : ℕ
  pub no_latency_fix : Bool

-- What the parser gives for the two required arguments alone.
abbrev pub default_args : String → Role → Args
default_args device role = record {
  device = device;
  role = role;
  flow_control = "none";
  baudrate = default_baudrate;
  msg_count = default_msg_count;
  handshake_timeout = default_handshake_timeout;
  no_latency_fix = false;
}

-- The numbers of ExitCode.
unfoldable pub exit_number : ExitCode → ℕ
exit_number success = 0
exit_number peering_failed = 1
exit_number no_data = 2
exit_number crc_errors = 3

unfoldable pub main : {W : Type 0} → Host W → (W → Bool × W) → Os W → ℕ → Args → Exec W ℕ
main H signalled O turns args =
    let rtscts = str_eq args.flow_control "rtscts" in
    elim args.role [
      | client ↦ (do
        code ←
            run_client H O args.device args.baudrate rtscts (seconds args.handshake_timeout)
              args.msg_count args.no_latency_fix
        pure (exit_number code))
      | server ↦ run_server H signalled O turns args.device args.baudrate rtscts args.no_latency_fix
    ]
