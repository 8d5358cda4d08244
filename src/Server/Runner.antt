-- ===== src/Server/Runner.antt =====
-- server/runner.py: the persistent loop of the server.
use Prim.Native.String.{String}
use serial_testkit.Prelude.{ℕ, zero, suc, Bool, Option, none, some, if◌then◌else◌}
use serial_testkit.Exec.{
  Exec, pure, out_of_fuel, call, attempt, is_peering_error, finally, ◌>>=◌, ◌>>◌,
}
use serial_testkit.Host.{Host}
use serial_testkit.Device.{Os, any_error, fix_latency, open_serial}
use serial_testkit.Protocol.{SessionParams, Connection, default_ack_timeout, seconds}
use serial_testkit.Server.Handshake.{server_handshake}
use serial_testkit.Session.ServerExchange.{server_exchange}

-- 1.0 s
abbrev pub handshake_poll : ℕ
handshake_poll = seconds 1

-- `conn.session_params.msg_count if conn.session_params else 0`
abbrev pub expected_count : Option SessionParams → ℕ
expected_count none = 0
expected_count (some p) = p.msg_count

-- How a turn of `while running` ends: with `continue` or its end, or with `break`.
pub data Turn : Type 0 where
  onward stopped : Turn

-- `signalled`: a SIGINT or SIGTERM has come, so `running` is false.
module _ {W : Type 0} (H : Host W) (signalled : W → Bool × W) where
  -- Behind the handshake of a turn; `none` is a PeeringError.
  abbrev pub serve_peer : Option Connection → Exec W Turn
  serve_peer none = pure onward
  serve_peer (some conn) = do
    stop ← call signalled
    if stop then pure stopped else (do
      server_exchange H conn (expected_count conn.session_params)
      stop' ← call signalled
      if stop' then pure stopped else pure onward)

  unfoldable pub server_turn : Exec W Turn
  server_turn = do
    conn ← attempt is_peering_error (server_handshake H handshake_poll default_ack_timeout)
    serve_peer conn

  -- The loop over `turns` turns; a server that is still running then is cut off.
  unfoldable pub server_loop : ℕ → Exec W (Unit {0})
  server_loop zero = out_of_fuel
  server_loop (suc turns) = do
    stop ← call signalled
    if stop
        then pure tt
        else (do turn ← server_turn; elim turn [ onward ↦ server_loop turns | stopped ↦ pure tt ])

  abbrev pub serve_opened : Os W → ℕ → Option (Unit {0}) → Exec W ℕ
  serve_opened O turns none = pure 1
  serve_opened O turns (some _) = do finally (server_loop turns) O.close; pure 0

  unfoldable pub run_server : Os W → ℕ → String → ℕ → Bool → Bool → Exec W ℕ
  run_server O turns device baudrate rtscts no_latency_fix = do
    fix_latency O device no_latency_fix
    opened ← attempt any_error (open_serial O device baudrate rtscts)
    serve_opened O turns opened
