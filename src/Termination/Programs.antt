-- ===== src/Termination/Programs.antt =====
-- client/runner.py and server/runner.py: the end of the client's program and of a server's turn.
use serial_testkit.Prelude.{ℕ, ◌≤◌, Bool, Option, none, some}
use serial_testkit.Exec.{pure, call, is_peering_error}
use serial_testkit.Exec.Ends.{Ends, Ends-pure, Ends-call, Ends-if, Ends-attempt, Ends-bind}
use serial_testkit.Host.{Host}
use serial_testkit.Host.Laws.{HasClock}
use serial_testkit.Protocol.{Connection, default_ack_timeout, default_syn_interval}
use serial_testkit.Client.Handshake.{client_handshake}
use serial_testkit.Client.Runner.{peering_failed, exit_code, run_session, run_peered}
use serial_testkit.Server.Handshake.{server_handshake}
use serial_testkit.Server.Runner.{
  handshake_poll, expected_count, onward, stopped, serve_peer, server_turn,
}
use serial_testkit.Session.ClientExchange.{client_exchange}
use serial_testkit.Session.ServerExchange.{server_exchange}
use serial_testkit.Termination.Sessions.{client_handshake-Ends, server_handshake-Ends}
use serial_testkit.Termination.Exchanges.{client_exchange-Ends, server_exchange-Ends}

module _ {W : Type 0} (H : Host W) {clock : W → ℕ} (C : HasClock H clock) where
  run_session-Ends :
      (msg_count : ℕ) (conn : Option Connection) → Ends clock (run_session H msg_count conn)
  run_session-Ends msg_count none = Ends-pure peering_failed
  run_session-Ends msg_count (some conn) =
      Ends-bind (client_exchange H conn msg_count) _ (client_exchange-Ends H C conn msg_count)
        λ result. Ends-pure (exit_code result)

  -- On a port whose clock runs, the client's peering and session return an exit code or raise,
  -- whatever the peer sends, and the clock does not go back over them: none of the loops of
  -- `client_handshake`, `client_exchange`, `client_shutdown` and `decode` runs on for ever.
  pub run_peered-Ends :
      (handshake_timeout msg_count : ℕ) → Ends clock (run_peered H handshake_timeout msg_count)
  unfolding run_peered
  run_peered-Ends handshake_timeout msg_count =
      Ends-bind _ _
        (Ends-attempt is_peering_error
          (client_handshake H handshake_timeout default_syn_interval
            (some (record { msg_count = msg_count })))
          (client_handshake-Ends H C handshake_timeout default_syn_interval _))
        λ conn. run_session-Ends msg_count conn

  module _ (signalled : W → Bool × W) (quick : (w : W) → clock w ≤ clock (signalled w).1) where
    serve_peer-Ends : (conn : Option Connection) → Ends clock (serve_peer H signalled conn)
    serve_peer-Ends none = Ends-pure onward
    serve_peer-Ends (some conn) = Ends-bind (call signalled) _ (Ends-call signalled quick) λ stop.
        Ends-if stop (pure stopped) _ (λ _. Ends-pure stopped)
          λ _.
            Ends-bind (server_exchange H conn (expected_count conn.session_params)) _
              (server_exchange-Ends H C conn (expected_count conn.session_params))
              λ _. Ends-bind (call signalled) _ (Ends-call signalled quick) λ stop'.
                Ends-if stop' (pure stopped) (pure onward) (λ _. Ends-pure stopped)
                  λ _. Ends-pure onward

    -- A turn of the server's loop (handshake, session, shutdown) returns or raises, whatever the
    -- peer sends, so the loop comes back to its test for a signal.
    pub server_turn-Ends : Ends clock (server_turn H signalled)
    unfolding server_turn
    server_turn-Ends =
        Ends-bind _ _
          (Ends-attempt is_peering_error (server_handshake H handshake_poll default_ack_timeout)
            (server_handshake-Ends H C handshake_poll default_ack_timeout))
          serve_peer-Ends
