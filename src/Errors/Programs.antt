-- ===== src/Errors/Programs.antt =====
-- client/runner.py and server/runner.py: how a run on an open port comes out.
use serial_testkit.Prelude.{ℕ, ◌^◌, ◌≤◌, ◌<◌, ◌≡◌, ◌⊎◌, inl, inr, Bool, Option, none, some, length}
use serial_testkit.Exec.{
  Exn, Result, ok, err, unexpected_message, pure, call, attempt, is_peering_error,
}
use serial_testkit.Exec.Yields.{IfSome, Yields-attempt}
use serial_testkit.Exec.Raises.{
  Raises, Raises-pure, Raises-call, Raises-if, Raises-attempt, Raises-bind, Raises-then,
  returns_or_raises,
}
use serial_testkit.Host.{Host}
use serial_testkit.Host.Laws.{HasClock, IsCalm, IsCrc32}
use serial_testkit.Protocol.{Connection, conn_id_size, default_syn_interval, default_ack_timeout}
use serial_testkit.Client.Handshake.{client_handshake}
use serial_testkit.Client.Runner.{peering_failed, exit_code, run_session, run_peered}
use serial_testkit.Server.Handshake.{server_handshake}
use serial_testkit.Server.Ids.{IsSized, server_handshake-IsSized}
use serial_testkit.Server.Runner.{
  onward, stopped, handshake_poll, expected_count, serve_peer, server_turn,
}
use serial_testkit.Session.ClientExchange.{client_exchange}
use serial_testkit.Session.ServerExchange.{server_exchange}
use serial_testkit.Termination.Programs.{run_peered-Ends, server_turn-Ends}
use serial_testkit.Errors.Sessions.{
  client_handshake-Raises, client_handshake-IsId, server_handshake-Raises,
}
use serial_testkit.Errors.Exchanges.{IsUnexpected, client_exchange-Raises, server_exchange-Raises}

-- A result, or the exception of a message of the wrong type.
abbrev pub ComesOut : {A : Type 0} → Result A → Type 0
ComesOut {A} r = ((a : A) × (r ≡ ok a)) ⊎ (r ≡ err unexpected_message)

comes_out :
    {A : Type 0} (r : Result A)
    → ((a : A) × (r ≡ ok a)) ⊎ ((x : Exn) × (r ≡ err x) × IsUnexpected x)
    → ComesOut r
comes_out r (inl h) = inl h
comes_out r (inr (x, e, u)) = inr (cc (e, u))

module _ {W : Type 0} (H : Host W) {clock : W → ℕ} (C : HasClock H clock) (c : IsCalm H)
    (crc : IsCrc32 H) where
  run_session-Raises :
      (msg_count : ℕ) (o : Option Connection)
      → IfSome (λ conn. length conn.connection_id ≡ conn_id_size) o
      → Raises IsUnexpected (run_session H msg_count o)
  run_session-Raises msg_count none h = Raises-pure peering_failed
  run_session-Raises msg_count (some conn) h =
      Raises-then (client_exchange H conn msg_count) _
        (client_exchange-Raises H c crc conn h msg_count) λ r. Raises-pure (exit_code r)

  run_peered-Raises :
      (timeout msg_count : ℕ)
      → msg_count < 2 ^ 32
      → Raises IsUnexpected (run_peered H timeout msg_count)
  unfolding run_peered
  run_peered-Raises timeout msg_count fits =
      let shake =
        client_handshake H timeout default_syn_interval (some (record { msg_count = msg_count })) in
      Raises-bind (attempt is_peering_error shake) _
        (Raises-attempt is_peering_error shake
          (client_handshake-Raises H c crc timeout default_syn_interval _ fits)
          λ x h k. absurd (cc (h, k)))
        (Yields-attempt is_peering_error shake
          (client_handshake-IsId H c crc timeout default_syn_interval _))
        (run_session-Raises msg_count)

  -- On a port whose clock runs and that raises nothing itself, with a message count that fits the
  -- ACK's field, the client's peering and session come to an exit code or raise
  -- UnexpectedMessageError, whatever the peer sends; no other exception leaves them.
  pub run_peered-ComesOut :
      (timeout msg_count : ℕ) (w : W)
      → msg_count < 2 ^ 32
      → ComesOut (run_peered H timeout msg_count w).0
  run_peered-ComesOut timeout msg_count w fits = comes_out (run_peered H timeout msg_count w).0 (
      returns_or_raises (run_peered H timeout msg_count w).0
        ((run_peered-Ends H C timeout msg_count).returns w)
        ((run_peered-Raises timeout msg_count fits).raises w))

  module _ (signalled : W → Bool × W) (quick : (w : W) → clock w ≤ clock (signalled w).1) where
    serve_peer-Raises :
        (o : Option Connection) → IfSome IsSized o → Raises IsUnexpected (serve_peer H signalled o)
    serve_peer-Raises none h = Raises-pure onward
    serve_peer-Raises (some conn) h = Raises-then (call signalled) _ (Raises-call signalled) λ stop.
        Raises-if stop (pure stopped) _ (λ _. Raises-pure stopped)
          λ _.
            Raises-then (server_exchange H conn (expected_count conn.session_params)) _
              (server_exchange-Raises H c crc conn h (expected_count conn.session_params))
              λ _. Raises-then (call signalled) _ (Raises-call signalled) λ stop'.
                Raises-if stop' (pure stopped) (pure onward) (λ _. Raises-pure stopped)
                  λ _. Raises-pure onward

    server_turn-Raises : Raises IsUnexpected (server_turn H signalled)
    unfolding server_turn
    server_turn-Raises =
        let shake = server_handshake H handshake_poll default_ack_timeout in
        Raises-bind (attempt is_peering_error shake) _
          (Raises-attempt is_peering_error shake
            (server_handshake-Raises H c crc handshake_poll default_ack_timeout)
            λ x h k. absurd (cc (h, k)))
          (Yields-attempt is_peering_error shake
            (server_handshake-IsSized H handshake_poll default_ack_timeout))
          serve_peer-Raises

    -- On a port whose clock runs and that raises nothing itself, a turn of the server's loop comes
    -- to its end or its `break`, or raises UnexpectedMessageError, whatever the peer sends; no other
    -- exception leaves it.
    pub server_turn-ComesOut : (w : W) → ComesOut (server_turn H signalled w).0
    server_turn-ComesOut w = comes_out (server_turn H signalled w).0 (
        returns_or_raises (server_turn H signalled w).0
          ((server_turn-Ends H C signalled quick).returns w) (server_turn-Raises.raises w))
