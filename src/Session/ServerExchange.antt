-- ===== src/Session/ServerExchange.antt =====
-- session/exchange.py: the echo loop of the server.
use serial_testkit.Prelude.{
  ℕ, zero, suc, ◌+◌, Bool, true, false, Option, none, some, [], ◌∷◌, ◌==◌, if◌then◌else◌,
}
use serial_testkit.Prelude.Bytes.{Bytes}
use serial_testkit.Exec.{Exec, pure, call, attempt, is_receive_error, ◌>>=◌, ◌>>◌}
use serial_testkit.Host.{Host}
use serial_testkit.Message.{random_payload}
use serial_testkit.Protocol.{data_msg, fin, is_type, Connection, fin_wait_timeout}
use serial_testkit.SerialIo.{Reply, send_data, recv_data}
use serial_testkit.Timed.{Round, again, done}
use serial_testkit.Server.Shutdown.{server_shutdown}
use serial_testkit.Session.Outcome.{
  SessionStats, no_stats, SessionResult, timeout_message, client_sent_fin,
}
use serial_testkit.Session.Stats.{
  is_written, count_sent, count_received, failed, succeeded, stop_clock, log_progress, wait_for_fin,
}

-- The message is counted, and its CRC judged.
unfoldable pub judge : SessionStats → Bytes → Bool → SessionStats
judge stats content crc_ok =
    let counted = count_received stats content in
    if crc_ok
    then record counted { crc_ok = counted.crc_ok + 1 }
    else record counted { crc_errors = counted.crc_errors + 1 }

module _ {W : Type 0} (H : Host W) where
  -- `data if data else random_payload()`
  unfoldable pub echo : Bytes → Exec W Bytes
  echo [] = random_payload H
  echo (b ∷ bs) = pure (b ∷ bs)

  unfoldable pub handle_server_data : Connection → SessionStats → Bytes → Bool → Exec W SessionStats
  handle_server_data conn stats content crc_ok =
      let judged = judge stats content crc_ok in
      do
        payload ← echo content
        bytes_written ← send_data H conn payload
        if is_written bytes_written
            then (do log_progress H; pure (count_sent judged bytes_written))
            else pure judged

  unfoldable pub handle_server_client_fin : Connection → SessionStats → ℕ → Exec W SessionResult
  handle_server_client_fin conn stats start = do
    stopped ← stop_clock H stats start
    server_shutdown H conn
    pure (failed stopped (client_sent_fin stopped.received) true)

  unfoldable pub on_server_reply :
      Connection → ℕ → ℕ → SessionStats → Option Reply → Exec W (Round SessionStats SessionResult)
  on_server_reply conn start i stats none = do
    stopped ← stop_clock H stats start
    pure (done (failed stopped (timeout_message (i + 1)) false))
  on_server_reply conn start i stats (some r) =
      if is_type r.msg_type data_msg
      then (do stats' ← handle_server_data conn stats r.payload r.crc_ok; pure (again stats'))
      else if is_type r.msg_type fin
      then (do result ← handle_server_client_fin conn stats start; pure (done result))
      else pure (again stats)

  unfoldable pub server_round :
      Connection → ℕ → ℕ → SessionStats → Exec W (Round SessionStats SessionResult)
  server_round conn start i stats = do
    got ← attempt is_receive_error (recv_data H conn)
    on_server_reply conn start i stats got

  unfoldable pub server_rounds :
      Connection → ℕ → ℕ → ℕ → SessionStats → Exec W (Round SessionStats SessionResult)
  server_rounds conn start zero i stats = pure (again stats)
  server_rounds conn start (suc left) i stats = do
    r ← server_round conn start i stats
    elim r [
      | again stats' ↦ server_rounds conn start left (i + 1) stats'
      | done result ↦ pure (done result)
    ]

  -- `if fin_received: server_shutdown(port, conn)`
  unfoldable pub answer_fin : Connection → Bool → Exec W (Unit {0})
  answer_fin conn fin_received =
      if fin_received then (do server_shutdown H conn; pure tt) else pure tt

  unfoldable pub server_finish :
      Connection → ℕ → Round SessionStats SessionResult → Exec W SessionResult
  server_finish conn start (done result) = pure result
  server_finish conn start (again stats) = do
    stopped ← stop_clock H stats start
    fin_received ← wait_for_fin H conn fin_wait_timeout
    answer_fin conn fin_received
    pure (succeeded stopped false fin_received)

  unfoldable pub server_exchange : Connection → ℕ → Exec W SessionResult
  server_exchange conn msg_count = do
    start ← call H.monotonic
    if msg_count == 0
        then server_finish conn start (again no_stats)
        else (do r ← server_rounds conn start msg_count 0 no_stats; server_finish conn start r)
