-- ===== src/Session/ClientExchange.antt =====
-- session/exchange.py: the request-response loop of the client.
use serial_testkit.Prelude.{
  ℕ, zero, suc, ◌+◌, ◌-◌, Bool, false, Option, none, some, [], ◌∷◌, ◌++◌, ◌==◌, if◌then◌else◌,
}
use serial_testkit.Prelude.Bytes.{Bytes}
use serial_testkit.Exec.{Exec, pure, call, attempt, is_receive_error, ◌>>=◌, ◌>>◌}
use serial_testkit.Host.{Host}
use serial_testkit.Message.{random_payload}
use serial_testkit.Protocol.{data_msg, fin, is_type, Connection, fin_wait_timeout}
use serial_testkit.SerialIo.{Reply, send_data, recv_data}
use serial_testkit.Timed.{Round, again, done}
use serial_testkit.Client.Shutdown.{client_shutdown}
use serial_testkit.Session.Outcome.{
  SessionStats, no_stats, SessionResult, timeout_response, server_sent_fin,
}
use serial_testkit.Session.Stats.{
  count_sent, count_received, failed, succeeded, stop_clock, log_progress,
}

module _ {W : Type 0} (H : Host W) where
  unfoldable pub handle_client_data_response : SessionStats → Bytes → Bool → ℕ → Exec W SessionStats
  handle_client_data_response stats response crc_ok rtt_start =
      let counted = count_received stats response in
      if crc_ok
      then (do
        now ← call H.monotonic
        log_progress H
        pure (record counted {
          crc_ok = counted.crc_ok + 1;
          rtt_samples = counted.rtt_samples ++ (now - rtt_start) ∷ [];
        }))
      else pure (record counted { crc_errors = counted.crc_errors + 1 })

  unfoldable pub handle_client_server_fin : SessionStats → ℕ → Exec W SessionResult
  handle_client_server_fin stats start = do
    stopped ← stop_clock H stats start
    pure (failed stopped server_sent_fin false)

  -- The `except` clause and the match on the message type.
  unfoldable pub on_client_reply :
      ℕ → ℕ → ℕ → SessionStats → Option Reply → Exec W (Round SessionStats SessionResult)
  on_client_reply start rtt_start i stats none = do
    stopped ← stop_clock H stats start
    pure (done (failed stopped (timeout_response (i + 1)) false))
  on_client_reply start rtt_start i stats (some r) =
      if is_type r.msg_type data_msg
      then (do
        stats' ← handle_client_data_response stats r.payload r.crc_ok rtt_start
        pure (again stats'))
      else if is_type r.msg_type fin
      then (do result ← handle_client_server_fin stats start; pure (done result))
      else pure (again stats)

  unfoldable pub client_round :
      Connection → ℕ → ℕ → SessionStats → Exec W (Round SessionStats SessionResult)
  client_round conn start i stats = do
    payload ← random_payload H
    rtt_start ← call H.monotonic
    bytes_written ← send_data H conn payload
    got ← attempt is_receive_error (recv_data H conn)
    on_client_reply start rtt_start i (count_sent stats bytes_written) got

  -- `for i in range(msg_count)`, with the rounds that are left.
  unfoldable pub client_rounds :
      Connection → ℕ → ℕ → ℕ → SessionStats → Exec W (Round SessionStats SessionResult)
  client_rounds conn start zero i stats = pure (again stats)
  client_rounds conn start (suc left) i stats = do
    r ← client_round conn start i stats
    elim r [
      | again stats' ↦ client_rounds conn start left (i + 1) stats'
      | done result ↦ pure (done result)
    ]

  -- Behind the loop.
  unfoldable pub client_finish :
      Connection → ℕ → Round SessionStats SessionResult → Exec W SessionResult
  client_finish conn start (done result) = pure result
  client_finish conn start (again stats) = do
    stopped ← stop_clock H stats start
    fin_ack ← client_shutdown H conn fin_wait_timeout
    pure (succeeded stopped fin_ack false)

  unfoldable pub client_exchange : Connection → ℕ → Exec W SessionResult
  client_exchange conn msg_count = do
    start ← call H.monotonic
    if msg_count == 0
        then client_finish conn start (again no_stats)
        else (do r ← client_rounds conn start msg_count 0 no_stats; client_finish conn start r)
