-- ===== src/Termination/Exchanges.antt =====
-- session/exchange.py: the end of the two exchanges.
use serial_testkit.Prelude.{
  ℕ, zero, suc, ◌+◌, Bool, true, false, Option, none, some, [], ◌∷◌, arith, ◌==◌,
}
use serial_testkit.Prelude.Bytes.{Bytes}
use serial_testkit.Exec.{call, attempt, is_receive_error}
use serial_testkit.Exec.Ends.{Ends, Ends-pure, Ends-if, Ends-attempt, Ends-bind}
use serial_testkit.Host.{Host}
use serial_testkit.Host.Laws.{HasClock}
use serial_testkit.Message.{random_payload}
use serial_testkit.Protocol.{fin, data_msg, is_type, Connection, fin_wait_timeout}
use serial_testkit.SerialIo.{Reply, recv_data, send_data}
use serial_testkit.Timed.{Round, again, done}
use serial_testkit.Client.Shutdown.{client_shutdown}
use serial_testkit.Server.Shutdown.{server_shutdown}
use serial_testkit.Session.Outcome.{SessionStats, SessionResult, no_stats}
use serial_testkit.Session.Stats.{count_sent, is_written, wait_for_fin, stop_clock, log_progress}
use serial_testkit.Session.ClientExchange.{
  handle_client_data_response, handle_client_server_fin, on_client_reply, client_round,
  client_rounds, client_finish, client_exchange,
}
use serial_testkit.Session.ServerExchange.{
  echo, handle_server_data, handle_server_client_fin, on_server_reply, server_round, server_rounds,
  answer_fin, server_finish, server_exchange,
}
use serial_testkit.Termination.Framing.{random_payload-Ends, send_data-Ends, recv_data-Ends}
use serial_testkit.Termination.Loops.{now-Ends}
use serial_testkit.Termination.Sessions.{
  client_shutdown-Ends, server_shutdown-Ends, wait_for_fin-Ends, stop_clock-Ends, log_progress-Ends,
}

module _ {W : Type 0} (H : Host W) {clock : W → ℕ} (C : HasClock H clock) where
  handle_client_data_response-Ends :
      (s : SessionStats) (response : Bytes) (good : Bool) (rtt_start : ℕ)
      → Ends clock (handle_client_data_response H s response good rtt_start)
  unfolding handle_client_data_response
  handle_client_data_response-Ends s response true rtt_start = record {
    returns = λ w e. ground (arith, (log_progress-Ends H C).returns (H.monotonic w).1);
    later = λ w.
        ground (arith, (now-Ends H C).later w, (log_progress-Ends H C).later (H.monotonic w).1);
  }
  handle_client_data_response-Ends s response false rtt_start = Ends-pure _

  handle_client_server_fin-Ends :
      (s : SessionStats) (start : ℕ) → Ends clock (handle_client_server_fin H s start)
  unfolding handle_client_server_fin
  handle_client_server_fin-Ends s start =
      Ends-bind (stop_clock H s start) _ (stop_clock-Ends H C s start) λ stopped. Ends-pure _

  on_client_reply-Ends :
      (start rtt_start i : ℕ) (s : SessionStats) (o : Option Reply)
      → Ends clock (on_client_reply H start rtt_start i s o)
  unfolding on_client_reply
  on_client_reply-Ends start rtt_start i s none =
      Ends-bind (stop_clock H s start) _ (stop_clock-Ends H C s start) λ stopped. Ends-pure _
  on_client_reply-Ends start rtt_start i s (some r) =
      Ends-if (is_type r.msg_type data_msg) _ _
        (λ _.
          Ends-bind (handle_client_data_response H s r.payload r.crc_ok rtt_start) _
            (handle_client_data_response-Ends s r.payload r.crc_ok rtt_start)
            λ s'. Ends-pure (again s'))
        λ _.
          Ends-if (is_type r.msg_type fin) _ _
            (λ _.
              Ends-bind (handle_client_server_fin H s start) _
                (handle_client_server_fin-Ends s start) λ result. Ends-pure (done result))
            λ _. Ends-pure (again s)

  client_round-Ends :
      (conn : Connection) (start i : ℕ) (s : SessionStats)
      → Ends clock (client_round H conn start i s)
  unfolding client_round
  client_round-Ends conn start i s =
      Ends-bind (random_payload H) _ (random_payload-Ends H C) λ payload.
        Ends-bind (call H.monotonic) _ (now-Ends H C) λ rtt_start.
          Ends-bind (send_data H conn payload) _ (send_data-Ends H C conn payload) λ written.
            Ends-bind (attempt is_receive_error (recv_data H conn)) _
              (Ends-attempt is_receive_error (recv_data H conn) (recv_data-Ends H C conn))
              λ got. on_client_reply-Ends start rtt_start i (count_sent s written) got

  client_rounds-Ends :
      (conn : Connection) (start left i : ℕ) (s : SessionStats)
      → Ends clock (client_rounds H conn start left i s)
  unfolding client_rounds
  client_rounds-Ends conn start zero i s = Ends-pure (again s)
  client_rounds-Ends conn start (suc left) i s =
      Ends-bind (client_round H conn start i s) _ (client_round-Ends conn start i s) (elim [
        | again s' ↦ client_rounds-Ends conn start left (i + 1) s'
        | done result ↦ Ends-pure (done result)
      ])

  client_finish-Ends :
      (conn : Connection) (start : ℕ) (r : Round SessionStats SessionResult)
      → Ends clock (client_finish H conn start r)
  unfolding client_finish
  client_finish-Ends conn start (done result) = Ends-pure result
  client_finish-Ends conn start (again s) =
      Ends-bind (stop_clock H s start) _ (stop_clock-Ends H C s start) λ stopped.
        Ends-bind (client_shutdown H conn fin_wait_timeout) _
          (client_shutdown-Ends H C conn fin_wait_timeout) λ fin_ack. Ends-pure _

  pub client_exchange-Ends :
      (conn : Connection) (msg_count : ℕ) → Ends clock (client_exchange H conn msg_count)
  unfolding client_exchange
  client_exchange-Ends conn msg_count = Ends-bind (call H.monotonic) _ (now-Ends H C) λ start.
      Ends-if (msg_count == 0) _ _ (λ _. client_finish-Ends conn start (again no_stats))
        λ _.
          Ends-bind (client_rounds H conn start msg_count 0 no_stats) _
            (client_rounds-Ends conn start msg_count 0 no_stats)
            λ r. client_finish-Ends conn start r

  echo-Ends : (content : Bytes) → Ends clock (echo H content)
  unfolding echo
  echo-Ends [] = random_payload-Ends H C
  echo-Ends (b ∷ bs) = Ends-pure (b ∷ bs)

  handle_server_data-Ends :
      (conn : Connection) (s : SessionStats) (content : Bytes) (good : Bool)
      → Ends clock (handle_server_data H conn s content good)
  unfolding handle_server_data
  handle_server_data-Ends conn s content good =
      Ends-bind (echo H content) _ (echo-Ends content) λ payload.
        Ends-bind (send_data H conn payload) _ (send_data-Ends H C conn payload) λ written.
          Ends-if (is_written written) _ _
            (λ _. Ends-bind (log_progress H) _ (log_progress-Ends H C) λ _. Ends-pure _)
            λ _. Ends-pure _

  handle_server_client_fin-Ends :
      (conn : Connection) (s : SessionStats) (start : ℕ)
      → Ends clock (handle_server_client_fin H conn s start)
  unfolding handle_server_client_fin
  handle_server_client_fin-Ends conn s start =
      Ends-bind (stop_clock H s start) _ (stop_clock-Ends H C s start) λ stopped.
        Ends-bind (server_shutdown H conn) _ (server_shutdown-Ends H C conn) λ _. Ends-pure _

  on_server_reply-Ends :
      (conn : Connection) (start i : ℕ) (s : SessionStats) (o : Option Reply)
      → Ends clock (on_server_reply H conn start i s o)
  unfolding on_server_reply
  on_server_reply-Ends conn start i s none =
      Ends-bind (stop_clock H s start) _ (stop_clock-Ends H C s start) λ stopped. Ends-pure _
  on_server_reply-Ends conn start i s (some r) =
      Ends-if (is_type r.msg_type data_msg) _ _
        (λ _.
          Ends-bind (handle_server_data H conn s r.payload r.crc_ok) _
            (handle_server_data-Ends conn s r.payload r.crc_ok) λ s'. Ends-pure (again s'))
        λ _.
          Ends-if (is_type r.msg_type fin) _ _
            (λ _.
              Ends-bind (handle_server_client_fin H conn s start) _
                (handle_server_client_fin-Ends conn s start) λ result. Ends-pure (done result))
            λ _. Ends-pure (again s)

  server_rounds-Ends :
      (conn : Connection) (start left i : ℕ) (s : SessionStats)
      → Ends clock (server_rounds H conn start left i s)
  unfolding server_rounds server_round
  server_rounds-Ends conn start zero i s = Ends-pure (again s)
  server_rounds-Ends conn start (suc left) i s =
      Ends-bind (server_round H conn start i s) _
        (Ends-bind (attempt is_receive_error (recv_data H conn)) _
          (Ends-attempt is_receive_error (recv_data H conn) (recv_data-Ends H C conn))
          λ got. on_server_reply-Ends conn start i s got)
        (elim [
          | again s' ↦ server_rounds-Ends conn start left (i + 1) s'
          | done result ↦ Ends-pure (done result)
        ])

  answer_fin-Ends : (conn : Connection) (b : Bool) → Ends clock (answer_fin H conn b)
  unfolding answer_fin
  answer_fin-Ends conn true =
      Ends-bind (server_shutdown H conn) _ (server_shutdown-Ends H C conn) λ _. Ends-pure tt
  answer_fin-Ends conn false = Ends-pure tt

  server_finish-Ends :
      (conn : Connection) (start : ℕ) (r : Round SessionStats SessionResult)
      → Ends clock (server_finish H conn start r)
  unfolding server_finish
  server_finish-Ends conn start (done result) = Ends-pure result
  server_finish-Ends conn start (again s) =
      Ends-bind (stop_clock H s start) _ (stop_clock-Ends H C s start) λ stopped.
        Ends-bind (wait_for_fin H conn fin_wait_timeout) _
          (wait_for_fin-Ends H C conn fin_wait_timeout)
          λ got. Ends-bind (answer_fin H conn got) _ (answer_fin-Ends conn got) λ _. Ends-pure _

  pub server_exchange-Ends :
      (conn : Connection) (msg_count : ℕ) → Ends clock (server_exchange H conn msg_count)
  unfolding server_exchange
  server_exchange-Ends conn msg_count = Ends-bind (call H.monotonic) _ (now-Ends H C) λ start.
      Ends-if (msg_count == 0) _ _ (λ _. server_finish-Ends conn start (again no_stats))
        λ _.
          Ends-bind (server_rounds H conn start msg_count 0 no_stats) _
            (server_rounds-Ends conn start msg_count 0 no_stats)
            λ r. server_finish-Ends conn start r
