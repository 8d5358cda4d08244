-- ===== src/Errors/Exchanges.antt =====
-- session/exchange.py: the one exception that leaves the exchanges.
use serial_testkit.Prelude.{
  ℕ, zero, suc, ◌+◌, ◌≤◌, ◌≡◌, Bool, Option, none, some, [], ◌∷◌, ◌==◌, length, arith,
}
use serial_testkit.Prelude.Bytes.{Bytes}
use serial_testkit.Exec.{
  Exn, unexpected_message, zero_division, pure, raise, call, attempt, is_receive_error,
}
use serial_testkit.Exec.Yields.{Yields, IfSome, Yields-pure, Yields-attempt}
use serial_testkit.Exec.Raises.{
  Raises, Never, Raises-pure, Raises-call, Raises-Never, Raises-if, Raises-bind, Raises-then,
}
use serial_testkit.Host.{Host}
use serial_testkit.Host.Laws.{IsCalm, IsCrc32}
use serial_testkit.Message.{random_payload, max_message_length}
use serial_testkit.Protocol.{is_type, data_msg, fin, Connection, conn_id_size, fin_wait_timeout}
use serial_testkit.SerialIo.{Reply, recv_data, send_data}
use serial_testkit.Timed.{Round, again, done}
use serial_testkit.Client.Shutdown.{client_shutdown}
use serial_testkit.Server.Shutdown.{server_shutdown}
use serial_testkit.Session.Outcome.{SessionStats, no_stats, SessionResult}
use serial_testkit.Session.Stats.{is_written, count_sent, stop_clock, log_progress, wait_for_fin}
use serial_testkit.Session.ClientExchange.{
  handle_client_data_response, handle_client_server_fin, on_client_reply, client_round,
  client_rounds, client_finish, client_exchange,
}
use serial_testkit.Session.ServerExchange.{
  echo, handle_server_data, handle_server_client_fin, on_server_reply, server_round, server_rounds,
  answer_fin, server_finish, server_exchange,
}
use serial_testkit.Errors.Framing.{
  IsShort, random_payload-size, random_payload-Calm, send_data-Calm, recv_data-IsShort,
  received-Raises,
}
use serial_testkit.Errors.Sessions.{client_shutdown-Calm, server_shutdown-Calm, wait_for_fin-Calm}

-- A message of the wrong type.
abbrev pub IsUnexpected : Exn → Type 0
IsUnexpected x = x ≡ unexpected_message

module _ {W : Type 0} (H : Host W) (c : IsCalm H) (crc : IsCrc32 H) (conn : Connection)
    (sized : length conn.connection_id ≡ conn_id_size) where
  stop_clock-Calm :
      {P : Exn → Type 0} (s : SessionStats) (start : ℕ) → Raises P (stop_clock H s start)
  unfolding stop_clock
  stop_clock-Calm s start = record { raises = λ w x e. absurd (cc) }

  log_progress-Calm : {P : Exn → Type 0} → Raises P (log_progress H)
  unfolding log_progress
  log_progress-Calm =
      Raises-if (H.log_interval == 0) (raise zero_division) (pure tt)
        (λ e. absurd (c.log_set (ground arith))) λ _. Raises-pure tt

  data_response-Calm :
      (s : SessionStats) (response : Bytes) (good : Bool) (rtt_start : ℕ)
      → Raises IsUnexpected (handle_client_data_response H s response good rtt_start)
  unfolding handle_client_data_response log_progress
  data_response-Calm s response good rtt_start = record {
    raises = λ w x e. ground (arith, c.log_set);
  }

  on_client_reply-Raises :
      (start rtt_start i : ℕ) (s : SessionStats) (o : Option Reply)
      → Raises IsUnexpected (on_client_reply H start rtt_start i s o)
  unfolding on_client_reply handle_client_server_fin
  on_client_reply-Raises start rtt_start i s none =
      Raises-then (stop_clock H s start) _ (stop_clock-Calm s start) λ stopped. Raises-pure _
  on_client_reply-Raises start rtt_start i s (some r) =
      Raises-if (is_type r.msg_type data_msg) _ _
        (λ _.
          Raises-then (handle_client_data_response H s r.payload r.crc_ok rtt_start) _
            (data_response-Calm s r.payload r.crc_ok rtt_start) λ s'. Raises-pure _)
        (λ _.
          Raises-if (is_type r.msg_type fin) _ _
            (λ _.
              Raises-then (handle_client_server_fin H s start) _
                (Raises-then (stop_clock H s start) _ (stop_clock-Calm s start)
                  λ stopped. Raises-pure _)
                λ result. Raises-pure _)
            (λ _. Raises-pure _))

  client_round-Raises :
      (start i : ℕ) (s : SessionStats) → Raises IsUnexpected (client_round H conn start i s)
  unfolding client_round
  client_round-Raises start i s =
      Raises-bind (random_payload H) _ (Raises-Never _ (random_payload-Calm H c crc))
        (random_payload-size H c crc)
        λ payload small. Raises-then (call H.monotonic) _ (Raises-call _) λ rtt_start.
          Raises-then (send_data H conn payload) _
            (Raises-Never _ (send_data-Calm H c crc conn payload sized (omega arith)))
            λ written.
              Raises-then (attempt is_receive_error (recv_data H conn)) _
                (received-Raises H c crc conn)
                λ got. on_client_reply-Raises start rtt_start i (count_sent s written) got

  client_rounds-Raises :
      (start left i : ℕ) (s : SessionStats)
      → Raises IsUnexpected (client_rounds H conn start left i s)
  unfolding client_rounds
  client_rounds-Raises start zero i s = Raises-pure _
  client_rounds-Raises start (suc left) i s =
      Raises-then (client_round H conn start i s) _ (client_round-Raises start i s) (elim [
        | again s' ↦ client_rounds-Raises start left (i + 1) s'
        | done result ↦ Raises-pure _
      ])

  client_finish-Raises :
      (start : ℕ) (r : Round SessionStats SessionResult)
      → Raises IsUnexpected (client_finish H conn start r)
  unfolding client_finish
  client_finish-Raises start (done result) = Raises-pure result
  client_finish-Raises start (again s) =
      Raises-then (stop_clock H s start) _ (stop_clock-Calm s start) λ stopped.
        Raises-then (client_shutdown H conn fin_wait_timeout) _
          (Raises-Never _ (client_shutdown-Calm H c crc conn fin_wait_timeout sized))
          λ fin_ack. Raises-pure _

  pub client_exchange-Raises :
      (msg_count : ℕ) → Raises IsUnexpected (client_exchange H conn msg_count)
  unfolding client_exchange
  client_exchange-Raises msg_count = Raises-then (call H.monotonic) _ (Raises-call _) λ start.
      Raises-if (msg_count == 0) _ _ (λ _. client_finish-Raises start (again no_stats))
        λ _.
          Raises-then (client_rounds H conn start msg_count 0 no_stats) _
            (client_rounds-Raises start msg_count 0 no_stats) (client_finish-Raises start)

  echo-Calm : (content : Bytes) → Raises Never (echo H content)
  unfolding echo
  echo-Calm [] = random_payload-Calm H c crc
  echo-Calm (b ∷ bs) = Raises-pure _

  echo-size :
      (content : Bytes)
      → length content ≤ max_message_length
      → Yields (λ bs. length bs ≤ max_message_length) (echo H content)
  unfolding echo
  echo-size [] h = record {
    yields = λ w bs e. omega (arith, (random_payload-size H c crc).yields w bs e);
  }
  echo-size (b ∷ bs) h = Yields-pure (b ∷ bs) h

  server_data-Calm :
      (s : SessionStats) (content : Bytes) (good : Bool)
      → length content ≤ max_message_length
      → Raises IsUnexpected (handle_server_data H conn s content good)
  unfolding handle_server_data
  server_data-Calm s content good h =
      Raises-bind (echo H content) _ (Raises-Never _ (echo-Calm content)) (echo-size content h)
        λ payload fits.
          Raises-then (send_data H conn payload) _
            (Raises-Never _ (send_data-Calm H c crc conn payload sized fits))
            λ written.
              Raises-if (is_written written) _ _
                (λ _. Raises-then (log_progress H) _ log_progress-Calm λ _. Raises-pure _)
                (λ _. Raises-pure _)

  server_fin-Calm :
      (s : SessionStats) (start : ℕ) → Raises IsUnexpected (handle_server_client_fin H conn s start)
  unfolding handle_server_client_fin
  server_fin-Calm s start =
      Raises-then (stop_clock H s start) _ (stop_clock-Calm s start) λ stopped.
        Raises-then (server_shutdown H conn) _
          (Raises-Never _ (server_shutdown-Calm H c crc conn sized)) λ _. Raises-pure _

  on_server_reply-Raises :
      (start i : ℕ) (s : SessionStats) (o : Option Reply)
      → IfSome IsShort o
      → Raises IsUnexpected (on_server_reply H conn start i s o)
  unfolding on_server_reply
  on_server_reply-Raises start i s none h =
      Raises-then (stop_clock H s start) _ (stop_clock-Calm s start) λ stopped. Raises-pure _
  on_server_reply-Raises start i s (some r) h =
      Raises-if (is_type r.msg_type data_msg) _ _
        (λ _.
          Raises-then (handle_server_data H conn s r.payload r.crc_ok) _
            (server_data-Calm s r.payload r.crc_ok h) λ s'. Raises-pure _)
        (λ _.
          Raises-if (is_type r.msg_type fin) _ _
            (λ _.
              Raises-then (handle_server_client_fin H conn s start) _ (server_fin-Calm s start)
                λ result. Raises-pure _)
            (λ _. Raises-pure _))

  server_rounds-Raises :
      (start left i : ℕ) (s : SessionStats)
      → Raises IsUnexpected (server_rounds H conn start left i s)
  unfolding server_rounds server_round
  server_rounds-Raises start zero i s = Raises-pure _
  server_rounds-Raises start (suc left) i s =
      Raises-then (server_round H conn start i s) _
        (Raises-bind (attempt is_receive_error (recv_data H conn)) _ (received-Raises H c crc conn)
          (Yields-attempt is_receive_error (recv_data H conn) (recv_data-IsShort H c crc conn))
          λ got h. on_server_reply-Raises start i s got h)
        (elim [
          | again s' ↦ server_rounds-Raises start left (i + 1) s'
          | done result ↦ Raises-pure _
        ])

  answer_fin-Calm : (b : Bool) → Raises Never (answer_fin H conn b)
  unfolding answer_fin
  answer_fin-Calm b =
      Raises-if b _ _
        (λ _.
          Raises-then (server_shutdown H conn) _ (server_shutdown-Calm H c crc conn sized)
            λ _. Raises-pure tt)
        (λ _. Raises-pure tt)

  server_finish-Raises :
      (start : ℕ) (r : Round SessionStats SessionResult)
      → Raises IsUnexpected (server_finish H conn start r)
  unfolding server_finish
  server_finish-Raises start (done result) = Raises-pure result
  server_finish-Raises start (again s) =
      Raises-then (stop_clock H s start) _ (stop_clock-Calm s start) λ stopped.
        Raises-then (wait_for_fin H conn fin_wait_timeout) _
          (Raises-Never _ (wait_for_fin-Calm H c crc conn fin_wait_timeout))
          λ found.
            Raises-then (answer_fin H conn found) _ (Raises-Never _ (answer_fin-Calm found))
              λ _. Raises-pure _

  pub server_exchange-Raises :
      (msg_count : ℕ) → Raises IsUnexpected (server_exchange H conn msg_count)
  unfolding server_exchange
  server_exchange-Raises msg_count = Raises-then (call H.monotonic) _ (Raises-call _) λ start.
      Raises-if (msg_count == 0) _ _ (λ _. server_finish-Raises start (again no_stats))
        λ _.
          Raises-then (server_rounds H conn start msg_count 0 no_stats) _
            (server_rounds-Raises start msg_count 0 no_stats) (server_finish-Raises start)
