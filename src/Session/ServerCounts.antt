-- ===== src/Session/ServerCounts.antt =====
-- The statistics of the server's exchange, and how it ends.
use serial_testkit.Prelude.{
  ℕ, zero, suc, ◌+◌, ◌≤◌, ◌<◌, ◌≡◌, ◌⊎◌, inl, inr, refl, ap, Bool, true, false, Option, none, some,
  [], ◌==◌, arith,
}
use serial_testkit.Prelude.Bytes.{Bytes}
use serial_testkit.Exec.{ok, call, attempt, is_receive_error}
use serial_testkit.Exec.Yields.{
  Yields, Yields-pure, Yields-if, Yields-bind, Yields-then, Yields-attempt, IfSome,
}
use serial_testkit.Host.{Host}
use serial_testkit.Protocol.{is_type, data_msg, fin, Connection, fin_wait_timeout}
use serial_testkit.SerialIo.{Reply, recv_data, send_data}
use serial_testkit.Timed.{Round, again, done}
use serial_testkit.Timed.Returns.{RoundOf}
use serial_testkit.Server.Shutdown.{server_shutdown}
use serial_testkit.Session.Outcome.{
  SessionStats, no_stats, SessionResult, timeout_message, client_sent_fin,
}
use serial_testkit.Session.Stats.{
  is_written, count_sent, count_received, failed, succeeded, stop_clock, log_progress, wait_for_fin,
}
use serial_testkit.Session.Counts.{ServerCounted, IsDataOrFin, data_or_fin, recv_data-IsDataOrFin}
use serial_testkit.Session.ServerExchange.{
  judge, echo, handle_server_data, handle_server_client_fin, on_server_reply, server_round,
  server_rounds, answer_fin, server_finish, server_exchange,
}

-- How the server's session ends: it is a success, with all messages received and no error, or a
-- failure with fewer, whose error names the message that timed out, or the client's FIN.
abbrev pub HasServerEnding : ℕ → SessionResult → Type 0
HasServerEnding msg_count r =
    (r.success ≡ true) × (r.received ≡ msg_count) × (r.error ≡ none)
    ⊎ (r.success ≡ false)
      × (r.received < msg_count)
      × ((r.fin_received ≡ false) × (r.error ≡ some (timeout_message (r.received + 1)))
          ⊎ (r.fin_received ≡ true) × (r.error ≡ some (client_sent_fin r.received)))

-- A result of `server_exchange conn msg_count`.
pub record IsServerResult (msg_count : ℕ) (r : SessionResult) : Type 0 where
  pub judged : r.crc_ok + r.crc_errors ≡ r.received
  pub no_samples : r.rtt_samples ≡ []
  pub sent_bound : r.sent ≤ r.received
  pub no_fin_ack : r.fin_ack_received ≡ false
  pub ending : HasServerEnding msg_count r

module _ (msg_count n : ℕ) (s : SessionStats) (hn : n < msg_count) (k : ServerCounted n s) where
  IsServerResult-timeout : IsServerResult msg_count (failed s (timeout_message (n + 1)) false)
  IsServerResult-timeout = record {
    judged = k.all_judged;
    no_samples = k.no_samples;
    sent_bound = omega arith;
    no_fin_ack = refl;
    ending = inr (refl, omega arith, inl (refl, cc k.all_received));
  }

  IsServerResult-closed : IsServerResult msg_count (failed s (client_sent_fin s.received) true)
  IsServerResult-closed = record {
    judged = k.all_judged;
    no_samples = k.no_samples;
    sent_bound = omega arith;
    no_fin_ack = refl;
    ending = inr (refl, omega arith, inr (refl, refl));
  }

IsServerResult-succeeded :
    (msg_count : ℕ) (s : SessionStats) (fin_received : Bool)
    → ServerCounted msg_count s
    → IsServerResult msg_count (succeeded s false fin_received)
IsServerResult-succeeded msg_count s fin_received k = record {
  judged = k.all_judged;
  no_samples = k.no_samples;
  sent_bound = omega arith;
  no_fin_ack = refl;
  ending = inl (refl, k.all_received, refl);
}

settled : (n m : ℕ) (s : SessionStats) → n ≡ m → ServerCounted n s → ServerCounted m s
settled n m s e h = rw (← e) h

module _ {W : Type 0} (H : Host W) where
  stop_clock-Counted :
      (n : ℕ) (s : SessionStats) (start : ℕ)
      → ServerCounted n s
      → Yields (ServerCounted n) (stop_clock H s start)
  unfolding stop_clock
  stop_clock-Counted n s start h = record { yields = λ w a e. ground arith }

  count_sent-Counted :
      (n : ℕ) (s : SessionStats) (content : Bytes) (good : Bool) (written : Option ℕ)
      → ServerCounted n s
      → ServerCounted (suc n) (count_sent (judge s content good) written)
  unfolding count_sent judge count_received
  count_sent-Counted n s content good written h = ground arith

  judge-Counted :
      (n : ℕ) (s : SessionStats) (content : Bytes) (good : Bool)
      → ServerCounted n s
      → ServerCounted (suc n) (judge s content good)
  unfolding judge count_received
  judge-Counted n s content good h = ground arith

  handle_server_data-Counted :
      (conn : Connection) (n : ℕ) (s : SessionStats) (content : Bytes) (good : Bool)
      → ServerCounted n s
      → Yields (ServerCounted (suc n)) (handle_server_data H conn s content good)
  unfolding handle_server_data
  handle_server_data-Counted conn n s content good h = Yields-then (echo H content) _ λ payload.
      Yields-then (send_data H conn payload) _ λ written.
        Yields-if (is_written written) _ _
          (λ e.
            Yields-then (log_progress H) _
              λ _. Yields-pure _ (count_sent-Counted n s content good written h))
          (λ e. Yields-pure _ (judge-Counted n s content good h))

  abbrev Next : ℕ → ℕ → Round SessionStats SessionResult → Type 0
  Next msg_count n = RoundOf (ServerCounted n) (IsServerResult msg_count)

  fin-IsServerResult :
      (conn : Connection) (msg_count start n : ℕ) (s : SessionStats)
      → n < msg_count
      → ServerCounted n s
      → Yields (IsServerResult msg_count) (handle_server_client_fin H conn s start)
  unfolding handle_server_client_fin
  fin-IsServerResult conn msg_count start n s hn h =
      Yields-bind (stop_clock H s start) _ (stop_clock-Counted n s start h) λ stopped k.
        Yields-then (server_shutdown H conn) _
          λ _. Yields-pure _ (IsServerResult-closed msg_count n stopped hn k)

  -- The three ways on from a message: it timed out, it was judged and echoed, or the client closed.
  on_server_reply-Next :
      (conn : Connection) (msg_count start n : ℕ) (s : SessionStats) (o : Option Reply)
      → n < msg_count
      → ServerCounted n s
      → IfSome IsDataOrFin o
      → Yields (Next msg_count (suc n)) (on_server_reply H conn start n s o)
  unfolding on_server_reply
  on_server_reply-Next conn msg_count start n s none hn h d =
      Yields-bind (stop_clock H s start) _ (stop_clock-Counted n s start h)
        λ stopped k. Yields-pure _ (IsServerResult-timeout msg_count n stopped hn k)
  on_server_reply-Next conn msg_count start n s (some r) hn h d =
      Yields-if (is_type r.msg_type data_msg) _ _
        (λ e.
          Yields-bind (handle_server_data H conn s r.payload r.crc_ok) _
            (handle_server_data-Counted conn n s r.payload r.crc_ok h)
            λ stats k. Yields-pure (again stats) k)
        (λ not_data.
          Yields-if (is_type r.msg_type fin) _ _
            (λ e.
              Yields-bind (handle_server_client_fin H conn s start) _
                (fin-IsServerResult conn msg_count start n s hn h)
                λ result k. Yields-pure (done result) k)
            (λ not_fin. absurd (data_or_fin r d not_data not_fin)))

  server_round-Next :
      (conn : Connection) (msg_count start n : ℕ) (s : SessionStats)
      → n < msg_count
      → ServerCounted n s
      → Yields (Next msg_count (suc n)) (server_round H conn start n s)
  unfolding server_round
  server_round-Next conn msg_count start n s hn h =
      Yields-bind (attempt is_receive_error (recv_data H conn)) _
        (Yields-attempt is_receive_error (recv_data H conn) (recv_data-IsDataOrFin H conn))
        λ got d. on_server_reply-Next conn msg_count start n s got hn h d

  server_rounds-Next :
      (conn : Connection) (msg_count start left n : ℕ) (s : SessionStats)
      → n + left ≡ msg_count
      → ServerCounted n s
      → Yields (Next msg_count msg_count) (server_rounds H conn start left n s)
  unfolding server_rounds
  server_rounds-Next conn msg_count start zero n s hn h =
      Yields-pure (again s) (settled n msg_count s (omega arith) h)
  server_rounds-Next conn msg_count start (suc left) n s hn h =
      Yields-bind (server_round H conn start n s) _
        (server_round-Next conn msg_count start n s (omega arith) h)
        (elim [
          | again s' ↦ λ k.
              server_rounds-Next conn msg_count start left (n + 1) s' (omega arith)
                (settled (suc n) (n + 1) s' (omega arith) k)
          | done result ↦ λ k. Yields-pure (done result) k
        ])

  server_finish-IsServerResult :
      (conn : Connection) (msg_count start : ℕ) (r : Round SessionStats SessionResult)
      → Next msg_count msg_count r
      → Yields (IsServerResult msg_count) (server_finish H conn start r)
  unfolding server_finish
  server_finish-IsServerResult conn msg_count start (done result) k = Yields-pure result k
  server_finish-IsServerResult conn msg_count start (again s) k =
      Yields-bind (stop_clock H s start) _ (stop_clock-Counted msg_count s start k) λ stopped j.
        Yields-then (wait_for_fin H conn fin_wait_timeout) _ λ fin_received.
          Yields-then (answer_fin H conn fin_received) _
            λ _. Yields-pure _ (IsServerResult-succeeded msg_count stopped fin_received j)

  server_exchange-Yields :
      (conn : Connection) (msg_count : ℕ)
      → Yields (IsServerResult msg_count) (server_exchange H conn msg_count)
  unfolding server_exchange
  server_exchange-Yields conn msg_count = Yields-then (call H.monotonic) _ λ start.
      Yields-if (msg_count == 0) _ _
        (λ e. server_finish-IsServerResult conn msg_count start (again no_stats) (ground arith))
        (λ e.
          Yields-bind (server_rounds H conn start msg_count 0 no_stats) _
            (server_rounds-Next conn msg_count start msg_count 0 no_stats (omega arith)
              (ground arith))
            λ r k. server_finish-IsServerResult conn msg_count start r k)

  -- Whatever the port does, a result that `server_exchange` returns judged each received message
  -- once, has no round-trip times, and counts at most as many echoes as messages. If it is a
  -- success, `msg_count` messages were received and there is no error; if not, fewer were, and the
  -- error says which message timed out, or behind how many the client sent FIN.
  pub server_exchange-IsServerResult :
      (conn : Connection) (msg_count : ℕ) (w w' : W) (r : SessionResult)
      → server_exchange H conn msg_count w ≡ (ok r, w')
      → IsServerResult msg_count r
  server_exchange-IsServerResult conn msg_count w w' r e =
      (server_exchange-Yields conn msg_count).yields w r (ap (λ p. p.0) e)
