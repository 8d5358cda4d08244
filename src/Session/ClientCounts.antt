-- ===== src/Session/ClientCounts.antt =====
-- The statistics of the client's exchange, and how it ends.
use serial_testkit.Prelude.{
  ℕ, zero, suc, ◌+◌, ◌-◌, ◌≤◌, ◌<◌, ◌≡◌, ◌⊎◌, inl, inr, refl, ap, Bool, true, false, Option, none,
  some, length, length-snoc, arith, ◌==◌,
}
use serial_testkit.Prelude.Bytes.{Bytes}
use serial_testkit.Exec.{ok, call, attempt, is_receive_error}
use serial_testkit.Exec.Yields.{
  Yields, Yields-pure, Yields-if, Yields-bind, Yields-then, Yields-attempt, IfSome,
}
use serial_testkit.Host.{Host}
use serial_testkit.Message.{random_payload}
use serial_testkit.Protocol.{is_type, data_msg, fin, Connection, fin_wait_timeout}
use serial_testkit.SerialIo.{Reply, recv_data, send_data}
use serial_testkit.Timed.{Round, again, done}
use serial_testkit.Timed.Returns.{RoundOf}
use serial_testkit.Client.Shutdown.{client_shutdown}
use serial_testkit.Session.Outcome.{
  SessionStats, no_stats, SessionResult, SessionError, timeout_response, server_sent_fin,
}
use serial_testkit.Session.Stats.{
  count_sent, count_received, failed, succeeded, stop_clock, log_progress,
}
use serial_testkit.Session.Counts.{ClientCounted, IsDataOrFin, data_or_fin, recv_data-IsDataOrFin}
use serial_testkit.Session.ClientExchange.{
  handle_client_data_response, handle_client_server_fin, on_client_reply, client_round,
  client_rounds, client_finish, client_exchange,
}

-- How the client's session ends: it is a success, with all rounds done and no error, or a failure
-- with fewer rounds and an error that names the round that timed out, or the FIN.
abbrev pub HasClientEnding : ℕ → SessionResult → Type 0
HasClientEnding msg_count r =
    (r.success ≡ true) × (r.received ≡ msg_count) × (r.error ≡ none)
    ⊎ (r.success ≡ false)
      × (r.received < msg_count)
      × ((r.error ≡ some (timeout_response (r.received + 1))) ⊎ (r.error ≡ some server_sent_fin))

-- A result of `client_exchange conn msg_count`: one judgement for each answer, one round-trip time
-- for each answer with a good CRC, and at most one message more than answers.
pub record IsClientResult (msg_count : ℕ) (r : SessionResult) : Type 0 where
  pub judged : r.crc_ok + r.crc_errors ≡ r.received
  pub sampled : length r.rtt_samples ≡ r.crc_ok
  pub sent_bound : r.sent ≤ r.received + 1
  pub no_fin : r.fin_received ≡ false
  pub ending : HasClientEnding msg_count r

IsClientResult-failed :
    (msg_count n : ℕ) (s : SessionStats) (e : SessionError)
    → n < msg_count
    → ClientCounted n (suc n) s
    → (e ≡ timeout_response (n + 1)) ⊎ (e ≡ server_sent_fin)
    → IsClientResult msg_count (failed s e false)
IsClientResult-failed msg_count n s e hn k why = record {
  judged = k.all_judged;
  sampled = k.all_sampled;
  sent_bound = omega arith;
  no_fin = refl;
  ending =
      inr
        (refl, omega arith, elim why [ inl t ↦ inl (cc (t, k.all_received)) | inr f ↦ inr (cc f) ]);
}

IsClientResult-succeeded :
    (msg_count : ℕ) (s : SessionStats) (fin_ack : Bool)
    → ClientCounted msg_count msg_count s
    → IsClientResult msg_count (succeeded s fin_ack false)
IsClientResult-succeeded msg_count s fin_ack k = record {
  judged = k.all_judged;
  sampled = k.all_sampled;
  sent_bound = omega arith;
  no_fin = refl;
  ending = inl (refl, k.all_received, refl);
}

module _ {W : Type 0} (H : Host W) where
  stop_clock-Counted :
      (n bound : ℕ) (s : SessionStats) (start : ℕ)
      → ClientCounted n bound s
      → Yields (ClientCounted n bound) (stop_clock H s start)
  unfolding stop_clock
  stop_clock-Counted n bound s start h = record { yields = λ w a e. ground arith }

  handle_client_data_response-Counted :
      (n bound : ℕ) (s : SessionStats) (response : Bytes) (good : Bool) (rtt_start : ℕ)
      → ClientCounted n bound s
      → Yields
          (ClientCounted (suc n) bound)
          (handle_client_data_response H s response good rtt_start)
  unfolding handle_client_data_response count_received log_progress
  handle_client_data_response-Counted n bound s response true rtt_start h = record {
    yields = λ w a e. ground (arith, length-snoc s.rtt_samples ((H.monotonic w).0 - rtt_start));
  }
  handle_client_data_response-Counted n bound s response false rtt_start h = record {
    yields = λ w a e. ground arith;
  }

  abbrev Next : ℕ → ℕ → Round SessionStats SessionResult → Type 0
  Next msg_count n = RoundOf (ClientCounted n n) (IsClientResult msg_count)

  fin-IsClientResult :
      (msg_count start n : ℕ) (s : SessionStats)
      → n < msg_count
      → ClientCounted n (suc n) s
      → Yields (IsClientResult msg_count) (handle_client_server_fin H s start)
  unfolding handle_client_server_fin
  fin-IsClientResult msg_count start n s hn h =
      Yields-bind (stop_clock H s start) _ (stop_clock-Counted n (suc n) s start h) λ stopped k.
        Yields-pure _ (IsClientResult-failed msg_count n stopped server_sent_fin hn k (inr refl))

  -- The three ways on from a reply: it timed out, it was judged, or the server closed.
  on_client_reply-Next :
      (msg_count start rtt_start n : ℕ) (s : SessionStats) (o : Option Reply)
      → n < msg_count
      → ClientCounted n (suc n) s
      → IfSome IsDataOrFin o
      → Yields (Next msg_count (suc n)) (on_client_reply H start rtt_start n s o)
  unfolding on_client_reply
  on_client_reply-Next msg_count start rtt_start n s none hn h d =
      Yields-bind (stop_clock H s start) _ (stop_clock-Counted n (suc n) s start h)
        λ stopped k. Yields-pure _ (IsClientResult-failed msg_count n stopped _ hn k (inl refl))
  on_client_reply-Next msg_count start rtt_start n s (some r) hn h d =
      Yields-if (is_type r.msg_type data_msg) _ _
        (λ e.
          Yields-bind (handle_client_data_response H s r.payload r.crc_ok rtt_start) _
            (handle_client_data_response-Counted n (suc n) s r.payload r.crc_ok rtt_start h)
            λ stats k. Yields-pure (again stats) k)
        (λ not_data.
          Yields-if (is_type r.msg_type fin) _ _
            (λ e.
              Yields-bind (handle_client_server_fin H s start) _
                (fin-IsClientResult msg_count start n s hn h)
                λ result k. Yields-pure (done result) k)
            (λ not_fin. absurd (data_or_fin r d not_data not_fin)))

  count_sent-Counted :
      (n : ℕ) (s : SessionStats) (written : Option ℕ)
      → ClientCounted n n s
      → ClientCounted n (suc n) (count_sent s written)
  unfolding count_sent
  count_sent-Counted n s written h = ground arith

  client_round-Next :
      (conn : Connection) (msg_count start n : ℕ) (s : SessionStats)
      → n < msg_count
      → ClientCounted n n s
      → Yields (Next msg_count (suc n)) (client_round H conn start n s)
  unfolding client_round
  client_round-Next conn msg_count start n s hn h = Yields-then (random_payload H) _ λ payload.
      Yields-then (call H.monotonic) _ λ rtt_start.
        Yields-then (send_data H conn payload) _ λ written.
          Yields-bind (attempt is_receive_error (recv_data H conn)) _
            (Yields-attempt is_receive_error (recv_data H conn) (recv_data-IsDataOrFin H conn))
            λ got d.
              on_client_reply-Next msg_count start rtt_start n (count_sent s written) got hn
                (count_sent-Counted n s written h) d

  client_rounds-Next :
      (conn : Connection) (msg_count start left n : ℕ) (s : SessionStats)
      → n + left ≡ msg_count
      → ClientCounted n n s
      → Yields (Next msg_count msg_count) (client_rounds H conn start left n s)
  unfolding client_rounds
  client_rounds-Next conn msg_count start zero n s hn h = Yields-pure (again s) (omega arith)
  client_rounds-Next conn msg_count start (suc left) n s hn h =
      Yields-bind (client_round H conn start n s) _
        (client_round-Next conn msg_count start n s (omega arith) h)
        (elim [
          | again s' ↦ λ k.
              client_rounds-Next conn msg_count start left (n + 1) s' (omega arith) (omega arith)
          | done result ↦ λ k. Yields-pure (done result) k
        ])

  client_finish-IsClientResult :
      (conn : Connection) (msg_count start : ℕ) (r : Round SessionStats SessionResult)
      → Next msg_count msg_count r
      → Yields (IsClientResult msg_count) (client_finish H conn start r)
  unfolding client_finish
  client_finish-IsClientResult conn msg_count start (done result) k = Yields-pure result k
  client_finish-IsClientResult conn msg_count start (again s) k =
      Yields-bind (stop_clock H s start) _ (stop_clock-Counted msg_count msg_count s start k)
        λ stopped j.
          Yields-then (client_shutdown H conn fin_wait_timeout) _
            λ fin_ack. Yields-pure _ (IsClientResult-succeeded msg_count stopped fin_ack j)

  client_exchange-Yields :
      (conn : Connection) (msg_count : ℕ)
      → Yields (IsClientResult msg_count) (client_exchange H conn msg_count)
  unfolding client_exchange
  client_exchange-Yields conn msg_count = Yields-then (call H.monotonic) _ λ start.
      Yields-if (msg_count == 0) _ _
        (λ e. client_finish-IsClientResult conn msg_count start (again no_stats) (ground arith))
        (λ e.
          Yields-bind (client_rounds H conn start msg_count 0 no_stats) _
            (client_rounds-Next conn msg_count start msg_count 0 no_stats (omega arith)
              (omega arith))
            λ r k. client_finish-IsClientResult conn msg_count start r k)

  -- Whatever the port does, a result that `client_exchange` returns judged each received answer
  -- once, has a round-trip time for each answer with a good CRC, and counts at most one message
  -- more as sent than as received. If it is a success, it received `msg_count` answers and has no
  -- error; if not, it received fewer, and its error names the round that timed out, or the FIN.
  pub client_exchange-IsClientResult :
      (conn : Connection) (msg_count : ℕ) (w w' : W) (r : SessionResult)
      → client_exchange H conn msg_count w ≡ (ok r, w')
      → IsClientResult msg_count r
  client_exchange-IsClientResult conn msg_count w w' r e =
      (client_exchange-Yields conn msg_count).yields w r (ap (λ p. p.0) e)
