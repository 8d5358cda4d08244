-- ===== src/Session/Refines/ServerExchange.antt =====
-- session/exchange.py: `server_exchange` as a whole on a channel of messages.
use serial_testkit.Prelude.{
  ℕ, zero, suc, ◌-◌, ◌≤◌, ◌≡◌, ◌⊎◌, inl, inr, refl, Bool, true, false, List, [], length,
}
use serial_testkit.Prelude.Bytes.{Bytes}
use serial_testkit.Exec.{Result, ok, pure, proceed, ◌>>=◌, ◌>>◌}
use serial_testkit.Exec.Raises.{returns_or_raises}
use serial_testkit.Host.{Host}
use serial_testkit.Host.Laws.{IsCalm, IsCrc32, IsLine, HasClock}
use serial_testkit.Protocol.{Connection, conn_id_size, fin_wait_timeout}
use serial_testkit.Encoding.{Decoded}
use serial_testkit.Timed.{Round, again}
use serial_testkit.Session.Outcome.{
  SessionStats, no_stats, SessionResult, timeout_message, client_sent_fin,
}
use serial_testkit.Session.Stats.{succeeded, failed, stop_clock, wait_for_fin}
use serial_testkit.Session.Rules.{
  Tally, nothing_yet, Ending, complete, missing, closed, unexpected, rounds,
}
use serial_testkit.Session.ServerExchange.{
  answer_fin, server_rounds, server_finish, server_exchange,
}
use serial_testkit.Session.Refines.Server.{ServerMeets, server_shutdown-returns}
use serial_testkit.Session.Refines.ServerRounds.{server_rounds-Meets, unanswered}
use serial_testkit.Session.Refines.Reports.{Reports}
use serial_testkit.Session.Refines.Exchange.{suc_not_zero}
use serial_testkit.Channel.{Carries}
use serial_testkit.Errors.Sessions.{wait_for_fin-Calm}
use serial_testkit.Termination.Sessions.{wait_for_fin-Ends}

abbrev pub ServerReports : Ending × Tally → Result SessionResult → Type 0
ServerReports = Reports timeout_message (λ t. client_sent_fin t.received)

module _ {W : Type 0} (H : Host W) {pending written : W → Bytes} (L : IsLine H pending written)
    (c : IsCalm H) (crc : IsCrc32 H) {clock : W → ℕ} (C : HasClock H clock) (conn : Connection)
    (sized : length conn.connection_id ≡ conn_id_size) where
  wait_for_fin-returns :
      (timeout : ℕ) (w : W) → (b : Bool) × ((wait_for_fin H conn timeout w).0 ≡ ok b)
  wait_for_fin-returns timeout w =
      elim (returns_or_raises (wait_for_fin H conn timeout w).0
        ((wait_for_fin-Ends H C conn timeout).returns w)
        ((wait_for_fin-Calm H c crc conn timeout).raises w)) [
          | inl r ↦ r
          | inr (x, e, never) ↦ absurd never
        ]

  answer_fin-returns : (b : Bool) (w : W) → (answer_fin H conn b w).0 ≡ ok tt
  unfolding answer_fin
  answer_fin-returns true w = let (n, e) = server_shutdown-returns H L c crc C conn sized w in rw e
  answer_fin-returns false w = refl

  -- Behind the loop, with the clock stopped.
  closes :
      (stats : SessionStats) (w : W)
      → (b : Bool) × (((wait_for_fin H conn fin_wait_timeout >>= λ fin_received.
              answer_fin H conn fin_received >> pure (succeeded stats false fin_received))
            w).0
          ≡ ok (succeeded stats false b))
  closes stats w =
      let (b, e) = wait_for_fin-returns fin_wait_timeout w in
      (b, rw (e, answer_fin-returns b (wait_for_fin H conn fin_wait_timeout w).1))

  server_finish-Reports :
      (rest : Bytes) (ms : List Decoded) (o : Ending × Tally) (start : ℕ)
      (r : Result (Round SessionStats SessionResult)) (v w : W)
      → ServerMeets H pending written conn.connection_id rest ms 0 v o (r, w)
      → ServerReports o (proceed r (server_finish H conn start) w).0
  unfolding server_finish stop_clock
  server_finish-Reports rest ms (complete left, t) start r v w (s, e, k, h, a) =
      let stopped : SessionStats = record s { elapsed = (H.monotonic w).0 - start } in
      let (b, back) = closes stopped (H.monotonic w).1 in
      (succeeded stopped false b, rw e back, refl, refl, k)
  server_finish-Reports rest ms (missing i, t) start r v w (s, e, k, h) =
      (failed s (timeout_message i) false, rw e, refl, refl, k)
  server_finish-Reports rest ms (closed, t) start r v w (s, e, k) =
      (failed s (client_sent_fin t.received) true, rw e, refl, refl, k)
  server_finish-Reports rest ms (unexpected, t) start r v w (e, h) = rw e

  -- On a line that carries the messages `ms`, and then either nothing or anything if there is a
  -- message for each round, `server_exchange` reports what the rules of the channel say, which are
  -- the client's: success with all rounds done, "Timeout waiting for message i" at a missing message
  -- or one of another connection, "Client sent FIN after n messages" at a FIN, with the number of
  -- messages received, each with the counts of messages, good and bad CRCs and bytes received until
  -- then, and UnexpectedMessageError at a message of the wrong type.
  pub server_exchange-Reports :
      (ms : List Decoded) (msg_count : ℕ) (rest : Bytes) (w : W)
      → Carries H ms (pending w) rest
      → (rest ≡ []) ⊎ (msg_count ≤ length ms)
      → ServerReports
          (rounds conn.connection_id msg_count 0 nothing_yet ms)
          (server_exchange H conn msg_count w).0
  unfolding server_exchange rounds
  server_exchange-Reports ms zero rest w h k =
      server_finish-Reports rest ms (complete ms, nothing_yet) (H.monotonic w).0
        (ok (again no_stats)) (H.monotonic w).1 (H.monotonic w).1
        (
          no_stats,
          refl,
          refl,
          rw (L.pending-monotonic w) h,
          unanswered H L c crc C conn sized ms 0 _ _ refl,
        )
  server_exchange-Reports ms (suc n) rest w h k =
      let start = (H.monotonic w).0 in
      let q = server_rounds H conn start (suc n) 0 no_stats (H.monotonic w).1 in
      rw (suc_not_zero n) (
        server_finish-Reports rest ms (rounds conn.connection_id (suc n) 0 nothing_yet ms) start q.0
          (H.monotonic w).1 q.1
          (server_rounds-Meets H L c crc C conn sized ms (suc n) 0 start no_stats rest
            (H.monotonic w).1 (rw (L.pending-monotonic w) h) k))
