-- ===== src/Session/Refines/Exchange.antt =====
-- session/exchange.py: `client_exchange` as a whole on a channel of messages.
use serial_testkit.Prelude.{
  ℕ, zero, suc, ◌-◌, ◌≤◌, ◌≡◌, ◌⊎◌, inl, inr, refl, ap, Bool, true, false, none, List, [], ◌==◌,
  length, All, arith,
}
use serial_testkit.Prelude.Bytes.{Bytes}
use serial_testkit.Exec.{Result, ok, pure, proceed}
use serial_testkit.Exec.Raises.{returns_or_raises}
use serial_testkit.Host.{Host}
use serial_testkit.Host.Laws.{IsCalm, IsCrc32, IsLine, HasClock}
use serial_testkit.Protocol.{Connection, conn_id_size, fin_wait_timeout}
use serial_testkit.Encoding.{Decoded}
use serial_testkit.Timed.{Round, again}
use serial_testkit.Client.Shutdown.{client_shutdown}
use serial_testkit.Session.Outcome.{
  SessionStats, no_stats, SessionResult, timeout_response, server_sent_fin,
}
use serial_testkit.Session.Stats.{succeeded, failed, stop_clock}
use serial_testkit.Session.Rules.{
  Tally, nothing_yet, tally_of, Ending, complete, missing, closed, unexpected, rounds,
}
use serial_testkit.Session.ClientExchange.{client_rounds, client_finish, client_exchange}
use serial_testkit.Session.Refines.Client.{ClientMeets, client_rounds-Meets}
use serial_testkit.Session.Refines.Reports.{Reports, IsDataOn, tally_behind, rounds-complete}
use serial_testkit.Channel.{Carries}
use serial_testkit.Errors.Sessions.{client_shutdown-Calm}
use serial_testkit.Termination.Sessions.{client_shutdown-Ends}

abbrev pub ClientReports : Ending × Tally → Result SessionResult → Type 0
ClientReports = Reports timeout_response (λ t. server_sent_fin)

pub suc_not_zero : (n : ℕ) → (suc n == 0) ≡ false
suc_not_zero n = ground arith

module _ {W : Type 0} (H : Host W) {pending written : W → Bytes} (L : IsLine H pending written)
    (c : IsCalm H) (crc : IsCrc32 H) {clock : W → ℕ} (C : HasClock H clock) (conn : Connection)
    (sized : length conn.connection_id ≡ conn_id_size) where
  client_shutdown-returns :
      (timeout : ℕ) (w : W) → (b : Bool) × ((client_shutdown H conn timeout w).0 ≡ ok b)
  client_shutdown-returns timeout w =
      elim (returns_or_raises (client_shutdown H conn timeout w).0
        ((client_shutdown-Ends H C conn timeout).returns w)
        ((client_shutdown-Calm H c crc conn timeout sized).raises w)) [
          | inl r ↦ r
          | inr (x, e, never) ↦ absurd never
        ]

  client_finish-Reports :
      (rest : Bytes) (o : Ending × Tally) (start : ℕ)
      (r : Result (Round SessionStats SessionResult)) (w : W)
      → ClientMeets H pending rest o (r, w)
      → ClientReports o (proceed r (client_finish H conn start) w).0
  unfolding client_finish stop_clock
  client_finish-Reports rest (complete ms, t) start r w (s, e, k, h) =
      let (b, back) = client_shutdown-returns fin_wait_timeout (H.monotonic w).1 in
      (
        succeeded (record s { elapsed = (H.monotonic w).0 - start }) b false,
        rw e (
            ap
              (λ (q : Result Bool).
                (proceed q
                  (λ fin_ack.
                    pure
                      (succeeded (record s { elapsed = (H.monotonic w).0 - start }) fin_ack false))
                  (client_shutdown H conn fin_wait_timeout (H.monotonic w).1).1).0)
              back),
        refl,
        refl,
        k,
      )
  client_finish-Reports rest (missing i, t) start r w (s, e, k) =
      (failed s (timeout_response i) false, rw e, refl, refl, k)
  client_finish-Reports rest (closed, t) start r w (s, e, k) =
      (failed s server_sent_fin false, rw e, refl, refl, k)
  client_finish-Reports rest (unexpected, t) start r w e = rw e

  -- On a line that carries the messages `ms`, and then either nothing or anything if there is a
  -- message for each round, `client_exchange` reports what the rules of the channel say: success
  -- with all rounds done, "Timeout waiting for response to message i" at a missing message or one
  -- of another connection, "Server sent FIN during exchange" at a FIN, each with the counts of
  -- messages, good and bad CRCs and bytes received until then, and UnexpectedMessageError at a
  -- message of the wrong type.
  pub client_exchange-Reports :
      (ms : List Decoded) (msg_count : ℕ) (rest : Bytes) (w : W)
      → Carries H ms (pending w) rest
      → (rest ≡ []) ⊎ (msg_count ≤ length ms)
      → ClientReports
          (rounds conn.connection_id msg_count 0 nothing_yet ms)
          (client_exchange H conn msg_count w).0
  unfolding client_exchange rounds
  client_exchange-Reports ms zero rest w h k =
      client_finish-Reports rest (complete ms, nothing_yet) (H.monotonic w).0 (ok (again no_stats))
        (H.monotonic w).1 (no_stats, refl, refl, rw (L.pending-monotonic w) h)
  client_exchange-Reports ms (suc n) rest w h k =
      let start = (H.monotonic w).0 in
      let q = client_rounds H conn start (suc n) 0 no_stats (H.monotonic w).1 in
      rw (suc_not_zero n) (
        client_finish-Reports rest (rounds conn.connection_id (suc n) 0 nothing_yet ms) start q.0
          q.1
          (client_rounds-Meets H L c crc conn sized ms (suc n) 0 start no_stats rest
            (H.monotonic w).1 (rw (L.pending-monotonic w) h) k))

  -- On a line that carries nothing but DATA messages of the connection, one for each round,
  -- `client_exchange` succeeds, and its result counts all of them as received, those with a good
  -- CRC as crc_ok and the others as crc_errors, and all bytes of their data.
  pub client_exchange-succeeds :
      (ms : List Decoded) (rest : Bytes) (w : W)
      → All (IsDataOn conn.connection_id) ms
      → Carries H ms (pending w) rest
      → (x : SessionResult) × ((client_exchange H conn (length ms) w).0 ≡ ok x)
        × (x.success ≡ true)
        × (x.error ≡ none)
        × (tally_of x.stats ≡ tally_behind nothing_yet ms)
  client_exchange-succeeds ms rest w hs h =
      let reports = client_exchange-Reports ms (length ms) rest w h (inr (omega arith)) in
      rw (rounds-complete conn.connection_id ms 0 nothing_yet hs) at reports
