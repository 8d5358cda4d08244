-- ===== src/Client/Sessions.antt =====
-- client/runner.py on a channel of messages: a whole session, from the handshake to the exit code.
use serial_testkit.Prelude.{
  ℕ, ◌-◌, ◌≤◌, ◌<◌, ◌^◌, ◌≡◌, refl, ap, ◌∙◌, true, false, some, List, [], ltb, ◌==◌, length, drop,
  All, ◌⊎◌, inl, inr, if◌then◌else◌, arith,
}
use serial_testkit.Prelude.Bytes.{Bytes}
use serial_testkit.Exec.{
  Result, ok, err, stuck, unexpected_message, proceed, handshake_error, pure, caught,
  is_peering_error,
}
use serial_testkit.Exec.Outcome.{Outcome}
use serial_testkit.Host.{Host}
use serial_testkit.Host.Laws.{IsCalm, IsCrc32, IsLine, HasArrivals, HasClock}
use serial_testkit.Protocol.{conn_id_size, SessionParams, Connection, default_syn_interval}
use serial_testkit.Encoding.{Decoded}
use serial_testkit.SerialIo.{drain_input}
use serial_testkit.Session.Outcome.{SessionResult, crc_pass_rate, below_hundred}
use serial_testkit.Session.Rules.{
  Tally, nothing_yet, tally_of, Ending, complete, missing, closed, unexpected, rounds,
}
use serial_testkit.Session.ClientExchange.{client_exchange}
use serial_testkit.Session.Refines.Reports.{IsDataOn, good_count, tally_behind, rounds-complete}
use serial_testkit.Session.Refines.Exchange.{ClientReports, client_exchange-Reports}
use serial_testkit.Client.Handshake.{client_handshake}
use serial_testkit.Client.Runner.{
  ExitCode, success, peering_failed, no_data, crc_errors, exit_code, run_session, run_peered,
}
use serial_testkit.Client.Peers.{is_answer, IsStray, TimeIsOver}
use serial_testkit.Client.Greets.{drawn_id, client_connection, Greeted, client_handshake-Greeted}
use serial_testkit.Channel.{Carries, CarriesThen}

-- The exit code of a finished session with these counts.
abbrev pub session_code : Tally → ExitCode
session_code t =
    if t.received == 0 then no_data else if ltb t.crc_ok t.received then crc_errors else success

-- What `run_client` makes of the way a session ends.
abbrev pub code_of : Ending × Tally → Result ExitCode
code_of (complete ms, t) = ok (session_code t)
code_of (missing i, t) = ok peering_failed
code_of (closed, t) = ok peering_failed
code_of (unexpected, t) = err unexpected_message

exit_code-session_code :
    (x : SessionResult) (t : Tally)
    → x.success ≡ true
    → tally_of x.stats ≡ t
    → exit_code x ≡ session_code t
unfolding exit_code crc_pass_rate below_hundred
exit_code-session_code x t h e =
    let n : x.received ≡ t.received = ap (λ u. u.received) e in
    let g : x.crc_ok ≡ t.crc_ok = ap (λ u. u.crc_ok) e in ground arith

exit_code-failed : (x : SessionResult) → x.success ≡ false → exit_code x ≡ peering_failed
unfolding exit_code
exit_code-failed x h = rw h refl

reports_code :
    {W : Type 0} (o : Ending × Tally) (r : Result SessionResult) (w : W)
    → ClientReports o r
    → (proceed r (λ x. pure (exit_code x)) w).0 ≡ code_of o
reports_code (complete ms, t) r w (x, e, good, none_wrong, counts) =
    rw e (ap ok (exit_code-session_code x t good counts))
reports_code (missing i, t) r w (x, e, bad, wrong, counts) = rw e (ap ok (exit_code-failed x bad))
reports_code (closed, t) r w (x, e, bad, wrong, counts) = rw e (ap ok (exit_code-failed x bad))
reports_code (unexpected, t) r w e = rw e refl

all_good :
    (ds : List Decoded)
    → 0 < length ds
    → good_count ds ≡ length ds
    → session_code (tally_behind nothing_yet ds) ≡ success
unfolding tally_behind
all_good ds h e = ground arith

-- The code of the way the session ends; or that of a failed peering, and its time is over.
abbrev pub RunsAs : {W : Type 0} → (W → ℕ) → ℕ → ℕ → Ending × Tally → Result ExitCode × W → Type 0
RunsAs clock start timeout o (r, w) =
    (r ≡ code_of o) ⊎ (r ≡ ok peering_failed) × (timeout ≤ clock w - start)

-- SUCCESS; or a failed peering, and its time is over.
abbrev pub EndsWell : {W : Type 0} → (W → ℕ) → ℕ → ℕ → Result ExitCode × W → Type 0
EndsWell clock start timeout (r, w) =
    (r ≡ ok success) ⊎ (r ≡ ok peering_failed) × (timeout ≤ clock w - start)

module _ {W : Type 0} (H : Host W) {pending written : W → Bytes} (L : IsLine H pending written)
    (c : IsCalm H) (crc : IsCrc32 H) {clock : W → ℕ} (C : HasClock H clock) where
  run_session-code_of :
      (conn : Connection) (ds : List Decoded) (n : ℕ) (rest : Bytes) (w : W)
      → length conn.connection_id ≡ conn_id_size
      → Carries H ds (pending w) rest
      → (rest ≡ []) ⊎ (n ≤ length ds)
      → (run_session H n (some conn) w).0 ≡ code_of (rounds conn.connection_id n 0 nothing_yet ds)
  run_session-code_of conn ds n rest w sized carried enough =
      reports_code (rounds conn.connection_id n 0 nothing_yet ds) (client_exchange H conn n w).0
        (client_exchange H conn n w).1
        (client_exchange-Reports H L c crc C conn sized ds n rest w carried enough)

  run_peered_behind :
      (params : SessionParams) (timeout n : ℕ) (ds : List Decoded) (start : ℕ)
      (id base middle rest : Bytes) (o : Result Connection × W)
      → length id ≡ conn_id_size
      → Carries H ds middle rest
      → (rest ≡ []) ⊎ (n ≤ length ds)
      → Outcome
          (Greeted H pending written id params base middle)
          (TimeIsOver clock start timeout handshake_error)
          o
      → RunsAs clock start timeout
          (rounds id n 0 nothing_yet ds)
          (let (r, w) = o in proceed (caught is_peering_error r) (run_session H n) w)
  run_peered_behind params timeout n ds start id base middle rest (ok conn, w) sized carried enough
        (e, left, k, once, sent) =
      inl (
        rw e (
          run_session-code_of (client_connection id params) ds n rest w sized (rw left carried)
            enough))
  run_peered_behind params timeout n ds start id base middle rest (err x, w) sized carried enough
        (e, over) =
      rw e (inr (refl, over))
  run_peered_behind params timeout n ds start id base middle rest (stuck, w) sized carried enough
        h =
      absurd h

  -- For a message count below 2 ** 32 and a clock past the interval of SYN, on a line that carries,
  -- behind what `drain_input` throws away, messages that are no answer, then a SYN_ACK of the id
  -- drawn, with a good CRC, and then any messages `ds`, at least one for each of the `msg_count`
  -- rounds or nothing behind them: `run_peered` comes out as the rules of the channel say for `ds`.
  -- It returns NO_DATA if there are no rounds, CRC_ERRORS or SUCCESS if each has its DATA message,
  -- by their CRCs, PEERING_FAILED at a missing message, one of another connection or a FIN, and
  -- raises UnexpectedMessageError at any other, such as a second SYN_ACK. Or it returns
  -- PEERING_FAILED, and then the time of the handshake is over.
  pub run_peered-RunsAs :
      (A : HasArrivals H pending written) (timeout msg_count : ℕ) (ms ds : List Decoded)
      (m : Decoded) (middle rest : Bytes) (w : W)
      → msg_count < 2 ^ 32
      → default_syn_interval < clock w
      → All (IsStray (drawn_id H w)) ms
      → is_answer (drawn_id H w) m ≡ true
      → CarriesThen H ms m (drop (A.waiting w) (pending w)) middle
      → Carries H ds middle rest
      → (rest ≡ []) ⊎ (msg_count ≤ length ds)
      → RunsAs clock
          (clock w)
          timeout
          (rounds (drawn_id H w) msg_count 0 nothing_yet ds)
          (run_peered H timeout msg_count w)
  unfolding run_peered
  run_peered-RunsAs A timeout msg_count ms ds m middle rest w fits due strays answers carried
        carried' enough =
      let params : SessionParams = record { msg_count = msg_count } in
      run_peered_behind params timeout msg_count ds (clock w) (drawn_id H w) (written w) middle rest
        (client_handshake H timeout default_syn_interval (some params) w)
        (c.urandom_size conn_id_size (drain_input H w).1) carried' enough
        (client_handshake-Greeted H L c crc C A timeout default_syn_interval params ms m middle w
          fits due strays answers carried).comes

  -- For a message count below 2 ** 32 and a clock past the interval of SYN, on a line that carries,
  -- behind what `drain_input` throws away, messages that are no answer, then a SYN_ACK of the id
  -- drawn, with a good CRC, and then a DATA message of this id with a good CRC for each of the
  -- rounds, one at least: `run_peered` returns SUCCESS; or it returns PEERING_FAILED, and then the
  -- time of the handshake is over.
  pub run_peered-succeeds :
      (A : HasArrivals H pending written) (timeout : ℕ) (ms ds : List Decoded) (m : Decoded)
      (middle rest : Bytes) (w : W)
      → 0 < length ds
      → length ds < 2 ^ 32
      → default_syn_interval < clock w
      → All (IsStray (drawn_id H w)) ms
      → is_answer (drawn_id H w) m ≡ true
      → CarriesThen H ms m (drop (A.waiting w) (pending w)) middle
      → All (IsDataOn (drawn_id H w)) ds
      → good_count ds ≡ length ds
      → Carries H ds middle rest
      → EndsWell clock (clock w) timeout (run_peered H timeout (length ds) w)
  run_peered-succeeds A timeout ms ds m middle rest w some_rounds fits due strays answers carried hs
        good carried' =
      let runs =
        run_peered-RunsAs A timeout (length ds) ms ds m middle rest w fits due strays answers
          carried carried' (inr (omega arith)) in
      let complete_all = ap code_of (rounds-complete (drawn_id H w) ds 0 nothing_yet hs) in
      elim runs [
        | inl e ↦ inl (e ∙ complete_all ∙ ap ok (all_good ds some_rounds good))
        | inr over ↦ inr over
      ]
