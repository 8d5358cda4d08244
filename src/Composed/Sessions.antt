-- ===== src/Composed/Sessions.antt =====
-- client/runner.py and session/exchange.py: the client's program hears the server's answers.
use mathlib.Core.Path.{subst}
use serial_testkit.Prelude.{
  ℕ, ◌-◌, ◌<◌, ◌^◌, ◌≡◌, sym, ap, ◌∙◌, true, List, ◌++◌, append_cancel_left, length, drop, All,
  arith,
}
use serial_testkit.Prelude.Bytes.{Bytes}
use serial_testkit.Exec.{ok}
use serial_testkit.Host.{Host}
use serial_testkit.Host.Laws.{IsCalm, IsCrc32, IsLine, HasArrivals, HasClock}
use serial_testkit.Protocol.{conn_id_size, Connection, default_syn_interval}
use serial_testkit.Encoding.{Decoded}
use serial_testkit.SerialIo.{drain_input}
use serial_testkit.Timed.{again}
use serial_testkit.Client.Runner.{run_peered}
use serial_testkit.Client.Peers.{is_answer, IsStray}
use serial_testkit.Client.Greets.{drawn_id}
use serial_testkit.Client.Sessions.{EndsWell, run_peered-succeeds}
use serial_testkit.Session.Outcome.{SessionStats, no_stats}
use serial_testkit.Session.ServerExchange.{server_rounds}
use serial_testkit.Session.Echoes.{AllEcho, AllEcho-data, AllEcho-good_count, frames-Carries}
use serial_testkit.Session.Refines.Reports.{IsDataOn, good_count, counts_behind}
use serial_testkit.Session.Refines.Echoed.{server_answers}
use serial_testkit.Channel.{Carries, CarriesThen, frames}

module _ {V W : Type 0} (G : Host V) (H : Host W) {arrived sent : V → Bytes}
    {pending written : W → Bytes} (lines : IsLine G arrived sent × IsLine H pending written)
    (calm : IsCalm G × IsCalm H)
    (crc : IsCrc32 G × IsCrc32 H × ((bs : Bytes) → G.crc32 bs ≡ H.crc32 bs)) {clock : V → ℕ}
    {clock' : W → ℕ} (clocks : HasClock G clock × HasClock H clock')
    (A : HasArrivals H pending written) where
  client_succeeds :
      (timeout : ℕ) (strays ms es : List Decoded) (m : Decoded) (later : Bytes) (w : W)
      → 0 < length es
      → length es < 2 ^ 32
      → default_syn_interval < clock' w
      → All (IsStray (drawn_id H w)) strays
      → is_answer (drawn_id H w) m ≡ true
      → CarriesThen H strays m (drop (A.waiting w) (pending w)) (frames G es ++ later)
      → AllEcho (drawn_id H w) ms es
      → EndsWell clock' (clock' w) timeout (run_peered H timeout (length es) w)
  client_succeeds timeout strays ms es m later w some_rounds fits due hs answers carried echoes =
      let (k, k', same_crc) = crc in
      run_peered-succeeds H lines.1 calm.1 k' clocks.1 A timeout strays es m (frames G es ++ later)
        later w some_rounds fits due hs answers carried (AllEcho-data (drawn_id H w) ms es echoes)
        (AllEcho-good_count (drawn_id H w) ms es echoes)
        (frames-Carries G H k same_crc (drawn_id H w) ms es later echoes)

  -- The server's rounds on DATA messages of its connection, one at least and fewer than 2 ** 32,
  -- and a client at a clock past the interval of SYN whose line brings, behind what `drain_input`
  -- throws away and behind messages that are no answer, a SYN_ACK of the id that it draws, which is
  -- the connection's, and then what these rounds have written: `run_peered` returns SUCCESS,
  -- however many of the messages the server counted with a bad CRC; or it returns PEERING_FAILED,
  -- and then the time of its handshake is over.
  pub run_peered-server_rounds :
      (conn : Connection) (timeout start : ℕ) (strays ms : List Decoded) (m : Decoded)
      (rest answers later : Bytes) (v : V) (w : W)
      → drawn_id H w ≡ conn.connection_id
      → 0 < length ms
      → length ms < 2 ^ 32
      → default_syn_interval < clock' w
      → All (IsDataOn conn.connection_id) ms
      → Carries G ms (arrived v) rest
      → sent (server_rounds G conn start (length ms) 0 no_stats v).1 ≡ sent v ++ answers
      → All (IsStray conn.connection_id) strays
      → is_answer conn.connection_id m ≡ true
      → CarriesThen H strays m (drop (A.waiting w) (pending w)) (answers ++ later)
      → (s : SessionStats) × ((server_rounds G conn start (length ms) 0 no_stats v).0
          ≡ ok (again s))
        × (s.crc_errors ≡ length ms - good_count ms)
        × EndsWell clock' (clock' w) timeout (run_peered H timeout (length ms) w)
  run_peered-server_rounds conn timeout start strays ms m rest answers later v w drawn some_rounds
        fits due hs carries wrote no_answers answered carried =
      let sized = ap length (sym drawn) ∙ calm.1.urandom_size conn_id_size (drain_input H w).1 in
      let (s, is_ok, t, es, echoes, count, total) =
        server_answers G H lines calm crc clocks conn sized ms start rest v hs carries in
      let same : answers ≡ frames G es =
        append_cancel_left (sent v) answers (frames G es) (sym wrote ∙ total) in
      let (all_s, good_s, bad_s) = counts_behind s ms t in
      (
        s,
        is_ok,
        bad_s,
        subst (λ n. EndsWell clock' (clock' w) timeout (run_peered H timeout n w)) (sym count)
            (client_succeeds timeout strays ms es m later w (omega (arith, count))
              (omega (arith, count)) due (rw drawn no_answers) (rw drawn answered)
              (rw (← same) carried) (rw drawn echoes)),
      )
