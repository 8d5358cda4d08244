-- ===== src/Session/Refines/Echoed.antt =====
-- session/exchange.py: the client's exchange on what the server's rounds have written.
use serial_testkit.Prelude.{
  ℕ, ◌+◌, ◌-◌, ◌≡◌, inr, sym, ap, ◌∙◌, true, List, [], ◌++◌, length, All, append_cancel_left, arith,
}
use mathlib.Core.Path.{subst}
use serial_testkit.Prelude.Bytes.{Bytes}
use serial_testkit.Exec.{ok}
use serial_testkit.Host.{Host}
use serial_testkit.Host.Laws.{IsCalm, IsCrc32, IsLine, HasClock}
use serial_testkit.Protocol.{Connection, conn_id_size}
use serial_testkit.Encoding.{Decoded}
use serial_testkit.Timed.{again}
use serial_testkit.Session.Outcome.{SessionStats, no_stats, SessionResult}
use serial_testkit.Session.Rules.{nothing_yet, tally_of, complete}
use serial_testkit.Session.ClientExchange.{client_exchange}
use serial_testkit.Session.ServerExchange.{server_rounds}
use serial_testkit.Session.Echoes.{AllEcho, AllEcho-data, AllEcho-good_count, frames-Carries}
use serial_testkit.Session.Refines.Reports.{
  IsDataOn, good_count, tally_behind, rounds-complete, counts_behind,
}
use serial_testkit.Session.Refines.Server.{ServerMeets}
use serial_testkit.Session.Refines.ServerRounds.{server_rounds-Meets}
use serial_testkit.Session.Refines.Exchange.{client_exchange-succeeds}
use serial_testkit.Channel.{Carries, frames}

zero_sums : (m n : ℕ) → 0 + m ≡ 0 + n → m ≡ n
zero_sums m n h = omega arith

module _ {V W : Type 0} (G : Host V) (H : Host W) {arrived sent : V → Bytes}
    {pending written : W → Bytes} (lines : IsLine G arrived sent × IsLine H pending written)
    (calm : IsCalm G × IsCalm H)
    (crc : IsCrc32 G × IsCrc32 H × ((bs : Bytes) → G.crc32 bs ≡ H.crc32 bs)) {clock : V → ℕ}
    {clock' : W → ℕ} (clocks : HasClock G clock × HasClock H clock') (conn : Connection)
    (sized : length conn.connection_id ≡ conn_id_size) where
  -- The server's rounds on DATA messages only.
  pub server_answers :
      (ms : List Decoded) (start : ℕ) (rest : Bytes) (v : V)
      → All (IsDataOn conn.connection_id) ms
      → Carries G ms (arrived v) rest
      → (s : SessionStats) × ((server_rounds G conn start (length ms) 0 no_stats v).0
          ≡ ok (again s))
        × (tally_of s ≡ tally_behind nothing_yet ms)
        × (es : List Decoded) × AllEcho conn.connection_id ms es
        × (length ms ≡ length es)
        × (sent (server_rounds G conn start (length ms) 0 no_stats v).1 ≡ sent v ++ frames G es)
  unfolding tally_behind
  server_answers ms start rest v hs carries =
      let met =
        server_rounds-Meets G lines.0 calm.0 crc.0 clocks.0 conn sized ms (length ms) 0 start
          no_stats rest v carries (inr (omega arith)) in
      let met' : ServerMeets G arrived sent conn.connection_id rest ms 0 v
          (complete [], tally_behind nothing_yet ms)
          (server_rounds G conn start (length ms) 0 no_stats v) =
        rw (rounds-complete conn.connection_id ms 0 nothing_yet hs) at met in
      let (s, is_ok, t, _, (es, echoes, count, total)) = met' in
      (s, is_ok, t, es, echoes, zero_sums (length ms) (length es) count, total)

  -- A session of `n` messages in which every answer is good.
  abbrev AllGood : W → ℕ → Type 0
  AllGood w n =
      (x : SessionResult) × ((client_exchange H conn n w).0 ≡ ok x)
      × (x.success ≡ true)
      × (x.received ≡ n)
      × (x.crc_ok ≡ n)
      × (x.crc_errors ≡ 0)

  client_hears :
      (ms es : List Decoded) (later : Bytes) (w : W)
      → AllEcho conn.connection_id ms es
      → pending w ≡ frames G es ++ later
      → AllGood w (length es)
  client_hears ms es later w echoes arrives =
      let (k, k', same_crc) = crc in
      let line : Carries H es (pending w) later =
        rw arrives (frames-Carries G H k same_crc conn.connection_id ms es later echoes) in
      let (x, runs, good, _, u) =
        client_exchange-succeeds H lines.1 calm.1 k' clocks.1 conn sized es later w
          (AllEcho-data conn.connection_id ms es echoes) line in
      let (all_x, good_x, bad_x) = counts_behind x.stats es u in
      let all_good = AllEcho-good_count conn.connection_id ms es echoes in
      (x, runs, good, all_x, good_x ∙ all_good, bad_x ∙ omega (arith, all_good))

  -- On a line that carries nothing but DATA messages of the connection, the rounds of
  -- `server_exchange` count those with a bad CRC as crc_errors. A client whose line carries what
  -- these rounds have written succeeds all the same: `client_exchange` counts an answer with a good
  -- CRC for every message and no error, whatever the server counted.
  pub client_exchange-server_rounds :
      (ms : List Decoded) (start : ℕ) (rest answers later : Bytes) (v : V) (w : W)
      → All (IsDataOn conn.connection_id) ms
      → Carries G ms (arrived v) rest
      → sent (server_rounds G conn start (length ms) 0 no_stats v).1 ≡ sent v ++ answers
      → pending w ≡ answers ++ later
      → (s : SessionStats) × (x : SessionResult) × ((server_rounds G conn start
            (length ms)
            0
            no_stats
            v).0
          ≡ ok (again s))
        × (s.crc_ok ≡ good_count ms)
        × (s.crc_errors ≡ length ms - good_count ms)
        × ((client_exchange H conn (length ms) w).0 ≡ ok x)
        × (x.success ≡ true)
        × (x.received ≡ length ms)
        × (x.crc_ok ≡ length ms)
        × (x.crc_errors ≡ 0)
  client_exchange-server_rounds ms start rest answers later v w hs carries wrote arrives =
      let (s, is_ok, t, es, echoes, count, total) = server_answers ms start rest v hs carries in
      let same : answers ≡ frames G es =
        append_cancel_left (sent v) answers (frames G es) (sym wrote ∙ total) in
      let (_, good_s, bad_s) = counts_behind s ms t in
      let (x, runs, good, all_x, good_x, bad_x) =
        subst (AllGood w) (sym count)
          (client_hears ms es later w echoes (arrives ∙ ap (λ bs. bs ++ later) same)) in
      (s, x, is_ok, good_s, bad_s, runs, good, all_x, good_x, bad_x)
