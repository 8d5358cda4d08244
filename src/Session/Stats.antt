-- ===== src/Session/Stats.antt =====
-- session/exchange.py: what the loops of the client and of the server share.
use serial_testkit.Prelude.{
  ℕ, zero, suc, ◌+◌, ◌-◌, Bool, true, false, ◌&&◌, Option, none, some, ◌==◌, if◌then◌else◌, length,
}
use serial_testkit.Prelude.Bytes.{Bytes, bytes_eq}
use serial_testkit.Exec.{
  or_false, Exec, zero_division, pure, raise, call, attempt, is_decode_error, ◌>>=◌,
}
use serial_testkit.Host.{Host}
use serial_testkit.Protocol.{fin, is_type, Connection}
use serial_testkit.Encoding.{Decoded, decode_message}
use serial_testkit.Timed.{Round, again, done, within}
use serial_testkit.Session.Outcome.{SessionStats, SessionResult, SessionError}

unfoldable pub on_fin : Bytes → Option Decoded → Round (Unit {0}) Bool
on_fin conn_id none = again tt
on_fin conn_id (some m) =
    if is_type m.msg_type fin && bytes_eq m.conn_id conn_id && m.crc_ok then done true else again tt

-- `if bytes_written: stats.sent += 1; stats.bytes_sent += bytes_written`
abbrev pub is_written : Option ℕ → Bool
is_written none = false
is_written (some zero) = false
is_written (some (suc n)) = true

unfoldable pub count_sent : SessionStats → Option ℕ → SessionStats
count_sent s none = s
count_sent s (some zero) = s
count_sent s (some (suc n)) = record s { sent = s.sent + 1; bytes_sent = s.bytes_sent + suc n }

-- `received += 1`, and the length of a payload; an empty one adds 0.
unfoldable pub count_received : SessionStats → Bytes → SessionStats
count_received s payload = record s {
  received = s.received + 1;
  bytes_received = s.bytes_received + length payload;
}

abbrev pub failed : SessionStats → SessionError → Bool → SessionResult
failed stats e fin_received = record {
  success = false;
  stats = stats;
  error = some e;
  fin_ack_received = false;
  fin_received = fin_received;
}

abbrev pub succeeded : SessionStats → Bool → Bool → SessionResult
succeeded stats fin_ack_received fin_received = record {
  success = true;
  stats = stats;
  error = none;
  fin_ack_received = fin_ack_received;
  fin_received = fin_received;
}

module _ {W : Type 0} (H : Host W) where
  unfoldable pub wait_fin_round : Bytes → Unit {0} → Exec W (Round (Unit {0}) Bool)
  wait_fin_round conn_id _ = do
    got ← attempt is_decode_error (decode_message H)
    pure (on_fin conn_id got)

  unfoldable pub wait_for_fin : Connection → ℕ → Exec W Bool
  wait_for_fin conn timeout = do
    found ← within H timeout (wait_fin_round conn.connection_id) tt
    pure (or_false found)

  -- `stats.elapsed_s = time.monotonic() - start`
  unfoldable pub stop_clock : SessionStats → ℕ → Exec W SessionStats
  stop_clock stats start = do now ← call H.monotonic; pure (record stats { elapsed = now - start })

  -- `(msg_index + 1) % LOG_PROGRESS_INTERVAL` raises at an interval of 0; the rest is logging.
  unfoldable pub log_progress : Exec W (Unit {0})
  log_progress = if H.log_interval == 0 then raise zero_division else pure tt
