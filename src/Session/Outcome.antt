-- ===== src/Session/Outcome.antt =====
-- session/result.py: the result of a session. Rates are kept as fractions: the source divides.
use serial_testkit.Prelude.{ℕ, ◌+◌, ◌*◌, Bool, Option, List, [], ltb, ◌==◌, if◌then◌else◌}

-- The texts of SessionError, with the number that each names.
pub data SessionError : Type 0 where
  timeout_response : ℕ → SessionError
  timeout_message : ℕ → SessionError
  server_sent_fin : SessionError
  client_sent_fin : ℕ → SessionError

-- `_SessionStats` of session/exchange.py: round-trip times and durations in nanoseconds.
pub record SessionStats : Type 0 where
  pub sent : ℕ
  pub received : ℕ
  pub crc_ok : ℕ
  pub crc_errors : ℕ
  pub bytes_sent : ℕ
  pub bytes_received : ℕ
  pub rtt_samples : List ℕ
  pub elapsed : ℕ

abbrev pub no_stats : SessionStats
no_stats = record {
  sent = 0;
  received = 0;
  crc_ok = 0;
  crc_errors = 0;
  bytes_sent = 0;
  bytes_received = 0;
  rtt_samples = [];
  elapsed = 0;
}

-- The statistics are passed on field by field (`**_stats_to_dict(stats)`).
pub record SessionResult : Type 0 where
  pub success : Bool
  pub stats : SessionStats
  pub open stats use *
  pub error : Option SessionError
  pub fin_ack_received : Bool
  pub fin_received : Bool

-- A quotient of two numbers.
pub record Ratio : Type 0 where
  pub num : ℕ
  pub den : ℕ

-- `crc_ok / received * 100`, and 0 if nothing was received.
unfoldable pub crc_pass_rate : SessionResult → Ratio
crc_pass_rate r =
    if r.received == 0
    then record { num = 0; den = 1 }
    else record { num = r.crc_ok * 100; den = r.received }

-- `rate < 100.0`
unfoldable pub below_hundred : Ratio → Bool
below_hundred q = ltb q.num (100 * q.den)

-- `rate == 100.0`
unfoldable pub is_hundred : Ratio → Bool
is_hundred q = q.num == 100 * q.den

-- `(total_bytes / elapsed_s) * bits_per_byte`, with the time in nanoseconds.
unfoldable pub throughput_baud : SessionResult → ℕ → Ratio
throughput_baud r bits_per_byte = if r.elapsed == 0 then record { num = 0; den = 1 } else record {
  num = (r.bytes_sent + r.bytes_received) * bits_per_byte * 1_000_000_000;
  den = r.elapsed;
}

-- `(total_bytes * 8 / elapsed_s) / 1000`
unfoldable pub throughput_kbps : SessionResult → Ratio
throughput_kbps r = if r.elapsed == 0 then record { num = 0; den = 1 } else record {
  num = (r.bytes_sent + r.bytes_received) * 8 * 1_000_000_000;
  den = r.elapsed * 1000;
}
