-- ===== src/Session/Counts.antt =====
-- The invariant of the statistics, and what recv_data returns.
use serial_testkit.Prelude.{ℕ, ◌+◌, ◌≤◌, ◌≡◌, ◌⊎◌, false, [], length, arith}
use serial_testkit.Exec.Yields.{Yields, Yields-lift, Yields-then}
use serial_testkit.Host.{Host}
use serial_testkit.Protocol.{is_type, data_msg, fin, Connection}
use serial_testkit.Encoding.{decode_message}
use serial_testkit.SerialIo.{Reply, check_reply, recv_data}
use serial_testkit.Session.Outcome.{SessionStats}

-- Behind `n` answered rounds: every answer was judged once, and at most `bound` messages were sent.
-- The client keeps a round-trip time for each answer with a good CRC, the server none.
pub record ClientCounted (n bound : ℕ) (s : SessionStats) : Type 0 where
  pub all_received : s.received ≡ n
  pub all_judged : s.crc_ok + s.crc_errors ≡ s.received
  pub all_sampled : length s.rtt_samples ≡ s.crc_ok
  pub sent_bound : s.sent ≤ bound

pub record ServerCounted (n : ℕ) (s : SessionStats) : Type 0 where
  pub all_received : s.received ≡ n
  pub all_judged : s.crc_ok + s.crc_errors ≡ s.received
  pub no_samples : s.rtt_samples ≡ []
  pub sent_bound : s.sent ≤ n

abbrev pub IsDataOrFin : Reply → Type 0
IsDataOrFin r = (r.msg_type ≡ data_msg) ⊎ (r.msg_type ≡ fin)

pub data_or_fin :
    (r : Reply)
    → IsDataOrFin r
    → is_type r.msg_type data_msg ≡ false
    → is_type r.msg_type fin ≡ false
    → ⊥
data_or_fin r d h k = ground arith

-- `recv_data` returns DATA and FIN messages only.
pub recv_data-IsDataOrFin :
    {W : Type 0} (H : Host W) (conn : Connection) → Yields IsDataOrFin (recv_data H conn)
unfolding recv_data check_reply
recv_data-IsDataOrFin H conn =
    Yields-then (decode_message H) _
      λ m. Yields-lift (check_reply conn.connection_id m) λ r e. ground arith
