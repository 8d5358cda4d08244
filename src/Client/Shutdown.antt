-- ===== src/Client/Shutdown.antt =====
-- client/shutdown.py: FIN until FIN_ACK, for five seconds.
use serial_testkit.Prelude.{ℕ, Bool, true, ◌&&◌, Option, none, some, if◌then◌else◌}
use serial_testkit.Prelude.Bytes.{Bytes, bytes_eq}
use serial_testkit.Exec.{or_false, Exec, pure, attempt, is_decode_error, ◌>>=◌}
use serial_testkit.Host.{Host}
use serial_testkit.Protocol.{fin, fin_ack, is_type, Connection}
use serial_testkit.Encoding.{Decoded, encode_control, decode_message}
use serial_testkit.Timed.{Round, again, done, within, retransmit}

-- 0.5 s
abbrev pub fin_interval : ℕ
fin_interval = 500_000_000

unfoldable pub on_fin_reply : Bytes → ℕ → Option Decoded → Round ℕ Bool
on_fin_reply conn_id last_fin none = again last_fin
on_fin_reply conn_id last_fin (some m) =
    if is_type m.msg_type fin_ack && bytes_eq m.conn_id conn_id && m.crc_ok
    then done true
    else again last_fin

module _ {W : Type 0} (H : Host W) where
  unfoldable pub fin_round : Bytes → Bytes → ℕ → Exec W (Round ℕ Bool)
  fin_round conn_id fin_msg last_fin = do
    last_fin' ← retransmit H fin_msg fin_interval last_fin
    got ← attempt is_decode_error (decode_message H)
    pure (on_fin_reply conn_id last_fin' got)

  unfoldable pub client_shutdown : Connection → ℕ → Exec W Bool
  client_shutdown conn timeout = do
    fin_msg ← encode_control H fin conn.connection_id
    found ← within H timeout (fin_round conn.connection_id fin_msg) 0
    pure (or_false found)
