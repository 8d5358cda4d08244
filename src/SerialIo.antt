-- ===== src/SerialIo.antt =====
-- common/io.py: draining, sending and receiving on an established connection.
pub mod Soundness
use serial_testkit.Prelude.{ℕ, Bool, false, not, Option, [], ltb, if◌then◌else◌}
use serial_testkit.Prelude.Bytes.{Bytes, bytes_eq}
use serial_testkit.Exec.{
  Result, ok, err, Exec, connection_mismatch, unexpected_message, pure, lift, ◌>>=◌, ◌>>◌,
}
use serial_testkit.Host.{Host}
use serial_testkit.Protocol.{MsgType, data_msg, fin, Connection}
use serial_testkit.Encoding.{Decoded, encode_data, decode_message}

-- The tuple (payload, crc_ok, msg_type) of `recv_data`.
pub record Reply : Type 0 where
  pub payload : Bytes
  pub crc_ok : Bool
  pub msg_type : MsgType

-- The match on the message type.
abbrev pub by_type : MsgType → Decoded → Result Reply
by_type data_msg m = ok (record { payload = m.content; crc_ok = m.crc_ok; msg_type = data_msg })
by_type fin m = ok (record { payload = []; crc_ok = false; msg_type = fin })
by_type _ m = err unexpected_message

unfoldable pub check_reply : Bytes → Decoded → Result Reply
check_reply connection_id m =
    if not (bytes_eq m.conn_id connection_id) then err connection_mismatch else by_type m.msg_type m

module _ {W : Type 0} (H : Host W) where
  unfoldable pub drain_input : Exec W ℕ
  drain_input = do
    count ← H.in_waiting
    if ltb 0 count then (do H.read count; pure count) else pure count

  unfoldable pub send_data : Connection → Bytes → Exec W (Option ℕ)
  send_data conn payload = do wire ← encode_data H conn.connection_id payload; H.write wire

  unfoldable pub recv_data : Connection → Exec W Reply
  recv_data conn = do m ← decode_message H; lift (check_reply conn.connection_id m)
