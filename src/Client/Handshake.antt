-- ===== src/Client/Handshake.antt =====
-- client/handshake.py: SYN until SYN_ACK, then ACK with the session's parameters.
use serial_testkit.Prelude.{ℕ, Bool, true, ◌&&◌, Option, none, some, if◌then◌else◌}
use serial_testkit.Prelude.Bytes.{Bytes, bytes_eq}
use serial_testkit.Exec.{Exec, handshake_error, pure, raise, attempt, is_decode_error, ◌>>=◌, ◌>>◌}
use serial_testkit.Host.{Host}
use serial_testkit.Protocol.{syn, syn_ack, is_type, client, SessionParams, Connection}
use serial_testkit.Encoding.{
  Decoded, generate_connection_id, encode_control, encode_ack_with_params, decode_message,
}
use serial_testkit.SerialIo.{drain_input}
use serial_testkit.Timed.{Round, again, done, within, retransmit}

-- The test behind `decode_message`; `last_syn` is kept for the next round.
unfoldable pub on_syn_reply : Bytes → ℕ → Option Decoded → Round ℕ Bool
on_syn_reply conn_id last_syn none = again last_syn
on_syn_reply conn_id last_syn (some m) =
    if is_type m.msg_type syn_ack && bytes_eq m.conn_id conn_id && m.crc_ok
    then done true
    else again last_syn

abbrev pub or_handshake_error : {W A : Type 0} → Option A → Exec W A
or_handshake_error none = raise handshake_error
or_handshake_error (some a) = pure a

abbrev pub default_params : SessionParams
default_params = record { msg_count = 100 }

abbrev pub or_default : Option SessionParams → SessionParams
or_default none = default_params
or_default (some p) = p

module _ {W : Type 0} (H : Host W) where
  unfoldable pub syn_round : Bytes → Bytes → ℕ → ℕ → Exec W (Round ℕ Bool)
  syn_round conn_id syn_msg syn_interval last_syn = do
    last_syn' ← retransmit H syn_msg syn_interval last_syn
    got ← attempt is_decode_error (decode_message H)
    pure (on_syn_reply conn_id last_syn' got)

  unfoldable pub client_send_syn_wait_syn_ack : Bytes → ℕ → ℕ → Exec W Bool
  client_send_syn_wait_syn_ack conn_id timeout syn_interval = do
    syn_msg ← encode_control H syn conn_id
    found ← within H timeout (syn_round conn_id syn_msg syn_interval) 0
    or_handshake_error found

  unfoldable pub client_send_ack_with_params : Bytes → SessionParams → Exec W (Option ℕ)
  client_send_ack_with_params conn_id session_params = do
    ack_msg ← encode_ack_with_params H conn_id session_params
    H.write ack_msg

  unfoldable pub client_handshake : ℕ → ℕ → Option SessionParams → Exec W Connection
  client_handshake timeout syn_interval session_params = do
    drain_input H
    conn_id ← generate_connection_id H
    client_send_syn_wait_syn_ack conn_id timeout syn_interval
    client_send_ack_with_params conn_id (or_default session_params)
    pure (record {
      connection_id = conn_id;
      role = client;
      session_params = some (or_default session_params);
    })
