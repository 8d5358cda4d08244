-- ===== src/Server/Handshake.antt =====
-- server/handshake.py: wait for SYN, send SYN_ACK until ACK brings the session's parameters.
use serial_testkit.Prelude.{ℕ, ◌&&◌, Option, none, some, ◌∷◌, ◌++◌, if◌then◌else◌}
use serial_testkit.Prelude.Bytes.{Bytes, bytes_eq}
use serial_testkit.Exec.{
  Result, ok, err, stuck, Exec, encoding_error, peering_error, pure, raise, lift, attempt,
  is_decode_error, ◌>>=◌, ◌>>◌,
}
use serial_testkit.Host.{Host}
use serial_testkit.Protocol.{
  syn, syn_ack, ack, msg_code, is_type, server, SessionParams, Connection, default_syn_interval,
}
use serial_testkit.Encoding.{Decoded, encode_control, decode_ack_with_params, decode_message}
use serial_testkit.SerialIo.{drain_input}
use serial_testkit.Timed.{Round, again, done, within, retransmit}

unfoldable pub on_syn : Option Decoded → Round (Unit {0}) Bytes
on_syn none = again tt
on_syn (some m) = if is_type m.msg_type syn && m.crc_ok then done m.conn_id else again tt

-- `decode_ack_with_params` under its `try`: an ACK without parameters is ignored.
abbrev pub on_params : ℕ → Result (Bytes × SessionParams) → Result (Round ℕ SessionParams)
on_params last (ok (_, session_params)) = ok (done session_params)
on_params last (err encoding_error) = ok (again last)
on_params last (err e) = err e
on_params last stuck = stuck

-- Any other message goes to the next round; a duplicate SYN is only logged in addition.
unfoldable pub on_ack : Bytes → ℕ → Option Decoded → Result (Round ℕ SessionParams)
on_ack conn_id last none = ok (again last)
on_ack conn_id last (some m) =
    if is_type m.msg_type ack && bytes_eq m.conn_id conn_id && m.crc_ok
    then on_params last (decode_ack_with_params ((msg_code ack ∷ m.conn_id) ++ m.content))
    else ok (again last)

abbrev pub or_peering_error : {W A : Type 0} → Option A → Exec W A
or_peering_error none = raise peering_error
or_peering_error (some a) = pure a

module _ {W : Type 0} (H : Host W) where
  unfoldable pub wait_syn_round : Unit {0} → Exec W (Round (Unit {0}) Bytes)
  wait_syn_round _ = do got ← attempt is_decode_error (decode_message H); pure (on_syn got)

  unfoldable pub server_wait_for_syn : ℕ → Exec W Bytes
  server_wait_for_syn timeout = do
    found ← within H timeout wait_syn_round tt
    or_peering_error found

  unfoldable pub wait_ack_round : Bytes → Bytes → ℕ → ℕ → Exec W (Round ℕ SessionParams)
  wait_ack_round conn_id syn_ack_msg syn_ack_interval last_syn_ack = do
    last ← retransmit H syn_ack_msg syn_ack_interval last_syn_ack
    got ← attempt is_decode_error (decode_message H)
    lift (on_ack conn_id last got)

  unfoldable pub server_send_syn_ack_wait_ack : Bytes → ℕ → ℕ → Exec W SessionParams
  server_send_syn_ack_wait_ack conn_id timeout syn_ack_interval = do
    syn_ack_msg ← encode_control H syn_ack conn_id
    found ← within H timeout (wait_ack_round conn_id syn_ack_msg syn_ack_interval) 0
    or_peering_error found

  unfoldable pub server_handshake : ℕ → ℕ → Exec W Connection
  server_handshake client_timeout ack_timeout = do
    drain_input H
    conn_id ← server_wait_for_syn client_timeout
    session_params ← server_send_syn_ack_wait_ack conn_id ack_timeout default_syn_interval
    pure (record { connection_id = conn_id; role = server; session_params = some session_params })
