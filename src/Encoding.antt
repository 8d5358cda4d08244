-- ===== src/Encoding.antt =====
-- common/encoding.py: messages of the peering protocol inside frames.
pub mod RoundTrip
pub mod Soundness
use serial_testkit.Prelude.{
  ℕ, ◌+◌, Bool, Option, none, some, [], ◌∷◌, ◌++◌, ltb, if◌then◌else◌, length, take, drop,
}
use serial_testkit.Prelude.Bytes.{Bytes}
use serial_testkit.Exec.{
  Result, ok, err, Exec, transport_error, encoding_error, raise, lift, call, ◌>>=◌,
}
use serial_testkit.Host.{Host}
use serial_testkit.Message.{uint32_from_bytes, uint32_to_bytes, encode, decode}
use serial_testkit.Protocol.{
  MsgType, ack, data_msg, msg_code, msg_type_of, conn_id_size, SessionParams,
}

-- The tuple (msg_type, conn_id, data, crc_ok) of `decode_message`.
pub record Decoded : Type 0 where
  pub msg_type : MsgType
  pub conn_id : Bytes
  pub content : Bytes
  pub crc_ok : Bool

-- ACK payloads have 1 + 4 + 4 bytes at least.
unfoldable pub decode_ack_with_params : Bytes → Result (Bytes × SessionParams)
decode_ack_with_params payload =
    if ltb (length payload) (1 + conn_id_size + 4)
    then err encoding_error
    else ok (
      take conn_id_size (drop 1 payload),
      record { msg_count = uint32_from_bytes (take 4 (drop (1 + conn_id_size) payload)) },
    )

-- `payload[0]`, behind the length test.
abbrev pub first : Bytes → ℕ
first [] = 0
first (b ∷ bs) = b

abbrev pub typed : Option MsgType → Bytes → Bool → Result Decoded
typed none payload crc_ok = err encoding_error
typed (some t) payload crc_ok = ok (record {
  msg_type = t;
  conn_id = take conn_id_size (drop 1 payload);
  content = if ltb (1 + conn_id_size) (length payload) then drop (1 + conn_id_size) payload else [];
  crc_ok = crc_ok;
})

-- `decode_message` behind the frame.
unfoldable pub parse_message : Option Bytes → Bool → Result Decoded
parse_message none crc_ok = err transport_error
parse_message (some payload) crc_ok =
    if ltb (length payload) (1 + conn_id_size)
    then err encoding_error
    else typed (msg_type_of (first payload)) payload crc_ok

module _ {W : Type 0} (H : Host W) where
  unfoldable pub generate_connection_id : Exec W Bytes
  generate_connection_id = call (H.urandom conn_id_size)

  unfoldable pub encode_control : MsgType → Bytes → Exec W Bytes
  encode_control msg_type conn_id = encode H (msg_code msg_type ∷ conn_id)

  unfoldable pub encode_ack_with_params : Bytes → SessionParams → Exec W Bytes
  encode_ack_with_params conn_id session_params = do
    count ← lift (uint32_to_bytes session_params.msg_count)
    encode H (msg_code ack ∷ (conn_id ++ count))

  unfoldable pub encode_data : Bytes → Bytes → Exec W Bytes
  encode_data conn_id content = encode H (msg_code data_msg ∷ (conn_id ++ content))

  unfoldable pub decode_message : Exec W Decoded
  decode_message = do (payload, crc_ok) ← decode H; lift (parse_message payload crc_ok)
