-- ===== src/Examples/Received.antt =====
-- Messages that a concrete line delivers.
use serial_testkit.Prelude.{ℕ, ◌≤◌, ◌≡◌, refl, true, none, [], ◌∷◌, ◌++◌, All, arith}
use serial_testkit.Prelude.Bytes.{Bytes, IsByte, from_bytes, bytes_eq}
use serial_testkit.Exec.{ok}
use serial_testkit.Message.{encode, decode, resync, read_frame}
use serial_testkit.Message.Frames.{StartsAt}
use serial_testkit.Protocol.{fin_ack, data_msg, client, msg_type_of, Connection}
use serial_testkit.Encoding.{encode_data, parse_message, decode_message}
use serial_testkit.Encoding.RoundTrip.{message}
use serial_testkit.Encoding.Soundness.{payload_of, decode_message_sound}
use serial_testkit.SerialIo.{Reply, check_reply, recv_data}
use serial_testkit.SerialIo.Soundness.{recv_data_sound}
use serial_testkit.Examples.Line.{
  Wire, wire_of, host, host_stream, host-IsCrc32, checksum, conn_id, frame_data, frame_fin_ack,
}

-- One stray byte before the frame, and one behind it.
abbrev line_fin_ack : Wire
line_fin_ack = wire_of (8 ∷ (frame_fin_ack ++ 5 ∷ []))

abbrev line_data : Wire
line_data = wire_of (8 ∷ (frame_data ++ 5 ∷ []))

abbrev line_read : Wire
line_read = record { rx = 5 ∷ []; clock = 5 }

fin_ack-IsByte : All IsByte line_fin_ack.rx
fin_ack-IsByte = ground arith

data-IsByte : All IsByte line_data.rx
data-IsByte = ground arith

decoded_fin_ack : decode_message host line_fin_ack ≡ (ok (message fin_ack conn_id []), line_read)
unfolding decode_message parse_message msg_type_of decode resync read_frame bytes_eq from_bytes
    checksum
decoded_fin_ack = refl

abbrev four : ℕ
four = 4

decode_message_sound_example :
    (four ≡ 4)
    × ((k : ℕ) × (wire : Bytes) × (k ≤ 8192)
        × (encode host (payload_of (message fin_ack conn_id [])) line_read ≡ (ok wire, line_read))
        × StartsAt k line_fin_ack.rx (wire ++ 5 ∷ []))
decode_message_sound_example =
    decode_message_sound host host_stream (message fin_ack conn_id []) line_read line_fin_ack
      line_read host-IsCrc32 fin_ack-IsByte decoded_fin_ack refl

abbrev conn : Connection
conn = record { connection_id = conn_id; role = client; session_params = none }

abbrev reply : Reply
reply = record { payload = 65 ∷ []; crc_ok = true; msg_type = data_msg }

received : recv_data host conn line_data ≡ (ok reply, line_read)
unfolding recv_data check_reply decode_message parse_message msg_type_of decode resync read_frame
    bytes_eq from_bytes checksum
received = refl

recv_data_sound_example :
    (reply.msg_type ≡ data_msg)
    × ((k : ℕ) × (wire : Bytes) × (k ≤ 8192)
        × (encode_data host conn_id (65 ∷ []) line_read ≡ (ok wire, line_read))
        × StartsAt k line_data.rx (wire ++ 5 ∷ []))
recv_data_sound_example =
    recv_data_sound host host_stream conn reply line_read line_data line_read host-IsCrc32
      data-IsByte received refl
