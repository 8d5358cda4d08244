-- ===== src/Examples/Frames.antt =====
-- Frames and messages on a concrete line.
use serial_testkit.Prelude.{ℕ, ◌≤◌, ◌≡◌, refl, true, some, [], ◌∷◌, ◌++◌, All, arith}
use serial_testkit.Prelude.Bytes.{Bytes, IsByte, to_bytes, from_bytes, bytes_eq}
use serial_testkit.Exec.{ok}
use serial_testkit.Message.Bounds.{Takes, decode-Takes}
use serial_testkit.Message.{encode, decode, resync, read_frame, uint32_to_bytes}
use serial_testkit.Message.Frames.{StartsAt}
use serial_testkit.Message.RoundTrip.{decode-encode, decode_sound}
use serial_testkit.Protocol.{ack, data_msg, SessionParams}
use serial_testkit.Encoding.{
  encode_data, encode_ack_with_params, decode_message, decode_ack_with_params,
}
use serial_testkit.Encoding.RoundTrip.{
  message, decode_message-encode_data, decode_message-encode_ack,
}
use serial_testkit.Examples.Line.{
  Wire, wire_of, host, host_stream, host-IsCrc32, checksum, conn_id, frame_data, frame_fin_ack,
  frame_ack,
}

-- The frame of the payload "AB".
abbrev frame_ab : Bytes
frame_ab = 0x00 ∷ 0x10 ∷ 0x5A ∷ 0x5E ∷ 2 ∷ 0 ∷ 0 ∷ 0 ∷ 65 ∷ 66 ∷ 131 ∷ 0 ∷ 0 ∷ 0 ∷ []

-- Two stray bytes before it, one byte behind it.
abbrev line_ab : Wire
line_ab = wire_of (9 ∷ 0 ∷ (frame_ab ++ 5 ∷ []))

abbrev line_ab_read : Wire
line_ab_read = record { rx = 5 ∷ []; clock = 6 }

encoded_ab : encode host (65 ∷ 66 ∷ []) line_ab ≡ (ok frame_ab, line_ab)
unfolding encode uint32_to_bytes to_bytes checksum
encoded_ab = refl

decoded_ab : decode host line_ab ≡ (ok (some (65 ∷ 66 ∷ []), true), line_ab_read)
unfolding decode resync read_frame bytes_eq from_bytes checksum
decoded_ab = refl

ab-IsByte : All IsByte line_ab.rx
ab-IsByte = ground arith

ab-starts : StartsAt 2 line_ab.rx (frame_ab ++ 5 ∷ [])
ab-starts = (λ e. cc, (λ e. cc, refl))

decode_sound_example :
    (2 ≤ 4096)
    × ((k : ℕ) × (wire : Bytes) × (k ≤ 8192)
        × (encode host (65 ∷ 66 ∷ []) line_ab ≡ (ok wire, line_ab))
        × StartsAt k line_ab.rx (wire ++ 5 ∷ []))
decode_sound_example =
    decode_sound host host_stream (65 ∷ 66 ∷ []) line_ab line_ab line_ab_read host-IsCrc32 ab-IsByte
      decoded_ab

decode-encode_example :
    (w' : Wire) × (decode host line_ab ≡ (ok (some (65 ∷ 66 ∷ []), true), w')) × (w'.rx ≡ 5 ∷ [])
decode-encode_example =
    decode-encode host host_stream (65 ∷ 66 ∷ []) frame_ab (5 ∷ []) 2 line_ab line_ab host-IsCrc32
      (omega arith) encoded_ab (omega arith) ab-starts

abbrev line_fin_ack : Wire
line_fin_ack = wire_of (8 ∷ (frame_fin_ack ++ 5 ∷ []))

abbrev line_data : Wire
line_data = wire_of (8 ∷ (frame_data ++ 5 ∷ []))

encoded_data : encode_data host conn_id (65 ∷ []) line_data ≡ (ok frame_data, line_data)
unfolding encode_data encode uint32_to_bytes to_bytes checksum
encoded_data = refl

decode_message-encode_data_example :
    (w' : Wire) × (decode_message host line_data ≡ (ok (message data_msg conn_id (65 ∷ [])), w'))
    × (w'.rx ≡ 5 ∷ [])
decode_message-encode_data_example =
    decode_message-encode_data host host_stream host-IsCrc32 conn_id (65 ∷ []) frame_data (5 ∷ []) 1
      line_data line_data refl (omega arith) encoded_data (omega arith) (λ e. cc, refl)

abbrev line_ack : Wire
line_ack = wire_of (8 ∷ (frame_ack ++ 5 ∷ []))

abbrev params_300 : SessionParams
params_300 = record { msg_count = 300 }

encoded_ack : encode_ack_with_params host conn_id params_300 line_ack ≡ (ok frame_ack, line_ack)
unfolding encode_ack_with_params encode uint32_to_bytes to_bytes checksum
encoded_ack = refl

decode_message-encode_ack_example :
    (w' : Wire) × (content : Bytes) × (decode_message host line_ack
      ≡ (ok (message ack conn_id content), w'))
    × (decode_ack_with_params ((3 ∷ conn_id) ++ content) ≡ ok (conn_id, params_300))
    × (w'.rx ≡ 5 ∷ [])
decode_message-encode_ack_example =
    decode_message-encode_ack host host_stream host-IsCrc32 conn_id frame_ack (5 ∷ []) params_300 1
      line_ack line_ack refl encoded_ack (omega arith) (λ e. cc, refl)

decode-Takes_example : Takes (λ w. w.rx) 12300 (decode host)
decode-Takes_example = decode-Takes host host_stream
