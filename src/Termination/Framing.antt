-- ===== src/Termination/Framing.antt =====
-- common/message.py and common/encoding.py: the end of encoding and decoding.
use serial_testkit.Prelude.{
  ℕ, zero, suc, ◌+◌, ◌≤◌, ◌<◌, ◌≢◌, Bool, true, false, Option, none, some, [], ◌∷◌, ltb, leb,
  leb_false→lt, length, arith,
}
use serial_testkit.Prelude.Bytes.{Bytes, bytes_eq}
use serial_testkit.Exec.{stuck, lift, call}
use serial_testkit.Exec.Ends.{
  Ends, Ticks, Ends-pure, Ends-lift, Ends-call, Ends-if, Ends-bind, Ticks-bind, ends_rules,
}
use serial_testkit.Host.{Host}
use serial_testkit.Host.Laws.{HasClock}
use serial_testkit.Message.{
  uint32_size, sync_magic_bytes, max_resync_bytes, min_payload_size, max_payload_size,
  uint32_to_bytes, random_bytes, random_payload, encode, resync, read_frame, decode,
}
use serial_testkit.Protocol.{MsgType, SessionParams, Connection}
use serial_testkit.Encoding.{
  Decoded, parse_message, encode_control, encode_ack_with_params, encode_data, decode_message,
}
use serial_testkit.SerialIo.{check_reply, drain_input, send_data, recv_data}

uint32_to_bytes-ne-stuck : (v : ℕ) → uint32_to_bytes v ≢ stuck
unfolding uint32_to_bytes
uint32_to_bytes-ne-stuck v e = ground arith

parse_message-ne-stuck : (payload : Option Bytes) (good : Bool) → parse_message payload good ≢ stuck
unfolding parse_message
parse_message-ne-stuck none good e = cc
parse_message-ne-stuck (some payload) good e = ground arith

check_reply-ne-stuck : (conn_id : Bytes) (m : Decoded) → check_reply conn_id m ≢ stuck
unfolding check_reply
check_reply-ne-stuck conn_id m e = ground arith

module _ {W : Type 0} (H : Host W) {clock : W → ℕ} (C : HasClock H clock) where
  random_bytes-Ends : (n : ℕ) → Ends clock (random_bytes H n)
  unfolding random_bytes
  random_bytes-Ends zero = Ends-pure []
  random_bytes-Ends (suc n) =
      Ends-bind (call (H.getrandbits 8)) _ (Ends-call _ (C.getrandbits_later 8))
        λ b. Ends-bind (random_bytes H n) _ (random_bytes-Ends n) λ bs. Ends-pure (b ∷ bs)

  pub random_payload-Ends : Ends clock (random_payload H)
  unfolding random_payload
  random_payload-Ends =
      Ends-bind (call (H.randint min_payload_size max_payload_size)) _
        (Ends-call _ (C.randint_later min_payload_size max_payload_size)) random_bytes-Ends

  encode-Ends : (payload : Bytes) → Ends clock (encode H payload)
  unfolding encode
  encode-Ends payload =
      Ends-bind (lift (uint32_to_bytes (length payload))) _
        (Ends-lift _ (uint32_to_bytes-ne-stuck _))
        λ len.
          Ends-bind (lift (uint32_to_bytes (H.crc32 payload))) _
            (Ends-lift _ (uint32_to_bytes-ne-stuck _)) λ crc. Ends-pure _

  -- The scan stops after 8192 bytes, so its 8193 rounds are enough.
  resync-Ends :
      (fuel scanned : ℕ) (sync_bytes : Bytes)
      → scanned ≤ max_resync_bytes
      → max_resync_bytes < scanned + fuel
      → Ends clock (resync H fuel scanned sync_bytes)
  unfolding resync
  resync-Ends zero scanned sync_bytes h k = absurd (omega arith)
  resync-Ends (suc fuel) scanned sync_bytes h k =
      Ends-if (bytes_eq sync_bytes sync_magic_bytes) _ _ (λ _. Ends-pure true)
        λ _.
          Ends-if (leb max_resync_bytes scanned) _ _ (λ _. Ends-pure false)
            λ more. Ends-bind (H.read 1) _ (C.read_ticks 1).ends λ next_byte.
              Ends-if (ltb (length next_byte) 1) _ _ (λ _. Ends-pure false)
                λ _.
                  resync-Ends fuel (scanned + 1) _ (omega (arith, leb_false→lt _ _ more))
                    (omega arith)

  read_frame-Ends : Ends clock (read_frame H)
  unfolding read_frame
  read_frame-Ends = search (ends_rules, λ (n : ℕ). (C.read_ticks n).ends) depth 12

  pub decode-Ticks : Ticks clock (decode H)
  unfolding decode
  decode-Ticks = Ticks-bind (H.read uint32_size) _ (C.read_ticks uint32_size) λ sync_bytes.
      Ends-if (ltb (length sync_bytes) uint32_size) _ _ (λ _. Ends-pure (none, false))
        λ _.
          Ends-bind (resync H (max_resync_bytes + 1) 0 sync_bytes) _
            (resync-Ends (max_resync_bytes + 1) 0 sync_bytes (omega arith) (omega arith))
            λ found. Ends-if found _ _ (λ _. read_frame-Ends) λ _. Ends-pure (none, false)

  pub decode_message-Ticks : Ticks clock (decode_message H)
  unfolding decode_message
  decode_message-Ticks =
      Ticks-bind (decode H) _ decode-Ticks
        λ (payload, good). Ends-lift _ (parse_message-ne-stuck payload good)

  pub encode_control-Ends :
      (t : MsgType) (conn_id : Bytes) → Ends clock (encode_control H t conn_id)
  unfolding encode_control
  encode_control-Ends t conn_id = encode-Ends _

  pub encode_ack-Ends :
      (conn_id : Bytes) (params : SessionParams)
      → Ends clock (encode_ack_with_params H conn_id params)
  unfolding encode_ack_with_params
  encode_ack-Ends conn_id params =
      Ends-bind (lift (uint32_to_bytes params.msg_count)) _
        (Ends-lift _ (uint32_to_bytes-ne-stuck _)) λ count. encode-Ends _

  pub drain_input-Ends : Ends clock (drain_input H)
  unfolding drain_input
  drain_input-Ends = Ends-bind H.in_waiting _ C.in_waiting_ends λ count.
      Ends-if (ltb 0 count) _ _
        (λ _. Ends-bind (H.read count) _ (C.read_ticks count).ends λ _. Ends-pure count)
        λ _. Ends-pure count

  pub send_data-Ends : (conn : Connection) (payload : Bytes) → Ends clock (send_data H conn payload)
  unfolding send_data encode_data
  send_data-Ends conn payload = Ends-bind _ _ (encode-Ends _) C.write_ends

  pub recv_data-Ends : (conn : Connection) → Ends clock (recv_data H conn)
  unfolding recv_data
  recv_data-Ends conn =
      Ends-bind (decode_message H) _ decode_message-Ticks.ends
        λ m. Ends-lift _ (check_reply-ne-stuck conn.connection_id m)
