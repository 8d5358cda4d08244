-- ===== src/Encoding/RoundTrip.antt =====
-- common/encoding.py: encoding and decoding of the messages, one behind the other.
use serial_testkit.Prelude.{
  ℕ, suc, ◌^◌, ◌≤◌, ◌<◌, ◌≡◌, sym, ap, ◌∙◌, true, some, [], ◌∷◌, ◌++◌, append-nil, ltb,
  le→ltb_false, length, length-append, take, drop, take-append, drop-append, if◌then◌else◌, Bool,
  arith,
}
use serial_testkit.Prelude.Bytes.{Bytes, to_bytes, from_bytes-to_bytes, length-to_bytes}
use serial_testkit.Exec.{ok}
use serial_testkit.Host.{Host}
use serial_testkit.Host.Laws.{IsCrc32, IsStream}
use serial_testkit.Message.{max_resync_bytes, uint32_to_bytes, encode}
use serial_testkit.Message.Frames.{StartsAt, uint32_to_bytes-eq}
use serial_testkit.Message.RoundTrip.{decode-encode}
use serial_testkit.Protocol.{
  MsgType, ack, data_msg, msg_code, msg_type_of-msg_code, conn_id_size, SessionParams,
}
use serial_testkit.Encoding.{
  Decoded, parse_message, decode_ack_with_params, encode_control, encode_ack_with_params,
  encode_data, decode_message,
}

abbrev pub message : MsgType → Bytes → Bytes → Decoded
message t conn_id content = record {
  msg_type = t;
  conn_id = conn_id;
  content = content;
  crc_ok = true;
}

-- `data` is empty exactly if the payload ends behind the connection id.
content_of :
    (conn_id content : Bytes)
    → length conn_id ≡ 4
    → (if ltb 5 (suc (length (conn_id ++ content))) then drop 4 (conn_id ++ content) else [])
      ≡ content
content_of conn_id [] h = rw (append-nil conn_id, h)
content_of conn_id (b ∷ bs) h =
    ground (arith, length-append conn_id (b ∷ bs), drop-append 4 conn_id (b ∷ bs) h)

take_all : (s : Bytes) → length s ≡ 4 → take 4 s ≡ s
take_all s h = ap (take 4) (sym (append-nil s)) ∙ take-append 4 s [] h

pub parse_message-payload :
    (t : MsgType) (conn_id content : Bytes) (good : Bool)
    → length conn_id ≡ conn_id_size
    → parse_message (some (msg_code t ∷ (conn_id ++ content))) good
      ≡ ok (record { msg_type = t; conn_id = conn_id; content = content; crc_ok = good })
unfolding parse_message
parse_message-payload t conn_id content good h = rw (
  le→ltb_false (suc (length (conn_id ++ content))) 5 (omega (arith, length-append conn_id content)),
  msg_type_of-msg_code t,
  take-append 4 conn_id content h,
  content_of conn_id content h,
)

-- Behind the acknowledgement's header stands the message count.
pub decode_ack-params :
    (conn_id : Bytes) (count : ℕ)
    → length conn_id ≡ conn_id_size
    → count < 2 ^ 32
    → decode_ack_with_params ((msg_code ack ∷ conn_id) ++ to_bytes 4 count)
      ≡ ok (conn_id, record { msg_count = count })
unfolding decode_ack_with_params
decode_ack-params conn_id count h fits = rw (
  le→ltb_false (suc (length (conn_id ++ to_bytes 4 count))) 9
      (omega (arith, length-append conn_id (to_bytes 4 count), length-to_bytes 4 count)),
  take-append 4 conn_id (to_bytes 4 count) h,
  drop-append 4 conn_id (to_bytes 4 count) h,
  take_all (to_bytes 4 count) (length-to_bytes 4 count),
  from_bytes-to_bytes 4 count fits,
)

module _ {W : Type 0} (H : Host W) {pending : W → Bytes} (S : IsStream H pending)
    (c : IsCrc32 H) where
  decode_message-encode :
      (t : MsgType) (conn_id content wire rest : Bytes) (k : ℕ) (v w : W)
      → length conn_id ≡ conn_id_size
      → length content ≤ 4091
      → encode H (msg_code t ∷ (conn_id ++ content)) v ≡ (ok wire, v)
      → k ≤ max_resync_bytes
      → StartsAt k (pending w) (wire ++ rest)
      → (w' : W) × (decode_message H w ≡ (ok (message t conn_id content), w')) × (pending w' ≡ rest)
  unfolding decode_message
  decode_message-encode t conn_id content wire rest k v w h fits e hk at =
      let (w', d, left) =
        decode-encode H S (msg_code t ∷ (conn_id ++ content)) wire rest k v w c
          (omega (arith, length-append conn_id content)) e hk at in
      (w', rw (d, parse_message-payload t conn_id content true h), left)

  -- A control message comes back with its type, its connection id, no data and a good CRC.
  pub decode_message-encode_control :
      (t : MsgType) (conn_id wire rest : Bytes) (k : ℕ) (v w : W)
      → length conn_id ≡ conn_id_size
      → encode_control H t conn_id v ≡ (ok wire, v)
      → k ≤ max_resync_bytes
      → StartsAt k (pending w) (wire ++ rest)
      → (w' : W) × (decode_message H w ≡ (ok (message t conn_id []), w')) × (pending w' ≡ rest)
  unfolding encode_control
  decode_message-encode_control t conn_id wire rest k v w h e hk at =
      decode_message-encode t conn_id [] wire rest k v w h (omega arith) (rw (append-nil conn_id) e)
        hk at

  -- A DATA message comes back with its payload.
  pub decode_message-encode_data :
      (conn_id content wire rest : Bytes) (k : ℕ) (v w : W)
      → length conn_id ≡ conn_id_size
      → length content ≤ 4091
      → encode_data H conn_id content v ≡ (ok wire, v)
      → k ≤ max_resync_bytes
      → StartsAt k (pending w) (wire ++ rest)
      → (w' : W) × (decode_message H w ≡ (ok (message data_msg conn_id content), w'))
        × (pending w' ≡ rest)
  unfolding encode_data
  decode_message-encode_data conn_id content wire rest k v w h fits e hk at =
      decode_message-encode data_msg conn_id content wire rest k v w h fits e hk at

  -- What was encoded is a count that fits its field.
  count_fits :
      (conn_id wire : Bytes) (params : SessionParams) (v : W)
      → encode_ack_with_params H conn_id params v ≡ (ok wire, v)
      → params.msg_count < 2 ^ 32
  unfolding encode_ack_with_params uint32_to_bytes
  count_fits conn_id wire params v e = ground arith

  -- An ACK comes back, and the payload that the server rebuilds from it has the parameters.
  pub decode_message-encode_ack :
      (conn_id wire rest : Bytes) (params : SessionParams) (k : ℕ) (v w : W)
      → length conn_id ≡ conn_id_size
      → encode_ack_with_params H conn_id params v ≡ (ok wire, v)
      → k ≤ max_resync_bytes
      → StartsAt k (pending w) (wire ++ rest)
      → (w' : W) × (content : Bytes) × (decode_message H w ≡ (ok (message ack conn_id content), w'))
        × (decode_ack_with_params ((msg_code ack ∷ conn_id) ++ content) ≡ ok (conn_id, params))
        × (pending w' ≡ rest)
  unfolding encode_ack_with_params
  decode_message-encode_ack conn_id wire rest params k v w h e hk at =
      let fits = count_fits conn_id wire params v e in
      let e' : encode H (msg_code ack ∷ (conn_id ++ to_bytes 4 params.msg_count)) v ≡ (ok wire, v) =
        rw (uint32_to_bytes-eq params.msg_count fits) at e in
      let (w', d, left) =
        decode_message-encode ack conn_id (to_bytes 4 params.msg_count) wire rest k v w h
          (omega (arith, length-to_bytes 4 params.msg_count)) e' hk at in
      (w', to_bytes 4 params.msg_count, d, decode_ack-params conn_id params.msg_count h fits, left)
