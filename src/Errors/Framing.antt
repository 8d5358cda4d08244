-- ===== src/Errors/Framing.antt =====
-- common/message.py, common/encoding.py and common/io.py: exceptions, and the sizes of what is read.
use serial_testkit.Prelude.{
  ℕ, zero, suc, ◌+◌, ◌^◌, ◌≤◌, ◌<◌, ◌≡◌, ◌⊎◌, inl, inr, refl, ap, Bool, true, false, ◌||◌, Option,
  none, some, [], ◌∷◌, ◌++◌, ltb, leb, ◌==◌, length, length-append, drop, arith,
}
use serial_testkit.Prelude.Bytes.{Bytes, bytes_eq, from_bytes}
use serial_testkit.Exec.{
  Exn, Result, ok, err, unexpected_message, call, attempt, is_decode_error, is_receive_error,
}
use serial_testkit.Exec.Yields.{
  Yields, Yields-pure, Yields-if, Yields-lift, Yields-bind, Yields-then,
}
use serial_testkit.Exec.Raises.{
  Raises, Never, Raises-pure, Raises-lift, Raises-call, Raises-mono, Raises-Never, Raises-if,
  Raises-attempt, Raises-then,
}
use serial_testkit.Host.{Host}
use serial_testkit.Host.Laws.{IsCalm, IsCrc32}
use serial_testkit.Message.{
  uint32_size, sync_magic_bytes, max_message_length, max_resync_bytes, min_payload_size,
  max_payload_size, random_bytes, random_payload, encode, resync, read_frame, decode,
}
use serial_testkit.Message.Frames.{frame, encode-frame}
use serial_testkit.Protocol.{MsgType, msg_code, conn_id_size, data_msg, Connection}
use serial_testkit.Encoding.{Decoded, parse_message, decode_message, encode_control, encode_data}
use serial_testkit.Encoding.Soundness.{HasSize, parse_message-IsParsed}
use serial_testkit.SerialIo.{Reply, check_reply, drain_input, send_data, recv_data}

abbrev pub Fits : Option Bytes × Bool → Type 0
Fits (none, good) = Unit {0}
Fits (some payload, good) = length payload ≤ max_message_length

-- What a reply holds: at most what a frame can.
abbrev pub IsShort : Reply → Type 0
IsShort r = length r.payload ≤ max_message_length

parse_message-HasSize :
    (o : Option Bytes) (good : Bool) (m : Decoded)
    → Fits (o, good)
    → parse_message o good ≡ ok m
    → HasSize m
unfolding parse_message
parse_message-HasSize none good m h e = absurd (cc)
parse_message-HasSize (some payload) good m h e =
    let (_, l, p) = parse_message-IsParsed payload good m e in
    (l, omega (arith, ap length p, length-append m.conn_id m.content))

parse_message-raises :
    (o : Option Bytes) (good : Bool) (x : Exn)
    → parse_message o good ≡ err x
    → is_decode_error x ≡ true
unfolding parse_message
parse_message-raises none good x e = ground arith
parse_message-raises (some payload) good x e = ground arith

decode→receive : (x : Exn) → is_decode_error x ≡ true → is_receive_error x ≡ true
decode→receive x h = ground arith

module _ {W : Type 0} (H : Host W) (c : IsCalm H) (crc : IsCrc32 H) where
  random_bytes-size : (n : ℕ) → Yields (λ bs. length bs ≡ n) (random_bytes H n)
  unfolding random_bytes
  random_bytes-size zero = Yields-pure [] refl
  random_bytes-size (suc n) = Yields-then (call (H.getrandbits 8)) _ λ b.
      Yields-bind (random_bytes H n) _ (random_bytes-size n)
        λ bs h. Yields-pure (b ∷ bs) (omega arith)

  random_bytes-Calm : (n : ℕ) → Raises Never (random_bytes H n)
  unfolding random_bytes
  random_bytes-Calm zero = Raises-pure []
  random_bytes-Calm (suc n) =
      Raises-then (call (H.getrandbits 8)) _ (Raises-call _)
        λ b. Raises-then (random_bytes H n) _ (random_bytes-Calm n) λ bs. Raises-pure (b ∷ bs)

  pub random_payload-size : Yields (λ bs. length bs ≤ 256) (random_payload H)
  unfolding random_payload
  random_payload-size =
      Yields-bind {Q = λ n. n ≤ 256} (call (H.randint min_payload_size max_payload_size))
        (random_bytes H) (record { yields = λ w n e. ground (arith, c.randint_most 16 256 w) })
        λ n h. record { yields = λ w bs e. omega (arith, (random_bytes-size n).yields w bs e) }

  pub random_payload-Calm : Raises Never (random_payload H)
  unfolding random_payload
  random_payload-Calm =
      Raises-then (call (H.randint min_payload_size max_payload_size)) _ (Raises-call _)
        random_bytes-Calm

  pub encode-Calm : (payload : Bytes) → length payload < 2 ^ 32 → Raises Never (encode H payload)
  encode-Calm payload h = record {
    raises = λ w x e.
        let e' : ◌≡◌ {A = Result Bytes} (ok (frame H payload)) (err x) =
          rw (encode-frame H payload w crc h) at e in
        cc e';
  }

  resync-Calm : (fuel scanned : ℕ) (window : Bytes) → Raises Never (resync H fuel scanned window)
  unfolding resync
  resync-Calm zero scanned window = record { raises = λ w x e. cc }
  resync-Calm (suc fuel) scanned window =
      Raises-if (bytes_eq window sync_magic_bytes) _ _ (λ _. Raises-pure true)
        λ _.
          Raises-if (leb max_resync_bytes scanned) _ _ (λ _. Raises-pure false)
            λ _. Raises-then (H.read 1) _ (c.reads_calm 1) λ next_byte.
              Raises-if (ltb (length next_byte) 1) _ _ (λ _. Raises-pure false)
                λ _. resync-Calm fuel (scanned + 1) (drop 1 window ++ next_byte)

  read_frame-Calm : Raises Never (read_frame H)
  unfolding read_frame
  read_frame-Calm = Raises-then (H.read uint32_size) _ (c.reads_calm uint32_size) λ length_bytes.
      let len = from_bytes length_bytes in
      Raises-if (ltb (length length_bytes) uint32_size) _ _ (λ _. Raises-pure (none, false))
        λ _.
          Raises-if (ltb max_message_length len) _ _ (λ _. Raises-pure (none, false))
            λ _. Raises-then (H.read len) _ (c.reads_calm len) λ payload.
              Raises-then (H.read uint32_size) _ (c.reads_calm uint32_size) λ crc_bytes.
                Raises-if (ltb (length payload) len || ltb (length crc_bytes) uint32_size) _ _
                  (λ _. Raises-pure (none, false))
                  λ _. Raises-pure (some payload, from_bytes crc_bytes == H.crc32 payload)

  read_frame-Fits : Yields Fits (read_frame H)
  unfolding read_frame
  read_frame-Fits = Yields-then (H.read uint32_size) _ λ length_bytes.
      let len = from_bytes length_bytes in
      Yields-if (ltb (length length_bytes) uint32_size) _ _ (λ _. Yields-pure (none, false) tt)
        λ _.
          Yields-if (ltb max_message_length len) _ _ (λ _. Yields-pure (none, false) tt)
            λ small. Yields-bind (H.read len) _ (c.reads_most len) λ payload most.
              Yields-then (H.read uint32_size) _ λ crc_bytes.
                Yields-if (ltb (length payload) len || ltb (length crc_bytes) uint32_size) _ _
                  (λ _. Yields-pure (none, false) tt)
                  λ _.
                    Yields-pure (some payload, from_bytes crc_bytes == H.crc32 payload)
                      (ground arith)

  pub decode-Calm : Raises Never (decode H)
  unfolding decode
  decode-Calm = Raises-then (H.read uint32_size) _ (c.reads_calm uint32_size) λ window.
      Raises-if (ltb (length window) uint32_size) _ _ (λ _. Raises-pure (none, false))
        λ _.
          Raises-then (resync H (max_resync_bytes + 1) 0 window) _ (resync-Calm _ 0 window)
            λ found. Raises-if found _ _ (λ _. read_frame-Calm) λ _. Raises-pure (none, false)

  decode-Fits : Yields Fits (decode H)
  unfolding decode
  decode-Fits = Yields-then (H.read uint32_size) _ λ window.
      Yields-if (ltb (length window) uint32_size) _ _ (λ _. Yields-pure (none, false) tt)
        λ _.
          Yields-then (resync H (max_resync_bytes + 1) 0 window) _
            λ found. Yields-if found _ _ (λ _. read_frame-Fits) λ _. Yields-pure (none, false) tt

  pub decode_message-HasSize : Yields HasSize (decode_message H)
  unfolding decode_message
  decode_message-HasSize =
      Yields-bind (decode H) _ decode-Fits λ ((o, good) : Option Bytes × Bool) h.
        Yields-lift (parse_message o good) λ m e. parse_message-HasSize o good m h e

  decode_message-Raises : Raises (λ x. is_decode_error x ≡ true) (decode_message H)
  unfolding decode_message
  decode_message-Raises =
      Raises-then (decode H) _ (Raises-Never (decode H) decode-Calm)
        λ (o, good). Raises-lift (parse_message o good) λ x e. parse_message-raises o good x e

  -- What an `except (TransportError, EncodingError)` around `decode_message` lets through: nothing.
  pub heard-Calm : Raises Never (attempt is_decode_error (decode_message H))
  heard-Calm =
      Raises-attempt is_decode_error (decode_message H) decode_message-Raises λ x h k. cc (h, k)

  pub drain_input-Calm : Raises Never (drain_input H)
  unfolding drain_input
  drain_input-Calm = Raises-then H.in_waiting _ c.in_waiting_calm λ count.
      Raises-if (ltb 0 count) _ _
        (λ _. Raises-then (H.read count) _ (c.reads_calm count) λ _. Raises-pure count)
        (λ _. Raises-pure count)

  pub encode_control-Calm :
      (t : MsgType) (conn_id : Bytes)
      → length conn_id ≡ conn_id_size
      → Raises Never (encode_control H t conn_id)
  unfolding encode_control
  encode_control-Calm t conn_id h = encode-Calm (msg_code t ∷ conn_id) (omega arith)

  pub send_data-Calm :
      (conn : Connection) (payload : Bytes)
      → length conn.connection_id ≡ conn_id_size
      → length payload ≤ max_message_length
      → Raises Never (send_data H conn payload)
  unfolding send_data encode_data
  send_data-Calm conn payload h fits =
      Raises-then (encode H (msg_code data_msg ∷ (conn.connection_id ++ payload))) _
        (encode-Calm _ (omega (arith, length-append conn.connection_id payload))) c.writes_calm

  pub recv_data-IsShort : (conn : Connection) → Yields IsShort (recv_data H conn)
  unfolding recv_data check_reply
  recv_data-IsShort conn =
      Yields-bind (decode_message H) _ decode_message-HasSize
        λ m h. Yields-lift (check_reply conn.connection_id m) λ r e. ground (arith, h.1)

  recv_data-Raises :
      (conn : Connection)
      → Raises (λ x. (is_receive_error x ≡ true) ⊎ (x ≡ unexpected_message)) (recv_data H conn)
  unfolding recv_data check_reply
  recv_data-Raises conn =
      Raises-then (decode_message H) _
        (Raises-mono (decode_message H) decode_message-Raises λ x h. inl (decode→receive x h))
        λ m. Raises-lift (check_reply conn.connection_id m) λ x e. ground arith

  -- What the `except` clause of the exchanges lets through: a message of the wrong type.
  pub received-Raises :
      (conn : Connection)
      → Raises (λ x. x ≡ unexpected_message) (attempt is_receive_error (recv_data H conn))
  received-Raises conn =
      Raises-attempt is_receive_error (recv_data H conn) (recv_data-Raises conn)
        λ x h k. elim h [ inl caught ↦ absurd (cc (caught, k)) | inr e ↦ e ]
