-- ===== src/SerialIo/Soundness.antt =====
-- common/io.py: what `recv_data` accepts.
use serial_testkit.Prelude.{ℕ, ◌≤◌, ◌≡◌, refl, sym, ◌∙◌, ap, true, ◌∷◌, ◌++◌, All, arith}
use serial_testkit.Prelude.Bytes.{Bytes, IsByte, bytes_eq→eq}
use serial_testkit.Exec.{Result, ok, err, stuck, lift, proceed}
use serial_testkit.Host.{Host}
use serial_testkit.Host.Laws.{IsCrc32, IsStream}
use serial_testkit.Message.{max_resync_bytes, encode}
use serial_testkit.Message.Frames.{StartsAt}
use serial_testkit.Protocol.{msg_code, data_msg, Connection}
use serial_testkit.Encoding.{Decoded, encode_data, decode_message}
use serial_testkit.Encoding.Soundness.{payload_of, decode_message_sound}
use serial_testkit.SerialIo.{Reply, check_reply, recv_data}

-- The message behind a reply with a good CRC.
abbrev IsDataOf : Bytes → Decoded → Reply → Type 0
IsDataOf connection_id m r =
    (m.conn_id ≡ connection_id)
    × (m.msg_type ≡ data_msg)
    × (r.msg_type ≡ data_msg)
    × (m.content ≡ r.payload)
    × (m.crc_ok ≡ true)

check_reply-IsDataOf :
    (connection_id : Bytes) (m : Decoded) (r : Reply)
    → check_reply connection_id m ≡ ok r
    → r.crc_ok ≡ true
    → IsDataOf connection_id m r
unfolding check_reply
check_reply-IsDataOf connection_id m r e good = ground (arith, bytes_eq→eq m.conn_id connection_id)

payload_of-data :
    (connection_id : Bytes) (m : Decoded) (r : Reply)
    → IsDataOf connection_id m r
    → payload_of m ≡ msg_code data_msg ∷ (connection_id ++ r.payload)
payload_of-data connection_id m r (id, mt, _, pay, _) = rw (id, mt, pay)

module _ {W : Type 0} (H : Host W) {pending : W → Bytes} (S : IsStream H pending) where
  checked :
      (connection_id : Bytes) (r : Reply) (w w' : W) (d : Result Decoded × W)
      → decode_message H w ≡ d
      → (let (x, w₁) = d in proceed x (λ m. lift (check_reply connection_id m)) w₁) ≡ (ok r, w')
      → r.crc_ok ≡ true
      → (m : Decoded) × (decode_message H w ≡ (ok m, w')) × IsDataOf connection_id m r
  checked connection_id r w w' (ok m, w₁) e p good =
      (m, cc (e, ap (λ x. x.1) p), check_reply-IsDataOf connection_id m r (ap (λ x. x.0) p) good)
  checked connection_id r w w' (err x, w₁) e p good = absurd (cc)
  checked connection_id r w w' (stuck, w₁) e p good = absurd (cc)

  -- What `recv_data` returns with a good CRC is the payload of a DATA message of this connection:
  -- its frame, as `encode_data` writes it, stood in the stream behind at most 8192 bytes in which
  -- no magic starts, and the stream goes on behind that frame.
  pub recv_data_sound :
      (conn : Connection) (r : Reply) (v w w' : W)
      → IsCrc32 H
      → All IsByte (pending w)
      → recv_data H conn w ≡ (ok r, w')
      → r.crc_ok ≡ true
      → (r.msg_type ≡ data_msg)
        × ((k : ℕ) × (wire : Bytes) × (k ≤ max_resync_bytes)
            × (encode_data H conn.connection_id r.payload v ≡ (ok wire, v))
            × StartsAt k (pending w) (wire ++ pending w'))
  unfolding recv_data encode_data
  recv_data_sound conn r v w w' c bytes e good =
      let (m, d, is) = checked conn.connection_id r w w' (decode_message H w) refl e good in
      let (_, _, rt, _, ok_crc) = is in
      let (_, (k, wire, hk, enc, at)) = decode_message_sound H S m v w w' c bytes d ok_crc in
      (
        rt,
        (
          k,
          wire,
          hk,
          ap (λ p. encode H p v) (sym (payload_of-data conn.connection_id m r is)) ∙ enc,
          at,
        ),
      )
