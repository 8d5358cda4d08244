-- ===== src/Encoding/Soundness.antt =====
-- common/encoding.py: what `decode_message` accepts.
use serial_testkit.Prelude.{
  ℕ, ◌≤◌, ◌≡◌, refl, ap, Bool, true, Option, none, some, [], ◌∷◌, ◌++◌, length, All, arith,
}
use serial_testkit.Prelude.Bytes.{Bytes, IsByte}
use serial_testkit.Exec.{Result, ok, err, stuck, lift, proceed}
use serial_testkit.Host.{Host}
use serial_testkit.Host.Laws.{IsCrc32, IsStream}
use serial_testkit.Message.{max_resync_bytes, encode, decode}
use serial_testkit.Message.Frames.{StartsAt}
use serial_testkit.Message.RoundTrip.{decode_sound}
use serial_testkit.Protocol.{MsgType, msg_code, msg_type_of, conn_id_size}
use serial_testkit.Encoding.{Decoded, typed, parse_message, decode_message}

-- The payload that a message comes from.
abbrev pub payload_of : Decoded → Bytes
payload_of m = msg_code m.msg_type ∷ (m.conn_id ++ m.content)

-- A message whose connection id has 4 bytes and whose data has at most 4091.
abbrev pub HasSize : Decoded → Type 0
HasSize m = (length m.conn_id ≡ conn_id_size) × (length m.content ≤ 4091)

msg_type_of_sound : (v : ℕ) (t : MsgType) → msg_type_of v ≡ some t → v ≡ msg_code t
unfolding msg_type_of
msg_type_of_sound v t h = ground arith

abbrev pub IsParsed : Bytes → Bool → Decoded → Type 0
IsParsed payload good m =
    (m.crc_ok ≡ good) × (length m.conn_id ≡ conn_id_size) × (payload ≡ payload_of m)

parts :
    (a b c d e : ℕ) (rest : Bytes) (good : Bool) (o : Option MsgType) (m : Decoded)
    → msg_type_of a ≡ o
    → typed o (a ∷ b ∷ c ∷ d ∷ e ∷ rest) good ≡ ok m
    → IsParsed (a ∷ b ∷ c ∷ d ∷ e ∷ rest) good m
parts a b c d e rest good none m h p = absurd (cc)
parts a b c d e [] good (some t) m h p = ground (arith, msg_type_of_sound a t h)
parts a b c d e (x ∷ rest) good (some t) m h p = ground (arith, msg_type_of_sound a t h)

pub parse_message-IsParsed :
    (payload : Bytes) (good : Bool) (m : Decoded)
    → parse_message (some payload) good ≡ ok m
    → IsParsed payload good m
unfolding parse_message
parse_message-IsParsed (a ∷ b ∷ c ∷ d ∷ e ∷ rest) good m p =
    parts a b c d e rest good (msg_type_of a) m refl (ground arith)
parse_message-IsParsed payload good m p = absurd (ground arith)

-- A parsed message gives back its frame's payload.
module _ {W : Type 0} (H : Host W) {pending : W → Bytes} (S : IsStream H pending) where
  parsed :
      (m : Decoded) (w w' : W) (d : Result (Option Bytes × Bool) × W)
      → decode H w ≡ d
      → (let (r, w₁) = d in proceed r (λ (payload, good). lift (parse_message payload good)) w₁)
        ≡ (ok m, w')
      → (payload : Bytes) × (decode H w ≡ (ok (some payload, m.crc_ok), w'))
        × IsParsed payload m.crc_ok m
  unfolding parse_message
  parsed m w w' (ok (some payload, good), w₁) e p =
      let (g, l, eq) = parse_message-IsParsed payload good m (ap (λ r. r.0) p) in
      (payload, cc (e, g, ap (λ r. r.1) p), (refl, l, eq))
  parsed m w w' (ok (none, good), w₁) e p = absurd (cc (ap (λ r. r.0) p))
  parsed m w w' (err x, w₁) e p = absurd (cc)
  parsed m w w' (stuck, w₁) e p = absurd (cc)

  -- A message that `decode_message` returns with a good CRC has a connection id of 4 bytes, and its
  -- frame, as `encode` writes it, stood in the stream behind at most 8192 bytes in which no magic
  -- starts; the stream goes on behind that frame.
  pub decode_message_sound :
      (m : Decoded) (v w w' : W)
      → IsCrc32 H
      → All IsByte (pending w)
      → decode_message H w ≡ (ok m, w')
      → m.crc_ok ≡ true
      → (length m.conn_id ≡ conn_id_size)
        × ((k : ℕ) × (wire : Bytes) × (k ≤ max_resync_bytes)
            × (encode H (payload_of m) v ≡ (ok wire, v))
            × StartsAt k (pending w) (wire ++ pending w'))
  unfolding decode_message
  decode_message_sound m v w w' c bytes e good =
      let (payload, d, (_, l, eq)) = parsed m w w' (decode H w) refl e in
      let d' : decode H w ≡ (ok (some (payload_of m), true), w') = cc (d, eq, good) in
      (l, (decode_sound H S (payload_of m) v w w' c bytes d').1)
