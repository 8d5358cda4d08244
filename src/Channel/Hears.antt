-- ===== src/Channel/Hears.antt =====
-- common/io.py, common/encoding.py and the handshakes' loops on a channel of messages: what a round
-- hears and resends, and how frames that one host writes stand on another's line.
use serial_testkit.Prelude.{
  ℕ, zero, suc, ◌<◌, ◌≡◌, refl, sym, ap, ◌∙◌, true, some, List, [], ◌∷◌, ◌++◌, append_assoc,
  append-nil, ltb, ltb_false→le, ==-self, length, length-append, ◌^◌, drop, All, inl, inr,
  Bool-cases, arith,
}
use serial_testkit.Prelude.Bytes.{Bytes, to_bytes, from_bytes-to_bytes, length-to_bytes}
use serial_testkit.Exec.{ok, attempt, is_decode_error}
use serial_testkit.Exec.Does.{Does, Does-mono, Does-attempt}
use serial_testkit.Host.{Host}
use serial_testkit.Host.Laws.{IsCrc32, IsLine, HasArrivals}
use serial_testkit.Message.{uint32_size, sync_magic_bytes}
use serial_testkit.Message.Frames.{frame, encode-frame, uint32_to_bytes-eq}
use serial_testkit.Protocol.{MsgType, ack, SessionParams, msg_code, conn_id_size}
use serial_testkit.Encoding.{Decoded, encode_control, encode_ack_with_params, decode_message}
use serial_testkit.Encoding.RoundTrip.{message}
use serial_testkit.Encoding.Soundness.{payload_of, HasSize}
use serial_testkit.SerialIo.{drain_input}
use serial_testkit.Channel.{Stands, Carries, frames}
use serial_testkit.Channel.Receive.{decode_message-Stands}

-- A message that was written as it is: with a good CRC, and of a size that fits.
abbrev pub IsSound : Decoded → Type 0
IsSound m = (m.crc_ok ≡ true) × HasSize m

-- The same message again and again.
abbrev pub repeat : ℕ → Decoded → List Decoded
repeat zero m = []
repeat (suc k) m = m ∷ repeat k m

-- The ACK of a connection, with its parameters.
abbrev pub ack_message : Bytes → SessionParams → Decoded
ack_message conn_id params = message ack conn_id (to_bytes 4 params.msg_count)

module _ {V W : Type 0} (G : Host V) (H : Host W) (crc : IsCrc32 G)
    (same_crc : (bs : Bytes) → G.crc32 bs ≡ H.crc32 bs) where
  pub frame-Stands :
      (m : Decoded) (rest : Bytes) → IsSound m → Stands H m (frame G (payload_of m) ++ rest) rest
  frame-Stands m rest (good, sized) =
      let P = payload_of m in
      let field = to_bytes uint32_size (G.crc32 P) in
      (
        0,
        field,
        omega arith,
        length-to_bytes 4 _,
        rw (good, from_bytes-to_bytes 4 (G.crc32 P) (crc.crc_range P), same_crc P)
            (sym (==-self (H.crc32 P))),
        sized,
        ap (λ s. sync_magic_bytes ++ s)
            (append_assoc (to_bytes uint32_size (length P)) (P ++ field) rest
              ∙ ap (λ s. to_bytes uint32_size (length P) ++ s) (append_assoc P field rest)),
      )

  -- What one host writes for messages is read by another as these messages.
  pub sound-Carries :
      (ms : List Decoded) (rest : Bytes) → All IsSound ms → Carries H ms (frames G ms ++ rest) rest
  sound-Carries [] rest h = refl
  sound-Carries (m ∷ ms) rest (h, hs) = (
    frames G ms ++ rest,
    rw (append_assoc (frame G (payload_of m)) (frames G ms) rest)
        (frame-Stands m (frames G ms ++ rest) h),
    sound-Carries ms rest hs,
  )

module _ {W : Type 0} (H : Host W) {pending written : W → Bytes}
    (L : IsLine H pending written) where
  -- A round hears the message that stands first.
  pub hears-Does :
      (m : Decoded) (rest : Bytes) (w : W)
      → Stands H m (pending w) rest
      → Does
          (attempt is_decode_error (decode_message H))
          w
          λ o w'. (o ≡ some m) × (pending w' ≡ rest) × (written w' ≡ written w)
  hears-Does m rest w h =
      Does-mono
        (Does-attempt is_decode_error (decode_message H) w (decode_message-Stands H L m rest w h))
        λ o w' (a, e, (k, l, r)). (e ∙ ap some k, l, r)

  -- A control message is encoded as its frame.
  pub encode_control-frame :
      (t : MsgType) (conn_id : Bytes) (w : W)
      → IsCrc32 H
      → length conn_id ≡ conn_id_size
      → encode_control H t conn_id w ≡ (ok (frame H (payload_of (message t conn_id []))), w)
  unfolding encode_control
  encode_control-frame t conn_id w crc sized =
      encode-frame H (msg_code t ∷ conn_id) w crc (omega arith)
      ∙ ap (λ s. (ok (frame H (msg_code t ∷ s)), w)) (sym (append-nil conn_id))

  -- An ACK is encoded as its frame, if the message count fits its field.
  pub encode_ack-frame :
      (conn_id : Bytes) (params : SessionParams) (w : W)
      → IsCrc32 H
      → length conn_id ≡ conn_id_size
      → params.msg_count < 2 ^ 32
      → encode_ack_with_params H conn_id params w
        ≡ (ok (frame H (payload_of (ack_message conn_id params))), w)
  unfolding encode_ack_with_params
  encode_ack-frame conn_id params w crc sized fits =
      let count = to_bytes 4 params.msg_count in
      rw (uint32_to_bytes-eq params.msg_count fits) (
        encode-frame H (msg_code ack ∷ (conn_id ++ count)) w crc
          (omega (arith, length-append conn_id count, length-to_bytes 4 params.msg_count)))

  -- `drain_input` throws away what has arrived until now.
  pub drain_input-Does :
      (A : HasArrivals H pending written) (w : W)
      → Does
          (drain_input H)
          w
          λ n w'. (pending w' ≡ drop (A.waiting w) (pending w)) × (written w' ≡ written w)
  unfolding drain_input
  drain_input-Does A w =
      let d = A.counted_here w in
      let (e, left, kept) = d.holds in
      elim (Bool-cases (ltb 0 d.value)) [
        | inl some_wait ↦ record {
          value = d.value;
          next = L.stream.after d.value d.next;
          runs = rw (d.runs, some_wait, L.stream.reads d.value d.next) refl;
          holds = (
            rw (L.stream.pending-after d.value d.next, left, e) refl,
            L.written-after d.value d.next ∙ kept,
          );
        }
        | inr none_wait ↦
            let none_left : 0 ≡ A.waiting w = omega (arith, e, ltb_false→le _ _ none_wait) in
            record {
              value = d.value;
              next = d.next;
              runs = rw (d.runs, none_wait) refl;
              holds = (left ∙ ap (λ n. drop n (pending w)) none_left, kept);
            }
      ]
