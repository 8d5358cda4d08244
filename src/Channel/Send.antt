-- ===== src/Channel/Send.antt =====
-- common/io.py and common/message.py on a channel of messages: what is sent, and what is received.
use serial_testkit.Prelude.{
  ℕ, zero, suc, ◌+◌, ◌≤◌, ◌≡◌, refl, ap, ◌∙◌, Bool, true, false, none, some, [], ◌∷◌, ◌++◌, length,
  length-append, ◌⊎◌, inl, inr, Bool-cases, arith,
}
use serial_testkit.Prelude.Bytes.{Bytes, bytes_eq}
use serial_testkit.Exec.{ok, err, unexpected_message, caught, attempt, is_receive_error}
use serial_testkit.Exec.Does.{Does, Does-pure}
use serial_testkit.Host.{Host}
use serial_testkit.Host.Laws.{IsCalm, IsCrc32, IsLine}
use serial_testkit.Message.{max_message_length, random_bytes, random_payload}
use serial_testkit.Message.Frames.{frame, encode-frame}
use serial_testkit.Protocol.{MsgType, data_msg, fin, msg_code, Connection, conn_id_size}
use serial_testkit.Encoding.{Decoded, encode_data}
use serial_testkit.SerialIo.{check_reply, send_data, recv_data}
use serial_testkit.Errors.Framing.{random_payload-size}
use serial_testkit.Session.Rules.{effect, counted, ending, missing, closed, unexpected}
use serial_testkit.Channel.{Stands}
use serial_testkit.Channel.Receive.{decode_message-Stands, decode_message-silent}

-- What is heard in a round, for the four effects of a message.
abbrev pub HeardAs : Bytes → ℕ → Decoded → Type 0
HeardAs conn_id i m =
    (effect conn_id i m ≡ counted)
      × (caught is_receive_error (check_reply conn_id m)
          ≡ ok (some (record { payload = m.content; crc_ok = m.crc_ok; msg_type = data_msg })))
    ⊎ (effect conn_id i m ≡ ending (missing (i + 1)))
      × (caught is_receive_error (check_reply conn_id m) ≡ ok none)
    ⊎ (effect conn_id i m ≡ ending closed)
      × (caught is_receive_error (check_reply conn_id m)
          ≡ ok (some (record { payload = []; crc_ok = false; msg_type = fin })))
    ⊎ (effect conn_id i m ≡ ending unexpected)
      × (caught is_receive_error (check_reply conn_id m) ≡ err unexpected_message)

heard_here :
    (conn_id : Bytes) (i : ℕ) (t : MsgType) (id content : Bytes) (good : Bool)
    → bytes_eq id conn_id ≡ true
    → HeardAs conn_id i (record { msg_type = t; conn_id = id; content = content; crc_ok = good })
unfolding check_reply
heard_here conn_id i data_msg id content good e = rw e (inl (refl, refl))
heard_here conn_id i fin id content good e = rw e (inr (inr (inl (refl, refl))))
heard_here conn_id i _ id content good e = rw e (inr (inr (inr (refl, refl))))

pub heard_as : (conn_id : Bytes) (i : ℕ) (m : Decoded) → HeardAs conn_id i m
unfolding check_reply
heard_as conn_id i m = elim (Bool-cases (bytes_eq m.conn_id conn_id)) [
  | inr other ↦ rw other (inr (inl (refl, refl)))
  | inl same ↦ heard_here conn_id i m.msg_type m.conn_id m.content m.crc_ok same
]

module _ {W : Type 0} (H : Host W) {pending written : W → Bytes} (L : IsLine H pending written)
    (c : IsCalm H) (crc : IsCrc32 H) where
  -- Neither side of the line changed.
  abbrev pub SamePort : W → W → Type 0
  SamePort w w' = (pending w' ≡ pending w) × (written w' ≡ written w)

  random_bytes-Does : (n : ℕ) (w : W) → Does (random_bytes H n) w λ _ w'. SamePort w w'
  unfolding random_bytes
  random_bytes-Does zero w = Does-pure [] w (refl, refl)
  random_bytes-Does (suc n) w =
      let w₁ = (H.getrandbits 8 w).1 in
      let d = random_bytes-Does n w₁ in
      record {
        value = (H.getrandbits 8 w).0 ∷ d.value;
        next = d.next;
        runs = rw d.runs;
        holds = (d.holds.0 ∙ L.pending-getrandbits 8 w, d.holds.1 ∙ L.written-getrandbits 8 w);
      }

  pub random_payload-Does :
      (w : W) → Does (random_payload H) w λ bs w'. (length bs ≤ 256) × SamePort w w'
  unfolding random_payload
  random_payload-Does w = record {
    value = d.value;
    next = d.next;
    runs = runs;
    holds = (
      (random_payload-size H c crc).yields w d.value (ap (λ p. p.0) runs),
      (d.holds.0 ∙ L.pending-randint 16 256 w, d.holds.1 ∙ L.written-randint 16 256 w),
    );
  }
    where
      d :
          Does
            (random_bytes H (H.randint 16 256 w).0)
            (H.randint 16 256 w).1
            λ _ w'. SamePort (H.randint 16 256 w).1 w'
      d = random_bytes-Does (H.randint 16 256 w).0 (H.randint 16 256 w).1

      runs : random_payload H w ≡ (ok d.value, d.next)
      runs = d.runs

  -- What is sent on a connection is the frame of its DATA message.
  pub send_data-Does :
      (conn : Connection) (payload : Bytes) (w : W)
      → length conn.connection_id ≡ conn_id_size
      → length payload ≤ max_message_length
      → Does (send_data H conn payload) w λ _ w'.
        (pending w' ≡ pending w)
        × (written w' ≡ written w ++ frame H (msg_code data_msg ∷ (conn.connection_id ++ payload)))
  unfolding send_data encode_data
  send_data-Does conn payload w h fits =
      let p = msg_code data_msg ∷ (conn.connection_id ++ payload) in
      let d = L.writes (frame H p) w in
      record {
        value = d.value;
        next = d.next;
        runs =
            rw (encode-frame H p w crc (omega (arith, length-append conn.connection_id payload)))
              d.runs;
        holds = d.holds;
      }

  -- Behind `try: recv_data`, from a line on which a message stands.
  pub received-Stands :
      (conn : Connection) (m : Decoded) (rest : Bytes) (w : W)
      → Stands H m (pending w) rest
      → (w' : W) × (attempt is_receive_error (recv_data H conn) w
          ≡ (caught is_receive_error (check_reply conn.connection_id m), w'))
        × (pending w' ≡ rest)
        × (written w' ≡ written w)
  unfolding recv_data
  received-Stands conn m rest w stands =
      let d = decode_message-Stands H L m rest w stands in
      let (e, left, kept) = d.holds in (d.next, rw (d.runs, e), left, kept)

  pub received-silent :
      (conn : Connection) (w : W)
      → pending w ≡ []
      → (w' : W) × (attempt is_receive_error (recv_data H conn) w ≡ (ok none, w'))
        × (pending w' ≡ [])
        × (written w' ≡ written w)
  unfolding recv_data
  received-silent conn w e =
      let (w', d, left, kept) = decode_message-silent H L w e in (w', rw d, left, kept)
