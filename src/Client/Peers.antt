-- ===== src/Client/Peers.antt =====
-- client/handshake.py on a channel of messages: SYN_ACK behind messages that are no answer.
use serial_testkit.Prelude.{
  ℕ, ◌-◌, ◌≤◌, ◌<◌, ◌≡◌, refl, ap, Bool, true, false, ◌&&◌, none, some, List, [], length, All,
  arith,
}
use serial_testkit.Prelude.Bytes.{Bytes, bytes_eq}
use serial_testkit.Exec.{Exn, ok, handshake_error}
use serial_testkit.Exec.Ends.{Progress-bind, Ends-pure}
use serial_testkit.Exec.Does.{Does, Does-mono}
use serial_testkit.Exec.Outcome.{Comes, Comes-pure, Comes-raise, Comes-after, Comes-run}
use serial_testkit.Host.{Host}
use serial_testkit.Host.Laws.{IsCrc32, IsLine, HasClock}
use serial_testkit.Message.Frames.{frame}
use serial_testkit.Protocol.{syn, syn_ack, is_type, conn_id_size}
use serial_testkit.Encoding.{Decoded, encode_control}
use serial_testkit.Encoding.RoundTrip.{message}
use serial_testkit.Encoding.Soundness.{payload_of}
use serial_testkit.Timed.{again, done, within, retransmit}
use serial_testkit.Timed.Finds.{FoundOr}
use serial_testkit.Client.Handshake.{on_syn_reply, syn_round, client_send_syn_wait_syn_ack}
use serial_testkit.Termination.Sessions.{hearing}
use serial_testkit.Termination.Loops.{retransmit-Ends}
use serial_testkit.Channel.{CarriesThen}
use serial_testkit.Channel.Hears.{encode_control-frame}
use serial_testkit.Channel.Resends.{
  SentSoFar, SentOnce, retransmit-SentOnce, SentOnce-same, SentSoFar-same, SentSoFar-SentOnce,
  SentSoFar-start,
}
use serial_testkit.Channel.Listens.{listens}

-- What ends the client's wait: a SYN_ACK of its connection with a good CRC.
abbrev pub is_answer : Bytes → Decoded → Bool
is_answer conn_id m = is_type m.msg_type syn_ack && bytes_eq m.conn_id conn_id && m.crc_ok

-- Any other message.
abbrev pub IsStray : Bytes → Decoded → Type 0
IsStray conn_id m = is_answer conn_id m ≡ false

stray-ignored :
    (conn_id : Bytes) (last : ℕ) (m : Decoded)
    → IsStray conn_id m
    → on_syn_reply conn_id last (some m) ≡ again last
unfolding on_syn_reply
stray-ignored conn_id last m h = rw h refl

answer-ends :
    (conn_id : Bytes) (last : ℕ) (m : Decoded)
    → is_answer conn_id m ≡ true
    → on_syn_reply conn_id last (some m) ≡ done true
unfolding on_syn_reply
answer-ends conn_id last m h = rw h refl

-- The answer was heard: SYNs were written, one at least, and `rest` is left.
abbrev pub HasAnswer :
    {W : Type 0} → Host W → (W → Bytes) → (W → Bytes) → Bytes → Bytes → Bytes → W → Type 0
HasAnswer H pending written conn_id base rest w =
    (pending w ≡ rest) × SentOnce H written base (message syn conn_id []) w

-- The exception `e`, when the time since `start` is over.
abbrev pub TimeIsOver : {W : Type 0} → (W → ℕ) → ℕ → ℕ → Exn → Exn → W → Type 0
TimeIsOver clock start timeout e x w = (x ≡ e) × (timeout ≤ clock w - start)

module _ {W : Type 0} (H : Host W) {pending written : W → Bytes} (L : IsLine H pending written)
    (crc : IsCrc32 H) {clock : W → ℕ} (C : HasClock H clock) where
  syn_loop-Does :
      (conn_id : Bytes) (timeout interval : ℕ) (ms : List Decoded) (m : Decoded) (rest : Bytes)
      (w : W)
      → interval < clock w
      → All (IsStray conn_id) ms
      → is_answer conn_id m ≡ true
      → CarriesThen H ms m (pending w) rest
      → Does
          (within H timeout
            (syn_round H conn_id (frame H (payload_of (message syn conn_id []))) interval)
            0)
          w
          (FoundOr
            (λ _ w'. HasAnswer H pending written conn_id (written w) rest w')
            (λ w'. timeout ≤ clock w' - clock w))
  unfolding syn_round
  syn_loop-Does conn_id timeout interval ms m rest w due strays answers carried =
      let sent = message syn conn_id [] in
      let wire = frame H (payload_of sent) in
      let base = written w in
      Does-mono
        (listens H L C (retransmit H wire interval) (λ last o. ok (on_syn_reply conn_id last o))
          (λ last.
            Progress-bind (retransmit H wire interval last) _
              (retransmit-Ends H C wire interval last)
              λ last'. hearing H C _ λ o. Ends-pure (on_syn_reply conn_id last' o))
          w (SentSoFar H written base sent) (λ last. SentOnce H written base sent)
          (λ last v later. retransmit-SentOnce H L C base sent interval last v (omega arith))
          (λ last. SentOnce-same H written base sent) (SentSoFar-SentOnce H written base sent)
          (SentSoFar-same H written base sent) (IsStray conn_id)
          (λ last n h. ap ok (stray-ignored conn_id last n h)) m true rest
          (λ last. ap ok (answer-ends conn_id last m answers)) timeout ms 0 w (omega arith) strays
          carried (SentSoFar-start H written base sent w refl))
        (elim [ none ↦ λ w' h. h | some b ↦ λ w' (e, left, later, last, once). (left, once) ])

  pub client_send_syn-Comes :
      (conn_id : Bytes) (timeout interval : ℕ) (ms : List Decoded) (m : Decoded) (rest : Bytes)
      (w : W)
      → length conn_id ≡ conn_id_size
      → interval < clock w
      → All (IsStray conn_id) ms
      → is_answer conn_id m ≡ true
      → CarriesThen H ms m (pending w) rest
      → Comes
          (client_send_syn_wait_syn_ack H conn_id timeout interval)
          w
          (λ _ w'. HasAnswer H pending written conn_id (written w) rest w')
          (TimeIsOver clock (clock w) timeout handshake_error)
  unfolding client_send_syn_wait_syn_ack
  client_send_syn-Comes conn_id timeout interval ms m rest w sized due strays answers carried =
      let wire = frame H (payload_of (message syn conn_id [])) in
      Comes-run (encode_control H syn conn_id) _ w w wire
        (encode_control-frame H L syn conn_id w crc sized)
        (Comes-after (within H timeout (syn_round H conn_id wire interval) 0) _ w
          (syn_loop-Does conn_id timeout interval ms m rest w due strays answers carried)
          (elim [
            | none ↦ λ w' over. Comes-raise handshake_error w' (refl, over)
            | some b ↦ λ w' h. Comes-pure b w' h
          ]))
