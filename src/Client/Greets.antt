-- ===== src/Client/Greets.antt =====
-- client/handshake.py on a channel of messages: the whole handshake of the client.
use serial_testkit.Prelude.{
  ℕ, ◌≤◌, ◌<◌, ◌^◌, ◌≡◌, refl, ap, ◌∙◌, true, some, List, [], ◌∷◌, ◌++◌, append_assoc, length, drop,
  All, arith,
}
use serial_testkit.Prelude.Bytes.{Bytes}
use serial_testkit.Exec.{Exec, handshake_error, pure, ◌>>◌}
use serial_testkit.Exec.Does.{Does, Does-here}
use serial_testkit.Exec.Outcome.{Comes, Comes-pure, Comes-mono, Comes-after, Comes-bind, Comes-run}
use serial_testkit.Host.{Host}
use serial_testkit.Host.Laws.{IsCalm, IsCrc32, IsLine, HasArrivals, HasClock}
use serial_testkit.Message.Frames.{frame}
use serial_testkit.Protocol.{syn, client, conn_id_size, SessionParams, Connection}
use serial_testkit.Encoding.{Decoded, generate_connection_id}
use serial_testkit.Encoding.RoundTrip.{message}
use serial_testkit.Encoding.Soundness.{payload_of}
use serial_testkit.SerialIo.{drain_input}
use serial_testkit.Client.Handshake.{
  client_send_syn_wait_syn_ack, client_send_ack_with_params, client_handshake,
}
use serial_testkit.Client.Peers.{is_answer, IsStray, HasAnswer, TimeIsOver, client_send_syn-Comes}
use serial_testkit.Termination.Framing.{drain_input-Ends}
use serial_testkit.Channel.{CarriesThen, frames}
use serial_testkit.Channel.Hears.{repeat, ack_message, encode_ack-frame, drain_input-Does}
use serial_testkit.Channel.Resends.{frames-snoc}

-- What the client writes: SYN, `k` times, and then ACK with the parameters.
abbrev pub greeting : Bytes → SessionParams → ℕ → List Decoded
greeting conn_id params k = repeat k (message syn conn_id []) ++ ack_message conn_id params ∷ []

abbrev pub client_connection : Bytes → SessionParams → Connection
client_connection conn_id params = record {
  connection_id = conn_id;
  role = client;
  session_params = some params;
}

-- The id that the client's handshake draws, behind `drain_input`.
abbrev pub drawn_id : {W : Type 0} → Host W → W → Bytes
drawn_id H w = (H.urandom conn_id_size (drain_input H w).1).0

-- The handshake is done: the connection has the id and the parameters, the client has written its
-- greeting, and `rest` is left on the line.
abbrev pub Greeted :
    {W : Type 0}
    → Host W
    → (W → Bytes)
    → (W → Bytes)
    → Bytes
    → SessionParams
    → Bytes
    → Bytes
    → Connection
    → W
    → Type 0
Greeted H pending written conn_id params base rest conn w =
    (conn ≡ client_connection conn_id params)
    × (pending w ≡ rest)
    × (k : ℕ) × (1 ≤ k)
    × (written w ≡ base ++ frames H (greeting conn_id params k))

module _ {W : Type 0} (H : Host W) {pending written : W → Bytes} (L : IsLine H pending written)
    (c : IsCalm H) (crc : IsCrc32 H) {clock : W → ℕ} (C : HasClock H clock) where
  client_send_ack-Does :
      (conn_id : Bytes) (params : SessionParams) (base rest : Bytes) (w : W)
      → length conn_id ≡ conn_id_size
      → params.msg_count < 2 ^ 32
      → HasAnswer H pending written conn_id base rest w
      → Does (client_send_ack_with_params H conn_id params) w λ _ w'.
        Greeted H pending written conn_id params base rest (client_connection conn_id params) w'
  unfolding client_send_ack_with_params
  client_send_ack-Does conn_id params base rest w sized fits (left, (k, e, h)) =
      let wire = frame H (payload_of (ack_message conn_id params)) in
      let d = L.writes wire w in
      let (kept, more) = d.holds in
      record {
        value = d.value;
        next = d.next;
        runs = rw (encode_ack-frame H L conn_id params w crc sized fits) d.runs;
        holds = (
          refl,
          kept ∙ left,
          k,
          h,
          more
              ∙ ap (λ s. s ++ wire) e
              ∙ append_assoc base (frames H (repeat k (message syn conn_id []))) wire
              ∙ ap (λ s. base ++ s) (frames-snoc H (repeat k (message syn conn_id [])) _),
        );
      }

  -- The handshake behind the drawing of the id.
  abbrev greets : ℕ → ℕ → SessionParams → Bytes → Exec W Connection
  greets timeout interval params conn_id =
      client_send_syn_wait_syn_ack H conn_id timeout interval
      >> (client_send_ack_with_params H conn_id params >> pure (client_connection conn_id params))

  -- For a message count below 2 ** 32 and a clock past `interval`, on a line that carries, behind
  -- what `drain_input` throws away, messages that are no answer and then a SYN_ACK of the id drawn,
  -- with a good CRC: the client's handshake returns the connection with this id and its parameters,
  -- has written SYN once or more and then one ACK with these, and leaves what follows on the line;
  -- or it raises HandshakeError, and then its time is over.
  pub client_handshake-Greeted :
      (A : HasArrivals H pending written) (timeout interval : ℕ) (params : SessionParams)
      (ms : List Decoded) (m : Decoded) (rest : Bytes) (w : W)
      → params.msg_count < 2 ^ 32
      → interval < clock w
      → All (IsStray (drawn_id H w)) ms
      → is_answer (drawn_id H w) m ≡ true
      → CarriesThen H ms m (drop (A.waiting w) (pending w)) rest
      → Comes
          (client_handshake H timeout interval (some params))
          w
          (Greeted H pending written (drawn_id H w) params (written w) rest)
          (TimeIsOver clock (clock w) timeout handshake_error)
  unfolding client_handshake generate_connection_id
  client_handshake-Greeted A timeout interval params ms m rest w fits due strays answers carried =
      let id = drawn_id H w in
      let (n, drained, (left, kept)) = Does-here (drain_input-Does H L A w) in
      let w₁ = (drain_input H w).1 in
      let w₂ = (H.urandom conn_id_size w₁).1 in
      let later : clock w ≤ clock w₂ =
        omega (arith, (drain_input-Ends H C).later w, C.urandom_later conn_id_size w₁) in
      let same : written w₂ ≡ written w = A.written-urandom conn_id_size w₁ ∙ kept in
      let here : pending w₂ ≡ drop (A.waiting w) (pending w) =
        A.pending-urandom conn_id_size w₁ ∙ left in
      Comes-run (drain_input H) _ w w₁ n drained (
        Comes-run (generate_connection_id H) (greets timeout interval params) w₁ w₂ id refl (
          Comes-bind (client_send_syn_wait_syn_ack H id timeout interval) _ w₂
            (Comes-mono
              (client_send_syn-Comes H L crc C id timeout interval ms m rest w₂
                (c.urandom_size conn_id_size w₁) (omega arith) strays answers (rw here carried))
              (λ b w' h. rw same at h) (λ x w' (e, over). (e, omega arith)))
            λ b w₃ h.
              Comes-after (client_send_ack_with_params H id params) _ w₃
                (client_send_ack-Does id params (written w) rest w₃ (c.urandom_size conn_id_size w₁)
                  fits h)
                λ _ w₄ g. Comes-pure _ w₄ g))
