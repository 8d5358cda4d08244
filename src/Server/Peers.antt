-- ===== src/Server/Peers.antt =====
-- server/handshake.py on a channel of messages: its two loops.
use serial_testkit.Prelude.{
  ℕ, ◌-◌, ◌≤◌, ◌<◌, ◌≡◌, refl, ap, ◌∙◌, Bool, true, false, ◌&&◌, none, some, List, [], ◌∷◌, ◌++◌,
  length, All, ◌⊎◌, inl, inr, Bool-cases, arith,
}
use serial_testkit.Prelude.Bytes.{Bytes, bytes_eq}
use serial_testkit.Exec.{ok, err, encoding_error, peering_error, pure}
use serial_testkit.Exec.Ends.{Progress-bind, Ends-pure, Ends-lift}
use serial_testkit.Exec.Does.{Does, Does-pure, Does-mono}
use serial_testkit.Exec.Outcome.{Comes, Comes-pure, Comes-raise, Comes-after, Comes-run}
use serial_testkit.Host.{Host}
use serial_testkit.Host.Laws.{IsCrc32, IsLine, HasClock}
use serial_testkit.Message.Frames.{frame}
use serial_testkit.Protocol.{syn, syn_ack, ack, msg_code, is_type, conn_id_size, SessionParams}
use serial_testkit.Encoding.{Decoded, encode_control, decode_ack_with_params}
use serial_testkit.Encoding.RoundTrip.{message}
use serial_testkit.Encoding.Soundness.{payload_of}
use serial_testkit.Timed.{again, done, within, retransmit}
use serial_testkit.Timed.Finds.{FoundOr}
use serial_testkit.Server.Handshake.{
  on_syn, on_ack, wait_syn_round, server_wait_for_syn, wait_ack_round, server_send_syn_ack_wait_ack,
}
use serial_testkit.Client.Peers.{TimeIsOver}
use serial_testkit.Termination.Loops.{retransmit-Ends}
use serial_testkit.Termination.Sessions.{hearing, on_ack-ne-stuck}
use serial_testkit.Channel.{CarriesThen}
use serial_testkit.Channel.Hears.{encode_control-frame}
use serial_testkit.Channel.Resends.{
  SentSoFar, SentOnce, retransmit-SentOnce, SentOnce-same, SentSoFar-same, SentSoFar-SentOnce,
  SentSoFar-start,
}
use serial_testkit.Channel.Listens.{listens}

-- A SYN with a good CRC, of any connection.
abbrev pub is_call : Decoded → Bool
is_call m = is_type m.msg_type syn && m.crc_ok

abbrev pub IsNoCall : Decoded → Type 0
IsNoCall m = is_call m ≡ false

-- An ACK of the connection with a good CRC.
abbrev pub is_consent : Bytes → Decoded → Bool
is_consent conn_id m = is_type m.msg_type ack && bytes_eq m.conn_id conn_id && m.crc_ok

-- The payload that the server rebuilds from a message.
abbrev pub rebuilt : Decoded → Bytes
rebuilt m = (msg_code ack ∷ m.conn_id) ++ m.content

-- No such ACK, or one without parameters.
abbrev pub IsNoConsent : Bytes → Decoded → Type 0
IsNoConsent conn_id m =
    (is_consent conn_id m ≡ false) ⊎ (decode_ack_with_params (rebuilt m) ≡ err encoding_error)

-- Such an ACK, which brings the parameters.
abbrev pub IsConsent : Bytes → SessionParams → Decoded → Type 0
IsConsent conn_id params m =
    (is_consent conn_id m ≡ true)
    × (id : Bytes) × (decode_ack_with_params (rebuilt m) ≡ ok (id, params))

no_call-ignored : (m : Decoded) → IsNoCall m → on_syn (some m) ≡ again tt
unfolding on_syn
no_call-ignored m h = rw h refl

call-ends : (m : Decoded) → is_call m ≡ true → on_syn (some m) ≡ done m.conn_id
unfolding on_syn
call-ends m h = rw h refl

no_consent-ignored :
    (conn_id : Bytes) (last : ℕ) (m : Decoded)
    → IsNoConsent conn_id m
    → on_ack conn_id last (some m) ≡ ok (again last)
unfolding on_ack
no_consent-ignored conn_id last m (inl h) = rw h refl
no_consent-ignored conn_id last m (inr h) = elim (Bool-cases (is_consent conn_id m)) [
  | inl yes_ack ↦ rw (yes_ack, h) refl
  | inr no_ack ↦ rw no_ack refl
]

consent-ends :
    (conn_id : Bytes) (params : SessionParams) (last : ℕ) (m : Decoded)
    → IsConsent conn_id params m
    → on_ack conn_id last (some m) ≡ ok (done params)
unfolding on_ack
consent-ends conn_id params last m (h, id, e) = rw (h, e) refl

module _ {W : Type 0} (H : Host W) {pending written : W → Bytes} (L : IsLine H pending written)
    {clock : W → ℕ} (C : HasClock H clock) where
  -- On a line that carries messages that are no SYN and then a SYN, the server takes its id.
  pub server_wait_for_syn-Comes :
      (timeout : ℕ) (ms : List Decoded) (m : Decoded) (rest : Bytes) (w : W)
      → All IsNoCall ms
      → is_call m ≡ true
      → CarriesThen H ms m (pending w) rest
      → Comes
          (server_wait_for_syn H timeout)
          w
          (λ id w'.
            (id ≡ m.conn_id)
            × (pending w' ≡ rest)
            × (clock w ≤ clock w')
            × (written w' ≡ written w))
          (TimeIsOver clock (clock w) timeout peering_error)
  unfolding server_wait_for_syn wait_syn_round
  server_wait_for_syn-Comes timeout ms m rest w hs h carried =
      Comes-after (within H timeout (wait_syn_round H) tt) _ w
        (listens H L C pure (λ s o. ok (on_syn o)) (λ s. hearing H C _ λ o. Ends-pure (on_syn o)) w
          (λ s v. written v ≡ written w) (λ s v. written v ≡ written w)
          (λ s v later e. Does-pure s v (refl, e)) (λ s v v' e k. k ∙ e) (λ s v e. e)
          (λ s v v' e k. k ∙ e) IsNoCall (λ s n k. ap ok (no_call-ignored n k)) m m.conn_id rest
          (λ s. ap ok (call-ends m h)) timeout ms tt w (omega arith) hs carried refl)
        (elim [
          | none ↦ λ w' over. Comes-raise peering_error w' (refl, over)
          | some id ↦ λ w' (e, left, later, s, same). Comes-pure id w' (e, left, later, same)
        ])

  module _ (crc : IsCrc32 H) (conn_id : Bytes) (sized : length conn_id ≡ conn_id_size) where
    ack_loop-Does :
        (params : SessionParams) (timeout interval : ℕ) (ms : List Decoded) (m : Decoded)
        (base rest : Bytes) (w : W)
        → interval < clock w
        → All (IsNoConsent conn_id) ms
        → IsConsent conn_id params m
        → CarriesThen H ms m (pending w) rest
        → written w ≡ base
        → Does
            (within H timeout
              (wait_ack_round H conn_id
                (frame H (payload_of (message syn_ack conn_id [])))
                interval)
              0)
            w
            (FoundOr
              (λ p w'.
                (p ≡ params)
                × (pending w' ≡ rest)
                × SentOnce H written base (message syn_ack conn_id []) w')
              (λ w'. timeout ≤ clock w' - clock w))
    unfolding wait_ack_round
    ack_loop-Does params timeout interval ms m base rest w due hs h carried start =
        let sent = message syn_ack conn_id [] in
        let wire = frame H (payload_of sent) in
        Does-mono
          (listens H L C (retransmit H wire interval) (λ last o. on_ack conn_id last o)
            (λ last.
              Progress-bind (retransmit H wire interval last) _
                (retransmit-Ends H C wire interval last)
                λ last'. hearing H C _ λ o. Ends-lift _ (on_ack-ne-stuck conn_id last' o))
            w (SentSoFar H written base sent) (λ last. SentOnce H written base sent)
            (λ last v later. retransmit-SentOnce H L C base sent interval last v (omega arith))
            (λ last. SentOnce-same H written base sent) (SentSoFar-SentOnce H written base sent)
            (SentSoFar-same H written base sent) (IsNoConsent conn_id) (no_consent-ignored conn_id)
            m params rest (λ last. consent-ends conn_id params last m h) timeout ms 0 w
            (omega arith) hs carried (SentSoFar-start H written base sent w start))
          (elim [
            | none ↦ λ w' over. over
            | some p ↦ λ w' (e, left, later, last, once). (e, left, once)
          ])

    -- On a line that carries messages that are no ACK of the connection with parameters, and then
    -- one, the server takes its parameters, and has written SYN_ACK once or more.
    pub server_wait_ack-Comes :
        (params : SessionParams) (timeout interval : ℕ) (ms : List Decoded) (m : Decoded)
        (base rest : Bytes) (w : W)
        → interval < clock w
        → All (IsNoConsent conn_id) ms
        → IsConsent conn_id params m
        → CarriesThen H ms m (pending w) rest
        → written w ≡ base
        → Comes
            (server_send_syn_ack_wait_ack H conn_id timeout interval)
            w
            (λ p w'.
              (p ≡ params)
              × (pending w' ≡ rest)
              × SentOnce H written base (message syn_ack conn_id []) w')
            (TimeIsOver clock (clock w) timeout peering_error)
    unfolding server_send_syn_ack_wait_ack
    server_wait_ack-Comes params timeout interval ms m base rest w due hs h carried start =
        let wire = frame H (payload_of (message syn_ack conn_id [])) in
        Comes-run (encode_control H syn_ack conn_id) _ w w wire
          (encode_control-frame H L syn_ack conn_id w crc sized)
          (Comes-after (within H timeout (wait_ack_round H conn_id wire interval) 0) _ w
            (ack_loop-Does params timeout interval ms m base rest w due hs h carried start)
            (elim [
              | none ↦ λ w' over. Comes-raise peering_error w' (refl, over)
              | some p ↦ λ w' k. Comes-pure p w' k
            ]))
