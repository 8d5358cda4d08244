-- ===== src/Session/Refines/ServerRounds.antt =====
-- session/exchange.py: the rounds of the server, one after the other, on a channel of messages.
use serial_testkit.Prelude.{
  ℕ, zero, suc, ◌+◌, ◌-◌, ◌≤◌, ◌≡◌, ◌⊎◌, inl, inr, refl, sym, ap, ◌∙◌, false, Option, none, some,
  List, [], ◌∷◌, ◌++◌, append-nil, append_assoc, length, arith,
}
use serial_testkit.Prelude.Bytes.{Bytes}
use serial_testkit.Exec.{
  Result, ok, err, unexpected_message, caught, proceed, is_receive_error, attempt,
}
use serial_testkit.Exec.Does.{Does}
use serial_testkit.Host.{Host}
use serial_testkit.Host.Laws.{IsCalm, IsCrc32, IsLine, HasClock}
use serial_testkit.Message.Frames.{frame}
use serial_testkit.Protocol.{data_msg, fin, Connection, conn_id_size}
use serial_testkit.Encoding.{Decoded}
use serial_testkit.Encoding.Soundness.{payload_of}
use serial_testkit.SerialIo.{Reply, check_reply, recv_data}
use serial_testkit.Timed.{Round, again}
use serial_testkit.Session.Outcome.{SessionStats, SessionResult}
use serial_testkit.Session.Stats.{stop_clock}
use serial_testkit.Session.Rules.{
  Tally, tally_of, tally, Ending, complete, missing, closed, unexpected, rounds,
}
use serial_testkit.Session.ServerExchange.{
  handle_server_client_fin, on_server_reply, server_round, server_rounds,
}
use serial_testkit.Session.Echoes.{Echoes}
use serial_testkit.Session.Refines.Client.{fewer}
use serial_testkit.Channel.{Carries, frames}
use serial_testkit.Channel.Send.{heard_as, received-Stands, received-silent}
use serial_testkit.Session.Refines.Server.{
  Answered, ServerMeets, server_shutdown-returns, server_data-Does,
}

module _ {W : Type 0} (H : Host W) {pending written : W → Bytes} (L : IsLine H pending written)
    (c : IsCalm H) (crc : IsCrc32 H) {clock : W → ℕ} (C : HasClock H clock) (conn : Connection)
    (sized : length conn.connection_id ≡ conn_id_size) where
  abbrev Meets :
      Bytes
      → List Decoded
      → ℕ
      → W
      → Ending × Tally
      → Result (Round SessionStats SessionResult) × W
      → Type 0
  Meets rest ms before w = ServerMeets H pending written conn.connection_id rest ms before w

  abbrev Heard : ℕ → ℕ → SessionStats → W → Result (Option Reply) → W → Type 0
  Heard start i s w got w₁ =
      (server_round H conn start i s w ≡ proceed got (on_server_reply H conn start i s) w₁)
      × (written w₁ ≡ written w)

  hears :
      (start i : ℕ) (s : SessionStats) (w w₁ : W) (got : Result (Option Reply))
      → attempt is_receive_error (recv_data H conn) w ≡ (got, w₁)
      → written w₁ ≡ written w
      → Heard start i s w got w₁
  unfolding server_round
  hears start i s w w₁ got e kept = (
    ap (λ (q : Result (Option Reply) × W). proceed q.0 (on_server_reply H conn start i s) q.1) e,
    kept,
  )

  pub unanswered :
      (ms : List Decoded) (before : ℕ) (w w' : W)
      → written w' ≡ written w
      → Answered H written conn.connection_id ms before before w w'
  unanswered ms before w w' e = ([], tt, omega arith, e ∙ sym (append-nil (written w)))

  missed :
      (start i : ℕ) (s : SessionStats) (w w₁ : W) (left : ℕ) (rest : Bytes) (ms : List Decoded)
      → Heard start i s w (ok none) w₁
      → Meets rest ms s.received w
          (missing (i + 1), tally_of s)
          (server_rounds H conn start (suc left) i s w)
  unfolding server_rounds on_server_reply stop_clock
  missed start i s w w₁ left rest ms (e, kept) = (
    record s { elapsed = (H.monotonic w₁).0 - start },
    rw e,
    refl,
    rw e (unanswered ms s.received w (H.monotonic w₁).1 (L.written-monotonic w₁ ∙ kept)),
  )

  closing :
      (start i : ℕ) (s : SessionStats) (w w₁ : W) (left : ℕ) (rest : Bytes) (ms : List Decoded)
      → Heard start i s w (ok (some (record { payload = []; crc_ok = false; msg_type = fin }))) w₁
      → Meets rest ms s.received w
          (closed, tally_of s)
          (server_rounds H conn start (suc left) i s w)
  unfolding server_rounds on_server_reply handle_server_client_fin stop_clock
  closing start i s w w₁ left rest ms (e, kept) =
      let (n, back) = server_shutdown-returns H L c crc C conn sized (H.monotonic w₁).1 in
      (record s { elapsed = (H.monotonic w₁).0 - start }, rw (e, back), refl)

  escaping :
      (start i : ℕ) (s : SessionStats) (w w₁ : W) (left : ℕ) (rest : Bytes) (ms : List Decoded)
      → Heard start i s w (err unexpected_message) w₁
      → Meets rest ms s.received w
          (unexpected, tally_of s)
          (server_rounds H conn start (suc left) i s w)
  unfolding server_rounds
  escaping start i s w w₁ left rest ms (e, kept) = (rw e, rw e (unanswered ms s.received w w₁ kept))

  Answered-cons :
      (m e : Decoded) (ms : List Decoded) (before behind : ℕ) (w w₂ w' : W)
      → Echoes conn.connection_id m e
      → written w₂ ≡ written w ++ frame H (payload_of e)
      → Answered H written conn.connection_id ms (before + 1) behind w₂ w'
      → Answered H written conn.connection_id (m ∷ ms) before behind w w'
  Answered-cons m e ms before behind w w₂ w' echoed wrote (es, all, count, total) = (
    e ∷ es,
    (echoed, all),
    omega arith,
    rw (total, wrote) (append_assoc (written w) (frame H (payload_of e)) (frames H es)),
  )

  Meets-cons :
      (m e : Decoded) (ms : List Decoded) (before : ℕ) (w w₂ : W) (rest : Bytes)
      (o : Ending × Tally) (q : Result (Round SessionStats SessionResult) × W)
      → Echoes conn.connection_id m e
      → written w₂ ≡ written w ++ frame H (payload_of e)
      → Meets rest ms (before + 1) w₂ o q
      → Meets rest (m ∷ ms) before w o q
  Meets-cons m e ms before w w₂ rest (complete left, t) (r, w') echoed wrote (s, is_ok, k, h, a) =
      (s, is_ok, k, h, Answered-cons m e ms before t.received w w₂ w' echoed wrote a)
  Meets-cons m e ms before w w₂ rest (missing i, t) (r, w') echoed wrote (s, is_ok, k, a) =
      (s, is_ok, k, Answered-cons m e ms before t.received w w₂ w' echoed wrote a)
  Meets-cons m e ms before w w₂ rest (closed, t) (r, w') echoed wrote h = h
  Meets-cons m e ms before w w₂ rest (unexpected, t) (r, w') echoed wrote (is_err, a) =
      (is_err, Answered-cons m e ms before t.received w w₂ w' echoed wrote a)

  -- A round with a DATA message.
  answered :
      (start i : ℕ) (s : SessionStats) (m : Decoded) (w w₁ : W)
      → length m.content ≤ 4091
      → Heard start i s w
          (ok (some (record { payload = m.content; crc_ok = m.crc_ok; msg_type = data_msg })))
          w₁
      → Does (server_round H conn start i s) w λ r w₂.
        (s₂ : SessionStats) × (e : Decoded) × (r ≡ again s₂)
        × Echoes conn.connection_id m e
        × (tally_of s₂ ≡ tally (tally_of s) m)
        × (pending w₂ ≡ pending w₁)
        × (written w₂ ≡ written w ++ frame H (payload_of e))
  unfolding on_server_reply
  answered start i s m w w₁ small (runs, kept) =
      let d = server_data-Does H L c crc C conn sized s m w₁ small in
      let (e, echoed, t, left, wrote) = d.holds in
      record {
        value = again d.value;
        next = d.next;
        runs = runs ∙ rw d.runs;
        holds = (
          d.value,
          e,
          refl,
          echoed,
          t,
          left,
          wrote ∙ ap (λ bs. bs ++ frame H (payload_of e)) kept,
        );
      }

  -- On a line that carries the messages `ms`, and then either nothing or anything if there is a
  -- message for each round, the rounds of `server_exchange` end as the rules of the channel say,
  -- with the counters that they say, and what they have written, except behind a FIN, is one DATA
  -- message of the connection for each message that was counted, in their order, with its data, or
  -- at most 256 random bytes for no data, and with a good CRC.
  pub server_rounds-Meets :
      (ms : List Decoded) (left i start : ℕ) (s : SessionStats) (rest : Bytes) (w : W)
      → Carries H ms (pending w) rest
      → (rest ≡ []) ⊎ (left ≤ length ms)
      → Meets rest ms s.received w
          (rounds conn.connection_id left i (tally_of s) ms)
          (server_rounds H conn start left i s w)
  unfolding server_rounds rounds
  server_rounds-Meets ms zero i start s rest w h k =
      (s, refl, refl, h, unanswered ms s.received w w refl)
  server_rounds-Meets [] (suc left) i start s rest w h (inr few) = absurd (omega arith)
  server_rounds-Meets [] (suc left) i start s rest w h (inl silent) =
      let (w₁, e, _, kept) = received-silent H L c crc conn w (h ∙ silent) in
      missed start i s w w₁ left rest [] (hears start i s w w₁ (ok none) e kept)
  server_rounds-Meets (m ∷ ms) (suc left) i start s rest w (next, stands, h) k =
      let (w₁, e, after_m, kept) = received-Stands H L c crc conn m next w stands in
      let (_, _, _, _, _, (_, small), _) = stands in
      let heard : (got : Result (Option Reply))
          → caught is_receive_error (check_reply conn.connection_id m) ≡ got
          → Heard start i s w got w₁ =
        λ got g. hears start i s w w₁ got (rw g at e) kept in
      elim (heard_as conn.connection_id i m) [
        | inl (f, g) ↦
            let d = answered start i s m w w₁ small (heard _ g) in
            let (s₂, e₂, again_eq, echoed, t, left_m, wrote) = d.holds in
            rw (f, d.runs, again_eq, ← t)
              (Meets-cons m e₂ ms s.received w d.next rest _ _ echoed wrote (
                rw (← ap (λ (u : Tally). u.received) t) (
                  server_rounds-Meets ms left (i + 1) start s₂ rest d.next (rw (left_m ∙ after_m) h)
                    (fewer left (length ms) k))))
        | inr (inl (f, g)) ↦ rw f (missed start i s w w₁ left rest (m ∷ ms) (heard _ g))
        | inr (inr (inl (f, g))) ↦ rw f (closing start i s w w₁ left rest (m ∷ ms) (heard _ g))
        | inr (inr (inr (f, g))) ↦ rw f (escaping start i s w w₁ left rest (m ∷ ms) (heard _ g))
      ]
