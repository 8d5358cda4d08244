-- ===== src/Session/Refines/Client.antt =====
-- session/exchange.py: the client's rounds on a channel of messages.
use serial_testkit.Prelude.{
  ℕ, zero, suc, ◌+◌, ◌-◌, ◌≤◌, ◌≡◌, ◌⊎◌, inl, inr, refl, ap, ◌∙◌, Bool, true, false, Option, none,
  some, List, [], ◌∷◌, ◌++◌, length, if◌then◌else◌, arith,
}
use serial_testkit.Prelude.Bytes.{Bytes}
use serial_testkit.Exec.{
  Result, ok, err, unexpected_message, caught, proceed, is_receive_error, attempt,
}
use serial_testkit.Exec.Does.{Does}
use serial_testkit.Host.{Host}
use serial_testkit.Host.Laws.{IsCalm, IsCrc32, IsLine}
use serial_testkit.Protocol.{data_msg, fin, Connection, conn_id_size}
use serial_testkit.Encoding.{Decoded}
use serial_testkit.SerialIo.{Reply, check_reply, recv_data}
use serial_testkit.Timed.{Round, again, done}
use serial_testkit.Session.Outcome.{SessionStats, SessionResult, timeout_response, server_sent_fin}
use serial_testkit.Session.Stats.{count_sent, count_received, failed, stop_clock, log_progress}
use serial_testkit.Session.Rules.{
  Tally, tally_of, tally, Ending, complete, missing, closed, unexpected, rounds,
}
use serial_testkit.Session.ClientExchange.{
  handle_client_data_response, handle_client_server_fin, on_client_reply, client_round,
  client_rounds,
}
use serial_testkit.Channel.{Carries}
use serial_testkit.Channel.Send.{
  heard_as, random_payload-Does, send_data-Does, received-Stands, received-silent,
}

-- The client's rounds end as the rules say, with the statistics that they say.
abbrev pub ClientMeets :
    {W : Type 0}
    → Host W
    → (W → Bytes)
    → Bytes
    → Ending × Tally
    → Result (Round SessionStats SessionResult) × W
    → Type 0
ClientMeets H pending rest (complete ms, t) (r, w') =
    (s : SessionStats) × (r ≡ ok (again s)) × (tally_of s ≡ t) × Carries H ms (pending w') rest
ClientMeets H pending rest (missing i, t) (r, w') =
    (s : SessionStats) × (r ≡ ok (done (failed s (timeout_response i) false))) × (tally_of s ≡ t)
ClientMeets H pending rest (closed, t) (r, w') =
    (s : SessionStats) × (r ≡ ok (done (failed s server_sent_fin false))) × (tally_of s ≡ t)
ClientMeets H pending rest (unexpected, t) (r, w') = r ≡ err unexpected_message

pub tally_of-count_sent : (s : SessionStats) (n : Option ℕ) → tally_of (count_sent s n) ≡ tally_of s
unfolding count_sent
tally_of-count_sent s none = refl
tally_of-count_sent s (some zero) = refl
tally_of-count_sent s (some (suc n)) = refl

pub fewer : {A : Type 0} (left n : ℕ) → A ⊎ (suc left ≤ suc n) → A ⊎ (left ≤ n)
fewer left n (inl a) = inl a
fewer left n (inr h) = inr (omega arith)

module _ {W : Type 0} (H : Host W) {pending written : W → Bytes} (L : IsLine H pending written)
    (c : IsCalm H) (crc : IsCrc32 H) (conn : Connection)
    (sized : length conn.connection_id ≡ conn_id_size) where
  log_progress-quiet : (w : W) → log_progress H w ≡ (ok tt, w)
  unfolding log_progress
  log_progress-quiet w = ground (arith, c.log_set)

  -- A round up to its answer: the message was sent, and `got` is what came.
  abbrev Asked : ℕ → ℕ → SessionStats → W → Result (Option Reply) → W → Type 0
  Asked start i s w got w₁ =
      (rtt_start : ℕ) × (s' : SessionStats) × (tally_of s' ≡ tally_of s)
      × (client_round H conn start i s w ≡ proceed got (on_client_reply H start rtt_start i s') w₁)

  asked :
      (start i : ℕ) (s : SessionStats) (w : W)
      → (v : W) × (pending v ≡ pending w)
        × ((got : Result (Option Reply)) (w₁ : W)
            → attempt is_receive_error (recv_data H conn) v ≡ (got, w₁)
            → Asked start i s w got w₁)
  unfolding client_round
  asked start i s w =
      let p = random_payload-Does H L c crc w in
      let (small, (kept, _)) = p.holds in
      let w₂ = (H.monotonic p.next).1 in
      let d = send_data-Does H L c crc conn p.value w₂ sized (omega arith) in
      (
        d.next,
        d.holds.0 ∙ L.pending-monotonic p.next ∙ kept,
        λ got w₁ e. (
          (H.monotonic p.next).0,
          count_sent s d.value,
          tally_of-count_sent s d.value,
          rw (p.runs, d.runs)
              (ap
                (λ (q : Result (Option Reply) × W).
                  proceed q.0
                    (on_client_reply H start (H.monotonic p.next).0 i (count_sent s d.value)) q.1)
                e),
        ),
      )

  data_response-Does :
      (s : SessionStats) (content : Bytes) (good : Bool) (rtt_start : ℕ) (w : W)
      → Does (handle_client_data_response H s content good rtt_start) w λ s' w'.
        (tally_of s' ≡ record {
          received = s.received + 1;
          crc_ok = if good then s.crc_ok + 1 else s.crc_ok;
          crc_errors = if good then s.crc_errors else s.crc_errors + 1;
          bytes_received = s.bytes_received + length content;
        })
        × (pending w' ≡ pending w)
  unfolding handle_client_data_response count_received
  data_response-Does s content true rtt_start w = record {
    value = record s {
      received = s.received + 1;
      bytes_received = s.bytes_received + length content;
      crc_ok = s.crc_ok + 1;
      rtt_samples = s.rtt_samples ++ ((H.monotonic w).0 - rtt_start) ∷ [];
    };
    next = (H.monotonic w).1;
    runs = rw (log_progress-quiet (H.monotonic w).1);
    holds = (refl, L.pending-monotonic w);
  }
  data_response-Does s content false rtt_start w = record {
    value = _;
    next = w;
    runs = refl;
    holds = (refl, refl);
  }

  abbrev Meets : Bytes → Ending × Tally → Result (Round SessionStats SessionResult) × W → Type 0
  Meets = ClientMeets H pending

  -- A round in which nothing came.
  missed :
      (start i : ℕ) (s : SessionStats) (w w₁ : W) (left : ℕ) (rest : Bytes)
      → Asked start i s w (ok none) w₁
      → Meets rest (missing (i + 1), tally_of s) (client_rounds H conn start (suc left) i s w)
  unfolding client_rounds on_client_reply stop_clock
  missed start i s w w₁ left rest (rtt_start, s', kept, e) =
      (record s' { elapsed = (H.monotonic w₁).0 - start }, rw e, kept)

  -- A round whose answer is a FIN.
  closing :
      (start i : ℕ) (s : SessionStats) (w w₁ : W) (left : ℕ) (rest : Bytes)
      → Asked start i s w (ok (some (record { payload = []; crc_ok = false; msg_type = fin }))) w₁
      → Meets rest (closed, tally_of s) (client_rounds H conn start (suc left) i s w)
  unfolding client_rounds on_client_reply handle_client_server_fin stop_clock
  closing start i s w w₁ left rest (rtt_start, s', kept, e) =
      (record s' { elapsed = (H.monotonic w₁).0 - start }, rw e, kept)

  -- A round that UnexpectedMessageError leaves.
  escaping :
      (start i : ℕ) (s : SessionStats) (w w₁ : W) (left : ℕ) (rest : Bytes)
      → Asked start i s w (err unexpected_message) w₁
      → Meets rest (unexpected, tally_of s) (client_rounds H conn start (suc left) i s w)
  unfolding client_rounds
  escaping start i s w w₁ left rest (rtt_start, s', kept, e) = rw e

  -- A round whose answer is a DATA message.
  answered :
      (start i : ℕ) (s : SessionStats) (m : Decoded) (w w₁ : W)
      → Asked start i s w
          (ok (some (record { payload = m.content; crc_ok = m.crc_ok; msg_type = data_msg })))
          w₁
      → Does (client_round H conn start i s) w λ r w₂.
        (s₂ : SessionStats) × (r ≡ again s₂)
        × (tally_of s₂ ≡ tally (tally_of s) m)
        × (pending w₂ ≡ pending w₁)
  unfolding on_client_reply
  answered start i s m w w₁ (rtt_start, s', kept, e) =
      let d = data_response-Does s' m.content m.crc_ok rtt_start w₁ in
      record {
        value = again d.value;
        next = d.next;
        runs = e ∙ rw d.runs;
        holds = (d.value, refl, d.holds.0 ∙ ap (λ t. tally t m) kept, d.holds.1);
      }

  -- On a line that carries the messages `ms`, and then either nothing or anything if there is a
  -- message for each round, the rounds of `client_exchange` end as the rules of the channel say,
  -- with the counters that they say: with all rounds done and the messages that are left still on
  -- the line, at a missing message, at a FIN, or with UnexpectedMessageError.
  pub client_rounds-Meets :
      (ms : List Decoded) (left i start : ℕ) (s : SessionStats) (rest : Bytes) (w : W)
      → Carries H ms (pending w) rest
      → (rest ≡ []) ⊎ (left ≤ length ms)
      → Meets rest
          (rounds conn.connection_id left i (tally_of s) ms)
          (client_rounds H conn start left i s w)
  unfolding client_rounds rounds
  client_rounds-Meets ms zero i start s rest w h k = (s, refl, refl, h)
  client_rounds-Meets [] (suc left) i start s rest w h (inr few) = absurd (omega arith)
  client_rounds-Meets [] (suc left) i start s rest w h (inl silent) =
      let (v, kept, ask) = asked start i s w in
      let (w₁, e, _, _) = received-silent H L c crc conn v (kept ∙ h ∙ silent) in
      missed start i s w w₁ left rest (ask (ok none) w₁ e)
  client_rounds-Meets (m ∷ ms) (suc left) i start s rest w (next, stands, h) k =
      let (v, kept, ask) = asked start i s w in
      let (w₁, e, after_m, _) = received-Stands H L c crc conn m next v (rw kept stands) in
      let heard : (got : Result (Option Reply))
          → caught is_receive_error (check_reply conn.connection_id m) ≡ got
          → Asked start i s w got w₁ =
        λ got g. ask got w₁ (rw g at e) in
      elim (heard_as conn.connection_id i m) [
        | inl (f, g) ↦
            let d = answered start i s m w w₁ (heard _ g) in
            let (s₂, again_eq, t, left_m) = d.holds in
            rw (f, d.runs, again_eq, ← t)
              (client_rounds-Meets ms left (i + 1) start s₂ rest d.next (rw (left_m ∙ after_m) h)
                (fewer left (length ms) k))
        | inr (inl (f, g)) ↦ rw f (missed start i s w w₁ left rest (heard _ g))
        | inr (inr (inl (f, g))) ↦ rw f (closing start i s w w₁ left rest (heard _ g))
        | inr (inr (inr (f, g))) ↦ rw f (escaping start i s w w₁ left rest (heard _ g))
      ]
