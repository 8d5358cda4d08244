-- ===== src/Session/Refines/Server.antt =====
-- session/exchange.py: what the server makes of one message of a channel.
use serial_testkit.Prelude.{
  ℕ, zero, suc, ◌+◌, ◌≤◌, ◌≡◌, inl, inr, refl, ap, ◌∙◌, true, false, Option, none, some, List, [],
  ◌∷◌, ◌++◌, ◌==◌, length, Bool-cases, if◌then◌else◌, arith,
}
use serial_testkit.Prelude.Bytes.{Bytes}
use serial_testkit.Exec.{Result, ok, err, unexpected_message, pure, ◌>>◌}
use serial_testkit.Exec.Does.{Does, Does-pure}
use serial_testkit.Exec.Raises.{returns_or_raises}
use serial_testkit.Host.{Host}
use serial_testkit.Host.Laws.{IsCalm, IsCrc32, IsLine, HasClock}
use serial_testkit.Message.Frames.{frame}
use serial_testkit.Protocol.{msg_code, data_msg, Connection, conn_id_size}
use serial_testkit.Encoding.{Decoded}
use serial_testkit.Encoding.Soundness.{payload_of}
use serial_testkit.Timed.{Round, again, done}
use serial_testkit.Server.Shutdown.{server_shutdown}
use serial_testkit.Session.Outcome.{SessionStats, SessionResult, timeout_message, client_sent_fin}
use serial_testkit.Session.Stats.{is_written, count_sent, count_received, failed, log_progress}
use serial_testkit.Session.Rules.{
  Tally, tally_of, tally, Ending, complete, missing, closed, unexpected,
}
use serial_testkit.Session.ServerExchange.{judge, echo, handle_server_data}
use serial_testkit.Session.Echoes.{IsEcho, Echoes, AllEcho}
use serial_testkit.Session.Refines.Client.{tally_of-count_sent}
use serial_testkit.Channel.{Carries, frames}
use serial_testkit.Channel.Send.{random_payload-Does, send_data-Does}
use serial_testkit.Errors.Sessions.{server_shutdown-Calm}
use serial_testkit.Termination.Sessions.{server_shutdown-Ends}

-- What was written are the answers to the first messages, one for each that was counted.
abbrev pub Answered :
    {W : Type 0} → Host W → (W → Bytes) → Bytes → List Decoded → ℕ → ℕ → W → W → Type 0
Answered H written conn_id ms before behind w w' =
    (es : List Decoded) × AllEcho conn_id ms es
    × (behind ≡ before + length es)
    × (written w' ≡ written w ++ frames H es)

-- The server's rounds end as the rules say, with the statistics that they say, and with the answers
-- written; behind a FIN, a FIN_ACK may follow.
abbrev pub ServerMeets :
    {W : Type 0}
    → Host W
    → (pending written : W → Bytes) → Bytes
    → Bytes
    → List Decoded
    → ℕ
    → W
    → Ending × Tally
    → Result (Round SessionStats SessionResult) × W
    → Type 0
ServerMeets H pending written conn_id rest ms before w (complete left, t) (r, w') =
    (s : SessionStats) × (r ≡ ok (again s))
    × (tally_of s ≡ t)
    × Carries H left (pending w') rest
    × Answered H written conn_id ms before t.received w w'
ServerMeets H pending written conn_id rest ms before w (missing i, t) (r, w') =
    (s : SessionStats) × (r ≡ ok (done (failed s (timeout_message i) false)))
    × (tally_of s ≡ t)
    × Answered H written conn_id ms before t.received w w'
ServerMeets H pending written conn_id rest ms before w (closed, t) (r, w') =
    (s : SessionStats) × (r ≡ ok (done (failed s (client_sent_fin t.received) true)))
    × (tally_of s ≡ t)
ServerMeets H pending written conn_id rest ms before w (unexpected, t) (r, w') =
    (r ≡ err unexpected_message) × Answered H written conn_id ms before t.received w w'

module _ {W : Type 0} (H : Host W) {pending written : W → Bytes} (L : IsLine H pending written)
    (c : IsCalm H) (crc : IsCrc32 H) {clock : W → ℕ} (C : HasClock H clock) (conn : Connection)
    (sized : length conn.connection_id ≡ conn_id_size) where
  no_interval : (H.log_interval == 0) ≡ false
  no_interval = ground (arith, c.log_set)

  pub server_shutdown-returns : (w : W) → (n : Option ℕ) × ((server_shutdown H conn w).0 ≡ ok n)
  server_shutdown-returns w =
      elim (returns_or_raises (server_shutdown H conn w).0
        ((server_shutdown-Ends H C conn).returns w)
        ((server_shutdown-Calm H c crc conn sized).raises w)) [
          | inl r ↦ r
          | inr (x, e, never) ↦ absurd never
        ]

  echo-Does :
      (content : Bytes) (w : W)
      → length content ≤ 4091
      → Does (echo H content) w λ p w'.
        IsEcho content p × (length p ≤ 4091) × (pending w' ≡ pending w) × (written w' ≡ written w)
  unfolding echo
  echo-Does [] w h =
      let d = random_payload-Does H L c crc w in
      let (small, (kept, kept')) = d.holds in
      record {
        value = d.value;
        next = d.next;
        runs = d.runs;
        holds = (small, omega arith, kept, kept');
      }
  echo-Does (b ∷ bs) w h = Does-pure (b ∷ bs) w (refl, h, refl, refl)

  judge-tally :
      (s : SessionStats) (m : Decoded)
      → tally_of (judge s m.content m.crc_ok) ≡ tally (tally_of s) m
  unfolding judge count_received
  judge-tally s m = elim (Bool-cases m.crc_ok) [ inl e ↦ rw e refl | inr e ↦ rw e refl ]

  -- `if bytes_written:` with its count and its log line.
  written-Does :
      (s : SessionStats) (n : Option ℕ) (w : W)
      → (s' : SessionStats) × (tally_of s' ≡ tally_of s)
        × ((if is_written n then (do log_progress H; pure (count_sent s n)) else pure s) w
            ≡ (ok s', w))
  unfolding log_progress
  written-Does s none w = (s, refl, refl)
  written-Does s (some zero) w = (s, refl, refl)
  written-Does s (some (suc n)) w =
      (count_sent s (some (suc n)), tally_of-count_sent s (some (suc n)), rw no_interval refl)

  -- A DATA message is counted, and its answer is written.
  pub server_data-Does :
      (s : SessionStats) (m : Decoded) (w : W)
      → length m.content ≤ 4091
      → Does (handle_server_data H conn s m.content m.crc_ok) w λ s' w'.
        (e : Decoded) × Echoes conn.connection_id m e
        × (tally_of s' ≡ tally (tally_of s) m)
        × (pending w' ≡ pending w)
        × (written w' ≡ written w ++ frame H (payload_of e))
  unfolding handle_server_data
  server_data-Does s m w h =
      let a = echo-Does m.content w h in
      let (echoed, small, kept, kept') = a.holds in
      let d = send_data-Does H L c crc conn a.value a.next sized (omega arith) in
      let (s', t, e) = written-Does (judge s m.content m.crc_ok) d.value d.next in
      record {
        value = s';
        next = d.next;
        runs = rw (a.runs, d.runs) e;
        holds = (
          record {
            msg_type = data_msg;
            conn_id = conn.connection_id;
            content = a.value;
            crc_ok = true;
          },
          record {
            is_data = (refl, refl);
            is_good = refl;
            is_sized = (sized, small);
            is_echo = echoed;
          },
          t ∙ judge-tally s m,
          d.holds.0 ∙ kept,
          d.holds.1
              ∙ ap (λ bs. bs ++ frame H (msg_code data_msg ∷ (conn.connection_id ++ a.value)))
                  kept',
        );
      }
