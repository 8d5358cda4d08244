-- ===== src/Server/Greets.antt =====
-- server/handshake.py on a channel of messages: the whole handshake of the server.
use serial_testkit.Prelude.{
  ℕ, ◌-◌, ◌≤◌, ◌<◌, ◌≡◌, ap, true, some, List, [], length, drop, All, ◌⊎◌, inl, inr, arith,
}
use serial_testkit.Prelude.Bytes.{Bytes}
use serial_testkit.Exec.{Exec, Exn, peering_error, pure, ◌>>=◌}
use serial_testkit.Exec.Does.{Does-here}
use serial_testkit.Exec.Outcome.{Comes, Comes-pure, Comes-mono, Comes-bind, Comes-run}
use serial_testkit.Host.{Host}
use serial_testkit.Host.Laws.{IsCrc32, IsLine, HasArrivals, HasClock}
use serial_testkit.Protocol.{
  syn_ack, server, conn_id_size, SessionParams, Connection, default_syn_interval,
}
use serial_testkit.Encoding.{Decoded}
use serial_testkit.Encoding.RoundTrip.{message}
use serial_testkit.SerialIo.{drain_input}
use serial_testkit.Server.Handshake.{
  server_wait_for_syn, server_send_syn_ack_wait_ack, server_handshake,
}
use serial_testkit.Server.Peers.{
  is_call, IsNoCall, IsConsent, IsNoConsent, server_wait_for_syn-Comes, server_wait_ack-Comes,
}
use serial_testkit.Termination.Framing.{drain_input-Ends}
use serial_testkit.Channel.{CarriesThen}
use serial_testkit.Channel.Hears.{drain_input-Does}
use serial_testkit.Channel.Resends.{SentOnce}

abbrev pub server_connection : Bytes → SessionParams → Connection
server_connection conn_id params = record {
  connection_id = conn_id;
  role = server;
  session_params = some params;
}

-- The handshake is done: the connection has the id and the parameters, SYN_ACK is written, once or
-- more, and nothing else, and `rest` is left on the line.
abbrev pub Accepted :
    {W : Type 0}
    → Host W
    → (W → Bytes)
    → (W → Bytes)
    → Bytes
    → SessionParams
    → Bytes
    → Bytes
    → Connection
    → W
    → Type 0
Accepted H pending written conn_id params base rest conn w =
    (conn ≡ server_connection conn_id params)
    × (pending w ≡ rest)
    × SentOnce H written base (message syn_ack conn_id []) w

-- PeeringError, when one of the two times since `start` is over.
abbrev pub OneTimeIsOver : {W : Type 0} → (W → ℕ) → ℕ → ℕ → ℕ → Exn → W → Type 0
OneTimeIsOver clock start client_timeout ack_timeout x w =
    (x ≡ peering_error) × ((client_timeout ≤ clock w - start) ⊎ (ack_timeout ≤ clock w - start))

module _ {W : Type 0} (H : Host W) {pending written : W → Bytes} (L : IsLine H pending written)
    (crc : IsCrc32 H) {clock : W → ℕ} (C : HasClock H clock) where
  -- The handshake behind `drain_input`.
  abbrev accepts : ℕ → ℕ → Exec W Connection
  accepts client_timeout ack_timeout = server_wait_for_syn H client_timeout >>= λ conn_id.
      server_send_syn_ack_wait_ack H conn_id ack_timeout default_syn_interval >>= λ params.
      pure (server_connection conn_id params)

  accepts-Accepted :
      (client_timeout ack_timeout : ℕ) (params : SessionParams) (ms ns : List Decoded)
      (m n : Decoded) (middle rest : Bytes) (w : W)
      → default_syn_interval < clock w
      → All IsNoCall ms
      → is_call m ≡ true
      → CarriesThen H ms m (pending w) middle
      → length m.conn_id ≡ conn_id_size
      → All (IsNoConsent m.conn_id) ns
      → IsConsent m.conn_id params n
      → CarriesThen H ns n middle rest
      → Comes
          (accepts client_timeout ack_timeout)
          w
          (Accepted H pending written m.conn_id params (written w) rest)
          (OneTimeIsOver clock (clock w) client_timeout ack_timeout)
  accepts-Accepted client_timeout ack_timeout params ms ns m n middle rest w due hs h c sized ks k
        d =
      Comes-bind (server_wait_for_syn H client_timeout) _ w
        (Comes-mono (server_wait_for_syn-Comes H L C client_timeout ms m middle w hs h c)
          (λ id v p. p) (λ x v (e, over). (e, inl over)))
        λ id v (same, left, later, kept). rw same (
          Comes-bind (server_send_syn_ack_wait_ack H m.conn_id ack_timeout default_syn_interval) _ v
            (Comes-mono
              (server_wait_ack-Comes H L C crc m.conn_id sized params ack_timeout
                default_syn_interval ns n (written w) rest v (omega arith) ks k (rw left d) kept)
              (λ p u q. q) (λ x u (e, over). (e, inr (omega arith))))
            λ p u (e, rest_left, once).
              Comes-pure _ u (ap (server_connection m.conn_id) e, rest_left, once))

  -- At a clock past the interval of SYN_ACK, on a line that carries, behind what `drain_input`
  -- throws away, messages that are no SYN and then a SYN with a good CRC, and behind it messages
  -- that are no ACK of its connection with parameters and then one: the server's handshake returns
  -- the connection with the id of the SYN and the parameters of the ACK, has written SYN_ACK of
  -- this id once or more and nothing else, and leaves what follows on the line; or it raises
  -- PeeringError, and then one of its two times is over.
  pub server_handshake-Accepted :
      (A : HasArrivals H pending written) (client_timeout ack_timeout : ℕ) (params : SessionParams)
      (ms ns : List Decoded) (m n : Decoded) (middle rest : Bytes) (w : W)
      → default_syn_interval < clock w
      → All IsNoCall ms
      → is_call m ≡ true
      → CarriesThen H ms m (drop (A.waiting w) (pending w)) middle
      → All (IsNoConsent m.conn_id) ns
      → IsConsent m.conn_id params n
      → CarriesThen H ns n middle rest
      → Comes
          (server_handshake H client_timeout ack_timeout)
          w
          (Accepted H pending written m.conn_id params (written w) rest)
          (OneTimeIsOver clock (clock w) client_timeout ack_timeout)
  unfolding server_handshake
  server_handshake-Accepted A client_timeout ack_timeout params ms ns m n middle rest w due hs h
        (start, c, stands) ks k d =
      let (_, _, _, _, _, (sized, _), _) = stands in
      let (count, drained, (left, kept)) = Does-here (drain_input-Does H L A w) in
      let v = (drain_input H w).1 in
      let later : clock w ≤ clock v = (drain_input-Ends H C).later w in
      Comes-run (drain_input H) _ w v count drained (
        Comes-mono
          (accepts-Accepted client_timeout ack_timeout params ms ns m n middle rest v (omega arith)
            hs h (start, rw left c, stands) sized ks k d)
          (λ conn u q. rw kept at q)
          (λ x u (e, o). (e, elim o [ inl a ↦ inl (omega arith) | inr b ↦ inr (omega arith) ])))
