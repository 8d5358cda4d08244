-- ===== src/Composed/Handshakes.antt =====
-- client/handshake.py and server/handshake.py on one line: the server reads what the client writes.
use serial_testkit.Prelude.{
  ℕ, zero, suc, ◌<◌, ◌^◌, ◌≡◌, refl, sym, ap, ◌∙◌, true, some, List, [], ◌∷◌, ◌++◌, length, drop,
  drop-append, All, All-append, inl, arith,
}
use serial_testkit.Prelude.Bytes.{Bytes, bytes_eq_self, length-to_bytes}
use serial_testkit.Exec.{ok}
use serial_testkit.Exec.Outcome.{Comes, Comes-ok, Comes-mono}
use serial_testkit.Host.{Host}
use serial_testkit.Host.Laws.{IsCalm, IsCrc32, IsLine, HasArrivals, HasClock}
use serial_testkit.Protocol.{syn, conn_id_size, SessionParams, Connection, default_syn_interval}
use serial_testkit.Encoding.{Decoded}
use serial_testkit.Encoding.RoundTrip.{message, decode_ack-params}
use serial_testkit.SerialIo.{drain_input}
use serial_testkit.Client.Handshake.{client_handshake}
use serial_testkit.Client.Peers.{is_answer, IsStray}
use serial_testkit.Client.Greets.{greeting, drawn_id, Greeted, client_handshake-Greeted}
use serial_testkit.Server.Handshake.{server_handshake}
use serial_testkit.Server.Peers.{IsNoConsent, IsConsent}
use serial_testkit.Server.Greets.{Accepted, OneTimeIsOver, server_handshake-Accepted}
use serial_testkit.Channel.{Carries, CarriesThen, frames}
use serial_testkit.Channel.Hears.{IsSound, repeat, ack_message, sound-Carries}

-- The two ends of one session: the same id and the same parameters.
abbrev pub SameSession : Connection → Connection → Type 0
SameSession ours theirs =
    (theirs.connection_id ≡ ours.connection_id) × (theirs.session_params ≡ ours.session_params)

repeat-All : (P : Decoded → Type 0) (k : ℕ) (m : Decoded) → P m → All P (repeat k m)
repeat-All P zero m h = tt
repeat-All P (suc k) m h = (h, repeat-All P k m h)

module _ (conn_id : Bytes) (params : SessionParams) (sized : length conn_id ≡ conn_id_size) where
  call-IsSound : IsSound (message syn conn_id [])
  call-IsSound = (refl, (sized, omega arith))

  ack-IsSound : IsSound (ack_message conn_id params)
  ack-IsSound = (refl, (sized, omega (arith, length-to_bytes 4 params.msg_count)))

  ack-IsConsent : params.msg_count < 2 ^ 32 → IsConsent conn_id params (ack_message conn_id params)
  ack-IsConsent fits = (
    rw (bytes_eq_self conn_id) refl,
    conn_id,
    decode_ack-params conn_id params.msg_count sized fits,
  )

module _ {W : Type 0} (H : Host W) where
  Carries-last :
      (ms : List Decoded) (m : Decoded) (s rest : Bytes)
      → Carries H (ms ++ m ∷ []) s rest
      → CarriesThen H ms m s rest
  Carries-last [] m s rest (next, h, e) = (s, refl, rw (← e) h)
  Carries-last (n ∷ ms) m s rest (next, h, c) =
      let (middle, d, t) = Carries-last ms m next rest c in (middle, (next, h, d), t)

module _ {V W : Type 0} (G : Host V) (H : Host W) (crcs : IsCrc32 G × IsCrc32 H)
    (same_crc : (bs : Bytes) → G.crc32 bs ≡ H.crc32 bs) {pending written : W → Bytes}
    (L : IsLine H pending written) (A : HasArrivals H pending written) {clock : W → ℕ}
    (C : HasClock H clock) where
  -- A line that carries the greeting of a client.
  server_handshake-greeting :
      (conn_id : Bytes) (params : SessionParams) (k client_timeout ack_timeout : ℕ) (rest : Bytes)
      (w : W)
      → length conn_id ≡ conn_id_size
      → params.msg_count < 2 ^ 32
      → default_syn_interval < clock w
      → drop (A.waiting w) (pending w) ≡ frames G (greeting conn_id params (suc k)) ++ rest
      → Comes
          (server_handshake H client_timeout ack_timeout)
          w
          (Accepted H pending written conn_id params (written w) rest)
          (OneTimeIsOver clock (clock w) client_timeout ack_timeout)
  server_handshake-greeting conn_id params k client_timeout ack_timeout rest w sized fits due line =
      let call = message syn conn_id [] in
      let last = ack_message conn_id params in
      let sound : All IsSound (greeting conn_id params (suc k)) =
        All-append IsSound (repeat (suc k) call) (last ∷ [])
          (repeat-All IsSound (suc k) call (call-IsSound conn_id params sized))
          (ack-IsSound conn_id params sized, tt) in
      let (middle, stands, behind) =
        sound-Carries G H crcs.0 same_crc (greeting conn_id params (suc k)) rest sound in
      server_handshake-Accepted H L crcs.1 C A client_timeout ack_timeout params [] (repeat k call)
        call last middle rest w due tt refl (_, refl, rw line stands)
        (repeat-All (IsNoConsent conn_id) k call (inl refl))
        (ack-IsConsent conn_id params sized fits)
        (Carries-last H (repeat k call) last middle rest behind)

  -- A line that carries what a client has written, who has its connection.
  server_handshake-Greeted :
      (heard told : V → Bytes) (conn_id : Bytes) (params : SessionParams) (left : Bytes) (v v' : V)
      (conn : Connection) (client_timeout ack_timeout : ℕ) (rest : Bytes) (w : W)
      → length conn_id ≡ conn_id_size
      → params.msg_count < 2 ^ 32
      → Greeted G heard told conn_id params (told v) left conn v'
      → default_syn_interval < clock w
      → drop (A.waiting w) (pending w) ≡ drop (length (told v)) (told v') ++ rest
      → Comes
          (server_handshake H client_timeout ack_timeout)
          w
          (λ conn' w'. SameSession conn conn' × (pending w' ≡ rest))
          (OneTimeIsOver clock (clock w) client_timeout ack_timeout)
  server_handshake-Greeted heard told conn_id params left v v' conn client_timeout ack_timeout rest
        w sized fits (e, l, zero, once, t) due line =
      absurd (omega arith)
  server_handshake-Greeted heard told conn_id params left v v' conn client_timeout ack_timeout rest
        w sized fits (e, l, suc k, once, t) due line =
      let news = frames G (greeting conn_id params (suc k)) in
      let new : drop (length (told v)) (told v') ≡ news =
        rw t (drop-append (length (told v)) (told v) news refl) in
      Comes-mono
        (server_handshake-greeting conn_id params k client_timeout ack_timeout rest w sized fits due
          (line ∙ ap (λ s. s ++ rest) new))
        (λ conn' w' (e', left', sent). (
          (
            ap (λ o. o.connection_id) e' ∙ sym (ap (λ o. o.connection_id) e),
            ap (λ o. o.session_params) e' ∙ sym (ap (λ o. o.session_params) e),
          ),
          left',
        ))
        (λ x w' over. over)

  module _ {heard told : V → Bytes} (K : IsLine G heard told) (B : HasArrivals G heard told)
      {now : V → ℕ} (D : HasClock G now) (c : IsCalm G) where
    -- The client's handshake on a line that brings its SYN_ACK, and then the server's on a line
    -- that brings, behind what `drain_input` throws away, what the client has written, with a
    -- message count below 2 ** 32 and both clocks past the intervals of SYN and SYN_ACK: if the
    -- client's returns a connection, the server's returns one with the same id and the same
    -- parameters, and leaves on the line what follows; or it raises PeeringError, and then one of
    -- its times is over.
    pub handshakes-agree :
        (timeout interval : ℕ) (params : SessionParams) (ms : List Decoded) (m : Decoded)
        (left : Bytes) (v v' : V) (conn : Connection) (client_timeout ack_timeout : ℕ)
        (rest : Bytes) (w : W)
        → params.msg_count < 2 ^ 32
        → interval < now v
        → All (IsStray (drawn_id G v)) ms
        → is_answer (drawn_id G v) m ≡ true
        → CarriesThen G ms m (drop (B.waiting v) (heard v)) left
        → client_handshake G timeout interval (some params) v ≡ (ok conn, v')
        → default_syn_interval < clock w
        → drop (A.waiting w) (pending w) ≡ drop (length (told v)) (told v') ++ rest
        → Comes
            (server_handshake H client_timeout ack_timeout)
            w
            (λ conn' w'. SameSession conn conn' × (pending w' ≡ rest))
            (OneTimeIsOver clock (clock w) client_timeout ack_timeout)
    handshakes-agree timeout interval params ms m left v v' conn client_timeout ack_timeout rest w
          fits due strays answers carried returns due' line =
        server_handshake-Greeted heard told (drawn_id G v) params left v v' conn client_timeout
          ack_timeout rest w (c.urandom_size conn_id_size (drain_input G v).1) fits
          (Comes-ok conn v'
            (client_handshake-Greeted G K c crcs.0 D B timeout interval params ms m left v fits due
              strays answers carried)
            returns)
          due' line
