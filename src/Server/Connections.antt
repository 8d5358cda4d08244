-- ===== src/Server/Connections.antt =====
-- server/handshake.py: the frames that a connection of the server's handshake comes from.
use mathlib.Core.Path.{subst}
use serial_testkit.Prelude.{
  ℕ, ◌≤◌, ◌≡◌, refl, ap, ◌∙◌, some, ◌∷◌, ◌++◌, length, take, drop, drop-append, length-append, All,
  All-drop, arith,
}
use serial_testkit.Prelude.Bytes.{Bytes, IsByte, from_bytes}
use serial_testkit.Exec.{Result, ok, err, stuck, pure, lift, ◌>>=◌}
use serial_testkit.Exec.Steps.{ok-same, bind-run}
use serial_testkit.Host.{Host}
use serial_testkit.Host.Laws.{IsCrc32, IsLine, HasArrivals}
use serial_testkit.Message.{max_resync_bytes, uint32_to_bytes, encode}
use serial_testkit.Message.Frames.{StartsAt}
use serial_testkit.Protocol.{
  syn, ack, msg_code, conn_id_size, server, SessionParams, Connection, default_syn_interval,
}
use serial_testkit.Encoding.{Decoded, decode_ack_with_params}
use serial_testkit.Encoding.Soundness.{payload_of, decode_message_sound}
use serial_testkit.SerialIo.{drain_input}
use serial_testkit.Server.Handshake.{
  server_wait_for_syn, server_send_syn_ack_wait_ack, server_handshake,
}
use serial_testkit.Channel.Drops.{drain_input-Drops}
use serial_testkit.Server.Heard.{
  IsAckWith, Decodes, Decodes-later, Decodes-Drops, IsSynOf, server_wait_for_syn-Decodes,
  server_send_syn_ack_wait_ack-Decodes,
}

-- The frame of `payload`, as `encode` writes it, stands in `stream`, behind some bytes that were
-- dropped before and at most 8192 more in which no magic starts, and `rest` follows it.
pub record FrameIn {W : Type 0} (H : Host W) (payload stream rest : Bytes) : Type 0 where
  pub dropped : ℕ
  pub skipped : ℕ
  pub wire : Bytes
  pub few : skipped ≤ max_resync_bytes
  pub written : (v : W) → encode H payload v ≡ (ok wire, v)
  pub stands : StartsAt skipped (drop dropped stream) (wire ++ rest)

-- The parameters that the content of an ACK starts with.
abbrev pub ParamsIn : Bytes → SessionParams → Type 0
ParamsIn content params = (4 ≤ length content) × (params.msg_count ≡ from_bytes (take 4 content))

-- A server's connection, whose id is that of a SYN on the line and whose parameters are those of a
-- later ACK of this id, with nothing taken behind that ACK.
pub record ComesFrom {W : Type 0} (H : Host W) (conn : Connection) (stream rest : Bytes)
    : Type 0 where
  pub server_side : conn.role ≡ server
  pub sized : length conn.connection_id ≡ conn_id_size
  pub syn_content : Bytes
  pub ack_content : Bytes
  pub between : Bytes
  pub params : SessionParams
  pub syn_there : FrameIn H (msg_code syn ∷ (conn.connection_id ++ syn_content)) stream between
  pub ack_there : FrameIn H (msg_code ack ∷ (conn.connection_id ++ ack_content)) between rest
  pub counted : ParamsIn ack_content params
  pub parametrised : conn.session_params ≡ some params

decode_ack-ParamsIn :
    (id content id' : Bytes) (params : SessionParams)
    → length id ≡ conn_id_size
    → decode_ack_with_params ((msg_code ack ∷ id) ++ content) ≡ ok (id', params)
    → ParamsIn content params
unfolding decode_ack_with_params
decode_ack-ParamsIn id content id' params l e =
    let e' = rw (drop-append 4 id content l) at e in ground (arith, length-append id content)

module _ {W : Type 0} (H : Host W) {pending written : W → Bytes}
    (L : IsLine H pending written) where
  -- Where and when `encode` runs makes no difference.
  encode-anywhere :
      (payload wire : Bytes) (w v : W)
      → encode H payload w ≡ (ok wire, w)
      → encode H payload v ≡ (ok wire, v)
  unfolding encode
  encode-anywhere payload wire w v e =
      go (uint32_to_bytes (length payload)) (uint32_to_bytes (H.crc32 payload)) _ e
    where
      go :
          (r r' : Result Bytes) (f : Bytes → Bytes → Bytes)
          → (lift r >>= λ a. lift r' >>= λ b. pure (f a b)) w ≡ (ok wire, w)
          → (lift r >>= λ a. lift r' >>= λ b. pure (f a b)) v ≡ (ok wire, v)
      go (ok a) (ok b) f e = ap (λ p. (p.0, v)) e
      go (ok a) (err x) f e = absurd (cc (ap (λ p. p.0) e))
      go (ok a) stuck f e = absurd (cc (ap (λ p. p.0) e))
      go (err x) r' f e = absurd (cc (ap (λ p. p.0) e))
      go stuck r' f e = absurd (cc (ap (λ p. p.0) e))

  -- Its frame is there.
  Decodes-FrameIn :
      (m : Decoded) (w w' : W)
      → IsCrc32 H
      → All IsByte (pending w)
      → Decodes H L m w w'
      → (length m.conn_id ≡ conn_id_size) × FrameIn H (payload_of m) (pending w) (pending w')
  Decodes-FrameIn m w w' crc bytes h =
      let (n, d) = h.later in
      let bytes' : All IsByte (pending h.at) = rw d (All-drop IsByte n (pending w) bytes) in
      let (l, (k, wire, few, e, at)) =
        decode_message_sound H L.stream m w h.at w' crc bytes' h.decoded h.good in
      (
        l,
        record {
          dropped = n;
          skipped = k;
          wire = wire;
          few = few;
          written = λ v. encode-anywhere (payload_of m) wire w v e;
          stands = rw d at at;
        },
      )

  -- A SYN and then an ACK make the connection.
  connected :
      (id : Bytes) (params : SessionParams) (m m' : Decoded) (w v w' : W)
      → IsCrc32 H
      → All IsByte (pending w)
      → IsSynOf H L id m
      → Decodes H L m w v
      → IsAckWith id params m'
      → Decodes H L m' v w'
      → ComesFrom H
          (record { connection_id = id; role = server; session_params = some params })
          (pending w)
          (pending w')
  connected id params m m' w v w' crc bytes (t, i) h is h' =
      let (n, d) = Decodes-Drops H L m w v h in
      let bytes' : All IsByte (pending v) = rw d (All-drop IsByte n (pending w) bytes) in
      let (l, there) = Decodes-FrameIn m w v crc bytes h in
      let (l', there') = Decodes-FrameIn m' v w' crc bytes' h' in
      record {
        server_side = refl;
        sized = rw i at l;
        syn_content = m.content;
        ack_content = m'.content;
        between = pending v;
        params = params;
        syn_there = rw (t, i) at there;
        ack_there = rw (is.typed, is.same) at there';
        counted = decode_ack-ParamsIn m'.conn_id m'.content is.reader params l' is.read;
        parametrised = refl;
      }

  -- A connection that `server_handshake` returns has the role of a server, an id of 4 bytes, and
  -- parameters. On the line that the handshake began with, there stood the frame of a SYN with this
  -- id, as `encode` writes it with its CRC, and in what follows that frame the frame of an ACK with
  -- this id, whose content starts with the message count of the parameters as 4 bytes; what is left
  -- on the line is what follows the ACK.
  pub server_handshake-ComesFrom :
      (client_timeout ack_timeout : ℕ) (w w' : W) (conn : Connection)
      → HasArrivals H pending written
      → IsCrc32 H
      → All IsByte (pending w)
      → server_handshake H client_timeout ack_timeout w ≡ (ok conn, w')
      → ComesFrom H conn (pending w) (pending w')
  unfolding server_handshake
  server_handshake-ComesFrom client_timeout ack_timeout w w' conn arrivals crc bytes e =
      let (_, _, e₁) = bind-run (drain_input H) _ w w' conn e in
      let u = (drain_input H w).1 in
      let (id, e₂, e₃) = bind-run (server_wait_for_syn H client_timeout) _ u w' conn e₁ in
      let v = (server_wait_for_syn H client_timeout u).1 in
      let (params, e₄, e₅) =
        bind-run (server_send_syn_ack_wait_ack H id ack_timeout default_syn_interval) _ v w' conn
          e₃ in
      let made = ok-same _ conn (ap (λ r. r.0) e₅) in
      let (m, is, hears) = server_wait_for_syn-Decodes H L client_timeout u v id e₂ in
      let (m', is', hears') =
        server_send_syn_ack_wait_ack-Decodes H L id ack_timeout default_syn_interval v w' params
          (e₄ ∙ ap (λ w. (ok params, w)) (ap (λ r. r.1) e₅)) in
      let heard = Decodes-later H L m w u v ((drain_input-Drops H L arrivals).moves w) hears in
      subst (λ c. ComesFrom H c (pending w) (pending w')) made
        (connected id params m m' w v w' crc bytes is heard is' hears')
