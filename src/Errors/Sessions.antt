-- ===== src/Errors/Sessions.antt =====
-- The handshakes and the shutdown: which exceptions they raise.
use serial_testkit.Prelude.{
  ℕ, zero, suc, ◌+◌, ◌-◌, ◌^◌, ◌<◌, ◌≡◌, refl, true, Option, none, some, ltb, length, length-append,
  ◌++◌, ◌∷◌, ◌≢◌, arith,
}
use serial_testkit.Prelude.Bytes.{Bytes, to_bytes, length-to_bytes}
use serial_testkit.Exec.{
  Exn, Result, err, Exec, peering_error, handshake_error, is_peering_error, pure, lift, call,
  attempt, is_decode_error, or_false, ◌>>=◌,
}
use serial_testkit.Exec.Yields.{Yields, Yields-pure, Yields-then, Yields-bind}
use serial_testkit.Exec.Raises.{
  Raises, Never, Raises-pure, Raises-raise, Raises-lift, Raises-call, Raises-Never, Raises-if,
  Raises-bind, Raises-then,
}
use serial_testkit.Host.{Host}
use serial_testkit.Host.Laws.{IsCalm, IsCrc32}
use serial_testkit.Message.{uint32_to_bytes, encode}
use serial_testkit.Message.Frames.{uint32_to_bytes-eq}
use serial_testkit.Protocol.{
  syn, syn_ack, ack, fin, fin_ack, msg_code, conn_id_size, Connection, SessionParams,
  default_syn_interval,
}
use serial_testkit.Encoding.{
  Decoded, generate_connection_id, encode_control, encode_ack_with_params, decode_ack_with_params,
  decode_message,
}
use serial_testkit.SerialIo.{drain_input}
use serial_testkit.Timed.{Round, again, done, poll, within, retransmit}
use serial_testkit.Client.Handshake.{
  on_syn_reply, or_handshake_error, or_default, syn_round, client_send_syn_wait_syn_ack,
  client_send_ack_with_params, client_handshake,
}
use serial_testkit.Client.Shutdown.{fin_interval, on_fin_reply, fin_round, client_shutdown}
use serial_testkit.Server.Handshake.{
  on_syn, on_ack, or_peering_error, wait_syn_round, server_wait_for_syn, wait_ack_round,
  server_send_syn_ack_wait_ack, server_handshake,
}
use serial_testkit.Server.Shutdown.{server_shutdown}
use serial_testkit.Server.Ids.{server_wait_for_syn-HasId}
use serial_testkit.Session.Stats.{on_fin, wait_fin_round, wait_for_fin}
use serial_testkit.Errors.Framing.{encode-Calm, heard-Calm, drain_input-Calm, encode_control-Calm}

module _ {W S A : Type 0} {P : Exn → Type 0} (H : Host W) (body : S → Exec W (Round S A))
    (step : (s : S) → Raises P (body s)) where
  poll-Raises : (fuel start timeout : ℕ) (s : S) → Raises P (poll H fuel start timeout body s)
  unfolding poll
  poll-Raises zero start timeout s = record { raises = λ w x e. absurd (cc) }
  poll-Raises (suc fuel) start timeout s = Raises-then (call H.monotonic) _ (Raises-call _) λ now.
      Raises-if (ltb (now - start) timeout)
        (body s >>= λ r. elim r [
          | again s' ↦ poll H fuel start timeout body s'
          | done a ↦ pure (some a)
        ])
        (pure none)
        (λ _.
          Raises-then (body s) _ (step s)
            (elim [ again s' ↦ poll-Raises fuel start timeout s' | done a ↦ Raises-pure (some a) ]))
        (λ _. Raises-pure none)

  pub within-Raises : (timeout : ℕ) (s : S) → Raises P (within H timeout body s)
  unfolding within
  within-Raises timeout s =
      Raises-then (call H.monotonic) _ (Raises-call _)
        λ start. poll-Raises (timeout + 1) start timeout s

module _ {W : Type 0} (H : Host W) (c : IsCalm H) (crc : IsCrc32 H) where
  retransmit-Calm :
      (msg : Bytes) (interval last : ℕ) → Raises Never (retransmit H msg interval last)
  unfolding retransmit
  retransmit-Calm msg interval last = Raises-then (call H.monotonic) _ (Raises-call _) λ now.
      Raises-if (ltb interval (now - last)) _ _
        (λ _. Raises-then (H.write msg) _ (c.writes_calm msg) λ _. Raises-call H.monotonic)
        (λ _. Raises-pure last)

  -- A round that listens, and goes on by what it heard.
  listening-Calm :
      {B : Type 0} (f : Option Decoded → B)
      → Raises Never (attempt is_decode_error (decode_message H) >>= λ got. pure (f got))
  listening-Calm f =
      Raises-then (attempt is_decode_error (decode_message H)) _ (heard-Calm H c crc)
        λ got. Raises-pure (f got)

  pub client_shutdown-Calm :
      (conn : Connection) (timeout : ℕ)
      → length conn.connection_id ≡ conn_id_size
      → Raises Never (client_shutdown H conn timeout)
  unfolding client_shutdown fin_round
  client_shutdown-Calm conn timeout h =
      Raises-then (encode_control H fin conn.connection_id) _ (encode_control-Calm H c crc fin _ h)
        λ msg.
          Raises-then (within H timeout (fin_round H conn.connection_id msg) 0) _
            (within-Raises H (fin_round H conn.connection_id msg)
              (λ last.
                Raises-then (retransmit H msg fin_interval last) _
                  (retransmit-Calm msg fin_interval last)
                  λ last'. listening-Calm (on_fin_reply conn.connection_id last'))
              timeout 0)
            λ found. Raises-pure (or_false found)

  pub server_shutdown-Calm :
      (conn : Connection)
      → length conn.connection_id ≡ conn_id_size
      → Raises Never (server_shutdown H conn)
  unfolding server_shutdown
  server_shutdown-Calm conn h =
      Raises-then (encode_control H fin_ack conn.connection_id) _
        (encode_control-Calm H c crc fin_ack _ h) c.writes_calm

  pub wait_for_fin-Calm :
      (conn : Connection) (timeout : ℕ) → Raises Never (wait_for_fin H conn timeout)
  unfolding wait_for_fin wait_fin_round
  wait_for_fin-Calm conn timeout =
      Raises-then (within H timeout (wait_fin_round H conn.connection_id) tt) _
        (within-Raises H (wait_fin_round H conn.connection_id)
          (λ _. listening-Calm (on_fin conn.connection_id)) timeout tt)
        λ found. Raises-pure (or_false found)

  abbrev IsId : Bytes → Type 0
  IsId conn_id = length conn_id ≡ conn_id_size

  -- A loop that heard nothing raises what is told; one that did returns it.
  or_peering_error-Raises :
      {B : Type 0} (o : Option B)
      → Raises {W = W} (λ x. is_peering_error x ≡ true) (or_peering_error o)
  or_peering_error-Raises none = Raises-raise peering_error refl
  or_peering_error-Raises (some b) = Raises-pure b

  or_handshake_error-Raises :
      {B : Type 0} (o : Option B)
      → Raises {W = W} (λ x. is_peering_error x ≡ true) (or_handshake_error o)
  or_handshake_error-Raises none = Raises-raise handshake_error refl
  or_handshake_error-Raises (some b) = Raises-pure b

  generate_connection_id-IsId : Yields IsId (generate_connection_id H)
  unfolding generate_connection_id
  generate_connection_id-IsId = record {
    yields = λ w a e. ground (arith, c.urandom_size conn_id_size w);
  }

  generate_connection_id-Calm : {P : Exn → Type 0} → Raises P (generate_connection_id H)
  unfolding generate_connection_id
  generate_connection_id-Calm = Raises-call (H.urandom conn_id_size)

  client_syn-Raises :
      (conn_id : Bytes) (timeout interval : ℕ)
      → IsId conn_id
      → Raises
          (λ x. is_peering_error x ≡ true)
          (client_send_syn_wait_syn_ack H conn_id timeout interval)
  unfolding client_send_syn_wait_syn_ack syn_round
  client_syn-Raises conn_id timeout interval h =
      Raises-then (encode_control H syn conn_id) _
        (Raises-Never _ (encode_control-Calm H c crc syn conn_id h))
        λ msg.
          Raises-then (within H timeout (syn_round H conn_id msg interval) 0) _
            (Raises-Never (within H timeout (syn_round H conn_id msg interval) 0) (
              within-Raises H (syn_round H conn_id msg interval)
                (λ last.
                  Raises-then (retransmit H msg interval last) _ (retransmit-Calm msg interval last)
                    λ last'. listening-Calm (on_syn_reply conn_id last'))
                timeout 0))
            or_handshake_error-Raises

  client_ack-Calm :
      (conn_id : Bytes) (params : SessionParams)
      → IsId conn_id
      → params.msg_count < 2 ^ 32
      → Raises Never (client_send_ack_with_params H conn_id params)
  unfolding client_send_ack_with_params encode_ack_with_params
  client_ack-Calm conn_id params h fits =
      Raises-then
        (lift (uint32_to_bytes params.msg_count) >>= λ count.
          encode H (msg_code ack ∷ (conn_id ++ count)))
        _
        (record {
          raises = λ w x e.
              let e' : ◌≡◌ {A = Result Bytes}
                  (encode H (msg_code ack ∷ (conn_id ++ to_bytes 4 params.msg_count)) w).0 (err x) =
                rw (uint32_to_bytes-eq params.msg_count fits) at e in
              (encode-Calm H c crc (msg_code ack ∷ (conn_id ++ to_bytes 4 params.msg_count)) (
                  omega (
                    arith,
                    length-append conn_id (to_bytes 4 params.msg_count),
                    length-to_bytes 4 params.msg_count,
                  ))).raises
                w x e';
        })
        c.writes_calm

  pub client_handshake-Raises :
      (timeout interval : ℕ) (params : Option SessionParams)
      → (or_default params).msg_count < 2 ^ 32
      → Raises (λ x. is_peering_error x ≡ true) (client_handshake H timeout interval params)
  unfolding client_handshake
  client_handshake-Raises timeout interval params fits =
      Raises-then (drain_input H) _ (Raises-Never _ (drain_input-Calm H c crc)) λ _.
        Raises-bind (generate_connection_id H) _ (generate_connection_id-Calm)
          generate_connection_id-IsId
          λ conn_id h.
            Raises-then (client_send_syn_wait_syn_ack H conn_id timeout interval) _
              (client_syn-Raises conn_id timeout interval h)
              λ _.
                Raises-then (client_send_ack_with_params H conn_id (or_default params)) _
                  (Raises-Never _ (client_ack-Calm conn_id (or_default params) h fits))
                  λ _. Raises-pure _

  pub client_handshake-IsId :
      (timeout interval : ℕ) (params : Option SessionParams)
      → Yields (λ conn. IsId conn.connection_id) (client_handshake H timeout interval params)
  unfolding client_handshake
  client_handshake-IsId timeout interval params = Yields-then (drain_input H) _ λ _.
      Yields-bind (generate_connection_id H) _ generate_connection_id-IsId λ conn_id h.
        Yields-then (client_send_syn_wait_syn_ack H conn_id timeout interval) _ λ _.
          Yields-then (client_send_ack_with_params H conn_id (or_default params)) _
            λ _. Yields-pure _ h

  on_ack-calm :
      (conn_id : Bytes) (last : ℕ) (o : Option Decoded) (x : Exn)
      → ◌≢◌ {A = Result (Round ℕ SessionParams)} (on_ack conn_id last o) (err x)
  unfolding on_ack decode_ack_with_params
  on_ack-calm conn_id last none x e = cc
  on_ack-calm conn_id last (some m) x e = ground arith

  server_syn-Raises :
      (timeout : ℕ) → Raises (λ x. is_peering_error x ≡ true) (server_wait_for_syn H timeout)
  unfolding server_wait_for_syn wait_syn_round
  server_syn-Raises timeout =
      Raises-then (within H timeout (wait_syn_round H) tt) _
        (Raises-Never (within H timeout (wait_syn_round H) tt)
          (within-Raises H (wait_syn_round H) (λ _. listening-Calm on_syn) timeout tt))
        or_peering_error-Raises

  server_ack-Raises :
      (conn_id : Bytes) (timeout interval : ℕ)
      → IsId conn_id
      → Raises
          (λ x. is_peering_error x ≡ true)
          (server_send_syn_ack_wait_ack H conn_id timeout interval)
  unfolding server_send_syn_ack_wait_ack wait_ack_round
  server_ack-Raises conn_id timeout interval h =
      Raises-then (encode_control H syn_ack conn_id) _
        (Raises-Never _ (encode_control-Calm H c crc syn_ack conn_id h))
        λ msg.
          Raises-then (within H timeout (wait_ack_round H conn_id msg interval) 0) _
            (Raises-Never (within H timeout (wait_ack_round H conn_id msg interval) 0) (
              within-Raises H (wait_ack_round H conn_id msg interval)
                (λ last.
                  Raises-then (retransmit H msg interval last) _ (retransmit-Calm msg interval last)
                    λ last'.
                      Raises-then (attempt is_decode_error (decode_message H)) _
                        (heard-Calm H c crc)
                        λ got.
                          Raises-lift (on_ack conn_id last' got)
                            λ x e. on_ack-calm conn_id last' got x e)
                timeout 0))
            or_peering_error-Raises

  pub server_handshake-Raises :
      (client_timeout ack_timeout : ℕ)
      → Raises (λ x. is_peering_error x ≡ true) (server_handshake H client_timeout ack_timeout)
  unfolding server_handshake
  server_handshake-Raises client_timeout ack_timeout =
      Raises-then (drain_input H) _ (Raises-Never _ (drain_input-Calm H c crc)) λ _.
        Raises-bind (server_wait_for_syn H client_timeout) _ (server_syn-Raises client_timeout)
          (server_wait_for_syn-HasId H client_timeout)
          λ conn_id h.
            Raises-then (server_send_syn_ack_wait_ack H conn_id ack_timeout default_syn_interval) _
              (server_ack-Raises conn_id ack_timeout default_syn_interval h) λ _. Raises-pure _
