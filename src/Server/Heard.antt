-- ===== src/Server/Heard.antt =====
-- server/handshake.py: the messages by which the loops of the server's handshake end.
use mathlib.Core.Path.{subst}
use serial_testkit.Prelude.{ℕ, ◌≡◌, refl, ap, ◌∙◌, true, Option, none, some, ◌∷◌, ◌++◌, arith}
use serial_testkit.Prelude.Bytes.{Bytes, bytes_eq→eq}
use serial_testkit.Exec.{Result, ok, err, stuck, Exec, attempt, is_decode_error, ◌>>=◌}
use serial_testkit.Exec.Moves.{Moves, Moves-bind, Moves-lift, Moves-pure, Moves-attempt}
use serial_testkit.Exec.Steps.{ok-same, bind-run, attempt-run}
use serial_testkit.Host.{Host}
use serial_testkit.Host.Laws.{IsLine}
use serial_testkit.Protocol.{syn, syn_ack, ack, msg_code, is_type→eq, SessionParams}
use serial_testkit.Encoding.{Decoded, decode_ack_with_params, decode_message, encode_control}
use serial_testkit.Timed.{done, within, retransmit}
use serial_testkit.Server.Handshake.{
  on_syn, on_params, on_ack, or_peering_error, wait_syn_round, server_wait_for_syn, wait_ack_round,
  server_send_syn_ack_wait_ack,
}
use serial_testkit.Channel.Drops.{
  Drops, Drops-IsPreorder, decode_message-Drops, retransmit-Drops, encode_control-Drops,
  within-FoundBy,
}

on_syn-done :
    (o : Option Decoded) (id : Bytes)
    → on_syn o ≡ done id
    → (m : Decoded) × (o ≡ some m) × (m.msg_type ≡ syn) × (m.crc_ok ≡ true) × (m.conn_id ≡ id)
unfolding on_syn
on_syn-done none id e = absurd (cc)
on_syn-done (some m) id e =
    let (t, good, i) : (m.msg_type ≡ syn) × (m.crc_ok ≡ true) × (m.conn_id ≡ id) =
      ground (arith, is_type→eq m.msg_type syn) in
    (m, refl, t, good, i)

on_params-done :
    (last : ℕ) (params : SessionParams) (r : Result (Bytes × SessionParams))
    → on_params last r ≡ ok (done params)
    → (id : Bytes) × (r ≡ ok (id, params))
on_params-done last params (ok (id, p)) e = (id, cc)
on_params-done last params (err x) e = absurd (ground arith)
on_params-done last params stuck e = absurd (cc)

-- The message whose ACK ended the wait.
pub record IsAckWith (conn_id : Bytes) (params : SessionParams) (m : Decoded) : Type 0 where
  pub typed : m.msg_type ≡ ack
  pub same : m.conn_id ≡ conn_id
  pub good : m.crc_ok ≡ true
  pub reader : Bytes
  pub read : decode_ack_with_params ((msg_code ack ∷ m.conn_id) ++ m.content) ≡ ok (reader, params)

on_ack-done :
    (conn_id : Bytes) (last : ℕ) (o : Option Decoded) (params : SessionParams)
    → on_ack conn_id last o ≡ ok (done params)
    → (m : Decoded) × (o ≡ some m) × IsAckWith conn_id params m
unfolding on_ack
on_ack-done conn_id last none params e = absurd (ground arith)
on_ack-done conn_id last (some m) params e =
    let r = decode_ack_with_params ((msg_code ack ∷ m.conn_id) ++ m.content) in
    let (t, i, good, k) : (m.msg_type ≡ ack)
        × (m.conn_id ≡ conn_id)
        × (m.crc_ok ≡ true)
        × (on_params last r ≡ ok (done params)) =
      ground (arith, is_type→eq m.msg_type ack, bytes_eq→eq m.conn_id conn_id) in
    let (id, read) = on_params-done last params r k in
    (m, refl, record { typed = t; same = i; good = good; reader = id; read = read })

module _ {W : Type 0} (H : Host W) {pending written : W → Bytes}
    (L : IsLine H pending written) where
  -- From `w`, some bytes later, the message `m` is decoded with a good CRC, and that leaves `w'`.
  pub record Decodes (m : Decoded) (w w' : W) : Type 0 where
    pub at : W
    pub later : Drops pending w at
    pub decoded : decode_message H at ≡ (ok m, w')
    pub good : m.crc_ok ≡ true

  pub Decodes-later : (m : Decoded) (u v w : W) → Drops pending u v → Decodes m v w → Decodes m u w
  Decodes-later m u v w d h = record {
    at = h.at;
    later = (Drops-IsPreorder pending).follows u v h.at d h.later;
    decoded = h.decoded;
    good = h.good;
  }

  pub Decodes-Drops : (m : Decoded) (w w' : W) → Decodes m w w' → Drops pending w w'
  Decodes-Drops m w w' h = (Drops-IsPreorder pending).follows w h.at w' h.later (
      subst (λ v. Drops pending h.at v) (ap (λ r. r.1) h.decoded)
        ((decode_message-Drops H L).moves h.at))

  abbrev pub IsSynOf : Bytes → Decoded → Type 0
  IsSynOf id m = (m.msg_type ≡ syn) × (m.conn_id ≡ id)

  -- What was decoded under a `try`.
  tried :
      (o : Option Decoded) (m : Decoded) (w v : W)
      → attempt is_decode_error (decode_message H) w ≡ (ok o, v)
      → o ≡ some m
      → m.crc_ok ≡ true
      → Decodes m w v
  tried o m w v e some_m good = record {
    at = w;
    later = (0, refl);
    decoded = attempt-run is_decode_error (decode_message H) w v m (e ∙ ap (λ o. (ok o, v)) some_m);
    good = good;
  }

  wait_syn_round-Decodes :
      (s : Unit {0}) (w w' : W) (id : Bytes)
      → wait_syn_round H s w ≡ (ok (done id), w')
      → (m : Decoded) × IsSynOf id m × Decodes m w w'
  unfolding wait_syn_round
  wait_syn_round-Decodes s w w' id e =
      let (o, e₁, e₂) = bind-run (attempt is_decode_error (decode_message H)) _ w w' _ e in
      let (m, some_m, t, good, i) = on_syn-done o id (ok-same _ (done id) (ap (λ r. r.0) e₂)) in
      (m, (t, i), rw (← ap (λ r. r.1) e₂) (tried o m w _ e₁ some_m good))

  wait_ack_round-Decodes :
      (conn_id msg : Bytes) (interval last : ℕ) (w w' : W) (params : SessionParams)
      → wait_ack_round H conn_id msg interval last w ≡ (ok (done params), w')
      → (m : Decoded) × IsAckWith conn_id params m × Decodes m w w'
  unfolding wait_ack_round
  wait_ack_round-Decodes conn_id msg interval last w w' params e =
      let (last', _, e₁) = bind-run (retransmit H msg interval last) _ w w' _ e in
      let v = (retransmit H msg interval last w).1 in
      let (o, e₂, e₃) = bind-run (attempt is_decode_error (decode_message H)) _ v w' _ e₁ in
      let (m, some_m, is) = on_ack-done conn_id last' o params (ap (λ r. r.0) e₃) in
      (
        m,
        is,
        Decodes-later m w v w' ((retransmit-Drops H L msg interval last).moves w)
            (rw (← ap (λ r. r.1) e₃) (tried o m v _ e₂ some_m is.good)),
      )

  wait_syn_round-Drops : (s : Unit {0}) → Moves (Drops pending) (wait_syn_round H s)
  unfolding wait_syn_round
  wait_syn_round-Drops s =
      let o = Drops-IsPreorder pending in
      Moves-bind o (attempt is_decode_error (decode_message H)) _
        (Moves-attempt is_decode_error (decode_message H) (decode_message-Drops H L))
        λ got. Moves-pure o (on_syn got)

  wait_ack_round-Drops :
      (conn_id msg : Bytes) (interval last : ℕ)
      → Moves (Drops pending) (wait_ack_round H conn_id msg interval last)
  unfolding wait_ack_round
  wait_ack_round-Drops conn_id msg interval last =
      let o = Drops-IsPreorder pending in
      Moves-bind o (retransmit H msg interval last) _ (retransmit-Drops H L msg interval last)
        λ last'.
          Moves-bind o (attempt is_decode_error (decode_message H)) _
            (Moves-attempt is_decode_error (decode_message H) (decode_message-Drops H L))
            λ got. Moves-lift o (on_ack conn_id last' got)

  -- A loop that ends in time.
  in_time :
      {A : Type 0} (m : Exec W (Option A)) (w w' : W) (a : A)
      → (m >>= or_peering_error) w ≡ (ok a, w')
      → m w ≡ (ok (some a), w')
  in_time {A = A} m w w' a e = let (o, e₁, e₂) = bind-run m or_peering_error w w' a e in go o e₁ e₂
    where
      go :
          (o : Option A)
          → m w ≡ (ok o, (m w).1)
          → or_peering_error o (m w).1 ≡ (ok a, w')
          → m w ≡ (ok (some a), w')
      go none e₁ e₂ = absurd (cc (ap (λ r. r.0) e₂))
      go (some b) e₁ e₂ = cc (e₁, ap (λ r. r.0) e₂, ap (λ r. r.1) e₂)

  pub server_wait_for_syn-Decodes :
      (timeout : ℕ) (w w' : W) (id : Bytes)
      → server_wait_for_syn H timeout w ≡ (ok id, w')
      → (m : Decoded) × IsSynOf id m × Decodes m w w'
  unfolding server_wait_for_syn
  server_wait_for_syn-Decodes timeout w w' id e =
      let (s, v, d, e') =
        within-FoundBy H L (wait_syn_round H) wait_syn_round-Drops timeout tt w w' id
          (in_time (within H timeout (wait_syn_round H) tt) w w' id e) in
      let (m, is, h) = wait_syn_round-Decodes s v w' id e' in (m, is, Decodes-later m w v w' d h)

  pub server_send_syn_ack_wait_ack-Decodes :
      (conn_id : Bytes) (timeout interval : ℕ) (w w' : W) (params : SessionParams)
      → server_send_syn_ack_wait_ack H conn_id timeout interval w ≡ (ok params, w')
      → (m : Decoded) × IsAckWith conn_id params m × Decodes m w w'
  unfolding server_send_syn_ack_wait_ack
  server_send_syn_ack_wait_ack-Decodes conn_id timeout interval w w' params e =
      let (msg, _, e₁) = bind-run (encode_control H syn_ack conn_id) _ w w' params e in
      let u = (encode_control H syn_ack conn_id w).1 in
      let round = wait_ack_round H conn_id msg interval in
      let (last, v, d, e₂) =
        within-FoundBy H L round (wait_ack_round-Drops conn_id msg interval) timeout 0 u w' params
          (in_time (within H timeout round 0) u w' params e₁) in
      let (m, is, h) = wait_ack_round-Decodes conn_id msg interval last v w' params e₂ in
      (
        m,
        is,
        Decodes-later m w u w' ((encode_control-Drops H L syn_ack conn_id).moves w)
            (Decodes-later m u v w' d h),
      )
