-- ===== src/Termination/Sessions.antt =====
-- The handshakes, the shutdown and the two exchanges.
use serial_testkit.Prelude.{ℕ, ◌≢◌, Option, none, some, arith}
use serial_testkit.Prelude.Bytes.{Bytes}
use serial_testkit.Exec.{Result, stuck, Exec, attempt, is_decode_error, ◌>>=◌}
use serial_testkit.Exec.Ends.{
  Ends, Progress, Ends-pure, Ends-raise, Ends-lift, Ends-call, Ends-bind, Ticks-bind, Progress-bind,
  Progress-of, Ticks-attempt, ends_rules,
}
use serial_testkit.Host.{Host}
use serial_testkit.Host.Laws.{HasClock}
use serial_testkit.Protocol.{
  syn, syn_ack, fin, fin_ack, conn_id_size, Connection, SessionParams, default_syn_interval,
}
use serial_testkit.Encoding.{
  Decoded, generate_connection_id, encode_control, decode_ack_with_params, decode_message,
}
use serial_testkit.SerialIo.{drain_input}
use serial_testkit.Timed.{retransmit}
use serial_testkit.Client.Handshake.{
  syn_round, on_syn_reply, or_default, client_send_syn_wait_syn_ack, client_send_ack_with_params,
  client_handshake,
}
use serial_testkit.Client.Shutdown.{fin_round, on_fin_reply, client_shutdown}
use serial_testkit.Server.Shutdown.{server_shutdown}
use serial_testkit.Server.Handshake.{
  on_syn, on_params, on_ack, wait_syn_round, server_wait_for_syn, wait_ack_round,
  server_send_syn_ack_wait_ack, server_handshake,
}
use serial_testkit.Session.Outcome.{SessionStats}
use serial_testkit.Session.Stats.{wait_fin_round, wait_for_fin, stop_clock, log_progress, on_fin}
use serial_testkit.Termination.Framing.{
  decode_message-Ticks, encode_control-Ends, encode_ack-Ends, drain_input-Ends,
}
use serial_testkit.Termination.Loops.{within-Ends, now-Ends, retransmit-Ends}

on_params-ne-stuck :
    (last : ℕ) (r : Result (Bytes × SessionParams)) → r ≢ stuck → on_params last r ≢ stuck
on_params-ne-stuck last r h e = ground arith

pub on_ack-ne-stuck :
    (conn_id : Bytes) (last : ℕ) (o : Option Decoded) → on_ack conn_id last o ≢ stuck
unfolding on_ack decode_ack_with_params
on_ack-ne-stuck conn_id last o e = ground arith

module _ {W : Type 0} (H : Host W) {clock : W → ℕ} (C : HasClock H clock) where
  -- What a round hears takes time, whatever it sent before.
  pub hearing :
      {A : Type 0} (f : Option Decoded → Exec W A)
      → ((o : Option Decoded) → Ends clock (f o))
      → Progress clock (attempt is_decode_error (decode_message H) >>= f)
  hearing f h = Progress-of _ (
      Ticks-bind (attempt is_decode_error (decode_message H)) f
        (Ticks-attempt is_decode_error (decode_message H) (decode_message-Ticks H C)) h)

  client_send_syn-Ends :
      (conn_id : Bytes) (timeout interval : ℕ)
      → Ends clock (client_send_syn_wait_syn_ack H conn_id timeout interval)
  unfolding client_send_syn_wait_syn_ack syn_round
  client_send_syn-Ends conn_id timeout interval =
      Ends-bind (encode_control H syn conn_id) _ (encode_control-Ends H C syn conn_id) λ msg.
        Ends-bind _ _
          (within-Ends H C (syn_round H conn_id msg interval)
            (λ last.
              Progress-bind (retransmit H msg interval last) _
                (retransmit-Ends H C msg interval last)
                λ last'. hearing _ λ o. Ends-pure (on_syn_reply conn_id last' o))
            timeout 0)
          (elim [ none ↦ Ends-raise _ | some b ↦ Ends-pure b ])

  client_send_ack-Ends :
      (conn_id : Bytes) (params : SessionParams)
      → Ends clock (client_send_ack_with_params H conn_id params)
  unfolding client_send_ack_with_params
  client_send_ack-Ends conn_id params =
      Ends-bind _ _ (encode_ack-Ends H C conn_id params) C.write_ends

  generate_connection_id-Ends : Ends clock (generate_connection_id H)
  unfolding generate_connection_id
  generate_connection_id-Ends = Ends-call _ (C.urandom_later conn_id_size)

  pub client_handshake-Ends :
      (timeout interval : ℕ) (params : Option SessionParams)
      → Ends clock (client_handshake H timeout interval params)
  unfolding client_handshake
  client_handshake-Ends timeout interval params =
      Ends-bind (drain_input H) _ (drain_input-Ends H C) λ _.
        Ends-bind (generate_connection_id H) _ generate_connection_id-Ends λ conn_id.
          Ends-bind (client_send_syn_wait_syn_ack H conn_id timeout interval) _
            (client_send_syn-Ends conn_id timeout interval)
            λ _.
              Ends-bind (client_send_ack_with_params H conn_id (or_default params)) _
                (client_send_ack-Ends conn_id (or_default params)) λ _. Ends-pure _

  pub client_shutdown-Ends :
      (conn : Connection) (timeout : ℕ) → Ends clock (client_shutdown H conn timeout)
  unfolding client_shutdown fin_round
  client_shutdown-Ends conn timeout =
      Ends-bind (encode_control H fin conn.connection_id) _ (encode_control-Ends H C fin _) λ msg.
        Ends-bind _ _
          (within-Ends H C (fin_round H conn.connection_id msg)
            (λ last.
              Progress-bind _ _ (retransmit-Ends H C msg _ last)
                λ last'. hearing _ λ o. Ends-pure (on_fin_reply conn.connection_id last' o))
            timeout 0)
          λ found. Ends-pure _

  pub server_shutdown-Ends : (conn : Connection) → Ends clock (server_shutdown H conn)
  unfolding server_shutdown
  server_shutdown-Ends conn = Ends-bind _ _ (encode_control-Ends H C fin_ack _) C.write_ends

  server_wait_for_syn-Ends : (timeout : ℕ) → Ends clock (server_wait_for_syn H timeout)
  unfolding server_wait_for_syn wait_syn_round
  server_wait_for_syn-Ends timeout =
      Ends-bind _ _
        (within-Ends H C (wait_syn_round H) (λ s. hearing _ λ o. Ends-pure (on_syn o)) timeout tt)
        (elim [ none ↦ Ends-raise _ | some b ↦ Ends-pure b ])

  server_wait_ack-Ends :
      (conn_id : Bytes) (timeout interval : ℕ)
      → Ends clock (server_send_syn_ack_wait_ack H conn_id timeout interval)
  unfolding server_send_syn_ack_wait_ack wait_ack_round
  server_wait_ack-Ends conn_id timeout interval =
      Ends-bind (encode_control H syn_ack conn_id) _ (encode_control-Ends H C syn_ack conn_id)
        λ msg.
          Ends-bind _ _
            (within-Ends H C (wait_ack_round H conn_id msg interval)
              (λ last.
                Progress-bind _ _ (retransmit-Ends H C msg interval last)
                  λ last'. hearing _ λ o. Ends-lift _ (on_ack-ne-stuck conn_id last' o))
              timeout 0)
            (elim [ none ↦ Ends-raise _ | some b ↦ Ends-pure b ])

  pub server_handshake-Ends :
      (client_timeout ack_timeout : ℕ) → Ends clock (server_handshake H client_timeout ack_timeout)
  unfolding server_handshake
  server_handshake-Ends client_timeout ack_timeout =
      Ends-bind (drain_input H) _ (drain_input-Ends H C) λ _.
        Ends-bind (server_wait_for_syn H client_timeout) _ (server_wait_for_syn-Ends client_timeout)
          λ conn_id.
            Ends-bind (server_send_syn_ack_wait_ack H conn_id ack_timeout default_syn_interval) _
              (server_wait_ack-Ends conn_id ack_timeout default_syn_interval) λ params. Ends-pure _

  pub wait_for_fin-Ends :
      (conn : Connection) (timeout : ℕ) → Ends clock (wait_for_fin H conn timeout)
  unfolding wait_for_fin wait_fin_round
  wait_for_fin-Ends conn timeout =
      Ends-bind _ _
        (within-Ends H C (wait_fin_round H conn.connection_id)
          (λ s. hearing _ λ o. Ends-pure (on_fin conn.connection_id o)) timeout tt)
        λ found. Ends-pure _

  pub stop_clock-Ends : (s : SessionStats) (start : ℕ) → Ends clock (stop_clock H s start)
  unfolding stop_clock
  stop_clock-Ends s start = search (ends_rules, now-Ends H C)

  pub log_progress-Ends : Ends clock (log_progress H)
  unfolding log_progress
  log_progress-Ends = search ends_rules
