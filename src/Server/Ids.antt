-- ===== src/Server/Ids.antt =====
-- server/handshake.py: the connection ids that the server's handshake takes from a SYN.
use serial_testkit.Prelude.{ℕ, ◌≡◌, Bool, Option, none, some, length, arith}
use serial_testkit.Prelude.Bytes.{Bytes}
use serial_testkit.Exec.{ok, attempt, is_decode_error}
use serial_testkit.Exec.Yields.{
  Yields, IfSome, Yields-pure, Yields-lift, Yields-bind, Yields-then, Yields-attempt,
}
use serial_testkit.Host.{Host}
use serial_testkit.Protocol.{conn_id_size, Connection, default_syn_interval}
use serial_testkit.Encoding.{Decoded, parse_message, decode_message}
use serial_testkit.Encoding.Soundness.{parse_message-IsParsed}
use serial_testkit.Message.{decode}
use serial_testkit.SerialIo.{drain_input}
use serial_testkit.Timed.{within}
use serial_testkit.Timed.Returns.{RoundOf, within-Yields}
use serial_testkit.Server.Handshake.{
  on_syn, wait_syn_round, server_wait_for_syn, server_send_syn_ack_wait_ack, server_handshake,
}

abbrev HasId : Decoded → Type 0
HasId m = length m.conn_id ≡ conn_id_size

-- A connection whose id has 4 bytes.
abbrev pub IsSized : Connection → Type 0
IsSized conn = length conn.connection_id ≡ conn_id_size

parse_message-HasId :
    (payload : Option Bytes) (good : Bool) (m : Decoded)
    → parse_message payload good ≡ ok m
    → HasId m
unfolding parse_message
parse_message-HasId none good m e = absurd (cc)
parse_message-HasId (some payload) good m e =
    let (_, l, _) = parse_message-IsParsed payload good m e in l

on_syn-HasId :
    (o : Option Decoded)
    → IfSome HasId o
    → RoundOf (λ (_ : Unit {0}). Unit {0}) (λ id. length id ≡ conn_id_size) (on_syn o)
unfolding on_syn
on_syn-HasId none h = tt
on_syn-HasId (some m) h = ground arith

module _ {W : Type 0} (H : Host W) where
  decode_message-HasId : Yields HasId (decode_message H)
  unfolding decode_message
  decode_message-HasId = Yields-then (decode H) _ λ (payload, good).
      Yields-lift (parse_message payload good) λ m e. parse_message-HasId payload good m e

  wait_syn_round-HasId :
      (s : Unit {0})
      → Unit {0}
      → Yields
          (RoundOf (λ (_ : Unit {0}). Unit {0}) (λ id. length id ≡ conn_id_size))
          (wait_syn_round H s)
  unfolding wait_syn_round
  wait_syn_round-HasId s _ =
      Yields-bind (attempt is_decode_error (decode_message H)) _
        (Yields-attempt is_decode_error (decode_message H) decode_message-HasId)
        λ got h. Yields-pure (on_syn got) (on_syn-HasId got h)

  pub server_wait_for_syn-HasId :
      (timeout : ℕ) → Yields (λ id. length id ≡ conn_id_size) (server_wait_for_syn H timeout)
  unfolding server_wait_for_syn
  server_wait_for_syn-HasId timeout =
      Yields-bind (within H timeout (wait_syn_round H) tt) _
        (within-Yields H (λ _. Unit {0}) (λ id. length id ≡ conn_id_size) (wait_syn_round H)
          wait_syn_round-HasId timeout tt tt)
        (elim [
          | none ↦ λ k. record { yields = λ w a e. absurd (cc) }
          | some id ↦ λ k. Yields-pure id k
        ])

  pub server_handshake-IsSized :
      (client_timeout ack_timeout : ℕ)
      → Yields IsSized (server_handshake H client_timeout ack_timeout)
  unfolding server_handshake
  server_handshake-IsSized client_timeout ack_timeout = Yields-then (drain_input H) _ λ _.
      Yields-bind (server_wait_for_syn H client_timeout) _
        (server_wait_for_syn-HasId client_timeout)
        λ id k.
          Yields-then (server_send_syn_ack_wait_ack H id ack_timeout default_syn_interval) _
            λ params. Yields-pure _ k
