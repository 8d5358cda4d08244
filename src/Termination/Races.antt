-- ===== src/Termination/Races.antt =====
-- peering.py: the end of `establish_peer`.
use serial_testkit.Prelude.{ℕ, ◌≡◌, ◌≢◌, refl, false, Option, none, some, ltb, arith}
use serial_testkit.Prelude.Bytes.{Bytes}
use serial_testkit.Exec.{Exn, Result, ok, err, stuck, serial_timeout, lift, attempt, ◌>>=◌}
use serial_testkit.Exec.Ends.{
  Ends, Ticks, Progress, Ends-pure, Ends-lift, Ends-if, Ends-bind, Ticks-attempt, Progress-of,
  Progress-then,
}
use serial_testkit.Host.{Host}
use serial_testkit.Host.Laws.{HasClock}
use serial_testkit.Message.{uint32_to_bytes, uint64_to_bytes}
use serial_testkit.Timed.{again}
use serial_testkit.Termination.Loops.{within-Ends}
use serial_testkit.Peering.Codec.{
  make_test_id, make_peer_init, make_peer_ack, parse_peer_init, parse_peer_ack,
}
use serial_testkit.Peering.Establish.{
  PeerDevice, Race, no_peer, is_serial_timeout, on_ack, on_first_init, on_payload, on_read, on_sent,
  send_init, establish_round, establish_peer,
}

-- Documented behaviour of a device: a call returns or raises, and a write takes a nanosecond at
-- least, also one that times out.
pub record IsTimed {W : Type 0} (dev : PeerDevice W) (clock : W → ℕ) : Type 0 where
  pub writes : (msg : Bytes) → Ticks clock (dev.write_msg msg)
  pub reads : Ends clock dev.read_msg
  pub flushes : Ends clock dev.flush_buffers

-- A message is made, or its numbers do not fit.
IsMade : Result Bytes → Type 0
IsMade r = (r ≢ stuck) × (r ≢ err serial_timeout)

make_peer_init-IsMade : (timestamp duration : ℕ) → IsMade (make_peer_init timestamp duration)
unfolding IsMade make_peer_init uint64_to_bytes uint32_to_bytes
make_peer_init-IsMade timestamp duration = (λ e. ground arith, λ e. ground arith)

make_peer_ack-IsMade : (test_id : ℕ) → IsMade (make_peer_ack test_id)
unfolding IsMade make_peer_ack uint64_to_bytes
make_peer_ack-IsMade test_id = (λ e. ground arith, λ e. ground arith)

no_timeout :
    (x : Exn) → (Path (Result Bytes) (err x) (err serial_timeout) → ⊥) → is_serial_timeout x ≡ false
no_timeout serial_timeout h = absurd (h refl)
no_timeout _ h = refl

module _ {W : Type 0} (H : Host W) (dev : PeerDevice W) (our_ts duration : ℕ) {clock : W → ℕ}
    (C : HasClock H clock) (T : IsTimed dev clock) where
  sent-Progress :
      (r : Result Bytes)
      → IsMade r
      → Progress clock (attempt is_serial_timeout (lift r >>= dev.write_msg))
  unfolding IsMade
  sent-Progress (ok msg) h =
      Progress-of _ (Ticks-attempt is_serial_timeout (dev.write_msg msg) (T.writes msg))
  sent-Progress (err x) h = record {
    ends = record { returns = λ w e. ground (arith, no_timeout x h.1); later = λ w. omega arith };
    progress = λ w a e. absurd (ground (arith, no_timeout x h.1));
  }
  sent-Progress stuck h = absurd (h.0 refl)

  send_init-Progress : Progress clock (attempt is_serial_timeout (send_init H dev our_ts duration))
  unfolding send_init
  send_init-Progress =
      sent-Progress (make_peer_init our_ts duration) (make_peer_init-IsMade our_ts duration)

  on_first_init-Ends :
      (their_ts their_duration : ℕ)
      → Ends clock (on_first_init H dev our_ts duration their_ts their_duration)
  unfolding on_first_init IsMade
  on_first_init-Ends their_ts their_duration =
      Ends-if (ltb our_ts their_ts) _ _ (λ _. Ends-pure _)
        λ _. Ends-bind dev.flush_buffers _ T.flushes λ _.
          Ends-bind (lift (make_peer_ack (make_test_id their_ts))) _
            (Ends-lift _ (make_peer_ack-IsMade (make_test_id their_ts)).0)
            λ msg. Ends-bind (dev.write_msg msg) _ (T.writes msg).ends λ _. Ends-pure _

  on_payload-Ends :
      (s : Race) (i : Option (ℕ × ℕ)) (p a : Option ℕ)
      → Ends clock (on_payload H dev our_ts duration s i p a)
  unfolding on_payload
  on_payload-Ends s (some (t, d)) none a = on_first_init-Ends t d
  on_payload-Ends s (some (t, d)) (some q) a = Ends-pure (on_ack duration s a)
  on_payload-Ends s none p a = Ends-pure (on_ack duration s a)

  on_read-Ends : (s : Race) (o : Option Bytes) → Ends clock (on_read H dev our_ts duration s o)
  on_read-Ends s none = Ends-pure (again s)
  on_read-Ends s (some payload) =
      on_payload-Ends s (parse_peer_init payload) s.peer_timestamp (parse_peer_ack payload)

  on_sent-Ends : (s : Race) (o : Option ℕ) → Ends clock (on_sent H dev our_ts duration s o)
  on_sent-Ends s none = Ends-pure (again s)
  on_sent-Ends s (some n) = Ends-bind dev.read_msg _ T.reads λ (payload, _). on_read-Ends s payload

  establish_round-Progress : (s : Race) → Progress clock (establish_round H dev our_ts duration s)
  unfolding establish_round
  establish_round-Progress s =
      Progress-then (attempt is_serial_timeout (send_init H dev our_ts duration)) _
        send_init-Progress (on_sent-Ends s)

  -- On a clock that runs and a device whose calls return or raise and whose writes take time, also
  -- those that time out, `establish_peer` returns or raises, whatever it reads, and the clock does
  -- not go back over it.
  pub establish_peer-Ends :
      (timeout : ℕ) → Ends clock (establish_peer H dev our_ts duration timeout)
  unfolding establish_peer
  establish_peer-Ends timeout =
      within-Ends H C (establish_round H dev our_ts duration) establish_round-Progress timeout
        no_peer
