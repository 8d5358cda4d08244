-- ===== src/Peering/Establish.antt =====
-- peering.py: `establish_peer`, the race for the role of the initiator.
use serial_testkit.Prelude.{
  ℕ, Bool, true, false, ◌&&◌, Option, none, some, ltb, ◌==◌, if◌then◌else◌,
}
use serial_testkit.Prelude.Bytes.{Bytes}
use serial_testkit.Exec.{Exn, Exec, serial_timeout, pure, lift, attempt, ◌>>=◌, ◌>>◌}
use serial_testkit.Host.{Host}
use serial_testkit.Timed.{Round, again, done, within}
use serial_testkit.Peering.Codec.{
  PeerInfo, make_test_id, make_peer_init, make_peer_ack, parse_peer_init, parse_peer_ack,
}

-- The protocol class of the devices, which have no implementation in the repository.
pub record PeerDevice (W : Type 0) : Type 0 where
  pub write_msg : Bytes → Exec W ℕ
  pub read_msg : Exec W (Option Bytes × Bool)
  pub flush_buffers : Exec W (Unit {0})

-- The variables of the loop.
pub record Race : Type 0 where
  pub peer_timestamp : Option ℕ
  pub is_initiator : Bool
  pub test_id : ℕ

abbrev pub no_peer : Race
no_peer = record { peer_timestamp = none; is_initiator = false; test_id = 0 }

-- `except serial.SerialTimeoutException`
abbrev pub is_serial_timeout : Exn → Bool
is_serial_timeout serial_timeout = true
is_serial_timeout _ = false

-- A PEER_ACK counts for an initiator, with its own test id.
unfoldable pub on_ack : ℕ → Race → Option ℕ → Round Race PeerInfo
on_ack duration s none = again s
on_ack duration s (some ack_test_id) =
    if s.is_initiator && ack_test_id == s.test_id
    then done (record {
      is_initiator = true;
      test_id = s.test_id;
      duration = duration;
      peer_timestamp = 0;
    })
    else again s

module _ {W : Type 0} (H : Host W) (dev : PeerDevice W) (our_timestamp duration : ℕ) where
  -- The first PEER_INIT: the earlier timestamp wins.
  unfoldable pub on_first_init : ℕ → ℕ → Exec W (Round Race PeerInfo)
  on_first_init their_ts their_duration =
      if ltb our_timestamp their_ts
      then pure (
          again (record {
            peer_timestamp = some their_ts;
            is_initiator = true;
            test_id = make_test_id our_timestamp;
          }))
      else (do
        dev.flush_buffers
        msg ← lift (make_peer_ack (make_test_id their_ts))
        dev.write_msg msg
        pure (
            done (record {
              is_initiator = false;
              test_id = make_test_id their_ts;
              duration = their_duration;
              peer_timestamp = their_ts;
            })))

  -- `if peer_init_result is not None and peer_timestamp_ns is None`, and what follows it.
  unfoldable pub on_payload :
      Race → Option (ℕ × ℕ) → Option ℕ → Option ℕ → Exec W (Round Race PeerInfo)
  on_payload s (some (their_ts, their_duration)) none ack = on_first_init their_ts their_duration
  on_payload s _ _ ack = pure (on_ack duration s ack)

  abbrev pub on_read : Race → Option Bytes → Exec W (Round Race PeerInfo)
  on_read s none = pure (again s)
  on_read s (some payload) =
      on_payload s (parse_peer_init payload) s.peer_timestamp (parse_peer_ack payload)

  abbrev pub on_sent : Race → Option ℕ → Exec W (Round Race PeerInfo)
  on_sent s none = pure (again s)
  on_sent s (some _) = do (payload, _) ← dev.read_msg; on_read s payload

  unfoldable pub send_init : Exec W ℕ
  send_init = do msg ← lift (make_peer_init our_timestamp duration); dev.write_msg msg

  unfoldable pub establish_round : Race → Exec W (Round Race PeerInfo)
  establish_round s = do sent ← attempt is_serial_timeout send_init; on_sent s sent

  unfoldable pub establish_peer : ℕ → Exec W (Option PeerInfo)
  establish_peer timeout = within H timeout establish_round no_peer
