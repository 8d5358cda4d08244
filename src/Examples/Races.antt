-- ===== src/Examples/Races.antt =====
-- Peers on concrete devices, which started at 5 and at 7.
use serial_testkit.Prelude.{
  ℕ, ◌≡◌, ◌⊎◌, refl, true, false, not, none, some, [], ◌∷◌, ◌==◌, length, if◌then◌else◌, arith,
}
use serial_testkit.Prelude.Bytes.{Bytes, to_bytes, from_bytes}
use serial_testkit.Exec.{ok}
use serial_testkit.Message.{uint32_to_bytes, uint64_to_bytes}
use serial_testkit.Timed.{poll, within}
use serial_testkit.Peering.Codec.{
  PeerInfo, make_test_id, make_peer_init, make_peer_ack, parse_peer_init, parse_peer_ack,
}
use serial_testkit.Peering.CodecLaws.{parse_peer_init-make_peer_init}
use serial_testkit.Peering.Establish.{
  PeerDevice, on_ack, on_first_init, on_payload, send_init, establish_round, establish_peer,
}
use serial_testkit.Peering.Agreement.{HearsOnly, establish_peer-agree}
use serial_testkit.Exec.Ends.{Ends}
use serial_testkit.Termination.Races.{IsTimed, establish_peer-Ends}
use serial_testkit.Examples.Line.{Wire, wire_of, read_wire, host, host-HasClock}

-- PEER_INIT of 5 and of 7, and PEER_ACK of 5.
abbrev init_5 : Bytes
init_5 =
    0x01 ∷ 0x00 ∷ 0x17 ∷ 0x14 ∷ 0xA1 ∷ 0x91 ∷ 0x5E ∷ 0 ∷ 5 ∷ 0 ∷ 0 ∷ 0 ∷ 0 ∷ 0 ∷ 0 ∷ 0 ∷ 10 ∷ 0 ∷ 0
    ∷ 0 ∷ []

abbrev init_7 : Bytes
init_7 =
    0x01 ∷ 0x00 ∷ 0x17 ∷ 0x14 ∷ 0xA1 ∷ 0x91 ∷ 0x5E ∷ 0 ∷ 7 ∷ 0 ∷ 0 ∷ 0 ∷ 0 ∷ 0 ∷ 0 ∷ 0 ∷ 20 ∷ 0 ∷ 0
    ∷ 0 ∷ []

abbrev ack_5 : Bytes
ack_5 = 0x02 ∷ 0x00 ∷ 0x17 ∷ 0x14 ∷ 0xA1 ∷ 0x91 ∷ 0x5E ∷ 0 ∷ 5 ∷ 0 ∷ 0 ∷ 0 ∷ 0 ∷ 0 ∷ 0 ∷ 0 ∷ []

-- A device that reads one payload first, and another ever after.
abbrev device : Bytes → Bytes → PeerDevice Wire
device early late = record {
  write_msg = λ msg w. (ok (length msg), w);
  read_msg = λ w. (ok (some (if w.clock == 0 then early else late), true), read_wire 0 w);
  flush_buffers = λ w. (ok tt, w);
}

abbrev start : Wire
start = wire_of []

reads_7 : HearsOnly (device init_7 ack_5) 7 20
unfolding parse_peer_init from_bytes
reads_7 = record { yields = λ w a e. ground arith }

reads_5 : HearsOnly (device init_5 init_5) 5 10
unfolding parse_peer_init from_bytes
reads_5 = record { yields = λ w a e. ground arith }

abbrev early_ts : ℕ
early_ts = 5

abbrev late_ts : ℕ
late_ts = 7

abbrev leader : PeerInfo
leader = record { is_initiator = true; test_id = make_test_id 5; duration = 10; peer_timestamp = 0 }

abbrev follower : PeerInfo
follower = record {
  is_initiator = false;
  test_id = make_test_id 5;
  duration = 10;
  peer_timestamp = 5;
}

leads :
    establish_peer host (device init_7 ack_5) 5 10 100 start
    ≡ (ok (some leader), record { rx = []; clock = 2 })
unfolding establish_peer within poll establish_round send_init on_payload on_first_init on_ack
    make_test_id make_peer_init parse_peer_init parse_peer_ack uint32_to_bytes uint64_to_bytes
    to_bytes from_bytes
leads = refl

follows :
    establish_peer host (device init_5 init_5) 7 20 100 start
    ≡ (ok (some follower), record { rx = []; clock = 1 })
unfolding establish_peer within poll establish_round send_init on_payload on_first_init on_ack
    make_test_id make_peer_init make_peer_ack parse_peer_init parse_peer_ack uint32_to_bytes
    uint64_to_bytes to_bytes from_bytes
follows = refl

establish_peer-agree_example :
    (leader.test_id ≡ follower.test_id)
    × ((leader.is_initiator ≡ not follower.is_initiator) × (leader.duration ≡ follower.duration)
        ⊎ (early_ts ≡ late_ts) × (leader.is_initiator ≡ false) × (follower.is_initiator ≡ false))
establish_peer-agree_example =
    establish_peer-agree host host (device init_7 ack_5) (device init_5 init_5) 5 10 7 20 100 100
      start (record { rx = []; clock = 2 }) start (record { rx = []; clock = 1 }) leader follower
      reads_7 reads_5 leads follows

made_init : make_peer_init 7 20 ≡ ok init_7
unfolding make_peer_init uint32_to_bytes uint64_to_bytes to_bytes
made_init = refl

parse_peer_init-make_peer_init_example : parse_peer_init init_7 ≡ some (7, 20)
parse_peer_init-make_peer_init_example = parse_peer_init-make_peer_init 7 20 init_7 made_init

-- A device that hears nothing, and whose writes take a nanosecond.
abbrev silent : PeerDevice Wire
silent = record {
  write_msg = λ msg w. (ok (length msg), read_wire 0 w);
  read_msg = λ w. (ok (none, false), w);
  flush_buffers = λ w. (ok tt, w);
}

silent-IsTimed : IsTimed silent (λ w. w.clock)
silent-IsTimed = record {
  writes = λ msg. record {
    ends = record { returns = λ w e. cc; later = λ w. omega arith };
    ticks = λ w. omega arith;
  };
  reads = record { returns = λ w e. cc; later = λ w. omega arith };
  flushes = record { returns = λ w e. cc; later = λ w. omega arith };
}

establish_peer-Ends_example : Ends (λ w. w.clock) (establish_peer host silent 5 10 100)
establish_peer-Ends_example = establish_peer-Ends host silent 5 10 host-HasClock silent-IsTimed 100
