-- ===== src/Peering/Codec.antt =====
-- peering.py: control messages, data messages, and what a received payload is.
use serial_testkit.Prelude.{
  ℕ, ◌+◌, ◌-◌, ◌*◌, ◌%◌, ◌^◌, Bool, true, false, not, Option, none, some, ◌++◌, ltb, ◌==◌,
  if◌then◌else◌, length, take, drop,
}
use serial_testkit.Prelude.Bytes.{Bytes}
use serial_testkit.Exec.{Result, ok}
use serial_testkit.Exec.Fallible.{◌>>=◌}
use serial_testkit.Message.{
  uint32_size, uint64_size, uint32_to_bytes, uint64_to_bytes, uint32_from_bytes, uint64_from_bytes,
}

abbrev pub peer_init_magic : ℕ
peer_init_magic = 0x5E91A1_1417_0001

abbrev pub peer_ack_magic : ℕ
peer_ack_magic = 0x5E91A1_1417_0002

abbrev pub peer_complete_magic : ℕ
peer_complete_magic = 0x5E91A1_1417_0003

pub data MessageResult : Type 0 where
  complete data_message peer_init ignore : MessageResult

pub record PeerInfo : Type 0 where
  pub is_initiator : Bool
  pub test_id : ℕ
  pub duration : ℕ
  pub peer_timestamp : ℕ

-- `hash(n) & 0xFFFFFFFFFFFFFFFF`: CPython hashes a non-negative int modulo 2 ^ 61 - 1.
unfoldable pub make_test_id : ℕ → ℕ
make_test_id timestamp = timestamp % (2 ^ 61 - 1) % 2 ^ 64

unfoldable pub make_peer_init : ℕ → ℕ → Result Bytes
make_peer_init timestamp duration = do
  magic ← uint64_to_bytes peer_init_magic
  ts ← uint64_to_bytes timestamp
  d ← uint32_to_bytes duration
  ok (magic ++ (ts ++ d))

unfoldable pub make_peer_ack : ℕ → Result Bytes
make_peer_ack test_id = do
  magic ← uint64_to_bytes peer_ack_magic
  id ← uint64_to_bytes test_id
  ok (magic ++ id)

unfoldable pub make_peer_complete : ℕ → Result Bytes
make_peer_complete test_id = do
  magic ← uint64_to_bytes peer_complete_magic
  id ← uint64_to_bytes test_id
  ok (magic ++ id)

-- `make_data_msg`, on the random payload that it was given.
unfoldable pub make_data_msg : ℕ → Bytes → Result Bytes
make_data_msg test_id random = do id ← uint64_to_bytes test_id; ok (id ++ random)

abbrev pub peer_init_size : ℕ
peer_init_size = uint64_size * 2 + uint32_size

abbrev pub peer_ack_size : ℕ
peer_ack_size = uint64_size * 2

abbrev pub peer_complete_size : ℕ
peer_complete_size = uint64_size * 2

unfoldable pub parse_peer_init : Bytes → Option (ℕ × ℕ)
parse_peer_init payload =
    if not (length payload == peer_init_size)
    then none
    else if not (uint64_from_bytes (take uint64_size payload) == peer_init_magic)
    then none
    else some (
      uint64_from_bytes (take uint64_size (drop uint64_size payload)),
      uint32_from_bytes (drop (uint64_size * 2) payload),
    )

unfoldable pub parse_peer_ack : Bytes → Option ℕ
parse_peer_ack payload =
    if not (length payload == peer_ack_size)
    then none
    else if not (uint64_from_bytes (take uint64_size payload) == peer_ack_magic)
    then none
    else some (uint64_from_bytes (drop uint64_size payload))

unfoldable pub parse_peer_complete : Bytes → Option ℕ
parse_peer_complete payload =
    if not (length payload == peer_complete_size)
    then none
    else if not (uint64_from_bytes (take uint64_size payload) == peer_complete_magic)
    then none
    else some (uint64_from_bytes (drop uint64_size payload))

unfoldable pub parse_data_msg : Bytes → ℕ → Option Bytes × Bool
parse_data_msg payload expected_test_id =
    if ltb (length payload) uint64_size then (none, false) else (
      some (drop uint64_size payload),
      uint64_from_bytes (take uint64_size payload) == expected_test_id,
    )

-- The data message is what is left behind the control messages.
abbrev pub classify_data : Option Bytes × Bool → MessageResult
classify_data (none, matches) = ignore
classify_data (some content, true) = data_message
classify_data (some content, false) = ignore

abbrev pub classify_rest : Option (ℕ × ℕ) → Option ℕ → Option Bytes × Bool → MessageResult
classify_rest (some _) peer_ack parsed = peer_init
classify_rest none (some _) parsed = ignore
classify_rest none none parsed = classify_data parsed

unfoldable pub classify_test_message : Bytes → ℕ → MessageResult
classify_test_message payload test_id = elim (parse_peer_complete payload) [
  | some complete_test_id ↦ if complete_test_id == test_id then complete else ignore
  | none ↦
      classify_rest (parse_peer_init payload) (parse_peer_ack payload)
        (parse_data_msg payload test_id)
]
