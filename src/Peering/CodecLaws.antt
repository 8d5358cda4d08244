-- ===== src/Peering/CodecLaws.antt =====
-- peering.py: making, parsing and classifying messages, one behind the other.
use serial_testkit.Prelude.{
  ℕ, ◌+◌, ◌^◌, ◌≤◌, ◌<◌, ◌≡◌, ap, sym, ◌∙◌, none, some, ◌++◌, ◌==◌, if◌then◌else◌, length,
  length-append, take, drop, take-append, drop-append, drop-drop, arith, ◌⊎◌, inl, inr, Bool-cases,
}
use serial_testkit.Prelude.Bytes.{Bytes, to_bytes, from_bytes, from_bytes-to_bytes, length-to_bytes}
use serial_testkit.Exec.{ok}
use serial_testkit.Message.{uint32_to_bytes, uint64_to_bytes}
use serial_testkit.Peering.Codec.{
  complete, data_message, peer_init, ignore, peer_init_magic, peer_ack_magic, peer_complete_magic,
  make_peer_init, make_peer_ack, make_peer_complete, make_data_msg, parse_peer_init, parse_peer_ack,
  parse_peer_complete, parse_data_msg, classify_test_message,
}

abbrev tagged : ℕ → Bytes → Bytes
tagged magic rest = to_bytes 8 magic ++ rest

init_layout :
    (timestamp duration : ℕ) (payload : Bytes)
    → make_peer_init timestamp duration ≡ ok payload
    → (payload ≡ tagged peer_init_magic (to_bytes 8 timestamp ++ to_bytes 4 duration))
      × (timestamp < 2 ^ 64)
      × (duration < 2 ^ 32)
unfolding make_peer_init uint64_to_bytes uint32_to_bytes
init_layout timestamp duration payload e = ground arith

ack_layout :
    (test_id : ℕ) (payload : Bytes)
    → make_peer_ack test_id ≡ ok payload
    → (payload ≡ tagged peer_ack_magic (to_bytes 8 test_id)) × (test_id < 2 ^ 64)
unfolding make_peer_ack uint64_to_bytes
ack_layout test_id payload e = ground arith

complete_layout :
    (test_id : ℕ) (payload : Bytes)
    → make_peer_complete test_id ≡ ok payload
    → (payload ≡ tagged peer_complete_magic (to_bytes 8 test_id)) × (test_id < 2 ^ 64)
unfolding make_peer_complete uint64_to_bytes
complete_layout test_id payload e = ground arith

module _ (magic : ℕ) (rest : Bytes) where
  length-tagged : length (tagged magic rest) ≡ 8 + length rest
  length-tagged =
      length-append (to_bytes 8 magic) rest ∙ ap (λ n. n + length rest) (length-to_bytes 8 magic)

  take-tagged : take 8 (tagged magic rest) ≡ to_bytes 8 magic
  take-tagged = take-append 8 (to_bytes 8 magic) rest (length-to_bytes 8 magic)

  drop-tagged : drop 8 (tagged magic rest) ≡ rest
  drop-tagged = drop-append 8 (to_bytes 8 magic) rest (length-to_bytes 8 magic)

tag_of :
    (magic : ℕ) (rest : Bytes) → magic < 2 ^ 64 → from_bytes (take 8 (tagged magic rest)) ≡ magic
tag_of magic rest h = ap from_bytes (take-tagged magic rest) ∙ from_bytes-to_bytes 8 magic h

-- A tag, 8 bytes and 4 bytes.
module _ (magic a b : ℕ) where
  abbrev three : Bytes
  three = tagged magic (to_bytes 8 a ++ to_bytes 4 b)

  length-three : length three ≡ 20
  length-three = omega (
    arith,
    length-tagged magic (to_bytes 8 a ++ to_bytes 4 b),
    length-append (to_bytes 8 a) (to_bytes 4 b),
    length-to_bytes 8 a,
    length-to_bytes 4 b,
  )

  second : a < 2 ^ 64 → from_bytes (take 8 (drop 8 three)) ≡ a
  second h =
      ap (λ t. from_bytes (take 8 t)) (drop-tagged magic (to_bytes 8 a ++ to_bytes 4 b))
      ∙ ap from_bytes (take-append 8 (to_bytes 8 a) (to_bytes 4 b) (length-to_bytes 8 a))
      ∙ from_bytes-to_bytes 8 a h

  third : b < 2 ^ 32 → from_bytes (drop 16 three) ≡ b
  third h =
      ap from_bytes (
        sym (drop-drop 8 8 three)
        ∙ ap (drop 8) (drop-tagged magic (to_bytes 8 a ++ to_bytes 4 b))
        ∙ drop-append 8 (to_bytes 8 a) (to_bytes 4 b) (length-to_bytes 8 a))
      ∙ from_bytes-to_bytes 4 b h

-- A tag and 8 bytes.
module _ (magic a : ℕ) where
  abbrev two : Bytes
  two = tagged magic (to_bytes 8 a)

  length-two : length two ≡ 16
  length-two = omega (arith, length-tagged magic (to_bytes 8 a), length-to_bytes 8 a)

  value_of : a < 2 ^ 64 → from_bytes (drop 8 two) ≡ a
  value_of h = ap from_bytes (drop-tagged magic (to_bytes 8 a)) ∙ from_bytes-to_bytes 8 a h

parse_init-three :
    (t d : ℕ) → t < 2 ^ 64 → d < 2 ^ 32 → parse_peer_init (three peer_init_magic t d) ≡ some (t, d)
unfolding parse_peer_init
parse_init-three t d ht hd = rw (
  length-three peer_init_magic t d,
  tag_of peer_init_magic (to_bytes 8 t ++ to_bytes 4 d) (omega arith),
  second peer_init_magic t d ht,
  third peer_init_magic t d hd,
)

parse_ack-two : (a : ℕ) → a < 2 ^ 64 → parse_peer_ack (two peer_ack_magic a) ≡ some a
unfolding parse_peer_ack
parse_ack-two a h = rw (
  length-two peer_ack_magic a,
  tag_of peer_ack_magic (to_bytes 8 a) (omega arith),
  value_of peer_ack_magic a h,
)

parse_complete-two : (a : ℕ) → a < 2 ^ 64 → parse_peer_complete (two peer_complete_magic a) ≡ some a
unfolding parse_peer_complete
parse_complete-two a h = rw (
  length-two peer_complete_magic a,
  tag_of peer_complete_magic (to_bytes 8 a) (omega arith),
  value_of peer_complete_magic a h,
)

-- A PEER_INIT that was made is parsed to its timestamp and its duration.
pub parse_peer_init-make_peer_init :
    (timestamp duration : ℕ) (payload : Bytes)
    → make_peer_init timestamp duration ≡ ok payload
    → parse_peer_init payload ≡ some (timestamp, duration)
parse_peer_init-make_peer_init timestamp duration payload e =
    let (p, ht, hd) = init_layout timestamp duration payload e in
    rw p (parse_init-three timestamp duration ht hd)

pub parse_peer_ack-make_peer_ack :
    (test_id : ℕ) (payload : Bytes)
    → make_peer_ack test_id ≡ ok payload
    → parse_peer_ack payload ≡ some test_id
parse_peer_ack-make_peer_ack test_id payload e =
    let (p, h) = ack_layout test_id payload e in rw p (parse_ack-two test_id h)

pub parse_peer_complete-make_peer_complete :
    (test_id : ℕ) (payload : Bytes)
    → make_peer_complete test_id ≡ ok payload
    → parse_peer_complete payload ≡ some test_id
parse_peer_complete-make_peer_complete test_id payload e =
    let (p, h) = complete_layout test_id payload e in rw p (parse_complete-two test_id h)

-- No payload is parsed as two of PEER_INIT, PEER_ACK and PEER_COMPLETE.
pub parse_exclusive :
    (payload : Bytes)
    → ((parse_peer_init payload ≡ none) × (parse_peer_ack payload ≡ none))
      ⊎ ((parse_peer_init payload ≡ none) × (parse_peer_complete payload ≡ none))
      ⊎ ((parse_peer_ack payload ≡ none) × (parse_peer_complete payload ≡ none))
unfolding parse_peer_init parse_peer_ack parse_peer_complete
parse_exclusive payload = elim (Bool-cases (length payload == 20)) [
  | inl long ↦ inr (inr (ground arith, ground arith))
  | inr short ↦ elim (Bool-cases (from_bytes (take 8 payload) == peer_ack_magic)) [
    | inl tag ↦ inr (inl (ground arith, ground arith))
    | inr other ↦ inl (ground arith, ground arith)
  ]
]

-- Payloads of 24 bytes and more are no control messages.
long_is_data :
    (payload : Bytes) (test_id : ℕ)
    → 24 ≤ length payload
    → classify_test_message payload test_id
      ≡ (if from_bytes (take 8 payload) == test_id then data_message else ignore)
unfolding classify_test_message parse_peer_complete parse_peer_init parse_peer_ack parse_data_msg
long_is_data payload test_id h = ground arith

data_layout :
    (test_id : ℕ) (random payload : Bytes)
    → make_data_msg test_id random ≡ ok payload
    → (payload ≡ tagged test_id random) × (test_id < 2 ^ 64)
unfolding make_data_msg uint64_to_bytes
data_layout test_id random payload e = ground arith

classify_complete :
    (test_id id : ℕ) (payload : Bytes)
    → make_peer_complete id ≡ ok payload
    → classify_test_message payload test_id ≡ (if id == test_id then complete else ignore)
unfolding classify_test_message
classify_complete test_id id payload e =
    ground (arith, parse_peer_complete-make_peer_complete id payload e)

not_complete :
    (payload : Bytes)
    → (length payload ≡ 20) ⊎ (from_bytes (take 8 payload) ≡ peer_ack_magic)
    → parse_peer_complete payload ≡ none
unfolding parse_peer_complete
not_complete payload h = ground arith

not_init : (payload : Bytes) → length payload ≡ 16 → parse_peer_init payload ≡ none
unfolding parse_peer_init
not_init payload h = ground arith

classify_init :
    (test_id timestamp duration : ℕ) (payload : Bytes)
    → make_peer_init timestamp duration ≡ ok payload
    → classify_test_message payload test_id ≡ peer_init
unfolding classify_test_message
classify_init test_id timestamp duration payload e =
    let (p, _, _) = init_layout timestamp duration payload e in
    let size : length payload ≡ 20 = rw p (length-three peer_init_magic timestamp duration) in
    ground (
      arith,
      parse_peer_init-make_peer_init timestamp duration payload e,
      not_complete payload (inl size),
    )

classify_ack :
    (test_id id : ℕ) (payload : Bytes)
    → make_peer_ack id ≡ ok payload
    → classify_test_message payload test_id ≡ ignore
unfolding classify_test_message
classify_ack test_id id payload e =
    let (p, _) = ack_layout id payload e in
    let size : length payload ≡ 16 = rw p (length-two peer_ack_magic id) in
    let tag : from_bytes (take 8 payload) ≡ peer_ack_magic =
      rw p (tag_of peer_ack_magic (to_bytes 8 id) (omega arith)) in
    ground (
      arith,
      parse_peer_ack-make_peer_ack id payload e,
      not_complete payload (inr tag),
      not_init payload size,
    )

classify_data_msg :
    (test_id id : ℕ) (random payload : Bytes)
    → make_data_msg id random ≡ ok payload
    → 16 ≤ length random
    → classify_test_message payload test_id ≡ (if id == test_id then data_message else ignore)
classify_data_msg test_id id random payload e h =
    let (p, fits) = data_layout id random payload e in
    rw p (
      rw (tag_of id random fits) at
        (long_is_data (tagged id random) test_id (omega (arith, length-tagged id random))))

-- During the test, at the test id `test_id`: a PEER_COMPLETE counts exactly with this id, a
-- PEER_INIT is recognised, a PEER_ACK is ignored, and a data message with a payload of 16 bytes or
-- more, such as `random_payload` makes, is DATA exactly with this id, whatever its id and payload.
pub classify-made :
    (test_id id timestamp duration : ℕ) (random complete_msg init_msg ack_msg data_msg : Bytes)
    → make_peer_complete id ≡ ok complete_msg
    → make_peer_init timestamp duration ≡ ok init_msg
    → make_peer_ack id ≡ ok ack_msg
    → make_data_msg id random ≡ ok data_msg
    → 16 ≤ length random
    → (classify_test_message complete_msg test_id ≡ (if id == test_id then complete else ignore))
      × (classify_test_message init_msg test_id ≡ peer_init)
      × (classify_test_message ack_msg test_id ≡ ignore)
      × (classify_test_message data_msg test_id ≡ (if id == test_id then data_message else ignore))
classify-made test_id id timestamp duration random c i a d ec ei ea ed h = (
  classify_complete test_id id c ec,
  classify_init test_id timestamp duration i ei,
  classify_ack test_id id a ea,
  classify_data_msg test_id id random d ed h,
)
