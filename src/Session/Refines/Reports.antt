-- ===== src/Session/Refines/Reports.antt =====
-- How the rules' endings show in a session's result.
use serial_testkit.Prelude.{
  ℕ, ◌+◌, ◌-◌, ◌≤◌, ◌≡◌, ap, ◌∙◌, true, false, none, some, List, [], ◌∷◌, length, All,
  if◌then◌else◌, arith,
}
use serial_testkit.Prelude.Bytes.{Bytes, bytes_eq_self}
use serial_testkit.Exec.{Result, ok, err, unexpected_message}
use serial_testkit.Protocol.{data_msg}
use serial_testkit.Encoding.{Decoded}
use serial_testkit.Session.Outcome.{SessionStats, SessionResult, SessionError}
use serial_testkit.Session.Rules.{
  Tally, nothing_yet, tally_of, tally, Ending, complete, missing, closed, unexpected, counted,
  effect, rounds,
}

-- A session's result, with one side's error texts for a missing message and for a FIN: a success
-- if all rounds are done, and a failure with its error if not, with the counters of the rules;
-- UnexpectedMessageError leaves no result.
abbrev pub Reports :
    (ℕ → SessionError) → (Tally → SessionError) → Ending × Tally → Result SessionResult → Type 0
Reports timed_out closed_early (complete ms, t) r =
    (x : SessionResult) × (r ≡ ok x)
    × (x.success ≡ true)
    × (x.error ≡ none)
    × (tally_of x.stats ≡ t)
Reports timed_out closed_early (missing i, t) r =
    (x : SessionResult) × (r ≡ ok x)
    × (x.success ≡ false)
    × (x.error ≡ some (timed_out i))
    × (tally_of x.stats ≡ t)
Reports timed_out closed_early (closed, t) r =
    (x : SessionResult) × (r ≡ ok x)
    × (x.success ≡ false)
    × (x.error ≡ some (closed_early t))
    × (tally_of x.stats ≡ t)
Reports timed_out closed_early (unexpected, t) r = r ≡ err unexpected_message

-- A DATA message of the connection.
abbrev pub IsDataOn : Bytes → Decoded → Type 0
IsDataOn conn_id m = (m.msg_type ≡ data_msg) × (m.conn_id ≡ conn_id)

-- The messages with a good CRC, and the bytes of all data.
unfoldable pub good_count : List Decoded → ℕ
good_count [] = 0
good_count (m ∷ ms) = (if m.crc_ok then 1 else 0) + good_count ms

unfoldable pub data_size : List Decoded → ℕ
data_size [] = 0
data_size (m ∷ ms) = length m.content + data_size ms

-- What the counters are behind DATA messages.
unfoldable pub tally_behind : Tally → List Decoded → Tally
tally_behind t ms = record {
  received = t.received + length ms;
  crc_ok = t.crc_ok + good_count ms;
  crc_errors = t.crc_errors + (length ms - good_count ms);
  bytes_received = t.bytes_received + data_size ms;
}

pub good_count-le : (ms : List Decoded) → good_count ms ≤ length ms
unfolding good_count
good_count-le [] = omega arith
good_count-le (m ∷ ms) = ground (arith, good_count-le ms)

effect-counted :
    (conn_id : Bytes) (i : ℕ) (m : Decoded) → IsDataOn conn_id m → effect conn_id i m ≡ counted
effect-counted conn_id i m (t, id) = rw (t, id, bytes_eq_self conn_id)

tally_behind-nil : (t : Tally) → t ≡ tally_behind t []
unfolding tally_behind good_count data_size
tally_behind-nil t = ground arith

tally_behind-tally :
    (t : Tally) (m : Decoded) (ms : List Decoded)
    → tally_behind (tally t m) ms ≡ tally_behind t (m ∷ ms)
unfolding tally_behind good_count data_size
tally_behind-tally t m ms = ground (arith, good_count-le ms)

-- Where every round has a DATA message of the connection, the session completes.
pub rounds-complete :
    (conn_id : Bytes) (ms : List Decoded) (i : ℕ) (t : Tally)
    → All (IsDataOn conn_id) ms
    → rounds conn_id (length ms) i t ms ≡ (complete [], tally_behind t ms)
unfolding rounds
rounds-complete conn_id [] i t h = ap (λ u. (complete [], u)) (tally_behind-nil t)
rounds-complete conn_id (m ∷ ms) i t (h, hs) = rw (effect-counted conn_id i m h) (
    rounds-complete conn_id ms (i + 1) (tally t m) hs
    ∙ ap (λ u. (complete [], u)) (tally_behind-tally t m ms))

-- What `tally_behind` says of each counter.
pub counts_behind :
    (s : SessionStats) (ms : List Decoded)
    → tally_of s ≡ tally_behind nothing_yet ms
    → (s.received ≡ length ms)
      × (s.crc_ok ≡ good_count ms)
      × (s.crc_errors ≡ length ms - good_count ms)
unfolding tally_behind
counts_behind s ms h = (
  ap (λ (a : Tally). a.received) h ∙ omega arith,
  ap (λ (a : Tally). a.crc_ok) h ∙ omega arith,
  ap (λ (a : Tally). a.crc_errors) h ∙ omega arith,
)
