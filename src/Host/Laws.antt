-- ===== src/Host/Laws.antt =====
-- Documented behaviour of what the program relies on, as hypotheses of the theorems.
use serial_testkit.Prelude.{ℕ, ◌≡◌, ◌≢◌, ◌^◌, ◌≤◌, ◌<◌, ◌++◌, length, take, drop}
use serial_testkit.Prelude.Bytes.{Bytes}
use serial_testkit.Exec.{ok}
use serial_testkit.Exec.Ends.{Ends, Ticks}
use serial_testkit.Exec.Does.{Does}
use serial_testkit.Exec.Yields.{Yields}
use serial_testkit.Exec.Raises.{Raises, Never}
use serial_testkit.Host.{Host}

-- A CRC-32 is an unsigned 32-bit number.
pub record IsCrc32 {W : Type 0} (H : Host W) : Type 0 where
  pub crc_range : (bs : Bytes) → H.crc32 bs < 2 ^ 32

-- A port on which the bytes `pending w` have arrived: a read takes the next ones, in order.
pub record IsStream {W : Type 0} (H : Host W) (pending : W → Bytes) : Type 0 where
  pub after : ℕ → W → W
  pub reads : (n : ℕ) (w : W) → H.read n w ≡ (ok (take n (pending w)), after n w)
  pub pending-after : (n : ℕ) (w : W) → pending (after n w) ≡ drop n (pending w)

-- The clock never goes back, `time.monotonic()` reads it, a read of the port takes a nanosecond at
-- least, and every call returns or raises.
pub record HasClock {W : Type 0} (H : Host W) (clock : W → ℕ) : Type 0 where
  pub now_from : (w : W) → clock w ≤ (H.monotonic w).0
  pub now_until : (w : W) → (H.monotonic w).0 ≤ clock (H.monotonic w).1
  pub read_ticks : (n : ℕ) → Ticks clock (H.read n)
  pub write_ends : (bs : Bytes) → Ends clock (H.write bs)
  pub in_waiting_ends : Ends clock H.in_waiting
  pub randint_later : (a b : ℕ) (w : W) → clock w ≤ clock (H.randint a b w).1
  pub getrandbits_later : (k : ℕ) (w : W) → clock w ≤ clock (H.getrandbits k w).1
  pub urandom_later : (n : ℕ) (w : W) → clock w ≤ clock (H.urandom n w).1

-- A port that is not unplugged and takes all that is written: no call raises, and a read returns at
-- most what it was asked for. Random numbers and bytes are as many as were asked for, and
-- SERIAL_LOG_INTERVAL is not 0.
pub record IsCalm {W : Type 0} (H : Host W) : Type 0 where
  pub reads_calm : (n : ℕ) → Raises Never (H.read n)
  pub reads_most : (n : ℕ) → Yields (λ bs. length bs ≤ n) (H.read n)
  pub writes_calm : (bs : Bytes) → Raises Never (H.write bs)
  pub in_waiting_calm : Raises Never H.in_waiting
  pub randint_most : (a b : ℕ) (w : W) → a ≤ b → (H.randint a b w).0 ≤ b
  pub urandom_size : (n : ℕ) (w : W) → length (H.urandom n w).0 ≡ n
  pub log_set : H.log_interval ≢ 0

-- A line, as one side sees it: the bytes that have arrived and the bytes that this side has
-- written. A read takes from the first, a write adds to the second, and both succeed; clock and
-- random numbers leave them alone.
pub record IsLine {W : Type 0} (H : Host W) (pending written : W → Bytes) : Type 0 where
  pub stream : IsStream H pending
  pub written-after : (n : ℕ) (w : W) → written (stream.after n w) ≡ written w
  pub writes :
      (bs : Bytes) (w : W)
      → Does (H.write bs) w λ _ w'. (pending w' ≡ pending w) × (written w' ≡ written w ++ bs)
  pub pending-monotonic : (w : W) → pending (H.monotonic w).1 ≡ pending w
  pub written-monotonic : (w : W) → written (H.monotonic w).1 ≡ written w
  pub pending-randint : (a b : ℕ) (w : W) → pending (H.randint a b w).1 ≡ pending w
  pub written-randint : (a b : ℕ) (w : W) → written (H.randint a b w).1 ≡ written w
  pub pending-getrandbits : (k : ℕ) (w : W) → pending (H.getrandbits k w).1 ≡ pending w
  pub written-getrandbits : (k : ℕ) (w : W) → written (H.getrandbits k w).1 ≡ written w

-- On a line: `in_waiting` counts the bytes that have arrived until now, `waiting w`, which are the
-- next ones to read, and neither it nor a call of `urandom` changes a side of the line.
pub record HasArrivals {W : Type 0} (H : Host W) (pending written : W → Bytes) : Type 0 where
  pub waiting : W → ℕ
  pub counted_here :
      (w : W)
      → Does H.in_waiting w
          λ n w'. (n ≡ waiting w) × (pending w' ≡ pending w) × (written w' ≡ written w)
  pub pending-urandom : (n : ℕ) (w : W) → pending (H.urandom n w).1 ≡ pending w
  pub written-urandom : (n : ℕ) (w : W) → written (H.urandom n w).1 ≡ written w
