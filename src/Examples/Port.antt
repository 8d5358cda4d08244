-- ===== src/Examples/Port.antt =====
-- A serial port: what has arrived and was not read, what was written, a clock that goes on with each
-- read, and a count of the bytes that are in the buffer already.
use serial_testkit.Prelude.{
  ℕ, ◌+◌, ◌-◌, ◌≤◌, ◌≡◌, refl, some, [], ◌∷◌, ◌++◌, length, take, drop, zero, suc, ap, arith,
}
use serial_testkit.Prelude.Bytes.{Bytes}
use serial_testkit.Exec.{ok}
use serial_testkit.Host.{Host}
use serial_testkit.Host.Laws.{IsCalm, IsCrc32, IsLine, HasClock, HasArrivals}
use serial_testkit.Examples.Line.{checksum, checksum-range}

pub record Port : Type 0 where
  pub rx : Bytes
  pub tx : Bytes
  pub clock : ℕ
  -- as many of the next bytes have arrived already
  pub stale : ℕ

abbrev pub port_of : Bytes → Port
port_of bytes = record { rx = bytes; tx = []; clock = 0; stale = 0 }

abbrev pub read_port : ℕ → Port → Port
read_port n w = record w { rx = drop n w.rx; clock = w.clock + 1; stale = w.stale - n }

abbrev ones : ℕ → Bytes
ones zero = []
ones (suc n) = 1 ∷ ones n

abbrev pub port_host : Host Port
port_host = record {
  read = λ n w. (ok (take n w.rx), read_port n w);
  write = λ bs w. (ok (some (length bs)), record w { tx = w.tx ++ bs });
  in_waiting = λ w. (ok w.stale, w);
  monotonic = λ w. (w.clock, w);
  randint = λ a b w. (a, w);
  getrandbits = λ k w. (7, w);
  urandom = λ n w. (ones n, w);
  crc32 = checksum;
  log_interval = 100;
}

pub port-IsCrc32 : IsCrc32 port_host
port-IsCrc32 = record { crc_range = checksum-range }

pub port-HasClock : HasClock port_host (λ w. w.clock)
port-HasClock = record {
  now_from = λ w. omega arith;
  now_until = λ w. omega arith;
  read_ticks = λ n. record {
    ends = record { returns = λ w e. cc; later = λ w. omega arith };
    ticks = λ w. omega arith;
  };
  write_ends = λ bs. record { returns = λ w e. cc; later = λ w. omega arith };
  in_waiting_ends = record { returns = λ w e. cc; later = λ w. omega arith };
  randint_later = λ a b w. omega arith;
  getrandbits_later = λ k w. omega arith;
  urandom_later = λ n w. omega arith;
}

pub port-IsLine : IsLine port_host (λ w. w.rx) (λ w. w.tx)
port-IsLine = record {
  stream = record { after = read_port; reads = λ n w. refl; pending-after = λ n w. refl };
  written-after = λ n w. refl;
  writes = λ bs w. record {
    value = some (length bs);
    next = record w { tx = w.tx ++ bs };
    runs = refl;
    holds = (refl, refl);
  };
  pending-monotonic = λ w. refl;
  written-monotonic = λ w. refl;
  pending-randint = λ a b w. refl;
  written-randint = λ a b w. refl;
  pending-getrandbits = λ k w. refl;
  written-getrandbits = λ k w. refl;
}

abbrev pub port_arrivals : HasArrivals port_host (λ w. w.rx) (λ w. w.tx)
port_arrivals = record {
  waiting = λ w. w.stale;
  counted_here = λ w. record { value = w.stale; next = w; runs = refl; holds = (refl, refl, refl) };
  pending-urandom = λ n w. refl;
  written-urandom = λ n w. refl;
}

take_most : (n : ℕ) (bs : Bytes) → length (take n bs) ≤ n
take_most zero bs = omega arith
take_most (suc n) [] = omega arith
take_most (suc n) (b ∷ bs) = omega (arith, take_most n bs)

ones_size : (n : ℕ) → length (ones n) ≡ n
ones_size zero = refl
ones_size (suc n) = ap suc (ones_size n)

reads_at_most : (n : ℕ) (w : Port) (bs : Bytes) → (port_host.read n w).0 ≡ ok bs → length bs ≤ n
reads_at_most n w bs e = let same : take n w.rx ≡ bs = cc e in rw (← same) (take_most n w.rx)

pub port-IsCalm : IsCalm port_host
port-IsCalm = record {
  reads_calm = λ n. record { raises = λ w x e. absurd (cc) };
  reads_most = λ n. record { yields = λ w bs e. reads_at_most n w bs e };
  writes_calm = λ bs. record { raises = λ w x e. absurd (cc) };
  in_waiting_calm = record { raises = λ w x e. absurd (cc) };
  randint_most = λ a b w h. h;
  urandom_size = λ n w. ones_size n;
  log_set = λ e. absurd (omega arith);
}
