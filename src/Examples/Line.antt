-- ===== src/Examples/Line.antt =====
-- A serial line: what has arrived and was not read, and a clock that goes on with each read.
use serial_testkit.Prelude.{ℕ, ◌+◌, ◌%◌, ◌^◌, ◌<◌, refl, some, [], ◌∷◌, length, take, drop, arith}
use serial_testkit.Prelude.Bytes.{Bytes}
use serial_testkit.Exec.{ok}
use serial_testkit.Host.{Host}
use serial_testkit.Host.Laws.{IsCrc32, IsStream, HasClock}

pub record Wire : Type 0 where
  pub rx : Bytes
  pub clock : ℕ

abbrev pub wire_of : Bytes → Wire
wire_of bytes = record { rx = bytes; clock = 0 }

abbrev pub read_wire : ℕ → Wire → Wire
read_wire n w = record { rx = drop n w.rx; clock = w.clock + 1 }

-- A checksum in place of zlib's.
unfoldable pub checksum : Bytes → ℕ
checksum [] = 0
checksum (b ∷ bs) = (b + checksum bs) % 2 ^ 32

abbrev pub host : Host Wire
host = record {
  read = λ n w. (ok (take n w.rx), read_wire n w);
  write = λ bs w. (ok (some (length bs)), w);
  in_waiting = λ w. (ok 0, w);
  monotonic = λ w. (w.clock, w);
  randint = λ a b w. (a, w);
  getrandbits = λ k w. (7, w);
  urandom = λ n w. (1 ∷ 2 ∷ 3 ∷ 4 ∷ [], w);
  crc32 = checksum;
  log_interval = 100;
}

pub checksum-range : (bs : Bytes) → checksum bs < 2 ^ 32
unfolding checksum
checksum-range [] = omega arith
checksum-range (b ∷ bs) = omega arith

pub host-IsCrc32 : IsCrc32 host
host-IsCrc32 = record { crc_range = checksum-range }

abbrev pub host_stream : IsStream host (λ w. w.rx)
host_stream = record { after = read_wire; reads = λ n w. refl; pending-after = λ n w. refl }

pub host-HasClock : HasClock host (λ w. w.clock)
host-HasClock = record {
  now_from = λ w. omega arith;
  now_until = λ w. omega arith;
  read_ticks = λ n. record {
    ends = record { returns = λ w e. cc; later = λ w. omega arith };
    ticks = λ w. omega arith;
  };
  write_ends = λ bs. record { returns = λ w e. cc; later = λ w. omega arith };
  in_waiting_ends = record { returns = λ w e. cc; later = λ w. omega arith };
  randint_later = λ a b w. omega arith;
  getrandbits_later = λ k w. omega arith;
  urandom_later = λ n w. omega arith;
}

abbrev pub conn_id : Bytes
conn_id = 1 ∷ 2 ∷ 3 ∷ 4 ∷ []

abbrev pub frame_fin_ack : Bytes
frame_fin_ack =
    0x00 ∷ 0x10 ∷ 0x5A ∷ 0x5E ∷ 5 ∷ 0 ∷ 0 ∷ 0 ∷ 0x21 ∷ 1 ∷ 2 ∷ 3 ∷ 4 ∷ 43 ∷ 0 ∷ 0 ∷ 0 ∷ []

abbrev pub frame_data : Bytes
frame_data =
    0x00 ∷ 0x10 ∷ 0x5A ∷ 0x5E ∷ 6 ∷ 0 ∷ 0 ∷ 0 ∷ 0x10 ∷ 1 ∷ 2 ∷ 3 ∷ 4 ∷ 65 ∷ 91 ∷ 0 ∷ 0 ∷ 0 ∷ []

abbrev pub frame_ack : Bytes
frame_ack =
    0x00 ∷ 0x10 ∷ 0x5A ∷ 0x5E ∷ 9 ∷ 0 ∷ 0 ∷ 0 ∷ 3 ∷ 1 ∷ 2 ∷ 3 ∷ 4 ∷ 44 ∷ 1 ∷ 0 ∷ 0 ∷ 58 ∷ 0 ∷ 0 ∷ 0
    ∷ []
