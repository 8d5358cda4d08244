-- ===== src/Host.antt =====
-- What the program uses and does not implement: the serial port (`SerialPort` of
-- common/protocol.py, implemented by pyserial), the clock, the random sources and zlib.
pub mod Laws
use serial_testkit.Prelude.{ℕ, Option}
use serial_testkit.Prelude.Bytes.{Bytes}
use serial_testkit.Exec.{Exec}

pub record Host (W : Type 0) : Type 0 where
  -- port.read(size): at most `size` bytes, fewer after the port's read timeout
  pub read : ℕ → Exec W Bytes
  -- port.write(data): the number of bytes written, or None
  pub write : Bytes → Exec W (Option ℕ)
  pub in_waiting : Exec W ℕ
  -- time.monotonic(), in nanoseconds
  pub monotonic : W → ℕ × W
  pub randint : ℕ → ℕ → W → ℕ × W
  pub getrandbits : ℕ → W → ℕ × W
  pub urandom : ℕ → W → Bytes × W
  -- zlib.crc32
  pub crc32 : Bytes → ℕ
  -- LOG_PROGRESS_INTERVAL, from the environment variable SERIAL_LOG_INTERVAL
  pub log_interval : ℕ
