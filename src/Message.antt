-- ===== src/Message.antt =====
-- common/message.py: frames of the form magic, length, payload, CRC-32.
pub mod Resync
pub mod Bounds
pub mod RoundTrip
pub mod Frames
use serial_testkit.Prelude.{
  ℕ, zero, suc, ◌+◌, ◌^◌, Bool, true, false, not, ◌||◌, Option, none, some, List, [], ◌∷◌, ◌++◌,
  ltb, leb, ◌==◌, if◌then◌else◌, length, take, drop,
}
use serial_testkit.Prelude.Bytes.{Bytes, to_bytes, from_bytes, bytes_eq}
use serial_testkit.Exec.{
  Result, ok, err, Exec, overflow_error, pure, out_of_fuel, lift, call, ◌>>=◌,
}
use serial_testkit.Host.{Host}

abbrev pub uint32_size : ℕ
uint32_size = 4

abbrev pub uint64_size : ℕ
uint64_size = 8

abbrev pub sync_magic : ℕ
sync_magic = 0x5E5A1000

-- `SYNC_MAGIC.to_bytes(4, "little")`
abbrev pub sync_magic_bytes : Bytes
sync_magic_bytes = 0x00 ∷ 0x10 ∷ 0x5A ∷ 0x5E ∷ []

abbrev pub max_message_length : ℕ
max_message_length = 4096

abbrev pub max_resync_bytes : ℕ
max_resync_bytes = 8192

abbrev pub min_payload_size : ℕ
min_payload_size = 16

abbrev pub max_payload_size : ℕ
max_payload_size = 256

-- `to_bytes` raises OverflowError for a value that the size cannot hold.
unfoldable pub uint32_to_bytes : ℕ → Result Bytes
uint32_to_bytes value =
    if ltb value (2 ^ 32) then ok (to_bytes uint32_size value) else err overflow_error

abbrev pub uint32_from_bytes : Bytes → ℕ
uint32_from_bytes = from_bytes

unfoldable pub uint64_to_bytes : ℕ → Result Bytes
uint64_to_bytes value =
    if ltb value (2 ^ 64) then ok (to_bytes uint64_size value) else err overflow_error

abbrev pub uint64_from_bytes : Bytes → ℕ
uint64_from_bytes = from_bytes

module _ {W : Type 0} (H : Host W) where
  -- `bytes(random.getrandbits(8) for _ in range(size))`
  unfoldable pub random_bytes : ℕ → Exec W Bytes
  random_bytes zero = pure []
  random_bytes (suc n) = do b ← call (H.getrandbits 8); bs ← random_bytes n; pure (b ∷ bs)

  unfoldable pub random_payload : Exec W Bytes
  random_payload = do size ← call (H.randint min_payload_size max_payload_size); random_bytes size

  unfoldable pub encode : Bytes → Exec W Bytes
  encode payload = do
    len ← lift (uint32_to_bytes (length payload))
    crc ← lift (uint32_to_bytes (H.crc32 payload))
    pure (sync_magic_bytes ++ (len ++ (payload ++ crc)))

  -- The loop over `sync_bytes`; `true` if the magic was found.
  unfoldable pub resync : ℕ → ℕ → Bytes → Exec W Bool
  resync zero bytes_scanned sync_bytes = out_of_fuel
  resync (suc fuel) bytes_scanned sync_bytes =
      if bytes_eq sync_bytes sync_magic_bytes
      then pure true
      else if leb max_resync_bytes bytes_scanned
      then pure false
      else do
        next_byte ← H.read 1
        if ltb (length next_byte) 1
            then pure false
            else resync fuel (bytes_scanned + 1) (drop 1 sync_bytes ++ next_byte)

  unfoldable pub read_frame : Exec W (Option Bytes × Bool)
  read_frame = do
    length_bytes ← H.read uint32_size
    let len = uint32_from_bytes length_bytes
    if ltb (length length_bytes) uint32_size
        then pure (none, false)
        else if ltb max_message_length len
        then pure (none, false)
        else do
          payload ← H.read len
          crc_bytes ← H.read uint32_size
          if ltb (length payload) len || ltb (length crc_bytes) uint32_size
              then pure (none, false)
              else pure (some payload, uint32_from_bytes crc_bytes == H.crc32 payload)

  unfoldable pub decode : Exec W (Option Bytes × Bool)
  decode = do
    sync_bytes ← H.read uint32_size
    if ltb (length sync_bytes) uint32_size then pure (none, false) else do
      found ← resync (max_resync_bytes + 1) 0 sync_bytes
      if found then read_frame else pure (none, false)
