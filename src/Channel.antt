-- ===== src/Channel.antt =====
-- The line as a channel of messages: which bytes carry which messages.
pub mod Receive
pub mod Send
pub mod Hears
pub mod Drops
pub mod Resends
pub mod Listens
use serial_testkit.Prelude.{ℕ, ◌≤◌, ◌≡◌, List, [], ◌∷◌, ◌++◌, ◌==◌, length}
use serial_testkit.Prelude.Bytes.{Bytes, to_bytes, from_bytes}
use serial_testkit.Host.{Host}
use serial_testkit.Message.{uint32_size, sync_magic_bytes, max_resync_bytes}
use serial_testkit.Message.Frames.{StartsAt, frame}
use serial_testkit.Encoding.{Decoded}
use serial_testkit.Encoding.Soundness.{payload_of, HasSize}

-- The frame of the message `m`, with any CRC field, stands at the start of `s`, behind at most 8192
-- bytes in which no magic starts, and `rest` follows it. The flag of `m` tells whether the field is
-- the CRC of the payload.
abbrev pub Stands : {W : Type 0} → Host W → Decoded → Bytes → Bytes → Type 0
Stands H m s rest =
    (k : ℕ) × (crc_bytes : Bytes) × (k ≤ max_resync_bytes)
    × (length crc_bytes ≡ uint32_size)
    × (m.crc_ok ≡ (from_bytes crc_bytes == H.crc32 (payload_of m)))
    × HasSize m
    × StartsAt k s (
        sync_magic_bytes
        ++ (to_bytes uint32_size (length (payload_of m)) ++ (payload_of m ++ (crc_bytes ++ rest))))

-- The messages stand in `s` one behind the other, and `rest` follows them.
abbrev pub Carries : {W : Type 0} → Host W → List Decoded → Bytes → Bytes → Type 0
Carries H [] s rest = s ≡ rest
Carries H (m ∷ ms) s rest = (next : Bytes) × Stands H m s next × Carries H ms next rest

-- The line carries the messages `ms` and then the message `m`, and `rest` follows it.
abbrev pub CarriesThen : {W : Type 0} → Host W → List Decoded → Decoded → Bytes → Bytes → Type 0
CarriesThen H ms m s rest = (middle : Bytes) × Carries H ms s middle × Stands H m middle rest

-- What `encode` writes for the messages.
abbrev pub frames : {W : Type 0} → Host W → List Decoded → Bytes
frames H [] = []
frames H (m ∷ ms) = frame H (payload_of m) ++ frames H ms
