-- ===== src/Message/Frames.antt =====
-- The layout of a frame, and where the first one stands in a stream of bytes.
use serial_testkit.Prelude.{
  ℕ, zero, suc, ◌+◌, ◌^◌, ◌<◌, ◌≡◌, ◌≢◌, ap, [], ◌∷◌, ◌++◌, lt→ltb, length, take, drop, arith,
}
use mathlib.Core.Path.{subst₂}
use serial_testkit.Prelude.Bytes.{Bytes, to_bytes}
use serial_testkit.Exec.{ok}
use serial_testkit.Host.{Host}
use serial_testkit.Host.Laws.{IsCrc32}
use serial_testkit.Message.{uint32_size, sync_magic_bytes, uint32_to_bytes, encode}

-- length, payload, CRC-32
abbrev pub body : {W : Type 0} → Host W → Bytes → Bytes
body H payload =
    to_bytes uint32_size (length payload) ++ (payload ++ to_bytes uint32_size (H.crc32 payload))

abbrev pub frame : {W : Type 0} → Host W → Bytes → Bytes
frame H payload = sync_magic_bytes ++ body H payload

-- `target` is `s` without its first `k` bytes, and no magic starts at one of these.
abbrev pub StartsAt : ℕ → Bytes → Bytes → Type 0
StartsAt zero s target = s ≡ target
StartsAt (suc k) [] target = ⊥
StartsAt (suc k) (x ∷ s) target = (take 4 (x ∷ s) ≢ sync_magic_bytes) × StartsAt k s target

pub StartsAt-length :
    (k : ℕ) (s target : Bytes) → StartsAt k s target → length s ≡ k + length target
StartsAt-length zero s target h = omega (arith, ap length h)
StartsAt-length (suc k) [] target h = absurd h
StartsAt-length (suc k) (x ∷ s) target (_, h) = omega (arith, StartsAt-length k s target h)

pub StartsAt-drop : (k : ℕ) (s target : Bytes) → StartsAt k s target → drop k s ≡ target
StartsAt-drop zero s target h = h
StartsAt-drop (suc k) [] target h = absurd h
StartsAt-drop (suc k) (x ∷ s) target (_, h) = StartsAt-drop k s target h

pub StartsAt-eq : (k : ℕ) {s s' t t' : Bytes} → s ≡ s' → t ≡ t' → StartsAt k s t → StartsAt k s' t'
StartsAt-eq k e f h = subst₂ (StartsAt k) e f h

pub uint32_to_bytes-eq : (v : ℕ) → v < 2 ^ 32 → uint32_to_bytes v ≡ ok (to_bytes uint32_size v)
unfolding uint32_to_bytes
uint32_to_bytes-eq v h = rw (lt→ltb v (2 ^ 32) h)

-- A payload shorter than 2 ^ 32 bytes is encoded as its frame.
pub encode-frame :
    {W : Type 0} (H : Host W) (payload : Bytes) (w : W)
    → IsCrc32 H
    → length payload < 2 ^ 32
    → encode H payload w ≡ (ok (frame H payload), w)
unfolding encode
encode-frame H payload w c h =
    rw (uint32_to_bytes-eq (length payload) h, uint32_to_bytes-eq _ (c.crc_range payload))
