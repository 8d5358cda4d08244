-- ===== src/Message/Bounds.antt =====
-- common/message.py: how much of the stream `decode` takes.
use serial_testkit.Prelude.{
  ℕ, zero, suc, ◌+◌, ◌≤◌, ◌≡◌, refl, ap, ◌∙◌, Bool, true, false, ◌||◌, none, some, ◌++◌, ltb, leb,
  ◌==◌, length, drop, drop-drop, if◌then◌else◌, arith,
}
use serial_testkit.Prelude.Bytes.{Bytes, from_bytes, bytes_eq}
use serial_testkit.Exec.{Result, ok, err, stuck, Exec, lift, proceed, ◌>>=◌}
use serial_testkit.Host.{Host}
use serial_testkit.Host.Laws.{IsStream}
use serial_testkit.Message.{
  uint32_size, sync_magic_bytes, max_message_length, max_resync_bytes, resync, read_frame, decode,
}

-- Whatever comes of `m`, at most `k` bytes are taken from the front of what has arrived.
pub record Takes {W A : Type 0} (pending : W → Bytes) (k : ℕ) (m : Exec W A) : Type 0 where
  pub takes : (w : W) → (n : ℕ) × (n ≤ k) × (pending (m w).1 ≡ drop n (pending w))

module _ {W : Type 0} {pending : W → Bytes} where
  Takes-here : {A : Type 0} (k : ℕ) (r : Result A) → Takes pending k (lift r)
  Takes-here k r = record { takes = λ w. (0, omega arith, refl) }

  Takes-more : {A : Type 0} (j k : ℕ) (m : Exec W A) → j ≤ k → Takes pending j m → Takes pending k m
  Takes-more j k m h t = record {
    takes = λ w. let (n, small, e) = t.takes w in (n, omega (arith, h, small), e);
  }

  Takes-bind :
      {A B : Type 0} (j k : ℕ) (m : Exec W A) (f : A → Exec W B)
      → Takes pending j m
      → ((a : A) → Takes pending k (f a))
      → Takes pending (j + k) (m >>= f)
  Takes-bind {A} j k m f hm hf = record { takes = λ w. go (m w).0 w (m w).1 (hm.takes w) }
    where
      go :
          (r : Result A) (w w' : W)
          → (n : ℕ) × (n ≤ j) × (pending w' ≡ drop n (pending w))
          → (n : ℕ) × (n ≤ j + k) × (pending (proceed r f w').1 ≡ drop n (pending w))
      go (ok a) w w' (n, h, e) =
          let (n', h', e') = (hf a).takes w' in
          (n + n', omega (arith, h, h'), e' ∙ ap (drop n') e ∙ drop-drop n' n (pending w))
      go (err x) w w' (n, h, e) = (n, omega (arith, h), e)
      go stuck w w' (n, h, e) = (n, omega (arith, h), e)

  Takes-if :
      {A : Type 0} (k : ℕ) (b : Bool) (m n : Exec W A)
      → Takes pending k m
      → (b ≡ false → Takes pending k n)
      → Takes pending k (if b then m else n)
  Takes-if k true m n hm hn = hm
  Takes-if k false m n hm hn = hn refl

module _ {W : Type 0} (H : Host W) {pending : W → Bytes} (S : IsStream H pending) where
  Takes-read : (n : ℕ) → Takes pending n (H.read n)
  Takes-read n = record { takes = λ w. (n, omega arith, rw (S.reads n w) (S.pending-after n w)) }

  resync-Takes :
      (fuel k bytes_scanned : ℕ) (sync_bytes : Bytes)
      → k + bytes_scanned ≡ 8192
      → Takes pending k (resync H fuel bytes_scanned sync_bytes)
  unfolding resync
  resync-Takes zero k bytes_scanned sync_bytes h = Takes-here k stuck
  resync-Takes (suc fuel) zero bytes_scanned sync_bytes h =
      Takes-if 0 (bytes_eq sync_bytes sync_magic_bytes) _ _ (Takes-here 0 (ok true)) λ _.
        Takes-if 0 (leb max_resync_bytes bytes_scanned) _ _ (Takes-here 0 (ok false))
          λ more. absurd (ground (arith, h, more))
  resync-Takes (suc fuel) (suc k) bytes_scanned sync_bytes h =
      Takes-if (suc k) (bytes_eq sync_bytes sync_magic_bytes) _ _ (Takes-here (suc k) (ok true))
        λ _.
          Takes-if (suc k) (leb max_resync_bytes bytes_scanned) _ _ (Takes-here (suc k) (ok false))
            λ _. Takes-more (1 + k) (suc k) _ (omega arith) (
              Takes-bind 1 k (H.read 1) _ (Takes-read 1) λ next_byte.
                Takes-if k (ltb (length next_byte) 1) _ _ (Takes-here k (ok false)) λ _.
                  resync-Takes fuel k (bytes_scanned + 1) (drop 1 sync_bytes ++ next_byte)
                    (omega (arith, h)))

  in_limit : (len : ℕ) → ltb max_message_length len ≡ false → len ≤ 4096
  in_limit len h = ground arith

  read_frame-Takes : Takes pending 4104 (read_frame H)
  unfolding read_frame
  read_frame-Takes = Takes-bind 4 4100 (H.read uint32_size) _ (Takes-read 4) λ length_bytes.
      let len = from_bytes length_bytes in
      Takes-if 4100 (ltb (length length_bytes) uint32_size) _ _ (Takes-here 4100 (ok (none, false)))
        λ _.
          Takes-if 4100 (ltb max_message_length len) _ _ (Takes-here 4100 (ok (none, false)))
            λ small.
              Takes-bind 4096 4 (H.read len) _
                (Takes-more len 4096 _ (in_limit len small) (Takes-read len))
                λ payload. Takes-bind 4 0 (H.read uint32_size) _ (Takes-read 4) λ crc_bytes.
                  Takes-if 0 (ltb (length payload) len || ltb (length crc_bytes) uint32_size) _ _
                    (Takes-here 0 (ok (none, false)))
                    λ _. Takes-here 0 (ok (some payload, from_bytes crc_bytes == H.crc32 payload))

  -- Whatever has arrived, and whatever comes of it, `decode` takes at most 12300 bytes: 4 for the
  -- magic, 8192 of the scan, 4 for the length, 4096 of the payload and 4 for the CRC.
  pub decode-Takes : Takes pending 12300 (decode H)
  unfolding decode
  decode-Takes = Takes-bind 4 12296 (H.read uint32_size) _ (Takes-read 4) λ sync_bytes.
      Takes-if 12296 (ltb (length sync_bytes) uint32_size) _ _ (Takes-here 12296 (ok (none, false)))
        λ _.
          Takes-bind 8192 4104 (resync H (max_resync_bytes + 1) 0 sync_bytes) _
            (resync-Takes (max_resync_bytes + 1) 8192 0 sync_bytes (omega arith))
            λ found.
              Takes-if 4104 found _ _ read_frame-Takes λ _. Takes-here 4104 (ok (none, false))
