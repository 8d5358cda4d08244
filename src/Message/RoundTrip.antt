-- ===== src/Message/RoundTrip.antt =====
-- common/message.py: `encode` and `decode`, one behind the other, on a port whose bytes have
-- arrived.
use serial_testkit.Prelude.{
  ℕ, ◌+◌, ◌≤◌, ◌≡◌, refl, ap, sym, ◌∙◌, Bool, true, some, [], ◌∷◌, ◌++◌, le→ltb_false, ◌==◌, ==_iff,
  ==-self, length, take, drop, take-append, drop-append, take-append-drop, length-take,
  append_assoc, All, All-take, All-drop, arith,
}
use serial_testkit.Prelude.Bytes.{
  Bytes, IsByte, to_bytes, from_bytes, from_bytes-to_bytes, to_bytes-from_bytes, length-to_bytes,
}
use serial_testkit.Exec.{ok}
use serial_testkit.Host.{Host}
use serial_testkit.Host.Laws.{IsCrc32, IsStream}
use serial_testkit.Message.{
  uint32_size, sync_magic_bytes, max_message_length, max_resync_bytes, resync, read_frame, encode,
  decode,
}
use serial_testkit.Message.Frames.{
  body, frame, encode-frame, StartsAt, StartsAt-length, StartsAt-drop, StartsAt-eq,
}
use serial_testkit.Message.Resync.{resync_finds, resync_sound}

pub four : (s : Bytes) → 4 ≤ length s → (a b c d : ℕ) × (t : Bytes) × (s ≡ a ∷ b ∷ c ∷ d ∷ t)
four (a ∷ b ∷ c ∷ d ∷ t) h = (a, b, c, d, t, refl)
four _ h = absurd (omega arith)

module _ {W : Type 0} (H : Host W) {pending : W → Bytes} (S : IsStream H pending) where
  abbrev pub past_frame : ℕ → W → W
  past_frame len w = S.after 4 (S.after len (S.after 4 w))

  -- The length field, the payload and the CRC are read one behind the other.
  pub read_frame_parts :
      (len_bytes payload crc_bytes rest : Bytes) (w : W)
      → pending w ≡ len_bytes ++ (payload ++ (crc_bytes ++ rest))
      → length len_bytes ≡ 4
      → from_bytes len_bytes ≡ length payload
      → length crc_bytes ≡ 4
      → length payload ≤ max_message_length
      → (read_frame H w ≡ (
        ok (some payload, from_bytes crc_bytes == H.crc32 payload),
        past_frame (length payload) w,
      ))
        × (pending (past_frame (length payload) w) ≡ rest)
  unfolding read_frame
  read_frame_parts L P C rest w p hL eL hC fits =
      let n = length P in
      let p₁ : pending (S.after 4 w) ≡ P ++ (C ++ rest) =
        S.pending-after 4 w ∙ ap (drop 4) p ∙ drop-append 4 L (P ++ (C ++ rest)) hL in
      let p₂ : pending (S.after n (S.after 4 w)) ≡ C ++ rest =
        S.pending-after n (S.after 4 w) ∙ ap (drop n) p₁ ∙ drop-append n P (C ++ rest) refl in
      let r₀ : take 4 (pending w) ≡ L = ap (take 4) p ∙ take-append 4 L _ hL in
      let r₁ : take n (pending (S.after 4 w)) ≡ P = ap (take n) p₁ ∙ take-append n P _ refl in
      let r₂ : take 4 (pending (S.after n (S.after 4 w))) ≡ C =
        ap (take 4) p₂ ∙ take-append 4 C rest hC in
      (
        rw (
          S.reads 4 w,
          r₀,
          hL,
          eL,
          le→ltb_false max_message_length n fits,
          S.reads n (S.after 4 w),
          r₁,
          S.reads 4 (S.after n (S.after 4 w)),
          r₂,
          hC,
          le→ltb_false n n (omega arith),
        ),
        S.pending-after 4 _ ∙ ap (drop 4) p₂ ∙ drop-append 4 C rest hC,
      )

  -- Behind a magic, the rest of a frame is read whole, and its CRC is found right.
  read_frame-body :
      (payload rest : Bytes) (w : W)
      → IsCrc32 H
      → length payload ≤ max_message_length
      → pending w ≡ body H payload ++ rest
      → (read_frame H w ≡ (ok (some payload, true), past_frame (length payload) w))
        × (pending (past_frame (length payload) w) ≡ rest)
  read_frame-body payload rest w c fits p =
      let L = to_bytes 4 (length payload) in
      let C = to_bytes 4 (H.crc32 payload) in
      let crc : from_bytes C ≡ H.crc32 payload =
        from_bytes-to_bytes 4 (H.crc32 payload) (c.crc_range payload) in
      let len : from_bytes L ≡ length payload =
        from_bytes-to_bytes 4 (length payload) (omega arith) in
      let (r, q) =
        read_frame_parts L payload C rest w
          (p ∙ append_assoc L (payload ++ C) rest ∙ ap (λ t. L ++ t) (append_assoc payload C rest))
          (length-to_bytes 4 _) len (length-to_bytes 4 _) fits in
      (rw (crc, ==-self (H.crc32 payload)) at r, q)

  pub decode_found :
      (a b c d : ℕ) (t : Bytes) (w : W) {w₁ : W}
      → pending w ≡ a ∷ b ∷ c ∷ d ∷ t
      → resync H (max_resync_bytes + 1) 0 (a ∷ b ∷ c ∷ d ∷ []) (S.after 4 w) ≡ (ok true, w₁)
      → decode H w ≡ read_frame H w₁
  unfolding decode
  decode_found a b c d t w p found = rw (S.reads 4 w, p, found)

  -- What `encode` wrote is decoded, with its CRC right, from a stream that starts with at most
  -- 8192 bytes of anything else in which no magic starts; what follows it is left in the stream.
  pub decode-encode :
      (payload wire rest : Bytes) (k : ℕ) (v w : W)
      → IsCrc32 H
      → length payload ≤ max_message_length
      → encode H payload v ≡ (ok wire, v)
      → k ≤ max_resync_bytes
      → StartsAt k (pending w) (wire ++ rest)
      → (w' : W) × (decode H w ≡ (ok (some payload, true), w')) × (pending w' ≡ rest)
  decode-encode payload wire rest k v w c fits enc hk at =
      let e : wire ≡ frame H payload = cc (enc, encode-frame H payload v c (omega arith)) in
      let at' : StartsAt k (pending w) (sync_magic_bytes ++ (body H payload ++ rest)) =
        rw e at at in
      let (a₀, a₁, a₂, a₃, t, p) = four (pending w) (omega (arith, StartsAt-length k _ _ at')) in
      let q : pending (S.after 4 w) ≡ t = S.pending-after 4 w ∙ ap (drop 4) p in
      let (w₁, found, p₁) =
        resync_finds H S k (max_resync_bytes + 1) 0 a₀ a₁ a₂ a₃ (S.after 4 w)
          (body H payload ++ rest) (omega arith) (omega arith) (rw q (rw p at at')) in
      let (r, left) = read_frame-body payload rest w₁ c fits p₁ in
      (past_frame (length payload) w₁, decode_found a₀ a₁ a₂ a₃ t w p found ∙ r, left)

  -- What the tests of `read_frame` have found when it returns a payload.
  read_frame_tests :
      (payload : Bytes) (good : Bool) (n : ℕ) (w w' : W)
      → n ≡ from_bytes (take 4 (pending w))
      → read_frame H w ≡ (ok (some payload, good), w')
      → (4 ≤ length (take 4 (pending w)))
        × (n ≤ max_message_length)
        × (payload ≡ take n (pending (S.after 4 w)))
        × (n ≤ length payload)
        × (4 ≤ length (take 4 (pending (S.after n (S.after 4 w)))))
        × (good ≡ (from_bytes (take 4 (pending (S.after n (S.after 4 w)))) == H.crc32 payload))
        × (w' ≡ past_frame n w)
  unfolding read_frame
  read_frame_tests payload good n w w' hn e =
      ground (arith, S.reads 4 w, S.reads n (S.after 4 w), S.reads 4 (S.after n (S.after 4 w)))

  cut : (n : ℕ) (w : W) → pending w ≡ take n (pending w) ++ pending (S.after n w)
  cut n w =
      sym (take-append-drop n (pending w))
      ∙ ap (λ t. take n (pending w) ++ t) (sym (S.pending-after n w))

  IsByte-after : (n : ℕ) (w : W) → All IsByte (pending w) → All IsByte (pending (S.after n w))
  IsByte-after n w h = rw (S.pending-after n w) (All-drop IsByte n (pending w) h)

  -- Four bytes that were read are the four bytes of their number.
  field_bytes :
      (v : ℕ) (w : W)
      → All IsByte (pending w)
      → 4 ≤ length (take 4 (pending w))
      → from_bytes (take 4 (pending w)) ≡ v
      → take 4 (pending w) ≡ to_bytes uint32_size v
  field_bytes v w bytes h e =
      sym (
        to_bytes-from_bytes 4 (take 4 (pending w)) (omega (arith, length-take 4 (pending w)))
          (All-take IsByte 4 (pending w) bytes))
      ∙ ap (to_bytes 4) e

  -- A payload with its CRC found right comes only from a whole frame, the one that `encode` writes
  -- for it, and it has at most 4096 bytes.
  read_frame_sound :
      (payload : Bytes) (w w' : W)
      → All IsByte (pending w)
      → read_frame H w ≡ (ok (some payload, true), w')
      → (length payload ≤ max_message_length) × (pending w ≡ body H payload ++ pending w')
  read_frame_sound payload w w' bytes e =
      let n = from_bytes (take 4 (pending w)) in
      let w₁ = S.after 4 w in
      let w₂ = S.after n w₁ in
      let (h4, small, p, enough, h4', good, last) = read_frame_tests payload true n w w' refl e in
      let size : n ≡ length payload = omega (arith, ap length p, length-take n (pending w₁)) in
      let crc : from_bytes (take 4 (pending w₂)) ≡ H.crc32 payload =
        (==_iff _ (H.crc32 payload)).0 (sym good) in
      let bytes₂ = IsByte-after n w₁ (IsByte-after 4 w bytes) in
      (
        omega arith,
        cc (
          cut 4 w,
          cut n w₁,
          cut 4 w₂,
          field_bytes (length payload) w bytes h4 size,
          field_bytes (H.crc32 payload) w₂ bytes₂ h4' crc,
          p,
          last,
          append_assoc (to_bytes 4 (length payload)) (payload ++ to_bytes 4 (H.crc32 payload))
              (pending w'),
          append_assoc payload (to_bytes 4 (H.crc32 payload)) (pending w'),
        ),
      )

  decode_looks :
      (payload : Bytes) (good : Bool) (w w' : W)
      → decode H w ≡ (ok (some payload, good), w')
      → 4 ≤ length (take 4 (pending w))
  unfolding decode
  decode_looks payload good w w' e = ground (arith, S.reads 4 w)

  decode_scans :
      (payload : Bytes) (good : Bool) (a b c d : ℕ) (t : Bytes) (w w' : W)
      → pending w ≡ a ∷ b ∷ c ∷ d ∷ t
      → decode H w ≡ (ok (some payload, good), w')
      → (w₁ : W) × (resync H (max_resync_bytes + 1) 0 (a ∷ b ∷ c ∷ d ∷ []) (S.after 4 w)
          ≡ (ok true, w₁))
        × (read_frame H w₁ ≡ (ok (some payload, good), w'))
  unfolding decode
  decode_scans payload good a b c d t w w' p e = (
    (resync H (max_resync_bytes + 1) 0 (a ∷ b ∷ c ∷ d ∷ []) (S.after 4 w)).1,
    ground (arith, S.reads 4 w),
    ground (arith, S.reads 4 w),
  )

  -- From the magic that was found to the frame.
  frame_found :
      (payload : Bytes) (k : ℕ) (v w w₁ w' : W)
      → IsCrc32 H
      → All IsByte (pending w)
      → StartsAt k (pending w) (sync_magic_bytes ++ pending w₁)
      → read_frame H w₁ ≡ (ok (some payload, true), w')
      → (length payload ≤ max_message_length)
        × (encode H payload v ≡ (ok (frame H payload), v))
        × StartsAt k (pending w) (frame H payload ++ pending w')
  frame_found payload k v w w₁ w' c bytes at r =
      let tail : All IsByte (sync_magic_bytes ++ pending w₁) =
        rw (StartsAt-drop k _ _ at) at (All-drop IsByte k (pending w) bytes) in
      let (small, whole) = read_frame_sound payload w₁ w' tail.1.1.1.1 r in
      (
        small,
        encode-frame H payload v c (omega arith),
        StartsAt-eq k refl (ap (λ s. sync_magic_bytes ++ s) whole) at,
      )

  -- A payload that `decode` returns with its CRC right has at most 4096 bytes, and its frame, as
  -- `encode` writes it, stood in the stream behind at most 8192 bytes in which no magic starts; the
  -- stream goes on behind that frame.
  pub decode_sound :
      (payload : Bytes) (v w w' : W)
      → IsCrc32 H
      → All IsByte (pending w)
      → decode H w ≡ (ok (some payload, true), w')
      → (length payload ≤ max_message_length)
        × ((k : ℕ) × (wire : Bytes) × (k ≤ max_resync_bytes)
            × (encode H payload v ≡ (ok wire, v))
            × StartsAt k (pending w) (wire ++ pending w'))
  decode_sound payload v w w' c bytes e =
      let (a₀, a₁, a₂, a₃, t, p) =
        four (pending w)
          (omega (arith, decode_looks payload true w w' e, length-take 4 (pending w))) in
      let (w₁, found, r) = decode_scans payload true a₀ a₁ a₂ a₃ t w w' p e in
      let (k, hk, at) =
        resync_sound H S (max_resync_bytes + 1) 0 a₀ a₁ a₂ a₃ (S.after 4 w) w₁ (omega arith)
          found in
      let q : a₀ ∷ a₁ ∷ a₂ ∷ a₃ ∷ pending (S.after 4 w) ≡ pending w =
        ap (λ u. a₀ ∷ a₁ ∷ a₂ ∷ a₃ ∷ u) (S.pending-after 4 w ∙ ap (drop 4) p) ∙ sym p in
      let (small, enc, at') = frame_found payload k v w w₁ w' c bytes (StartsAt-eq k q refl at) r in
      (small, (k, frame H payload, omega arith, enc, at'))
