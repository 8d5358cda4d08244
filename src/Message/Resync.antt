-- ===== src/Message/Resync.antt =====
-- The resynchronising loop of `decode`, on a port whose bytes have arrived.
use serial_testkit.Prelude.{
  ℕ, zero, suc, ◌+◌, ◌≤◌, ◌<◌, ◌≡◌, ◌≢◌, refl, ap, sym, ◌∙◌, true, false, [], ◌∷◌, ◌++◌, leb,
  lt→leb_false, leb→le, leb_false→lt, take, drop, inl, inr, Bool-cases, arith,
}
use serial_testkit.Prelude.Bytes.{Bytes, bytes_eq, bytes_eq→eq, bytes_eq_self, ne→bytes_eq_false}
use serial_testkit.Exec.{ok}
use serial_testkit.Host.{Host}
use serial_testkit.Host.Laws.{IsStream}
use serial_testkit.Message.{sync_magic_bytes, max_resync_bytes, resync}
use serial_testkit.Message.Frames.{StartsAt, StartsAt-length}

-- A fourth byte follows three if a magic starts among them.
nonempty :
    (k b c d : ℕ) (s rest : Bytes)
    → StartsAt k (b ∷ c ∷ d ∷ s) (sync_magic_bytes ++ rest)
    → (y : ℕ) × (ys : Bytes) × (s ≡ y ∷ ys)
nonempty k b c d [] rest at =
    absurd (omega (arith, StartsAt-length k (b ∷ c ∷ d ∷ []) (sync_magic_bytes ++ rest) at))
nonempty k b c d (y ∷ ys) rest at = (y, ys, refl)

bytes_ne : (xs ys : Bytes) → bytes_eq xs ys ≡ false → xs ≢ ys
bytes_ne xs ys h e = cc (bytes_eq_self ys, rw e at h)

module _ {W : Type 0} (H : Host W) {pending : W → Bytes} (S : IsStream H pending) where
  -- Behind a stop at the magic nothing more is read.
  resync_hit :
      (fuel scanned : ℕ) (w : W) → resync H (suc fuel) scanned sync_magic_bytes w ≡ (ok true, w)
  unfolding resync
  resync_hit fuel scanned w = rw (bytes_eq_self sync_magic_bytes)

  -- Off the magic, one byte is taken in.
  resync_miss :
      (fuel scanned a b c d y : ℕ) (ys : Bytes) (w : W)
      → a ∷ b ∷ c ∷ d ∷ [] ≢ sync_magic_bytes
      → scanned < max_resync_bytes
      → pending w ≡ y ∷ ys
      → resync H (suc fuel) scanned (a ∷ b ∷ c ∷ d ∷ []) w
        ≡ resync H fuel (scanned + 1) (b ∷ c ∷ d ∷ y ∷ []) (S.after 1 w)
  unfolding resync
  resync_miss fuel scanned a b c d y ys w miss room p =
      rw (ne→bytes_eq_false _ _ miss, lt→leb_false max_resync_bytes scanned room, S.reads 1 w, p)

  pub resync_finds :
      (k fuel scanned a b c d : ℕ) (w : W) (rest : Bytes)
      → k < fuel
      → scanned + k ≤ max_resync_bytes
      → StartsAt k (a ∷ b ∷ c ∷ d ∷ pending w) (sync_magic_bytes ++ rest)
      → (w' : W) × (resync H fuel scanned (a ∷ b ∷ c ∷ d ∷ []) w ≡ (ok true, w'))
        × (pending w' ≡ rest)
  resync_finds k zero scanned a b c d w rest hf hs at = absurd (omega arith)
  resync_finds zero (suc fuel) scanned a b c d w rest hf hs at =
      (w, rw (ap (take 4) at) (resync_hit fuel scanned w), ap (drop 4) at)
  resync_finds (suc k) (suc fuel) scanned a b c d w rest hf hs (miss, at) =
      let (y, ys, p) = nonempty k b c d (pending w) rest at in
      let (w', e, q) =
        resync_finds k fuel (scanned + 1) b c d y (S.after 1 w) rest (omega arith) (omega arith)
          (rw (S.pending-after 1 w, p) (rw p at at)) in
      (
        w',
        resync_miss fuel scanned a b c d y ys w (λ e. miss (ap (take 4) e)) (omega arith) p ∙ e,
        q,
      )

  resync_end :
      (fuel scanned a b c d : ℕ) (w w' : W)
      → pending w ≡ []
      → resync H (suc fuel) scanned (a ∷ b ∷ c ∷ d ∷ []) w ≡ (ok true, w')
      → bytes_eq (a ∷ b ∷ c ∷ d ∷ []) sync_magic_bytes ≡ true
  unfolding resync
  resync_end fuel scanned a b c d w w' p e = ground (arith, S.reads 1 w, p)

  resync_here :
      (fuel scanned a b c d : ℕ) (w w' : W)
      → bytes_eq (a ∷ b ∷ c ∷ d ∷ []) sync_magic_bytes ≡ true
      → resync H (suc fuel) scanned (a ∷ b ∷ c ∷ d ∷ []) w ≡ (ok true, w')
      → a ∷ b ∷ c ∷ d ∷ pending w ≡ sync_magic_bytes ++ pending w'
  resync_here fuel scanned a b c d w w' hit e =
      let magic = bytes_eq→eq (a ∷ b ∷ c ∷ d ∷ []) sync_magic_bytes hit in
      let same : w ≡ w' = cc (resync_hit fuel scanned w, magic) in
      ap (λ t. t ++ pending w) magic ∙ ap (λ v. sync_magic_bytes ++ pending v) same

  resync_full :
      (fuel scanned a b c d : ℕ) (w w' : W)
      → max_resync_bytes ≤ scanned
      → resync H (suc fuel) scanned (a ∷ b ∷ c ∷ d ∷ []) w ≡ (ok true, w')
      → bytes_eq (a ∷ b ∷ c ∷ d ∷ []) sync_magic_bytes ≡ true
  unfolding resync
  resync_full fuel scanned a b c d w w' full e = ground arith

  -- A loop that succeeds behind a miss read one more byte.
  resync_goes_on :
      (fuel scanned a b c d : ℕ) (w w' : W)
      → bytes_eq (a ∷ b ∷ c ∷ d ∷ []) sync_magic_bytes ≡ false
      → resync H (suc fuel) scanned (a ∷ b ∷ c ∷ d ∷ []) w ≡ (ok true, w')
      → (y : ℕ) × (ys : Bytes) × (pending w ≡ y ∷ ys) × (scanned < max_resync_bytes)
  resync_goes_on fuel scanned a b c d w w' miss e = go (pending w) refl
    where
      room : scanned < max_resync_bytes
      room = elim (Bool-cases (leb max_resync_bytes scanned)) [
        | inl full ↦ absurd (cc (miss, resync_full fuel scanned a b c d w w' (leb→le _ _ full) e))
        | inr more ↦ leb_false→lt _ _ more
      ]

      go :
          (s : Bytes)
          → pending w ≡ s
          → (y : ℕ) × (ys : Bytes) × (pending w ≡ y ∷ ys) × (scanned < max_resync_bytes)
      go [] p = absurd (cc (miss, resync_end fuel scanned a b c d w w' p e))
      go (y ∷ ys) p = (y, ys, p, room)

  -- The loop returns `true` only at a magic, the first one, that it reached within its limit.
  pub resync_sound :
      (fuel scanned a b c d : ℕ) (w w' : W)
      → scanned ≤ max_resync_bytes
      → resync H fuel scanned (a ∷ b ∷ c ∷ d ∷ []) w ≡ (ok true, w')
      → (k : ℕ) × (scanned + k ≤ max_resync_bytes)
        × StartsAt k (a ∷ b ∷ c ∷ d ∷ pending w) (sync_magic_bytes ++ pending w')
  resync_sound zero scanned a b c d w w' hs e = absurd (unfold resync in cc)
  resync_sound (suc fuel) scanned a b c d w w' hs e =
      elim (Bool-cases (bytes_eq (a ∷ b ∷ c ∷ d ∷ []) sync_magic_bytes)) [
        | inl hit ↦ (0, omega arith, resync_here fuel scanned a b c d w w' hit e)
        | inr miss ↦
            let (y, ys, p, room) = resync_goes_on fuel scanned a b c d w w' miss e in
            let off : a ∷ b ∷ c ∷ d ∷ [] ≢ sync_magic_bytes = bytes_ne _ _ miss in
            let step = resync_miss fuel scanned a b c d y ys w off room p in
            let (k, fits, at) =
              resync_sound fuel (scanned + 1) b c d y (S.after 1 w) w' (omega arith)
                (sym step ∙ e) in
            (
              suc k,
              omega arith,
              ((λ m. off (ap (take 4) m)), rw p (rw (S.pending-after 1 w, p) at at)),
            )
      ]
