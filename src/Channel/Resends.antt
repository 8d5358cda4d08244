-- ===== src/Channel/Resends.antt =====
-- The handshakes' `retransmit` on a channel of messages: the same message again and again.
use serial_testkit.Prelude.{
  ℕ, zero, suc, ◌-◌, ◌≤◌, ◌<◌, ◌≡◌, refl, sym, ap, ◌∙◌, List, [], ◌∷◌, ◌++◌, append_assoc,
  append-nil, ltb, ltb_false→le, ◌⊎◌, inl, inr, Bool-cases, arith,
}
use serial_testkit.Prelude.Bytes.{Bytes}
use serial_testkit.Exec.Does.{Does, Does-mono}
use serial_testkit.Host.{Host}
use serial_testkit.Host.Laws.{IsLine, HasClock}
use serial_testkit.Message.Frames.{frame}
use serial_testkit.Encoding.{Decoded}
use serial_testkit.Encoding.Soundness.{payload_of}
use serial_testkit.Timed.{retransmit}
use serial_testkit.Channel.{frames}
use serial_testkit.Channel.Hears.{repeat}

module _ {W : Type 0} (H : Host W) where
  -- One more frame behind the same ones.
  pub frames-repeat :
      (k : ℕ) (m : Decoded)
      → frames H (repeat k m) ++ frame H (payload_of m) ≡ frames H (repeat (suc k) m)
  frames-repeat zero m = sym (append-nil _)
  frames-repeat (suc k) m =
      append_assoc (frame H (payload_of m)) (frames H (repeat k m)) (frame H (payload_of m))
      ∙ ap (λ s. frame H (payload_of m) ++ s) (frames-repeat k m)

module _ {W : Type 0} (H : Host W) where
  pub frames-snoc :
      (ms : List Decoded) (m : Decoded)
      → frames H ms ++ frame H (payload_of m) ≡ frames H (ms ++ m ∷ [])
  frames-snoc [] m = sym (append-nil _)
  frames-snoc (n ∷ ms) m =
      append_assoc (frame H (payload_of n)) (frames H ms) (frame H (payload_of m))
      ∙ ap (λ s. frame H (payload_of n) ++ s) (frames-snoc ms m)

-- `k` times the message `m` is written behind `base`.
abbrev pub Repeated : {W : Type 0} → Host W → (W → Bytes) → Bytes → Decoded → ℕ → W → Type 0
Repeated H written base m k w = written w ≡ base ++ frames H (repeat k m)

-- So far the message is written once at least, unless the loop has just begun.
abbrev pub SentSoFar : {W : Type 0} → Host W → (W → Bytes) → Bytes → Decoded → ℕ → W → Type 0
SentSoFar H written base m last w = (k : ℕ) × Repeated H written base m k w × ((last ≡ 0) ⊎ (1 ≤ k))

abbrev pub SentOnce : {W : Type 0} → Host W → (W → Bytes) → Bytes → Decoded → W → Type 0
SentOnce H written base m w = (k : ℕ) × Repeated H written base m k w × (1 ≤ k)

module _ {W : Type 0} (H : Host W) (written : W → Bytes) (base : Bytes) (m : Decoded) where
  pub SentOnce-same :
      (w w' : W)
      → SentOnce H written base m w
      → written w' ≡ written w
      → SentOnce H written base m w'
  SentOnce-same w w' (k, e, h) same = (k, same ∙ e, h)

  pub SentSoFar-same :
      (last : ℕ) (w w' : W)
      → SentSoFar H written base m last w
      → written w' ≡ written w
      → SentSoFar H written base m last w'
  SentSoFar-same last w w' (k, e, h) same = (k, same ∙ e, h)

  pub SentSoFar-SentOnce :
      (last : ℕ) (w : W) → SentOnce H written base m w → SentSoFar H written base m last w
  SentSoFar-SentOnce last w (k, e, h) = (k, e, inr h)

  pub SentSoFar-start : (w : W) → written w ≡ base → SentSoFar H written base m 0 w
  SentSoFar-start w e = (0, e ∙ sym (append-nil base), inl refl)

module _ {W : Type 0} (H : Host W) {pending written : W → Bytes}
    (L : IsLine H pending written) where
  -- What `retransmit` writes: its message, or nothing if the interval is not over.
  abbrev pub Resends : Bytes → ℕ → ℕ → W → ℕ → W → Type 0
  Resends msg interval last w last' w' =
      (pending w' ≡ pending w)
      × (((H.monotonic w).0 - last ≤ interval) × (last' ≡ last) × (written w' ≡ written w)
          ⊎ (written w' ≡ written w ++ msg))

  pub retransmit-Does :
      (msg : Bytes) (interval last : ℕ) (w : W)
      → Does (retransmit H msg interval last) w (Resends msg interval last w)
  unfolding retransmit
  retransmit-Does msg interval last w =
      let w₁ = (H.monotonic w).1 in
      elim (Bool-cases (ltb interval ((H.monotonic w).0 - last))) [
        | inl sends ↦
            let d = L.writes msg w₁ in
            record {
              value = (H.monotonic d.next).0;
              next = (H.monotonic d.next).1;
              runs = rw (sends, d.runs) refl;
              holds = (
                L.pending-monotonic d.next ∙ d.holds.0 ∙ L.pending-monotonic w,
                inr (
                    L.written-monotonic d.next
                    ∙ d.holds.1
                    ∙ ap (λ s. s ++ msg) (L.written-monotonic w)),
              );
            }
        | inr waits ↦ record {
          value = last;
          next = w₁;
          runs = rw waits refl;
          holds =
              (L.pending-monotonic w, inl (ltb_false→le _ _ waits, refl, L.written-monotonic w));
        }
      ]

  module _ {clock : W → ℕ} (C : HasClock H clock) (base : Bytes) (m : Decoded) where
    sent_again :
        (interval last last' : ℕ) (w w' : W)
        → interval < clock w
        → SentSoFar H written base m last w
        → Resends (frame H (payload_of m)) interval last w last' w'
        → SentOnce H written base m w'
    sent_again interval last last' w w' due (k, e, inl start) (p, inl (not_over, l, same)) =
        absurd (omega (arith, start, C.now_from w, not_over))
    sent_again interval last last' w w' due (k, e, inr sent) (p, inl (not_over, l, same)) =
        (k, same ∙ e, sent)
    sent_again interval last last' w w' due (k, e, s) (p, inr more) = (
      suc k,
      more
          ∙ ap (λ b. b ++ frame H (payload_of m)) e
          ∙ append_assoc base (frames H (repeat k m)) (frame H (payload_of m))
          ∙ ap (λ b. base ++ b) (frames-repeat H k m),
      omega arith,
    )

    -- At a time past the interval, the message is written once at least behind `retransmit`.
    pub retransmit-SentOnce :
        (interval last : ℕ) (w : W)
        → interval < clock w
        → SentSoFar H written base m last w
        → Does
            (retransmit H (frame H (payload_of m)) interval last)
            w
            λ last' w'. (pending w' ≡ pending w) × SentOnce H written base m w'
    retransmit-SentOnce interval last w due sent =
        Does-mono (retransmit-Does (frame H (payload_of m)) interval last w)
          λ last' w' r. (r.0, sent_again interval last last' w w' due sent r)
