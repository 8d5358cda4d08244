-- ===== src/Termination/Loops.antt =====
-- The end of a loop under a time limit.
use native.Mathlib.Numerals.{add-one}
use serial_testkit.Prelude.{
  ℕ, zero, suc, ◌+◌, ◌-◌, ◌≤◌, ◌≡◌, ◌≢◌, refl, Option, some, ltb, ltb→lt, inl, inr, Bool-cases,
  arith,
}
use serial_testkit.Prelude.Bytes.{Bytes}
use serial_testkit.Exec.{Result, ok, err, stuck, Exec, pure, call, proceed}
use serial_testkit.Exec.Ends.{Ends, Progress, Ends-pure, Ends-call, Ends-if, Ends-bind}
use serial_testkit.Host.{Host}
use serial_testkit.Host.Laws.{HasClock}
use serial_testkit.Timed.{Round, again, done, poll, within, retransmit}

module _ {W : Type 0} (H : Host W) {clock : W → ℕ} (C : HasClock H clock) where
  abbrev EndsAt : {A : Type 0} → W → Result A × W → Type 0
  EndsAt w (r, w') = (r ≢ stuck) × (clock w ≤ clock w')

  module _ {S A : Type 0} where
    next_round :
        (rest : S → Exec W (Option A)) (r : Result (Round S A)) (w w₁ w₂ : W)
        → clock w ≤ clock w₁
        → clock w₁ ≤ clock w₂
        → r ≢ stuck
        → ((s : S) → r ≡ ok (again s) → EndsAt w₂ (rest s w₂))
        → EndsAt w (proceed r (λ x. elim x [ again s ↦ rest s | done a ↦ pure (some a) ]) w₂)
    next_round rest (ok (again s)) w w₁ w₂ h k ns f = let (ne, le) = f s refl in (ne, omega arith)
    next_round rest (ok (done a)) w w₁ w₂ h k ns f = (λ e. cc, omega arith)
    next_round rest (err x) w w₁ w₂ h k ns f = (λ e. cc, omega arith)
    next_round rest stuck w w₁ w₂ h k ns f = absurd (ns refl)

    module _ (body : S → Exec W (Round S A)) (b : (s : S) → Progress clock (body s)) where
      poll-EndsAt :
          (fuel start timeout : ℕ) (s : S) (w : W)
          → start + timeout ≤ clock w + fuel
          → EndsAt w (poll H (suc fuel) start timeout body s w)
      unfolding poll
      poll-EndsAt zero start timeout s w h =
          elim (Bool-cases (ltb ((H.monotonic w).0 - start) timeout)) [
            | inl more ↦ absurd (omega (arith, ltb→lt _ _ more, C.now_from w))
            | inr over ↦ rw over (λ e. cc, omega (arith, C.now_from w, C.now_until w))
          ]
      poll-EndsAt (suc fuel) start timeout s w h =
          elim (Bool-cases (ltb ((H.monotonic w).0 - start) timeout)) [
            | inl more ↦ rw more (
                next_round (poll H (suc fuel) start timeout body) (body s (H.monotonic w).1).0 w
                  (H.monotonic w).1 (body s (H.monotonic w).1).1
                  (omega (arith, C.now_from w, C.now_until w)) ((b s).ends.later (H.monotonic w).1)
                  ((b s).ends.returns (H.monotonic w).1)
                  λ s' e. poll-EndsAt fuel start timeout s' (body s (H.monotonic w).1).1 (
                    omega (
                      arith,
                      C.now_from w,
                      C.now_until w,
                      (b s).progress (H.monotonic w).1 (again s') e,
                    )))
            | inr over ↦ rw over (λ e. cc, omega (arith, C.now_from w, C.now_until w))
          ]

      -- `within` has one round more than the limit has nanoseconds.
      pub within-Ends : (timeout : ℕ) (s : S) → Ends clock (within H timeout body s)
      unfolding within
      within-Ends timeout s = record {
        returns = λ w. (at w).0;
        later = λ w. omega (arith, (at w).1, C.now_from w, C.now_until w);
      }
        where
          at :
              (w : W)
              → EndsAt
                  (H.monotonic w).1
                  (poll H (timeout + 1) (H.monotonic w).0 timeout body s (H.monotonic w).1)
          at w = rw (add-one timeout) (
              poll-EndsAt timeout (H.monotonic w).0 timeout s (H.monotonic w).1
                (omega (arith, C.now_until w)))

  pub now-Ends : Ends clock (call H.monotonic)
  now-Ends = Ends-call _ (λ w. omega (arith, C.now_from w, C.now_until w))

  pub retransmit-Ends :
      (msg : Bytes) (interval last : ℕ) → Ends clock (retransmit H msg interval last)
  unfolding retransmit
  retransmit-Ends msg interval last = Ends-bind (call H.monotonic) _ now-Ends λ now.
      Ends-if (ltb interval (now - last)) _ _
        (λ _. Ends-bind (H.write msg) _ (C.write_ends msg) λ _. now-Ends) λ _. Ends-pure last
