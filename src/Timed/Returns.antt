-- ===== src/Timed/Returns.antt =====
-- What a loop under a time limit returns, from an invariant of its rounds.
use serial_testkit.Prelude.{ℕ, zero, suc, ◌+◌, ◌-◌, none, some, ltb}
use serial_testkit.Exec.{Exec, pure, call, ◌>>=◌}
use serial_testkit.Exec.Yields.{Yields, IfSome, Yields-pure, Yields-if, Yields-bind, Yields-then}
use serial_testkit.Host.{Host}
use serial_testkit.Timed.{Round, again, done, poll, within}

-- How a round or a whole loop ends: with loop variables that satisfy `P`, or with a result.
abbrev pub RoundOf : {S A : Type 0} → (S → Type 0) → (A → Type 0) → Round S A → Type 0
RoundOf P Q (again s) = P s
RoundOf P Q (done a) = Q a

module _ {W S A : Type 0} (H : Host W) (P : S → Type 0) (Q : A → Type 0)
    (body : S → Exec W (Round S A)) (keep : (s : S) → P s → Yields (RoundOf P Q) (body s)) where
  poll-Yields :
      (fuel start timeout : ℕ) (s : S) → P s → Yields (IfSome Q) (poll H fuel start timeout body s)
  unfolding poll
  poll-Yields zero start timeout s h = record { yields = λ w a e. absurd (cc) }
  poll-Yields (suc fuel) start timeout s h = Yields-then (call H.monotonic) _ λ now.
      Yields-if (ltb (now - start) timeout)
        (body s >>= λ r. elim r [
          | again s' ↦ poll H fuel start timeout body s'
          | done a ↦ pure (some a)
        ])
        (pure none)
        (λ _. Yields-bind (body s) _ (keep s h) (elim [
          | again s' ↦ λ k. poll-Yields fuel start timeout s' k
          | done a ↦ λ k. Yields-pure (some a) k
        ]))
        (λ _. Yields-pure none tt)

  pub within-Yields : (timeout : ℕ) (s : S) → P s → Yields (IfSome Q) (within H timeout body s)
  unfolding within
  within-Yields timeout s h =
      Yields-then (call H.monotonic) _ λ start. poll-Yields (timeout + 1) start timeout s h
