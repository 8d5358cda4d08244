-- ===== src/Exec/Steps.antt =====
-- A run that returns, taken apart at one world: its first step has returned, and the rest has
-- returned from the world behind it.
use serial_testkit.Prelude.{
  ◌≡◌, ◌⊎◌, inl, inr, refl, sym, ap, ◌∙◌, Bool, true, false, Option, some, if◌then◌else◌, arith,
}
use serial_testkit.Exec.{Exn, Result, ok, err, stuck, Exec, proceed, ◌>>=◌, caught, attempt}

module _ {W A B : Type 0} where
  pub bind-ok :
      (m : Exec W A) (f : A → Exec W B) (w : W) (b : B)
      → ((m >>= f) w).0 ≡ ok b
      → (a : A) × ((m w).0 ≡ ok a) × ((f a (m w).1).0 ≡ ok b)
  bind-ok m f w b e = go (m w).0 (m w).1 e
    where
      go :
          (r : Result A) (w' : W)
          → (proceed r f w').0 ≡ ok b
          → (a : A) × (r ≡ ok a) × ((f a w').0 ≡ ok b)
      go (ok a) w' e = (a, refl, e)
      go (err x) w' e = absurd (cc)
      go stuck w' e = absurd (cc)

module _ {W A : Type 0} where
  pub if-ok :
      (c : Bool) (m n : Exec W A) (w : W) (a : A)
      → ((if c then m else n) w).0 ≡ ok a
      → ((c ≡ true) × ((m w).0 ≡ ok a)) ⊎ ((c ≡ false) × ((n w).0 ≡ ok a))
  if-ok true m n w a e = inl (refl, e)
  if-ok false m n w a e = inr (refl, e)

pub ok-same : {A : Type 0} (a b : A) → ◌≡◌ {A = Result A} (ok a) (ok b) → a ≡ b
ok-same a b e = cc

module _ {W A B : Type 0} where
  -- The same, with the world that the run leaves.
  pub bind-run :
      (m : Exec W A) (f : A → Exec W B) (w w' : W) (b : B)
      → (m >>= f) w ≡ (ok b, w')
      → (a : A) × (m w ≡ (ok a, (m w).1)) × (f a (m w).1 ≡ (ok b, w'))
  bind-run m f w w' b e =
      let (a, e₁, _) = bind-ok m f w b (ap (λ r. r.0) e) in (a, pair e₁, rest a e₁)
    where
      pair : {r : Result A} → (m w).0 ≡ r → m w ≡ (r, (m w).1)
      pair h = ap (λ r. (r, (m w).1)) h

      rest : (a : A) → (m w).0 ≡ ok a → f a (m w).1 ≡ (ok b, w')
      rest a h = sym (ap (λ r. proceed r f (m w).1) h) ∙ e

module _ {W A : Type 0} where
  pub if-run :
      (c : Bool) (m n : Exec W A) (w w' : W) (a : A)
      → (if c then m else n) w ≡ (ok a, w')
      → ((c ≡ true) × (m w ≡ (ok a, w'))) ⊎ ((c ≡ false) × (n w ≡ (ok a, w')))
  if-run true m n w w' a e = inl (refl, e)
  if-run false m n w w' a e = inr (refl, e)

  -- What was not caught is what the body returned.
  pub attempt-run :
      (c : Exn → Bool) (m : Exec W A) (w w' : W) (a : A)
      → attempt c m w ≡ (ok (some a), w')
      → m w ≡ (ok a, w')
  attempt-run c m w w' a e = go (m w).0 (m w).1 e
    where
      go :
          (r : Result A) (v : W)
          → ◌≡◌ {A = Result (Option A) × W} (caught c r, v) (ok (some a), w')
          → ◌≡◌ {A = Result A × W} (r, v) (ok a, w')
      go (ok b) v h = cc (ap (λ p. p.0) h, ap (λ p. p.1) h)
      go (err x) v h = absurd (let k = ap (λ p. p.0) h in ground arith)
      go stuck v h = absurd (cc (ap (λ p. p.0) h))
