-- ===== src/Exec/Raises.antt =====
-- Which exceptions code raises: one rule for each way to build it.
use serial_testkit.Prelude.{
  ◌⊎◌, inl, inr, ◌≡◌, ◌≢◌, refl, Bool, true, false, Option, none, if◌then◌else◌, arith,
}
use serial_testkit.Exec.{
  Exn, Result, ok, err, stuck, Exec, pure, raise, lift, call, proceed, ◌>>=◌, caught, attempt,
}
use serial_testkit.Exec.Yields.{Yields}

pub record Raises {W A : Type 0} (P : Exn → Type 0) (m : Exec W A) : Type 0 where
  pub raises : (w : W) (x : Exn) → (m w).0 ≡ err x → P x

-- Code that raises nothing.
abbrev pub Never : Exn → Type 0
Never x = ⊥

module _ {W A : Type 0} {P : Exn → Type 0} where
  pub Raises-pure : (a : A) → Raises {W = W} P (pure a)
  Raises-pure a = record { raises = λ w x e. absurd (cc) }

  pub Raises-raise : (x : Exn) → P x → Raises {W = W} {A = A} P (raise x)
  Raises-raise x h = record { raises = λ w y e. ground arith }

  pub Raises-lift : (r : Result A) → ((x : Exn) → r ≡ err x → P x) → Raises {W = W} P (lift r)
  Raises-lift r h = record { raises = λ w x e. h x e }

  pub Raises-call : (f : W → A × W) → Raises P (call f)
  Raises-call f = record { raises = λ w x e. absurd (cc) }

  pub Raises-mono :
      {Q : Exn → Type 0} (m : Exec W A) → Raises Q m → ((x : Exn) → Q x → P x) → Raises P m
  Raises-mono m h k = record { raises = λ w x e. k x (h.raises w x e) }

  pub Raises-Never : (m : Exec W A) → Raises Never m → Raises P m
  Raises-Never m h = record { raises = λ w x e. absurd (h.raises w x e) }

  pub Raises-if :
      (b : Bool) (m n : Exec W A)
      → (b ≡ true → Raises P m)
      → (b ≡ false → Raises P n)
      → Raises P (if b then m else n)
  Raises-if true m n hm hn = hm refl
  Raises-if false m n hm hn = hn refl

  -- What an `except` clause lets through.
  pub Raises-attempt :
      {Q : Exn → Type 0} (c : Exn → Bool) (m : Exec W A)
      → Raises Q m
      → ((x : Exn) → Q x → c x ≡ false → P x)
      → Raises P (attempt c m)
  Raises-attempt {Q} c m h k = record { raises = λ w x e. go (m w).0 x (h.raises w) e }
    where
      go : (r : Result A) (x : Exn) → ((y : Exn) → r ≡ err y → Q y) → caught c r ≡ err x → P x
      go (ok a) x q e = absurd (cc)
      go (err y) x q e = through (c y) refl
        where
          same : c y ≡ false → y ≡ x
          same f = let e' : ◌≡◌ {A = Result (Option A)} (err y) (err x) = rw f at e in cc e'

          through : (b : Bool) → c y ≡ b → P x
          through true f =
              let e' : ◌≡◌ {A = Result (Option A)} (ok none) (err x) = rw f at e in absurd (cc e')
          through false f = k x (q x (cc (same f))) (cc (f, same f))
      go stuck x q e = absurd (cc)

module _ {W A B : Type 0} {P : Exn → Type 0} where
  pub Raises-bind :
      {Q : A → Type 0} (m : Exec W A) (f : A → Exec W B)
      → Raises P m
      → Yields Q m
      → ((a : A) → Q a → Raises P (f a))
      → Raises P (m >>= f)
  Raises-bind {Q} m f hm hy hf = record {
    raises = λ w x e. go (m w).0 (m w).1 x (hm.raises w) (hy.yields w) e;
  }
    where
      go :
          (r : Result A) (w' : W) (x : Exn)
          → ((y : Exn) → r ≡ err y → P y)
          → ((a : A) → r ≡ ok a → Q a)
          → (proceed r f w').0 ≡ err x
          → P x
      go (ok a) w' x p q e = (hf a (q a refl)).raises w' x e
      go (err y) w' x p q e = let e' : y ≡ x = cc e in p x (cc e')
      go stuck w' x p q e = absurd (cc)

  -- Where nothing is needed of the first part's value.
  pub Raises-then :
      (m : Exec W A) (f : A → Exec W B)
      → Raises P m
      → ((a : A) → Raises P (f a))
      → Raises P (m >>= f)
  Raises-then m f hm hf =
      Raises-bind {Q = λ _. Unit {0}} m f hm (record { yields = λ w a e. tt }) λ a _. hf a

-- Code that ends returns, or raises one of the exceptions that it raises.
pub returns_or_raises :
    {A : Type 0} {P : Exn → Type 0} (r : Result A)
    → r ≢ stuck
    → ((x : Exn) → r ≡ err x → P x)
    → ((a : A) × (r ≡ ok a)) ⊎ ((x : Exn) × (r ≡ err x) × P x)
returns_or_raises (ok a) n h = inl (a, refl)
returns_or_raises (err x) n h = inr (x, refl, h x refl)
returns_or_raises stuck n h = absurd (n refl)
