-- ===== src/Exec/Yields.antt =====
-- What code returns, when it returns: one rule for each way to build it.
use mathlib.Core.Path.{subst}
use serial_testkit.Prelude.{◌≡◌, refl, Bool, true, false, Option, none, some, if◌then◌else◌, arith}
use serial_testkit.Exec.{
  Exn, Result, ok, err, stuck, Exec, pure, raise, lift, proceed, ◌>>=◌, caught, attempt,
}

pub record Yields {W A : Type 0} (P : A → Type 0) (m : Exec W A) : Type 0 where
  pub yields : (w : W) (a : A) → (m w).0 ≡ ok a → P a

module _ {W A : Type 0} {P : A → Type 0} where
  pub Yields-pure : (a : A) → P a → Yields {W = W} P (pure a)
  Yields-pure a h = record { yields = λ w b e. subst P (some_ok e) h }
    where
      some_ok : {b : A} → ok a ≡ ok b → a ≡ b
      some_ok e = cc

  pub Yields-raise : (e : Exn) → Yields {W = W} P (raise e)
  Yields-raise x = record { yields = λ w a e. absurd (cc) }

  pub Yields-lift : (r : Result A) → ((a : A) → r ≡ ok a → P a) → Yields {W = W} P (lift r)
  Yields-lift r h = record { yields = λ w a e. h a e }

  pub Yields-if :
      (b : Bool) (m n : Exec W A)
      → (b ≡ true → Yields P m)
      → (b ≡ false → Yields P n)
      → Yields P (if b then m else n)
  Yields-if true m n hm hn = hm refl
  Yields-if false m n hm hn = hn refl

module _ {W A : Type 0} {P Q : A → Type 0} where
  pub Yields-mono : (m : Exec W A) → Yields Q m → ((a : A) → Q a → P a) → Yields P m
  Yields-mono m h k = record { yields = λ w a e. k a (h.yields w a e) }

-- A caught exception says nothing of the world; a value keeps what it had.
abbrev pub IfSome : {A : Type 0} → (A → Type 0) → Option A → Type 0
IfSome P none = Unit
IfSome P (some a) = P a

module _ {W A : Type 0} {P : A → Type 0} where
  pub Yields-attempt :
      (c : Exn → Bool) (m : Exec W A) → Yields P m → Yields (IfSome P) (attempt c m)
  Yields-attempt c m h = record { yields = λ w o e. go (m w).0 o (h.yields w) e }
    where
      go :
          (r : Result A) (o : Option A)
          → ((a : A) → r ≡ ok a → P a)
          → caught c r ≡ ok o
          → IfSome P o
      go r none k e = tt
      go (ok a) (some b) k e = k b (cc)
      go (err x) (some b) k e = absurd (ground arith)
      go stuck (some b) k e = absurd (cc)

module _ {W A B : Type 0} {P : B → Type 0} where
  pub Yields-bind :
      {Q : A → Type 0} (m : Exec W A) (f : A → Exec W B)
      → Yields Q m
      → ((a : A) → Q a → Yields P (f a))
      → Yields P (m >>= f)
  Yields-bind {Q = Q} m f hm hf = record { yields = λ w b e. go (m w).0 (m w).1 b (hm.yields w) e }
    where
      go :
          (r : Result A) (w' : W) (b : B)
          → ((a : A) → r ≡ ok a → Q a)
          → (proceed r f w').0 ≡ ok b
          → P b
      go (ok a) w' b k e = (hf a (k a refl)).yields w' b e
      go (err x) w' b k e = absurd (cc)
      go stuck w' b k e = absurd (cc)

  -- Where nothing is needed of the first part.
  pub Yields-then :
      (m : Exec W A) (f : A → Exec W B) → ((a : A) → Yields P (f a)) → Yields P (m >>= f)
  Yields-then m f hf =
      Yields-bind {Q = λ _. Unit} m f (record { yields = λ w a e. tt }) (λ a _. hf a)
