-- ===== src/Exec/Ends.antt =====
-- Code that comes to an end, and how the clock moves over it.
use serial_testkit.Prelude.{ℕ, ◌≤◌, ◌<◌, ◌≡◌, ◌≢◌, refl, Bool, true, false, if◌then◌else◌, arith}
use serial_testkit.Exec.{
  Exn, Result, ok, err, stuck, Exec, pure, raise, lift, call, proceed, ◌>>=◌, attempt, finally,
}

module _ {W : Type 0} (clock : W → ℕ) where
  -- `m` returns or raises, from every world, and the clock does not go back.
  pub record Ends {A : Type 0} (m : Exec W A) : Type 0 where
    pub returns : (w : W) → (m w).0 ≢ stuck
    pub later : (w : W) → clock w ≤ clock (m w).1

  -- In addition the clock goes on by one tick at least.
  pub record Ticks {A : Type 0} (m : Exec W A) : Type 0 where
    pub ends : Ends m
    pub ticks : (w : W) → clock w < clock (m w).1

  -- In addition the clock goes on by one tick at least if `m` returns.
  pub record Progress {A : Type 0} (m : Exec W A) : Type 0 where
    pub ends : Ends m
    pub progress : (w : W) (a : A) → (m w).0 ≡ ok a → clock w < clock (m w).1

module _ {W : Type 0} {clock : W → ℕ} {A : Type 0} where
  pub Ends-pure : (a : A) → Ends clock (pure a)
  Ends-pure a = record { returns = λ w e. cc; later = λ w. omega arith }

  pub Ends-raise : (e : Exn) → Ends clock (raise {A = A} e)
  Ends-raise x = record { returns = λ w e. cc; later = λ w. omega arith }

  pub Ends-lift : (r : Result A) → r ≢ stuck → Ends clock (lift r)
  Ends-lift r h = record { returns = λ w e. h e; later = λ w. omega arith }

  pub Ends-call : (f : W → A × W) → ((w : W) → clock w ≤ clock (f w).1) → Ends clock (call f)
  Ends-call f h = record { returns = λ w e. cc; later = λ w. h w }

  pub Ends-if :
      (b : Bool) (m n : Exec W A)
      → (b ≡ true → Ends clock m)
      → (b ≡ false → Ends clock n)
      → Ends clock (if b then m else n)
  Ends-if true m n hm hn = hm refl
  Ends-if false m n hm hn = hn refl

  pub Ends-attempt : (c : Exn → Bool) (m : Exec W A) → Ends clock m → Ends clock (attempt c m)
  Ends-attempt c m h = record {
    returns = λ w e. ground (arith, h.returns w);
    later = λ w. ground (arith, h.later w);
  }

module _ {W : Type 0} {clock : W → ℕ} {A B : Type 0} where
  pub Ends-bind :
      (m : Exec W A) (f : A → Exec W B)
      → Ends clock m
      → ((a : A) → Ends clock (f a))
      → Ends clock (m >>= f)
  Ends-bind m f hm hf = record {
    returns = λ w. go (m w).0 (m w).1 (hm.returns w);
    later = λ w. go' (m w).0 (m w).1 w (hm.later w);
  }
    where
      go : (r : Result A) (w' : W) → r ≢ stuck → (proceed r f w').0 ≢ stuck
      go (ok a) w' h e = (hf a).returns w' e
      go (err x) w' h e = cc
      go stuck w' h e = h refl

      go' : (r : Result A) (w' w : W) → clock w ≤ clock w' → clock w ≤ clock (proceed r f w').1
      go' (ok a) w' w h = omega (arith, (hf a).later w')
      go' (err x) w' w h = h
      go' stuck w' w h = h

  pub Ticks-bind :
      (m : Exec W A) (f : A → Exec W B)
      → Ticks clock m
      → ((a : A) → Ends clock (f a))
      → Ticks clock (m >>= f)
  Ticks-bind m f hm hf = record {
    ends = Ends-bind m f hm.ends hf;
    ticks = λ w. go (m w).0 (m w).1 w (hm.ticks w);
  }
    where
      go : (r : Result A) (w' w : W) → clock w < clock w' → clock w < clock (proceed r f w').1
      go (ok a) w' w h = omega (arith, (hf a).later w')
      go (err x) w' w h = h
      go stuck w' w h = h

  -- The first part may raise; only then nothing ticked.
  pub Progress-bind :
      (m : Exec W A) (f : A → Exec W B)
      → Ends clock m
      → ((a : A) → Progress clock (f a))
      → Progress clock (m >>= f)
  Progress-bind m f hm hf = record {
    ends = Ends-bind m f hm (λ a. (hf a).ends);
    progress = λ w b e. go (m w).0 (m w).1 w b (hm.later w) e;
  }
    where
      go :
          (r : Result A) (w' w : W) (b : B)
          → clock w ≤ clock w'
          → (proceed r f w').0 ≡ ok b
          → clock w < clock (proceed r f w').1
      go (ok a) w' w b h e = omega (arith, (hf a).progress w' b e)
      go (err x) w' w b h e = absurd (cc)
      go stuck w' w b h e = absurd (cc)

  -- The first part ticks where it returns.
  pub Progress-then :
      (m : Exec W A) (f : A → Exec W B)
      → Progress clock m
      → ((a : A) → Ends clock (f a))
      → Progress clock (m >>= f)
  Progress-then m f hm hf = record {
    ends = Ends-bind m f hm.ends hf;
    progress = λ w b e. go (m w).0 (m w).1 w b (hm.progress w) e;
  }
    where
      go :
          (r : Result A) (w' w : W) (b : B)
          → ((a : A) → r ≡ ok a → clock w < clock w')
          → (proceed r f w').0 ≡ ok b
          → clock w < clock (proceed r f w').1
      go (ok a) w' w b h e = omega (arith, (hf a).later w', h a refl)
      go (err x) w' w b h e = absurd (cc)
      go stuck w' w b h e = absurd (cc)

module _ {W : Type 0} {clock : W → ℕ} {A : Type 0} where
  pub Ticks-attempt : (c : Exn → Bool) (m : Exec W A) → Ticks clock m → Ticks clock (attempt c m)
  Ticks-attempt c m h = record {
    ends = Ends-attempt c m h.ends;
    ticks = λ w. ground (arith, h.ticks w);
  }

  pub Progress-of : (m : Exec W A) → Ticks clock m → Progress clock m
  Progress-of m h = record { ends = h.ends; progress = λ w a e. h.ticks w }

  pub Ends-finally :
      {B : Type 0} (m : Exec W A) (last : Exec W B)
      → Ends clock m
      → Ends clock last
      → Ends clock (finally m last)
  Ends-finally m last h k = record {
    returns = λ w e. ground (arith, h.returns w, k.returns (m w).1);
    later = λ w. ground (arith, h.later w, k.later (m w).1);
  }

-- At one world: it returns or raises, and the clock does not go back.
abbrev pub EndsAt : {W A : Type 0} → (W → ℕ) → Exec W A → W → Type 0
EndsAt clock m w = ((m w).0 ≢ stuck) × (clock w ≤ clock (m w).1)

module _ {W : Type 0} {clock : W → ℕ} {A B : Type 0} where
  pub EndsAt-bind :
      (m : Exec W A) (f : A → Exec W B) (w : W)
      → EndsAt clock m w
      → ((a : A) (w' : W) → clock w ≤ clock w' → EndsAt clock (f a) w')
      → EndsAt clock (m >>= f) w
  EndsAt-bind m f w (n, h) hf = go (m w).0 (m w).1 n h
    where
      go :
          (r : Result A) (w' : W)
          → r ≢ stuck
          → clock w ≤ clock w'
          → ((proceed r f w').0 ≢ stuck) × (clock w ≤ clock (proceed r f w').1)
      go (ok a) w' n h = let (k, l) = hf a w' h in (k, omega (arith, h, l))
      go (err x) w' n h = (λ e. cc, h)
      go stuck w' n h = absurd (n refl)

pub ruleset ends_rules = (Ends-pure, Ends-raise, Ends-call, Ends-if, Ends-attempt, Ends-bind)
