-- ===== src/Exec/Fallible.antt =====
-- Pure functions that may raise, in `do` blocks of their own.
use serial_testkit.Exec.{Result, ok, err, stuck}

module _ {A B : Type 0} where
  infixl 10 ◌>>=◌
  abbrev pub ◌>>=◌ : Result A → (A → Result B) → Result B
  ok a >>= f = f a
  err e >>= f = err e
  stuck >>= f = stuck
