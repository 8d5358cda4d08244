-- ===== src/Exec/Moves.antt =====
-- How code moves the world, whatever it returns or raises, for a relation that is a preorder.
use serial_testkit.Prelude.{Bool, true, false, if◌then◌else◌}
use serial_testkit.Exec.{
  Exn, Result, ok, err, stuck, Exec, pure, lift, call, proceed, ◌>>=◌, attempt, out_of_fuel,
}

pub record Moves {W A : Type 0} (R : W → W → Type 0) (m : Exec W A) : Type 0 where
  pub moves : (w : W) → R w (m w).1

pub record IsPreorder {W : Type 0} (R : W → W → Type 0) : Type 0 where
  pub same : (w : W) → R w w
  pub follows : (u v w : W) → R u v → R v w → R u w

module _ {W : Type 0} {R : W → W → Type 0} (o : IsPreorder R) where
  pub Moves-pure : {A : Type 0} (a : A) → Moves R (pure a)
  Moves-pure a = record { moves = λ w. o.same w }

  pub Moves-lift : {A : Type 0} (r : Result A) → Moves R (lift r)
  Moves-lift r = record { moves = λ w. o.same w }

  pub Moves-stuck : {A : Type 0} → Moves R (out_of_fuel {A = A})
  Moves-stuck = record { moves = λ w. o.same w }

  pub Moves-bind :
      {A B : Type 0} (m : Exec W A) (f : A → Exec W B)
      → Moves R m
      → ((a : A) → Moves R (f a))
      → Moves R (m >>= f)
  Moves-bind {A} m f hm hf = record { moves = λ w. go (m w).0 w (m w).1 (hm.moves w) }
    where
      go : (r : Result A) (w w' : W) → R w w' → R w (proceed r f w').1
      go (ok a) w w' h = o.follows w w' _ h ((hf a).moves w')
      go (err x) w w' h = h
      go stuck w w' h = h

module _ {W A : Type 0} {R : W → W → Type 0} where
  pub Moves-call : (f : W → A × W) → ((w : W) → R w (f w).1) → Moves R (call f)
  Moves-call f h = record { moves = h }

  pub Moves-if : (b : Bool) (m n : Exec W A) → Moves R m → Moves R n → Moves R (if b then m else n)
  Moves-if true m n hm hn = hm
  Moves-if false m n hm hn = hn

  pub Moves-attempt : (c : Exn → Bool) (m : Exec W A) → Moves R m → Moves R (attempt c m)
  Moves-attempt c m h = record { moves = h.moves }
