-- ===== src/Exec/Outcome.antt =====
-- How code comes out at one world: what holds where it returns, and what holds where it raises. It
-- does one or the other.
use mathlib.Core.Path.{subst}
use serial_testkit.Prelude.{◌≡◌}
use serial_testkit.Exec.{Exn, Result, ok, err, stuck, Exec, pure, raise, proceed, ◌>>=◌}
use serial_testkit.Exec.Does.{Does}

abbrev pub Outcome : {W A : Type 0} → (A → W → Type 0) → (Exn → W → Type 0) → Result A × W → Type 0
Outcome Q T (ok a, w) = Q a w
Outcome Q T (err x, w) = T x w
Outcome Q T (stuck, w) = ⊥

pub record Comes {W A : Type 0} (m : Exec W A) (w : W) (Q : A → W → Type 0) (T : Exn → W → Type 0)
    : Type 0 where
  pub comes : Outcome Q T (m w)

module _ {W A : Type 0} {Q : A → W → Type 0} {T : Exn → W → Type 0} where
  pub Comes-pure : (a : A) (w : W) → Q a w → Comes (pure a) w Q T
  Comes-pure a w h = record { comes = h }

  pub Comes-raise : (x : Exn) (w : W) → T x w → Comes (raise x) w Q T
  Comes-raise x w h = record { comes = h }

  -- What holds where it returned.
  pub Comes-ok : {m : Exec W A} {w : W} (a : A) (w' : W) → Comes m w Q T → m w ≡ (ok a, w') → Q a w'
  Comes-ok a w' h e = subst (Outcome Q T) e h.comes

  Outcome-mono :
      {R : A → W → Type 0} {U : Exn → W → Type 0} (o : Result A × W)
      → Outcome Q T o
      → ((a : A) (w : W) → Q a w → R a w)
      → ((x : Exn) (w : W) → T x w → U x w)
      → Outcome R U o
  Outcome-mono (ok a, w) h f g = f a w h
  Outcome-mono (err x, w) h f g = g x w h
  Outcome-mono (stuck, w) h f g = absurd h

  pub Comes-mono :
      {R : A → W → Type 0} {U : Exn → W → Type 0} {m : Exec W A} {w : W}
      → Comes m w Q T
      → ((a : A) (w : W) → Q a w → R a w)
      → ((x : Exn) (w : W) → T x w → U x w)
      → Comes m w R U
  Comes-mono {m = m} {w} h f g = record { comes = Outcome-mono (m w) h.comes f g }

module _ {W A B : Type 0} {Q : A → W → Type 0} {R : B → W → Type 0} {T : Exn → W → Type 0} where
  proceed-Outcome :
      {f : A → Exec W B} (r : Result A) (w : W)
      → Outcome Q T (r, w)
      → ((a : A) (w' : W) → Q a w' → Comes (f a) w' R T)
      → Outcome R T (proceed r f w)
  proceed-Outcome (ok a) w h k = (k a w h).comes
  proceed-Outcome (err x) w h k = h
  proceed-Outcome stuck w h k = absurd h

  pub Comes-bind :
      (m : Exec W A) (f : A → Exec W B) (w : W)
      → Comes m w Q T
      → ((a : A) (w' : W) → Q a w' → Comes (f a) w' R T)
      → Comes (m >>= f) w R T
  Comes-bind m f w h k = record { comes = proceed-Outcome (m w).0 (m w).1 h.comes k }

  pub Comes-after :
      (m : Exec W A) (f : A → Exec W B) (w : W)
      → Does m w Q
      → ((a : A) (w' : W) → Q a w' → Comes (f a) w' R T)
      → Comes (m >>= f) w R T
  Comes-after m f w d k = record { comes = rw d.runs (k d.value d.next d.holds).comes }

module _ {W A B : Type 0} {R : B → W → Type 0} {T : Exn → W → Type 0} where
  pub Comes-run :
      (m : Exec W A) (f : A → Exec W B) (w w' : W) (a : A)
      → m w ≡ (ok a, w')
      → Comes (f a) w' R T
      → Comes (m >>= f) w R T
  Comes-run m f w w' a e h = record { comes = rw e h.comes }
