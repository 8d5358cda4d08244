-- ===== src/Exec/Does.antt =====
-- What code does at one world: it returns a value, at a next world, and both are as told.
use mathlib.Core.Path.{subst}
use serial_testkit.Prelude.{◌≡◌, refl, sym, ap, ◌∙◌, Bool, some}
use serial_testkit.Exec.{Exn, ok, Exec, pure, ◌>>=◌, attempt}

pub record Does {W A : Type 0} (m : Exec W A) (w : W) (Q : A → W → Type 0) : Type 0 where
  pub value : A
  pub next : W
  pub runs : m w ≡ (ok value, next)
  pub holds : Q value next

module _ {W A : Type 0} where
  pub Does-pure : {Q : A → W → Type 0} (a : A) (w : W) → Q a w → Does (pure a) w Q
  Does-pure a w h = record { value = a; next = w; runs = refl; holds = h }

  pub Does-mono :
      {Q R : A → W → Type 0} {m : Exec W A} {w : W}
      → Does m w Q
      → ((a : A) (w' : W) → Q a w' → R a w')
      → Does m w R
  Does-mono d h = record {
    value = d.value;
    next = d.next;
    runs = d.runs;
    holds = h d.value d.next d.holds;
  }

  -- The same of the world that the run itself names.
  pub Does-here :
      {Q : A → W → Type 0} {m : Exec W A} {w : W}
      → Does m w Q
      → (a : A) × (m w ≡ (ok a, (m w).1)) × Q a (m w).1
  Does-here {Q} d = (
    d.value,
    d.runs ∙ ap (λ p. (ok d.value, p.1)) (sym d.runs),
    subst (λ p. Q d.value p.1) (sym d.runs) d.holds,
  )

  pub Does-attempt :
      {Q : A → W → Type 0} (c : Exn → Bool) (m : Exec W A) (w : W)
      → Does m w Q
      → Does (attempt c m) w λ o w'. (a : A) × (o ≡ some a) × Q a w'
  Does-attempt c m w d = record {
    value = some d.value;
    next = d.next;
    runs = rw d.runs;
    holds = (d.value, refl, d.holds);
  }

module _ {W A B : Type 0} where
  pub run-bind :
      (m : Exec W A) (f : A → Exec W B) (w w' : W) (a : A) → m w ≡ (ok a, w') → (m >>= f) w ≡ f a w'
  run-bind m f w w' a e = rw e refl

  pub Does-bind :
      {Q : A → W → Type 0} {R : B → W → Type 0} (m : Exec W A) (f : A → Exec W B) (w : W)
      → Does m w Q
      → ((a : A) (w' : W) → Q a w' → Does (f a) w' R)
      → Does (m >>= f) w R
  Does-bind m f w d k =
      let e = k d.value d.next d.holds in
      record { value = e.value; next = e.next; runs = rw d.runs e.runs; holds = e.holds }
