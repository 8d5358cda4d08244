-- ===== src/Timed/Finds.antt =====
-- What a loop under a time limit finds in a list of items: `J ms` holds before a round that is to
-- meet the items `ms` and then the one that ends the loop.
use serial_testkit.Prelude.{
  ℕ, zero, suc, ◌+◌, ◌-◌, ◌≤◌, ◌<◌, ◌≡◌, refl, ap, false, Option, none, some, List, [], ◌∷◌, ltb,
  ltb→lt, ltb_false→le, inl, inr, Bool-cases, arith,
}
use native.Mathlib.Numerals.{add-one}
use serial_testkit.Exec.{Exec, pure}
use serial_testkit.Exec.Ends.{Progress}
use serial_testkit.Exec.Does.{Does, Does-pure}
use serial_testkit.Host.{Host}
use serial_testkit.Host.Laws.{HasClock}
use serial_testkit.Timed.{Round, again, done, poll, within}

-- Before the next round: the items that are left, and none behind the last one.
abbrev pub Left : {W S M : Type 0} → (List M → S → W → Type 0) → List M → S → W → Type 0
Left J [] s w = ⊥
Left J (m ∷ ms) s w = J ms s w

abbrev pub RoundOn :
    {W S A M : Type 0}
    → (List M → S → W → Type 0)
    → (A → W → Type 0)
    → List M
    → Round S A
    → W
    → Type 0
RoundOn J Q ms (again s) w = Left J ms s w
RoundOn J Q ms (done a) w = Q a w

-- How the loop comes out: with its result, or with its time over.
abbrev pub FoundOr : {W A : Type 0} → (A → W → Type 0) → (W → Type 0) → Option A → W → Type 0
FoundOr Q T (some a) w = Q a w
FoundOr Q T none w = T w

module _ {W S A M : Type 0} (H : Host W) {clock : W → ℕ} (C : HasClock H clock)
    (body : S → Exec W (Round S A)) (b : (s : S) → Progress clock (body s))
    (J : List M → S → W → Type 0) (Q : A → W → Type 0)
    (steady : (ms : List M) (s : S) (w : W) → J ms s w → J ms s (H.monotonic w).1)
    (round : (ms : List M) (s : S) (w : W) → J ms s w → Does (body s) w (RoundOn J Q ms)) where
  next_round :
      (fuel start timeout : ℕ) (ms : List M) (r : Round S A) (w : W)
      → RoundOn J Q ms r w
      → ((ms' : List M) (s : S)
          → J ms' s w
          → Does
              (poll H fuel start timeout body s)
              w
              (FoundOr Q (λ w'. timeout ≤ clock w' - start)))
      → Does
          (elim r as (λ x. Exec W (Option A)) [
            | again s ↦ poll H fuel start timeout body s
            | done a ↦ pure (some a)
          ])
          w
          (FoundOr Q (λ w'. timeout ≤ clock w' - start))
  next_round fuel start timeout [] (again s) w h k = absurd h
  next_round fuel start timeout (m ∷ ms) (again s) w h k = k ms s h
  next_round fuel start timeout ms (done a) w h k = Does-pure (some a) w h

  time_over :
      (fuel start timeout : ℕ) (s : S) (w : W)
      → ltb ((H.monotonic w).0 - start) timeout ≡ false
      → Does
          (poll H (suc fuel) start timeout body s)
          w
          (FoundOr Q (λ w'. timeout ≤ clock w' - start))
  unfolding poll
  time_over fuel start timeout s w over = record {
    value = none;
    next = (H.monotonic w).1;
    runs = rw over refl;
    holds = omega (arith, ltb_false→le _ _ over, C.now_until w);
  }

  poll-Finds :
      (fuel start timeout : ℕ) (ms : List M) (s : S) (w : W)
      → start + timeout ≤ clock w + fuel
      → J ms s w
      → Does
          (poll H (suc fuel) start timeout body s)
          w
          (FoundOr Q (λ w'. timeout ≤ clock w' - start))
  unfolding poll
  poll-Finds zero start timeout ms s w h j =
      elim (Bool-cases (ltb ((H.monotonic w).0 - start) timeout)) [
        | inl more ↦ absurd (omega (arith, ltb→lt _ _ more, C.now_from w))
        | inr over ↦ time_over zero start timeout s w over
      ]
  poll-Finds (suc fuel) start timeout ms s w h j =
      elim (Bool-cases (ltb ((H.monotonic w).0 - start) timeout)) [
        | inl more ↦
            let w₁ = (H.monotonic w).1 in
            let d = round ms s w₁ (steady ms s w j) in
            let later : clock w₁ < clock d.next = omega (
              arith,
              (b s).progress w₁ d.value (ap (λ p. p.0) d.runs),
              ap (λ p. clock p.1) d.runs,
            ) in
            let e = next_round (suc fuel) start timeout ms d.value d.next d.holds λ ms' s' j'.
              poll-Finds fuel start timeout ms' s' d.next
                (omega (arith, later, C.now_from w, C.now_until w)) j' in
            record {
              value = e.value;
              next = e.next;
              runs = rw (more, d.runs) e.runs;
              holds = e.holds;
            }
        | inr over ↦ time_over (suc fuel) start timeout s w over
      ]

  -- A loop that is to meet the items `ms` and then the one that ends it ends with this one, unless
  -- its time is over before.
  pub within-Finds :
      (timeout : ℕ) (ms : List M) (s : S) (w : W)
      → J ms s w
      → Does (within H timeout body s) w (FoundOr Q (λ w'. timeout ≤ clock w' - clock w))
  unfolding within
  within-Finds timeout ms s w j =
      let start = (H.monotonic w).0 in
      let w₁ = (H.monotonic w).1 in
      let d =
        poll-Finds timeout start timeout ms s w₁ (omega (arith, C.now_until w)) (steady ms s w j) in
      record {
        value = d.value;
        next = d.next;
        runs = rw (add-one timeout) d.runs;
        holds = found start d.value d.next (C.now_from w) d.holds;
      }
    where
      found :
          (start : ℕ) (o : Option A) (w' : W)
          → clock w ≤ start
          → FoundOr Q (λ v. timeout ≤ clock v - start) o w'
          → FoundOr Q (λ v. timeout ≤ clock v - clock w) o w'
      found start none w' h k = omega arith
      found start (some a) w' h k = k
