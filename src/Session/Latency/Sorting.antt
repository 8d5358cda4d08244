-- ===== src/Session/Latency/Sorting.antt =====
-- Python's `sorted` and `sum` on lists of numbers, and when a list holds a number.
use serial_testkit.Prelude.{
  ℕ, Bool-cases, inl, inr, ◌+◌, ◌≤◌, ◌≡◌, refl, Bool, false, ◌||◌, List, [], ◌∷◌, leb, ◌==◌, length,
  All, if◌then◌else◌, arith,
}

unfoldable pub insert : ℕ → List ℕ → List ℕ
insert x [] = x ∷ []
insert x (y ∷ ys) = let rest = insert x ys in if leb x y then x ∷ y ∷ ys else y ∷ rest

unfoldable pub sorted : List ℕ → List ℕ
sorted [] = []
sorted (x ∷ xs) = insert x (sorted xs)

unfoldable pub sum : List ℕ → ℕ
sum [] = 0
sum (x ∷ xs) = x + sum xs

-- `v in xs`
unfoldable pub has : ℕ → List ℕ → Bool
has v [] = false
has v (x ∷ xs) = v == x || has v xs

abbrev pub IsSorted : List ℕ → Type 0
IsSorted [] = Unit {0}
IsSorted (x ∷ xs) = All (λ y. x ≤ y) xs × IsSorted xs

length-insert : (x : ℕ) (xs : List ℕ) → length (insert x xs) ≡ length xs + 1
unfolding insert
length-insert x [] = refl
length-insert x (y ∷ ys) = ground (arith, length-insert x ys)

pub length-sorted : (xs : List ℕ) → length (sorted xs) ≡ length xs
unfolding sorted
length-sorted [] = refl
length-sorted (x ∷ xs) = omega (arith, length-insert x (sorted xs), length-sorted xs)

has-insert : (v x : ℕ) (xs : List ℕ) → has v (insert x xs) ≡ (v == x || has v xs)
unfolding insert has
has-insert v x [] = refl
has-insert v x (y ∷ ys) = ground (arith, has-insert v x ys)

pub has-sorted : (v : ℕ) (xs : List ℕ) → has v (sorted xs) ≡ has v xs
unfolding sorted has
has-sorted v [] = refl
has-sorted v (x ∷ xs) = ground (arith, has-insert v x (sorted xs), has-sorted v xs)

All-insert : (P : ℕ → Type 0) (x : ℕ) (xs : List ℕ) → P x → All P xs → All P (insert x xs)
unfolding insert
All-insert P x [] h k = (h, tt)
All-insert P x (y ∷ ys) h (k, ks) = ground (arith, All-insert P x ys h ks)

pub All-le : (x y : ℕ) (xs : List ℕ) → x ≤ y → All (λ z. y ≤ z) xs → All (λ z. x ≤ z) xs
All-le x y [] h k = tt
All-le x y (z ∷ zs) h (k, ks) = (omega arith, All-le x y zs h ks)

insert-IsSorted : (x : ℕ) (xs : List ℕ) → IsSorted xs → IsSorted (insert x xs)
unfolding insert
insert-IsSorted x [] h = (tt, tt)
insert-IsSorted x (y ∷ ys) (h, hs) = elim (Bool-cases (leb x y)) [
  | inl e ↦ rw e (let le : x ≤ y = ground arith in ((le, All-le x y ys le h), (h, hs)))
  | inr e ↦ rw e (All-insert (λ z. y ≤ z) x ys (ground arith) h, insert-IsSorted x ys hs)
]

pub sorted-IsSorted : (xs : List ℕ) → IsSorted (sorted xs)
unfolding sorted
sorted-IsSorted [] = tt
sorted-IsSorted (x ∷ xs) = insert-IsSorted x (sorted xs) (sorted-IsSorted xs)

All-insert_inv : (P : ℕ → Type 0) (x : ℕ) (xs : List ℕ) → All P (insert x xs) → P x × All P xs
unfolding insert
All-insert_inv P x [] h = h
All-insert_inv P x (y ∷ ys) h = elim (Bool-cases (leb x y)) [
  | inl e ↦ rw e at h
  | inr e ↦
      let (k, ks) : P y × All P (insert x ys) = rw e at h in
      let (a, rest) = All-insert_inv P x ys ks in (a, (k, rest))
]

pub All-sorted_inv : (P : ℕ → Type 0) (xs : List ℕ) → All P (sorted xs) → All P xs
unfolding sorted
All-sorted_inv P [] h = tt
All-sorted_inv P (x ∷ xs) h =
    let (a, rest) = All-insert_inv P x (sorted xs) h in (a, All-sorted_inv P xs rest)
