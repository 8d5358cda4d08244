-- ===== src/Prelude/Bytes.antt =====
-- Python's `bytes`, `int.to_bytes(size, "little")` and `int.from_bytes(data, "little")`.
use Prim.Native.Nat.{ℕ, zero, suc, ◌+◌, ◌*◌, ◌/◌, ◌%◌, ◌^◌, ◌<◌}
use mathlib.Core.Path.{◌≡◌, refl, ap}
use mathlib.Core.Bool.{Bool, true, false, ◌&&◌}
use mathlib.Core.List.{List, [], ◌∷◌}
use mathlib.Core.Logic.{◌≢◌}
use native.Mathlib.Omega.{arith}
use native.Mathlib.Nat.{pow-suc}
use serial_testkit.Prelude.Tests.{◌==◌}
use serial_testkit.Prelude.Lists.{length, All}

abbrev pub Bytes : Type 0
Bytes = List ℕ

abbrev pub IsByte : ℕ → Type 0
IsByte b = b < 256

-- Little-endian digits in base 256; what does not fit is cut off, so callers test the range first.
unfoldable pub to_bytes : ℕ → ℕ → Bytes
to_bytes zero v = []
to_bytes (suc size) v = (v % 256) ∷ to_bytes size (v / 256)

unfoldable pub from_bytes : Bytes → ℕ
from_bytes [] = 0
from_bytes (b ∷ bs) = b + 256 * from_bytes bs

-- `a == b` on two values of type `bytes`.
unfoldable pub bytes_eq : Bytes → Bytes → Bool
bytes_eq [] [] = true
bytes_eq [] (y ∷ ys) = false
bytes_eq (x ∷ xs) [] = false
bytes_eq (x ∷ xs) (y ∷ ys) = x == y && bytes_eq xs ys

pub bytes_eq→eq : (xs ys : Bytes) → bytes_eq xs ys ≡ true → xs ≡ ys
unfolding bytes_eq
bytes_eq→eq [] [] h = refl
bytes_eq→eq [] (y ∷ ys) h = cc
bytes_eq→eq (x ∷ xs) [] h = cc
bytes_eq→eq (x ∷ xs) (y ∷ ys) h = ground (arith, bytes_eq→eq xs ys)

pub bytes_eq_self : (xs : Bytes) → bytes_eq xs xs ≡ true
unfolding bytes_eq
bytes_eq_self [] = refl
bytes_eq_self (x ∷ xs) = ground (arith, bytes_eq_self xs)

pub ne→bytes_eq_false : (xs ys : Bytes) → xs ≢ ys → bytes_eq xs ys ≡ false
ne→bytes_eq_false xs ys h = go (bytes_eq xs ys) refl
  where
    go : (b : Bool) → bytes_eq xs ys ≡ b → b ≡ false
    go true e = absurd (h (bytes_eq→eq xs ys e))
    go false e = refl

pub length-to_bytes : (size v : ℕ) → length (to_bytes size v) ≡ size
unfolding to_bytes
length-to_bytes zero v = refl
length-to_bytes (suc size) v = ap suc (length-to_bytes size (v / 256))

pub to_bytes-IsByte : (size v : ℕ) → All IsByte (to_bytes size v)
unfolding to_bytes
to_bytes-IsByte zero v = tt
to_bytes-IsByte (suc size) v = (omega arith, to_bytes-IsByte size (v / 256))

-- A number below 256 ^ size is read back from its `size` bytes.
pub from_bytes-to_bytes : (size v : ℕ) → v < 256 ^ size → from_bytes (to_bytes size v) ≡ v
unfolding to_bytes from_bytes
from_bytes-to_bytes zero v h = omega arith
from_bytes-to_bytes (suc size) v h =
    omega (arith, from_bytes-to_bytes size (v / 256) (omega (arith, pow-suc 256 size)))

low_digit : (b n : ℕ) → b < 256 → (b + 256 * n) % 256 ≡ b
low_digit b n h = omega arith

rest_digits : (b n : ℕ) → b < 256 → (b + 256 * n) / 256 ≡ n
rest_digits b n h = omega arith

-- Bytes are written back from their number.
pub to_bytes-from_bytes :
    (size : ℕ) (bs : Bytes) → length bs ≡ size → All IsByte bs → to_bytes size (from_bytes bs) ≡ bs
unfolding to_bytes from_bytes
to_bytes-from_bytes zero [] e h = refl
to_bytes-from_bytes zero (b ∷ bs) e h = absurd (omega arith)
to_bytes-from_bytes (suc size) [] e h = absurd (omega arith)
to_bytes-from_bytes (suc size) (b ∷ bs) e (hb, hbs) = cc (
  low_digit b (from_bytes bs) hb,
  rest_digits b (from_bytes bs) hb,
  to_bytes-from_bytes size bs (omega arith) hbs,
)

pub from_bytes-lt : (bs : Bytes) → All IsByte bs → from_bytes bs < 256 ^ length bs
unfolding from_bytes
from_bytes-lt [] h = omega arith
from_bytes-lt (b ∷ bs) (hb, hbs) = omega (arith, from_bytes-lt bs hbs, pow-suc 256 (length bs))
