-- ===== src/Remote/Text.antt =====
-- tools/remote.py: what the helper does with texts. A text is the list of its characters' numbers;
-- the digits and spaces of a pattern are those of ASCII.
use Prim.Native.Char.{code}
use Prim.Native.String
use Prim.Native.String.{String}
use serial_testkit.Prelude.{
  ℕ, zero, suc, ◌+◌, ◌-◌, ◌*◌, ◌/◌, ◌%◌, Bool, true, false, ◌&&◌, ◌||◌, Option, none, some, List,
  [], ◌∷◌, ltb, leb, ◌==◌, if◌then◌else◌,
}

abbrev pub Chars : Type 0
Chars = List ℕ

unfoldable pub codes : String → Chars
codes String.[] = []
codes (String.◌∷◌ c s) = code c ∷ codes s

unfoldable pub is_prefix : Chars → Chars → Bool
is_prefix [] s = true
is_prefix (c ∷ t) [] = false
is_prefix (c ∷ t) (d ∷ s) = c == d && is_prefix t s

-- `t in s`
unfoldable pub is_in : Chars → Chars → Bool
is_in t [] = is_prefix t []
is_in t (c ∷ s) = is_prefix t (c ∷ s) || is_in t s

-- `s.lower()` on the letters of ASCII, which are all that "initiator" and "responder" have.
unfoldable pub lower : Chars → Chars
lower [] = []
lower (c ∷ s) = (if leb 65 c && leb c 90 then c + 32 else c) ∷ lower s

abbrev pub is_digit : ℕ → Bool
is_digit c = leb 48 c && leb c 57

abbrev pub is_space : ℕ → Bool
is_space c = c == 32 || (leb 9 c && leb c 13)

unfoldable pub digits : ℕ → Chars → ℕ × Chars
digits n [] = (n, [])
digits n (c ∷ s) =
    let more = digits (n * 10 + (c - 48)) s in if is_digit c then more else (n, c ∷ s)

-- The parts of a pattern, one behind the other.
module _ {A B : Type 0} where
  infixl 10 ◌>>=◌
  abbrev pub ◌>>=◌ : Option A → (A → Option B) → Option B
  none >>= f = none
  some a >>= f = f a

-- `(\d+)`, with the number that it captures
unfoldable pub number : Chars → Option (ℕ × Chars)
number [] = none
number (c ∷ s) = if is_digit c then some (digits (c - 48) s) else none

unfoldable pub skip_spaces : Chars → Chars
skip_spaces [] = []
skip_spaces (c ∷ s) = let rest = skip_spaces s in if is_space c then rest else c ∷ s

-- `\s+`
unfoldable pub spaces : Chars → Option Chars
spaces [] = none
spaces (c ∷ s) = if is_space c then some (skip_spaces s) else none

-- A fixed part of a pattern.
unfoldable pub fixed : Chars → Chars → Option Chars
fixed [] s = some s
fixed (c ∷ t) [] = none
fixed (c ∷ t) (d ∷ s) = if c == d then fixed t s else none

-- `str(n)`
abbrev nth : List String → ℕ → String
nth [] n = ""
nth (s ∷ ss) zero = s
nth (s ∷ ss) (suc n) = nth ss n

abbrev digit : ℕ → String
digit n = nth ("0" ∷ "1" ∷ "2" ∷ "3" ∷ "4" ∷ "5" ∷ "6" ∷ "7" ∷ "8" ∷ "9" ∷ []) n

unfoldable pub decimal_from : ℕ → ℕ → String → String
decimal_from zero n tail = tail
decimal_from (suc fuel) n tail = elim (ltb n 10) [
  | true ↦ String.◌++◌ (digit n) tail
  | false ↦ decimal_from fuel (n / 10) (String.◌++◌ (digit (n % 10)) tail)
]

abbrev pub decimal : ℕ → String
decimal n = decimal_from (suc n) n ""
