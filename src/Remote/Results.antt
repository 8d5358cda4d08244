-- ===== src/Remote/Results.antt =====
-- tools/remote.py: the result of a test, and how it is read from the test's output.

use Prim.Native.String.{String}
use serial_testkit.Prelude.{
  ℕ, Bool, false, ◌&&◌, Option, none, some, [], ◌∷◌, ltb, ◌==◌, if◌then◌else◌,
}
use serial_testkit.Remote.Text.{Chars, codes, is_in, lower, number, spaces, fixed, ◌>>=◌}

-- A return code: a process that a signal ended has a negative one.
pub data ℤ : Type 0 where
  pos : ℕ → ℤ
  negsuc : ℕ → ℤ

unfoldable pub is_zero : ℤ → Bool
is_zero (pos n) = n == 0
is_zero (negsuc n) = false

abbrev pub minus_one : ℤ
minus_one = negsuc 0

pub data Role : Type 0 where
  unknown initiator responder : Role

pub record TestResult : Type 0 where
  pub output : String
  pub returncode : ℤ
  pub sent : ℕ
  pub recv : ℕ
  pub ok : ℕ
  pub role : Role
  pub success : Bool

-- `TestResult(output=…, returncode=-1)`, with the defaults of the other fields.
abbrev pub no_result : String → TestResult
no_result output = record {
  output = output;
  returncode = minus_one;
  sent = 0;
  recv = 0;
  ok = 0;
  role = unknown;
  success = false;
}

-- `sent=(\d+)\s+recv=(\d+)\s+ok=(\d+)` at the start of a text
unfoldable pub stats_at : Chars → Option (ℕ × ℕ × ℕ)
stats_at s = do
  s₁ ← fixed (codes "sent=") s
  (sent, s₂) ← number s₁
  s₃ ← spaces s₂
  s₄ ← fixed (codes "recv=") s₃
  (recv, s₅) ← number s₄
  s₆ ← spaces s₅
  s₇ ← fixed (codes "ok=") s₆
  (ok, s₈) ← number s₇
  some (sent, recv, ok)

-- `re.search`: the first place at which the pattern matches.
unfoldable pub search_stats : Chars → Option (ℕ × ℕ × ℕ)
search_stats [] = none
search_stats (c ∷ s) = elim (stats_at (c ∷ s)) [ some found ↦ some found | none ↦ search_stats s ]

-- The counters, 0 where the pattern was not found.
unfoldable pub stats_of : String → ℕ × ℕ × ℕ
stats_of output = elim (search_stats (codes output)) [ some found ↦ found | none ↦ (0, 0, 0) ]

unfoldable pub role_of : String → Role
role_of output =
    if is_in (codes "initiator") (lower (codes output))
    then initiator
    else if is_in (codes "responder") (lower (codes output))
    then responder
    else unknown

-- `"Test completed successfully" in output`
unfoldable pub completed : String → Bool
completed output = is_in (codes "Test completed successfully") (codes output)

unfoldable pub parse_result : String → ℤ → TestResult
parse_result output returncode =
    let (sent, recv, ok) = stats_of output in
    record {
      output = output;
      returncode = returncode;
      sent = sent;
      recv = recv;
      ok = ok;
      role = role_of output;
      success = completed output && ok == recv && ltb 0 recv;
    }
