-- ===== src/Exec.antt =====
-- Python code that reads and changes the world outside (serial port, clock, random source) and may
-- raise: a function from a world to a result and the next world. What was written before a raise
-- stays written, so the world comes back beside an exception too.
pub mod Ends
pub mod Yields
pub mod Does
pub mod Outcome
pub mod Moves
pub mod Raises
pub mod Fallible
pub mod Steps
use serial_testkit.Prelude.{ℕ, ◌≡◌, refl, Bool, true, false, Option, none, some, if◌then◌else◌}

-- The exceptions that the program's code raises or catches. `handshake_error` is the subclass
-- HandshakeError of PeeringError; `serial_timeout` and `serial_error` come from the serial port.
pub data Exn : Type 0 where
  transport_error encoding_error connection_mismatch unexpected_message : Exn
  peering_error handshake_error value_error runtime_error : Exn
  serial_timeout serial_error overflow_error zero_division : Exn
  permission_error os_error index_error : Exn

-- `stuck` is no Python outcome: a loop of the model ran out of fuel.
pub data Result (A : Type 0) : Type 0 where
  ok : A → Result A
  err : Exn → Result A
  stuck : Result A

abbrev pub Exec : Type 0 → Type 0 → Type 0
Exec W A = W → Result A × W

module _ {W A : Type 0} where
  abbrev pub pure : A → Exec W A
  pure a w = (ok a, w)

  abbrev pub raise : Exn → Exec W A
  raise e w = (err e, w)

  abbrev pub out_of_fuel : Exec W A
  out_of_fuel w = (stuck, w)

  -- A pure function that may raise.
  abbrev pub lift : Result A → Exec W A
  lift r w = (r, w)

  -- A call that cannot raise.
  abbrev pub call : (W → A × W) → Exec W A
  call f w = let (a, w') = f w in (ok a, w')

module _ {W A B : Type 0} where
  abbrev pub proceed : Result A → (A → Exec W B) → Exec W B
  proceed (ok a) f w = f a w
  proceed (err e) f w = (err e, w)
  proceed stuck f w = (stuck, w)

  infixl 10 ◌>>=◌ ◌>>◌
  abbrev pub ◌>>=◌ : Exec W A → (A → Exec W B) → Exec W B
  ◌>>=◌ m f w = let (r, w') = m w in proceed r f w'

  abbrev pub ◌>>◌ : Exec W A → Exec W B → Exec W B
  m >> n = m >>= λ _. n

abbrev pub caught : {A : Type 0} → (Exn → Bool) → Result A → Result (Option A)
caught catches (ok a) = ok (some a)
caught catches (err e) = if catches e then ok none else err e
caught catches stuck = stuck

module _ {W A : Type 0} where
  -- `try: m` with an `except` clause for the exceptions of `catches`: `none` if one was caught.
  abbrev pub attempt : (Exn → Bool) → Exec W A → Exec W (Option A)
  attempt catches m w = let (r, w') = m w in (caught catches r, w')

-- What a caught exception, or a loop whose time is over, leaves of a Boolean result.
abbrev pub or_false : Option Bool → Bool
or_false none = false
or_false (some b) = b

-- `except (TransportError, EncodingError)`
abbrev pub is_decode_error : Exn → Bool
is_decode_error transport_error = true
is_decode_error encoding_error = true
is_decode_error _ = false

-- `except (TransportError, EncodingError, ConnectionMismatchError)`
abbrev pub is_receive_error : Exn → Bool
is_receive_error transport_error = true
is_receive_error encoding_error = true
is_receive_error connection_mismatch = true
is_receive_error _ = false

-- `except PeeringError`
abbrev pub is_peering_error : Exn → Bool
is_peering_error peering_error = true
is_peering_error handshake_error = true
is_peering_error _ = false

-- What a `finally` clause leaves of the result: its own exception replaces it.
abbrev pub unless_raised : {A B : Type 0} → Result B → Result A → Result A
unless_raised (ok _) r = r
unless_raised (err e) r = err e
unless_raised stuck r = stuck

-- `try: m finally: last`
abbrev pub finally : {W A B : Type 0} → Exec W A → Exec W B → Exec W A
finally m last w = let (r, w') = m w in let (r', w'') = last w' in (unless_raised r' r, w'')
