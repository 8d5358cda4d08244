-- ===== src/Timed.antt =====
-- The loops `while time.monotonic() - start < timeout` of the handshakes and the shutdown.
pub mod Returns
pub mod Finds
use serial_testkit.Prelude.{ℕ, zero, suc, ◌+◌, ◌-◌, Option, none, some, ltb, if◌then◌else◌}
use serial_testkit.Prelude.Bytes.{Bytes}
use serial_testkit.Exec.{Exec, pure, out_of_fuel, call, ◌>>=◌, ◌>>◌}
use serial_testkit.Host.{Host}

-- A round of a loop: `continue` with new loop variables, or `return`.
pub data Round (S A : Type 0) : Type 0 where
  again : S → Round S A
  done : A → Round S A

module _ {W : Type 0} (H : Host W) where
  -- `none`: the time is over.
  unfoldable pub poll :
      {S A : Type 0} → ℕ → ℕ → ℕ → (S → Exec W (Round S A)) → S → Exec W (Option A)
  poll zero start timeout body s = out_of_fuel
  poll (suc fuel) start timeout body s = do
    now ← call H.monotonic
    if ltb (now - start) timeout
        then (do
          r ← body s
          elim r [ again s' ↦ poll fuel start timeout body s' | done a ↦ pure (some a) ])
        else pure none

  -- A round takes a nanosecond at least, so `timeout + 1` rounds are enough.
  unfoldable pub within : {S A : Type 0} → ℕ → (S → Exec W (Round S A)) → S → Exec W (Option A)
  within timeout body s = do start ← call H.monotonic; poll (timeout + 1) start timeout body s

  -- `if time.monotonic() - last > interval: port.write(msg); last = time.monotonic()`
  unfoldable pub retransmit : Bytes → ℕ → ℕ → Exec W ℕ
  retransmit msg interval last = do
    now ← call H.monotonic
    if ltb interval (now - last) then (do H.write msg; call H.monotonic) else pure last
