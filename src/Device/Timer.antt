-- ===== src/Device/Timer.antt =====
-- common/device.py: what the FTDI latency timer is set to.

use Prim.Native.String.{String}
use text.Mathlib.Text.{starts_with}
use serial_testkit.Prelude.{
  ℕ, ◌≡◌, refl, ap, ◌∙◌, Bool, true, false, ◌&&◌, none, some, ◌==◌, inl, inr, Bool-cases,
  if◌then◌else◌,
}
use serial_testkit.Exec.{Exn, err, or_false, pure, attempt}
use serial_testkit.Exec.Does.{Does, Does-pure, run-bind}
use serial_testkit.Device.{
  Os, basename, sysfs_path, any_error, set_latency_timer, configure_ftdi_latency_timer,
}

-- The file `path` of the system: it is there or not, it holds the number `value w`, and a write of
-- `n` leaves `stored n` in it if the process may write, and raises and changes nothing if not.
pub record HasFile {W : Type 0} (O : Os W) (path : String) (there writable : Bool) (stored : ℕ → ℕ)
    (value : W → ℕ) : Type 0 where
  pub told : (w : W) → (O.path_exists path w).0 ≡ there
  pub still_told : (w : W) → value (O.path_exists path w).1 ≡ value w
  pub reads : (w : W) → Does (O.read_int path) w λ n w'. (n ≡ value w) × (value w' ≡ value w)
  pub writes :
      (n : ℕ) (w : W) → writable ≡ true → Does (O.write_int path n) w λ _ w'. value w' ≡ stored n
  pub refused :
      (n : ℕ) (w : W)
      → writable ≡ false
      → (x : Exn) × (w' : W) × (O.write_int path n w ≡ (err x, w')) × (value w' ≡ value w)

-- What the file is to hold in the end: what a write of 1 leaves, unless it holds 1 or may not be
-- written.
abbrev pub settled : Bool → (ℕ → ℕ) → ℕ → ℕ
settled writable stored n = if n == 1 then n else if writable then stored 1 else n

-- The function is for this device, and its file is there.
abbrev pub applies : String → Bool → Bool
applies device there = starts_with (basename device) "ttyUSB" && there

-- It says whether the file holds 1 in the end, or that it does not apply and left the file alone.
abbrev pub Settles : {W : Type 0} → Bool → Bool → (ℕ → ℕ) → (W → ℕ) → W → Bool → W → Type 0
Settles true writable stored value w b w' =
    (b ≡ (value w' == 1)) × (value w' ≡ settled writable stored (value w))
Settles false writable stored value w b w' = (b ≡ false) × (value w' ≡ value w)

module _ {W : Type 0} (O : Os W) (device : String) {there writable : Bool} {stored : ℕ → ℕ}
    {value : W → ℕ} (F : HasFile O (sysfs_path (basename device)) there writable stored value) where
  abbrev path : String
  path = sysfs_path (basename device)

  set_latency_timer-Settles :
      (w : W)
      → Does
          (attempt any_error (set_latency_timer O path))
          w
          λ o w'. Settles true writable stored value w (or_false o) w'
  unfolding set_latency_timer
  set_latency_timer-Settles w =
      let d = F.reads w in
      let (same, kept) = d.holds in
      elim (Bool-cases (value w == 1)) [
        | inl set ↦ record {
          value = some true;
          next = d.next;
          runs = rw (d.runs, same, set) refl;
          holds = (rw (kept, set) refl, rw set kept);
        }
        | inr unset ↦ elim (Bool-cases writable) [
          | inl may ↦
              let e = F.writes 1 d.next may in
              let r = F.reads e.next in
              let (read_back, still) = r.holds in
              record {
                value = some (value r.next == 1);
                next = r.next;
                runs = rw (d.runs, same, unset, e.runs, r.runs, read_back, still) refl;
                holds = (refl, rw (unset, may) (still ∙ e.holds));
              }
          | inr may_not ↦
              let (x, w', raises, left) = F.refused 1 d.next may_not in
              record {
                value = none;
                next = w';
                runs = rw (d.runs, same, unset, raises) refl;
                holds = (rw (left, kept, unset) refl, rw (unset, may_not) (left ∙ kept));
              }
        ]
      ]

  -- On a file of the device's latency timer that may refuse a write or store another number than
  -- the one written: for a device whose name begins with ttyUSB and whose file is there,
  -- `configure_ftdi_latency_timer` leaves the file alone if it holds 1, and writes 1 to it if not,
  -- and returns True exactly if the file then holds 1; a refused write gives False. For any other
  -- device, or without the file, it returns False and leaves the file alone.
  pub configure_ftdi_latency_timer-Settles :
      (w : W)
      → Does
          (configure_ftdi_latency_timer O device)
          w
          λ b w'. Settles (applies device there) writable stored value w b w'
  unfolding configure_ftdi_latency_timer
  configure_ftdi_latency_timer-Settles w =
      elim (Bool-cases (starts_with (basename device) "ttyUSB")) [
        | inr other ↦ rw other (Does-pure false w (refl, refl))
        | inl ftdi ↦ elim (Bool-cases there) [
          | inr missing ↦
              rw (ftdi, missing)
                (record {
                  value = false;
                  next = (O.path_exists path w).1;
                  runs = rw (F.told w, missing) refl;
                  holds = (refl, F.still_told w);
                })
          | inl present ↦
              let d = set_latency_timer-Settles (O.path_exists path w).1 in
              rw (ftdi, present)
                (record {
                  value = or_false d.value;
                  next = d.next;
                  runs =
                      rw (F.told w, present)
                        (run-bind (attempt any_error (set_latency_timer O path))
                          (λ r. pure (or_false r)) (O.path_exists path w).1 d.next d.value d.runs);
                  holds = (d.holds.0, d.holds.1 ∙ ap (settled writable stored) (F.still_told w));
                })
        ]
      ]
