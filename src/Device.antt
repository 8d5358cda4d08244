-- ===== src/Device.antt =====
-- common/device.py: the FTDI latency timer, the log of the device, and the opening of the port.
pub mod Timer
use Prim.Native.Char.{code}
use Prim.Native.String
use Prim.Native.String.{String}
use text.Mathlib.Text.{starts_with, ◌==◌ as str_eq}
use serial_testkit.Prelude.{
  ℕ, zero, suc, Bool, true, false, not, ◌||◌, List, [], ◌∷◌, ◌==◌, if◌then◌else◌,
}
use serial_testkit.Exec.{or_false, Exec, runtime_error, pure, raise, call, attempt, ◌>>=◌, ◌>>◌}

-- What the operating system and pyserial do for a device.
pub record Os (W : Type 0) : Type 0 where
  pub path_exists : String → W → Bool × W
  -- `int(f.read().strip())` on a file
  pub read_int : String → Exec W ℕ
  -- `f.write(str(n))` on a file opened for writing
  pub write_int : String → ℕ → Exec W (Unit {0})
  pub realpath : String → W → String × W
  -- the device names of `serial.tools.list_ports.comports()`
  pub comports : Exec W (List String)
  -- `serial.Serial(port=…, baudrate=…, rtscts=…)` with the fixed line settings
  pub open_port : String → ℕ → Bool → Exec W (Unit {0})
  pub reset_output_buffer : Exec W (Unit {0})
  pub close : Exec W (Unit {0})

abbrev pub ftdi_latency_timer_target : ℕ
ftdi_latency_timer_target = 1

has_slash : String → Bool
has_slash String.[] = false
has_slash (String.◌∷◌ c s) = code c == b'/' || has_slash s

-- `os.path.basename`: what stands behind the last slash.
unfoldable pub basename : String → String
unfolding has_slash
basename String.[] = String.[]
basename (String.◌∷◌ c s) = if has_slash (String.◌∷◌ c s) then basename s else String.◌∷◌ c s

count_device : String → List String → ℕ
count_device device [] = 0
count_device device (p ∷ ps) =
    let rest = count_device device ps in if str_eq p device then suc rest else rest

abbrev pub sysfs_path : String → String
sysfs_path device_name =
    String.◌++◌ "/sys/bus/usb-serial/devices/" (String.◌++◌ device_name "/latency_timer")

-- `except Exception`
abbrev pub any_error : {E : Type 0} → E → Bool
any_error _ = true

module _ {W : Type 0} (O : Os W) where
  -- The `try` block on the timer's file in sysfs.
  unfoldable pub set_latency_timer : String → Exec W Bool
  set_latency_timer path = do
    current_value ← O.read_int path
    if current_value == ftdi_latency_timer_target then pure true else (do
      O.write_int path ftdi_latency_timer_target
      new_value ← O.read_int path
      pure (new_value == ftdi_latency_timer_target))

  unfoldable pub configure_ftdi_latency_timer : String → Exec W Bool
  configure_ftdi_latency_timer device =
      let device_name = basename device in
      if not (starts_with device_name "ttyUSB") then pure false else (do
        there ← call (O.path_exists (sysfs_path device_name))
        if not there then pure false else (do
          r ← attempt any_error (set_latency_timer (sysfs_path device_name))
          pure (or_false r)))

  -- Two ports of one name raise; the rest is logging.
  unfoldable pub log_device_info : String → Exec W (Unit {0})
  unfolding count_device
  log_device_info device = do
    real_path ← call (O.realpath device)
    if starts_with real_path "/dev/pts/" then pure tt else (do
      ports ← O.comports
      elim (count_device device ports) [
        | zero ↦ pure tt
        | suc zero ↦ pure tt
        | suc (suc n) ↦ raise runtime_error
      ])

  unfoldable pub open_serial : String → ℕ → Bool → Exec W (Unit {0})
  open_serial device baudrate rtscts = do
    log_device_info device
    O.open_port device baudrate rtscts
    O.reset_output_buffer

  -- `if not no_latency_fix: configure_ftdi_latency_timer(device)`
  abbrev pub fix_latency : String → Bool → Exec W (Unit {0})
  fix_latency device true = pure tt
  fix_latency device false = do configure_ftdi_latency_timer device; pure tt
