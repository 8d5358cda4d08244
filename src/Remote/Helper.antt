-- ===== src/Remote/Helper.antt =====
-- tools/remote.py: the operations of `RemoteHelper`.

use Prim.Native.String.{String, ◌++◌}
use serial_testkit.Prelude.{
  ℕ, ◌+◌, ◌*◌, Bool, true, false, ◌&&◌, not, Option, none, some, List, [], ◌∷◌, ltb, if◌then◌else◌,
}
use serial_testkit.Exec.{Exec, os_error, pure, raise, call, ◌>>=◌, ◌>>◌}
use serial_testkit.Device.{basename}
use serial_testkit.Remote.Text.{codes, is_in, decimal}
use serial_testkit.Remote.Results.{ℤ, is_zero, TestResult, no_result, parse_result}
use serial_testkit.Remote.Commands.{
  Outcome, finished, timed_out, failed, Shell, RemoteConfig, LocalConfig, child, rsync_args,
  ssh_cmd, scp_upload, ssh_timeout,
}

-- The flow control of a test.
pub data FlowControl : Type 0 where
  no_flow crtscts : FlowControl

abbrev pub flow_name : FlowControl → String
flow_name no_flow = "none"
flow_name crtscts = "crtscts"

-- `duration_s * 3 + 60`
abbrev pub test_timeout : ℕ → ℕ
test_timeout duration_s = duration_s * 3 + 60

abbrev timeout_or : Option ℕ → ℕ → ℕ
timeout_or none duration_s = test_timeout duration_s
timeout_or (some timeout) duration_s = timeout

unfoldable pub test_cmd : RemoteConfig → ℕ → FlowControl → String
test_cmd c duration_s flow_control =
    "cd "
    ++ c.path
    ++ " && "
    ++ "sudo ./pop run --device "
    ++ c.device
    ++ " "
    ++ "-f "
    ++ flow_name flow_control
    ++ " -t "
    ++ decimal duration_s

unfoldable pub test_args : LocalConfig → ℕ → FlowControl → List String
test_args l duration_s flow_control =
    "sudo"
    ∷ child l.script_dir "pop"
    ∷ "run"
    ∷ "--device"
    ∷ l.device
    ∷ "-f"
    ∷ flow_name flow_control
    ∷ "-t"
    ∷ decimal duration_s
    ∷ []

-- The result of a local test, however its process came out.
unfoldable pub local_result : Outcome → TestResult
local_result (finished stdout stderr returncode) = parse_result (stdout ++ stderr) returncode
local_result timed_out = no_result "TIMEOUT"
local_result (failed e) = no_result ("Error: " ++ e)

-- `remote_result_holder.get("result", …)`
abbrev pub or_incomplete : Option TestResult → TestResult
or_incomplete none = no_result "Remote thread did not complete"
or_incomplete (some r) = r

-- Behind a `return False` nothing follows.
abbrev pub and_then : {W : Type 0} → Exec W Bool → Exec W Bool → Exec W Bool
and_then m n = do good ← m; elim good [ true ↦ n | false ↦ pure false ]

module _ {W : Type 0} (S : Shell W) (c : RemoteConfig) (l : LocalConfig) where
  -- One upload, with the text for its failure.
  unfoldable pub upload_file : String → String → Exec W Bool
  upload_file path name = do
    (output, returncode) ← call (scp_upload S c path (c.path ++ "/"))
    if not (is_zero returncode)
        then (do call (S.say ("Failed to upload " ++ name ++ ": " ++ output)); pure false)
        else pure true

  -- `if path.exists():` around an upload
  unfoldable pub upload_if_there : String → String → Exec W Bool
  upload_if_there path name = do
    there ← call (S.exists path)
    if there then upload_file path name else pure true

  -- `for py_file in script_dir.glob("*.py")`
  unfoldable pub upload_files : List String → Exec W Bool
  upload_files [] = pure true
  upload_files (path ∷ paths) = do
    done ← upload_file path (basename path)
    elim done [ true ↦ upload_files paths | false ↦ pure false ]

  unfoldable pub make_remote_dir : Exec W Bool
  make_remote_dir = do
    (output, returncode) ← call (ssh_cmd S c ("mkdir -p " ++ c.path) ssh_timeout)
    if not (is_zero returncode)
        then (do call (S.say ("Failed to create remote directory: " ++ output)); pure false)
        else pure true

  -- A failure is a warning only.
  unfoldable pub clean_remote : Exec W Bool
  clean_remote = do
    (output, returncode) ← call (ssh_cmd S c ("cd " ++ c.path ++ " && ./pop clean") ssh_timeout)
    if not (is_zero returncode)
        then (do call (S.say ("Warning: pop clean failed: " ++ output)); pure true)
        else pure true

  unfoldable pub upload_code : Exec W Bool
  upload_code = and_then make_remote_dir (
      and_then (do paths ← call (S.glob_py l.script_dir); upload_files paths)
        (and_then (upload_if_there (child l.script_dir "pop") "pop") (
          and_then (upload_if_there (child l.script_dir "requirements.txt") "requirements.txt")
            clean_remote)))

  unfoldable pub verify_connectivity : W → Bool × W
  verify_connectivity w =
      let ((output, returncode), w') = ssh_cmd S c "echo OK" ssh_timeout w in
      (is_in (codes "OK") (codes output) && is_zero returncode, w')

  -- `[line.strip() for line in lines if line.strip()]`
  unfoldable pub stripped : List String → List String
  stripped [] = []
  stripped (line ∷ rest) = elim (codes (S.strip line)) [
    | [] ↦ stripped rest
    | d ∷ ds ↦ S.strip line ∷ stripped rest
  ]

  unfoldable pub check_remote_serial_ports : W → List String × W
  check_remote_serial_ports w =
      let ((output, _), w') =
        ssh_cmd S c "ls /dev/tty* 2>/dev/null | grep -E '(USB|AMA|ACM)'" ssh_timeout w in
      (stripped (S.lines (S.strip output)), w')

  unfoldable pub ports_of : List String → List String
  ports_of [] = []
  ports_of (line ∷ rest) =
      let more = ports_of rest in if S.is_port line then ("/dev/" ++ line) ∷ more else more

  -- Nothing catches an exception here; it is kept as an OSError.
  unfoldable pub check_local_serial_ports : Exec W (List String)
  check_local_serial_ports = do
    r ← call (S.run ("ls" ∷ "-1" ∷ "/dev/" ∷ []) none)
    elim r [
      | finished stdout stderr returncode ↦ pure (ports_of (S.lines (S.strip stdout)))
      | timed_out ↦ raise os_error
      | failed e ↦ raise os_error
    ]

  unfoldable pub kill_remote_tests : W → (String × ℤ) × W
  kill_remote_tests = ssh_cmd S c "sudo pkill -f 'python.*serialtest' || true" ssh_timeout

  unfoldable pub kill_local_tests : Exec W (Unit {0})
  kill_local_tests = do
    r ← call (S.run ("sudo" ∷ "pkill" ∷ "-f" ∷ "python.*serialtest" ∷ []) none)
    elim r [
      | finished stdout stderr returncode ↦ pure tt
      | timed_out ↦ raise os_error
      | failed e ↦ raise os_error
    ]

  unfoldable pub cleanup_all : Exec W (Unit {0})
  cleanup_all = do call kill_remote_tests; kill_local_tests

  unfoldable pub run_remote_test : ℕ → FlowControl → Option ℕ → W → TestResult × W
  run_remote_test duration_s flow_control timeout w =
      let ((output, returncode), w') =
        ssh_cmd S c (test_cmd c duration_s flow_control) (timeout_or timeout duration_s) w in
      (parse_result output returncode, w')

  unfoldable pub run_local_test : ℕ → FlowControl → Option ℕ → W → TestResult × W
  run_local_test duration_s flow_control timeout w =
      let (r, w') =
        S.run (test_args l duration_s flow_control) (some (timeout_or timeout duration_s)) w in
      (local_result r, w')

  -- The remote test runs in a thread beside the local one.
  unfoldable pub run_test_pair : ℕ → FlowControl → ℕ → W → (TestResult × TestResult) × W
  run_test_pair duration_s flow_control start_delay w =
      let timeout = test_timeout duration_s in
      let (_, w₁) = S.start (run_remote_test duration_s flow_control (some timeout)) w in
      let (_, w₂) = if ltb 0 start_delay then S.sleep start_delay w₁ else (tt, w₁) in
      let (local, w₃) = run_local_test duration_s flow_control (some timeout) w₂ in
      let (remote, w₄) = S.join timeout w₃ in ((local, or_incomplete remote), w₄)

  -- `result.returncode == 0`, and False for an exception of the command; `mkdir` stands before `try`.
  unfoldable pub fetch_remote_results : String → String → Exec W Bool
  fetch_remote_results remote_dir local_dir = do
    S.make_dir local_dir
    r ← call (S.run (rsync_args c remote_dir local_dir) (some 120))
    elim r [
      | finished stdout stderr returncode ↦ pure (is_zero returncode)
      | timed_out ↦ pure false
      | failed e ↦ pure false
    ]
