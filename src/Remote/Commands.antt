-- ===== src/Remote/Commands.antt =====
-- tools/remote.py: the commands that the helper runs, and what becomes of their failures.

use Prim.Native.String.{String, ◌++◌}
use serial_testkit.Prelude.{ℕ, Bool, Option, some, List, [], ◌∷◌}
use serial_testkit.Exec.{Exec}
use serial_testkit.Remote.Results.{ℤ, minus_one, TestResult}

-- How `subprocess.run(args, capture_output=True, text=True, timeout=…)` comes out: with stdout,
-- stderr and the return code, with TimeoutExpired, or with another exception and its text.
pub data Outcome : Type 0 where
  finished : String → String → ℤ → Outcome
  timed_out : Outcome
  failed : String → Outcome

-- What the helper uses of the operating system and of Python's standard library. Times to sleep are
-- in milliseconds.
pub record Shell (W : Type 0) : Type 0 where
  pub run : List String → Option ℕ → W → Outcome × W
  -- the paths of `Path(dir).glob("*.py")`
  pub glob_py : String → W → List String × W
  pub exists : String → W → Bool × W
  -- `Path(dir).mkdir(parents=True, exist_ok=True)`
  pub make_dir : String → Exec W (Unit {0})
  pub say : String → W → Unit {0} × W
  pub sleep : ℕ → W → Unit {0} × W
  -- `threading.Thread(target=…).start()`, and `join(timeout)` with what the target has left by then
  pub start : (W → TestResult × W) → W → Unit {0} × W
  pub join : ℕ → W → Option TestResult × W
  -- `line.strip()`, `text.split("\n")`, and `re.match(r"tty(USB|AMA|ACM)", line)`
  pub strip : String → String
  pub lines : String → List String
  pub is_port : String → Bool

-- RemoteConfig and LocalConfig, whose defaults come from environment variables.
pub record RemoteConfig : Type 0 where
  pub host : String
  pub user : String
  pub password : String
  pub device : String
  pub path : String

pub record LocalConfig : Type 0 where
  pub device : String
  pub script_dir : String

-- A file of a directory other than "/".
abbrev pub child : String → String → String
child dir name = dir ++ "/" ++ name

abbrev pub user_at_host : RemoteConfig → String
user_at_host c = c.user ++ "@" ++ c.host

unfoldable pub ssh_args : RemoteConfig → String → List String
ssh_args c command =
    "sshpass"
    ∷ "-p"
    ∷ c.password
    ∷ "ssh"
    ∷ "-oPubKeyAuthentication=no"
    ∷ "-oStrictHostKeyChecking=no"
    ∷ user_at_host c
    ∷ command
    ∷ []

unfoldable pub scp_args : RemoteConfig → String → String → List String
scp_args c source target =
    "sshpass" ∷ "-p" ∷ c.password ∷ "scp" ∷ "-oPubKeyAuthentication=no"
    ∷ "-oStrictHostKeyChecking=no" ∷ source ∷ target ∷ []

unfoldable pub rsync_args : RemoteConfig → String → String → List String
rsync_args c remote_dir local_dir =
    "sshpass"
    ∷ "-p"
    ∷ c.password
    ∷ "rsync"
    ∷ "-avz"
    ∷ "-e"
    ∷ "ssh -oPubKeyAuthentication=no -oStrictHostKeyChecking=no"
    ∷ (user_at_host c ++ ":" ++ remote_dir ++ "/")
    ∷ (local_dir ++ "/")
    ∷ []

-- The output and return code of a command, or a text and -1 for an exception.
unfoldable pub captured : String → Outcome → String × ℤ
captured kind (finished stdout stderr returncode) = (stdout ++ stderr, returncode)
captured kind timed_out = (kind ++ " command timed out", minus_one)
captured kind (failed e) = (kind ++ " error: " ++ e, minus_one)

module _ {W : Type 0} (S : Shell W) (c : RemoteConfig) where
  unfoldable pub ssh_cmd : String → ℕ → W → (String × ℤ) × W
  ssh_cmd command timeout w =
      let (r, w') = S.run (ssh_args c command) (some timeout) w in (captured "SSH" r, w')

  unfoldable pub scp_upload : String → String → W → (String × ℤ) × W
  scp_upload local_path remote_path w =
      let (r, w') =
        S.run (scp_args c local_path (user_at_host c ++ ":" ++ remote_path)) (some 60) w in
      (captured "SCP" r, w')

  unfoldable pub scp_download : String → String → W → (String × ℤ) × W
  scp_download remote_path local_path w =
      let (r, w') =
        S.run (scp_args c (user_at_host c ++ ":" ++ remote_path) local_path) (some 60) w in
      (captured "SCP" r, w')

-- The default of `timeout` in `ssh_cmd`.
abbrev pub ssh_timeout : ℕ
ssh_timeout = 120
