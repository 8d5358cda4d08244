-- ===== src/DurationTest/Ends.antt =====
-- tools/duration_test.py and tools/remote.py: the loop of tests against the clock.

use Prim.Native.String.{String, ◌++◌}
use serial_testkit.Prelude.{
  ℕ, zero, suc, ◌≤◌, ◌<◌, ◌≡◌, Bool, true, false, not, Option, none, List, [], ◌∷◌, ltb,
  if◌then◌else◌, arith,
}
use serial_testkit.Exec.{Exec, os_error, pure, raise, call, ◌>>=◌, ◌>>◌}
use serial_testkit.Exec.Ends.{Ends, Ends-pure, Ends-raise, Ends-call, Ends-if, Ends-bind}
use serial_testkit.Remote.Results.{ℤ, TestResult, is_zero}
use serial_testkit.Remote.Commands.{
  Outcome, finished, timed_out, failed, Shell, RemoteConfig, LocalConfig, ssh_cmd, scp_upload,
  ssh_timeout,
}
use serial_testkit.Remote.Helper.{
  FlowControl, upload_file, upload_if_there, upload_files, and_then, make_remote_dir, clean_remote,
  upload_code, verify_connectivity, kill_remote_tests, kill_local_tests, cleanup_all,
  run_local_test, run_test_pair,
}

-- Nothing turns the clock back, and a sleep takes a nanosecond at least. Every call comes back.
pub record ShellTime {W : Type 0} (S : Shell W) (clock : W → ℕ) : Type 0 where
  pub run_later : (args : List String) (t : Option ℕ) (w : W) → clock w ≤ clock (S.run args t w).1
  pub glob_later : (dir : String) (w : W) → clock w ≤ clock (S.glob_py dir w).1
  pub exists_later : (path : String) (w : W) → clock w ≤ clock (S.exists path w).1
  pub say_later : (line : String) (w : W) → clock w ≤ clock (S.say line w).1
  pub sleep_later : (n : ℕ) (w : W) → 0 < n → clock w < clock (S.sleep n w).1
  pub start_later : (f : W → TestResult × W) (w : W) → clock w ≤ clock (S.start f w).1
  pub join_later : (t : ℕ) (w : W) → clock w ≤ clock (S.join t w).1

chain : {a b c : ℕ} → a ≤ b → b ≤ c → a ≤ c
chain h k = omega (arith, h, k)

module _ {W : Type 0} (S : Shell W) (c : RemoteConfig) (l : LocalConfig) {clock : W → ℕ}
    (T : ShellTime S clock) where
  ssh_cmd-later :
      (command : String) (timeout : ℕ) (w : W) → clock w ≤ clock (ssh_cmd S c command timeout w).1
  unfolding ssh_cmd
  ssh_cmd-later command timeout w = T.run_later _ _ w

  pub say-Ends : (line : String) → Ends clock (call (S.say line))
  say-Ends line = Ends-call _ (T.say_later line)

  told-Ends :
      (text : String × ℤ → String) (m : W → (String × ℤ) × W)
      → ((w : W) → clock w ≤ clock (m w).1)
      → Ends clock (do
        (output, returncode) ← call m
        if not (is_zero returncode)
            then (do call (S.say (text (output, returncode))); pure false)
            else pure true)
  told-Ends text m h = Ends-bind (call m) _ (Ends-call m h) λ (output, returncode).
      Ends-if (not (is_zero returncode)) _ _
        (λ _.
          Ends-bind (call (S.say (text (output, returncode)))) _ (say-Ends _) λ _. Ends-pure false)
        λ _. Ends-pure true

  and_then-Ends : (m n : Exec W Bool) → Ends clock m → Ends clock n → Ends clock (and_then m n)
  and_then-Ends m n hm hn = Ends-bind m _ hm λ good.
      elim good
        as (λ b. Ends clock (elim b as (λ _. Exec W Bool) [ true ↦ n | false ↦ pure false ])) [
          | true ↦ hn
          | false ↦ Ends-pure false
        ]

  upload_file-Ends : (path name : String) → Ends clock (upload_file S c l path name)
  unfolding upload_file scp_upload
  upload_file-Ends path name =
      told-Ends (λ q. "Failed to upload " ++ name ++ ": " ++ q.0) _ (λ w. T.run_later _ _ w)

  upload_if_there-Ends : (path name : String) → Ends clock (upload_if_there S c l path name)
  unfolding upload_if_there
  upload_if_there-Ends path name =
      Ends-bind (call (S.exists path)) _ (Ends-call _ (T.exists_later path))
        λ there. Ends-if there _ _ (λ _. upload_file-Ends path name) λ _. Ends-pure true

  upload_files-Ends : (paths : List String) → Ends clock (upload_files S c l paths)
  unfolding upload_files
  upload_files-Ends [] = Ends-pure true
  upload_files-Ends (path ∷ paths) =
      and_then-Ends _ _ (upload_file-Ends path _) (upload_files-Ends paths)

  pub upload_code-Ends : Ends clock (upload_code S c l)
  unfolding upload_code make_remote_dir clean_remote
  upload_code-Ends =
      and_then-Ends _ _
        (told-Ends (λ q. "Failed to create remote directory: " ++ q.0) _
          (ssh_cmd-later ("mkdir -p " ++ c.path) ssh_timeout))
        (and_then-Ends _ _
          (Ends-bind (call (S.glob_py l.script_dir)) _ (Ends-call _ (T.glob_later l.script_dir))
            upload_files-Ends)
          (and_then-Ends _ _ (upload_if_there-Ends _ "pop")
            (and_then-Ends _ _ (upload_if_there-Ends _ "requirements.txt") clean_remote-Ends)))
    where
      clean_remote-Ends : Ends clock (clean_remote S c l)
      clean_remote-Ends =
          Ends-bind (call (ssh_cmd S c ("cd " ++ c.path ++ " && ./pop clean") ssh_timeout)) _
            (Ends-call _ (ssh_cmd-later _ ssh_timeout))
            λ (output, returncode).
              Ends-if (not (is_zero returncode)) _ _
                (λ _.
                  Ends-bind (call (S.say ("Warning: pop clean failed: " ++ output))) _ (say-Ends _)
                    λ _. Ends-pure true)
                λ _. Ends-pure true

  pub cleanup_all-Ends : Ends clock (cleanup_all S c l)
  unfolding cleanup_all kill_remote_tests kill_local_tests
  cleanup_all-Ends =
      Ends-bind (call (ssh_cmd S c "sudo pkill -f 'python.*serialtest' || true" ssh_timeout)) _
        (Ends-call _ (ssh_cmd-later _ ssh_timeout))
        λ _.
          Ends-bind (call (S.run ("sudo" ∷ "pkill" ∷ "-f" ∷ "python.*serialtest" ∷ []) none)) _
            (Ends-call _ (T.run_later _ none)) killed-Ends
    where
      killed-Ends :
          (r : Outcome)
          → Ends clock (elim r as (λ _. Exec W (Unit {0})) [
            | finished stdout stderr returncode ↦ pure tt
            | timed_out ↦ raise os_error
            | failed e ↦ raise os_error
          ])
      killed-Ends (finished stdout stderr returncode) = Ends-pure tt
      killed-Ends timed_out = Ends-raise os_error
      killed-Ends (failed e) = Ends-raise os_error

  pub verify_connectivity-later : (w : W) → clock w ≤ clock (verify_connectivity S c l w).1
  unfolding verify_connectivity
  verify_connectivity-later w = ssh_cmd-later "echo OK" ssh_timeout w

  delayed : (n : ℕ) (w : W) → clock w ≤ clock (if ltb 0 n then S.sleep n w else (tt, w)).1
  delayed zero w = omega arith
  delayed (suc n) w =
      let h = T.sleep_later (suc n) w (omega arith) in rw (positive n) (omega (arith, h))
    where
      positive : (n : ℕ) → ltb 0 (suc n) ≡ true
      positive n = ground arith

  pub run_test_pair-later :
      (duration : ℕ) (flow : FlowControl) (delay : ℕ) (w : W)
      → clock w ≤ clock (run_test_pair S c l duration flow delay w).1
  unfolding run_test_pair run_local_test
  run_test_pair-later duration flow delay w =
      chain (T.start_later _ w)
        (chain (delayed delay _) (chain (T.run_later _ _ _) (T.join_later _ _)))
