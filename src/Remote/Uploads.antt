-- ===== src/Remote/Uploads.antt =====
-- tools/remote.py: `upload_code` against the list of the commands that it needs.
use Prim.Native.String
use Prim.Native.String.{String}
use serial_testkit.Prelude.{
  ℕ, ◌≡◌, refl, Bool, true, false, ◌&&◌, not, Bool-cases, some, List, [], ◌∷◌, ◌++◌, if◌then◌else◌,
  inl, inr, arith,
}
use serial_testkit.Exec.{ok, Exec, pure, call, ◌>>=◌, ◌>>◌}
use serial_testkit.Device.{basename}
use serial_testkit.Remote.Results.{is_zero}
use serial_testkit.Remote.Commands.{
  Outcome, finished, timed_out, failed, captured, Shell, RemoteConfig, LocalConfig, child,
  user_at_host, ssh_args, scp_args, ssh_cmd, scp_upload, ssh_timeout,
}
use serial_testkit.Remote.Helper.{
  upload_file, upload_if_there, upload_files, and_then, make_remote_dir, clean_remote, upload_code,
}

-- A command with its timeout.
abbrev pub Job : Type 0
Job = List String × ℕ

-- The command ended with return code 0.
abbrev pub fine : Outcome → Bool
fine r = is_zero (captured "" r).1

module _ {W : Type 0} (S : Shell W) where
  -- The commands, one after the other, up to the first that fails.
  unfoldable pub all_fine : List Job → W → Bool
  all_fine [] w = true
  all_fine ((command, timeout) ∷ jobs) w =
      let (r, w') = S.run command (some timeout) w in fine r && all_fine jobs w'

  unfoldable pub after_all : List Job → W → W
  after_all [] w = w
  after_all ((command, timeout) ∷ jobs) w = after_all jobs (S.run command (some timeout) w).1

  -- `m` returns whether the commands are all fine, and has run no more if they are.
  pub record Runs (jobs : List Job) (m : Exec W Bool) : Type 0 where
    pub works : (w : W) → all_fine jobs w ≡ true → m w ≡ (ok true, after_all jobs w)
    pub fails : (w : W) → all_fine jobs w ≡ false → (m w).0 ≡ ok false

  -- The local files that there are, which no command changes.
  pub record HasFiles (dir : String) (py_files : List String) (there : String → Bool) : Type 0 where
    pub globs : (w : W) → S.glob_py dir w ≡ (py_files, w)
    pub tells : (path : String) (w : W) → S.exists path w ≡ (there path, w)

code_same : (kind : String) (r : Outcome) → is_zero (captured kind r).1 ≡ fine r
unfolding captured
code_same kind (finished stdout stderr returncode) = refl
code_same kind timed_out = refl
code_same kind (failed e) = refl

module _ {W : Type 0} (S : Shell W) where
  -- The result of a list of commands is that of its parts.
  all_fine-append :
      (js ks : List Job) (w : W)
      → all_fine S (js ++ ks) w ≡ (all_fine S js w && all_fine S ks (after_all S js w))
  unfolding all_fine after_all
  all_fine-append [] ks w = refl
  all_fine-append ((command, timeout) ∷ js) ks w =
      elim (Bool-cases (fine (S.run command (some timeout) w).0)) [
        | inl e ↦ rw e (all_fine-append js ks (S.run command (some timeout) w).1)
        | inr e ↦ rw e refl
      ]

  after_all-append :
      (js ks : List Job) (w : W) → after_all S (js ++ ks) w ≡ after_all S ks (after_all S js w)
  unfolding after_all
  after_all-append [] ks w = refl
  after_all-append ((command, timeout) ∷ js) ks w =
      after_all-append js ks (S.run command (some timeout) w).1

  Runs-nil : Runs S [] (pure true)
  unfolding all_fine after_all
  Runs-nil = record { works = λ w e. refl; fails = λ w e. absurd (cc) }

  Runs-then :
      (js ks : List Job) (m n : Exec W Bool)
      → Runs S js m
      → Runs S ks n
      → Runs S (js ++ ks) (and_then m n)
  Runs-then js ks m n hm hn = record {
    works = λ w e. elim (Bool-cases (all_fine S js w)) [
      | inl a ↦
          rw (hm.works w a, after_all-append js ks w)
            (hn.works _ (cc (a, e, all_fine-append js ks w)))
      | inr a ↦ absurd (cc (a, e, all_fine-append js ks w))
    ];
    fails = λ w e. elim (Bool-cases (all_fine S js w)) [
      | inl a ↦ rw (hm.works w a) (hn.fails _ (cc (a, e, all_fine-append js ks w)))
      | inr a ↦ rw (hm.fails w a)
    ];
  }

  -- `m` returns whether the commands are all fine.
  abbrev Tells : List Job → Exec W Bool → Type 0
  Tells jobs m = (w : W) → (m w).0 ≡ ok (all_fine S jobs w)

  Tells-then :
      (js ks : List Job) (m n : Exec W Bool)
      → Runs S js m
      → Tells ks n
      → Tells (js ++ ks) (and_then m n)
  Tells-then js ks m n hm hn w = elim (Bool-cases (all_fine S js w)) [
    | inl a ↦ rw (hm.works w a, all_fine-append js ks w, a) (hn (after_all S js w))
    | inr a ↦ rw (hm.fails w a, all_fine-append js ks w, a) refl
  ]

  Tells-last :
      (js : List Job) (m n : Exec W Bool)
      → Runs S js m
      → ((w : W) → (n w).0 ≡ ok true)
      → Tells js (and_then m n)
  Tells-last js m n hm hn w = elim (Bool-cases (all_fine S js w)) [
    | inl a ↦ rw (hm.works w a, a) (hn (after_all S js w))
    | inr a ↦ rw (hm.fails w a, a) refl
  ]

  -- A command whose failure is told and returned.
  abbrev told : String → Job → (String → String) → Exec W Bool
  told kind (command, timeout) text = do
    (output, returncode) ←
        call (λ w. let (r, w') = S.run command (some timeout) w in (captured kind r, w'))
    if not (is_zero returncode) then (do call (S.say (text output)); pure false) else pure true

  told-Runs :
      (kind : String) (job : Job) (text : String → String) → Runs S (job ∷ []) (told kind job text)
  unfolding all_fine after_all
  told-Runs kind (command, timeout) text = record {
    works = λ w e. elim (Bool-cases (fine (S.run command (some timeout) w).0)) [
      | inl f ↦ rw (code_same kind (S.run command (some timeout) w).0, f) refl
      | inr f ↦ absurd (cc (rw f at e))
    ];
    fails = λ w e. elim (Bool-cases (fine (S.run command (some timeout) w).0)) [
      | inl f ↦ absurd (cc (rw f at e))
      | inr f ↦ rw (code_same kind (S.run command (some timeout) w).0, f) refl
    ];
  }

abbrev pub upload_job : RemoteConfig → String → Job
upload_job c path =
    (scp_args c path (String.◌++◌ (user_at_host c) (String.◌++◌ ":" (String.◌++◌ c.path "/"))), 60)

abbrev pub upload_jobs_of : RemoteConfig → List String → List Job
upload_jobs_of c [] = []
upload_jobs_of c (path ∷ paths) = upload_job c path ∷ upload_jobs_of c paths

abbrev pub if_there : RemoteConfig → (String → Bool) → String → List Job
if_there c there path = if there path then upload_job c path ∷ [] else []

-- What an upload needs: the directory, the Python files, and `pop` and requirements.txt if there.
abbrev pub upload_jobs : RemoteConfig → LocalConfig → List String → (String → Bool) → List Job
upload_jobs c l py_files there =
    ((ssh_args c (String.◌++◌ "mkdir -p " c.path), ssh_timeout) ∷ [])
    ++ (upload_jobs_of c py_files
        ++ (if_there c there (child l.script_dir "pop")
            ++ if_there c there (child l.script_dir "requirements.txt")))

module _ {W : Type 0} (S : Shell W) (c : RemoteConfig) (l : LocalConfig) where
  make_remote_dir-Runs :
      Runs S
        ((ssh_args c (String.◌++◌ "mkdir -p " c.path), ssh_timeout) ∷ [])
        (make_remote_dir S c l)
  unfolding make_remote_dir ssh_cmd
  make_remote_dir-Runs =
      told-Runs S "SSH" _ (λ output. String.◌++◌ "Failed to create remote directory: " output)

  upload_file-Runs :
      (path name : String) → Runs S (upload_job c path ∷ []) (upload_file S c l path name)
  unfolding upload_file scp_upload
  upload_file-Runs path name =
      told-Runs S "SCP" _
        (λ output. String.◌++◌ "Failed to upload " (String.◌++◌ name (String.◌++◌ ": " output)))

  upload_files-Runs :
      (paths : List String) → Runs S (upload_jobs_of c paths) (upload_files S c l paths)
  unfolding upload_files
  upload_files-Runs [] = Runs-nil S
  upload_files-Runs (path ∷ paths) =
      Runs-then S (upload_job c path ∷ []) (upload_jobs_of c paths) _ _
        (upload_file-Runs path (basename path)) (upload_files-Runs paths)

  clean_remote-true : (w : W) → (clean_remote S c l w).0 ≡ ok true
  unfolding clean_remote ssh_cmd
  clean_remote-true w = ground arith

  if_there-Runs :
      (b : Bool) (path name : String)
      → Runs S
          (if b then upload_job c path ∷ [] else [])
          (if b then upload_file S c l path name else pure true)
  if_there-Runs true path name = upload_file-Runs path name
  if_there-Runs false path name = Runs-nil S

  module _ {py_files : List String} {there : String → Bool}
      (files : HasFiles S l.script_dir py_files there) where
    upload_if_there-Runs :
        (path name : String) → Runs S (if_there c there path) (upload_if_there S c l path name)
    unfolding upload_if_there
    upload_if_there-Runs path name = record {
      works = λ w e. rw (files.tells path w) ((if_there-Runs (there path) path name).works w e);
      fails = λ w e. rw (files.tells path w) ((if_there-Runs (there path) path name).fails w e);
    }

    globbed-Runs :
        Runs S
          (upload_jobs_of c py_files)
          (do paths ← call (S.glob_py l.script_dir); upload_files S c l paths)
    globbed-Runs = record {
      works = λ w e. rw (files.globs w) ((upload_files-Runs py_files).works w e);
      fails = λ w e. rw (files.globs w) ((upload_files-Runs py_files).fails w e);
    }

    -- `upload_code` raises nothing, whatever the commands do. It returns True exactly if the remote
    -- directory is made and every *.py file of the script directory, and `pop` and requirements.txt
    -- where there are such files, is uploaded with return code 0; the first command that fails or
    -- does not come back ends it. The cleaning of the remote cache does not count.
    pub upload_code-all_fine :
        (w : W) → (upload_code S c l w).0 ≡ ok (all_fine S (upload_jobs c l py_files there) w)
    unfolding upload_code
    upload_code-all_fine w =
        Tells-then S _ _ (make_remote_dir S c l) _ make_remote_dir-Runs
          (Tells-then S _ _ _ _ globbed-Runs (
            Tells-then S _ _ _ _ (upload_if_there-Runs (child l.script_dir "pop") "pop") (
              Tells-last S _ _ (clean_remote S c l)
                (upload_if_there-Runs (child l.script_dir "requirements.txt") "requirements.txt")
                clean_remote-true)))
          w
