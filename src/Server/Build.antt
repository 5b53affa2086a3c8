-- ===== src/Server/Build.antt =====
-- `run_build` and `execute_build` of crates/mirum-server/src/daemon.rs: the log is the state that the
-- commands add to. What the commands and the file system answer is a parameter.
pub mod Logged
use mirum.Base.{
  ℕ, zero, suc, ◌/◌, ◌%◌, String, ◌<>◌, Bool, true, false, not, ◌&&◌, ◌||◌, Option, none, some,
  List, [], ◌∷◌, Result, ok, err, map_err, ◌==◌, if◌then◌else◌,
}
use mirum.Base.Exec.{Exec, pure, raise, lift, ◌>>=◌, ◌>>◌}
use mirum.Base.Decimal.{decimal}
use mirum.Server.Types.{GithubPush, Status, succeeded, failed}
use mirum.Server.Table.{Table, set_running, set_result}

-- `tokio::process::Command`.
pub record Invocation : Type 0 where
  pub program : String
  pub args : List String
  pub current_dir : Option String
  pub env : List (String × String)

-- `std::process::Output`: `status.code()`, the text of the status, and the two streams, of which what
-- is no UTF-8 is replaced.
pub record Output : Type 0 where
  pub code : Option ℕ
  pub status : String
  pub stdout : String
  pub stderr : String

-- A new temporary directory; commands; and, of a path, whether it is a file, and its mode.
pub record Host : Type 0 where
  pub tempdir : Result String String
  pub output : Invocation → Result String Output
  pub metadata : String → Result String (Bool × ℕ)

-- The log, and an error as its text.
abbrev pub Build : Type 0 → Type 0
Build A = Exec String String A

unfoldable pub append_output : Output → Build (Unit {0})
append_output o log = (ok tt, log <> (o.stdout <> o.stderr))

abbrev pub is_success : Option ℕ → Bool
is_success none = false
is_success (some code) = code == 0

-- `mode() & 0o111 != 0`
abbrev pub is_executable : ℕ → Bool
is_executable mode = not (mode % 2 == 0 && (mode / 8) % 2 == 0 && (mode / 64) % 2 == 0)

abbrev pub unwrap_or : Option ℕ → ℕ → ℕ
unwrap_or none default = default
unwrap_or (some n) default = n

abbrev pub checkout_of : String → String
checkout_of temporary = temporary <> "/repository"

abbrev pub mirumfile_of : String → String
mirumfile_of temporary = checkout_of temporary <> "/Mirumfile"

abbrev pub git_clone : String → GithubPush → Invocation
git_clone temporary push = record {
  program = "git";
  args = "clone" ∷ "--no-checkout" ∷ "--" ∷ push.repository.clone_url ∷ checkout_of temporary ∷ [];
  current_dir = none;
  env = [];
}

abbrev pub git_checkout : String → GithubPush → Invocation
git_checkout temporary push = record {
  program = "git";
  args = "-C" ∷ checkout_of temporary ∷ "checkout" ∷ "--detach" ∷ push.after ∷ [];
  current_dir = none;
  env = [];
}

abbrev pub run_mirumfile : String → GithubPush → Invocation
run_mirumfile temporary push = record {
  program = mirumfile_of temporary;
  args = [];
  current_dir = some (checkout_of temporary);
  env =
      ("GITHUB_EVENT_NAME", "push")
      ∷ ("GITHUB_REF", push.git_ref)
      ∷ ("GITHUB_SHA", push.after)
      ∷ ("GITHUB_REPOSITORY", push.repository.full_name)
      ∷ [];
}

unfoldable pub first_log : GithubPush → String
first_log push =
    "mirum-server: cloning " <> push.repository.full_name <> " at " <> push.after <> "\n"

-- The status, the exit code and the log that are written for a result.
unfoldable pub outcome_of : Result String ℕ × String → Status × Option ℕ × String
outcome_of (ok zero, log) = (succeeded, some 0, log)
outcome_of (ok (suc n), log) = (
  failed,
  some (suc n),
  log <> ("mirum-server: Mirumfile exited with code " <> decimal (suc n) <> "\n"),
)
outcome_of (err e, log) = (failed, none, log <> ("mirum-server: " <> e <> "\n"))

module _ (H : Host) where
  -- `command.output()`, whose failure is reported under a name.
  abbrev pub output_of : String → Invocation → Result String Output
  output_of name command = map_err (λ e. "start " <> name <> ": " <> e) (H.output command)

  unfoldable pub run_checked : Invocation → String → Build (Unit {0})
  run_checked command name = do
    output ← lift (output_of name command)
    append_output output
    (if is_success output.code then pure tt else raise (name <> " exited with " <> output.status))

  unfoldable pub execute_build : GithubPush → Build ℕ
  execute_build push = do
    temporary ← lift (map_err (λ e. "create workspace: " <> e) H.tempdir)
    run_checked (git_clone temporary push) "git clone"
    run_checked (git_checkout temporary push) "git checkout"
    metadata ← lift (map_err (λ e. "read Mirumfile: " <> e) (H.metadata (mirumfile_of temporary)))
    (if not (metadata.0 && is_executable metadata.1)
        then raise "Mirumfile is not an executable file"
        else pure tt)
    output ← lift (output_of "Mirumfile" (run_mirumfile temporary push))
    append_output output
    pure (unwrap_or output.code 1)

  unfoldable pub build_outcome : GithubPush → Status × Option ℕ × String
  build_outcome push = outcome_of (execute_build push (first_log push))

-- The two queries of `run_build`, each of which may fail; what comes between takes its time.
unfoldable pub start_build : Bool → ℕ → Table → Table
start_build true id t = set_running id t
start_build false id t = t

unfoldable pub finish_build : Bool → ℕ → Status × Option ℕ × String → Table → Table
finish_build true id (status, exit_code, log) t = set_result id status exit_code log t
finish_build false id o t = t
