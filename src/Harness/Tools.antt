-- ===== src/Harness/Tools.antt =====
-- src/harness/tools.ts: the tool runtime and the verification commands. Fields of type ℕ that the
-- source computes by `||` are written out.
pub mod Verification
pub mod Guards
pub mod Samples
mod Tests
use Prim.Native.String.{◌++◌}
use mathlib.Core.List
use Prim.Native.Char.{code}
use loomctl.Base.{
  ℕ, ◌≡◌, Bool, true, false, String, Option, none, some, List, [], ◌∷◌, ◌==◌, eqb, ltb, leb, not,
  ◌&&◌, ◌||◌, any, min, if◌then◌else◌,
}
use loomctl.Base.Texts.{trim, is_blank, split, join, nonempty, show, units, any_code}
use loomctl.Harness.Events.{
  MaxBytes, absent, not_finite, negative, bytes, ToolInput, ToolAction, ToolObservation,
  VerificationResult,
}
use loomctl.Harness.Executor.{
  Failure, plain, Attempt, done, threw, Io, ◌>>=◌, ◌>>◌, return, throw, CommandResult,
  WorkspaceExecutor, throw_if_aborted,
}
use loomctl.Harness.GitCommit.{
  workspace_git_diff_stat_command, workspace_git_diff_patch_command, create_workspace_git_commit,
  WorkspaceGitCommitResult,
}

abbrev pub supported_action_tools : List String
supported_action_tools =
    "file.read" ∷ "file.write" ∷ "shell.exec" ∷ "git.diff" ∷ "git.commit" ∷ "verify.run" ∷ []

unfoldable pub effective_allowed_tools : Option (List String) → List String
effective_allowed_tools none = supported_action_tools
effective_allowed_tools (some tools) = tools

unfoldable pub is_tool_allowed : String → List String → Bool
is_tool_allowed tool_name allowed_tools = any (λ t. t == tool_name) allowed_tools

abbrev tool_file_read_limit_bytes : ℕ
tool_file_read_limit_bytes = 262144

unfoldable pub bounded_file_read_bytes : MaxBytes → ℕ
bounded_file_read_bytes absent = 65536
bounded_file_read_bytes not_finite = 65536
bounded_file_read_bytes negative = 0
bounded_file_read_bytes (bytes n) = min tool_file_read_limit_bytes n

-- `path.replaceAll("\\", "/").trim().split("/")` holds ".loom".
unfoldable pub is_reserved_path : String → Bool
is_reserved_path path =
    any (λ part. part == ".loom") (split (λ c. eqb c b'/' || eqb c 92) (trim path))

unfoldable pub git_commit_message : {W : Type 0} → Option String → Io W String
git_commit_message none = throw (plain "git.commit requires input.message")
git_commit_message (some value) =
    let message = trim value in
    if is_blank value
    then throw (plain "git.commit requires input.message")
    else if ltb 200 (units message) || any_code (λ c. eqb c 0 || eqb c 13 || eqb c 10) message
    then throw
        (plain "git.commit input.message must be a single-line string at most 200 characters.")
    else return message

-- `error || undefined`
abbrev or_undefined : String → Option String
or_undefined text = if text == "" then none else some text

unfoldable pub observation : ToolAction → Bool → String → ℕ → String → ToolObservation
observation action ok output exit_code error = record {
  action_id = action.id;
  tool_name = action.tool_name;
  ok = ok;
  output = output;
  exit_code = exit_code;
  error = or_undefined error;
}

unfoldable pub format_command_output : String → CommandResult → String
format_command_output command r = join "\n" (
    nonempty (
      ("$ " ++ command)
      ∷ ("exitCode=" ++ show r.exit_code)
      ∷ (if r.stdout == "" then "" else "stdout:\n" ++ r.stdout)
      ∷ (if r.stderr == "" then "" else "stderr:\n" ++ r.stderr)
      ∷ []))

abbrev verification : Bool → List String → ℕ → List String → VerificationResult
verification ok outputs exit_code commands = record {
  ok = ok;
  output = join "\n" outputs;
  exit_code = exit_code;
  commands = commands;
}

-- What an `async` body returns: a value, or a promise that it has not awaited.
pub data Returned (W : Type 0) : Type 0 where
  settled : ToolObservation → Returned W
  pending : Io W ToolObservation → Returned W

module _ {W : Type 0} (executor : WorkspaceExecutor W) where
  -- The loop of `runVerification`: the commands in order, up to the first that fails.
  unfoldable pub run_commands : List String → List String → List String → Io W VerificationResult
  run_commands commands outputs [] w = done (verification true outputs 0 commands) w
  run_commands commands outputs (command ∷ rest) w = elim (throw_if_aborted executor w) [
    | threw e w' ↦ threw e w'
    | done _ w' ↦ elim (executor.run_command command w') [
      | threw e w'' ↦ threw e w''
      | done r w'' ↦
          let outputs' = List.◌++◌ outputs (format_command_output command r ∷ []) in
          elim (eqb r.exit_code 0) [
            | false ↦ done (verification false outputs' r.exit_code commands) w''
            | true ↦ run_commands commands outputs' rest w''
          ]
    ]
  ]

  abbrev no_commands : VerificationResult
  no_commands = record {
    ok = true;
    output = "No verification commands configured.";
    exit_code = 0;
    commands = [];
  }

  run_nonempty : List String → Io W VerificationResult
  run_nonempty [] = return no_commands
  run_nonempty (c ∷ cs) = run_commands (c ∷ cs) [] (c ∷ cs)

  abbrev pub verification_commands : List String → Option String → List String
  verification_commands configured none = configured
  verification_commands configured (some command) =
      if is_blank command then configured else command ∷ []

  unfoldable pub run_verification : List String → Option String → Io W VerificationResult
  unfolding run_nonempty
  run_verification configured override =
      throw_if_aborted executor >> run_nonempty (verification_commands configured override)

  run_shell : ToolAction → String → Io W ToolObservation
  run_shell action command = do
    r ← executor.run_command command
    return (observation action (eqb r.exit_code 0) r.stdout r.exit_code r.stderr)

  abbrev reject_reserved_workspace_path : String → Io W (Unit {0})
  reject_reserved_workspace_path path =
      if is_reserved_path path
      then throw (plain "path is reserved for Loom internals")
      else return tt

  abbrev described : String → String
  described path = elim executor.describe_path [ none ↦ path | some describe ↦ describe path ]

  file_read : ToolAction → Io W ToolObservation
  file_read action = do
    reject_reserved_workspace_path action.input.path
    content ← executor.read_file action.input.path (bounded_file_read_bytes action.input.max_bytes)
    return (observation action true content 0 "")

  file_write : ToolAction → Io W ToolObservation
  file_write action = do
    reject_reserved_workspace_path action.input.path
    executor.write_file action.input.path action.input.content
    return (observation action true ("wrote " ++ described action.input.path) 0 "")

  -- `return runShell(…)` stands in the `try` without an `await`.
  shell_exec : ToolAction → Io W (Returned W)
  unfolding run_shell
  shell_exec action =
      if is_blank action.input.command
      then return (settled (observation action false "" 1 "shell.exec requires input.command"))
      else return (pending (run_shell action action.input.command))

  git_diff : ToolAction → Io W ToolObservation
  git_diff action = do
    stat ← executor.run_command workspace_git_diff_stat_command
    diff ← executor.run_command workspace_git_diff_patch_command
    return (
        observation action (eqb stat.exit_code 0 && eqb diff.exit_code 0)
          (join "\n\n" (nonempty (stat.stdout ∷ diff.stdout ∷ [])))
          (if eqb diff.exit_code 0 then stat.exit_code else diff.exit_code)
          (if stat.stderr == "" then diff.stderr else stat.stderr))

  abbrev commit_line : Option String → String
  commit_line none = ""
  commit_line (some c) = "commit " ++ c

  git_commit : ToolAction → Io W ToolObservation
  git_commit action = do
    message ← git_commit_message action.input.message
    r ← create_workspace_git_commit executor message
    return (
        observation action (eqb r.exit_code 0)
          (join "\n" (nonempty (r.stdout ∷ commit_line r.commit ∷ []))) r.exit_code
          (if r.no_changes then "no workspace changes to commit" else r.stderr))

  verify_run : List String → ToolAction → Io W ToolObservation
  verify_run verify_commands action = do
    r ← run_verification verify_commands action.input.override
    return (record {
      action_id = action.id;
      tool_name = action.tool_name;
      ok = r.ok;
      output = r.output;
      exit_code = r.exit_code;
      error = if r.ok then none else some r.output;
    })

  awaited : Io W ToolObservation → Io W (Returned W)
  awaited m = m >>= λ o. return (settled o)

  dispatch : List String → ToolAction → Io W (Returned W)
  unfolding file_read file_write shell_exec git_diff git_commit verify_run awaited
  dispatch verify_commands action =
      if action.tool_name == "file.read"
      then awaited (file_read action)
      else if action.tool_name == "file.write"
      then awaited (file_write action)
      else if action.tool_name == "shell.exec"
      then shell_exec action
      else if action.tool_name == "git.diff"
      then awaited (git_diff action)
      else if action.tool_name == "git.commit"
      then awaited (git_commit action)
      else if action.tool_name == "verify.run"
      then awaited (verify_run verify_commands action)
      else return (settled (observation action false "" 1 ("unknown tool: " ++ action.tool_name)))

  -- The body of the `try` in `execute`.
  attempt : List String → List String → ToolAction → Io W (Returned W)
  unfolding dispatch
  attempt allowed_tools verify_commands action = do
    throw_if_aborted executor
    if is_tool_allowed action.tool_name allowed_tools
        then dispatch verify_commands action
        else return
            (settled (observation action false "" 1 ("tool not allowed: " ++ action.tool_name)))

  -- Its `catch`: the run is cancelled, or the agent sees the error. A promise that the `try` returns is
  -- awaited behind it.
  settle : ToolAction → Attempt (Returned W) W → Attempt ToolObservation W
  settle action (done (settled o) w) = done o w
  settle action (done (pending m) w) = m w
  settle action (threw e w) = elim (executor.aborted w) [
    | some cancelled ↦ threw cancelled w
    | none ↦ done (observation action false "" 1 e.message) w
  ]

  unfoldable pub execute : List String → List String → ToolAction → Io W ToolObservation
  unfolding attempt settle
  execute allowed_tools verify_commands action w =
      settle action (attempt allowed_tools verify_commands action w)
