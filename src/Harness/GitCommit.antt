-- ===== src/Harness/GitCommit.antt =====
-- src/harness/git-commit.ts and src/harness/git-diff.ts: the git commands of the tools.
use Prim.Native.String.{◌++◌}
use Prim.Native.Char.{code}
use loomctl.Base.{
  ℕ, Bool, true, false, String, Option, none, some, [], ◌∷◌, eqb, not, if◌then◌else◌,
}
use loomctl.Base.Texts.{trim, split, is_space, join, nonempty}
use loomctl.Harness.Executor.{Io, ◌>>=◌, return, CommandResult, WorkspaceExecutor}

abbrev pub workspace_git_diff_stat_command : String
workspace_git_diff_stat_command = "git diff --stat -- . ':(exclude).loom'"

abbrev pub workspace_git_diff_patch_command : String
workspace_git_diff_patch_command = "git diff -- . ':(exclude).loom'"

pub record WorkspaceGitCommitResult : Type 0 where
  pub command : String
  pub stdout : String
  pub stderr : String
  pub exit_code : ℕ
  pub commit : Option String
  pub no_changes : Bool

escape_quotes : String → String
escape_quotes String.[] = String.[]
escape_quotes (String.◌∷◌ c s) =
    let rest = escape_quotes s in if eqb (code c) 39 then "'\\''" ++ rest else String.◌∷◌ c rest

unfoldable pub shell_quote : String → String
unfolding escape_quotes
shell_quote value = "'" ++ (escape_quotes value ++ "'")

abbrev pub git_add_workspace_command : String
git_add_workspace_command = "git add -A -- . ':(exclude).loom'"

abbrev pub git_diff_cached_workspace_command : String
git_diff_cached_workspace_command = "git diff --cached --quiet -- . ':(exclude).loom'"

abbrev pub git_unstage_loom_command : String
git_unstage_loom_command = "(git reset -q -- .loom 2>/dev/null || true)"

unfoldable pub git_commit_workspace_command : String → String
git_commit_workspace_command message =
    "git commit --only -m " ++ (shell_quote message ++ " -- . ':(exclude).loom'")

unfoldable pub workspace_git_commit_command : String → String
workspace_git_commit_command message =
    git_add_workspace_command
    ++ (" && " ++ (git_unstage_loom_command ++ (" && " ++ git_commit_workspace_command message)))

abbrev pub command_result : String → CommandResult → WorkspaceGitCommitResult
command_result command r = record {
  command = command;
  stdout = r.stdout;
  stderr = r.stderr;
  exit_code = r.exit_code;
  commit = none;
  no_changes = false;
}

-- `value.trim().split(/\s+/)[0]`, none where it is empty.
unfoldable pub first_token : String → Option String
first_token value = elim (nonempty (split is_space (trim value))) [ [] ↦ none | t ∷ ts ↦ some t ]

abbrev no_changes_result : String → WorkspaceGitCommitResult
no_changes_result command = record {
  command = command;
  stdout = "no workspace changes to commit\n";
  stderr = "";
  exit_code = 1;
  commit = none;
  no_changes = true;
}

abbrev committed : String → CommandResult → CommandResult → WorkspaceGitCommitResult
committed command commit head = record {
  command = command;
  stdout = commit.stdout;
  stderr = join "\n" (nonempty (commit.stderr ∷ head.stderr ∷ []));
  exit_code = head.exit_code;
  commit = if eqb head.exit_code 0 then first_token head.stdout else none;
  no_changes = false;
}

module _ {W : Type 0} (executor : WorkspaceExecutor W) where
  -- The commit itself, once something is staged.
  commit_staged : String → Io W WorkspaceGitCommitResult
  commit_staged message = do
    let command = workspace_git_commit_command message
    commit ← executor.run_command (git_commit_workspace_command message)
    if not (eqb commit.exit_code 0) then return (command_result command commit) else do
      head ← executor.run_command "git rev-parse --short HEAD"
      return (committed command commit head)

  commit_if_staged : String → CommandResult → Io W WorkspaceGitCommitResult
  commit_if_staged message staged =
      let command = workspace_git_commit_command message in
      if eqb staged.exit_code 0
      then return (no_changes_result command)
      else if not (eqb staged.exit_code 1)
      then return (command_result command staged)
      else commit_staged message

  unfoldable pub create_workspace_git_commit : String → Io W WorkspaceGitCommitResult
  unfolding commit_staged commit_if_staged
  create_workspace_git_commit message = do
    let command = workspace_git_commit_command message
    add ← executor.run_command git_add_workspace_command
    if not (eqb add.exit_code 0) then return (command_result command add) else do
      unstage ← executor.run_command git_unstage_loom_command
      if not (eqb unstage.exit_code 0) then return (command_result command unstage) else do
        staged ← executor.run_command git_diff_cached_workspace_command
        commit_if_staged message staged
