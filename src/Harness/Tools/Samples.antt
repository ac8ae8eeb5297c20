-- ===== src/Harness/Tools/Samples.antt =====
-- A workspace to test with: its state is the number of commands that were run, the command "false" exits with 1, and
-- the run is aborted once `last` commands were run.
use loomctl.Base.{ℕ, suc, String, none, some, ◌==◌, ltb, if◌then◌else◌}
use loomctl.Harness.Events.{absent, ToolInput, ToolAction}
use loomctl.Harness.Executor.{plain, done, WorkspaceExecutor}

abbrev pub counting : ℕ → WorkspaceExecutor ℕ
counting last = record {
  run_command = λ c w.
      done (record { stdout = ""; stderr = ""; exit_code = if c == "false" then 1 else 0 }) (suc w);
  read_file = λ path n w. done "text" w;
  write_file = λ path content w. done tt w;
  prepare = none;
  describe_path = none;
  aborted = λ w. if ltb w last then none else some (plain "run cancelled");
}

abbrev pub input : String → String → ToolInput
input path command = record {
  path = path;
  content = "";
  command = command;
  max_bytes = absent;
  message = none;
  override = none;
}

abbrev pub file_action : ToolAction
file_action = record { id = "act-1"; tool_name = "file.read"; input = input "README.md" "" }

abbrev pub shell_action : ToolAction
shell_action = record { id = "act-2"; tool_name = "shell.exec"; input = input "" "make" }
