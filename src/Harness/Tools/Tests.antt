-- ===== src/Harness/Tools/Tests.antt =====
-- Tests of the tools.
use loomctl.Base.{◌≡◌, ◌↔◌, ◌⊎◌, refl, String, List, ◌++◌, true, none, some, [], ◌∷◌}
use loomctl.Base.Texts.{split, trim}
use loomctl.Harness.Events.{VerificationResult}
use loomctl.Harness.Executor.{plain, done, threw, throw_if_aborted}
use loomctl.Harness.Tools.{
  supported_action_tools, is_tool_allowed, is_reserved_path, bounded_file_read_bytes, observation,
  verification_commands, run_commands, run_verification, execute,
}
use loomctl.Harness.Tools.Samples.{counting, file_action, shell_action}
use loomctl.Harness.Tools.Verification.{Passes, run_verification-ok}
use loomctl.Harness.Tools.Guards.{HasLoomPart, ShellBroke, ok_was_allowed, execute_throws}

run_verification-ok_example :
    ((v : VerificationResult) × (run_verification (counting 9) ("make" ∷ "make test" ∷ []) none 3
        ≡ done v 5)
      × (v.ok ≡ true))
    ↔ Passes (counting 9) (verification_commands (counting 9) ("make" ∷ "make test" ∷ []) none) 3 5
run_verification-ok_example =
    run_verification-ok (counting 9) ("make" ∷ "make test" ∷ []) none 3 5 refl

read_readme :
    execute (counting 9) supported_action_tools [] file_action 0
    ≡ done (observation file_action true "text" 0 "") 0
unfolding execute observation is_tool_allowed is_reserved_path bounded_file_read_bytes
    throw_if_aborted split trim
read_readme = refl

ok_was_allowed_example :
    ((counting 9).aborted 0 ≡ none)
    × ((before after : List String) × (supported_action_tools ≡ before ++ ("file.read" ∷ after)))
    × ((file_action.tool_name ≡ "file.read") ⊎ (file_action.tool_name ≡ "file.write")
        → HasLoomPart (trim "README.md")
        → ⊥)
unfolding observation
ok_was_allowed_example =
    ok_was_allowed (counting 9) supported_action_tools [] file_action 0 0 read_readme refl

-- The signal comes while the verification runs its first command.
aborted_verification :
    execute
      (counting 1)
      supported_action_tools
      ("make" ∷ "make" ∷ [])
      (record shell_action { tool_name = "verify.run" })
      0
    ≡ threw (plain "run cancelled") 1
unfolding execute is_tool_allowed run_verification run_commands throw_if_aborted
aborted_verification = refl

execute_throws_example :
    ((counting 1).aborted 1 ≡ some (plain "run cancelled"))
    ⊎ ShellBroke
        (counting 1)
        (record shell_action { tool_name = "verify.run" })
        (plain "run cancelled")
        1
execute_throws_example =
    execute_throws (counting 1) supported_action_tools ("make" ∷ "make" ∷ [])
      (record shell_action { tool_name = "verify.run" }) 0 1 aborted_verification
