-- ===== src/Harness/Loop/Tests.antt =====
-- Tests of the loop.
use loomctl.Base.{ℕ, ◌≤◌, ◌≡◌, refl, true, false, none, some, List, [], ◌∷◌, ◌++◌, any}
use loomctl.Base.Texts.{join, nonempty, show}
use loomctl.Harness.Events.{VerificationResult, review_required}
use loomctl.Harness.Executor.{done, throw_if_aborted}
use loomctl.Harness.Tools.{
  effective_allowed_tools, format_command_output, supported_action_tools, run_commands,
  run_verification,
}
use loomctl.Harness.Tools.Samples.{counting}
use loomctl.Harness.Options.{AgentStep, RunHarnessOptions, anonymous}
use loomctl.Harness.Run.{
  Phase, Event, finish, user_message, run_policy, assistant_message, verified, evaluated, Run,
  Summary, outside, close, summarize, assistant_message_count, requester_summary, usage_summary,
  requester_of, usage_loop, is_assistant_message, is_user_message, add_usage, is_absent,
}
use loomctl.Harness.Turn.{turn, evaluation_ok, gate_status}
use loomctl.Harness.Turn.Steps.{is_finish}
use loomctl.Harness.Turn.Gates.{is_cleared, ApprovedAndReviewed}
use loomctl.Harness.Loop.{opening, rounds, starting, run_harness}
use loomctl.Harness.Loop.Closing.{run_harness_closes}
use loomctl.Harness.Loop.Gates.{run_harness_gates}

abbrev finishing : AgentStep
finishing = record { message = "done"; plan = none; actions = []; finish = true }

abbrev options : RunHarnessOptions ℕ
options = record {
  goal = "build it";
  verify_commands = "make" ∷ "make test" ∷ [];
  evaluation_commands = "make bench" ∷ [];
  reviewer_commands = [];
  agent = λ log w. ([], done finishing w);
  metadata = none;
  review_required = true;
  deployment_required = false;
  max_iterations = some 3;
  allowed_tools = none;
  requester = none;
  resume_requester = none;
  resume = none;
  should_pause = λ log w. done none w;
  next_id = λ w. ("0", w);
  scrub = λ text. text;
}

run_harness_closes_example :
    (summary : Summary) × (s : Run ℕ) × (new : List Event) × (run_harness (counting 9) options 0
      ≡ done summary s)
    × (s.log ≡ opening (counting 9) options none ++ (new ++ (finish summary.status ∷ [])))
    × (any is_finish new ≡ false)
    × (assistant_message_count new ≤ rounds (counting 9) options)
run_harness_closes_example = run_harness_closes (counting 9) options 0

-- What the two verifications give.
abbrev verified_two : VerificationResult
verified_two = record {
  ok = true;
  output = "$ make\nexitCode=0\n$ make test\nexitCode=0";
  exit_code = 0;
  commands = "make" ∷ "make test" ∷ [];
}

abbrev evaluated_one : VerificationResult
evaluated_one = record {
  ok = true;
  output = "$ make bench\nexitCode=0";
  exit_code = 0;
  commands = "make bench" ∷ [];
}

abbrev final : Run ℕ
final = record {
  world = 3;
  log =
      user_message "build it" anonymous
      ∷ run_policy supported_action_tools
      ∷ assistant_message "done" none 1 0 true
      ∷ verified verified_two
      ∷ evaluated evaluated_one
      ∷ Event.review_gate
      ∷ finish review_required
      ∷ [];
  verification = some verified_two;
  evaluation = some evaluated_one;
  reviewer = none;
  phase = some Phase.evaluation;
  iteration = some 1;
}

abbrev result : Summary
result = record {
  status = review_required;
  review = true;
  deployment = false;
  event_count = 7;
  verification = some verified_two;
  evaluation = some evaluated_one;
  reviewer = none;
  requester = none;
  model_usage = none;
  error = none;
}

waits_for_review : run_harness (counting 9) options 0 ≡ done result final
unfolding run_harness turn starting opening throw_if_aborted outside run_verification run_commands
    gate_status close summarize evaluation_ok join requester_summary usage_summary
    effective_allowed_tools assistant_message_count format_command_output requester_of usage_loop
    is_assistant_message nonempty is_user_message add_usage show is_absent
waits_for_review = refl

run_harness_gates_example :
    ApprovedAndReviewed (counting 9) options final.world
    × (review_required ≡ review_required)
    × (true ≡ true)
    × (false ≡ false)
unfolding is_cleared
run_harness_gates_example =
    run_harness_gates (counting 9) options 0 result final waits_for_review refl
