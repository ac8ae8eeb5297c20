-- ===== src/Harness/Loop.antt =====
-- src/harness/loop.ts: `runHarness`, the agent loop.
pub mod Closing
pub mod Gates
mod Tests
use loomctl.Base.{
  ℕ, zero, suc, ◌+◌, Bool, true, false, not, ◌&&◌, ◌||◌, String, Option, none, some, List, [], ◌∷◌,
  ◌++◌, if◌then◌else◌, length,
}
use loomctl.Base.Texts.{is_blank, show}
use Prim.Native.String.{◌++◌ as ◌+++◌}
use loomctl.Harness.Events.{
  ToolInput, ToolAction, ToolObservation, VerificationResult, HarnessStatus, passed, failed,
  review_required, deployment_required, cancelled,
}
use loomctl.Harness.Executor.{
  Failure, Attempt, done, threw, Io, ◌>>=◌, ◌>>◌, return, WorkspaceExecutor, throw_if_aborted,
}
use loomctl.Harness.Tools.{effective_allowed_tools, run_verification, execute}
use loomctl.Harness.Run.{
  Requester, PauseRequest, Phase, workspace_prepare, agent_next, tool_action, tool_observation,
  max_iterations, RunError, Emitted, Event, user_message, run_metadata, run_policy, prepare_started,
  prepare_passed, emitted, assistant_message, action, observation, verified, evaluated, reviewed,
  review_gate, deployment_gate, pause, cancel, finish, Run, Summary, append, enter, at_iteration,
  outside, close, assistant_message_count,
}
use loomctl.Harness.Options.{ProposedAction, AgentStep, RunHarnessOptions, anonymous, or_else}
use loomctl.Harness.Turn.{guard_abort, turn}

module _ {W : Type 0} (executor : WorkspaceExecutor W) (options : RunHarnessOptions W) where
  -- The first events, in front of the `try`.
  unfoldable pub opening : Option (List Event) → List Event
  opening (some events) =
      events
      ++ (Event.resume (or_else options.resume_requester (or_else options.requester anonymous))
          ∷ [])
  opening none =
      user_message options.goal (or_else options.requester anonymous) ∷ elim options.metadata [
        | none ↦ run_policy (effective_allowed_tools options.allowed_tools) ∷ []
        | some m ↦ run_metadata m ∷ run_policy (effective_allowed_tools options.allowed_tools) ∷ []
      ]

  pub prepare_workspace : Io (Run W) (Unit {0})
  prepare_workspace = elim executor.prepare [
    | none ↦ return tt
    | some prepare ↦ do
      enter workspace_prepare
      at_iteration none
      append prepare_started
      outside prepare
      append prepare_passed
  ]

  abbrev max_iteration_error : ℕ → RunError
  max_iteration_error m = record {
    message = "maximum iterations reached (" +++ show m +++ ")";
    phase = some max_iterations;
    iteration = none;
    kind = none;
    details = none;
  }

  give_up : ℕ → Io (Run W) Summary
  give_up m = do
    enter max_iterations
    at_iteration none
    append (Event.error (max_iteration_error m))
    close failed false false (some (max_iteration_error m))

  -- The `for`, from iteration `n` on, with `left` of `m` iterations to go.
  or_continue : Io (Run W) Summary → Option Summary → Io (Run W) Summary
  or_continue rest (some s) = return s
  or_continue rest none = rest

  iterate : ℕ → ℕ → ℕ → ℕ → Io (Run W) Summary
  unfolding give_up or_continue
  iterate m offset zero n = give_up m
  iterate m offset (suc left) n =
      turn executor options offset n >>= or_continue (iterate m offset left (suc n))

  -- The `try`.
  body : ℕ → ℕ → Io (Run W) Summary
  unfolding prepare_workspace iterate
  body m offset = do guard_abort executor options; prepare_workspace; iterate m offset m 1

  -- `isCancelled`
  unfoldable pub is_cancelled : Failure → W → Bool
  is_cancelled e w = elim (executor.aborted w) [ some reason ↦ true | none ↦ e.is_abort ]

  -- `runErrorSummary`
  unfoldable pub run_error : Failure → Run W → RunError
  run_error e s = record {
    message = options.scrub e.message;
    phase = s.phase;
    iteration = s.iteration;
    kind = elim e.kind [ none ↦ none | some k ↦ if is_blank k then none else some k ];
    details = e.details;
  }

  -- The `catch`.
  handle : Failure → Io (Run W) Summary
  handle e s =
      if is_cancelled e s.world
      then (append (cancel e.message s.phase s.iteration) >> close cancelled false false none) s
      else (append (Event.error (run_error e s))
            >> close HarnessStatus.error false false (some (run_error e s)))
          s

  settle : Attempt Summary (Run W) → Attempt Summary (Run W)
  unfolding handle
  settle (done summary s) = done summary s
  settle (threw e s) = handle e s

  unfoldable pub starting : W → Run W
  starting w = record {
    world = w;
    log = opening options.resume;
    verification = none;
    evaluation = none;
    reviewer = none;
    phase = none;
    iteration = none;
  }

  -- `?? 20`
  abbrev pub rounds : ℕ
  rounds = or_else options.max_iterations 20

  pub run_harness : W → Attempt Summary (Run W)
  unfolding body settle
  run_harness w =
      settle (body rounds (assistant_message_count (opening options.resume)) (starting w))
