-- ===== src/Harness/Turn.antt =====
-- src/harness/loop.ts: one round of the loop of `runHarness`: the agent's step, its actions, the gates.
pub mod Steps
pub mod Closing
pub mod Gates
use loomctl.Base.{
  ℕ, zero, suc, ◌+◌, Bool, true, false, not, ◌&&◌, ◌||◌, String, Option, none, some, List, [], ◌∷◌,
  ◌++◌, if◌then◌else◌, length,
}
use loomctl.Base.Texts.{is_blank, show}
use Prim.Native.String.{◌++◌ as ◌+++◌}
use loomctl.Harness.Events.{
  ToolInput, ToolAction, ToolObservation, VerificationResult, HarnessStatus, passed, failed,
  review_required, deployment_required, cancelled,
}
use loomctl.Harness.Executor.{
  Failure, Attempt, done, threw, Io, ◌>>=◌, ◌>>◌, return, WorkspaceExecutor, throw_if_aborted,
}
use loomctl.Harness.Tools.{effective_allowed_tools, run_verification, execute}
use loomctl.Harness.Run.{
  Requester, PauseRequest, Phase, workspace_prepare, agent_next, tool_action, tool_observation,
  max_iterations, RunError, Emitted, Event, user_message, run_metadata, run_policy, prepare_started,
  prepare_passed, emitted, assistant_message, action, observation, verified, evaluated, reviewed,
  review_gate, deployment_gate, pause, cancel, finish, Run, Summary, append, enter, at_iteration,
  outside, close, assistant_message_count,
}
use loomctl.Harness.Options.{ProposedAction, AgentStep, RunHarnessOptions, anonymous, or_else}

module _ {W : Type 0} (executor : WorkspaceExecutor W) (options : RunHarnessOptions W) where
  -- `throwIfAborted(options.signal)` in the loop.
  abbrev pub guard_abort : Io (Run W) (Unit {0})
  guard_abort = outside (throw_if_aborted executor)

  -- `options.agent.next`, with `emitEvent`.
  emit : List Emitted → List Event
  emit [] = []
  emit (e ∷ es) = emitted e ∷ emit es

  answered : Run W → List Emitted × Attempt AgentStep W → Attempt AgentStep (Run W)
  answered s (es, done step w) = done step (record s { log = s.log ++ emit es; world = w })
  answered s (es, threw e w) = threw e (record s { log = s.log ++ emit es; world = w })

  pub ask_agent : Io (Run W) AgentStep
  ask_agent s = answered s (options.agent s.log s.world)

  pub asked_to_pause : Io (Run W) (Option PauseRequest)
  asked_to_pause s = outside (options.should_pause s.log) s

  -- `ensureActionId`
  ensure_action_id : ProposedAction → Io W ToolAction
  ensure_action_id a w = elim a.id [
    | some i ↦ done (record { id = i; tool_name = a.tool_name; input = a.input }) w
    | none ↦
        done
          (record {
            id = "act-" +++ (options.next_id w).0;
            tool_name = a.tool_name;
            input = a.input;
          })
          (options.next_id w).1
  ]

  run_action : ProposedAction → Io (Run W) (Unit {0})
  run_action proposed = do
    enter tool_action
    guard_abort
    a ← outside (ensure_action_id proposed)
    append (action a)
    enter tool_observation
    o ←
        outside (
          execute executor (effective_allowed_tools options.allowed_tools) options.verify_commands
            a)
    append (observation o)

  pub run_actions : List ProposedAction → Io (Run W) (Unit {0})
  unfolding run_action
  run_actions [] = return tt
  run_actions (a ∷ rest) = run_action a >> run_actions rest

  -- The three commands of the gate: the phase, the abort check, the verification, its event.
  abbrev pub run_commands_of :
      Phase → List String → (VerificationResult → Event) → Io (Run W) VerificationResult
  run_commands_of p commands event = do
    enter p
    guard_abort
    v ← outside (run_verification executor commands none)
    append (event v)
    return v

  verify : Io (Run W) VerificationResult
  verify = do
    v ← run_commands_of Phase.verification options.verify_commands verified
    λ s. done v (record s { verification = some v })

  -- `if (verification.ok && options.evaluationCommands?.length)`
  evaluate_with : List String → Io (Run W) (Unit {0})
  evaluate_with [] = return tt
  evaluate_with (c ∷ cs) = do
    v ← run_commands_of Phase.evaluation (c ∷ cs) evaluated
    λ s. done tt (record s { evaluation = some v })

  evaluate : Bool → Io (Run W) (Unit {0})
  unfolding evaluate_with
  evaluate false = return tt
  evaluate true = evaluate_with options.evaluation_commands

  review_with : List String → Io (Run W) (Unit {0})
  review_with [] = return tt
  review_with (c ∷ cs) = do
    v ← run_commands_of Phase.reviewer (c ∷ cs) reviewed
    λ s. done tt (record s { reviewer = some v })

  pub review : Bool → Io (Run W) (Unit {0})
  unfolding review_with
  review false = return tt
  review true = review_with options.reviewer_commands

  -- `evaluation?.ok ?? true`
  unfoldable pub evaluation_ok : Option VerificationResult → Bool
  evaluation_ok none = true
  evaluation_ok (some v) = v.ok

  unfoldable pub gate_status : Bool → Bool → Bool → HarnessStatus
  gate_status gate_ok needs_review needs_deployment =
      if gate_ok
      then if needs_review
        then review_required
        else if needs_deployment
        then deployment_required
        else passed
      else failed

  pub append_if : Bool → Event → Io (Run W) (Unit {0})
  append_if true e = append e
  append_if false e = return tt

  conclude : Bool → Io (Run W) Summary
  unfolding append_if
  conclude gate_ok = do
    append_if (gate_ok && options.review_required) review_gate
    append_if (gate_ok && options.deployment_required) deployment_gate
    close (gate_status gate_ok options.review_required options.deployment_required)
        (gate_ok && options.review_required) (gate_ok && options.deployment_required) none

  gate_is_ok : VerificationResult → Io (Run W) Bool
  gate_is_ok v s = done (v.ok && evaluation_ok s.evaluation) s

  -- `if (step.finish)`
  finish_run : Io (Run W) Summary
  unfolding verify evaluate review gate_is_ok conclude
  finish_run = do
    v ← verify
    evaluate v.ok
    gate_ok ← gate_is_ok v
    review gate_ok
    conclude gate_ok

  pause_run : PauseRequest → Io (Run W) Summary
  pause_run request = do
    enter Phase.paused
    append (pause (record request { reason = some (or_else request.reason "run paused") }))
    close HarnessStatus.paused false false none

  finish_if : Bool → Io (Run W) (Option Summary)
  unfolding finish_run
  finish_if false = return none
  finish_if true = finish_run >>= λ s. return (some s)

  take_step : ℕ → AgentStep → Io (Run W) (Option Summary)
  unfolding finish_if run_actions
  take_step n step = do
    append (assistant_message step.message step.plan n (length step.actions) step.finish)
    run_actions step.actions
    finish_if step.finish

  pause_or_step : ℕ → Option PauseRequest → Io (Run W) (Option Summary)
  unfolding pause_run ask_agent take_step
  pause_or_step n (some request) = pause_run request >>= λ s. return (some s)
  pause_or_step n none = ask_agent >>= take_step n

  -- The body of the `for`; `offset` is `iterationOffset`.
  unfoldable pub turn : ℕ → ℕ → Io (Run W) (Option Summary)
  unfolding asked_to_pause pause_or_step emit answered ensure_action_id run_action evaluate_with
      review_with
  turn offset n = do
    at_iteration (some n)
    enter agent_next
    guard_abort
    request ← asked_to_pause
    pause_or_step (offset + n) request
