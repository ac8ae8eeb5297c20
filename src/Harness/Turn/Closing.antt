-- ===== src/Harness/Turn/Closing.antt =====
-- src/harness/loop.ts: the end of one round.
use loomctl.Harness.Turn.Steps.{
  is_finish, Quiet, Stable, Keeps, append-Keeps, enter-Keeps, at_iteration-Keeps,
}
use loomctl.Base.{
  ◌≡◌, refl, ℕ, ◌+◌, Bool, true, false, ◌&&◌, String, Option, none, some, List, [], ◌∷◌, ◌++◌,
  length,
}
use loomctl.Harness.Events.{VerificationResult, HarnessStatus}
use loomctl.Harness.Executor.{◌>>=◌, return, WorkspaceExecutor}
use loomctl.Harness.Triples.{Holds, Triple, bind, weaken, before, pure}
use loomctl.Harness.Options.{AgentStep, RunHarnessOptions, or_else}
use loomctl.Harness.Run.{
  Phase, Event, finish, pause, assistant_message, verified, evaluated, reviewed, review_gate,
  deployment_gate, Run, Summary, RunError, PauseRequest, close, summarize, is_assistant_message,
}
use loomctl.Harness.Turn.Steps.{
  guard_abort-Keeps, run_actions-Keeps, asked_to_pause-Keeps, ask_agent-Keeps,
  run_commands_of-Keeps,
}
use loomctl.Harness.Turn.{
  verify, evaluate, evaluate_with, review, review_with, append_if, conclude, gate_is_ok, finish_run,
  pause_run, finish_if, take_step, pause_or_step, turn,
}

module _ {W : Type 0} where
  -- The run has ended with this summary: its last event says the status, and `I` held before it.
  abbrev pub Closes : (Run W → Type 0) → Summary → Run W → Type 0
  Closes I summary s =
      (t : Run W) × I t × (s ≡ record t { log = t.log ++ (finish summary.status ∷ []) })

  abbrev pub Ends : (Run W → Type 0) → Option Summary → Run W → Type 0
  Ends I none s = I s
  Ends I (some summary) s = Closes I summary s

  pub close-Closes :
      (I : Run W → Type 0) (status : HarnessStatus) (r d : Bool) (e : Option RunError)
      → Triple I (close status r d e) (Closes I) I
  unfolding close summarize Holds
  close-Closes I status r d e = record { holds = λ s h. (s, h, refl) }

module _ {W : Type 0} (executor : WorkspaceExecutor W) (options : RunHarnessOptions W)
    {I : Run W → Type 0} (stable : Stable I) where
  verify-Keeps : Keeps I (verify executor options)
  unfolding verify is_finish is_assistant_message
  verify-Keeps =
      bind
        (run_commands_of-Keeps stable executor options Phase.verification options.verify_commands
          verified (λ v. (refl, refl)))
        λ v.
          pure v (λ s. record s { verification = some v }) (λ s h. stable.verification s (some v) h)

  evaluate_with-Keeps : (commands : List String) → Keeps I (evaluate_with executor options commands)
  unfolding evaluate_with is_finish is_assistant_message
  evaluate_with-Keeps [] = pure tt (λ s. s) (λ s h. h)
  evaluate_with-Keeps (c ∷ cs) =
      bind
        (run_commands_of-Keeps stable executor options Phase.evaluation (c ∷ cs) evaluated
          (λ v. (refl, refl)))
        λ v. pure tt (λ s. record s { evaluation = some v }) (λ s h. stable.evaluation s (some v) h)

  evaluate-Keeps : (on : Bool) → Keeps I (evaluate executor options on)
  unfolding evaluate
  evaluate-Keeps false = pure tt (λ s. s) (λ s h. h)
  evaluate-Keeps true = evaluate_with-Keeps options.evaluation_commands

  review_with-Keeps : (commands : List String) → Keeps I (review_with executor options commands)
  unfolding review_with is_finish is_assistant_message
  review_with-Keeps [] = pure tt (λ s. s) (λ s h. h)
  review_with-Keeps (c ∷ cs) =
      bind
        (run_commands_of-Keeps stable executor options Phase.reviewer (c ∷ cs) reviewed
          (λ v. (refl, refl)))
        λ v. pure tt (λ s. record s { reviewer = some v }) (λ s h. stable.reviewer s (some v) h)

  pub review-Keeps : (on : Bool) → Keeps I (review executor options on)
  unfolding review
  review-Keeps false = pure tt (λ s. s) (λ s h. h)
  review-Keeps true = review_with-Keeps options.reviewer_commands

  pub append_if-Keeps :
      (on : Bool) (e : Event) → Quiet e → Keeps I (append_if executor options on e)
  unfolding append_if
  append_if-Keeps true e quiet = append-Keeps stable e quiet
  append_if-Keeps false e quiet = pure tt (λ s. s) (λ s h. h)

  conclude-Closes : (gate_ok : Bool) → Triple I (conclude executor options gate_ok) (Closes I) I
  unfolding conclude is_finish is_assistant_message
  conclude-Closes gate_ok =
      bind (append_if-Keeps (gate_ok && options.review_required) review_gate (refl, refl)) λ _.
        bind (append_if-Keeps (gate_ok && options.deployment_required) deployment_gate (refl, refl))
          λ _. close-Closes I _ _ _ _

  gate_is_ok-Keeps : (v : VerificationResult) → Keeps I (gate_is_ok executor options v)
  unfolding gate_is_ok Holds
  gate_is_ok-Keeps v = record { holds = λ s h. h }

  finish_run-Closes : Triple I (finish_run executor options) (Closes I) I
  unfolding finish_run
  finish_run-Closes = bind verify-Keeps λ v. bind (evaluate-Keeps v.ok) λ _.
      bind (gate_is_ok-Keeps v) λ gate_ok. bind (review-Keeps gate_ok) λ _. conclude-Closes gate_ok

  pause_run-Closes :
      (request : PauseRequest) → Triple I (pause_run executor options request) (Closes I) I
  unfolding pause_run is_finish is_assistant_message
  pause_run-Closes request = bind (enter-Keeps stable Phase.paused) λ _.
      bind
        (append-Keeps stable
          (pause (record request { reason = some (or_else request.reason "run paused") }))
          (refl, refl))
        λ _. close-Closes I HarnessStatus.paused false false none

  finish_if-Ends : (on : Bool) → Triple I (finish_if executor options on) (Ends I) I
  unfolding finish_if
  finish_if-Ends false = pure none (λ s. s) (λ s h. h)
  finish_if-Ends true = bind finish_run-Closes λ summary. pure (some summary) (λ s. s) (λ s h. h)

  pause-Ends :
      (request : PauseRequest)
      → Triple I (pause_run executor options request >>= λ s. return (some s)) (Ends I) I
  pause-Ends request =
      bind (pause_run-Closes request) λ summary. pure (some summary) (λ s. s) (λ s h. h)

-- A round, from `I` to `J`: the message of the agent makes the difference.
module _ {W : Type 0} (executor : WorkspaceExecutor W) (options : RunHarnessOptions W)
    {I J : Run W → Type 0} (stable : Stable I) (stable' : Stable J)
    (weaker : (s : Run W) → I s → J s)
    (message : (s : Run W) (text : String) (plan : Option String) (n count : ℕ) (finishes : Bool)
      → I s
      → J (record s { log = s.log ++ (assistant_message text plan n count finishes ∷ []) })) where
  take_step-Ends :
      (n : ℕ) (step : AgentStep) → Triple I (take_step executor options n step) (Ends J) J
  unfolding take_step
  take_step-Ends n step =
      bind
        (pure tt
          (λ s. record s {
            log =
                s.log
                ++ (assistant_message step.message step.plan n (length step.actions) step.finish
                    ∷ []);
          })
          (λ s h. message s step.message step.plan n (length step.actions) step.finish h))
        λ _.
          bind (run_actions-Keeps stable' executor options step.actions)
            λ _. finish_if-Ends executor options stable' step.finish

  pause_or_step-Ends :
      (n : ℕ) (request : Option PauseRequest)
      → Triple I (pause_or_step executor options n request) (Ends J) J
  unfolding pause_or_step
  pause_or_step-Ends n (some request) = before weaker (pause-Ends executor options stable' request)
  pause_or_step-Ends n none =
      bind (weaken (λ a s h. h) weaker (ask_agent-Keeps stable executor options)) (take_step-Ends n)

  pub turn-Ends : (offset n : ℕ) → Triple I (turn executor options offset n) (Ends J) J
  unfolding turn
  turn-Ends offset n = bind (weaken (λ a s h. h) weaker (at_iteration-Keeps stable (some n))) λ _.
      bind (weaken (λ a s h. h) weaker (enter-Keeps stable Phase.agent_next)) λ _.
        bind (weaken (λ a s h. h) weaker (guard_abort-Keeps stable executor options)) λ _.
          bind (weaken (λ a s h. h) weaker (asked_to_pause-Keeps stable executor options))
            (pause_or_step-Ends (offset + n))
