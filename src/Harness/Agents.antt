-- ===== src/Harness/Agents.antt =====
-- src/harness/agents.ts: the agents that play a script. Their steps count as normalised. An agent has
-- the index of its next step as its state, and gives what it answers with the index after it.
use loomctl.Base.{ℕ, suc, ◌-◌, true, Option, none, some, List, [], ◌∷◌, min, max, length, drop}
use loomctl.Harness.Options.{AgentStep}
use loomctl.Harness.Run.{Event, assistant_message_count}

abbrev head : List AgentStep → Option AgentStep
head [] = none
head (s ∷ steps) = some s

-- `steps[index]`
abbrev pub step_at : ℕ → List AgentStep → Option AgentStep
step_at i steps = head (drop i steps)

abbrev pub exhausted : AgentStep
exhausted = record { message = "script exhausted"; plan = none; actions = []; finish = true }

-- `createScriptedAgentFromSteps`: the steps that the log has seen already are skipped.
unfoldable pub scripted_next : List AgentStep → ℕ → List Event → ℕ → AgentStep × ℕ
scripted_next steps offset events index =
    let emitted = assistant_message_count events - offset in
    let i = max index (min emitted (length steps)) in
    (elim (step_at i steps) [ none ↦ exhausted | some s ↦ s ], suc i)

-- `createAgentWithSetupSteps`; nothing where the other agent is asked.
unfoldable pub setup_next : List AgentStep → List Event → ℕ → Option AgentStep × ℕ
setup_next steps events index =
    let i = max index (min (assistant_message_count events) (length steps)) in
    (step_at i steps, suc i)
