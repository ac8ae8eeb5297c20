-- ===== src/Harness/Options.antt =====
-- src/harness/loop.ts: `RunHarnessOptions`, and what the agent answers.
use loomctl.Base.{ℕ, Bool, String, Option, none, some, List}
use loomctl.Harness.Events.{ToolInput}
use loomctl.Harness.Executor.{Attempt, Io}
use loomctl.Harness.Run.{Requester, PauseRequest, Emitted, Event}

-- An action as the agent gives it: it may lack an id.
pub record ProposedAction : Type 0 where
  pub id : Option String
  pub tool_name : String
  pub input : ToolInput

pub record AgentStep : Type 0 where
  pub message : String
  pub plan : Option String
  pub actions : List ProposedAction
  pub finish : Bool

-- What the loop is given. The agent's answer comes with the events that it emitted before it; `metadata`
-- stays unread; `next_id` makes the id of an action that has none, and `scrub` is `scrubSecretText`.
pub record RunHarnessOptions (W : Type 0) : Type 0 where
  pub goal : String
  pub verify_commands : List String
  pub evaluation_commands : List String
  pub reviewer_commands : List String
  pub agent : List Event → W → List Emitted × Attempt AgentStep W
  pub metadata : Option String
  pub review_required : Bool
  pub deployment_required : Bool
  pub max_iterations : Option ℕ
  pub allowed_tools : Option (List String)
  pub requester : Option Requester
  pub resume_requester : Option Requester
  -- none without `resume`, and otherwise the events so far.
  pub resume : Option (List Event)
  pub should_pause : List Event → Io W (Option PauseRequest)
  pub next_id : W → String × W
  pub scrub : String → String

abbrev pub anonymous : Requester
anonymous = record { actor = none; role = none; client_id = none }

abbrev pub or_else : {A : Type 0} → Option A → A → A
or_else none d = d
or_else (some a) d = a
