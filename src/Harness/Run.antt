-- ===== src/Harness/Run.antt =====
-- src/harness/loop.ts: the state of `runHarness` while it runs, the events that it appends, and the
-- summary that it returns. Token counts are whole numbers and costs are left out; no one else appends
-- to the run's events meanwhile, so that `events` and the event file hold the same.
use loomctl.Base.{
  ℕ, suc, ◌+◌, Bool, true, false, ◌&&◌, String, Option, none, some, List, [], ◌∷◌, ◌++◌, eqb,
  if◌then◌else◌, length, find,
}
use loomctl.Harness.Events.{ToolAction, ToolObservation, VerificationResult, HarnessStatus}
use loomctl.Harness.Executor.{Attempt, done, threw, Io}

-- `RunRequester` without `modelKeyEnv`, and `RunRequesterSummary`.
pub record Requester : Type 0 where
  pub actor : Option String
  pub role : Option String
  pub client_id : Option String

pub record PauseRequest : Type 0 where
  pub reason : Option String
  pub requester : Requester
  pub event_seq : Option ℕ

-- The values of `currentPhase`.
pub data Phase : Type 0 where
  workspace_prepare agent_next paused tool_action tool_observation verification evaluation reviewer
        max_iterations :
      Phase

-- `RunErrorSummary`
pub record RunError : Type 0 where
  pub message : String
  pub phase : Option Phase
  pub iteration : Option ℕ
  pub kind : Option String
  pub details : Option String

pub record ModelUsage : Type 0 where
  pub prompt_tokens : Option ℕ
  pub completion_tokens : Option ℕ
  pub total_tokens : Option ℕ

-- What an agent may append while it thinks.
pub data Emitted : Type 0 where
  agent_retry : String → Emitted
  model_usage : ModelUsage → Emitted

-- The types of event that the loop appends, each with its data.
pub data Event : Type 0 where
  user_message : String → Requester → Event
  run_metadata : String → Event
  run_policy : List String → Event
  resume : Requester → Event
  prepare_started prepare_passed : Event
  emitted : Emitted → Event
  assistant_message : String → Option String → ℕ → ℕ → Bool → Event
  action : ToolAction → Event
  observation : ToolObservation → Event
  verified evaluated reviewed : VerificationResult → Event
  review_gate deployment_gate : Event
  pause : PauseRequest → Event
  cancel : String → Option Phase → Option ℕ → Event
  error : RunError → Event
  finish : HarnessStatus → Event

-- The variables of `runHarness`, and the world outside it.
pub record Run (W : Type 0) : Type 0 where
  pub world : W
  pub log : List Event
  pub verification : Option VerificationResult
  pub evaluation : Option VerificationResult
  pub reviewer : Option VerificationResult
  pub phase : Option Phase
  pub iteration : Option ℕ

-- `RunModelUsageSummary`
pub record UsageSummary : Type 0 where
  pub request_count : ℕ
  pub usage : ModelUsage

-- `RunSummary`: `review` and `deployment` are whether the gate is there, pending.
pub record Summary : Type 0 where
  pub status : HarnessStatus
  pub review : Bool
  pub deployment : Bool
  pub event_count : ℕ
  pub verification : Option VerificationResult
  pub evaluation : Option VerificationResult
  pub reviewer : Option VerificationResult
  pub requester : Option Requester
  pub model_usage : Option UsageSummary
  pub error : Option RunError

unfoldable pub is_user_message : Event → Bool
is_user_message (user_message content requester) = true
is_user_message _ = false

unfoldable pub is_assistant_message : Event → Bool
is_assistant_message (assistant_message content plan n count finishes) = true
is_assistant_message _ = false

-- `assistantMessageCount`
unfoldable pub assistant_message_count : List Event → ℕ
assistant_message_count [] = 0
assistant_message_count (e ∷ es) =
    if is_assistant_message e then suc (assistant_message_count es) else assistant_message_count es

unfoldable pub is_absent : Option String → Bool
is_absent none = true
is_absent (some text) = false

unfoldable pub requester_of : Option Event → Option Requester
requester_of (some (user_message content r)) =
    if is_absent r.actor && is_absent r.role && is_absent r.client_id then none else some r
requester_of _ = none

unfoldable pub requester_summary : List Event → Option Requester
requester_summary events = requester_of (find is_user_message events)

-- `addOptionalNumber`
unfoldable pub add_optional_number : Option ℕ → Option ℕ → Option ℕ
add_optional_number total none = total
add_optional_number none (some value) = some value
add_optional_number (some total) (some value) = some (total + value)

unfoldable pub add_usage : UsageSummary → Event → UsageSummary
add_usage s (emitted (model_usage u)) = record {
  request_count = suc s.request_count;
  usage = record {
    prompt_tokens = add_optional_number s.usage.prompt_tokens u.prompt_tokens;
    completion_tokens = add_optional_number s.usage.completion_tokens u.completion_tokens;
    total_tokens = add_optional_number s.usage.total_tokens u.total_tokens;
  };
}
add_usage s _ = s

unfoldable pub usage_loop : UsageSummary → List Event → UsageSummary
usage_loop s [] = s
usage_loop s (e ∷ es) = usage_loop (add_usage s e) es

abbrev pub no_usage : UsageSummary
no_usage = record {
  request_count = 0;
  usage = record { prompt_tokens = none; completion_tokens = none; total_tokens = none };
}

-- `modelUsageSummaryFromEvents`
unfoldable pub usage_summary : List Event → Option UsageSummary
usage_summary events =
    let s = usage_loop no_usage events in if eqb s.request_count 0 then none else some s

module _ {W : Type 0} where
  -- `events.push(await store.append(…))`
  abbrev pub append : Event → Io (Run W) (Unit {0})
  append e s = done tt (record s { log = s.log ++ (e ∷ []) })

  abbrev pub enter : Phase → Io (Run W) (Unit {0})
  enter p s = done tt (record s { phase = some p })

  abbrev pub at_iteration : Option ℕ → Io (Run W) (Unit {0})
  at_iteration n s = done tt (record s { iteration = n })

  -- A call that touches nothing of the run but the world.
  abbrev outcome : {A : Type 0} → Run W → Attempt A W → Attempt A (Run W)
  outcome s (done a w) = done a (record s { world = w })
  outcome s (threw e w) = threw e (record s { world = w })

  unfoldable pub outside : {A : Type 0} → Io W A → Io (Run W) A
  outside m s = outcome s (m s.world)

  -- `writeAndReturnSummary`, for a summary with these parts.
  unfoldable pub summarize : HarnessStatus → Bool → Bool → Option RunError → Run W → Summary
  summarize status review deployment e s = record {
    status = status;
    review = review;
    deployment = deployment;
    event_count = length s.log;
    verification = s.verification;
    evaluation = s.evaluation;
    reviewer = s.reviewer;
    requester = requester_summary s.log;
    model_usage = usage_summary s.log;
    error = e;
  }

  -- The last event, and the summary.
  unfoldable pub close : HarnessStatus → Bool → Bool → Option RunError → Io (Run W) Summary
  close status review deployment e s =
      let s' = record s { log = s.log ++ (finish status ∷ []) } in
      done (summarize status review deployment e s') s'
