-- ===== src/Harness/Events.antt =====
-- The records of src/harness/events.ts that the loop and its tools pass on.
use loomctl.Base.{ℕ, Bool, String, Option, List}

-- `input.maxBytes` of an action, as `Number` reads it; a fraction is cut off.
pub data MaxBytes : Type 0 where
  absent not_finite negative : MaxBytes
  bytes : ℕ → MaxBytes

-- The fields of `input` that the tools read. `path`, `content` and `command` are what
-- `String(input.… ?? "")` gives; `message` and `override` are none where the value is no string.
pub record ToolInput : Type 0 where
  pub path : String
  pub content : String
  pub command : String
  pub max_bytes : MaxBytes
  pub message : Option String
  pub override : Option String

pub record ToolAction : Type 0 where
  pub id : String
  pub tool_name : String
  pub input : ToolInput

pub record ToolObservation : Type 0 where
  pub action_id : String
  pub tool_name : String
  pub ok : Bool
  pub output : String
  pub exit_code : ℕ
  pub error : Option String

pub record VerificationResult : Type 0 where
  pub ok : Bool
  pub output : String
  pub exit_code : ℕ
  pub commands : List String

pub data HarnessStatus : Type 0 where
  passed failed error review_required deployment_required paused cancelled : HarnessStatus
