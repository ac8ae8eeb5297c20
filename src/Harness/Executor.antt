-- ===== src/Harness/Executor.antt =====
-- The interface `WorkspaceExecutor` of src/harness/executor.ts, as far as the loop and its tools
-- call it, and the abort signal. `W` is the state of all that is outside: the workspace, its
-- processes, the model behind the agent, the signal.
use loomctl.Base.{ℕ, ◌≡◌, refl, ◌⊎◌, inl, inr, Bool, String, Option, none, some}

-- An `Error`: its message, whether its name is "AbortError", and the fields `kind` and `details`,
-- of which the latter stays unread.
pub record Failure : Type 0 where
  pub message : String
  pub is_abort : Bool
  pub kind : Option String
  pub details : Option String

abbrev pub plain : String → Failure
plain message = record { message = message; is_abort = Bool.false; kind = none; details = none }

-- What an awaited promise leaves: a value or a thrown error, and the world after it.
pub data Attempt (A W : Type 0) : Type 0 where
  done : A → W → Attempt A W
  threw : Failure → W → Attempt A W

abbrev pub Io : Type 0 → Type 0 → Type 0
Io W A = W → Attempt A W

pub Attempt-cases :
    {A W : Type 0} (r : Attempt A W)
    → ((x : A × W) × (r ≡ done x.0 x.1)) ⊎ ((x : Failure × W) × (r ≡ threw x.0 x.1))
Attempt-cases (done a w) = inl ((a, w), refl)
Attempt-cases (threw e w) = inr ((e, w), refl)

infixl 5 ◌>>=◌ ◌>>◌
abbrev pub ◌>>=◌ : {W A B : Type 0} → Io W A → (A → Io W B) → Io W B
◌>>=◌ m f w = elim (m w) [ done a w' ↦ f a w' | threw e w' ↦ threw e w' ]

abbrev pub ◌>>◌ : {W B : Type 0} → Io W (Unit {0}) → Io W B → Io W B
m >> k = m >>= λ _. k

abbrev pub return : {W A : Type 0} → A → Io W A
return a w = done a w

abbrev pub throw : {W A : Type 0} → Failure → Io W A
throw e w = threw e w

pub record CommandResult : Type 0 where
  pub stdout : String
  pub stderr : String
  pub exit_code : ℕ

-- The timeout, the signal and the environment of the commands of one run are the same throughout.
pub record WorkspaceExecutor (W : Type 0) : Type 0 where
  pub run_command : String → Io W CommandResult
  pub read_file : String → ℕ → Io W String
  pub write_file : String → String → Io W (Unit {0})
  pub prepare : Option (Io W (Unit {0}))
  pub describe_path : Option (String → String)
  -- `signal?.aborted`, with the error that the signal's reason makes.
  pub aborted : W → Option Failure

module _ {W : Type 0} (executor : WorkspaceExecutor W) where
  -- `throwIfAborted`
  unfoldable pub throw_if_aborted : Io W (Unit {0})
  throw_if_aborted w = elim (executor.aborted w) [ none ↦ done tt w | some e ↦ threw e w ]
