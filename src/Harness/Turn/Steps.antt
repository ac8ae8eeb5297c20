-- ===== src/Harness/Turn/Steps.antt =====
-- src/harness/loop.ts: the steps of one round, and what they append.
use loomctl.Base.{
  subst, ap, sym, ◌≡◌, refl, ℕ, Bool, true, false, String, Option, none, some, List, [], ◌∷◌, ◌++◌,
}
use mathlib.Core.List.{append-nil, append_assoc}
use loomctl.Harness.Events.{VerificationResult}
use loomctl.Harness.Executor.{Attempt, done, threw, Io, WorkspaceExecutor}
use loomctl.Harness.Tools.{effective_allowed_tools, execute, run_verification}
use loomctl.Harness.Triples.{Holds, Triple, bind, pure}
use loomctl.Harness.Options.{ProposedAction, AgentStep, RunHarnessOptions}
use loomctl.Harness.Run.{
  Phase, Emitted, Event, finish, emitted, action, observation, Run, append, enter, at_iteration,
  outside, is_assistant_message,
}
use loomctl.Harness.Turn.{
  guard_abort, ensure_action_id, run_action, run_actions, emit, answered, ask_agent, asked_to_pause,
  run_commands_of,
}

unfoldable pub is_finish : Event → Bool
is_finish (finish status) = true
is_finish _ = false

-- An event that neither ends the run nor counts as a round.
abbrev pub Quiet : Event → Type 0
Quiet e = (is_finish e ≡ false) × (is_assistant_message e ≡ false)

-- A property of the run that none but its log bears on, and no quiet event changes.
pub record Stable {W : Type 0} (I : Run W → Type 0) : Type 0 where
  pub world : (s : Run W) (w : W) → I s → I (record s { world = w })
  pub phase : (s : Run W) (p : Option Phase) → I s → I (record s { phase = p })
  pub iteration : (s : Run W) (n : Option ℕ) → I s → I (record s { iteration = n })
  pub verification :
      (s : Run W) (v : Option VerificationResult) → I s → I (record s { verification = v })
  pub evaluation :
      (s : Run W) (v : Option VerificationResult) → I s → I (record s { evaluation = v })
  pub reviewer : (s : Run W) (v : Option VerificationResult) → I s → I (record s { reviewer = v })
  pub append : (s : Run W) (e : Event) → Quiet e → I s → I (record s { log = s.log ++ (e ∷ []) })

-- The call keeps `I`, thrown or not.
abbrev pub Keeps : {W A : Type 0} → (Run W → Type 0) → Io (Run W) A → Type 0
Keeps I m = Triple I m (λ _. I) I

module _ {W : Type 0} {I : Run W → Type 0} (stable : Stable I) where
  pub append-Keeps : (e : Event) → Quiet e → Keeps I (append e)
  append-Keeps e quiet =
      pure tt (λ s. record s { log = s.log ++ (e ∷ []) }) (λ s h. stable.append s e quiet h)

  pub enter-Keeps : (p : Phase) → Keeps I (enter p)
  enter-Keeps p = pure tt (λ s. record s { phase = some p }) (λ s h. stable.phase s (some p) h)

  pub at_iteration-Keeps : (n : Option ℕ) → Keeps I (at_iteration n)
  at_iteration-Keeps n = pure tt (λ s. record s { iteration = n }) (λ s h. stable.iteration s n h)

  pub outside-Keeps : {A : Type 0} (m : Io W A) → Keeps I (outside m)
  unfolding outside Holds
  outside-Keeps {A} m = record { holds = λ s h. ended s h (m s.world) }
    where
      ended : (s : Run W) → I s → (r : Attempt A W) → Holds (λ _. I) I (outside (λ _. r) s)
      ended s h (done a w) = stable.world s w h
      ended s h (threw e w) = stable.world s w h

  module _ (executor : WorkspaceExecutor W) (options : RunHarnessOptions W) where
    pub guard_abort-Keeps : Keeps I (guard_abort executor options)
    guard_abort-Keeps = outside-Keeps _

    run_action-Keeps : (a : ProposedAction) → Keeps I (run_action executor options a)
    unfolding run_action is_finish is_assistant_message
    run_action-Keeps a = bind (enter-Keeps Phase.tool_action) λ _. bind guard_abort-Keeps λ _.
        bind (outside-Keeps (ensure_action_id executor options a)) λ a'.
          bind (append-Keeps (action a') (refl, refl)) λ _.
            bind (enter-Keeps Phase.tool_observation) λ _.
              bind
                (outside-Keeps (
                  execute executor (effective_allowed_tools options.allowed_tools)
                    options.verify_commands a'))
                λ o. append-Keeps (observation o) (refl, refl)

    pub run_actions-Keeps :
        (actions : List ProposedAction) → Keeps I (run_actions executor options actions)
    unfolding run_actions
    run_actions-Keeps [] = pure tt (λ s. s) (λ s h. h)
    run_actions-Keeps (a ∷ rest) = bind (run_action-Keeps a) λ _. run_actions-Keeps rest

    emit-kept :
        (es : List Emitted) (s : Run W)
        → I s
        → I (record s { log = s.log ++ emit executor options es })
    unfolding emit is_finish is_assistant_message
    emit-kept [] s h = subst I (ap (λ l. record s { log = l }) (sym (append-nil s.log))) h
    emit-kept (e ∷ es) s h =
        subst I
          (ap (λ l. record s { log = l })
            (append_assoc s.log (emitted e ∷ []) (emit executor options es)))
          (emit-kept es (record s { log = s.log ++ (emitted e ∷ []) })
            (stable.append s (emitted e) (refl, refl) h))

    answered-Keeps :
        (s : Run W) (r : List Emitted × Attempt AgentStep W)
        → I s
        → Holds (λ _. I) I (answered executor options s r)
    unfolding answered Holds
    answered-Keeps s (es, done step w) h = stable.world _ w (emit-kept es s h)
    answered-Keeps s (es, threw e w) h = stable.world _ w (emit-kept es s h)

    pub ask_agent-Keeps : Keeps I (ask_agent executor options)
    unfolding ask_agent
    ask_agent-Keeps = record { holds = λ s h. answered-Keeps s (options.agent s.log s.world) h }

    pub asked_to_pause-Keeps : Keeps I (asked_to_pause executor options)
    unfolding asked_to_pause
    asked_to_pause-Keeps = record {
      holds = λ s h. (outside-Keeps (options.should_pause s.log)).holds s h;
    }

    pub run_commands_of-Keeps :
        (p : Phase) (commands : List String) (event : VerificationResult → Event)
        → ((v : VerificationResult) → Quiet (event v))
        → Keeps I (run_commands_of executor options p commands event)
    run_commands_of-Keeps p commands event quiet = bind (enter-Keeps p) λ _.
        bind guard_abort-Keeps λ _.
          bind (outside-Keeps (run_verification executor commands none))
            λ v. bind (append-Keeps (event v) (quiet v)) λ _. pure v (λ s. s) (λ s h. h)
