-- ===== src/Harness/Turn/Gates.antt =====
-- src/harness/loop.ts: the gates of a round.
use loomctl.Base.{
  ◌≡◌, refl, ℕ, ◌+◌, Bool, true, false, ◌&&◌, String, Option, none, some, List, [], ◌∷◌, ◌++◌,
  length, arith, Option-cases, inl, inr, ◌⊎◌, if◌then◌else◌,
}
use loomctl.Harness.Events.{
  VerificationResult, HarnessStatus, passed, review_required, deployment_required,
}
use loomctl.Harness.Executor.{
  Attempt-cases, Failure, done, threw, WorkspaceExecutor, throw_if_aborted,
}
use loomctl.Harness.Tools.{run_verification}
use loomctl.Harness.Tools.Verification.{Passes, none_left, run_verification-ok}
use loomctl.Harness.Triples.{Holds, Triple, bind, weaken, pure}
use loomctl.Harness.Options.{RunHarnessOptions, AgentStep}
use loomctl.Harness.Run.{
  Phase, Event, verified, evaluated, reviewed, assistant_message, review_gate, deployment_gate, Run,
  Summary, PauseRequest, outside, close, summarize,
}
use loomctl.Harness.Turn.Steps.{
  Stable, enter-Keeps, at_iteration-Keeps, guard_abort-Keeps, run_actions-Keeps,
  asked_to_pause-Keeps, ask_agent-Keeps,
}
use loomctl.Harness.Turn.{
  guard_abort, append_if, review, review_with, verify, evaluate, evaluate_with, evaluation_ok,
  gate_status, conclude, gate_is_ok, finish_run, pause_run, finish_if, take_step, pause_or_step,
  turn, run_commands_of,
}

-- The statuses of a run whose gate was ok.
unfoldable pub is_cleared : HarnessStatus → Bool
is_cleared passed = true
is_cleared review_required = true
is_cleared deployment_required = true
is_cleared _ = false

abbrev pub Any : {S : Type 0} → S → Type 0
Any s = Unit

module _ {W : Type 0} where
  pub Const-Stable : (P : Type 0) → Stable {W = W} (λ _. P)
  Const-Stable P = record {
    world = λ s w h. h;
    phase = λ s p h. h;
    iteration = λ s n h. h;
    verification = λ s v h. h;
    evaluation = λ s v h. h;
    reviewer = λ s v h. h;
    append = λ s e quiet h. h;
  }

  pub Any-Stable : Stable {W = W} Any
  Any-Stable = Const-Stable Unit

module _ {W : Type 0} (executor : WorkspaceExecutor W) (options : RunHarnessOptions W) where
  -- From this world, at which `P` held, the commands gave this result and led to the world `w'`.
  abbrev Ran : (W → Type 0) → List String → VerificationResult → W → Type 0
  Ran P commands v w' =
      (w : W) × P w
      × (run_verification executor commands none w ≡ done v w')
      × (v.ok ≡ true → Passes executor commands w w')

  -- The reviewer's commands led from `w` to `w'`, or there are none.
  abbrev pub ReviewedBy : List String → W → W → Type 0
  ReviewedBy commands w w' =
      ((commands ≡ []) × (w ≡ w'))
      ⊎ ((v : VerificationResult) × (run_verification executor commands none w ≡ done v w'))

  -- The verification commands all exited with 0, and from where they ended the evaluation commands did,
  -- which ended at `w`.
  abbrev Approved : W → Type 0
  Approved w =
      (w₁ w₂ : W) × Passes executor options.verify_commands w₁ w₂
      × Passes executor options.evaluation_commands w₂ w

  -- From there the reviewer's commands ended at `w`.
  abbrev pub ApprovedAndReviewed : W → Type 0
  ApprovedAndReviewed w =
      (w₁ w₂ w₃ : W) × Passes executor options.verify_commands w₁ w₂
      × Passes executor options.evaluation_commands w₂ w₃
      × ReviewedBy options.reviewer_commands w₃ w

  -- What a summary and the world at the end of the run say of a gate that was ok.
  abbrev pub Justified : Summary → Run W → Type 0
  Justified summary s =
      is_cleared summary.status ≡ true
      → ApprovedAndReviewed s.world
        × (summary.status ≡ (
            if options.review_required
            then HarnessStatus.review_required
            else if options.deployment_required
            then HarnessStatus.deployment_required
            else passed))
        × (summary.review ≡ options.review_required)
        × (summary.deployment ≡ options.deployment_required)

  aborted_not :
      (commands : List String) (w w' : W) {v : VerificationResult}
      → run_verification executor commands none w ≡ done v w'
      → executor.aborted w ≡ none
  unfolding run_verification throw_if_aborted
  aborted_not commands w w' h = elim (Option-cases (executor.aborted w)) [
    | inl running ↦ running
    | inr (e, stop) ↦ ground (arith, stop, h)
  ]

  -- What leaves the world as it is keeps what holds of it.
  module _ (P : W → Type 0) where
    guard_abort-world :
        Triple (λ s. P s.world) (guard_abort executor options) (λ _ s. P s.world) Any
    unfolding outside Holds throw_if_aborted
    guard_abort-world = record { holds = λ s h. kept s h (executor.aborted s.world) }
      where
        kept :
            (s : Run W)
            → P s.world
            → (o : Option Failure)
            → Holds
                (λ _ s'. P s'.world)
                Any
                (outside (λ w. elim o [ none ↦ done tt w | some e ↦ threw e w ]) s)
        kept s h none = h
        kept s h (some e) = tt

    append_if-world :
        (on : Bool) (e : Event)
        → Triple (λ s. P s.world) (append_if executor options on e) (λ _ s. P s.world) Any
    unfolding append_if
    append_if-world true e = pure tt (λ s. record s { log = s.log ++ (e ∷ []) }) (λ s h. h)
    append_if-world false e = pure tt (λ s. s) (λ s h. h)

    verified-Ran :
        (commands : List String)
        → Triple
            (λ s. P s.world)
            (outside (run_verification executor commands none))
            (λ v s. Ran P commands v s.world)
            Any
    unfolding outside Holds
    verified-Ran commands = record {
      holds = λ s h. elim (Attempt-cases (run_verification executor commands none s.world)) [
        | inl ((v, w'), ran) ↦ rw ran (
          s.world,
          h,
          ran,
          λ good.
              (run_verification-ok executor commands none s.world w'
                  (aborted_not commands s.world w' ran)).0
                (v, ran, good),
        )
        | inr ((e, w'), broke) ↦ rw broke tt
      ];
    }

    commands-Ran :
        (p : Phase) (commands : List String) (event : VerificationResult → Event)
        → Triple
            (λ s. P s.world)
            (run_commands_of executor options p commands event)
            (λ v s. Ran P commands v s.world)
            Any
    commands-Ran p commands event =
        bind (pure {post = λ _ s. P s.world} tt (λ s. record s { phase = some p }) (λ s h. h)) λ _.
          bind guard_abort-world λ _. bind (verified-Ran commands) λ v.
            bind
              (pure {pre = λ s. Ran P commands v s.world} {post = λ _ s. Ran P commands v s.world}
                tt (λ s. record s { log = s.log ++ (event v ∷ []) }) (λ s h. h))
              λ _. pure v (λ s. s) (λ s h. h)

    -- `evaluation?.ok ?? true` after the evaluation.
    abbrev Evaluated : List String → Run W → Type 0
    Evaluated commands s =
        (w : W) × P w
        × (evaluation_ok executor options s.evaluation ≡ true → Passes executor commands w s.world)

    evaluate_with-Evaluated :
        (commands : List String)
        → Triple
            (λ s. P s.world)
            (evaluate_with executor options commands)
            (λ _ s. Evaluated commands s)
            Any
    unfolding evaluate_with evaluation_ok
    evaluate_with-Evaluated [] = pure tt (λ s. s) (λ s h. (s.world, h, λ good. none_left))
    evaluate_with-Evaluated (c ∷ cs) = bind (commands-Ran Phase.evaluation (c ∷ cs) evaluated) λ v.
        pure tt (λ s. record s { evaluation = some v }) (λ s (w, h, ran, passes). (w, h, passes))

    evaluate-Evaluated :
        (on : Bool)
        → Triple
            (λ s. P s.world)
            (evaluate executor options on)
            (λ _ s. on ≡ true → Evaluated options.evaluation_commands s)
            Any
    unfolding evaluate
    evaluate-Evaluated false = pure tt (λ s. s) (λ s h off. cc)
    evaluate-Evaluated true =
        weaken (λ a s h on. h) (λ s h. h) (evaluate_with-Evaluated options.evaluation_commands)

    review_with-Reviewed :
        (commands : List String)
        → Triple
            (λ s. P s.world)
            (review_with executor options commands)
            (λ _ s. (w : W) × P w × ReviewedBy commands w s.world)
            Any
    unfolding review_with
    review_with-Reviewed [] = pure tt (λ s. s) (λ s h. (s.world, h, inl (refl, refl)))
    review_with-Reviewed (c ∷ cs) = bind (commands-Ran Phase.reviewer (c ∷ cs) reviewed) λ v.
        pure tt (λ s. record s { reviewer = some v })
          (λ s (w, h, ran, passes). (w, h, inr (v, ran)))

  -- The verification was ok only if its commands passed, and they ended at `w`.
  abbrev Verified : VerificationResult → W → Type 0
  Verified v w = v.ok ≡ true → (w₁ : W) × Passes executor options.verify_commands w₁ w

  verify-Verified : Triple Any (verify executor options) (λ v s. Verified v s.world) Any
  unfolding verify
  verify-Verified =
      bind (commands-Ran (λ _. Unit) Phase.verification options.verify_commands verified) λ v.
        pure v (λ s. record s { verification = some v })
          (λ s (w, h, ran, passes) good. (w, passes good))

  abbrev Open : Bool → W → Type 0
  Open gate_ok w = gate_ok ≡ true → Approved w

  gate_is_ok-Open :
      (v : VerificationResult)
      → Triple
          (λ s. v.ok ≡ true → Evaluated (Verified v) options.evaluation_commands s)
          (gate_is_ok executor options v)
          (λ gate_ok s. Open gate_ok s.world)
          Any
  unfolding gate_is_ok Holds
  gate_is_ok-Open v = record {
    holds = λ s h both.
        let good : v.ok ≡ true = ground arith in
        let (w₂, verified_at, evaluates) = h good in
        let (w₁, passes) = verified_at good in (w₁, w₂, passes, evaluates (ground arith));
  }

  abbrev Concluded : Bool → W → Type 0
  Concluded gate_ok w = gate_ok ≡ true → ApprovedAndReviewed w

  review-Concluded :
      (gate_ok : Bool)
      → Triple
          (λ s. Open gate_ok s.world)
          (review executor options gate_ok)
          (λ _ s. Concluded gate_ok s.world)
          Any
  unfolding review
  review-Concluded false = pure tt (λ s. s) (λ s h off. cc)
  review-Concluded true =
      weaken
        (λ a s (w₃, open_at, reviewed_by) on.
          let (w₁, w₂, passes, evaluates) = open_at refl in
          (w₁, w₂, w₃, passes, evaluates, reviewed_by))
        (λ s h. h) (review_with-Reviewed (Open true) options.reviewer_commands)

  close-Justified :
      (gate_ok : Bool)
      → Triple
          (λ s. Concluded gate_ok s.world)
          (close {W = W}
            (gate_status executor options gate_ok options.review_required
              options.deployment_required)
            (gate_ok && options.review_required)
            (gate_ok && options.deployment_required)
            none)
          Justified
          Any
  unfolding close summarize Holds gate_status is_cleared
  close-Justified true = record { holds = λ s h cleared. (h refl, refl, refl, refl) }
  close-Justified false = record { holds = λ s h cleared. cc }

  conclude-Justified :
      (gate_ok : Bool)
      → Triple (λ s. Concluded gate_ok s.world) (conclude executor options gate_ok) Justified Any
  unfolding conclude
  conclude-Justified gate_ok =
      bind (append_if-world (Concluded gate_ok) (gate_ok && options.review_required) review_gate)
        λ _.
          bind
            (append_if-world (Concluded gate_ok) (gate_ok && options.deployment_required)
              deployment_gate)
            λ _. close-Justified gate_ok

  finish_run-Justified : Triple Any (finish_run executor options) Justified Any
  unfolding finish_run
  finish_run-Justified = bind verify-Verified λ v. bind (evaluate-Evaluated (Verified v) v.ok) λ _.
      bind (gate_is_ok-Open v)
        λ gate_ok. bind (review-Concluded gate_ok) λ _. conclude-Justified gate_ok

  abbrev pub JustifiedIf : Option Summary → Run W → Type 0
  JustifiedIf none s = Unit
  JustifiedIf (some summary) s = Justified summary s

  pause_run-Justified :
      (request : PauseRequest) → Triple Any (pause_run executor options request) Justified Any
  unfolding pause_run close summarize is_cleared Holds
  pause_run-Justified request = record { holds = λ s h cleared. cc }

  finish_if-Justified : (on : Bool) → Triple Any (finish_if executor options on) JustifiedIf Any
  unfolding finish_if
  finish_if-Justified false = pure none (λ s. s) (λ s h. h)
  finish_if-Justified true =
      bind finish_run-Justified λ summary. pure (some summary) (λ s. s) (λ s h. h)

  take_step-Justified :
      (n : ℕ) (step : AgentStep) → Triple Any (take_step executor options n step) JustifiedIf Any
  unfolding take_step
  take_step-Justified n step =
      bind
        (pure {post = λ _. Any} tt
          (λ s. record s {
            log =
                s.log
                ++ (assistant_message step.message step.plan n (length step.actions) step.finish
                    ∷ []);
          })
          (λ s h. h))
        λ _.
          bind (run_actions-Keeps Any-Stable executor options step.actions)
            λ _. finish_if-Justified step.finish

  pause_or_step-Justified :
      (n : ℕ) (request : Option PauseRequest)
      → Triple Any (pause_or_step executor options n request) JustifiedIf Any
  unfolding pause_or_step
  pause_or_step-Justified n (some request) =
      bind (pause_run-Justified request) λ summary. pure (some summary) (λ s. s) (λ s h. h)
  pause_or_step-Justified n none =
      bind (ask_agent-Keeps Any-Stable executor options) (take_step-Justified n)

  pub turn-Justified : (offset n : ℕ) → Triple Any (turn executor options offset n) JustifiedIf Any
  unfolding turn
  turn-Justified offset n = bind (at_iteration-Keeps Any-Stable (some n)) λ _.
      bind (enter-Keeps Any-Stable Phase.agent_next) λ _.
        bind (guard_abort-Keeps Any-Stable executor options) λ _.
          bind (asked_to_pause-Keeps Any-Stable executor options)
            (pause_or_step-Justified (offset + n))
