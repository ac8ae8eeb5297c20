-- ===== src/Harness/Loop/Gates.antt =====
-- src/harness/loop.ts: the gates of a whole run.
use loomctl.Base.{subst, ◌≡◌, ℕ, zero, suc, Bool, true, false, if◌then◌else◌, Option, none, some}
use loomctl.Harness.Executor.{Attempt, done, threw, Io, WorkspaceExecutor}
use loomctl.Harness.Triples.{Holds, Triple, bind, pure}
use loomctl.Harness.Options.{RunHarnessOptions}
use loomctl.Harness.Run.{Run, Summary, close, summarize, assistant_message_count}
use loomctl.Harness.Events.{HarnessStatus}
use loomctl.Harness.Turn.Steps.{outside-Keeps}
use loomctl.Harness.Turn.Gates.{
  is_cleared, Any, Any-Stable, ApprovedAndReviewed, Justified, JustifiedIf, turn-Justified,
}
use loomctl.Harness.Loop.{
  opening, give_up, or_continue, iterate, body, handle, is_cancelled, settle, starting, rounds,
  run_harness,
}
use loomctl.Harness.Loop.Closing.{prepare-Keeps}

module _ {W : Type 0} (executor : WorkspaceExecutor W) (options : RunHarnessOptions W) where
  give_up-Justified :
      (m : ℕ) → Triple Any (give_up executor options m) (Justified executor options) Any
  unfolding give_up close summarize is_cleared Holds
  give_up-Justified m = record { holds = λ s h cleared. cc }

  continue-Justified :
      (rest : Io (Run W) Summary)
      → Triple Any rest (Justified executor options) Any
      → (r : Option Summary)
      → Triple
          (JustifiedIf executor options r)
          (or_continue executor options rest r)
          (Justified executor options)
          Any
  unfolding or_continue
  continue-Justified rest h none = h
  continue-Justified rest h (some summary) = pure summary (λ s. s) (λ s h. h)

  iterate-Justified :
      (m offset left n : ℕ)
      → Triple Any (iterate executor options m offset left n) (Justified executor options) Any
  unfolding iterate
  iterate-Justified m offset zero n = give_up-Justified m
  iterate-Justified m offset (suc left) n =
      bind (turn-Justified executor options offset n)
        (continue-Justified _ (iterate-Justified m offset left (suc n)))

  body-Justified :
      (m offset : ℕ) → Triple Any (body executor options m offset) (Justified executor options) Any
  unfolding body
  body-Justified m offset =
      bind (outside-Keeps Any-Stable _)
        λ _. bind (prepare-Keeps Any-Stable executor options) λ _. iterate-Justified m offset m 1

  -- The call has not returned a summary that its gates do not justify.
  abbrev Sound : Attempt Summary (Run W) → Type 0
  Sound r = Holds (Justified executor options) Any r

  either :
      (b : Bool) (x y : Attempt Summary (Run W)) → Sound x → Sound y → Sound (if b then x else y)
  either true x y h h' = h
  either false x y h h' = h'

  settle-Sound : (r : Attempt Summary (Run W)) → Sound r → Sound (settle executor options r)
  unfolding settle handle close summarize is_cleared Holds
  settle-Sound (done summary s) h = h
  settle-Sound (threw e s) h =
      either (is_cancelled executor options e s.world) _ _ (λ cleared. cc) (λ cleared. cc)

  unsound :
      {summary : Summary} {s : Run W} (r : Attempt Summary (Run W))
      → Sound r
      → r ≡ done summary s
      → Justified executor options summary s
  unfolding Holds
  unsound r h eq = subst Sound eq h

  -- A run that is reported as passed, or as waiting for a review or a deployment, has ended with its
  -- checks: all the verification commands, in order, exited with 0, from where they ended so did the
  -- evaluation commands, and from there the reviewer's commands, if there are any, led to the world in
  -- which the run ended. The run is reported as waiting for a review where the options ask for one,
  -- otherwise as waiting for a deployment where they ask for that, and as passed where they ask for
  -- neither; and its summary has the review gate and the deployment gate that the options ask for.
  pub run_harness_gates :
      (w : W) (summary : Summary) (s : Run W)
      → run_harness executor options w ≡ done summary s
      → is_cleared summary.status ≡ true
      → ApprovedAndReviewed executor options s.world
        × (summary.status ≡ (
            if options.review_required
            then HarnessStatus.review_required
            else if options.deployment_required
            then HarnessStatus.deployment_required
            else HarnessStatus.passed))
        × (summary.review ≡ options.review_required)
        × (summary.deployment ≡ options.deployment_required)
  unfolding run_harness
  run_harness_gates w summary s ran =
      unsound _
        (settle-Sound _ (
          (body-Justified (rounds executor options)
              (assistant_message_count (opening executor options options.resume))).holds
            (starting executor options w) tt))
        ran
