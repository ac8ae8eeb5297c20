-- ===== src/Harness/Loop/Closing.antt =====
-- src/harness/loop.ts: how `runHarness` ends and what its log then holds.
use mathlib.Core.List.{append-nil, append_assoc}
use loomctl.Base.{
  ◌≡◌, refl, sym, ◌∙◌, ap, ℕ, zero, suc, ◌+◌, ◌≤◌, Bool, true, false, ◌||◌, if◌then◌else◌, String,
  Option, none, some, List, [], ◌∷◌, ◌++◌, any, arith,
}
use loomctl.Harness.Events.{HarnessStatus}
use loomctl.Harness.Executor.{Failure, Attempt, done, threw, Io, ◌>>◌, return, WorkspaceExecutor}
use loomctl.Harness.Triples.{Holds, Triple, bind, weaken, before, pure}
use loomctl.Harness.Options.{RunHarnessOptions}
use loomctl.Harness.Run.{
  Phase, Event, finish, assistant_message, prepare_started, prepare_passed, Run, Summary, append,
  enter, at_iteration, outside, close, summarize, cancel, is_assistant_message,
  assistant_message_count,
}
use loomctl.Harness.Turn.Steps.{
  is_finish, Quiet, Stable, Keeps, append-Keeps, enter-Keeps, at_iteration-Keeps, outside-Keeps,
}
use loomctl.Harness.Turn.Closing.{Closes, Ends, close-Closes, turn-Ends}
use loomctl.Harness.Loop.{
  opening, prepare_workspace, give_up, max_iteration_error, or_continue, iterate, body, handle,
  is_cancelled, run_error, settle, starting, rounds, run_harness,
}

any_finish-append :
    (xs : List Event) (e : Event) → any is_finish (xs ++ (e ∷ [])) ≡ any is_finish xs || is_finish e
any_finish-append [] e = ground arith
any_finish-append (x ∷ xs) e = ground (arith, any_finish-append xs e)

count-append :
    (xs : List Event) (e : Event)
    → assistant_message_count (xs ++ (e ∷ [])) ≤ suc (assistant_message_count xs)
unfolding assistant_message_count
count-append [] e = ground arith
count-append (x ∷ xs) e = ground (arith, count-append xs e)

count-append_quiet :
    (xs : List Event) (e : Event)
    → is_assistant_message e ≡ false
    → assistant_message_count (xs ++ (e ∷ [])) ≡ assistant_message_count xs
unfolding assistant_message_count
count-append_quiet [] e quiet = ground arith
count-append_quiet (x ∷ xs) e quiet = ground (arith, count-append_quiet xs e quiet)

module _ {W : Type 0} {I : Run W → Type 0} (stable : Stable I) (executor : WorkspaceExecutor W)
    (options : RunHarnessOptions W) where
  pub prepare-Keeps : Keeps I (prepare_workspace executor options)
  unfolding prepare_workspace is_finish is_assistant_message
  prepare-Keeps =
      elim executor.prepare
        as (λ p. Keeps I (elim p [
          | none ↦ return tt
          | some prepare ↦
              enter Phase.workspace_prepare
              >> (at_iteration none
                  >> (append prepare_started >> (outside prepare >> append prepare_passed)))
        ])) [
          | none ↦ pure tt (λ s. s) (λ s h. h)
          | some prepare ↦ bind (enter-Keeps stable Phase.workspace_prepare) λ _.
              bind (at_iteration-Keeps stable none) λ _.
                bind (append-Keeps stable prepare_started (refl, refl)) λ _.
                  bind (outside-Keeps stable prepare)
                    λ _. append-Keeps stable prepare_passed (refl, refl)
        ]

module _ {W : Type 0} (base : List Event) where
  -- The log is the first events and more, none of which ends the run, with at most `k` rounds.
  abbrev pub Open : ℕ → Run W → Type 0
  Open k s =
      (new : List Event) × (s.log ≡ base ++ new)
      × (any is_finish new ≡ false)
      × (assistant_message_count new ≤ k)

  Open-append :
      (k : ℕ) (s : Run W) (e : Event)
      → Quiet e
      → Open k s
      → Open k (record s { log = s.log ++ (e ∷ []) })
  Open-append k s e (silent, quiet) (new, eq, calm, bound) = (
    new ++ (e ∷ []),
    ap (λ l. l ++ (e ∷ [])) eq ∙ append_assoc base new (e ∷ []),
    ground (arith, any_finish-append new e),
    omega (arith, count-append_quiet new e quiet),
  )

  Open-Stable : (k : ℕ) → Stable (Open k)
  Open-Stable k = record {
    world = λ s w h. h;
    phase = λ s p h. h;
    iteration = λ s n h. h;
    verification = λ s v h. h;
    evaluation = λ s v h. h;
    reviewer = λ s v h. h;
    append = λ s e quiet h. Open-append k s e quiet h;
  }

  Open-le : (k m : ℕ) → k ≤ m → (s : Run W) → Open k s → Open m s
  Open-le k m h s (new, eq, calm, bound) = (new, eq, calm, omega (arith, h, bound))

  Open-message :
      (k : ℕ) (s : Run W) (text : String) (plan : Option String) (n count : ℕ) (finishes : Bool)
      → Open k s
      → Open
          (suc k)
          (record s { log = s.log ++ (assistant_message text plan n count finishes ∷ []) })
  unfolding is_finish
  Open-message k s text plan n count finishes (new, eq, calm, bound) =
      let e = assistant_message text plan n count finishes in
      (
        new ++ (e ∷ []),
        ap (λ l. l ++ (e ∷ [])) eq ∙ append_assoc base new (e ∷ []),
        ground (arith, any_finish-append new e),
        omega (arith, count-append new e, bound),
      )

  module _ (executor : WorkspaceExecutor W) (options : RunHarnessOptions W) where
    give_up-Closes :
        (k m : ℕ) → Triple (Open k) (give_up executor options m) (Closes (Open k)) (Open k)
    unfolding give_up is_finish is_assistant_message
    give_up-Closes k m = bind (enter-Keeps (Open-Stable k) Phase.max_iterations) λ _.
        bind (at_iteration-Keeps (Open-Stable k) none) λ _.
          bind
            (append-Keeps (Open-Stable k) (Event.error (max_iteration_error executor options m))
              (refl, refl))
            λ _.
              close-Closes (Open k) HarnessStatus.failed false false
                (some (max_iteration_error executor options m))

    continue-Closes :
        (k K : ℕ) (rest : Io (Run W) Summary)
        → k ≤ K
        → Triple (Open k) rest (Closes (Open K)) (Open K)
        → (r : Option Summary)
        → Triple (Ends (Open k) r) (or_continue executor options rest r) (Closes (Open K)) (Open K)
    unfolding or_continue Holds
    continue-Closes k K rest fits h none = h
    continue-Closes k K rest fits h (some summary) = record {
      holds = λ s (t, before_it, eq). (t, Open-le k K fits t before_it, eq);
    }

    iterate-Closes :
        (K m offset left n k : ℕ)
        → k + left ≤ K
        → Triple (Open k) (iterate executor options m offset left n) (Closes (Open K)) (Open K)
    unfolding iterate or_continue
    iterate-Closes K m offset zero n k fits =
        before (Open-le k K (omega (arith, fits))) (give_up-Closes K m)
    iterate-Closes K m offset (suc left) n k fits =
        bind
          (weaken (λ r s h. h) (Open-le (suc k) K (omega (arith, fits)))
            (turn-Ends executor options (Open-Stable k) (Open-Stable (suc k))
              (Open-le k (suc k) (omega arith)) (Open-message k) offset n))
          (continue-Closes (suc k) K _ (omega (arith, fits))
            (iterate-Closes K m offset left (suc n) (suc k) (omega (arith, fits))))

    body-Closes :
        (m offset : ℕ) → Triple (Open 0) (body executor options m offset) (Closes (Open m)) (Open m)
    unfolding body
    body-Closes m offset =
        bind (weaken (λ a s h. h) (Open-le 0 m (omega arith)) (outside-Keeps (Open-Stable 0) _))
          λ _.
            bind
              (weaken (λ a s h. h) (Open-le 0 m (omega arith))
                (prepare-Keeps (Open-Stable 0) executor options))
              λ _. iterate-Closes m m offset m 1 0 (omega arith)

    -- The call has returned a summary and closed the log.
    abbrev Returned : ℕ → Attempt Summary (Run W) → Type 0
    Returned k r =
        (summary : Summary) × (t : Run W) × (r ≡ done summary t) × Closes (Open k) summary t

    either :
        (k : ℕ) (b : Bool) (x y : Attempt Summary (Run W))
        → Returned k x
        → Returned k y
        → Returned k (if b then x else y)
    either k true x y h h' = h
    either k false x y h h' = h'

    handle-Returned :
        (k : ℕ) (e : Failure) (s : Run W) → Open k s → Returned k (handle executor options e s)
    unfolding handle close summarize is_finish is_assistant_message
    handle-Returned k e s h =
        either k (is_cancelled executor options e s.world) _ _
          (
            _,
            _,
            refl,
            (_, Open-append k s (cancel e.message s.phase s.iteration) (refl, refl) h, refl),
          )
          (
            _,
            _,
            refl,
            (
              _,
              Open-append k s (Event.error (run_error executor options e s)) (refl, refl) h,
              refl,
            ),
          )

    settle-Returned :
        (k : ℕ) (r : Attempt Summary (Run W))
        → Holds (Closes (Open k)) (Open k) r
        → Returned k (settle executor options r)
    unfolding settle Holds
    settle-Returned k (done summary s) h = (summary, s, refl, h)
    settle-Returned k (threw e s) h = handle-Returned k e s h

module _ {W : Type 0} (executor : WorkspaceExecutor W) (options : RunHarnessOptions W) where
  -- A run returns: whatever the agent answers or throws, and whenever it is aborted, `run_harness` ends with
  -- a summary. Its log is then the opening events, events that do not finish the run, and one `finish` event
  -- at the end with the status of the summary, and it has at most as many rounds as `maxIterations`.
  pub run_harness_closes :
      (w : W)
      → (summary : Summary) × (s : Run W) × (new : List Event) × (run_harness executor options w
          ≡ done summary s)
        × (s.log ≡ opening executor options options.resume ++ (new ++ (finish summary.status ∷ [])))
        × (any is_finish new ≡ false)
        × (assistant_message_count new ≤ rounds executor options)
  unfolding run_harness starting assistant_message_count
  run_harness_closes w =
      let (summary, s, ran, (t, (new, eq, calm, bound), closed)) =
        settle-Returned (opening executor options options.resume) executor options
          (rounds executor options) _
          ((body-Closes (opening executor options options.resume) executor options
              (rounds executor options)
              (assistant_message_count (opening executor options options.resume))).holds
            (starting executor options w)
            ([], sym (append-nil (opening executor options options.resume)), refl, omega arith)) in
      (
        summary,
        s,
        new,
        ran,
        ap (λ r. r.log) closed
            ∙ ap (λ l. l ++ (finish summary.status ∷ [])) eq
            ∙ append_assoc (opening executor options options.resume) new
                (finish summary.status ∷ []),
        calm,
        bound,
      )
