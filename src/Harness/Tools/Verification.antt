-- ===== src/Harness/Tools/Verification.antt =====
-- src/harness/tools.ts: a verification result, and the commands that were run.
use mathlib.Core.List
use loomctl.Base.{
  ◌≡◌, refl, ◌↔◌, inl, inr, true, String, Option, none, List, [], ◌∷◌, eqb, Bool-cases,
  Option-cases, arith, subst,
}
use loomctl.Harness.Events.{VerificationResult}
use loomctl.Harness.Executor.{
  Attempt, Attempt-cases, done, CommandResult, WorkspaceExecutor, throw_if_aborted,
}
use loomctl.Harness.Tools.{
  run_commands, run_nonempty, run_verification, verification_commands, format_command_output,
  verification, no_commands,
}

module _ {W : Type 0} (executor : WorkspaceExecutor W) where
  -- The commands, run one after the other from `w` with no abort, all exit with 0, and end in `w'`.
  pub data Passes : List String → W → W → Type 0 where
    none_left : {w : W} → Passes [] w w
    next :
        {c : String} {cs : List String} {w w' w'' : W} (r : CommandResult)
        → executor.aborted w ≡ none
        → executor.run_command c w ≡ done r w'
        → r.exit_code ≡ 0
        → Passes cs w' w''
        → Passes (c ∷ cs) w w''

  -- One turn of the loop.
  run_commands-step :
      (all outputs cs : List String) (c : String) (w w' : W) {v : VerificationResult}
      → run_commands executor all outputs (c ∷ cs) w ≡ done v w'
      → v.ok ≡ true
      → (executor.aborted w ≡ none)
        × ((r : CommandResult) × (u : W) × (executor.run_command c w ≡ done r u)
            × (r.exit_code ≡ 0)
            × (run_commands executor all (List.◌++◌ outputs (format_command_output c r ∷ [])) cs u
                ≡ done v w'))
  unfolding run_commands throw_if_aborted
  run_commands-step all outputs cs c w w' {v} e h = elim (Option-cases (executor.aborted w)) [
    | inr (f, stop) ↦ ground arith
    | inl on ↦ elim (Attempt-cases (executor.run_command c w)) [
      | inr (f, broke) ↦ ground arith
      | inl ((r, u), ran) ↦ elim (Bool-cases (eqb r.exit_code 0)) [
        | inr bad ↦ ground arith
        | inl good ↦ (on, (r, u, ran, ground arith, ground arith))
      ]
    ]
  ]

  run_commands_sound :
      (all outputs cs : List String) (w w' : W) {v : VerificationResult}
      → run_commands executor all outputs cs w ≡ done v w'
      → v.ok ≡ true
      → Passes cs w w'
  unfolding run_commands
  run_commands_sound all outputs [] w w' e h = subst (Passes [] w) (ended e) none_left
    where
      ended :
          {v : VerificationResult}
          → Attempt.done (verification true outputs 0 all) w ≡ done v w'
          → w ≡ w'
      ended k = cc
  run_commands_sound all outputs (c ∷ cs) w w' e h =
      let (on, (r, u, ran, good, rest)) = run_commands-step all outputs cs c w w' e h in
      next r on ran good
        (run_commands_sound all (List.◌++◌ outputs (format_command_output c r ∷ [])) cs u w' rest h)

  run_commands_complete :
      (all outputs : List String) {cs : List String} {w w' : W}
      → Passes cs w w'
      → (v : VerificationResult) × (run_commands executor all outputs cs w ≡ done v w')
        × (v.ok ≡ true)
  unfolding run_commands throw_if_aborted
  run_commands_complete all outputs none_left = (_, refl, refl)
  run_commands_complete all outputs (next {c} r on ran good passes) =
      let (v, rest, h) =
        run_commands_complete all (List.◌++◌ outputs (format_command_output c r ∷ [])) passes in
      (v, ground (arith, on, ran, good, rest), h)

  nonempty_ok :
      (cs : List String) (w w' : W)
      → executor.aborted w ≡ none
      → ((v : VerificationResult) × (run_nonempty executor cs w ≡ done v w') × (v.ok ≡ true))
        ↔ Passes cs w w'
  unfolding run_nonempty
  nonempty_ok [] w w' on = ((λ (v, e, h). subst (Passes [] w) (ended e) none_left), made)
    where
      ended : {v : VerificationResult} → Attempt.done (no_commands executor) w ≡ done v w' → w ≡ w'
      ended k = cc

      made :
          {u : W}
          → Passes [] w u
          → (v : VerificationResult) × (run_nonempty executor [] w ≡ done v u) × (v.ok ≡ true)
      made none_left = (no_commands executor, refl, refl)
  nonempty_ok (c ∷ cs) w w' on = (
    (λ (v, e, h). run_commands_sound (c ∷ cs) [] (c ∷ cs) w w' e h),
    (λ p. run_commands_complete (c ∷ cs) [] p),
  )

  running :
      (configured : List String) (override : Option String) (w : W)
      → executor.aborted w ≡ none
      → run_verification executor configured override w
        ≡ run_nonempty executor (verification_commands executor configured override) w
  unfolding run_verification throw_if_aborted
  running configured override w on = ground (arith, on)

  -- A verification that is not aborted at its start gives an ok result exactly if its commands, in
  -- order, all exit with 0 with no abort before any of them, and it then ends where the last of them
  -- ends.
  pub run_verification-ok :
      (configured : List String) (override : Option String) (w w' : W)
      → executor.aborted w ≡ none
      → ((v : VerificationResult) × (run_verification executor configured override w ≡ done v w')
          × (v.ok ≡ true))
        ↔ Passes (verification_commands executor configured override) w w'
  run_verification-ok configured override w w' on =
      rw (running configured override w on)
        (nonempty_ok (verification_commands executor configured override) w w' on)
