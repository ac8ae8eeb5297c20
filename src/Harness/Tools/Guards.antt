-- ===== src/Harness/Tools/Guards.antt =====
-- src/harness/tools.ts: the guards and the errors of the tools.
use Prim.Native.String.{◌++◌}
use Prim.Native.Char.{Char, code}
use mathlib.Core.List
use loomctl.Base.Texts.{trim, split, split_from}
use loomctl.Base.Texts.Split.{split-append}
use loomctl.Base.{
  ℕ, Bool, [], ◌∷◌, ◌==◌, ◌||◌, eqb, any, ap, ◌≡◌, refl, ◌≢◌, ◌⊎◌, inl, inr, true, false, String,
  none, some, List, eq_iff, Bool-cases, Option-cases, arith,
}
use loomctl.Harness.Events.{ToolAction, ToolObservation}
use loomctl.Harness.Executor.{
  Failure, Attempt, done, threw, Io, plain, WorkspaceExecutor, throw_if_aborted,
}
use loomctl.Harness.Tools.{
  is_tool_allowed, is_reserved_path, observation, Returned, settled, pending, awaited, attempt,
  settle, dispatch, run_shell, shell_exec, git_diff, git_commit, verify_run, file_read, file_write,
  execute,
}

-- A slash, or the backslash that stands for one.
abbrev pub IsSeparator : Char → Type 0
IsSeparator c = (code c ≡ 47) ⊎ (code c ≡ 92)

-- A path one of whose parts, between separators, is ".loom".
pub data HasLoomPart : String → Type 0 where
  alone : HasLoomPart ".loom"
  in_front : (c : Char) (rest : String) → IsSeparator c → HasLoomPart (".loom" ++ String.◌∷◌ c rest)
  behind :
      (front : String) (c : Char) (rest : String)
      → IsSeparator c
      → HasLoomPart rest
      → HasLoomPart (front ++ String.◌∷◌ c rest)

abbrev is_separator : ℕ → Bool
is_separator c = eqb c b'/' || eqb c 92

abbrev is_loom : String → Bool
is_loom part = part == ".loom"

IsSeparator-true : (c : Char) → IsSeparator c → is_separator (code c) ≡ true
IsSeparator-true c (inl slash) = ground (arith, slash)
IsSeparator-true c (inr backslash) = ground (arith, backslash)

any-append_right :
    (p : String → Bool) (xs ys : List String) → any p ys ≡ true → any p (List.◌++◌ xs ys) ≡ true
any-append_right p [] ys h = h
any-append_right p (x ∷ xs) ys h = ground (arith, any-append_right p xs ys h)

loom_alone : split is_separator ".loom" ≡ ".loom" ∷ []
unfolding split split_from
loom_alone = refl

HasLoomPart-any : (s : String) → HasLoomPart s → any is_loom (split is_separator s) ≡ true
HasLoomPart-any s alone = rw loom_alone refl
HasLoomPart-any s (in_front c rest sep) =
    rw (split-append is_separator c ".loom" rest (IsSeparator-true c sep), loom_alone) refl
HasLoomPart-any s (behind front c rest sep part) =
    rw (split-append is_separator c front rest (IsSeparator-true c sep)) (
      any-append_right is_loom (split is_separator front) (split is_separator rest)
        (HasLoomPart-any rest part))

free_of_loom : (path : String) → is_reserved_path path ≡ false → HasLoomPart (trim path) → ⊥
unfolding is_reserved_path
free_of_loom path free part = cc (HasLoomPart-any (trim path) part, free)

any-Member :
    (name : String) (names : List String)
    → any (λ t. t == name) names ≡ true
    → (before after : List String) × (names ≡ List.◌++◌ before (name ∷ after))
any-Member name [] h = cc
any-Member name (t ∷ names) h = elim (Bool-cases (t == name)) [
  | inl same ↦ ([], names, ap (λ n. n ∷ names) ((eq_iff t name).0 same))
  | inr other ↦
      let (before, after, e) = any-Member name names (rw other at h) in
      (t ∷ before, after, ap (λ ns. t ∷ ns) e)
]

module _ {W : Type 0} (executor : WorkspaceExecutor W) where
  execute_denied :
      (tools commands : List String) (action : ToolAction) (w : W)
      → executor.aborted w ≡ none
      → is_tool_allowed action.tool_name tools ≡ false
      → execute executor tools commands action w
        ≡ done (observation action false "" 1 ("tool not allowed: " ++ action.tool_name)) w
  unfolding execute attempt dispatch throw_if_aborted settle file_read file_write
  execute_denied tools commands action w running denied = ground (arith, running, denied)

  dispatch_reserved :
      (commands : List String) (action : ToolAction) (w : W)
      → (action.tool_name ≡ "file.read") ⊎ (action.tool_name ≡ "file.write")
      → is_reserved_path action.input.path ≡ true
      → dispatch executor commands action w ≡ threw (plain "path is reserved for Loom internals") w
  unfolding dispatch file_read file_write
  dispatch_reserved commands action w (inl read) reserved = rw (read, reserved) refl
  dispatch_reserved commands action w (inr write) reserved = rw (write, reserved) refl

  execute_reserved :
      (tools commands : List String) (action : ToolAction) (w : W)
      → executor.aborted w ≡ none
      → (action.tool_name ≡ "file.read") ⊎ (action.tool_name ≡ "file.write")
      → is_reserved_path action.input.path ≡ true
      → is_tool_allowed action.tool_name tools ≡ true
      → execute executor tools commands action w
        ≡ done (observation action false "" 1 "path is reserved for Loom internals") w
  unfolding execute throw_if_aborted
  execute_reserved tools commands action w running tool reserved allowed =
      ground (arith, allowed, running, dispatch_reserved commands action w tool reserved)

  execute_stopped :
      (tools commands : List String) (action : ToolAction) (w : W) (e : Failure)
      → executor.aborted w ≡ some e
      → execute executor tools commands action w ≡ threw e w
  unfolding execute throw_if_aborted
  execute_stopped tools commands action w e stop = ground (arith, stop)

  -- An agent sees an ok observation only of an action that was allowed: its tool is in the list of the
  -- allowed ones, the run was not aborted before it and, for the tools on files, the path without the
  -- blanks around it has no part ".loom" between slashes or backslashes.
  pub ok_was_allowed :
      (tools commands : List String) (action : ToolAction) (w w' : W) {o : ToolObservation}
      → execute executor tools commands action w ≡ done o w'
      → o.ok ≡ true
      → (executor.aborted w ≡ none)
        × ((before after : List String) × (tools ≡ List.◌++◌ before (action.tool_name ∷ after)))
        × ((action.tool_name ≡ "file.read") ⊎ (action.tool_name ≡ "file.write")
            → HasLoomPart (trim action.input.path)
            → ⊥)
  unfolding observation is_tool_allowed
  ok_was_allowed tools commands action w w' {o} ran good =
      elim (Option-cases (executor.aborted w)) [
        | inr (e, stop) ↦ elim (threw≢done (execute_stopped tools commands action w e stop) ran) [ ]
        | inl running ↦ elim (Bool-cases (is_tool_allowed action.tool_name tools)) [
          | inr denied ↦
              elim (not_ok (execute_denied tools commands action w running denied) ran refl
                good) [ ]
          | inl allowed ↦ (
            running,
            any-Member action.tool_name tools allowed,
            λ tool. elim (Bool-cases (is_reserved_path action.input.path)) [
              | inr free ↦ free_of_loom action.input.path free
              | inl reserved ↦
                  elim (not_ok
                    (execute_reserved tools commands action w running tool reserved allowed) ran
                    refl good) [ ]
            ],
          )
        ]
      ]
    where
      threw≢done :
          {r : Attempt ToolObservation W} {e : Failure} {u : W} → r ≡ threw e u → r ≢ done o w'
      threw≢done a b = cc

      not_ok :
          {r : Attempt ToolObservation W} {o₁ : ToolObservation} {u : W}
          → r ≡ done o₁ u
          → r ≡ done o w'
          → o₁.ok ≡ false
          → o.ok ≢ true
      not_ok a b c d = cc

  awaited-settled :
      (m : Io W ToolObservation) (k : Io W ToolObservation) (w u : W)
      → awaited executor m w ≢ done (pending k) u
  unfolding awaited
  awaited-settled m k w u h = ground (arith, h)

  -- Only "shell.exec" returns a promise, that of its command.
  dispatch-pending :
      (commands : List String) (action : ToolAction) (k : Io W ToolObservation) (w u : W)
      → dispatch executor commands action w ≡ done (pending k) u
      → (action.tool_name ≡ "shell.exec") × (k ≡ run_shell executor action action.input.command)
  unfolding dispatch shell_exec
  dispatch-pending commands action k w u h = ground (
    arith,
    eq_iff action.tool_name "shell.exec",
    awaited-settled (file_read executor action) k w u,
    awaited-settled (file_write executor action) k w u,
    awaited-settled (git_diff executor action) k w u,
    awaited-settled (git_commit executor action) k w u,
    awaited-settled (verify_run executor commands action) k w u,
  )

  run_shell-threw :
      (action : ToolAction) (command : String) (w w' : W) {e : Failure}
      → run_shell executor action command w ≡ threw e w'
      → executor.run_command command w ≡ threw e w'
  unfolding run_shell
  run_shell-threw action command w w' h = ground arith

  -- Where the command of a "shell.exec" throws.
  abbrev pub ShellBroke : ToolAction → Failure → W → Type 0
  ShellBroke action e w' =
      (action.tool_name ≡ "shell.exec")
      × ((w : W) × (executor.run_command action.input.command w ≡ threw e w'))

  attempt-pending :
      (tools commands : List String) (action : ToolAction) (k : Io W ToolObservation) (w u : W)
      → attempt executor tools commands action w ≡ done (pending k) u
      → (action.tool_name ≡ "shell.exec") × (k ≡ run_shell executor action action.input.command)
  unfolding attempt throw_if_aborted
  attempt-pending tools commands action k w u h =
      ground (arith, dispatch-pending commands action k w u)

  -- An action ends the run in two ways only: the run is aborted, and the error is that of the abort; or
  -- its tool is "shell.exec" and the executor itself fails to run the command, by that error.
  pub execute_throws :
      (tools commands : List String) (action : ToolAction) (w w' : W) {e : Failure}
      → execute executor tools commands action w ≡ threw e w'
      → (executor.aborted w' ≡ some e) ⊎ ShellBroke action e w'
  unfolding execute
  execute_throws tools commands action w w' {e} h =
      thrown (attempt executor tools commands action w) refl h
    where
      thrown :
          (r : Attempt (Returned W) W)
          → attempt executor tools commands action w ≡ r
          → settle executor action r ≡ threw e w'
          → (executor.aborted w' ≡ some e) ⊎ ShellBroke action e w'
      thrown (done (settled o) u) from k = cc
      thrown (done (pending m) u) from k =
          let (tool, is_shell) = attempt-pending tools commands action m w u from in
          inr (tool, (u, run_shell-threw action action.input.command u w' (rw is_shell at k)))
      thrown (threw f u) from k = elim (Option-cases (executor.aborted u)) [
        | inl running ↦ ground arith
        | inr (g, cancelled) ↦ inl (ground arith)
      ]
