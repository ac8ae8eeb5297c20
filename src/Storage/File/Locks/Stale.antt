-- ===== src/Storage/File/Locks/Stale.antt =====
-- withFileLock of src/harness/storage/file.ts: the lock file that a dead process has left behind.
use loomctl.Base.{
  ℕ, zero, suc, ◌+◌, ◌≤◌, ◌<◌, ◌≡◌, refl, ap, ◌∙◌, inl, inr, true, Option, none, some, false, leb,
  arith, Bool-cases,
}
use loomctl.Storage.File.Locks.{
  file_lock_timeout_ms, Place, idle, dead, timed_out, opening, looking, breaking, seen, waiting,
  holding, stat_answer, stale_test, deadline_test, lock_step, Processes, act, Holds,
}
use loomctl.Storage.File.Locks.Exclusion.{moved_self}

-- Process `i` goes through several steps, no time passing.
unfoldable pub acts_alone : ℕ → ℕ → Processes → Processes
acts_alone zero i s = s
acts_alone (suc n) i s = acts_alone n i (act i s)

-- The same steps, of the one place and the lock file.
unfoldable solo : ℕ → ℕ → Place × Option ℕ → Place × Option ℕ
solo zero now at = at
solo (suc n) now at = solo n now (lock_step now at.0 at.1)

acts_alone-solo :
    (n i : ℕ) (s : Processes)
    → ((acts_alone n i s).place i, (acts_alone n i s).lock) ≡ solo n s.now (s.place i, s.lock)
unfolding acts_alone solo act
acts_alone-solo zero i s = refl
acts_alone-solo (suc n) i s =
    let step = lock_step s.now (s.place i) s.lock in
    acts_alone-solo n i (act i s) ∙ ap (λ p. solo n s.now (p, step.1)) (moved_self s.place i step.0)

-- The process stands between its two readings of the clock.
unfoldable pub BetweenTests : Place → Type 0
BetweenTests (waiting deadline) = Unit
BetweenTests _ = ⊥

-- Only process `i` moves, and time passes, but for the moment between its two readings of the clock.
pub data Alone (i : ℕ) (s : Processes) : Processes → Type 0 where
  start : Alone i s s
  acts : {t : Processes} → Alone i s t → Alone i s (act i t)
  passes :
      {t : Processes} (ms : ℕ)
      → (BetweenTests (t.place i) → ⊥)
      → Alone i s t
      → Alone i s (record t { now = t.now + ms })

-- What holds of a process and the lock file of time `m` that it has found, at every time.
unfoldable Waits : ℕ → ℕ → Place → Option ℕ → Type 0
Waits m now idle none = Unit
Waits m now idle (some k) = (k ≡ m) × (m ≤ now)
Waits m now dead lock = ⊥
Waits m now timed_out lock = ⊥
Waits m now (opening deadline) none = Unit
Waits m now (opening deadline) (some k) = (k ≡ m) × (m + file_lock_timeout_ms ≤ deadline)
Waits m now (looking deadline) none = ⊥
Waits m now (looking deadline) (some k) = (k ≡ m) × (m + file_lock_timeout_ms ≤ deadline)
Waits m now (seen deadline k) none = ⊥
Waits m now (seen deadline k) (some l) = (k ≡ m) × (l ≡ m) × (m + file_lock_timeout_ms ≤ deadline)
Waits m now (waiting deadline) none = ⊥
Waits m now (waiting deadline) (some k) =
    (k ≡ m) × (m + file_lock_timeout_ms ≤ deadline) × (now < m + file_lock_timeout_ms)
Waits m now (breaking deadline) lock = Unit
Waits m now (holding since) lock = Unit

stale_test-Waits :
    (m now deadline : ℕ)
    → m + file_lock_timeout_ms ≤ deadline
    → Waits m now (stale_test now deadline m) (some m)
unfolding stale_test Waits
stale_test-Waits m now deadline within = elim (Bool-cases (leb (m + file_lock_timeout_ms) now)) [
  | inl e ↦ rw e tt
  | inr e ↦ rw e (refl, within, ground arith)
]

deadline_test-Waits :
    (m now deadline : ℕ)
    → m + file_lock_timeout_ms ≤ deadline
    → now < m + file_lock_timeout_ms
    → Waits m now (deadline_test now deadline) (some m)
unfolding deadline_test Waits
deadline_test-Waits m now deadline within young =
    let e : leb deadline now ≡ false = ground arith in rw e (refl, within)

lock_step-Waits :
    (m now : ℕ) (p : Place) (lock : Option ℕ)
    → Waits m now p lock
    → Waits m now (lock_step now p lock).0 (lock_step now p lock).1
unfolding lock_step stat_answer Waits
lock_step-Waits m now idle none w = tt
lock_step-Waits m now idle (some k) (same, old) = (same, omega arith)
lock_step-Waits m now dead lock w = w
lock_step-Waits m now timed_out lock w = w
lock_step-Waits m now (opening deadline) none w = tt
lock_step-Waits m now (opening deadline) (some k) w = w
lock_step-Waits m now (looking deadline) none w = absurd w
lock_step-Waits m now (looking deadline) (some k) (same, within) = (same, same, within)
lock_step-Waits m now (seen deadline k) none w = absurd w
lock_step-Waits m now (seen deadline k) (some l) (same, found, within) =
    rw (same, found) (stale_test-Waits m now deadline within)
lock_step-Waits m now (waiting deadline) none w = absurd w
lock_step-Waits m now (waiting deadline) (some k) (same, within, young) =
    rw same (deadline_test-Waits m now deadline within young)
lock_step-Waits m now (breaking deadline) lock w = tt
lock_step-Waits m now (holding since) lock w = tt

later-Waits :
    (m now ms : ℕ) (p : Place) (lock : Option ℕ)
    → (BetweenTests p → ⊥)
    → Waits m now p lock
    → Waits m (now + ms) p lock
unfolding BetweenTests Waits
later-Waits m now ms idle none ready w = tt
later-Waits m now ms idle (some k) ready (same, old) = (same, omega arith)
later-Waits m now ms dead lock ready w = w
later-Waits m now ms timed_out lock ready w = w
later-Waits m now ms (opening deadline) none ready w = w
later-Waits m now ms (opening deadline) (some k) ready w = w
later-Waits m now ms (looking deadline) none ready w = w
later-Waits m now ms (looking deadline) (some k) ready w = w
later-Waits m now ms (seen deadline k) none ready w = w
later-Waits m now ms (seen deadline k) (some l) ready w = w
later-Waits m now ms (waiting deadline) lock ready w = absurd (ready tt)
later-Waits m now ms (breaking deadline) lock ready w = tt
later-Waits m now ms (holding since) lock ready w = tt

Alone-Waits :
    (m i : ℕ) (s t : Processes)
    → Waits m s.now (s.place i) s.lock
    → Alone i s t
    → Waits m t.now (t.place i) t.lock
unfolding act
Alone-Waits m i s t w start = w
Alone-Waits m i s t w (acts {t = t'} before) =
    let step = lock_step t'.now (t'.place i) t'.lock in
    rw (moved_self t'.place i step.0)
      (lock_step-Waits m t'.now (t'.place i) t'.lock (Alone-Waits m i s t' w before))
Alone-Waits m i s t w (passes {t = t'} ms ready before) =
    later-Waits m t'.now ms (t'.place i) t'.lock ready (Alone-Waits m i s t' w before)

abbrev Soon : ℕ → Place → Option ℕ → Type 0
Soon now p lock = (n : ℕ) × (n ≤ 6) × (a : ℕ) × ((solo n now (p, lock)).0 ≡ holding a)

Waits-Soon :
    (m now : ℕ) (p : Place) (lock : Option ℕ)
    → Waits m now p lock
    → m + file_lock_timeout_ms ≤ now
    → Soon now p lock
unfolding Waits solo lock_step stat_answer stale_test
Waits-Soon m now idle none w old = (2, omega arith, now, refl)
Waits-Soon m now idle (some k) (same, _) old =
    let e : leb (k + file_lock_timeout_ms) now ≡ true = ground arith in
    (6, omega arith, now, rw e refl)
Waits-Soon m now dead lock w old = absurd w
Waits-Soon m now timed_out lock w old = absurd w
Waits-Soon m now (opening deadline) none w old = (1, omega arith, now, refl)
Waits-Soon m now (opening deadline) (some k) (same, _) old =
    let e : leb (k + file_lock_timeout_ms) now ≡ true = ground arith in
    (5, omega arith, now, rw e refl)
Waits-Soon m now (looking deadline) none w old = absurd w
Waits-Soon m now (looking deadline) (some k) (same, _) old =
    let e : leb (k + file_lock_timeout_ms) now ≡ true = ground arith in
    (4, omega arith, now, rw e refl)
Waits-Soon m now (seen deadline k) none w old = absurd w
Waits-Soon m now (seen deadline k) (some l) (same, _, _) old =
    let e : leb (k + file_lock_timeout_ms) now ≡ true = ground arith in
    (3, omega arith, now, rw e refl)
Waits-Soon m now (waiting deadline) none w old = absurd w
Waits-Soon m now (waiting deadline) (some k) (same, within, young) old =
    absurd (omega (arith, young, old))
Waits-Soon m now (breaking deadline) lock w old = (2, omega arith, now, refl)
Waits-Soon m now (holding since) lock w old = (0, omega arith, since, refl)

-- A process that starts when a lock file is there, which nobody removes and no other process takes,
-- does not time out on it, whatever steps it makes and however long it waits between them, as long as
-- no time passes between the two readings of the clock of one round: once the file is as old as the
-- timeout, six more steps of the process or fewer, no time passing, make it the holder.
pub stale_lock_taken :
    (i m : ℕ) (s t : Processes)
    → s.place i ≡ idle
    → s.lock ≡ some m
    → m ≤ s.now
    → Alone i s t
    → m + file_lock_timeout_ms ≤ t.now
    → (n : ℕ) × (n ≤ 6) × (a : ℕ) × Holds (acts_alone n i t) i a
unfolding Waits
stale_lock_taken i m s t idle_at left created alone old =
    let w : Waits m s.now (s.place i) s.lock = rw (idle_at, left) (refl, created) in
    let (n, few, a, holds) =
      Waits-Soon m t.now (t.place i) t.lock (Alone-Waits m i s t w alone) old in
    (n, few, a, ap (λ at. at.0) (acts_alone-solo n i t) ∙ holds)
