-- ===== src/Storage/File/Locks/Tests.antt =====
-- Tests of the file lock, and its theorems at concrete processes.
use loomctl.Base.{ℕ, ◌≤◌, ◌≡◌, refl, none, some, arith, eqb, if◌then◌else◌}
use loomctl.Storage.File.Locks.{idle, dead, looking, lock_step, Processes, act, Steps, Holds}
use loomctl.Storage.File.Locks.Exclusion.{start, acts, one_holder}
use loomctl.Storage.File.Locks.Stale
use loomctl.Storage.File.Locks.Race.{stale_break_races}

abbrev at_rest : Processes
at_rest = record { now = 100; lock = none; place = λ _. idle }

-- Process 1 takes the lock, process 2 finds it.
abbrev taken_by_one : Processes
taken_by_one = act 2 (act 2 (act 1 (act 1 at_rest)))

one_holder_example : (taken_by_one.lock ≡ some 100) × ((j b : ℕ) → Holds taken_by_one j b → j ≡ 1)
unfolding act lock_step
one_holder_example =
    one_holder at_rest taken_by_one (record { unlocked = refl; all_idle = λ _. refl })
      (acts 2 (acts 2 (acts 1 (acts 1 start)))) 1 100 refl

second_looks : taken_by_one.place 2 ≡ looking 60100
unfolding act lock_step
second_looks = refl

released_again : (act 1 taken_by_one).lock ≡ none
unfolding act lock_step
released_again = refl

-- A lock file of time 40 that a dead process has left.
abbrev left_behind : Processes
left_behind = record { now = 100; lock = some 40; place = λ j. if eqb j 0 then dead else idle }

abbrev much_later : Processes
much_later = record { now = 60040; lock = some 40; place = (act 1 left_behind).place }

stale_lock_taken_example : (n : ℕ) × (n ≤ 6) × (a : ℕ) × Holds (Stale.acts_alone n 1 much_later) 1 a
unfolding act lock_step Stale.BetweenTests
stale_lock_taken_example =
    Stale.stale_lock_taken 1 40 left_behind much_later refl refl (omega arith)
      (Stale.passes 59940 (λ b. b) (Stale.acts Stale.start)) (omega arith)

abbrev two_look : Processes
two_look = record {
  now = 60050;
  lock = some 40;
  place = λ j. if eqb j 0 then dead else looking 60100;
}

stale_break_races_example : (t : Processes) × Steps two_look t × Holds t 1 60050 × Holds t 2 60050
stale_break_races_example =
    stale_break_races two_look 1 2 60100 60100 40 (omega arith) refl refl refl (omega arith)
