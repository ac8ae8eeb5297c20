-- ===== src/Storage/File/Locks/Race.antt =====
-- withFileLock of src/harness/storage/file.ts: two processes at the lock file of a dead one.
use loomctl.Base.{
  ℕ, ◌+◌, ◌≤◌, ◌≡◌, ◌≢◌, refl, sym, ap, ◌∙◌, inl, inr, true, Option, some, none, leb, arith,
}
use loomctl.Storage.File.Locks.{
  file_lock_timeout_ms, Place, opening, looking, breaking, seen, holding, stat_answer, stale_test,
  lock_step, Processes, moved, act, Steps, here, next, acts, Holds,
}
use loomctl.Storage.File.Locks.Exclusion.{moved_self, moved_cases}

-- Where two processes and the lock file are.
record Both (s : Processes) (i j : ℕ) (p q : Place) (lock : Option ℕ) : Type 0 where
  first : s.place i ≡ p
  second : s.place j ≡ q
  file : s.lock ≡ lock

moved_other : (place : ℕ → Place) (i j : ℕ) (p : Place) → i ≢ j → moved place i p j ≡ place j
moved_other place i j p apart = elim (moved_cases place i p j) [
  | inl (same, _) ↦ absurd (apart (sym same))
  | inr (_, at) ↦ at
]

swapped :
    {s : Processes} {i j : ℕ} {p q : Place} {lock : Option ℕ}
    → Both s i j p q lock
    → Both s j i q p lock
swapped b = record { first = b.second; second = b.first; file = b.file }

module _ (s : Processes) (i j : ℕ) (apart : i ≢ j) (p q : Place) (lock : Option ℕ) where
  first_acts :
      Both s i j p q lock
      → Both (act i s) i j (lock_step s.now p lock).0 q (lock_step s.now p lock).1
  unfolding act
  first_acts b =
      let step = lock_step s.now (s.place i) s.lock in
      let same : step ≡ lock_step s.now p lock = rw (b.first, b.file) refl in
      record {
        first = moved_self s.place i step.0 ∙ ap (λ at. at.0) same;
        second = moved_other s.place i j step.0 apart ∙ b.second;
        file = ap (λ at. at.1) same;
      }

module _ (s : Processes) (i j : ℕ) (apart : i ≢ j) (p q : Place) (lock : Option ℕ) where
  second_acts :
      Both s i j p q lock
      → Both (act j s) i j p (lock_step s.now q lock).0 (lock_step s.now q lock).1
  second_acts b = swapped (first_acts s j i (λ e. apart (sym e)) q p lock (swapped b))

-- Two processes that both look at a lock file as old as the timeout can both come to hold the lock at
-- one time, with no further process in the way: the second removes the file that the first has just
-- created in the place of the old one.
pub stale_break_races :
    (s : Processes) (i j d d' m : ℕ)
    → i ≢ j
    → s.place i ≡ looking d
    → s.place j ≡ looking d'
    → s.lock ≡ some m
    → m + file_lock_timeout_ms ≤ s.now
    → (t : Processes) × Steps s t × Holds t i s.now × Holds t j s.now
unfolding act stat_answer stale_test lock_step
stale_break_races s i j d d' m apart at_i at_j left old =
    let e : leb (m + file_lock_timeout_ms) s.now ≡ true = ground arith in
    let b0 : Both s i j (looking d) (looking d') (some m) = record {
      first = at_i;
      second = at_j;
      file = left;
    } in
    let b1 = first_acts s i j apart (looking d) (looking d') (some m) b0 in
    let s1 = act i s in
    let b2 : Both (act i s1) i j (breaking d) (looking d') (some m) =
      rw e at (first_acts s1 i j apart (seen d m) (looking d') (some m) b1) in
    let s2 = act i s1 in
    let b3 = second_acts s2 i j apart (breaking d) (looking d') (some m) b2 in
    let s3 = act j s2 in
    let b4 : Both (act j s3) i j (breaking d) (breaking d') (some m) =
      rw e at (second_acts s3 i j apart (breaking d) (seen d' m) (some m) b3) in
    let s4 = act j s3 in
    let b5 = first_acts s4 i j apart (breaking d) (breaking d') (some m) b4 in
    let s5 = act i s4 in
    let b6 = first_acts s5 i j apart (opening d) (breaking d') none b5 in
    let s6 = act i s5 in
    let b7 = second_acts s6 i j apart (holding s.now) (breaking d') (some s.now) b6 in
    let s7 = act j s6 in
    let b8 = second_acts s7 i j apart (holding s.now) (opening d') none b7 in
    let both_broke = next (next (next (next here (acts i)) (acts i)) (acts j)) (acts j) in
    (
      act j s7,
      next (next (next (next both_broke (acts i)) (acts i)) (acts j)) (acts j),
      b8.first,
      b8.second,
    )
