-- ===== src/Storage/File/Locks.antt =====
-- withFileLock of src/harness/storage/file.ts: several processes that take one lock file, step by step.
-- A step is one call on the file system, or one reading of the clock with its test. The lock file is known by
-- the time of its last change, which is that of its creation, rounded up to whole milliseconds; the pid in it
-- is never read.
pub mod Exclusion
pub mod Race
pub mod Stale
mod Tests
use loomctl.Base.{ℕ, ◌+◌, Bool, true, false, Option, none, some, leb, eqb, if◌then◌else◌, ◌≡◌}

abbrev pub file_lock_timeout_ms : ℕ
file_lock_timeout_ms = 60000

-- Where a process stands: before `open`, `stat`, the test of the time that `stat` gave, the test of the
-- deadline, and `unlink`. `holding` has the time at which it took the lock.
pub data Place : Type 0 where
  idle dead timed_out : Place
  opening looking waiting breaking : (deadline : ℕ) → Place
  seen : (deadline : ℕ) → (mtime : ℕ) → Place
  holding : (since : ℕ) → Place

-- What `stat` answers: without a file there is no time to test.
unfoldable pub stat_answer : ℕ → Option ℕ → Place
stat_answer deadline none = waiting deadline
stat_answer deadline (some mtime) = seen deadline mtime

-- `lockStat.mtimeMs + FILE_LOCK_TIMEOUT_MS <= Date.now()`
unfoldable pub stale_test : ℕ → ℕ → ℕ → Place
stale_test now deadline mtime =
    if leb (mtime + file_lock_timeout_ms) now then breaking deadline else waiting deadline

-- `Date.now() >= deadline`
unfoldable pub deadline_test : ℕ → ℕ → Place
deadline_test now deadline = if leb deadline now then timed_out else opening deadline

-- The next step of a process, and the lock file after it.
unfoldable pub lock_step : ℕ → Place → Option ℕ → Place × Option ℕ
lock_step now idle lock = (opening (now + file_lock_timeout_ms), lock)
lock_step now dead lock = (dead, lock)
lock_step now timed_out lock = (timed_out, lock)
lock_step now (opening deadline) none = (holding now, some now)
lock_step now (opening deadline) (some mtime) = (looking deadline, some mtime)
lock_step now (looking deadline) lock = (stat_answer deadline lock, lock)
lock_step now (seen deadline mtime) lock = (stale_test now deadline mtime, lock)
lock_step now (waiting deadline) lock = (deadline_test now deadline, lock)
lock_step now (breaking deadline) lock = (opening deadline, none)
lock_step now (holding since) lock = (idle, none)

pub record Processes : Type 0 where
  pub now : ℕ
  pub lock : Option ℕ
  pub place : ℕ → Place

abbrev pub moved : (ℕ → Place) → ℕ → Place → ℕ → Place
moved place i p j = if eqb j i then p else place j

-- Process `i` in its new place, with the lock file after the step.
abbrev pub stepped : ℕ → Processes → Place × Option ℕ → Processes
stepped i s next = record { now = s.now; lock = next.1; place = moved s.place i next.0 }

-- A step of process `i`.
unfoldable pub act : ℕ → Processes → Processes
act i s = stepped i s (lock_step s.now (s.place i) s.lock)

-- Processes act in any order, time passes, and a process may die where it stands.
pub data Step (s : Processes) : Processes → Type 0 where
  acts : (i : ℕ) → Step s (act i s)
  passes : (ms : ℕ) → Step s (record s { now = s.now + ms })
  dies : (i : ℕ) → Step s (record s { place = moved s.place i dead })

pub data Steps (s : Processes) : Processes → Type 0 where
  here : Steps s s
  next : {t u : Processes} → Steps s t → Step t u → Steps s u

abbrev pub Holds : Processes → ℕ → ℕ → Type 0
Holds s i since = s.place i ≡ holding since
