-- ===== src/Storage/File/Locks/Exclusion.antt =====
-- withFileLock of src/harness/storage/file.ts: at most one holder, while no operation takes too long.
use loomctl.Base.{
  ℕ, ◌+◌, ◌<◌, ◌≡◌, refl, sym, ◌∙◌, ◌⊎◌, inl, inr, false, Option, none, some, leb, arith,
  Bool-cases, Option-cases, subst, ap,
}
use loomctl.Storage.File.Locks.{
  file_lock_timeout_ms, Place, idle, dead, timed_out, opening, looking, breaking, holding, seen,
  waiting, stat_answer, stale_test, deadline_test, lock_step, Processes, moved, stepped, act, Holds,
}

-- A history in which no process dies, and no time passes in which an operation would get as old as the
-- timeout, nor the lock file that a process has found by `stat` and whose time it has not yet tested.
pub data Calm (s : Processes) : Processes → Type 0 where
  start : Calm s s
  acts : {t : Processes} (i : ℕ) → Calm s t → Calm s (act i t)
  passes :
      {t : Processes} (ms : ℕ)
      → ((i since : ℕ) → Holds t i since → t.now + ms < since + file_lock_timeout_ms)
      → ((i d m : ℕ) → t.place i ≡ seen d m → t.now + ms < m + file_lock_timeout_ms)
      → Calm s t
      → Calm s (record t { now = t.now + ms })

record Excludes (s : Processes) : Type 0 where
  locked : (i since : ℕ) → Holds s i since → s.lock ≡ some since
  young : (i since : ℕ) → Holds s i since → s.now < since + file_lock_timeout_ms
  one : (i j a b : ℕ) → Holds s i a → Holds s j b → i ≡ j
  held : (m : ℕ) → s.lock ≡ some m → (i : ℕ) × Holds s i m
  unbroken : (i d : ℕ) → s.place i ≡ breaking d → ⊥
  fresh : (i d m : ℕ) → s.place i ≡ seen d m → s.now < m + file_lock_timeout_ms

-- Where process `j` stands after process `i` has moved to `p`.
pub moved_cases :
    (place : ℕ → Place) (i : ℕ) (p : Place) (j : ℕ)
    → ((j ≡ i) × (moved place i p j ≡ p)) ⊎ ((j ≡ i → ⊥) × (moved place i p j ≡ place j))
moved_cases place i p j = ground arith

pub moved_self : (place : ℕ → Place) (i : ℕ) (p : Place) → moved place i p i ≡ p
moved_self place i p = ground arith

-- A place that matters not for the others, where what `stat` found is no stale file.
unfoldable Plain : ℕ → Place → Type 0
Plain now (holding since) = ⊥
Plain now (breaking d) = ⊥
Plain now (seen d m) = now < m + file_lock_timeout_ms
Plain now _ = Unit

unfoldable NotHeld : Place → Type 0
NotHeld (holding since) = ⊥
NotHeld _ = Unit

module _ (now : ℕ) {p : Place} (plain : Plain now p) where
  Plain-holding : {a : ℕ} → p ≡ holding a → ⊥
  unfolding Plain
  Plain-holding e = subst (Plain now) e plain

  Plain-breaking : {d : ℕ} → p ≡ breaking d → ⊥
  unfolding Plain
  Plain-breaking e = subst (Plain now) e plain

  Plain-seen : {d m : ℕ} → p ≡ seen d m → now < m + file_lock_timeout_ms
  unfolding Plain
  Plain-seen e = subst (Plain now) e plain

NotHeld-holding : {p : Place} {a : ℕ} → NotHeld p → p ≡ holding a → ⊥
unfolding NotHeld
NotHeld-holding was e = subst NotHeld e was

module _ (s : Processes) (e : Excludes s) (i : ℕ) where
  -- Process `i` holds nothing before and after, and the lock file stays.
  aside :
      (p : Place)
      → NotHeld (s.place i)
      → Plain s.now p
      → Excludes (record { now = s.now; lock = s.lock; place = moved s.place i p })
  aside p was plain = record {
    locked = λ j since h. e.locked j since (back j since h);
    young = λ j since h. e.young j since (back j since h);
    one = λ j k a b h h'. e.one j k a b (back j a h) (back k b h');
    held = λ m l. let (j, h) = e.held m l in (j, forth j m h);
    unbroken = λ j d h. elim (moved_cases s.place i p j) [
      | inl (_, at) ↦ Plain-breaking s.now plain (sym at ∙ h)
      | inr (_, at) ↦ e.unbroken j d (sym at ∙ h)
    ];
    fresh = λ j d m h. elim (moved_cases s.place i p j) [
      | inl (_, at) ↦ Plain-seen s.now plain (sym at ∙ h)
      | inr (_, at) ↦ e.fresh j d m (sym at ∙ h)
    ];
  }
    where
      back : (j a : ℕ) → moved s.place i p j ≡ holding a → Holds s j a
      back j a h = elim (moved_cases s.place i p j) [
        | inl (_, at) ↦ absurd (Plain-holding s.now plain (sym at ∙ h))
        | inr (_, at) ↦ sym at ∙ h
      ]

      forth : (j a : ℕ) → Holds s j a → moved s.place i p j ≡ holding a
      forth j a h = elim (moved_cases s.place i p j) [
        | inl (same, at) ↦ absurd (NotHeld-holding was (ap s.place (sym same) ∙ h))
        | inr (_, at) ↦ at ∙ h
      ]

  -- Process `i` takes the lock where nobody has it.
  took :
      s.lock ≡ none
      → Excludes
          (record { now = s.now; lock = some s.now; place = moved s.place i (holding s.now) })
  took free = record {
    locked = λ j since h. ap some (is_now j since h);
    young = λ j since h. rw (sym (is_now j since h)) omega arith;
    one = λ j k a b h h'. is_i j a h ∙ sym (is_i k b h');
    held = λ m l. (i, moved_self s.place i (holding s.now) ∙ ap holding (cc));
    unbroken = λ j d h. elim (moved_cases s.place i (holding s.now) j) [
      | inl (_, at) ↦ cc
      | inr (_, at) ↦ e.unbroken j d (sym at ∙ h)
    ];
    fresh = λ j d m h. elim (moved_cases s.place i (holding s.now) j) [
      | inl (_, at) ↦ absurd (cc (at, h))
      | inr (_, at) ↦ e.fresh j d m (sym at ∙ h)
    ];
  }
    where
      alone : (j a : ℕ) → Holds s j a → ⊥
      alone j a h = let q = e.locked j a h in cc

      is_i : (j a : ℕ) → moved s.place i (holding s.now) j ≡ holding a → j ≡ i
      is_i j a h = elim (moved_cases s.place i (holding s.now) j) [
        | inl (same, _) ↦ same
        | inr (_, at) ↦ absurd (alone j a (sym at ∙ h))
      ]

      is_now : (j a : ℕ) → moved s.place i (holding s.now) j ≡ holding a → s.now ≡ a
      is_now j a h = elim (moved_cases s.place i (holding s.now) j) [
        | inl (_, at) ↦ cc
        | inr (_, at) ↦ absurd (alone j a (sym at ∙ h))
      ]

  -- The holder removes the lock file.
  released :
      (since : ℕ)
      → Holds s i since
      → Excludes (record { now = s.now; lock = none; place = moved s.place i idle })
  released since had = record {
    locked = λ j a h. absurd (nobody j a h);
    young = λ j a h. absurd (nobody j a h);
    one = λ j k a b h h'. absurd (nobody j a h);
    held = λ m l. cc;
    unbroken = λ j d h. elim (moved_cases s.place i idle j) [
      | inl (_, at) ↦ cc
      | inr (_, at) ↦ e.unbroken j d (sym at ∙ h)
    ];
    fresh = λ j d m h. elim (moved_cases s.place i idle j) [
      | inl (_, at) ↦ absurd (cc (at, h))
      | inr (_, at) ↦ e.fresh j d m (sym at ∙ h)
    ];
  }
    where
      nobody : (j a : ℕ) → moved s.place i idle j ≡ holding a → ⊥
      nobody j a h = elim (moved_cases s.place i idle j) [
        | inl (_, at) ↦ cc
        | inr (other, at) ↦ other (e.one j i a since (sym at ∙ h) had)
      ]

stat_answer-Plain :
    (now deadline : ℕ) (lock : Option ℕ)
    → ((m : ℕ) → lock ≡ some m → now < m + file_lock_timeout_ms)
    → Plain now (stat_answer deadline lock)
unfolding stat_answer Plain
stat_answer-Plain now deadline none young = tt
stat_answer-Plain now deadline (some m) young = young m refl

stale_test-Plain :
    (now deadline m : ℕ) → now < m + file_lock_timeout_ms → Plain now (stale_test now deadline m)
unfolding stale_test Plain
stale_test-Plain now deadline m young =
    let e : leb (m + file_lock_timeout_ms) now ≡ false = ground arith in rw e tt

deadline_test-Plain : (now deadline : ℕ) → Plain now (deadline_test now deadline)
unfolding deadline_test Plain
deadline_test-Plain now deadline = elim (Bool-cases (leb deadline now)) [
  | inl late ↦ rw late tt
  | inr early ↦ rw early tt
]

module _ (s : Processes) (e : Excludes s) (i : ℕ) where
  fresh_lock : (m : ℕ) → s.lock ≡ some m → s.now < m + file_lock_timeout_ms
  fresh_lock m l = let (j, h) = e.held m l in e.young j m h

  lock_step-Excludes :
      (p : Place) → s.place i ≡ p → Excludes (stepped i s (lock_step s.now p s.lock))
  unfolding lock_step Plain NotHeld
  lock_step-Excludes idle at = aside s e i (opening (s.now + file_lock_timeout_ms)) (rw at tt) tt
  lock_step-Excludes dead at = aside s e i dead (rw at tt) tt
  lock_step-Excludes timed_out at = aside s e i timed_out (rw at tt) tt
  lock_step-Excludes (opening deadline) at = elim (Option-cases s.lock) [
    | inl free ↦
        subst (λ l. Excludes (stepped i s (lock_step s.now (opening deadline) l))) (sym free)
          (took s e i free)
    | inr (m, l) ↦
        subst (λ l. Excludes (stepped i s (lock_step s.now (opening deadline) l))) (sym l)
          (subst (λ l'. Excludes (stepped i s (looking deadline, l'))) l
            (aside s e i (looking deadline) (rw at tt) tt))
  ]
  lock_step-Excludes (looking deadline) at =
      aside s e i (stat_answer deadline s.lock) (rw at tt)
        (stat_answer-Plain s.now deadline s.lock fresh_lock)
  lock_step-Excludes (seen deadline m) at =
      aside s e i (stale_test s.now deadline m) (rw at tt)
        (stale_test-Plain s.now deadline m (e.fresh i deadline m at))
  lock_step-Excludes (waiting deadline) at =
      aside s e i (deadline_test s.now deadline) (rw at tt) (deadline_test-Plain s.now deadline)
  lock_step-Excludes (breaking deadline) at = absurd (e.unbroken i deadline at)
  lock_step-Excludes (holding since) at = released s e i since at

act-Excludes : (s : Processes) (i : ℕ) → Excludes s → Excludes (act i s)
unfolding act
act-Excludes s i e = lock_step-Excludes s e i (s.place i) refl

-- No lock file, and no process under way.
pub record AtRest (s : Processes) : Type 0 where
  pub unlocked : s.lock ≡ none
  pub all_idle : (i : ℕ) → s.place i ≡ idle

AtRest-Excludes : (s : Processes) → AtRest s → Excludes s
AtRest-Excludes s r = record {
  locked = λ i since h. absurd (cc (r.all_idle i, h));
  young = λ i since h. absurd (cc (r.all_idle i, h));
  one = λ i j a b h h'. absurd (cc (r.all_idle i, h));
  held = λ m l. absurd (cc (r.unlocked, l));
  unbroken = λ i d h. cc (r.all_idle i, h);
  fresh = λ i d m h. absurd (cc (r.all_idle i, h));
}

Calm-Excludes : (s t : Processes) → Excludes s → Calm s t → Excludes t
Calm-Excludes s t e start = e
Calm-Excludes s t e (acts {t = t'} i before) = act-Excludes t' i (Calm-Excludes s t' e before)
Calm-Excludes s t e (passes {t = t'} ms soon seen_soon before) =
    let e' = Calm-Excludes s t' e before in
    record {
      locked = e'.locked;
      young = soon;
      one = e'.one;
      held = e'.held;
      unbroken = e'.unbroken;
      fresh = seen_soon;
    }

-- From a state with no lock file and no process under way, in every order of steps of any number of
-- processes in which no process dies, none holds the lock for as long as the timeout, and none that has
-- asked for the time of a lock file is held up until that time lies the timeout back: no two processes
-- hold the lock at once, and the lock file stands for as long as one holds it.
pub one_holder :
    (s t : Processes)
    → AtRest s
    → Calm s t
    → (i a : ℕ) → Holds t i a
    → (t.lock ≡ some a) × ((j b : ℕ) → Holds t j b → j ≡ i)
one_holder s t rest calm i a h =
    let e = Calm-Excludes s t (AtRest-Excludes s rest) calm in
    (e.locked i a h, λ j b h'. e.one j i b a h' h)
