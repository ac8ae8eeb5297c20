-- ===== src/Server/Health/Readiness.antt =====
-- src/harness/server-observability.ts: histories of a monitor.
use loomctl.Base.{
  ℕ, suc, ◌+◌, ◌≤◌, ◌≡◌, refl, subst, ap, sym, ◌∙◌, ◌⊎◌, inl, inr, true, false, String, Option,
  none, some, List, [], ◌∷◌, ◌++◌, ltb, arith, Option-cases, Bool-cases,
}
use loomctl.Server.Health.{
  StateDependencyHealth, RoundEnd, FreshReadings, Monitor, MonitorOptions, initial_monitor,
  ProbeOutcome, answered, timed_out, refused, probe_dependency, snapshot, begin_probe, end_probe,
  needs_probe, ensure_fresh, MonitorEvent, probes, ensures, ends, monitor_step, monitor_run,
}

-- A round of probes that both answered, and that was over at `at`.
abbrev pub BothAnswered : ℕ → MonitorEvent → Type 0
BothAnswered at e =
    (end : RoundEnd) × (e ≡ ends end)
    × (end.first ≡ answered)
    × (end.second ≡ answered)
    × (end.at ≡ at)

-- Both dependencies answered the probes of the round that was over at `at`.
abbrev Answered : ℕ → Monitor → Type 0
Answered at m = (m.first.ok ≡ true) × (m.second.ok ≡ true) × (m.checked_at ≡ some at)

begin_probe-Answered :
    (at : ℕ) (starts : ℕ × ℕ) (m : Monitor) → Answered at (begin_probe starts m) → Answered at m
unfolding begin_probe
begin_probe-Answered at starts m h = elim (Option-cases m.in_flight) [
  | inl idle ↦ (ground arith, ground arith, ground arith)
  | inr (started, busy) ↦ (ground arith, ground arith, ground arith)
]

probe-answered :
    (d : StateDependencyHealth) (o : ProbeOutcome) (started at : ℕ)
    → (probe_dependency d o started at).ok ≡ true
    → o ≡ answered
unfolding probe_dependency
probe-answered d answered started at h = refl
probe-answered d timed_out started at h = cc
probe-answered d refused started at h = cc

end_probe-Answered :
    (at : ℕ) (end : RoundEnd) (m : Monitor)
    → Answered at (end_probe end m)
    → Answered at m ⊎ BothAnswered at (ends end)
unfolding end_probe
end_probe-Answered at end m h = elim (Option-cases m.in_flight) [
  | inl idle ↦ inl (rw idle at h)
  | inr ((first_start, second_start), busy) ↦
      let (f, s, over) = rw busy at h in
      inr (
        end,
        refl,
        probe-answered m.first end.first first_start end.first_at f,
        probe-answered m.second end.second second_start end.second_at s,
        cc,
      )
]

ensures-either :
    (options : MonitorOptions) (now : FreshReadings) (m : Monitor)
    → (monitor_step options m (ensures now) ≡ begin_probe now.starts m)
      ⊎ (monitor_step options m (ensures now) ≡ m)
unfolding monitor_step ensure_fresh
ensures-either options now m = elim (Bool-cases (needs_probe options now m)) [
  | inl due ↦ inl (ground arith)
  | inr fresh ↦ inr (ground arith)
]

step-Answered :
    (options : MonitorOptions) (at : ℕ) (m : Monitor) (e : MonitorEvent)
    → Answered at (monitor_step options m e)
    → Answered at m ⊎ BothAnswered at e
unfolding monitor_step
step-Answered options at m (probes starts) h = inl (begin_probe-Answered at starts m h)
step-Answered options at m (ensures now) h = elim (ensures-either options now m) [
  | inl due ↦ inl (begin_probe-Answered at now.starts m (subst (Answered at) due h))
  | inr fresh ↦ inl (subst (Answered at) fresh h)
]
step-Answered options at m (ends end) h = end_probe-Answered at end m h

-- An event of the list is such a round.
abbrev pub Happened : ℕ → List MonitorEvent → Type 0
Happened at es =
    (earlier later : List MonitorEvent) × (e : MonitorEvent) × (es ≡ earlier ++ (e ∷ later))
    × BothAnswered at e

run-Answered :
    (options : MonitorOptions) (at : ℕ) (m : Monitor) (es : List MonitorEvent)
    → Answered at (monitor_run options m es)
    → Answered at m ⊎ Happened at es
unfolding monitor_run
run-Answered options at m [] h = inl h
run-Answered options at m (e ∷ es) h =
    elim (run-Answered options at (monitor_step options m e) es h) [
      | inr (earlier, later, f, eq, both) ↦ inr (e ∷ earlier, later, f, ap (λ l. e ∷ l) eq, both)
      | inl now ↦ elim (step-Answered options at m e now) [
        | inl before ↦ inl before
        | inr both ↦ inr ([], es, e, refl, both)
      ]
    ]

ready-Answered :
    (options : MonitorOptions) (now : ℕ) (m : Monitor)
    → (snapshot options now m).ok ≡ true
    → (at : ℕ) × Answered at m × (now ≤ at + options.max_staleness_ms)
unfolding snapshot
ready-Answered options now m ready = elim (Option-cases m.checked_at) [
  | inl never ↦ ground arith
  | inr (at, checked) ↦ elim (Bool-cases (ltb (at + options.max_staleness_ms) now)) [
    | inl old ↦ ground arith
    | inr fresh ↦ (at, (ground arith, ground arith, checked), ground arith)
  ]
]

-- Readiness is never claimed without a probe: if a snapshot of a monitor that has run for some time is
-- ok, then there was a round of probes that both stores answered, and the clock that was read after both
-- had ended is no longer ago than `maxStalenessMs`.
pub ready_was_probed :
    (kind : String) (options : MonitorOptions) (es : List MonitorEvent) (now : ℕ)
    → (snapshot options now (monitor_run options (initial_monitor kind) es)).ok ≡ true
    → (at : ℕ) × Happened at es × (now ≤ at + options.max_staleness_ms)
unfolding initial_monitor
ready_was_probed kind options es now ready =
    let (at, h, recent) = ready-Answered options now _ ready in
    elim (run-Answered options at (initial_monitor kind) es h) [
      | inl (f, s, never) ↦ cc
      | inr happened ↦ (at, happened, recent)
    ]

-- The counters of a dependency agree with each other and with whether it is ok.
abbrev pub Counted : StateDependencyHealth → Type 0
Counted d =
    (d.consecutive_failures ≤ d.failure_count)
    × (d.failure_count ≤ d.probe_count)
    × (d.ok ≡ true → (d.consecutive_failures ≡ 0) × (d.failure_kind ≡ none))
    × (d.ok ≡ false → (d.probe_count ≡ 0) ⊎ (1 ≤ d.consecutive_failures))

abbrev pub BothCounted : Monitor → Type 0
BothCounted m = Counted m.first × Counted m.second × (m.first.probe_count ≡ m.second.probe_count)

probe-Counted :
    (d : StateDependencyHealth) (o : ProbeOutcome) (started at : ℕ)
    → Counted d
    → Counted (probe_dependency d o started at)
unfolding probe_dependency
probe-Counted d answered started at (a, b, c, e) =
    (omega arith, omega (arith, b), (λ h. (refl, refl)), λ h. cc)
probe-Counted d timed_out started at (a, b, c, e) =
    (omega (arith, a), omega (arith, b), (λ h. cc), λ h. inr (omega arith))
probe-Counted d refused started at (a, b, c, e) =
    (omega (arith, a), omega (arith, b), (λ h. cc), λ h. inr (omega arith))

probe-count :
    (d : StateDependencyHealth) (o : ProbeOutcome) (started at : ℕ)
    → (probe_dependency d o started at).probe_count ≡ suc d.probe_count
unfolding probe_dependency
probe-count d answered started at = refl
probe-count d timed_out started at = refl
probe-count d refused started at = refl

begin-BothCounted :
    (starts : ℕ × ℕ) (m : Monitor) → BothCounted m → BothCounted (begin_probe starts m)
unfolding begin_probe
begin-BothCounted starts m h = begun m.in_flight
  where
    begun :
        (o : Option (ℕ × ℕ))
        → BothCounted (elim o [ some started ↦ m | none ↦ record m { in_flight = some starts } ])
    begun none = h
    begun (some started) = h

end-BothCounted : (end : RoundEnd) (m : Monitor) → BothCounted m → BothCounted (end_probe end m)
unfolding end_probe
end-BothCounted end m (f, s, same) = elim (Option-cases m.in_flight) [
  | inl idle ↦ rw idle (f, s, same)
  | inr ((first_start, second_start), busy) ↦ rw busy (
    probe-Counted m.first end.first first_start end.first_at f,
    probe-Counted m.second end.second second_start end.second_at s,
    probe-count m.first end.first first_start end.first_at
        ∙ ap suc same
        ∙ sym (probe-count m.second end.second second_start end.second_at),
  )
]

step-BothCounted :
    (options : MonitorOptions) (m : Monitor) (e : MonitorEvent)
    → BothCounted m
    → BothCounted (monitor_step options m e)
unfolding monitor_step
step-BothCounted options m (probes starts) h = begin-BothCounted starts m h
step-BothCounted options m (ensures now) h = elim (ensures-either options now m) [
  | inl due ↦ subst BothCounted (sym due) (begin-BothCounted now.starts m h)
  | inr fresh ↦ subst BothCounted (sym fresh) h
]
step-BothCounted options m (ends end) h = end-BothCounted end m h

run-BothCounted :
    (options : MonitorOptions) (m : Monitor) (es : List MonitorEvent)
    → BothCounted m
    → BothCounted (monitor_run options m es)
unfolding monitor_run
run-BothCounted options m [] h = h
run-BothCounted options m (e ∷ es) h =
    run-BothCounted options (monitor_step options m e) es (step-BothCounted options m e h)

-- Whatever happens to a monitor, for each dependency it has at most as many failures in a row as failures,
-- and as many failures as probes; a dependency that is ok has none in a row, one that is not has one,
-- unless it was never probed; and both have been probed equally often.
pub counters_agree :
    (kind : String) (options : MonitorOptions) (es : List MonitorEvent)
    → BothCounted (monitor_run options (initial_monitor kind) es)
unfolding initial_monitor
counters_agree kind options es = run-BothCounted options (initial_monitor kind) es (
  (omega arith, omega arith, (λ h. cc), λ h. inl refl),
  (omega arith, omega arith, (λ h. cc), λ h. inl refl),
  refl,
)
