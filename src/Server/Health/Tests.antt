-- ===== src/Server/Health/Tests.antt =====
-- Tests of the monitor.
use loomctl.Base.{ℕ, ◌+◌, ◌≤◌, ◌≡◌, refl, List, [], ◌∷◌, true}
use loomctl.Server.Health.{
  MonitorOptions, RoundEnd, FreshReadings, initial_monitor, answered, timed_out, probe_dependency,
  snapshot, begin_probe, end_probe, needs_probe, ensure_fresh, MonitorEvent, probes, ensures, ends,
  monitor_step, monitor_run,
}
use loomctl.Server.Health.Readiness.{Happened, BothCounted, ready_was_probed, counters_agree}

abbrev options : MonitorOptions
options = record { probe_interval_ms = 5000; probe_timeout_ms = 2000; max_staleness_ms = 15000 }

-- The clock in a call of `ensureFresh` that reads it four times at once.
abbrev readings : ℕ → FreshReadings
readings now = record { seen_at = now; tested_at = now; starts = (now, now) }

abbrev slow_round : RoundEnd
slow_round = record {
  first = answered;
  second = timed_out;
  first_at = 130;
  second_at = 2101;
  at = 2102;
}

abbrev good_round : RoundEnd
good_round = record {
  first = answered;
  second = answered;
  first_at = 5110;
  second_at = 5140;
  at = 5141;
}

-- A probe with a timeout, and the one after it; a call meanwhile starts none.
abbrev history : List MonitorEvent
history =
    ensures (readings 100)
    ∷ probes (200, 200)
    ∷ ends slow_round
    ∷ probes (5100, 5101)
    ∷ ends good_round
    ∷ []

is_ready :
    (snapshot options 6000 (monitor_run options (initial_monitor "postgres-redis") history)).ok
    ≡ true
unfolding snapshot monitor_run monitor_step initial_monitor ensure_fresh needs_probe begin_probe
    end_probe probe_dependency
is_ready = refl

ready_was_probed_example : (at : ℕ) × Happened at history × (6000 ≤ at + 15000)
ready_was_probed_example = ready_was_probed "postgres-redis" options history 6000 is_ready

counters_agree_example : BothCounted (monitor_run options (initial_monitor "file") history)
counters_agree_example = counters_agree "file" options history
