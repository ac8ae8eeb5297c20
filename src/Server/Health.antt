-- ===== src/Server/Health.antt =====
-- src/harness/server-observability.ts: the monitor of the state backend behind the readiness probe.
-- Two probes run at a time, of the metadata store and of the coordination store; while they run, no
-- others start. A probe ends in one of three ways, which stand for what the stores do.
pub mod Readiness
mod Tests
use loomctl.Base.{
  ℕ, suc, ◌+◌, ◌-◌, ◌≡◌, Bool, true, false, not, ◌&&◌, ◌||◌, String, Option, none, some, List, [],
  ◌∷◌, ◌==◌, eqb, ltb, leb, if◌then◌else◌, Result, ok, err, check, invalid, ◌>>=◌, ◌>>◌,
}

pub data DependencyName : Type 0 where
  metadata coordination : DependencyName

pub data DependencyBackend : Type 0 where
  postgresql redis filesystem : DependencyBackend

pub data FailureKind : Type 0 where
  pending timeout unavailable stale : FailureKind

pub record StateDependencyHealth : Type 0 where
  pub name : DependencyName
  pub backend : DependencyBackend
  pub ok : Bool
  pub checked_at : Option ℕ
  pub latency_ms : Option ℕ
  pub probe_count : ℕ
  pub failure_count : ℕ
  pub consecutive_failures : ℕ
  pub failure_kind : Option FailureKind

-- The variables of `createStateBackendHealthMonitor`; `in_flight` holds the starts of the two probes.
pub record Monitor : Type 0 where
  pub first : StateDependencyHealth
  pub second : StateDependencyHealth
  pub checked_at : Option ℕ
  pub in_flight : Option (ℕ × ℕ)

pub record MonitorOptions : Type 0 where
  pub probe_interval_ms : ℕ
  pub probe_timeout_ms : ℕ
  pub max_staleness_ms : ℕ

pub record Snapshot : Type 0 where
  pub ok : Bool
  pub pending : Bool
  pub stale : Bool
  pub checked_at : Option ℕ
  pub first : StateDependencyHealth
  pub second : StateDependencyHealth

abbrev pub positive_duration : ℕ → Result ℕ
positive_duration value = check (leb 1 value && leb value 300000) invalid >> ok value

-- The checks of the three durations.
unfoldable pub monitor_options : ℕ → ℕ → ℕ → Result MonitorOptions
monitor_options interval timeout_ms staleness = do
  a ← positive_duration interval
  b ← positive_duration timeout_ms
  c ← positive_duration staleness
  ok (record { probe_interval_ms = a; probe_timeout_ms = b; max_staleness_ms = c })

abbrev pending_dependency : DependencyName → DependencyBackend → StateDependencyHealth
pending_dependency name backend = record {
  name = name;
  backend = backend;
  ok = false;
  checked_at = none;
  latency_ms = none;
  probe_count = 0;
  failure_count = 0;
  consecutive_failures = 0;
  failure_kind = some pending;
}

-- The monitor before its first probe.
unfoldable pub initial_monitor : String → Monitor
initial_monitor kind = record {
  first = pending_dependency metadata (if kind == "postgres-redis" then postgresql else filesystem);
  second = pending_dependency coordination (if kind == "postgres-redis" then redis else filesystem);
  checked_at = none;
  in_flight = none;
}

-- How a probe ends, and the clock then.
pub data ProbeOutcome : Type 0 where
  answered timed_out refused : ProbeOutcome

-- `probeDependency`, from `started`.
unfoldable pub probe_dependency :
    StateDependencyHealth → ProbeOutcome → ℕ → ℕ → StateDependencyHealth
probe_dependency previous answered started at = record previous {
  ok = true;
  checked_at = some at;
  latency_ms = some (at - started);
  probe_count = suc previous.probe_count;
  consecutive_failures = 0;
  failure_kind = none;
}
probe_dependency previous timed_out started at = record previous {
  ok = false;
  checked_at = some at;
  latency_ms = some (at - started);
  probe_count = suc previous.probe_count;
  failure_count = suc previous.failure_count;
  consecutive_failures = suc previous.consecutive_failures;
  failure_kind = some timeout;
}
probe_dependency previous refused started at = record previous {
  ok = false;
  checked_at = some at;
  latency_ms = some (at - started);
  probe_count = suc previous.probe_count;
  failure_count = suc previous.failure_count;
  consecutive_failures = suc previous.consecutive_failures;
  failure_kind = some unavailable;
}

-- `checkedAtMs !== undefined && now() - checkedAtMs > maxStalenessMs`
abbrev pub is_stale : ℕ → ℕ → Option ℕ → Bool
is_stale max now none = false
is_stale max now (some at) = ltb (at + max) now

abbrev is_pending : Option ℕ → Bool
is_pending none = true
is_pending (some at) = false

abbrev observed : Bool → StateDependencyHealth → StateDependencyHealth
observed false d = d
observed true d = record d { ok = false; failure_kind = some stale }

unfoldable pub snapshot : MonitorOptions → ℕ → Monitor → Snapshot
snapshot options now m =
    let old = is_stale options.max_staleness_ms now m.checked_at in
    let first = observed old m.first in
    let second = observed old m.second in
    record {
      ok = not (is_pending m.checked_at) && not old && first.ok && second.ok;
      pending = is_pending m.checked_at;
      stale = old;
      checked_at = m.checked_at;
      first = first;
      second = second;
    }

-- `probeNow` up to its first `await`: each probe reads its own start; with probes in flight, there is
-- nothing to do.
unfoldable pub begin_probe : ℕ × ℕ → Monitor → Monitor
begin_probe starts m = elim m.in_flight [
  | some started ↦ m
  | none ↦ record m { in_flight = some starts }
]

-- How a round of probes ends: what each came to and when, and the clock after both.
pub record RoundEnd : Type 0 where
  pub first : ProbeOutcome
  pub second : ProbeOutcome
  pub first_at : ℕ
  pub second_at : ℕ
  pub at : ℕ

-- The end of `probeNow`.
unfoldable pub end_probe : RoundEnd → Monitor → Monitor
end_probe end m = elim m.in_flight [
  | none ↦ m
  | some (first_start, second_start) ↦ record {
    first = probe_dependency m.first end.first first_start end.first_at;
    second = probe_dependency m.second end.second second_start end.second_at;
    checked_at = some end.at;
    in_flight = none;
  }
]

-- The readings of the clock in `ensureFresh`: of its snapshot, of its own test, and of the probes.
pub record FreshReadings : Type 0 where
  pub seen_at : ℕ
  pub tested_at : ℕ
  pub starts : ℕ × ℕ

-- Whether `ensureFresh` asks for new probes.
unfoldable pub needs_probe : MonitorOptions → FreshReadings → Monitor → Bool
needs_probe options now m = elim m.checked_at [
  | none ↦ true
  | some at ↦
      ltb (at + options.max_staleness_ms) now.seen_at
      || leb (at + options.probe_interval_ms) now.tested_at
]

-- `ensureFresh`: a snapshot, or probes and none yet.
unfoldable pub ensure_fresh : MonitorOptions → FreshReadings → Monitor → Option Snapshot × Monitor
ensure_fresh options now m =
    if needs_probe options now m
    then (none, begin_probe now.starts m)
    else (some (snapshot options now.seen_at m), m)

-- What happens to a monitor: a call that probes, a call of `ensureFresh`, the end of the probes.
pub data MonitorEvent : Type 0 where
  probes : ℕ × ℕ → MonitorEvent
  ensures : FreshReadings → MonitorEvent
  ends : RoundEnd → MonitorEvent

unfoldable pub monitor_step : MonitorOptions → Monitor → MonitorEvent → Monitor
monitor_step options m (probes starts) = begin_probe starts m
monitor_step options m (ensures now) = (ensure_fresh options now m).1
monitor_step options m (ends end) = end_probe end m

unfoldable pub monitor_run : MonitorOptions → Monitor → List MonitorEvent → Monitor
monitor_run options m [] = m
monitor_run options m (e ∷ es) = monitor_run options (monitor_step options m e) es
