-- ===== src/Server/Admission/Bounds.antt =====
-- src/harness/server/admission.ts: histories of admissions, and the limits of the tenants.
use loomctl.Base.{
  ℕ, ◌≤◌, ◌≡◌, Bool, String, Option, none, some, List, [], ◌∷◌, Result, ok, err, length, All, arith,
  subst, sym,
}
use loomctl.Base.Directory.{folder, lookup}
use loomctl.Storage.File.Capacity
use loomctl.Storage.File.Capacity.{Call, acquires, refreshes, releases}
use loomctl.Storage.File.Capacity.Bound.{held, step_bound}
use loomctl.Server.Admission.{
  RunStart, AdmissionOptions, Stores, Clock, Handle, TenantHandle, RunHandle, TenantClaimResult,
  RunClaimResult, full, blocked, tenant_run_admission_claim_for, tenant_run_capacity_scope,
  run_admission_backend_owner, run_lease_ttl_ms, answer_run, answer_tenant, kept_run, dropped_run,
  kept_tenant, dropped_tenant, and_tenant, refuse, refused, with_run, with_tenant,
  try_acquire_run_admission_claim, try_acquire_tenant_run_admission_claim, refresh_run, release_run,
  refresh_tenant, release_tenant, refresh, release, try_acquire_active_run_admission,
}

-- What servers call of admission, in the order in which the locks let them through.
pub data AdmissionCall : Type 0 where
  admits : Clock → RunStart → Option ℕ → AdmissionCall
  refreshes_run : Clock → Handle → AdmissionCall
  releases_run : Handle → AdmissionCall

module _ (before : String → String → Bool) (options : AdmissionOptions) where
  unfoldable pub admission_step : Stores → AdmissionCall → Stores
  admission_step b (admits clock run limit) =
      (try_acquire_active_run_admission before options clock run limit b).1
  admission_step b (refreshes_run clock h) = (refresh before options clock h b).1
  admission_step b (releases_run h) = (release before options h b).1

  unfoldable pub admission_run : Stores → List AdmissionCall → Stores
  admission_run b [] = b
  admission_run b (c ∷ cs) = admission_run (admission_step b c) cs

  -- A call that, where it admits a run of the tenant under a limit, does so under at most `m`.
  abbrev pub Limited : String → ℕ → AdmissionCall → Type 0
  Limited tenant m (admits clock run (some limit)) =
      tenant_run_capacity_scope run.tenant ≡ tenant_run_capacity_scope tenant → limit ≤ m
  Limited tenant m _ = Unit

  module _ (scope : String) (m : ℕ) where
    abbrev Fits : Stores → Type 0
    Fits b = held before scope b.capacity ≤ m

    tenant_acquired :
        (clock : Clock) (run : RunStart) (limit : ℕ) (b : Stores)
        → (tenant_run_capacity_scope run.tenant ≡ scope → limit ≤ m)
        → Fits b
        → Fits (try_acquire_tenant_run_admission_claim before options clock run limit b).1
    unfolding try_acquire_tenant_run_admission_claim answer_tenant Capacity.step
    tenant_acquired clock run limit b lim h =
        let claim = tenant_run_admission_claim_for options clock.claimed run limit in
        let owner = run_admission_backend_owner run.run_id in
        ground (
          arith,
          step_bound before scope m b.capacity
              (acquires (tenant_run_capacity_scope run.tenant) run.run_id owner limit
                (run_lease_ttl_ms options) claim clock.seen clock.granted)
              lim h,
        )

    tenant_released :
        (th : TenantHandle) (b : Stores) → Fits b → Fits (release_tenant before options th b).1
    unfolding release_tenant dropped_tenant Capacity.step
    tenant_released th b h = ground (
      arith,
      step_bound before scope m b.capacity (releases th.scope th.claim.run.run_id th.owner) tt h,
    )

    tenant_refreshed :
        (clock : Clock) (th : TenantHandle) (b : Stores)
        → Fits b
        → Fits (refresh_tenant before options clock th b).1
    unfolding refresh_tenant kept_tenant Capacity.step
    tenant_refreshed clock th b h = ground (
      arith,
      step_bound before scope m b.capacity
          (refreshes th.scope th.claim.run.run_id th.owner (run_lease_ttl_ms options) clock.seen
            clock.granted)
          tt h,
    )

    run_acquired :
        (clock : Clock) (run : RunStart) (b : Stores)
        → (try_acquire_run_admission_claim before options clock run b).1.capacity ≡ b.capacity
    unfolding try_acquire_run_admission_claim answer_run
    run_acquired clock run b = ground arith

    run_released :
        (h : RunHandle) (b : Stores) → (release_run before options h b).1.capacity ≡ b.capacity
    unfolding release_run dropped_run
    run_released h b = ground arith

    run_refreshed :
        (clock : Clock) (h : RunHandle) (b : Stores)
        → (refresh_run before options clock h b).1.capacity ≡ b.capacity
    unfolding refresh_run kept_run
    run_refreshed clock h b = ground arith

    then_tenant :
        (f : TenantHandle → Stores → Result (Unit {0}) × Stores)
        → ((th : TenantHandle) (b : Stores) → Fits b → Fits (f th b).1)
        → (th : Option TenantHandle) (r : Result (Unit {0}) × Stores) → Fits r.1
        → Fits (and_tenant before options f th r).1
    unfolding and_tenant
    then_tenant f keeps none r h = h
    then_tenant f keeps (some th) (ok u, b) h = keeps th b h
    then_tenant f keeps (some th) (err e, b) h = h

    refuse-Fits :
        (i : String) (th : Option TenantHandle) (b : Stores)
        → Fits b
        → Fits (refuse before options i th b).1
    unfolding refuse refused
    refuse-Fits i none b h = h
    refuse-Fits i (some th) b h = ground (arith, tenant_released th b h)

    with_run-Fits :
        (th : Option TenantHandle) (r : Result RunClaimResult × Stores)
        → Fits r.1
        → Fits (with_run before options th r).1
    unfolding with_run
    with_run-Fits th (ok (RunClaimResult.claimed rh), b) h = h
    with_run-Fits th (ok (blocked i), b) h = refuse-Fits i th b h
    with_run-Fits th (err e, b) h = h

    with_tenant-Fits :
        (clock : Clock) (run : RunStart) (r : Result TenantClaimResult × Stores)
        → Fits r.1
        → Fits (with_tenant before options clock run r).1
    unfolding with_tenant
    with_tenant-Fits clock run (ok (TenantClaimResult.claimed th), b) h =
        with_run-Fits (some th) (try_acquire_run_admission_claim before options clock run b)
          (subst (λ c. length (folder scope c) ≤ m) (sym (run_acquired clock run b)) h)
    with_tenant-Fits clock run (ok (full ids limit), b) h = h
    with_tenant-Fits clock run (err e, b) h = h

  admission_step-Fits :
      (tenant : String) (m : ℕ) (b : Stores) (c : AdmissionCall)
      → Limited tenant m c
      → Fits (tenant_run_capacity_scope tenant) m b
      → Fits (tenant_run_capacity_scope tenant) m (admission_step b c)
  unfolding admission_step try_acquire_active_run_admission refresh release
  admission_step-Fits tenant m b (admits clock run none) lim h =
      let scope = tenant_run_capacity_scope tenant in
      with_run-Fits scope m none (try_acquire_run_admission_claim before options clock run b)
        (subst (λ c. length (folder scope c) ≤ m) (sym (run_acquired scope m clock run b)) h)
  admission_step-Fits tenant m b (admits clock run (some limit)) lim h =
      let scope = tenant_run_capacity_scope tenant in
      with_tenant-Fits scope m clock run _ (tenant_acquired scope m clock run limit b lim h)
  admission_step-Fits tenant m b (refreshes_run clock th) lim h =
      let scope = tenant_run_capacity_scope tenant in
      then_tenant scope m (refresh_tenant before options clock) (tenant_refreshed scope m clock)
        th.tenant_claim _
        (subst (λ c. length (folder scope c) ≤ m) (sym (run_refreshed scope m clock th.run_claim b))
          h)
  admission_step-Fits tenant m b (releases_run th) lim h =
      let scope = tenant_run_capacity_scope tenant in
      then_tenant scope m (release_tenant before options) (tenant_released scope m) th.tenant_claim
        _ (subst (λ c. length (folder scope c) ≤ m) (sym (run_released scope m th.run_claim b)) h)

  admission_run-Fits :
      (tenant : String) (m : ℕ) (b : Stores) (cs : List AdmissionCall)
      → All (Limited tenant m) cs
      → Fits (tenant_run_capacity_scope tenant) m b
      → Fits (tenant_run_capacity_scope tenant) m (admission_run b cs)
  unfolding admission_run
  admission_run-Fits tenant m b [] lim h = h
  admission_run-Fits tenant m b (c ∷ cs) lim h =
      admission_run-Fits tenant m (admission_step b c) cs lim.1
        (admission_step-Fits tenant m b c lim.0 h)

  -- From empty stores, no history of admissions, refreshes and releases leaves a tenant with more
  -- active-run leases than the largest limit that an admission of a run of the tenant names.
  pub tenant_limit :
      (tenant : String) (m : ℕ) (cs : List AdmissionCall)
      → All (Limited tenant m) cs
      → held before
          (tenant_run_capacity_scope tenant)
          (admission_run (record { leases = []; capacity = [] }) cs).capacity
        ≤ m
  unfolding folder lookup
  tenant_limit tenant m cs lim = admission_run-Fits tenant m _ cs lim (omega arith)
