-- ===== src/Server/Admission.antt =====
-- src/harness/server/admission.ts, with the state backend of src/harness/storage/file.ts: who may start
-- a run. A run takes a capacity lease of its tenant, where the tenant has a limit, and the lease of its
-- project or, with isolated workspaces, its own. `before` is the order of `localeCompare`. What a call
-- returns stands beside the stores, which keep what was done before a throw.
pub mod Rollback
pub mod Exclusion
pub mod Bounds
mod Tests
use Prim.Native.String.{◌++◌}
use loomctl.Base.{
  ℕ, ◌+◌, ◌≡◌, Bool, true, false, String, Option, none, some, List, [], ◌∷◌, map, if◌then◌else◌,
  Result, Error, ok, err, lost, length,
}
use loomctl.Base.Directory.{Tree}
use loomctl.Storage.Contracts.{LeaseRecord}
use loomctl.Storage.File.Leases
use loomctl.Storage.File.Capacity
use loomctl.Storage.File.Capacity.{CapacityLeaseResult}

-- `HarnessRunStart`, as far as admission reads it.
pub record RunStart : Type 0 where
  pub tenant : String
  pub project : String
  pub run_id : String

pub data ClaimScope : Type 0 where
  project_scope run_scope : ClaimScope

pub record RunAdmissionClaim : Type 0 where
  pub run : RunStart
  pub scope : ClaimScope
  pub heartbeat_at : ℕ
  pub lease_expires_at : ℕ

pub record TenantRunAdmissionClaim : Type 0 where
  pub run : RunStart
  pub limit : ℕ
  pub heartbeat_at : ℕ
  pub lease_expires_at : ℕ

-- `options`: whether every run has a workspace of its own, and `runLeaseTtlMs`.
pub record AdmissionOptions : Type 0 where
  pub isolated : Bool
  pub run_lease_ttl_ms : Option ℕ

-- The stores that admission uses.
pub record Stores : Type 0 where
  pub leases : List (String × LeaseRecord RunAdmissionClaim)
  pub capacity : Tree (LeaseRecord TenantRunAdmissionClaim)

-- The clock at the claim, at the check of the lease in place, at the grant, and at a later look.
pub record Clock : Type 0 where
  pub claimed : ℕ
  pub seen : ℕ
  pub granted : ℕ
  pub later : ℕ

abbrev pub run_lease_ttl_ms : AdmissionOptions → ℕ
run_lease_ttl_ms options = elim options.run_lease_ttl_ms [ none ↦ 120000 | some ttl ↦ ttl ]

abbrev pub claim_scope : AdmissionOptions → ClaimScope
claim_scope options = if options.isolated then run_scope else project_scope

abbrev pub run_admission_claim_for : AdmissionOptions → ℕ → RunStart → RunAdmissionClaim
run_admission_claim_for options heartbeat run = record {
  run = run;
  scope = claim_scope options;
  heartbeat_at = heartbeat;
  lease_expires_at = heartbeat + run_lease_ttl_ms options;
}

abbrev pub tenant_run_admission_claim_for :
    AdmissionOptions → ℕ → RunStart → ℕ → TenantRunAdmissionClaim
tenant_run_admission_claim_for options heartbeat run limit = record {
  run = run;
  limit = limit;
  heartbeat_at = heartbeat;
  lease_expires_at = heartbeat + run_lease_ttl_ms options;
}

unfoldable pub run_admission_backend_key : RunAdmissionClaim → String
run_admission_backend_key claim = elim claim.scope [
  | run_scope ↦
      "run-admission:" ++ claim.run.tenant ++ ":" ++ claim.run.project ++ ":" ++ claim.run.run_id
  | project_scope ↦ "run-admission:" ++ claim.run.tenant ++ ":" ++ claim.run.project
]

abbrev pub run_admission_backend_owner : String → String
run_admission_backend_owner run_id = "run:" ++ run_id

abbrev pub tenant_run_capacity_scope : String → String
tenant_run_capacity_scope tenant = "tenant-runs:" ++ tenant

-- The handles: what `refresh` and `release` close over.
pub record RunHandle : Type 0 where
  pub claim : RunAdmissionClaim
  pub key : String
  pub owner : String

pub record TenantHandle : Type 0 where
  pub claim : TenantRunAdmissionClaim
  pub scope : String
  pub owner : String

-- `combinedRunAdmissionClaimHandle`
pub record Handle : Type 0 where
  pub run_claim : RunHandle
  pub tenant_claim : Option TenantHandle

pub data RunClaimResult : Type 0 where
  claimed : RunHandle → RunClaimResult
  blocked : String → RunClaimResult

pub data TenantClaimResult : Type 0 where
  claimed : TenantHandle → TenantClaimResult
  full : List String → ℕ → TenantClaimResult

-- `ActiveRunAdmissionResult`, with what `queuedAdmission…` puts into a refusal.
pub data ActiveRunAdmission : Type 0 where
  admitted : Handle → ActiveRunAdmission
  tenant_active_run_limit : List String → ℕ → ActiveRunAdmission
  project_active_workspace : String → ActiveRunAdmission

module _ (before : String → String → Bool) (options : AdmissionOptions) where
  -- `blocking?.value.runId ?? "unknown"`
  blocking_run : Result (Option (LeaseRecord RunAdmissionClaim)) → Result RunClaimResult
  blocking_run (ok (some l)) = ok (blocked l.value.run.run_id)
  blocking_run (ok none) = ok (blocked "unknown")
  blocking_run (err e) = err e

  answer_run :
      Clock
      → RunHandle
      → Stores
      → Result
          (Option (LeaseRecord RunAdmissionClaim) × List (String × LeaseRecord RunAdmissionClaim))
      → Result RunClaimResult × Stores
  answer_run clock handle b (err e) = (err e, b)
  answer_run clock handle b (ok (some lease, leases)) =
      (ok (RunClaimResult.claimed handle), record b { leases = leases })
  answer_run clock handle b (ok (none, leases)) =
      (blocking_run (Leases.get handle.key clock.later leases), record b { leases = leases })

  unfoldable pub try_acquire_run_admission_claim :
      Clock → RunStart → Stores → Result RunClaimResult × Stores
  unfolding answer_run blocking_run
  try_acquire_run_admission_claim clock run b =
      let claim = run_admission_claim_for options clock.claimed run in
      let key = run_admission_backend_key claim in
      let owner = run_admission_backend_owner run.run_id in
      answer_run clock (record { claim = claim; key = key; owner = owner }) b
        (Leases.acquire key owner (run_lease_ttl_ms options) claim clock.seen clock.granted
          b.leases)

  -- `.sort((a, b) => a.localeCompare(b))`
  insert_id : String → List String → List String
  insert_id i [] = i ∷ []
  insert_id i (j ∷ js) = if before j i then j ∷ insert_id i js else i ∷ j ∷ js

  sort_ids : List String → List String
  unfolding insert_id
  sort_ids [] = []
  sort_ids (i ∷ is) = insert_id i (sort_ids is)

  answer_tenant :
      TenantHandle
      → ℕ
      → Stores
      → Result
          (CapacityLeaseResult TenantRunAdmissionClaim × Tree (LeaseRecord TenantRunAdmissionClaim))
      → Result TenantClaimResult × Stores
  unfolding sort_ids
  answer_tenant handle limit b (err e) = (err e, b)
  answer_tenant handle limit b (ok (r, capacity)) = elim r.lease [
    | some lease ↦ (ok (TenantClaimResult.claimed handle), record b { capacity = capacity })
    | none ↦ (
      ok (full (sort_ids (map (λ l. l.value.run.run_id) r.active)) limit),
      record b { capacity = capacity },
    )
  ]

  unfoldable pub try_acquire_tenant_run_admission_claim :
      Clock → RunStart → ℕ → Stores → Result TenantClaimResult × Stores
  unfolding answer_tenant
  try_acquire_tenant_run_admission_claim clock run limit b =
      let claim = tenant_run_admission_claim_for options clock.claimed run limit in
      let scope = tenant_run_capacity_scope run.tenant in
      let owner = run_admission_backend_owner run.run_id in
      answer_tenant (record { claim = claim; scope = scope; owner = owner }) limit b
        (Capacity.acquire before scope run.run_id owner limit (run_lease_ttl_ms options) claim
          clock.seen clock.granted b.capacity)

  -- `throw new Error("run admission lease lost: …")`
  kept_run :
      Stores
      → Result
          (Option (LeaseRecord RunAdmissionClaim) × List (String × LeaseRecord RunAdmissionClaim))
      → Result (Unit {0}) × Stores
  kept_run b (ok (some l, leases)) = (ok tt, record b { leases = leases })
  kept_run b (ok (none, leases)) = (err lost, record b { leases = leases })
  kept_run b (err e) = (err e, b)

  unfoldable pub refresh_run : Clock → RunHandle → Stores → Result (Unit {0}) × Stores
  unfolding kept_run
  refresh_run clock h b =
      kept_run b
        (Leases.refresh h.key h.owner (run_lease_ttl_ms options) clock.seen clock.granted b.leases)

  dropped_run :
      Stores
      → Result (Bool × List (String × LeaseRecord RunAdmissionClaim))
      → Result (Unit {0}) × Stores
  dropped_run b (ok (_, leases)) = (ok tt, record b { leases = leases })
  dropped_run b (err e) = (err e, b)

  unfoldable pub release_run : RunHandle → Stores → Result (Unit {0}) × Stores
  unfolding dropped_run
  release_run h b = dropped_run b (Leases.release h.key h.owner b.leases)

  kept_tenant :
      Stores
      → Result (
          Option (LeaseRecord TenantRunAdmissionClaim) × Tree (LeaseRecord TenantRunAdmissionClaim))
      → Result (Unit {0}) × Stores
  kept_tenant b (ok (some l, capacity)) = (ok tt, record b { capacity = capacity })
  kept_tenant b (ok (none, capacity)) = (err lost, record b { capacity = capacity })
  kept_tenant b (err e) = (err e, b)

  unfoldable pub refresh_tenant : Clock → TenantHandle → Stores → Result (Unit {0}) × Stores
  unfolding kept_tenant
  refresh_tenant clock h b = kept_tenant b (
      Capacity.refresh h.scope h.claim.run.run_id h.owner (run_lease_ttl_ms options) clock.seen
        clock.granted b.capacity)

  dropped_tenant :
      Stores
      → Result (Bool × Tree (LeaseRecord TenantRunAdmissionClaim))
      → Result (Unit {0}) × Stores
  dropped_tenant b (ok (_, capacity)) = (ok tt, record b { capacity = capacity })
  dropped_tenant b (err e) = (err e, b)

  unfoldable pub release_tenant : TenantHandle → Stores → Result (Unit {0}) × Stores
  unfolding dropped_tenant
  release_tenant h b =
      dropped_tenant b (Capacity.release h.scope h.claim.run.run_id h.owner b.capacity)

  -- `tenantClaim?.…` after the run's part, unless that has thrown.
  and_tenant :
      (TenantHandle → Stores → Result (Unit {0}) × Stores)
      → Option TenantHandle
      → Result (Unit {0}) × Stores
      → Result (Unit {0}) × Stores
  and_tenant f none r = r
  and_tenant f (some h) (err e, b) = (err e, b)
  and_tenant f (some h) (ok u, b) = f h b

  unfoldable pub refresh : Clock → Handle → Stores → Result (Unit {0}) × Stores
  unfolding and_tenant
  refresh clock h b =
      and_tenant (refresh_tenant clock) h.tenant_claim (refresh_run clock h.run_claim b)

  unfoldable pub release : Handle → Stores → Result (Unit {0}) × Stores
  unfolding and_tenant
  release h b = and_tenant release_tenant h.tenant_claim (release_run h.run_claim b)

  refused : String → Result (Unit {0}) × Stores → Result ActiveRunAdmission × Stores
  refused blocking (ok u, b) = (ok (project_active_workspace blocking), b)
  refused blocking (err e, b) = (err e, b)

  -- `await tenantClaim?.release()`, and the refusal.
  refuse : String → Option TenantHandle → Stores → Result ActiveRunAdmission × Stores
  unfolding refused
  refuse blocking none b = (ok (project_active_workspace blocking), b)
  refuse blocking (some h) b = refused blocking (release_tenant h b)

  with_run :
      Option TenantHandle → Result RunClaimResult × Stores → Result ActiveRunAdmission × Stores
  unfolding refuse
  with_run tenant (ok (RunClaimResult.claimed h), b) =
      (ok (admitted (record { run_claim = h; tenant_claim = tenant })), b)
  with_run tenant (ok (blocked run_id), b) = refuse run_id tenant b
  with_run tenant (err e, b) = (err e, b)

  with_tenant :
      Clock → RunStart → Result TenantClaimResult × Stores → Result ActiveRunAdmission × Stores
  unfolding with_run
  with_tenant clock run (ok (TenantClaimResult.claimed h), b) =
      with_run (some h) (try_acquire_run_admission_claim clock run b)
  with_tenant clock run (ok (full ids limit), b) = (ok (tenant_active_run_limit ids limit), b)
  with_tenant clock run (err e, b) = (err e, b)

  unfoldable pub try_acquire_active_run_admission :
      Clock → RunStart → Option ℕ → Stores → Result ActiveRunAdmission × Stores
  unfolding with_tenant with_run
  try_acquire_active_run_admission clock run none b =
      with_run none (try_acquire_run_admission_claim clock run b)
  try_acquire_active_run_admission clock run (some limit) b =
      with_tenant clock run (try_acquire_tenant_run_admission_claim clock run limit b)
