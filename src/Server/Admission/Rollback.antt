-- ===== src/Server/Admission/Rollback.antt =====
-- src/harness/server/admission.ts: the stores after a refusal.
use loomctl.Base.{ℕ, ◌≡◌, refl, sym, ap, Bool, String, Option, none, some, Result, ok, err, arith}
use loomctl.Base.Directory.{Tree, read}
use loomctl.Storage.Contracts.{LeaseRecord}
use loomctl.Storage.File.Capacity.{CapacityLeaseResult}
use loomctl.Storage.File.Capacity.Claims.{Mine, acquire-Mine, release-gone}
use loomctl.Server.Admission.{
  RunStart, AdmissionOptions, Stores, Clock, TenantHandle, RunClaimResult, TenantClaimResult,
  blocked, full, project_active_workspace, TenantRunAdmissionClaim, tenant_run_admission_claim_for,
  tenant_run_capacity_scope, run_admission_backend_owner, run_lease_ttl_ms, answer_run,
  answer_tenant, refuse, refused, with_run, with_tenant, dropped_tenant,
  try_acquire_run_admission_claim, try_acquire_tenant_run_admission_claim,
  try_acquire_active_run_admission, release_tenant,
}

module _ (before : String → String → Bool) (options : AdmissionOptions) where
  -- The tenant's capacity lease of a run, if it has one.
  abbrev pub tenant_lease : RunStart → Stores → Option (LeaseRecord TenantRunAdmissionClaim)
  tenant_lease run b = read (tenant_run_capacity_scope run.tenant) run.run_id b.capacity

  abbrev Owned : RunStart → Stores → Type 0
  Owned run b = Mine (run_admission_backend_owner run.run_id) (tenant_lease run b)

  -- The handle is that of the run.
  abbrev Of : RunStart → TenantHandle → Type 0
  Of run h =
      (h.scope ≡ tenant_run_capacity_scope run.tenant)
      × (h.claim.run.run_id ≡ run.run_id)
      × (h.owner ≡ run_admission_backend_owner run.run_id)

  tenant-answer :
      (run : RunStart) (h0 : TenantHandle) (limit : ℕ) (b : Stores)
      (r : Result
        (CapacityLeaseResult TenantRunAdmissionClaim × Tree (LeaseRecord TenantRunAdmissionClaim)))
      {h : TenantHandle} {b' : Stores}
      → answer_tenant before options h0 limit b r ≡ (ok (TenantClaimResult.claimed h), b')
      → (x : CapacityLeaseResult TenantRunAdmissionClaim) × (r ≡ ok (x, b'.capacity)) × (h0 ≡ h)
  unfolding answer_tenant
  tenant-answer run h0 limit b (err e) k = cc
  tenant-answer run h0 limit b (ok (x, t)) k = (x, ground (arith, k), ground (arith, k))

  run_keeps :
      (clock : Clock) (run run' : RunStart) (b : Stores)
      → tenant_lease run' (try_acquire_run_admission_claim before options clock run b).1
        ≡ tenant_lease run' b
  unfolding try_acquire_run_admission_claim answer_run
  run_keeps clock run run' b = ground arith

  release-answer :
      (i j : String) (b : Stores) (r : Result (Bool × Tree (LeaseRecord TenantRunAdmissionClaim)))
      {b' : Stores}
      → refused before options i (dropped_tenant before options b r)
        ≡ (ok (project_active_workspace j), b')
      → (x : Bool) × (r ≡ ok (x, b'.capacity))
  unfolding refused dropped_tenant
  release-answer i j b (err e) k = cc
  release-answer i j b (ok (x, t)) k = (x, ap (λ y. ok (x, y.1.capacity)) k)

  refuse-gone :
      (run : RunStart) (i j : String) (h : TenantHandle) (b : Stores) {b' : Stores}
      → Of run h
      → Owned run b
      → refuse before options i (some h) b ≡ (ok (project_active_workspace j), b')
      → tenant_lease run b' ≡ none
  unfolding refuse refused release_tenant dropped_tenant
  refuse-gone run i j h b (s, k, o) mine e =
      let (x, got) = release-answer i j b _ e in
      release-gone before (tenant_run_capacity_scope run.tenant) run.run_id
        (run_admission_backend_owner run.run_id) b.capacity mine (rw (s, k, o) at got)

  with_run-gone :
      (run : RunStart) (j : String) (h : TenantHandle) (r : Result RunClaimResult × Stores)
      {b' : Stores}
      → Of run h
      → Owned run r.1
      → with_run before options (some h) r ≡ (ok (project_active_workspace j), b')
      → tenant_lease run b' ≡ none
  unfolding with_run
  with_run-gone run j h (ok (RunClaimResult.claimed rh), b) its mine e = cc
  with_run-gone run j h (ok (blocked i), b) its mine e = refuse-gone run i j h b its mine e
  with_run-gone run j h (err x, b) its mine e = cc

  with_tenant-gone :
      (clock : Clock) (run : RunStart) (limit : ℕ) (b : Stores) (j : String)
      (r : Result TenantClaimResult × Stores) {b' : Stores}
      → tenant_lease run b ≡ none
      → try_acquire_tenant_run_admission_claim before options clock run limit b ≡ r
      → with_tenant before options clock run r ≡ (ok (project_active_workspace j), b')
      → tenant_lease run b' ≡ none
  unfolding with_tenant try_acquire_tenant_run_admission_claim
  with_tenant-gone clock run limit b j (ok (TenantClaimResult.claimed h), b0) free e k =
      let (x, got, same) = tenant-answer run _ limit b _ e in
      let mine =
        acquire-Mine before (tenant_run_capacity_scope run.tenant) run.run_id
          (run_admission_backend_owner run.run_id) limit (run_lease_ttl_ms options)
          (tenant_run_admission_claim_for options clock.claimed run limit) clock.seen clock.granted
          b.capacity free got in
      with_run-gone run j h (try_acquire_run_admission_claim before options clock run b0)
        (
          ap (λ a. a.scope) (sym same),
          ap (λ a. a.claim.run.run_id) (sym same),
          ap (λ a. a.owner) (sym same),
        )
        (rw (run_keeps clock run run b0) mine) k
  with_tenant-gone clock run limit b j (ok (full ids l), b0) free e k = cc
  with_tenant-gone clock run limit b j (err x, b0) free e k = cc

  -- A run that is refused because its project has an active run gives its tenant's slot back: if it held
  -- no capacity lease before, it holds none after the refusal.
  pub refused_holds_none :
      (clock : Clock) (run : RunStart) (limit : ℕ) (b : Stores) (blocking : String) {b' : Stores}
      → tenant_lease run b ≡ none
      → try_acquire_active_run_admission before options clock run (some limit) b
        ≡ (ok (project_active_workspace blocking), b')
      → tenant_lease run b' ≡ none
  unfolding try_acquire_active_run_admission
  refused_holds_none clock run limit b blocking free e =
      with_tenant-gone clock run limit b blocking _ free refl e
