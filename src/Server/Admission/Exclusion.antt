-- ===== src/Server/Admission/Exclusion.antt =====
-- src/harness/server/admission.ts: two runs of one project, one after the other.
use loomctl.Base.{
  sym, ℕ, ◌+◌, ◌<◌, ◌≡◌, ◌≢◌, refl, Bool, false, String, Option, none, some, List, Result, ok, err,
  All, arith, >>-eq-ok, ap, subst, ◌>>◌,
}
use loomctl.Storage.Names.{assert_state_name, positive_ttl_ms}
use loomctl.Storage.Contracts.{LeaseRecord}
use loomctl.Storage.File.Leases
use loomctl.Storage.File.Leases.{Call}
use loomctl.Storage.File.Leases.Exclusion.{Foreign, acquire-inv, acquire_excludes}
use loomctl.Server.Admission.{
  RunStart, AdmissionOptions, Stores, Clock, Handle, RunHandle, RunClaimResult, blocked, admitted,
  RunAdmissionClaim, run_admission_claim_for, run_admission_backend_key,
  run_admission_backend_owner, run_lease_ttl_ms, answer_run, answer_tenant, blocking_run, refuse,
  refused, with_run, with_tenant, TenantHandle, TenantClaimResult, full,
  try_acquire_run_admission_claim, try_acquire_tenant_run_admission_claim,
  try_acquire_active_run_admission,
}

module _ (before : String → String → Bool) (options : AdmissionOptions) where
  -- The key of the lease of a run, and what is taken.
  abbrev pub run_key : Clock → RunStart → String
  run_key clock run = run_admission_backend_key (run_admission_claim_for options clock.claimed run)

  abbrev Taken : Clock → RunStart → Stores → Stores → Type 0
  Taken clock run b b' =
      (l : LeaseRecord RunAdmissionClaim) × (Leases.acquire (run_key clock run)
          (run_admission_backend_owner run.run_id) (run_lease_ttl_ms options)
          (run_admission_claim_for options clock.claimed run) clock.seen clock.granted b.leases
        ≡ ok (some l, b'.leases))

  blocking_run-blocked :
      (r : Result (Option (LeaseRecord RunAdmissionClaim))) (h : RunHandle)
      → blocking_run before options r ≢ ok (RunClaimResult.claimed h)
  unfolding blocking_run
  blocking_run-blocked (ok (some l)) h e = cc
  blocking_run-blocked (ok none) h e = cc
  blocking_run-blocked (err x) h e = cc

  answered :
      (clock : Clock) (h0 : RunHandle) (b : Stores)
      (r : Result
        (Option (LeaseRecord RunAdmissionClaim) × List (String × LeaseRecord RunAdmissionClaim)))
      {h : RunHandle} {b' : Stores}
      → answer_run before options clock h0 b r ≡ (ok (RunClaimResult.claimed h), b')
      → (l : LeaseRecord RunAdmissionClaim) × (r ≡ ok (some l, b'.leases))
  unfolding answer_run
  answered clock h0 b (err e) k = cc
  answered clock h0 b (ok (some l, leases)) k = (l, ap (λ x. ok (some l, x.1.leases)) k)
  answered clock h0 b (ok (none, leases)) {h} k =
      elim (blocking_run-blocked (Leases.get h0.key clock.later leases) h (ap (λ x. x.0) k)) [ ]

  claimed-Taken :
      (clock : Clock) (run : RunStart) (b : Stores) {h : RunHandle} {b' : Stores}
      → try_acquire_run_admission_claim before options clock run b
        ≡ (ok (RunClaimResult.claimed h), b')
      → Taken clock run b b'
  unfolding try_acquire_run_admission_claim
  claimed-Taken clock run b e = answered clock _ b _ e

  -- An admission has taken the run's lease, from the leases there were.
  refuse-refused :
      (i : String) (th : Option TenantHandle) (b : Stores) (h : Handle)
      → (refuse before options i th b).0 ≢ ok (admitted h)
  unfolding refuse refused
  refuse-refused i none b h e = cc
  refuse-refused i (some th) b h e = ground arith

  with_run-Taken :
      (clock : Clock) (run : RunStart) (b : Stores) (th : Option TenantHandle)
      (r : Result RunClaimResult × Stores) {h : Handle} {b' : Stores}
      → try_acquire_run_admission_claim before options clock run b ≡ r
      → with_run before options th r ≡ (ok (admitted h), b')
      → Taken clock run b b'
  unfolding with_run
  with_run-Taken clock run b th (ok (RunClaimResult.claimed rh), b0) e k =
      subst (Taken clock run b) (ap (λ x. x.1) k) (claimed-Taken clock run b e)
  with_run-Taken clock run b th (ok (blocked i), b0) {h} e k =
      elim (refuse-refused i th b0 h (ap (λ x. x.0) k)) [ ]
  with_run-Taken clock run b th (err x, b0) e k = cc

  tenant_leases :
      (clock : Clock) (run : RunStart) (limit : ℕ) (b : Stores)
      → (try_acquire_tenant_run_admission_claim before options clock run limit b).1.leases
        ≡ b.leases
  unfolding try_acquire_tenant_run_admission_claim answer_tenant
  tenant_leases clock run limit b = ground arith

  admitted-Taken :
      (clock : Clock) (run : RunStart) (limit : Option ℕ) (b : Stores) {h : Handle} {b' : Stores}
      → try_acquire_active_run_admission before options clock run limit b ≡ (ok (admitted h), b')
      → Taken clock run b b'
  unfolding try_acquire_active_run_admission with_tenant
  admitted-Taken clock run none b e = with_run-Taken clock run b none _ refl e
  admitted-Taken clock run (some limit) b e = with_tenant-Taken _ refl e
    where
      with_tenant-Taken :
          (r : Result TenantClaimResult × Stores) {h : Handle} {b' : Stores}
          → try_acquire_tenant_run_admission_claim before options clock run limit b ≡ r
          → with_tenant before options clock run r ≡ (ok (admitted h), b')
          → Taken clock run b b'
      with_tenant-Taken (ok (TenantClaimResult.claimed th), b0) e k =
          rw (sym (tenant_leases clock run limit b), e)
            (with_run-Taken clock run b0 (some th) _ refl k)
      with_tenant-Taken (ok (full ids l), b0) e k = cc
      with_tenant-Taken (err x, b0) e k = cc

  clash :
      {r : Result
        (Option (LeaseRecord RunAdmissionClaim) × List (String × LeaseRecord RunAdmissionClaim))}
      {x y : List (String × LeaseRecord RunAdmissionClaim)} {l : LeaseRecord RunAdmissionClaim}
      → r ≡ ok (none, x)
      → r ≢ ok (some l, y)
  clash e e' = cc

  shared_key :
      (clock clock' : Clock) (run run' : RunStart)
      → options.isolated ≡ false
      → run'.tenant ≡ run.tenant
      → run'.project ≡ run.project
      → run_key clock' run' ≡ run_key clock run
  unfolding run_admission_backend_key
  shared_key clock clock' run run' shared tenant project = rw (shared, tenant, project) refl

  -- Mutual exclusion: once a run is admitted, no run of the same tenant and project is admitted
  -- until its lease runs out, if workspaces are shared and the run has not refreshed or released its
  -- lease: whatever other owners do to the leases before that time, and whatever the tenants' limits
  -- are.
  pub admission_excludes :
      (clock clock' : Clock) (run run' : RunStart) (limit limit' : Option ℕ) (b b'' : Stores)
      (cs : List (Call RunAdmissionClaim)) {h : Handle} {b' : Stores}
      → try_acquire_active_run_admission before options clock run limit b ≡ (ok (admitted h), b')
      → All
          (Foreign
            (run_key clock run)
            (run_admission_backend_owner run.run_id)
            (clock.granted + run_lease_ttl_ms options))
          cs
      → b''.leases ≡ Leases.run b'.leases cs
      → options.isolated ≡ false
      → run'.tenant ≡ run.tenant
      → run'.project ≡ run.project
      → clock'.seen < clock.granted + run_lease_ttl_ms options
      → (h' : Handle)
      → (try_acquire_active_run_admission before options clock' run' limit' b'').0
        ≢ ok (admitted h')
  admission_excludes clock clock' run run' limit limit' b b'' cs taken foreign same shared tenant
        project before_end h' again =
      let key = shared_key clock clock' run run' shared tenant project in
      let owner = run_admission_backend_owner run'.run_id in
      let claim = run_admission_claim_for options clock'.claimed run' in
      let (l, got) = admitted-Taken clock run limit b taken in
      let (l', got') = admitted-Taken clock' run' limit' b'' (
        ap (λ x. (x, (try_acquire_active_run_admission before options clock' run' limit' b'').1))
          again) in
      let (_, _, _, valid) =
        acquire-inv (run_key clock' run') owner (run_lease_ttl_ms options) claim clock'.seen
          clock'.granted b''.leases got' in
      let (_, valid') =
        >>-eq-ok (assert_state_name (run_key clock' run'))
          (positive_ttl_ms (run_lease_ttl_ms options) >> assert_state_name owner) valid in
      let (lasting, named) =
        >>-eq-ok (positive_ttl_ms (run_lease_ttl_ms options)) (assert_state_name owner) valid' in
      let none_left =
        acquire_excludes (run_key clock run) (run_admission_backend_owner run.run_id) owner
          (run_lease_ttl_ms options) (run_lease_ttl_ms options)
          (run_admission_claim_for options clock.claimed run) claim clock.seen clock.granted
          clock'.seen clock'.granted b.leases cs got foreign before_end named lasting in
      clash none_left (rw (key, same) at got')
