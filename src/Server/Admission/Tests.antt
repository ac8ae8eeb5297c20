-- ===== src/Server/Admission/Tests.antt =====
-- Tests of admission.
use loomctl.Base.{ℕ, ◌≤◌, ◌≡◌, ◌≢◌, refl, Bool, true, false, String, none, some, [], ◌∷◌, ok, arith}
use loomctl.Base.Directory.{read, unlink, folder, insert, erase, lookup}
use loomctl.Storage.Names.{is_state_name}
use loomctl.Storage.File.Leases
use loomctl.Storage.File.Capacity
use loomctl.Storage.File.Capacity.{sort}
use loomctl.Storage.File.Capacity.Bound.{held}
use loomctl.Storage.File.Leases.{new_lease}
use loomctl.Server.Admission.{
  RunAdmissionClaim, TenantRunAdmissionClaim, RunStart, ClaimScope, AdmissionOptions, Stores, Clock,
  Handle, admitted, project_active_workspace, try_acquire_active_run_admission,
  try_acquire_run_admission_claim, try_acquire_tenant_run_admission_claim, release_tenant,
  run_admission_backend_key,
}
use loomctl.Server.Admission.Bounds.{admits, admission_run, tenant_limit}
use loomctl.Server.Admission.Exclusion.{admission_excludes}
use loomctl.Server.Admission.Rollback.{tenant_lease, refused_holds_none}

abbrev first_come : String → String → Bool
first_come a b = true

abbrev options : AdmissionOptions
options = record { isolated = false; run_lease_ttl_ms = some 1000 }

abbrev run_of : String → RunStart
run_of run_id = record { tenant = "acme"; project = "site"; run_id = run_id }

abbrev at : ℕ → Clock
at now = record { claimed = now; seen = now; granted = now; later = now }

abbrev empty : Stores
empty = record { leases = []; capacity = [] }

tenant_limit_example :
    held first_come "tenant-runs:acme"
      (admission_run first_come options empty
        (admits (at 5) (run_of "a") (some 2) ∷ admits (at 6) (run_of "b") (some 2) ∷ [])).capacity
    ≤ 2
tenant_limit_example =
    tenant_limit first_come options "acme" 2
      (admits (at 5) (run_of "a") (some 2) ∷ admits (at 6) (run_of "b") (some 2) ∷ [])
      ((λ same. omega arith), ((λ same. omega arith), tt))

abbrev run_claim : RunAdmissionClaim
run_claim = record {
  run = run_of "a";
  scope = ClaimScope.project_scope;
  heartbeat_at = 5;
  lease_expires_at = 1005;
}

abbrev tenant_claim : TenantRunAdmissionClaim
tenant_claim = record { run = run_of "a"; limit = 2; heartbeat_at = 5; lease_expires_at = 1005 }

abbrev handle : Handle
handle = record {
  run_claim = record { claim = run_claim; key = "run-admission:acme:site"; owner = "run:a" };
  tenant_claim =
      some (record { claim = tenant_claim; scope = "tenant-runs:acme"; owner = "run:a" });
}

-- After the admission of the run "a".
abbrev busy : Stores
busy = record {
  leases =
      ("run-admission:acme:site", new_lease "run-admission:acme:site" "run:a" 1000 run_claim 5)
      ∷ [];
  capacity = ("tenant-runs:acme", ("a", new_lease "a" "run:a" 1000 tenant_claim 5) ∷ []) ∷ [];
}

first_admission :
    try_acquire_active_run_admission first_come options (at 5) (run_of "a") (some 2) empty
    ≡ (ok (admitted handle), busy)
unfolding try_acquire_active_run_admission try_acquire_tenant_run_admission_claim Capacity.acquire
    is_state_name sort folder lookup try_acquire_run_admission_claim Leases.acquire
    run_admission_backend_key insert
first_admission = refl

admission_excludes_example :
    (try_acquire_active_run_admission first_come options (at 900) (run_of "b") none busy).0
    ≢ ok (admitted handle)
unfolding Leases.run
admission_excludes_example =
    admission_excludes first_come options (at 5) (at 900) (run_of "a") (run_of "b") (some 2) none
      empty busy [] first_admission tt refl refl refl refl (omega arith) handle

second_refused :
    try_acquire_active_run_admission first_come options (at 6) (run_of "b") (some 2) busy
    ≡ (ok (project_active_workspace "a"), busy)
unfolding try_acquire_active_run_admission try_acquire_tenant_run_admission_claim Capacity.acquire
    is_state_name sort folder lookup try_acquire_run_admission_claim Leases.acquire
    run_admission_backend_key Leases.get release_tenant Capacity.release read insert unlink erase
second_refused = refl

refused_holds_none_example : tenant_lease first_come options (run_of "b") busy ≡ none
unfolding read folder lookup
refused_holds_none_example =
    refused_holds_none first_come options (at 6) (run_of "b") 2 busy "a" refl second_refused
