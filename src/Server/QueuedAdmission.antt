-- ===== src/Server/QueuedAdmission.antt =====
-- src/harness/server/admission.ts and src/harness/server/runs.ts: what a queued run says about why it waits.
use loomctl.Base.{ℕ, Bool, true, false, String, Option, none, some, List, [], ◌∷◌, length}
use loomctl.Server.Admission.{ActiveRunAdmission, admitted}

pub data QueuedRunBlockedReason : Type 0 where
  tenant_active_run_limit project_active_workspace persisted_running_run ready :
      QueuedRunBlockedReason

-- `is_blocked` is whether the field `state` says "blocked".
pub record QueuedRunConcurrencySummary : Type 0 where
  pub is_blocked : Bool
  pub blocked_reason : QueuedRunBlockedReason
  pub blocked_by_run_ids : Option (List String)
  pub active_tenant_run_count : Option ℕ
  pub tenant_active_run_limit : Option ℕ
  pub project_active_run_id : Option String
  pub persisted_run_id : Option String

pub record QueuedRunAdmission : Type 0 where
  pub blocked_reason : QueuedRunBlockedReason
  pub concurrency : QueuedRunConcurrencySummary
  pub blocked_by_run_ids : Option (List String)
  pub limit : Option ℕ

-- Ids are left out where there are none.
abbrev pub some_ids : List String → Option (List String)
some_ids [] = none
some_ids (i ∷ is) = some (i ∷ is)

abbrev pub is_blocking : QueuedRunBlockedReason → Bool
is_blocking ready = false
is_blocking _ = true

-- `queuedRunConcurrencySummary` with no evidence.
abbrev pub queued_run_concurrency_summary :
    QueuedRunBlockedReason → List String → QueuedRunConcurrencySummary
queued_run_concurrency_summary reason ids = record {
  is_blocked = is_blocking reason;
  blocked_reason = reason;
  blocked_by_run_ids = some_ids ids;
  active_tenant_run_count = none;
  tenant_active_run_limit = none;
  project_active_run_id = none;
  persisted_run_id = none;
}

unfoldable pub queued_admission_tenant_active_run_limit : List String → ℕ → QueuedRunAdmission
queued_admission_tenant_active_run_limit ids limit = record {
  blocked_reason = tenant_active_run_limit;
  concurrency = record (queued_run_concurrency_summary tenant_active_run_limit ids) {
    active_tenant_run_count = some (length ids);
    tenant_active_run_limit = some limit;
  };
  blocked_by_run_ids = some ids;
  limit = some limit;
}

unfoldable pub queued_admission_project_active_workspace : String → QueuedRunAdmission
queued_admission_project_active_workspace run_id = record {
  blocked_reason = project_active_workspace;
  concurrency = record (queued_run_concurrency_summary project_active_workspace (run_id ∷ [])) {
    project_active_run_id = some run_id;
  };
  blocked_by_run_ids = some (run_id ∷ []);
  limit = none;
}

unfoldable pub queued_admission_persisted_running_run : String → QueuedRunAdmission
queued_admission_persisted_running_run run_id = record {
  blocked_reason = persisted_running_run;
  concurrency = record (queued_run_concurrency_summary persisted_running_run (run_id ∷ [])) {
    persisted_run_id = some run_id;
  };
  blocked_by_run_ids = some (run_id ∷ []);
  limit = none;
}

unfoldable pub queued_admission_ready : QueuedRunAdmission
queued_admission_ready = record {
  blocked_reason = ready;
  concurrency = queued_run_concurrency_summary ready [];
  blocked_by_run_ids = none;
  limit = none;
}

-- The field `admission` of a refusal.
unfoldable pub admission_of : ActiveRunAdmission → Option QueuedRunAdmission
admission_of (admitted handle) = none
admission_of (ActiveRunAdmission.tenant_active_run_limit ids limit) =
    some (queued_admission_tenant_active_run_limit ids limit)
admission_of (ActiveRunAdmission.project_active_workspace run_id) =
    some (queued_admission_project_active_workspace run_id)
