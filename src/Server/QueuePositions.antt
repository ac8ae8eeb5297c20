-- ===== src/Server/QueuePositions.antt =====
-- src/harness/server/runs.ts: the counts over the active and the queued runs, and the positions of a queued run
-- in the queue. Of a run stand here the fields that these functions read.
mod Tests
use loomctl.Base.{
  ℕ, zero, suc, ◌+◌, ◌≡◌, refl, Bool, true, false, ◌&&◌, String, Option, none, some, List, [], ◌∷◌,
  ◌++◌, map, length, keep, All, ◌==◌, eq_iff, eq_refl, if◌then◌else◌, arith, ap, ◌∙◌, inl, inr,
  Bool-cases,
}

-- An entry of `activeRunSlots`, or a queued run.
pub record RunSlot : Type 0 where
  pub tenant : String
  pub project : String
  pub run_id : String

pub record QueuePositions : Type 0 where
  pub tenant_queue_position : Option ℕ
  pub project_queue_position : Option ℕ

abbrev pub of_tenant : String → RunSlot → Bool
of_tenant tenant run = run.tenant == tenant

abbrev pub of_project : String → String → RunSlot → Bool
of_project tenant project run = (run.tenant == tenant) && (run.project == project)

unfoldable pub active_tenant_run_count : List RunSlot → String → ℕ
active_tenant_run_count slots tenant = length (keep (of_tenant tenant) slots)

unfoldable pub active_tenant_run_ids : List RunSlot → String → List String
active_tenant_run_ids slots tenant = map (λ run. run.run_id) (keep (of_tenant tenant) slots)

unfoldable pub queued_tenant_run_count : List RunSlot → String → ℕ
queued_tenant_run_count queued tenant = length (keep (of_tenant tenant) queued)

unfoldable pub next_queued_run_positions : List RunSlot → String → String → QueuePositions
next_queued_run_positions queued tenant project = record {
  tenant_queue_position = some (length (keep (of_tenant tenant) queued) + 1);
  project_queue_position = some (length (keep (of_project tenant project) queued) + 1);
}

abbrev pub one_more : Bool → ℕ → ℕ
one_more b n = if b then n + 1 else n

-- The loop of `queuedRunPositions`, with the two counters so far; `known` are the positions that the run
-- itself says.
unfoldable pub positions_from : ℕ → ℕ → QueuePositions → RunSlot → List RunSlot → QueuePositions
positions_from in_tenant in_project known run [] = known
positions_from in_tenant in_project known run (queued ∷ rest) =
    let t = one_more (of_tenant run.tenant queued) in_tenant in
    let p = one_more (of_project run.tenant run.project queued) in_project in
    let behind = positions_from t p known run rest in
    if of_project run.tenant run.project queued && (queued.run_id == run.run_id)
    then record { tenant_queue_position = some t; project_queue_position = some p }
    else behind

unfoldable pub queued_run_positions : List RunSlot → RunSlot → QueuePositions → QueuePositions
queued_run_positions queued run known = positions_from 0 0 known run queued

abbrev pub is_same_run : RunSlot → RunSlot → Bool
is_same_run run queued = of_project run.tenant run.project queued && (queued.run_id == run.run_id)

positions_from-append :
    (in_tenant in_project : ℕ) (known : QueuePositions) (run : RunSlot)
    (ahead behind : List RunSlot)
    → All (λ queued. is_same_run run queued ≡ false) ahead
    → positions_from in_tenant in_project known run (ahead ++ run ∷ behind) ≡ record {
      tenant_queue_position = some (in_tenant + length (keep (of_tenant run.tenant) ahead) + 1);
      project_queue_position =
          some (in_project + length (keep (of_project run.tenant run.project) ahead) + 1);
    }
unfolding positions_from
positions_from-append in_tenant in_project known run [] behind others =
    ground (arith, eq_refl run.tenant, eq_refl run.project, eq_refl run.run_id)
positions_from-append in_tenant in_project known run (queued ∷ ahead) behind others =
    let t = one_more (of_tenant run.tenant queued) in_tenant in
    let p = one_more (of_project run.tenant run.project queued) in_project in
    ground (arith, others.0, positions_from-append t p known run ahead behind others.1)

-- A run that is queued behind the runs `ahead` has the positions that nextQueuedRunPositions gave for
-- it, whatever comes behind it, as long as it stands in the queue once.
positions_were_next :
    (ahead behind : List RunSlot) (run : RunSlot) (known : QueuePositions)
    → All (λ queued. is_same_run run queued ≡ false) ahead
    → queued_run_positions (ahead ++ run ∷ behind) run known
      ≡ next_queued_run_positions ahead run.tenant run.project
unfolding queued_run_positions next_queued_run_positions
positions_were_next ahead behind run known others =
    ground (arith, positions_from-append 0 0 known run ahead behind others)
