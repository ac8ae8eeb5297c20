-- ===== src/Server/QueuePositions/Tests.antt =====
-- Tests of the positions in the queue of runs.
use loomctl.Base.{◌≡◌, refl, none, some, [], ◌∷◌}
use loomctl.Server.QueuePositions.{
  RunSlot, QueuePositions, active_tenant_run_count, active_tenant_run_ids, queued_tenant_run_count,
  next_queued_run_positions, positions_from, queued_run_positions,
}

abbrev slot_a : RunSlot
slot_a = record { tenant = "acme"; project = "web"; run_id = "a" }

abbrev slot_b : RunSlot
slot_b = record { tenant = "acme"; project = "api"; run_id = "b" }

abbrev slot_c : RunSlot
slot_c = record { tenant = "acme"; project = "web"; run_id = "c" }

abbrev slot_d : RunSlot
slot_d = record { tenant = "other"; project = "web"; run_id = "a" }

abbrev unknown : QueuePositions
unknown = record { tenant_queue_position = none; project_queue_position = none }

abbrev third_and_second : QueuePositions
third_and_second = record { tenant_queue_position = some 3; project_queue_position = some 2 }

position_of_c :
    queued_run_positions (slot_a ∷ slot_d ∷ slot_b ∷ slot_c ∷ []) slot_c unknown ≡ third_and_second
unfolding queued_run_positions positions_from
position_of_c = refl

next_of_web :
    next_queued_run_positions (slot_a ∷ slot_d ∷ slot_b ∷ []) "acme" "web" ≡ third_and_second
unfolding next_queued_run_positions
next_of_web = refl

not_queued : queued_run_positions (slot_a ∷ slot_b ∷ []) slot_c third_and_second ≡ third_and_second
unfolding queued_run_positions positions_from
not_queued = refl

counts :
    (active_tenant_run_count (slot_a ∷ slot_d ∷ []) "acme" ≡ 1)
    × (active_tenant_run_ids (slot_a ∷ slot_d ∷ slot_b ∷ []) "acme" ≡ "a" ∷ "b" ∷ [])
    × (queued_tenant_run_count (slot_a ∷ slot_d ∷ slot_b ∷ []) "acme" ≡ 2)
unfolding active_tenant_run_count active_tenant_run_ids queued_tenant_run_count
counts = (refl, refl, refl)
