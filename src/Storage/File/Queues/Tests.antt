-- ===== src/Storage/File/Queues/Tests.antt =====
-- Tests of the queues.
use loomctl.Base.{ℕ, ◌≡◌, refl, String, none, some, List, [], ◌∷◌, ok, arith}
use loomctl.Base.Directory.{insert, lookup}
use loomctl.Storage.Names.{is_state_name}
use loomctl.Storage.Contracts.{QueueItem}
use loomctl.Storage.File.Queues.{
  claim, claim_items, claim_next_items, claim_live, new_claim, items, mutate_queue, Call, enqueues,
  claims, releases, run,
}
use loomctl.Storage.File.Queues.Claims.{claim_excludes}
use loomctl.Storage.File.Queues.Delivery.{
  ids, IsUnique, payload, run-IsUnique, run_stays, TakesFirst, claim_next_first,
}

abbrev item : QueueItem ℕ
item = record { queue = "runs"; id = "a"; enqueued_at = 5; value = 7; claim = none }

abbrev store : List (String × List (QueueItem ℕ))
store = ("runs", item ∷ []) ∷ []

abbrev taken : List (String × List (QueueItem ℕ))
taken = ("runs", new_claim "worker:1" 50 100 item ∷ []) ∷ []

abbrev others : List (Call ℕ)
others =
    claims "runs" "a" "worker:2" 50 110
    ∷ enqueues "runs" "b" 8 111
    ∷ releases "b" "a" "worker:2"
    ∷ []

claim_first :
    claim "runs" "a" "worker:1" 50 100 store ≡ ok (some (new_claim "worker:1" 50 100 item), taken)
unfolding claim claim_items claim_live items mutate_queue is_state_name insert lookup
claim_first = refl

claim_excludes_example :
    claim "runs" "a" "worker:2" 50 120 (run taken others)
    ≡ ok (none, insert "runs" (items "runs" (run taken others)) (run taken others))
unfolding is_state_name
claim_excludes_example =
    claim_excludes "runs" "a" "worker:1" "worker:2" 50 50 100 120 store others claim_first
      ((λ same. omega arith), (tt, ((λ same. cc), tt))) (omega arith) refl refl

run-IsUnique_example :
    IsUnique
      (ids (items "runs" (run [] (enqueues "runs" "a" 7 1 ∷ enqueues "runs" "a" 8 2 ∷ others))))
run-IsUnique_example =
    run-IsUnique "runs" (enqueues "runs" "a" 7 1 ∷ enqueues "runs" "a" 8 2 ∷ others)

run_stays_example : payload "a" (items "runs" (run store others)) ≡ some 7
unfolding items lookup
run_stays_example = run_stays "runs" "a" 7 store others (tt, (tt, (tt, tt))) refl

claim_next_first_example :
    TakesFirst "worker:1" 50 100 (item ∷ []) (claim_next_items "worker:1" 50 100 (item ∷ []))
claim_next_first_example = claim_next_first "worker:1" 50 100 (item ∷ [])
