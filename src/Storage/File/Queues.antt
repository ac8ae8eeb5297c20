-- ===== src/Storage/File/Queues.antt =====
-- `createFileQueueStore` of src/harness/storage/file.ts: queues whose items are claimed for a time.
-- The state is the directory `queues`; the file of a queue holds its items in order.
pub mod Steps
pub mod Claims
pub mod Delivery
mod Tests
use loomctl.Base.{
  ℕ, ◌+◌, ◌≡◌, Bool, true, false, ◌&&◌, ◌||◌, not, String, Option, none, some, List, [], ◌∷◌, ◌++◌,
  ltb, if◌then◌else◌, ◌==◌, Result, ok, err, conflict, ◌>>=◌, ◌>>◌, check, after, any, find,
}
use loomctl.Base.Directory.{lookup, insert}
use loomctl.Storage.Names.{assert_state_name, positive_ttl_ms}
use loomctl.Storage.Contracts.{Timestamp, QueueClaim, QueueItem}

-- `item.claim && Date.parse(item.claim.expiresAt) > now`: an expiry that is no date does not count.
abbrev pub time_after : Timestamp → ℕ → Bool
time_after none now = false
time_after (some t) now = ltb now t

unfoldable pub claim_live : ℕ → Option QueueClaim → Bool
claim_live now none = false
claim_live now (some c) = time_after c.expires_at now

unfoldable pub claimed_by : String → Option QueueClaim → Bool
claimed_by owner none = false
claimed_by owner (some c) = c.owner == owner

module _ {ℓ} {V : Type ℓ} where
  abbrev pub new_claim : String → ℕ → ℕ → QueueItem V → QueueItem V
  new_claim owner ttl now i = record i {
    claim = some (record { owner = owner; claimed_at = some now; expires_at = some (now + ttl) });
  }

  abbrev pub unclaimed : QueueItem V → QueueItem V
  unclaimed i = record i { claim = none }

  abbrev pub new_item : String → String → V → ℕ → QueueItem V
  new_item queue id value now = record {
    queue = queue;
    id = id;
    enqueued_at = now;
    value = value;
    claim = none;
  }

  -- The callbacks that `mutateQueue` applies to the items of a queue.
  unfoldable pub enqueue_items :
      String → String → V → ℕ → List (QueueItem V) → Result (QueueItem V × List (QueueItem V))
  enqueue_items queue id value now items = do
    check (not (any (λ i. i.id == id) items)) conflict
    ok (new_item queue id value now, items ++ new_item queue id value now ∷ [])

  -- The first item with the id is the one that `find` gives; it is claimed in place.
  unfoldable pub claim_items :
      String → String → ℕ → ℕ → List (QueueItem V) → Option (QueueItem V) × List (QueueItem V)
  claim_items id owner ttl now [] = (none, [])
  claim_items id owner ttl now (i ∷ is) =
      let (found, is') = claim_items id owner ttl now is in
      if i.id == id
      then if claim_live now i.claim
        then (none, i ∷ is)
        else (some (new_claim owner ttl now i), new_claim owner ttl now i ∷ is)
      else (found, i ∷ is')

  unfoldable pub claim_next_items :
      String → ℕ → ℕ → List (QueueItem V) → Option (QueueItem V) × List (QueueItem V)
  claim_next_items owner ttl now [] = (none, [])
  claim_next_items owner ttl now (i ∷ is) =
      let (found, is') = claim_next_items owner ttl now is in
      if claim_live now i.claim
      then (found, i ∷ is')
      else (some (new_claim owner ttl now i), new_claim owner ttl now i ∷ is)

  unfoldable pub release_items : String → String → List (QueueItem V) → Bool × List (QueueItem V)
  release_items id owner [] = (false, [])
  release_items id owner (i ∷ is) =
      let (done, is') = release_items id owner is in
      if i.id == id
      then if claimed_by owner i.claim then (true, unclaimed i ∷ is) else (false, i ∷ is)
      else (done, i ∷ is')

  unfoldable pub acknowledge_items :
      String → String → List (QueueItem V) → Bool × List (QueueItem V)
  acknowledge_items id owner [] = (false, [])
  acknowledge_items id owner (i ∷ is) =
      let (done, is') = acknowledge_items id owner is in
      if (i.id == id) && claimed_by owner i.claim then (true, is) else (done, i ∷ is')

  -- `readJsonIfPresent(path) ?? []`
  unfoldable pub items : String → List (String × List (QueueItem V)) → List (QueueItem V)
  items queue s = elim (lookup queue s) [ none ↦ [] | some is ↦ is ]

  -- `mutateQueue`: the lock, the read, the callback and the write; `queuePath` checks the name.
  unfoldable pub mutate_queue {κ} :
      {R : Type κ}
      → String
      → (List (QueueItem V) → Result (R × List (QueueItem V)))
      → List (String × List (QueueItem V))
      → Result (R × List (String × List (QueueItem V)))
  mutate_queue queue mutate s = do
    assert_state_name queue
    r ← mutate (items queue s)
    ok (r.0, insert queue r.1 s)

  pub enqueue :
      String
      → String
      → V
      → ℕ
      → List (String × List (QueueItem V))
      → Result (QueueItem V × List (String × List (QueueItem V)))
  enqueue queue id value now = mutate_queue queue (enqueue_items queue id value now)

  pub claim :
      String
      → String
      → String
      → ℕ
      → ℕ
      → List (String × List (QueueItem V))
      → Result (Option (QueueItem V) × List (String × List (QueueItem V)))
  claim queue id owner ttl now s = do
    positive_ttl_ms ttl
    assert_state_name queue
    assert_state_name id
    assert_state_name owner
    mutate_queue queue (λ is. ok (claim_items id owner ttl now is)) s

  pub claim_next :
      String
      → String
      → ℕ
      → ℕ
      → List (String × List (QueueItem V))
      → Result (Option (QueueItem V) × List (String × List (QueueItem V)))
  claim_next queue owner ttl now s = do
    positive_ttl_ms ttl
    assert_state_name owner
    mutate_queue queue (λ is. ok (claim_next_items owner ttl now is)) s

  pub release :
      String
      → String
      → String
      → List (String × List (QueueItem V))
      → Result (Bool × List (String × List (QueueItem V)))
  release queue id owner = mutate_queue queue (λ is. ok (release_items id owner is))

  pub acknowledge :
      String
      → String
      → String
      → List (String × List (QueueItem V))
      → Result (Bool × List (String × List (QueueItem V)))
  acknowledge queue id owner = mutate_queue queue (λ is. ok (acknowledge_items id owner is))

-- The calls of the servers, in the order in which the file locks let them through.
pub data Call {ℓ} (V : Type ℓ) : Type ℓ where
  enqueues : (queue id : String) → V → (now : ℕ) → Call V
  claims : (queue id owner : String) → (ttl now : ℕ) → Call V
  claims_next : (queue owner : String) → (ttl now : ℕ) → Call V
  releases acknowledges : (queue id owner : String) → Call V

module _ {ℓ} {V : Type ℓ} where
  unfoldable pub step :
      List (String × List (QueueItem V)) → Call V → List (String × List (QueueItem V))
  step s (enqueues queue id value now) = after s (enqueue queue id value now s)
  step s (claims queue id owner ttl now) = after s (claim queue id owner ttl now s)
  step s (claims_next queue owner ttl now) = after s (claim_next queue owner ttl now s)
  step s (releases queue id owner) = after s (release queue id owner s)
  step s (acknowledges queue id owner) = after s (acknowledge queue id owner s)

  unfoldable pub run :
      List (String × List (QueueItem V)) → List (Call V) → List (String × List (QueueItem V))
  run s [] = s
  run s (c ∷ cs) = run (step s c) cs
