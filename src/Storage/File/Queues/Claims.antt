-- ===== src/Storage/File/Queues/Claims.antt =====
-- src/harness/storage/file.ts: a claim of an item, and the calls of other workers.
use loomctl.Base.{
  ℕ, ◌+◌, ◌<◌, ◌≡◌, refl, ◌≢◌, inl, inr, true, false, String, Option, none, some, List, [], ◌∷◌,
  ◌++◌, lt→ltb, ◌==◌, eq_iff, eq_refl, ok, find, All, Bool-cases, arith,
}
use loomctl.Base.Directory.{insert}
use loomctl.Storage.Names.{assert_state_name, positive_ttl_ms}
use loomctl.Storage.Contracts.{QueueClaim, QueueItem}
use loomctl.Storage.File.Queues.{
  claim_live, claimed_by, new_claim, new_item, claim_items, claim_next_items, release_items,
  acknowledge_items, items, mutate_queue, claim, Call, enqueues, claims, claims_next, releases,
  acknowledges, step, run,
}
use loomctl.Storage.File.Queues.Steps.{items-insert, Preserves, step_keeps}

module _ {ℓ} {V : Type ℓ} where
  abbrev pub find_item : String → List (QueueItem V) → Option (QueueItem V)
  find_item id is = find (λ i. i.id == id) is

  enqueue_items_kept :
      (id q id' : String) (v : V) (now : ℕ) (is : List (QueueItem V)) (i : QueueItem V)
      → find_item id is ≡ some i
      → find_item id (is ++ new_item q id' v now ∷ []) ≡ some i
  enqueue_items_kept id q id' v now [] i h = cc
  enqueue_items_kept id q id' v now (j ∷ is) i h =
      ground (arith, enqueue_items_kept id q id' v now is i)

  claim_items_kept :
      (id id' owner : String) (ttl now : ℕ) (is : List (QueueItem V)) (i : QueueItem V)
      → claim_live now i.claim ≡ true
      → find_item id is ≡ some i
      → find_item id (claim_items id' owner ttl now is).1 ≡ some i
  unfolding claim_items
  claim_items_kept id id' owner ttl now [] i l h = cc
  claim_items_kept id id' owner ttl now (j ∷ is) i l h =
      ground (arith, eq_iff j.id id, eq_iff j.id id', claim_items_kept id id' owner ttl now is i l)

  claim_next_items_kept :
      (id owner : String) (ttl now : ℕ) (is : List (QueueItem V)) (i : QueueItem V)
      → claim_live now i.claim ≡ true
      → find_item id is ≡ some i
      → find_item id (claim_next_items owner ttl now is).1 ≡ some i
  unfolding claim_next_items
  claim_next_items_kept id owner ttl now [] i l h = cc
  claim_next_items_kept id owner ttl now (j ∷ is) i l h =
      ground (arith, claim_next_items_kept id owner ttl now is i l)

  release_items_kept :
      (id id' owner : String) (is : List (QueueItem V)) (i : QueueItem V)
      → (id' ≡ id → claimed_by owner i.claim ≡ false)
      → find_item id is ≡ some i
      → find_item id (release_items id' owner is).1 ≡ some i
  unfolding release_items
  release_items_kept id id' owner [] i l h = cc
  release_items_kept id id' owner (j ∷ is) i l h = ground (
    arith,
    eq_iff j.id id,
    eq_iff j.id id',
    eq_iff id' id,
    release_items_kept id id' owner is i l,
  )

  acknowledge_items_kept :
      (id id' owner : String) (is : List (QueueItem V)) (i : QueueItem V)
      → (id' ≡ id → claimed_by owner i.claim ≡ false)
      → find_item id is ≡ some i
      → find_item id (acknowledge_items id' owner is).1 ≡ some i
  unfolding acknowledge_items
  acknowledge_items_kept id id' owner [] i l h = cc
  acknowledge_items_kept id id' owner (j ∷ is) i l h = ground (
    arith,
    eq_iff j.id id,
    eq_iff j.id id',
    eq_iff id' id,
    acknowledge_items_kept id id' owner is i l,
  )

  -- The call is not the holder's way to give up the claim of item `id` of queue `q`, and where it
  -- claims from the queue it sees a clock before `t`.
  abbrev pub Foreign : String → String → String → ℕ → Call V → Type 0
  Foreign q id holder t (enqueues r j value now) = Unit
  Foreign q id holder t (claims r j owner ttl now) = r ≡ q → now < t
  Foreign q id holder t (claims_next r owner ttl now) = r ≡ q → now < t
  Foreign q id holder t (releases r j owner) = r ≡ q → j ≡ id → owner ≢ holder
  Foreign q id holder t (acknowledges r j owner) = r ≡ q → j ≡ id → owner ≢ holder

  -- `i` is claimed by `holder` until `t`.
  abbrev pub IsHeld : QueueItem V → String → ℕ → Type 0
  IsHeld i holder t =
      (c : QueueClaim) × (i.claim ≡ some c) × (c.owner ≡ holder) × (c.expires_at ≡ some t)

  IsHeld-live :
      (i : QueueItem V) (holder : String) (t now : ℕ)
      → IsHeld i holder t
      → now < t
      → claim_live now i.claim ≡ true
  unfolding claim_live
  IsHeld-live i holder t now (c, e, o, x) lt = rw (e, x) (lt→ltb now t lt)

  IsHeld-other :
      (i : QueueItem V) (holder owner : String) (t : ℕ)
      → IsHeld i holder t
      → owner ≢ holder
      → claimed_by owner i.claim ≡ false
  unfolding claimed_by
  IsHeld-other i holder owner t (c, e, o, x) ne = rw e (ground (arith, eq_iff c.owner owner))

  calls_kept :
      (q id holder : String) (t : ℕ) (i : QueueItem V) (is : List (QueueItem V)) (c : Call V)
      → IsHeld i holder t
      → Foreign q id holder t c
      → find_item id is ≡ some i
      → Preserves (λ js. find_item id js ≡ some i) q is c
  calls_kept q id holder t i is (enqueues r j v now) k f h =
      λ same absent. enqueue_items_kept id r j v now is i h
  calls_kept q id holder t i is (claims r j owner ttl now) k f h =
      λ same. claim_items_kept id j owner ttl now is i (IsHeld-live i holder t now k (f same)) h
  calls_kept q id holder t i is (claims_next r owner ttl now) k f h =
      λ same. claim_next_items_kept id owner ttl now is i (IsHeld-live i holder t now k (f same)) h
  calls_kept q id holder t i is (releases r j owner) k f h =
      λ same. release_items_kept id j owner is i (λ g. IsHeld-other i holder owner t k (f same g)) h
  calls_kept q id holder t i is (acknowledges r j owner) k f h = λ same.
      acknowledge_items_kept id j owner is i (λ g. IsHeld-other i holder owner t k (f same g)) h

  step_kept :
      (q id holder : String) (t : ℕ) (i : QueueItem V) (s : List (String × List (QueueItem V)))
      (c : Call V)
      → IsHeld i holder t
      → Foreign q id holder t c
      → find_item id (items q s) ≡ some i
      → find_item id (items q (step s c)) ≡ some i
  step_kept q id holder t i s c k f h =
      step_keeps (λ is. find_item id is ≡ some i) q s c
        (calls_kept q id holder t i (items q s) c k f h) h

  -- A claim stays as it is until its owner gives it up or it runs out.
  pub run_kept :
      (q id holder : String) (t : ℕ) (i : QueueItem V) (s : List (String × List (QueueItem V)))
      (cs : List (Call V))
      → IsHeld i holder t
      → All (Foreign q id holder t) cs
      → find_item id (items q s) ≡ some i
      → find_item id (items q (run s cs)) ≡ some i
  unfolding run
  run_kept q id holder t i s [] k f h = h
  run_kept q id holder t i s (c ∷ cs) k f h =
      run_kept q id holder t i (step s c) cs k f.1 (step_kept q id holder t i s c k f.0 h)

  claim_items_takes :
      (id owner : String) (ttl now : ℕ) (is : List (QueueItem V)) {i : QueueItem V}
      → (claim_items id owner ttl now is).0 ≡ some i
      → (find_item id (claim_items id owner ttl now is).1 ≡ some i) × IsHeld i owner (now + ttl)
  unfolding claim_items
  claim_items_takes id owner ttl now [] e = cc
  claim_items_takes id owner ttl now (j ∷ is) {i} e = elim (Bool-cases (j.id == id)) [
    | inl here ↦ elim (Bool-cases (claim_live now j.claim)) [
      | inl live ↦ ground arith
      | inr free ↦
          let e' : new_claim owner ttl now j ≡ i = ground arith in
          rw (here, free, here)
            (
              ground arith,
              (
                record { owner = owner; claimed_at = some now; expires_at = some (now + ttl) },
                rw (← e') refl,
                refl,
                refl,
              ),
            )
    ]
    | inr there ↦ rw (there, there) (claim_items_takes id owner ttl now is (ground arith))
  ]

  claim_items_refused :
      (id owner : String) (ttl now : ℕ) (is : List (QueueItem V)) (i : QueueItem V)
      → find_item id is ≡ some i
      → claim_live now i.claim ≡ true
      → claim_items id owner ttl now is ≡ (none, is)
  unfolding claim_items
  claim_items_refused id owner ttl now [] i e l = cc
  claim_items_refused id owner ttl now (j ∷ is) i e l =
      ground (arith, claim_items_refused id owner ttl now is i)

  claim-inv :
      (q id owner : String) (ttl now : ℕ) (s : List (String × List (QueueItem V)))
      {o : Option (QueueItem V)} {s' : List (String × List (QueueItem V))}
      → claim q id owner ttl now s ≡ ok (o, s')
      → ((claim_items id owner ttl now (items q s)).0 ≡ o)
        × (items q s' ≡ (claim_items id owner ttl now (items q s)).1)
        × (assert_state_name q ≡ ok tt)
        × (assert_state_name id ≡ ok tt)
  unfolding claim mutate_queue
  claim-inv q id owner ttl now s h =
      ground (arith, items-insert q q (claim_items id owner ttl now (items q s)).1 s, eq_refl q)

  -- From a claim of an item at `now` until the clock reads `now + ttl`, no well-formed claim of the
  -- item succeeds, if the holder has not released or acknowledged it: whatever other owners do
  -- before `now + ttl`, and whatever is done with other items and queues.
  pub claim_excludes :
      (q id owner other : String) (ttl ttl' now now' : ℕ) (s : List (String × List (QueueItem V)))
      (cs : List (Call V)) {i : QueueItem V} {s' : List (String × List (QueueItem V))}
      → claim q id owner ttl now s ≡ ok (some i, s')
      → All (Foreign q id owner (now + ttl)) cs
      → now' < now + ttl
      → assert_state_name other ≡ ok tt
      → positive_ttl_ms ttl' ≡ ok tt
      → claim q id other ttl' now' (run s' cs)
        ≡ ok (none, insert q (items q (run s' cs)) (run s' cs))
  unfolding claim mutate_queue
  claim_excludes q id owner other ttl ttl' now now' s cs {i} {s'} h f lt named lasting =
      let (taken, written, valid, known) = claim-inv q id owner ttl now s h in
      let (found, held) = claim_items_takes id owner ttl now (items q s) taken in
      let kept = run_kept q id owner (now + ttl) i s' cs held f (rw written found) in
      rw (
        lasting,
        valid,
        known,
        named,
        claim_items_refused id other ttl' now' (items q (run s' cs)) i kept
            (IsHeld-live i owner (now + ttl) now' held lt),
      )
