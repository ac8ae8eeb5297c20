-- ===== src/Storage/File/Queues/Delivery.antt =====
-- src/harness/storage/file.ts: the items of a queue from their enqueueing to their acknowledgement.
use loomctl.Base.{
  ℕ, ◌+◌, ◌<◌, ◌⊎◌, inl, inr, true, none, ap, Bool-cases, Option-cases, ◌≡◌, refl, ◌≢◌, ◌∙◌, sym,
  Bool, false, ◌||◌, String, Option, some, List, [], ◌∷◌, ◌++◌, ◌==◌, eq_iff, map, any, All, arith,
}
use mathlib.Core.Option
use loomctl.Base.Directory.{lookup}
use loomctl.Storage.Contracts.{QueueItem, QueueClaim}
use loomctl.Storage.File.Queues.{
  claim_live, new_item, claim_items, claim_next_items, release_items, acknowledge_items, items,
  Call, enqueues, claims, claims_next, releases, acknowledges, step, run,
}
use loomctl.Storage.File.Queues.Steps.{Preserves, step_keeps}
use loomctl.Storage.File.Queues.Claims.{find_item}

abbrev pub is_among : String → List String → Bool
is_among id ids = any (λ j. j == id) ids

-- No id stands twice.
abbrev pub IsUnique : List String → Type 0
IsUnique [] = Unit
IsUnique (id ∷ ids) = (is_among id ids ≡ false) × IsUnique ids

is_among-append :
    (id j : String) (ids : List String)
    → is_among id (ids ++ j ∷ []) ≡ (is_among id ids || (j == id))
is_among-append id j [] = ground arith
is_among-append id j (k ∷ ids) = ground (arith, is_among-append id j ids)

IsUnique-append :
    (id : String) (ids : List String)
    → IsUnique ids
    → is_among id ids ≡ false
    → IsUnique (ids ++ id ∷ [])
IsUnique-append id [] u h = (refl, tt)
IsUnique-append id (j ∷ ids) u h = (
  ground (arith, is_among-append j id ids, eq_iff id j, eq_iff j id),
  IsUnique-append id ids u.1 (ground arith),
)

module _ {ℓ} {V : Type ℓ} where
  abbrev pub ids : List (QueueItem V) → List String
  ids is = map (λ i. i.id) is

  ids-claim :
      (id owner : String) (ttl now : ℕ) (is : List (QueueItem V))
      → ids (claim_items id owner ttl now is).1 ≡ ids is
  unfolding claim_items
  ids-claim id owner ttl now [] = refl
  ids-claim id owner ttl now (i ∷ is) = ground (arith, ids-claim id owner ttl now is)

  ids-claim_next :
      (owner : String) (ttl now : ℕ) (is : List (QueueItem V))
      → ids (claim_next_items owner ttl now is).1 ≡ ids is
  unfolding claim_next_items
  ids-claim_next owner ttl now [] = refl
  ids-claim_next owner ttl now (i ∷ is) = ground (arith, ids-claim_next owner ttl now is)

  ids-release :
      (id owner : String) (is : List (QueueItem V)) → ids (release_items id owner is).1 ≡ ids is
  unfolding release_items
  ids-release id owner [] = refl
  ids-release id owner (i ∷ is) = ground (arith, ids-release id owner is)

  is_among-acknowledge :
      (id j owner : String) (is : List (QueueItem V))
      → is_among j (ids is) ≡ false
      → is_among j (ids (acknowledge_items id owner is).1) ≡ false
  unfolding acknowledge_items
  is_among-acknowledge id j owner [] h = h
  is_among-acknowledge id j owner (i ∷ is) h = ground (arith, is_among-acknowledge id j owner is)

  IsUnique-acknowledge :
      (id owner : String) (is : List (QueueItem V))
      → IsUnique (ids is)
      → IsUnique (ids (acknowledge_items id owner is).1)
  unfolding acknowledge_items
  IsUnique-acknowledge id owner [] h = tt
  IsUnique-acknowledge id owner (i ∷ is) h =
      ground (arith, IsUnique-acknowledge id owner is h.1, is_among-acknowledge id i.id owner is)

  any-ids :
      (id : String) (is : List (QueueItem V)) → any (λ i. i.id == id) is ≡ is_among id (ids is)
  any-ids id [] = refl
  any-ids id (i ∷ is) = rw (any-ids id is)

  ids-append :
      (is : List (QueueItem V)) (i : QueueItem V) → ids (is ++ i ∷ []) ≡ ids is ++ i.id ∷ []
  ids-append [] i = refl
  ids-append (j ∷ is) i = rw (ids-append is i)

  IsUnique-enqueue :
      (q id : String) (v : V) (now : ℕ) (is : List (QueueItem V))
      → any (λ i. i.id == id) is ≡ false
      → IsUnique (ids is)
      → IsUnique (ids (is ++ new_item q id v now ∷ []))
  IsUnique-enqueue q id v now is absent h =
      rw (ids-append is (new_item q id v now))
        (IsUnique-append id (ids is) h (sym (any-ids id is) ∙ absent))

  calls-IsUnique :
      (q : String) (is : List (QueueItem V)) (c : Call V)
      → IsUnique (ids is)
      → Preserves (λ js. IsUnique (ids js)) q is c
  calls-IsUnique q is (enqueues r j v now) h = λ same absent. IsUnique-enqueue r j v now is absent h
  calls-IsUnique q is (claims r j owner ttl now) h = λ same. rw (ids-claim j owner ttl now is) h
  calls-IsUnique q is (claims_next r owner ttl now) h =
      λ same. rw (ids-claim_next owner ttl now is) h
  calls-IsUnique q is (releases r j owner) h = λ same. rw (ids-release j owner is) h
  calls-IsUnique q is (acknowledges r j owner) h = λ same. IsUnique-acknowledge j owner is h

  step-IsUnique :
      (q : String) (s : List (String × List (QueueItem V))) (c : Call V)
      → IsUnique (ids (items q s))
      → IsUnique (ids (items q (step s c)))
  step-IsUnique q s c h =
      step_keeps (λ is. IsUnique (ids is)) q s c (calls-IsUnique q (items q s) c h) h

  run-step-IsUnique :
      (q : String) (s : List (String × List (QueueItem V))) (cs : List (Call V))
      → IsUnique (ids (items q s))
      → IsUnique (ids (items q (run s cs)))
  unfolding run
  run-step-IsUnique q s [] h = h
  run-step-IsUnique q s (c ∷ cs) h = run-step-IsUnique q (step s c) cs (step-IsUnique q s c h)

  -- After any history of calls on an empty store no queue holds two items with one id.
  pub run-IsUnique : (q : String) (cs : List (Call V)) → IsUnique (ids (items q (run [] cs)))
  unfolding items lookup
  run-IsUnique q cs = run-step-IsUnique q [] cs tt

  -- The value of the item with an id, if it is there.
  abbrev pub payload : String → List (QueueItem V) → Option V
  payload id is = Option.map (λ i. i.value) (find_item id is)

  payload-claim :
      (id j owner : String) (ttl now : ℕ) (is : List (QueueItem V))
      → payload id (claim_items j owner ttl now is).1 ≡ payload id is
  unfolding claim_items
  payload-claim id j owner ttl now [] = refl
  payload-claim id j owner ttl now (i ∷ is) = ground (arith, payload-claim id j owner ttl now is)

  payload-claim_next :
      (id owner : String) (ttl now : ℕ) (is : List (QueueItem V))
      → payload id (claim_next_items owner ttl now is).1 ≡ payload id is
  unfolding claim_next_items
  payload-claim_next id owner ttl now [] = refl
  payload-claim_next id owner ttl now (i ∷ is) =
      ground (arith, payload-claim_next id owner ttl now is)

  payload-release :
      (id j owner : String) (is : List (QueueItem V))
      → payload id (release_items j owner is).1 ≡ payload id is
  unfolding release_items
  payload-release id j owner [] = refl
  payload-release id j owner (i ∷ is) = ground (arith, payload-release id j owner is)

  payload-acknowledge :
      (id j owner : String) (is : List (QueueItem V))
      → j ≢ id
      → payload id (acknowledge_items j owner is).1 ≡ payload id is
  unfolding acknowledge_items
  payload-acknowledge id j owner [] ne = refl
  payload-acknowledge id j owner (i ∷ is) ne =
      ground (arith, payload-acknowledge id j owner is, eq_iff i.id j, eq_iff i.id id)

  payload-append :
      (id : String) (is : List (QueueItem V)) (i : QueueItem V) (v : V)
      → payload id is ≡ some v
      → payload id (is ++ i ∷ []) ≡ some v
  payload-append id [] i v h = cc
  payload-append id (j ∷ is) i v h = ground (arith, payload-append id is i v)

  -- The call does not acknowledge item `id` of queue `q`.
  abbrev pub Leaves : String → String → Call V → Type 0
  Leaves q id (acknowledges r j owner) = r ≡ q → j ≢ id
  Leaves q id _ = Unit

  calls_stay :
      (q id : String) (v : V) (is : List (QueueItem V)) (c : Call V)
      → Leaves q id c
      → payload id is ≡ some v
      → Preserves (λ js. payload id js ≡ some v) q is c
  calls_stay q id v is (enqueues r j w now) l h = λ same absent. payload-append id is _ v h
  calls_stay q id v is (claims r j owner ttl now) l h =
      λ same. payload-claim id j owner ttl now is ∙ h
  calls_stay q id v is (claims_next r owner ttl now) l h =
      λ same. payload-claim_next id owner ttl now is ∙ h
  calls_stay q id v is (releases r j owner) l h = λ same. payload-release id j owner is ∙ h
  calls_stay q id v is (acknowledges r j owner) l h =
      λ same. payload-acknowledge id j owner is (l same) ∙ h

  -- No item is lost: until it is acknowledged an item stays in its queue with the value that it
  -- was put in with, whatever claims, releases and other calls there are.
  pub run_stays :
      (q id : String) (v : V) (s : List (String × List (QueueItem V))) (cs : List (Call V))
      → All (Leaves q id) cs
      → payload id (items q s) ≡ some v
      → payload id (items q (run s cs)) ≡ some v
  unfolding run
  run_stays q id v s [] l h = h
  run_stays q id v s (c ∷ cs) l h =
      run_stays q id v (step s c) cs l.1
        (step_keeps (λ is. payload id is ≡ some v) q s c (calls_stay q id v (items q s) c l.0 h) h)

  -- The item has a claim whose end is a date that has not come.
  abbrev pub Running : ℕ → QueueItem V → Type 0
  Running now i =
      (c : QueueClaim) × (end : ℕ) × (i.claim ≡ some c) × (c.expires_at ≡ some end) × (now < end)

  claim_live-Running : (now : ℕ) (i : QueueItem V) → claim_live now i.claim ≡ true → Running now i
  unfolding claim_live
  claim_live-Running now i h = elim (Option-cases i.claim) [
    | inl free ↦ ground (arith, free, h)
    | inr (c, claimed) ↦ elim (Option-cases c.expires_at) [
      | inl undated ↦ ground (arith, claimed, undated, h)
      | inr (end, dated) ↦ (c, end, claimed, dated, ground (arith, claimed, dated, h))
    ]
  ]

  claim_live-not_Running :
      (now : ℕ) (i : QueueItem V) → claim_live now i.claim ≡ false → Running now i → ⊥
  unfolding claim_live
  claim_live-not_Running now i h (c, end, claimed, dated, later) =
      ground (arith, h, claimed, dated, later)

  -- The item with a claim of `owner` from `now` on, for `ttl` milliseconds.
  abbrev pub taken_by : String → ℕ → ℕ → QueueItem V → QueueItem V
  taken_by owner ttl now i = record {
    queue = i.queue;
    id = i.id;
    enqueued_at = i.enqueued_at;
    value = i.value;
    claim = some (record { owner = owner; claimed_at = some now; expires_at = some (now + ttl) });
  }

  -- What an answer and the new items of `claimNext` have to do with the old items.
  abbrev pub TakesFirst :
      String → ℕ → ℕ → List (QueueItem V) → Option (QueueItem V) × List (QueueItem V) → Type ℓ
  TakesFirst owner ttl now is result =
      (All (Running now) is × (result ≡ (none, is)))
      ⊎ ((front back : List (QueueItem V)) × (i : QueueItem V) × (is ≡ front ++ i ∷ back)
          × All (Running now) front
          × (Running now i → ⊥)
          × (result ≡ (some (taken_by owner ttl now i), front ++ taken_by owner ttl now i ∷ back)))

  -- `claimNext` takes the first item of the queue that has no running claim: it answers with the item
  -- and its new claim, puts that in the item's place, and leaves all other items as they are. Where
  -- every item has a running claim it answers nothing and changes nothing.
  pub claim_next_first :
      (owner : String) (ttl now : ℕ) (is : List (QueueItem V))
      → TakesFirst owner ttl now is (claim_next_items owner ttl now is)
  unfolding claim_next_items
  claim_next_first owner ttl now [] = inl (tt, refl)
  claim_next_first owner ttl now (i ∷ is) = elim (Bool-cases (claim_live now i.claim)) [
    | inr free ↦ inr ([], is, i, refl, tt, claim_live-not_Running now i free, rw free refl)
    | inl live ↦ elim (claim_next_first owner ttl now is) [
      | inl (others, same) ↦
          inl ((claim_live-Running now i live, others), rw live (ap (λ r. (r.0, i ∷ r.1)) same))
      | inr (front, back, j, cut, running, free, same) ↦ inr (
        i ∷ front,
        back,
        j,
        ap (λ js. i ∷ js) cut,
        (claim_live-Running now i live, running),
        free,
        rw live (ap (λ r. (r.0, i ∷ r.1)) same),
      )
    ]
  ]
