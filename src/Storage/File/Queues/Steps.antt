-- ===== src/Storage/File/Queues/Steps.antt =====
-- src/harness/storage/file.ts: what a call does to the items of one queue.
use loomctl.Base.{
  ℕ, ◌≡◌, inl, inr, String, List, [], ◌∷◌, ◌++◌, false, any, if◌then◌else◌, ◌==◌, eq_iff, Result,
  ok, after, Result-cases, subst, sym, ok-injective, after-guard, Bool-cases, arith,
}
use loomctl.Base.Directory.{insert, lookup-insert}
use loomctl.Storage.Names.{assert_state_name, positive_ttl_ms}
use loomctl.Storage.Contracts.{QueueItem}
use loomctl.Storage.File.Queues.{
  new_item, enqueue_items, claim_items, claim_next_items, release_items, acknowledge_items, items,
  mutate_queue, enqueue, claim, claim_next, release, acknowledge, Call, enqueues, claims,
  claims_next, releases, acknowledges, step,
}

module _ {ℓ} {V : Type ℓ} where
  pub items-insert :
      (q r : String) (is : List (QueueItem V)) (s : List (String × List (QueueItem V)))
      → items r (insert q is s) ≡ (if q == r then is else items r s)
  unfolding items
  items-insert q r is s = ground (arith, lookup-insert q r is s)

  -- A change to one queue keeps what it keeps there, and all of the other queues.
  pub mutate_queue_keeps {κ μ} :
      {R : Type κ} (P : List (QueueItem V) → Type μ) (q r : String)
      (mutate : List (QueueItem V) → Result (R × List (QueueItem V)))
      (s : List (String × List (QueueItem V)))
      → (q ≡ r → (x : R × List (QueueItem V)) → mutate (items q s) ≡ ok x → P x.1)
      → P (items r s)
      → P (items r (after s (mutate_queue q mutate s)))
  unfolding mutate_queue
  mutate_queue_keeps P q r mutate s keeps h = elim (Result-cases (assert_state_name q)) [
    | inl (_, bad) ↦ rw (bad, mutate_queue) h
    | inr (_, good) ↦ elim (Result-cases (mutate (items q s))) [
      | inl (_, refused) ↦ rw (good, refused) h
      | inr (x, done) ↦ elim (Bool-cases (q == r)) [
        | inl same ↦
            rw (good, done, items-insert q r x.1 s, same) (keeps ((eq_iff q r).0 same) x done)
        | inr other ↦ rw (good, done, items-insert q r x.1 s, other) h
      ]
    ]
  ]

  -- The callback of a call, where it is about queue `q`, leaves items for which `P` holds.
  abbrev pub Preserves {μ} :
      (List (QueueItem V) → Type μ) → String → List (QueueItem V) → Call V → Type μ
  Preserves P q is (enqueues r j v now) =
      r ≡ q → any (λ i. i.id == j) is ≡ false → P (is ++ new_item r j v now ∷ [])
  Preserves P q is (claims r j owner ttl now) = r ≡ q → P (claim_items j owner ttl now is).1
  Preserves P q is (claims_next r owner ttl now) = r ≡ q → P (claim_next_items owner ttl now is).1
  Preserves P q is (releases r j owner) = r ≡ q → P (release_items j owner is).1
  Preserves P q is (acknowledges r j owner) = r ≡ q → P (acknowledge_items j owner is).1

  enqueue-inv :
      (q id : String) (v : V) (now : ℕ) (is : List (QueueItem V))
      (x : QueueItem V × List (QueueItem V))
      → enqueue_items q id v now is ≡ ok x
      → (any (λ i. i.id == id) is ≡ false)
        × (x.0 ≡ new_item q id v now)
        × (is ++ new_item q id v now ∷ [] ≡ x.1)
  unfolding enqueue_items
  enqueue-inv q id v now is x e = ground arith

  pure_keeps {κ μ} :
      {R : Type κ} (P : List (QueueItem V) → Type μ) (q r : String)
      (f : List (QueueItem V) → R × List (QueueItem V)) (s : List (String × List (QueueItem V)))
      → (r ≡ q → P (f (items q s)).1)
      → P (items q s)
      → P (items q (after s (mutate_queue r (λ is. ok (f is)) s)))
  pure_keeps P q r f s keeps h =
      mutate_queue_keeps P r q (λ is. ok (f is)) s
        (λ same x e.
          subst (λ y. P y.1) (ok-injective e)
            (subst (λ n. P (f (items n s)).1) (sym same) (keeps same)))
        h

  pub step_keeps {μ} :
      (P : List (QueueItem V) → Type μ) (q : String) (s : List (String × List (QueueItem V)))
      (c : Call V)
      → Preserves P q (items q s) c
      → P (items q s)
      → P (items q (step s c))
  unfolding step enqueue claim claim_next release acknowledge
  step_keeps P q s (enqueues r j v now) keeps h =
      mutate_queue_keeps P r q (enqueue_items r j v now) s
        (λ same x e.
          let (absent, _, grown) =
            enqueue-inv r j v now (items q s) x
              (subst (λ n. enqueue_items r j v now (items n s) ≡ ok x) same e) in
          subst P grown (keeps same absent))
        h
  step_keeps P q s (claims r j owner ttl now) keeps h =
      let Q : List (String × List (QueueItem V)) → Type μ = λ u. P (items q u) in
      let m = mutate_queue r (λ is. ok (claim_items j owner ttl now is)) s in
      after-guard Q s (positive_ttl_ms ttl) _ h (
        after-guard Q s (assert_state_name r) _ h (
          after-guard Q s (assert_state_name j) _ h (
            after-guard Q s (assert_state_name owner) m h
              (pure_keeps P q r (claim_items j owner ttl now) s keeps h))))
  step_keeps P q s (claims_next r owner ttl now) keeps h =
      let Q : List (String × List (QueueItem V)) → Type μ = λ u. P (items q u) in
      let m = mutate_queue r (λ is. ok (claim_next_items owner ttl now is)) s in
      after-guard Q s (positive_ttl_ms ttl) _ h (
        after-guard Q s (assert_state_name owner) m h
          (pure_keeps P q r (claim_next_items owner ttl now) s keeps h))
  step_keeps P q s (releases r j owner) keeps h = pure_keeps P q r (release_items j owner) s keeps h
  step_keeps P q s (acknowledges r j owner) keeps h =
      pure_keeps P q r (acknowledge_items j owner) s keeps h
