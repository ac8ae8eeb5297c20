-- ===== src/Harness/Triples.antt =====
-- Reasoning on the calls of the loop: what holds before a call, and after it, thrown or not.
use loomctl.Harness.Executor.{Attempt, done, threw, Io, ◌>>=◌}

module _ {S : Type 0} where
  unfoldable pub Holds : {A : Type 0} → (A → S → Type 0) → (S → Type 0) → Attempt A S → Type 0
  Holds post thrown (done a s) = post a s
  Holds post thrown (threw e s) = thrown s

  -- From any state with `pre`, the call ends in one with `post`, or throws in one with `thrown`.
  pub record Triple {A : Type 0} (pre : S → Type 0) (m : Io S A) (post : A → S → Type 0)
      (thrown : S → Type 0) : Type 0 where
    pub holds : (s : S) → pre s → Holds post thrown (m s)

  bind_held :
      {A B : Type 0} (mid : A → S → Type 0) (post : B → S → Type 0) (thrown : S → Type 0)
      (f : A → Io S B)
      → ((a : A) → Triple (mid a) (f a) post thrown)
      → (r : Attempt A S) → Holds mid thrown r
      → Holds post thrown (elim r [ done a s ↦ f a s | threw e s ↦ threw e s ])
  unfolding Holds
  bind_held mid post thrown f k (done a s) h = (k a).holds s h
  bind_held mid post thrown f k (threw e s) h = h

  pub bind :
      {A B : Type 0} {pre : S → Type 0} {mid : A → S → Type 0} {post : B → S → Type 0}
      {thrown : S → Type 0} {m : Io S A} {f : A → Io S B}
      → Triple pre m mid thrown
      → ((a : A) → Triple (mid a) (f a) post thrown)
      → Triple pre (m >>= f) post thrown
  bind {mid} {post} {thrown} {m} {f} h k = record {
    holds = λ s p. bind_held mid post thrown f k (m s) (h.holds s p);
  }

  weaken_held :
      {A : Type 0} (mid post : A → S → Type 0) (thrown thrown' : S → Type 0)
      → ((a : A) (s : S) → mid a s → post a s)
      → ((s : S) → thrown s → thrown' s)
      → (r : Attempt A S) → Holds mid thrown r
      → Holds post thrown' r
  unfolding Holds
  weaken_held mid post thrown thrown' f g (done a s) q = f a s q
  weaken_held mid post thrown thrown' f g (threw e s) q = g s q

  pub weaken :
      {A : Type 0} {pre : S → Type 0} {mid post : A → S → Type 0} {thrown thrown' : S → Type 0}
      {m : Io S A}
      → ((a : A) (s : S) → mid a s → post a s)
      → ((s : S) → thrown s → thrown' s)
      → Triple pre m mid thrown
      → Triple pre m post thrown'
  weaken {mid} {post} {thrown} {thrown'} {m} f g h = record {
    holds = λ s p. weaken_held mid post thrown thrown' f g (m s) (h.holds s p);
  }

  frame_held :
      {A : Type 0} (P : Type 0) (post : A → S → Type 0) (thrown : S → Type 0)
      → P
      → (r : Attempt A S) → Holds post thrown r
      → Holds (λ a s. P × post a s) thrown r
  unfolding Holds
  frame_held P post thrown p (done a s) q = (p, q)
  frame_held P post thrown p (threw e s) q = q

  -- What has nothing to do with the state stays.
  pub frame :
      {A : Type 0} {P : Type 0} {post : A → S → Type 0} {thrown : S → Type 0} {m : Io S A}
      → Triple (λ _. Unit) m post thrown
      → Triple (λ _. P) m (λ a s. P × post a s) thrown
  frame {P = P} {post = post} {thrown = thrown} {m = m} h = record {
    holds = λ s p. frame_held P post thrown p (m s) (h.holds s tt);
  }

  pub before :
      {A : Type 0} {pre pre' : S → Type 0} {post : A → S → Type 0} {thrown : S → Type 0}
      {m : Io S A}
      → ((s : S) → pre' s → pre s)
      → Triple pre m post thrown
      → Triple pre' m post thrown
  before f h = record { holds = λ s p. h.holds s (f s p) }

  -- A call that only changes the state.
  pub pure :
      {A : Type 0} {pre : S → Type 0} {post : A → S → Type 0} {thrown : S → Type 0} (a : A)
      (f : S → S)
      → ((s : S) → pre s → post a (f s))
      → Triple pre (λ s. done a (f s)) post thrown
  unfolding Holds
  pure a f h = record { holds = λ s p. h s p }
