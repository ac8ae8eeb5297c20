-- ===== src/Storage/File/Events/Sequence.antt =====
-- src/harness/storage/file.ts: the numbers of a stream's events, and the pages of a stream.
use loomctl.Base.{
  Result-cases, inl, inr, drop, drop-nil, drop-drop, subst, Bool-cases, leb→le, take-append-take, ℕ,
  zero, suc, ◌+◌, ◌-◌, ◌≤◌, ◌<◌, ◌≡◌, refl, sym, ap, ◌∙◌, false, String, List, [], ◌∷◌, ◌++◌, ltb,
  leb, if◌then◌else◌, ◌==◌, eq_iff, take, keep, length, ok, after, arith, lt→ltb,
}
use loomctl.Base.Directory.{lookup, lookup-insert}
use native.Mathlib.Nat.{add-zero, zero-add, sub-zero}
use loomctl.Storage.Contracts.{StoredEvent}
use loomctl.Storage.File.Events.{
  Line, junk, event, read_event_file, last_seq, lines, next_event, append, page, append_all,
}

-- The events are numbered one by one from `n + 1` on.
abbrev pub IsDense {ℓ} : {V : Type ℓ} → ℕ → List (StoredEvent V) → Type 0
IsDense n [] = Unit
IsDense n (e ∷ es) = (e.seq ≡ suc n) × IsDense (suc n) es

module _ {ℓ} {V : Type ℓ} where
  abbrev pub events : String → List (String × List (Line V)) → List (StoredEvent V)
  events stream s = read_event_file stream (lines stream s)

  last_seq-dense :
      (n : ℕ) (e : StoredEvent V) (es : List (StoredEvent V))
      → IsDense n (e ∷ es)
      → last_seq (e ∷ es) ≡ n + length (e ∷ es)
  last_seq-dense n e [] h = omega arith
  last_seq-dense n e (f ∷ es) h = omega (arith, last_seq-dense (suc n) f es h.1)

  last_seq-length : (es : List (StoredEvent V)) → IsDense 0 es → last_seq es ≡ length es
  last_seq-length [] h = refl
  last_seq-length (e ∷ es) h = omega (arith, last_seq-dense 0 e es h)

  IsDense-append :
      (n : ℕ) (es : List (StoredEvent V)) (e : StoredEvent V)
      → IsDense n es
      → e.seq ≡ n + length es + 1
      → IsDense n (es ++ e ∷ [])
  IsDense-append n [] e h q = (omega arith, tt)
  IsDense-append n (f ∷ es) e h q = (h.0, IsDense-append (suc n) es e h.1 (omega arith))

  pub read_event_file-append :
      (stream : String) (ls : List (Line V)) (e : StoredEvent V)
      → e.stream ≡ stream
      → 0 < e.seq
      → read_event_file stream (ls ++ event e ∷ []) ≡ read_event_file stream ls ++ e ∷ []
  unfolding read_event_file
  read_event_file-append stream [] e p q = ground (arith, eq_iff e.stream stream)
  read_event_file-append stream (junk ∷ ls) e p q = read_event_file-append stream ls e p q
  read_event_file-append stream (event f ∷ ls) e p q =
      ground (arith, read_event_file-append stream ls e p q)

  -- An append gives the next number, adds the event at the end of its stream, and leaves the
  -- other streams as they were.
  pub append-eq-ok :
      (stream : String) (value : V) (now : ℕ) (s : List (String × List (Line V)))
      {e : StoredEvent V} {s' : List (String × List (Line V))}
      → append stream value now s ≡ ok (e, s')
      → (e.value ≡ value)
        × (e.seq ≡ last_seq (events stream s) + 1)
        × ((other : String)
            → events other s'
              ≡ (if stream == other then events stream s ++ e ∷ [] else events other s))
  unfolding append
  append-eq-ok stream value now s h = (
    ground arith,
    ground arith,
    λ other. ground (
      arith,
      eq_iff stream other,
      lookup-insert stream other
          (lines stream s ++ event (next_event stream value now (lines stream s)) ∷ []) s,
      read_event_file-append stream (lines stream s) (next_event stream value now (lines stream s))
          refl (omega arith),
    ),
  )

  AllDense : List (String × List (Line V)) → Type 0
  AllDense s = (stream : String) → IsDense 0 (events stream s)

  append-AllDense :
      (stream : String) (value : V) (now : ℕ) (s : List (String × List (Line V)))
      → AllDense s
      → AllDense (after s (append stream value now s))
  unfolding AllDense
  append-AllDense stream value now s h other = elim (Result-cases (append stream value now s)) [
    | inl (_, refused) ↦ rw refused (h other)
    | inr ((e, s'), done) ↦
        let (_, number, kept) = append-eq-ok stream value now s done in
        let grown =
          IsDense-append 0 (events stream s) e (h stream)
            (omega (arith, number, last_seq-length (events stream s) (h stream))) in
        rw done (ground (arith, kept other, grown, h other))
  ]

  append_all-AllDense :
      (s : List (String × List (Line V))) (calls : List (String × V × ℕ))
      → AllDense s
      → AllDense (append_all s calls)
  unfolding append_all
  append_all-AllDense s [] h = h
  append_all-AllDense s ((stream, value, now) ∷ calls) h =
      append_all-AllDense (after s (append stream value now s)) calls
        (append-AllDense stream value now s h)

  -- After any history of appends to an empty store the events of each stream carry the numbers
  -- 1, 2, 3, … without a gap.
  pub append_all-IsDense :
      (calls : List (String × V × ℕ)) (stream : String)
      → IsDense 0 (events stream (append_all [] calls))
  unfolding AllDense read_event_file lookup
  append_all-IsDense calls = append_all-AllDense [] calls (λ stream. tt)

  keep_all-dense :
      (n a : ℕ) (es : List (StoredEvent V)) → IsDense n es → a ≤ n → keep (λ e. ltb a e.seq) es ≡ es
  keep_all-dense n a [] h le = refl
  keep_all-dense n a (e ∷ es) h le =
      rw (lt→ltb a e.seq (omega arith), keep_all-dense (suc n) a es h.1 (omega arith))

  keep-dense :
      (n a : ℕ) (es : List (StoredEvent V))
      → IsDense n es
      → n ≤ a
      → keep (λ e. ltb a e.seq) es ≡ drop (a - n) es
  keep-dense n a [] h le = sym (drop-nil (a - n))
  keep-dense n a (e ∷ es) h le = elim (Bool-cases (leb a n)) [
    | inl here ↦ rw (zero_gap (leb→le a n here)) (keep_all-dense n a (e ∷ es) h (leb→le a n here))
    | inr later ↦ rw (open_gap later, passed later) (keep-dense (suc n) a es h.1 (ground arith))
  ]
    where
      zero_gap : a ≤ n → a - n ≡ 0
      zero_gap g = omega arith

      open_gap : leb a n ≡ false → a - n ≡ suc (a - suc n)
      open_gap g = ground arith

      passed : leb a n ≡ false → ltb a e.seq ≡ false
      passed g = ground arith

  -- `seq` of the last event that a reader has, or where it started.
  abbrev pub cursor : ℕ → List (StoredEvent V) → ℕ
  cursor a [] = a
  cursor a (e ∷ es) = last_seq (e ∷ es)

  IsDense-drop : (n m : ℕ) (es : List (StoredEvent V)) → IsDense n es → IsDense (n + m) (drop m es)
  IsDense-drop n zero es h = rw add-zero h
  IsDense-drop n (suc m) [] h = tt
  IsDense-drop n (suc m) (e ∷ es) h =
      subst (λ k. IsDense k (drop m es)) (omega arith) (IsDense-drop (suc n) m es h.1)

  IsDense-take : (n m : ℕ) (es : List (StoredEvent V)) → IsDense n es → IsDense n (take m es)
  IsDense-take n zero es h = tt
  IsDense-take n (suc m) [] h = tt
  IsDense-take n (suc m) (e ∷ es) h = (h.0, IsDense-take (suc n) m es h.1)

  cursor-dense : (a : ℕ) (es : List (StoredEvent V)) → IsDense a es → cursor a es ≡ a + length es
  cursor-dense a [] h = omega arith
  cursor-dense a (e ∷ es) h = last_seq-dense a e es h

  page-dense :
      (a m : ℕ) (es : List (StoredEvent V)) → IsDense 0 es → page a m es ≡ take m (drop a es)
  page-dense a m es h =
      ap (take m) (keep-dense 0 a es h (omega arith) ∙ ap (λ n. drop n es) (sub-zero a))

  -- Two pages read one behind the other are the one long page, where the events carry the numbers 1,
  -- 2, 3, … without a gap.
  pub page-page :
      (a m k : ℕ) (es : List (StoredEvent V))
      → IsDense 0 es
      → page a m es ++ page (cursor a (page a m es)) k es ≡ page a (m + k) es
  page-page a m k es h =
      let ys = drop a es in
      let dense : IsDense a (take m ys) =
        IsDense-take a m ys (subst (λ n. IsDense n ys) (zero-add a) (IsDense-drop 0 a es h)) in
      rw
        (
          page-dense a m es h,
          page-dense a (m + k) es h,
          cursor-dense a (take m ys) dense,
          page-dense (a + length (take m ys)) k es h,
          ← drop-drop a (length (take m ys)) es,
        )
        (take-append-take m k ys)
