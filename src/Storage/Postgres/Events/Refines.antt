-- ===== src/Storage/Postgres/Events/Refines.antt =====
-- src/harness/storage/postgres.ts and file.ts: the two event stores answer alike.
use loomctl.Base.{
  ℕ, zero, suc, ◌+◌, ◌≤◌, ◌<◌, ◌≡◌, inl, inr, refl, sym, ap, ◌∙◌, subst, Bool, true, String, List,
  [], ◌∷◌, ◌++◌, ltb, leb, if◌then◌else◌, ◌==◌, eq_iff, take, keep, map, Result, ok, err, invalid,
  settle, after, check, ◌>>◌, arith, Bool-cases,
}
use loomctl.Base.Directory.{insert, lookup-insert}
use loomctl.Storage.Names.{assert_state_name}
use loomctl.Storage.Contracts.{StoredEvent}
use loomctl.Storage.File.Events.{Line, event, lines, last_seq, next_event, page, read_event_file}
use loomctl.Storage.File.Events as File
use loomctl.Storage.File.Events.Sequence.{events, read_event_file-append}
use loomctl.Storage.Postgres.Events.{
  EventRow, EventStatements, event_from_row, append_statements, event_returned, append, selected,
  read,
}
use loomctl.Storage.Postgres.Events.Table.{max_seq, new_event, IsEventTable}
use loomctl.Storage.Postgres.Documents.Refines.{answer_of}

-- The numbers rise, from above `n` on.
abbrev pub Ascending {ℓ} : {J : Type ℓ} → ℕ → List (EventRow J) → Type 0
Ascending n [] = Unit
Ascending n (r ∷ rs) = (n < r.seq) × Ascending r.seq rs

max_seq-above {ℓ} :
    {J : Type ℓ} (n : ℕ) (r : EventRow J) (rs : List (EventRow J))
    → Ascending n (r ∷ rs)
    → n < max_seq (r ∷ rs)
max_seq-above n r rs h = ground arith

module _ {ℓ κ μ} {V : Type ℓ} {J : Type μ} {Db : Type κ} (parsed : J → V)
    (q : EventStatements J Db) where
  max_seq-last :
      (n : ℕ) (rs : List (EventRow J))
      → Ascending n rs
      → max_seq rs ≡ last_seq (map (event_from_row parsed q) rs)
  max_seq-last n [] h = refl
  max_seq-last n (r ∷ []) h = ground arith
  max_seq-last n (r ∷ (r' ∷ rs)) h =
      let above = max_seq-above r.seq r' rs h.1 in
      let last = max_seq-last r.seq (r' ∷ rs) h.1 in ground arith

  Ascending-append :
      (n : ℕ) (rs : List (EventRow J)) (stream : String) (j : J) (now m : ℕ)
      → Ascending n rs
      → n ≤ m
      → max_seq rs ≤ m
      → Ascending n (rs ++ record { stream = stream; seq = m + 1; ts = now; value = j } ∷ [])
  Ascending-append n [] stream j now m h low high = (omega arith, tt)
  Ascending-append n (r ∷ rs) stream j now m h low high =
      (h.0, Ascending-append r.seq rs stream j now m h.1 (ground arith) (ground arith))

  map-append :
      (rs : List (EventRow J)) (r : EventRow J)
      → map (event_from_row parsed q) (rs ++ r ∷ [])
        ≡ map (event_from_row parsed q) rs ++ event_from_row parsed q r ∷ []
  map-append [] r = refl
  map-append (s ∷ rs) r = ap (λ es. event_from_row parsed q s ∷ es) (map-append rs r)

  map-take :
      (n : ℕ) (rs : List (EventRow J))
      → map (event_from_row parsed q) (take n rs) ≡ take n (map (event_from_row parsed q) rs)
  map-take zero rs = refl
  map-take (suc n) [] = refl
  map-take (suc n) (r ∷ rs) = ap (λ es. event_from_row parsed q r ∷ es) (map-take n rs)

  map-keep :
      (after_seq : ℕ) (rs : List (EventRow J))
      → map (event_from_row parsed q) (keep (λ r. ltb after_seq r.seq) rs)
        ≡ keep (λ e. ltb after_seq e.seq) (map (event_from_row parsed q) rs)
  map-keep after_seq [] = refl
  map-keep after_seq (r ∷ rs) = elim (Bool-cases (ltb after_seq r.seq)) [
    | inl above ↦ rw above (ap (λ es. event_from_row parsed q r ∷ es) (map-keep after_seq rs))
    | inr below ↦ rw below (map-keep after_seq rs)
  ]

  map-page :
      (after_seq limit : ℕ) (rs : List (EventRow J))
      → map (event_from_row parsed q) (take limit (keep (λ r. ltb after_seq r.seq) rs))
        ≡ page after_seq limit (map (event_from_row parsed q) rs)
  map-page after_seq limit rs =
      map-take limit (keep (λ r. ltb after_seq r.seq) rs) ∙ ap (take limit) (map-keep after_seq rs)

-- Both checks throw the same error, in either order.
swap_checks {ℓ} :
    {A : Type ℓ} (name : String) (positive : Bool) (answer : Result A)
    → (assert_state_name name >> check positive invalid >> check true invalid >> answer)
      ≡ (check positive invalid >> (assert_state_name name >> answer))
swap_checks name positive answer = ground arith

module _ {ℓ κ μ} {V : Type ℓ} {J : Type μ} {Db : Type κ} (parsed : J → V) (q : EventStatements J Db)
    (rows : Db → String → List (EventRow J)) where
  -- The rows of every stream are the events of its file, and their numbers rise from 1 on.
  pub record Related (db : Db) (s : List (String × List (Line V))) : Type (ℓ ⊔ κ ⊔ μ) where
    pub same : (stream : String) → map (event_from_row parsed q) (rows db stream) ≡ events stream s
    pub ascending : (stream : String) → Ascending 0 (rows db stream)

  -- A call on the table answers as the call on the files, and leaves a table that holds what that call
  -- leaves in the files.
  abbrev pub Agrees {ν} :
      {A : Type ν}
      → Result A × Db
      → List (String × List (Line V))
      → Result (A × List (String × List (Line V)))
      → Type (ℓ ⊔ κ ⊔ μ ⊔ ν)
  Agrees got s expected = (got.0 ≡ answer_of expected) × Related got.1 (after s expected)

  guarded-Agrees :
      (guard : Result (Unit {0})) (got : Result (StoredEvent V) × Db) (db : Db)
      (s : List (String × List (Line V)))
      (expected : Result (StoredEvent V × List (String × List (Line V))))
      → Related db s
      → Agrees got s expected
      → Agrees (settle (λ reason. (err reason, db)) (λ _. got) guard) s (guard >> expected)
  guarded-Agrees (err reason) got db s expected rel agrees = (refl, rel)
  guarded-Agrees (ok u) got db s expected rel agrees = agrees

module _ {ℓ κ μ} {V : Type ℓ} {J : Type μ} {Db : Type κ} (parsed : J → V) (stringify : V → J)
    (round : (v : V) → parsed (stringify v) ≡ v) (q : EventStatements J Db)
    (rows : Db → String → List (EventRow J)) (table : IsEventTable q rows) where
  new-next :
      (stream : String) (v : V) (now : ℕ) (db : Db) (s : List (String × List (Line V)))
      → Related parsed q rows db s
      → event_from_row parsed q (new_event stream (stringify v) now (rows db stream))
        ≡ next_event stream v now (lines stream s)
  new-next stream v now db s rel =
      let last : max_seq (rows db stream) ≡ last_seq (events stream s) =
        max_seq-last parsed q 0 (rows db stream) (rel.ascending stream)
        ∙ ap last_seq (rel.same stream) in
      ground (arith, round v)

  appended-Related :
      (stream : String) (v : V) (now : ℕ) (db db' : Db) (s : List (String × List (Line V)))
      → Related parsed q rows db s
      → ((other : String)
          → rows db' other ≡ (
              if stream == other
              then rows db stream ++ new_event stream (stringify v) now (rows db stream) ∷ []
              else rows db other))
      → Related parsed q rows db' (
          insert stream (lines stream s ++ event (next_event stream v now (lines stream s)) ∷ []) s)
  appended-Related stream v now db db' s rel changed =
      let row = new_event stream (stringify v) now (rows db stream) in
      let next = next_event stream v now (lines stream s) in
      record {
        same = λ other. ground (
          arith,
          changed other,
          eq_iff stream other,
          lookup-insert stream other (lines stream s ++ event next ∷ []) s,
          read_event_file-append stream (lines stream s) next refl (omega arith),
          map-append parsed q (rows db stream) row,
          new-next stream v now db s rel,
          rel.same stream,
          rel.same other,
        );
        ascending = λ other.
            let longer =
              Ascending-append parsed q 0 (rows db stream) stream (stringify v) now
                (max_seq (rows db stream)) (rel.ascending stream) (omega arith) (omega arith) in
            let there = rel.ascending other in
            elim (Bool-cases (stream == other)) [
              | inl e ↦ subst (Ascending 0) (sym (changed other ∙ (rw e refl))) longer
              | inr e ↦ subst (Ascending 0) (sym (changed other ∙ (rw e refl))) there
            ];
      }

  append_event-Agrees :
      (stream : String) (v : V) (now : ℕ) (db : Db) (s : List (String × List (Line V)))
      → Related parsed q rows db s
      → Agrees parsed q rows
          (event_returned parsed q db (append_statements parsed q stream (stringify v) now db))
          s
          (let e = next_event stream v now (lines stream s) in
            ok (e, insert stream (lines stream s ++ event e ∷ []) s))
  unfolding append_statements event_returned
  append_event-Agrees stream v now db s rel =
      let (db', inserts, changed) = table.inserts stream (stringify v) now db in
      let is_next = new-next stream v now db s rel in
      let rel' = appended-Related stream v now db db' s rel changed in
      rw (table.starts db, table.locks stream db, inserts, table.commits db') (ap ok is_next, rel')

  -- While the table and the files hold the same events, an append on PostgreSQL answers as an append of the
  -- file store at the same time, errors included, and they hold the same events after it; a read answers
  -- alike too, where its limit is at most 100000.
  pub append_read_refine :
      (stream : String) (v : V) (now : ℕ) (db : Db) (s : List (String × List (Line V)))
      → Related parsed q rows db s
      → Agrees parsed q rows
          (append parsed q stringify stream v now db)
          s
          (File.append stream v now s)
        × ((after_seq limit : ℕ)
            → limit ≤ 100000
            → read parsed q stream after_seq limit db ≡ File.read stream after_seq limit s)
  unfolding append read selected File.append File.read
  append_read_refine stream v now db s rel = (
    guarded-Agrees parsed q rows (assert_state_name stream) _ db s _ rel
        (append_event-Agrees stream v now db s rel),
    λ after_seq limit small.
        let low : leb limit 100000 ≡ true = ground arith in
        let pages =
          map-page parsed q after_seq limit (rows db stream)
          ∙ ap (page after_seq limit) (rel.same stream) in
        rw (low, table.selects stream after_seq limit db, pages)
          (swap_checks stream (leb 1 limit) _),
  )
