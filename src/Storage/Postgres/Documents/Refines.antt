-- ===== src/Storage/Postgres/Documents/Refines.antt =====
-- src/harness/storage/postgres.ts and file.ts: the two document stores answer alike.
use loomctl.Base.{
  ℕ, zero, suc, ◌≤◌, ◌≡◌, inl, inr, refl, ap, true, false, String, Option, none, some, List, [],
  ◌∷◌, eqb, if◌then◌else◌, Result, ok, err, conflict, settle, after, check, ◌>>◌, arith,
  Option-cases, Bool-cases, eqb_iff,
}
use loomctl.Base.Directory.{Tree, read, write, unlink, same_path, read-write, read-unlink}
use loomctl.Storage.Contracts.{StoredDocument}
use loomctl.Storage.File.Documents.{document_path, version_of, expects, next_document, remove}
use loomctl.Storage.File.Documents as File
use loomctl.Storage.Postgres.{Answer}
use loomctl.Storage.Postgres.Documents.{
  Row, Statements, document_from_row, get, first_document, returned, put_statement, put,
}
use loomctl.Storage.Postgres.Documents.Table.{new_row, next_row, Changes, IsTable}

-- What a call of the file store settles to, without its state.
abbrev pub answer_of {ℓ κ} : {A : Type ℓ} {S : Type κ} → Result (A × S) → Result A
answer_of (err reason) = err reason
answer_of (ok answer) = ok answer.0

module _ {ℓ κ μ} {V : Type ℓ} {J : Type μ} {Db : Type κ} (parsed : J → V) (q : Statements J Db)
    (row : Db → String → String → Option (Row J)) where
  abbrev pub document_at : Option (Row J) → Option (StoredDocument V)
  document_at none = none
  document_at (some r) = some (document_from_row parsed q r)

  -- The table holds the documents of the directory, and every version is at least 1.
  pub record Related (db : Db) (t : Tree (StoredDocument V)) : Type (ℓ ⊔ κ ⊔ μ) where
    pub same : (n k : String) → document_at (row db n k) ≡ read n k t
    pub versions : (n k : String) (d : StoredDocument V) → read n k t ≡ some d → 1 ≤ d.version

  -- A call on the table answers as the call on the directory, and leaves a table that holds what that
  -- call leaves in the directory.
  abbrev pub Agrees {ν} :
      {A : Type ν}
      → Result A × Db
      → Tree (StoredDocument V)
      → Result (A × Tree (StoredDocument V))
      → Type (ℓ ⊔ κ ⊔ μ ⊔ ν)
  Agrees got t expected = (got.0 ≡ answer_of expected) × Related got.1 (after t expected)

  guarded-Agrees {ν} :
      {A : Type ν} (guard : Result (Unit {0})) (got : Result A × Db) (db : Db)
      (t : Tree (StoredDocument V)) (expected : Result (A × Tree (StoredDocument V)))
      → Related db t
      → Agrees got t expected
      → Agrees (settle (λ reason. (err reason, db)) (λ _. got) guard) t (guard >> expected)
  guarded-Agrees (err reason) got db t expected rel agrees = (refl, rel)
  guarded-Agrees (ok u) got db t expected rel agrees = agrees

  write-Related :
      (n k : String) (r : Row J) (d : StoredDocument V) (db db' : Db) (t : Tree (StoredDocument V))
      → Related db t
      → document_from_row parsed q r ≡ d
      → 1 ≤ d.version
      → ((n' k' : String) → row db' n' k' ≡ (if same_path n k n' k' then some r else row db n' k'))
      → Related db' (write n k d t)
  write-Related n k r d db db' t rel is_d positive changed = record {
    same = λ n' k'. ground (arith, changed n' k', read-write n k n' k' d t, rel.same n' k', is_d);
    versions =
        λ n' k' d' h. ground (arith, read-write n k n' k' d t, rel.versions n' k' d', positive);
  }

  pub unlink-Related :
      (n k : String) (db db' : Db) (t : Tree (StoredDocument V))
      → Related db t
      → ((n' k' : String) → row db' n' k' ≡ (if same_path n k n' k' then none else row db n' k'))
      → Related db' (unlink n k t)
  unlink-Related n k db db' t rel changed = record {
    same = λ n' k'. ground (arith, changed n' k', read-unlink n k n' k' t, rel.same n' k');
    versions = λ n' k' d' h. ground (arith, read-unlink n k n' k' t, rel.versions n' k' d');
  }

module _ {ℓ κ μ} {V : Type ℓ} {J : Type μ} {Db : Type κ} (parsed : J → V) (stringify : V → J)
    (round : (v : V) → parsed (stringify v) ≡ v) (q : Statements J Db)
    (row : Db → String → String → Option (Row J)) (table : IsTable q row) where
  -- A statement that has written the next document of `n` and `k`.
  written :
      (n k : String) (v : V) (now : ℕ) (db : Db) (t : Tree (StoredDocument V)) (r : Row J)
      (missing : Result (StoredDocument V)) (answer : Answer (List (Row J)) Db)
      → Related parsed q row db t
      → document_from_row parsed q r ≡ next_document n k v now (read n k t)
      → Changes row answer db n k (some r) (r ∷ [])
      → Agrees parsed q row
          (returned parsed q missing db answer)
          t
          (let next = next_document n k v now (read n k t) in ok (next, write n k next t))
  unfolding returned
  written n k v now db t r missing answer rel is_next (db', is_answer, changed) = rw is_answer (
    ap ok is_next,
    write-Related parsed q row n k r (next_document n k v now (read n k t)) db db' t rel is_next
        (omega arith) changed,
  )

  first_next :
      (n k : String) (v : V) (now : ℕ) (db : Db) (t : Tree (StoredDocument V))
      → Related parsed q row db t
      → row db n k ≡ none
      → document_from_row parsed q (new_row n k (stringify v) now)
        ≡ next_document n k v now (read n k t)
  first_next n k v now db t rel absent = let there = rel.same n k in ground (arith, round v, absent)

  later_next :
      (n k : String) (v : V) (now : ℕ) (db : Db) (t : Tree (StoredDocument V)) (r : Row J)
      → Related parsed q row db t
      → row db n k ≡ some r
      → document_from_row parsed q (next_row n k r.version (stringify v) now)
        ≡ next_document n k v now (read n k t)
  later_next n k v now db t r rel present =
      let there = rel.same n k in ground (arith, round v, present)

  put_statement-Agrees :
      (n k : String) (v : V) (e : Option ℕ) (now : ℕ) (db : Db) (t : Tree (StoredDocument V))
      → Related parsed q row db t
      → Agrees parsed q row (put_statement parsed q n k (stringify v) e now db) t (
          let next = next_document n k v now (read n k t) in
          check (expects (read n k t) e) conflict >> ok (next, write n k next t))
  unfolding put_statement returned
  put_statement-Agrees n k v (some zero) now db t rel = elim (Option-cases (row db n k)) [
    | inl absent ↦
        let met : expects (read n k t) (some 0) ≡ true =
          (let there = rel.same n k in ground (arith, absent)) in
        rw met (
          written n k v now db t (new_row n k (stringify v) now) _ _ rel
            (first_next n k v now db t rel absent)
            (table.insert_new n k (stringify v) now db absent))
    | inr (r, present) ↦
        let unmet : expects (read n k t) (some 0) ≡ false =
          (let there = rel.same n k in
            let positive = rel.versions n k (document_from_row parsed q r) in
            ground (arith, present)) in
        rw (unmet, table.insert_old n k (stringify v) now db r present) (refl, rel)
  ]
  put_statement-Agrees n k v (some (suc m)) now db t rel = elim (Option-cases (row db n k)) [
    | inl absent ↦
        let unmet : expects (read n k t) (some (suc m)) ≡ false =
          (let there = rel.same n k in ground (arith, absent)) in
        rw
          (
            unmet,
            table.update_none n k (stringify v) (suc m) now db (λ r present. cc (absent, present)),
          )
          (refl, rel)
    | inr (r, present) ↦ elim (Bool-cases (eqb r.version (suc m))) [
      | inl same ↦
          let met : expects (read n k t) (some (suc m)) ≡ true =
            (let there = rel.same n k in ground (arith, present)) in
          rw met (
            written n k v now db t (next_row n k r.version (stringify v) now) (err conflict)
              (q.update n k (stringify v) (suc m) now db) rel
              (later_next n k v now db t r rel present)
              (rw (← (eqb_iff r.version (suc m)).0 same)
                (table.update_row n k (stringify v) now db r present)))
      | inr other ↦
          let unmet : expects (read n k t) (some (suc m)) ≡ false =
            (let there = rel.same n k in ground (arith, present)) in
          rw
            (
              unmet,
              table.update_none n k (stringify v) (suc m) now db
                  (λ r' present' e. ground (arith, present, present')),
            )
            (refl, rel)
    ]
  ]
  put_statement-Agrees n k v none now db t rel = elim (Option-cases (row db n k)) [
    | inl absent ↦
        written n k v now db t (new_row n k (stringify v) now) _ _ rel
          (first_next n k v now db t rel absent) (table.upsert_new n k (stringify v) now db absent)
    | inr (r, present) ↦
        written n k v now db t (next_row n k r.version (stringify v) now) _ _ rel
          (later_next n k v now db t r rel present)
          (table.upsert_old n k (stringify v) now db r present)
  ]

  -- While the table and the directory hold the same documents, a put on PostgreSQL answers as a put of the
  -- file store at the same time, errors included, and they hold the same documents after it.
  pub put_refines :
      (n k : String) (v : V) (e : Option ℕ) (now : ℕ) (db : Db) (t : Tree (StoredDocument V))
      → Related parsed q row db t
      → Agrees parsed q row (put parsed q stringify n k v e now db) t (File.put n k v e now t)
  unfolding put File.put
  put_refines n k v e now db t rel =
      guarded-Agrees parsed q row (document_path n k) _ db t _ rel
        (put_statement-Agrees n k v e now db t rel)

  -- A get on PostgreSQL answers as a get of the file store, errors included.
  get_refines :
      (n k : String) (db : Db) (t : Tree (StoredDocument V))
      → Related parsed q row db t
      → get parsed q n k db ≡ File.get n k t
  unfolding get first_document File.get
  get_refines n k db t rel = elim (Option-cases (row db n k)) [
    | inl absent ↦
        let there : read n k t ≡ none = (let same = rel.same n k in ground (arith, absent)) in
        rw (table.select_rows n k db, absent, there) refl
    | inr (r, present) ↦
        let there : read n k t ≡ some (document_from_row parsed q r) =
          (let same = rel.same n k in ground (arith, present)) in
        rw (table.select_rows n k db, present, there) refl
  ]
