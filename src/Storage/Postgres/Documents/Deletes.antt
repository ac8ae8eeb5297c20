-- ===== src/Storage/Postgres/Documents/Deletes.antt =====
-- src/harness/storage/postgres.ts and file.ts: a delete of two statements, with other clients in between.
use loomctl.Base.{
  ℕ, zero, suc, ◌≡◌, ◌≢◌, ◌⊎◌, inl, inr, refl, Bool, true, false, String, Option, none, some, eqb,
  Result, ok, err, conflict, settle, after, check, ◌>>◌, arith, Option-cases, Bool-cases, eqb_iff,
}
use loomctl.Base.Directory.{Tree, read}
use loomctl.Storage.Contracts.{StoredDocument}
use loomctl.Storage.File.Documents.{document_path, version_of, expects, remove}
use loomctl.Storage.File.Documents as File
use loomctl.Storage.Postgres.{Answer, answered}
use loomctl.Storage.Postgres.Documents.{
  Row, Statements, document_from_row, delete_statement, second_look, counted, delete,
}
use loomctl.Storage.Postgres.Documents.Table.{versions_of, Changes, IsTable}
use loomctl.Storage.Postgres.Documents.Refines.{answer_of, Related, Agrees, unlink-Related}

module _ {ℓ κ μ} {V : Type ℓ} {J : Type μ} {Db : Type κ} (parsed : J → V) (q : Statements J Db)
    (row : Db → String → String → Option (Row J)) where
  -- The call answers as `call` at `t`, which changes nothing, and leaves what `u` stands for.
  abbrev Silent :
      Result Bool × Db
      → (Tree (StoredDocument V) → Result (Bool × Tree (StoredDocument V)))
      → Tree (StoredDocument V)
      → Tree (StoredDocument V)
      → Type (ℓ ⊔ κ ⊔ μ)
  Silent got call t u =
      (got.0 ≡ answer_of (call t)) × (after t (call t) ≡ t) × Related parsed q row got.1 u

  -- The call takes effect at one moment: as `call` at `t`, or, changing nothing, at `t` or later at `u`.
  abbrev pub TakesEffect :
      Result Bool × Db
      → (Tree (StoredDocument V) → Result (Bool × Tree (StoredDocument V)))
      → Tree (StoredDocument V)
      → Tree (StoredDocument V)
      → Type (ℓ ⊔ κ ⊔ μ)
  TakesEffect got call t u =
      Agrees parsed q row got t (call t) ⊎ (Silent got call t u ⊎ Silent got call u u)

  guarded-TakesEffect :
      (guard : Result (Unit {0})) (got : Result Bool × Db) (db : Db)
      (call : Tree (StoredDocument V) → Result (Bool × Tree (StoredDocument V)))
      (t u : Tree (StoredDocument V))
      → Related parsed q row db t
      → TakesEffect got call t u
      → TakesEffect
          (settle (λ reason. (err reason, db)) (λ _. got) guard)
          (λ t'. guard >> call t')
          t
          u
  guarded-TakesEffect (err reason) got db call t u rel effect = inl (refl, rel)
  guarded-TakesEffect (ok a) got db call t u rel effect = effect

module _ {ℓ κ μ} {V : Type ℓ} {J : Type μ} {Db : Type κ} (parsed : J → V) (q : Statements J Db)
    (row : Db → String → String → Option (Row J)) (table : IsTable q row) where
  -- What the file store does behind the check of the names.
  abbrev removal :
      String → String → Option ℕ → Tree (StoredDocument V) → Result (Bool × Tree (StoredDocument V))
  removal n k e t = check (expects (read n k t) e) conflict >> ok (remove n k (read n k t) t)

  deleted :
      (n k : String) (e : Option ℕ) (others : Db → Db) (db : Db) (t : Tree (StoredDocument V))
      (r : Row J) (answer : Answer ℕ Db)
      → Related parsed q row db t
      → row db n k ≡ some r
      → expects (read n k t) e ≡ true
      → Changes row answer db n k none 1
      → Agrees parsed q row (counted q n k e others db answer) t (removal n k e t)
  unfolding counted remove
  deleted n k e others db t r answer rel present met (db', is_answer, changed) =
      let there : read n k t ≡ some (document_from_row parsed q r) =
        (let same = rel.same n k in ground (arith, present)) in
      let rel' = unlink-Related parsed q row n k db db' t rel changed in
      rw (is_answer, met, there) (refl, rel')

  -- The second look finds what the file store finds at that moment, where version 0 is expected.
  second_look-Silent :
      (n k : String) (db : Db) (u : Tree (StoredDocument V))
      → Related parsed q row db u
      → Silent parsed q row
          (second_look q 0 db (answered (versions_of (row db n k)) db))
          (removal n k (some 0))
          u
          u
  unfolding second_look remove
  second_look-Silent n k db u rel = elim (Option-cases (row db n k)) [
    | inl absent ↦
        let there : read n k u ≡ none = (let same = rel.same n k in ground (arith, absent)) in
        rw (absent, there) (refl, refl, rel)
    | inr (r, present) ↦
        let there : read n k u ≡ some (document_from_row parsed q r) =
          (let same = rel.same n k in ground (arith, present)) in
        let unmet : expects (read n k u) (some 0) ≡ false =
          (let positive = rel.versions n k (document_from_row parsed q r) there in
            ground (arith, there)) in
        rw (present, unmet) (refl, refl, rel)
  ]

  -- A delete of version `v` that has found no row of that version.
  missed :
      (n k : String) (v : ℕ) (others : Db → Db) (db : Db) (t u : Tree (StoredDocument V))
      → Related parsed q row (others db) u
      → expects (read n k t) (some v) ≡ false ⊎ (v ≡ 0)
      → TakesEffect parsed q row
          (second_look q v (others db) (answered (versions_of (row (others db) n k)) (others db)))
          (removal n k (some v))
          t
          u
  unfolding second_look
  missed n k zero others db t u later why = inr (inr (second_look-Silent n k (others db) u later))
  missed n k (suc m) others db t u later (inr is_zero) = cc
  missed n k (suc m) others db t u later (inl unmet) = elim (Option-cases (row (others db) n k)) [
    | inl absent ↦
        let other : eqb (suc m) 0 ≡ false = ground arith in
        inr (inl (rw (unmet, absent, other) (refl, refl, later)))
    | inr (r, present) ↦ inr (inl (rw (unmet, present) (refl, refl, later)))
  ]

  counted-TakesEffect :
      (n k : String) (e : Option ℕ) (others : Db → Db) (db : Db) (t u : Tree (StoredDocument V))
      → Related parsed q row db t
      → Related parsed q row (others db) u
      → TakesEffect parsed q row
          (counted q n k e others db (delete_statement q n k e db))
          (removal n k e)
          t
          u
  unfolding delete_statement counted remove
  counted-TakesEffect n k none others db t u rel later = elim (Option-cases (row db n k)) [
    | inl absent ↦ inl (none_there absent)
    | inr (r, present) ↦ inl (
        deleted n k none others db t r (q.delete_any n k db) rel present refl
          (table.delete_row n k db r present).0)
  ]
    where
      none_there :
          row db n k ≡ none
          → Agrees parsed q row
              (counted q n k none others db (q.delete_any n k db))
              t
              (removal n k none t)
      none_there absent =
          let there : read n k t ≡ none = (let same = rel.same n k in ground (arith, absent)) in
          rw (table.delete_absent n k db absent, there) (refl, rel)
  counted-TakesEffect n k (some v) others db t u rel later = elim (Option-cases (row db n k)) [
    | inl absent ↦ none_of (λ r present. cc (absent, present)) (unmet_absent absent)
    | inr (r, present) ↦ elim (Bool-cases (eqb r.version v)) [
      | inl same ↦ inl (
          deleted n k (some v) others db t r (q.delete_version n k v db) rel present
            (let there = rel.same n k in ground (arith, present))
            (rw (← (eqb_iff r.version v).0 same) (table.delete_row n k db r present).1))
      | inr other ↦
          none_of (λ r' present' e. ground (arith, present, present'))
            (inl (let there = rel.same n k in ground (arith, present)))
    ]
  ]
    where
      unmet_absent : row db n k ≡ none → expects (read n k t) (some v) ≡ false ⊎ (v ≡ 0)
      unmet_absent absent = elim (Bool-cases (eqb v 0)) [
        | inl z ↦ inr ((eqb_iff v 0).0 z)
        | inr z ↦ inl (let there = rel.same n k in ground (arith, absent))
      ]

      none_of :
          ((r : Row J) → row db n k ≡ some r → r.version ≢ v)
          → expects (read n k t) (some v) ≡ false ⊎ (v ≡ 0)
          → TakesEffect parsed q row
              (counted q n k (some v) others db (q.delete_version n k v db))
              (removal n k (some v))
              t
              u
      none_of differs why =
          rw (table.delete_none n k v db differs, table.select_versions n k (others db))
            (missed n k v others db t u later why)

  -- While the table holds the documents of the directory `t`, and the documents of `u` after what the
  -- other clients do between its two statements, a delete on PostgreSQL takes effect at one moment: it
  -- answers and leaves what a delete of the file store does at `t`, or, where that changes nothing, it
  -- answers as the file store at `t` or at `u`, and leaves what the others have made.
  pub delete_refines :
      (n k : String) (e : Option ℕ) (others : Db → Db) (db : Db) (t u : Tree (StoredDocument V))
      → Related parsed q row db t
      → Related parsed q row (others db) u
      → TakesEffect parsed q row (delete q n k e others db) (File.delete n k e) t u
  unfolding delete File.delete
  delete_refines n k e others db t u rel later =
      guarded-TakesEffect parsed q row (document_path n k) _ db (removal n k e) t u rel
        (counted-TakesEffect n k e others db t u rel later)
