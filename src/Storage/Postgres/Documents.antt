-- ===== src/Storage/Postgres/Documents.antt =====
-- createPostgresDocumentStore of src/harness/storage/postgres.ts: the documents in a table. Each statement is
-- one step of the database. The time of a statement, NOW(), is an argument.
pub mod Table
pub mod Refines
pub mod Deletes
mod Tests
use loomctl.Base.{
  ℕ, ◌+◌, zero, suc, Bool, true, false, not, ◌||◌, String, Option, none, some, List, [], ◌∷◌, ltb,
  eqb, ◌==◌, if◌then◌else◌, Result, ok, err, conflict, unavailable, settle, ◌>>◌,
}
use loomctl.Storage.Names.{assert_state_name}
use loomctl.Storage.Contracts.{StoredDocument}
use loomctl.Storage.Postgres.{Answer, raised, answered, unique_violation}

-- A row of the table `documents`, its value as the database keeps it.
pub record Row {ℓ} (J : Type ℓ) : Type ℓ where
  pub namespace : String
  pub key : String
  pub version : ℕ
  pub value : J
  pub updated_at : ℕ

-- The statements of the store, with their parameters, the time, and the state of the database.
pub record Statements {ℓ κ} (J : Type ℓ) (Db : Type κ) : Type (ℓ ⊔ κ) where
  pub select : String → String → Db → Answer (List (Row J)) Db
  pub select_version : String → String → Db → Answer (List ℕ) Db
  pub insert : String → String → J → ℕ → Db → Answer (List (Row J)) Db
  pub update : String → String → J → ℕ → ℕ → Db → Answer (List (Row J)) Db
  pub upsert : String → String → J → ℕ → Db → Answer (List (Row J)) Db
  pub delete_any : String → String → Db → Answer ℕ Db
  pub delete_version : String → String → ℕ → Db → Answer ℕ Db

abbrev pub validate_document_key : String → String → Result (Unit {0})
validate_document_key namespace key = assert_state_name namespace >> assert_state_name key

module _ {ℓ κ μ} {V : Type ℓ} {J : Type μ} {Db : Type κ} (parsed : J → V)
    (q : Statements J Db) where
  abbrev pub document_from_row : Row J → StoredDocument V
  document_from_row row = record {
    namespace = row.namespace;
    key = row.key;
    version = row.version;
    value = parsed row.value;
    updated_at = row.updated_at;
  }

  unfoldable pub first_document : Answer (List (Row J)) Db → Result (Option (StoredDocument V))
  first_document (raised code) = err unavailable
  first_document (answered [] db) = ok none
  first_document (answered (row ∷ rows) db) = ok (some (document_from_row row))

  unfoldable pub get : String → String → Db → Result (Option (StoredDocument V))
  unfolding first_document
  get namespace key db =
      validate_document_key namespace key >> first_document (q.select namespace key db)

  -- What `put` makes of the answer of a statement, where `missing` is thrown for an answer without
  -- rows, and its catch of what is raised.
  unfoldable pub returned :
      Result (StoredDocument V) → Db → Answer (List (Row J)) Db → Result (StoredDocument V) × Db
  returned missing db (raised code) =
      (err (if code == unique_violation then conflict else unavailable), db)
  returned missing db (answered [] db') = (missing, db')
  returned missing db (answered (row ∷ rows) db') = (ok (document_from_row row), db')

  -- The three statements of `put`, for an expected version of 0, another one, and none.
  unfoldable pub put_statement :
      String → String → J → Option ℕ → ℕ → Db → Result (StoredDocument V) × Db
  put_statement namespace key value (some zero) now db =
      returned (err unavailable) db (q.insert namespace key value now db)
  put_statement namespace key value (some (suc n)) now db =
      returned (err conflict) db (q.update namespace key value (suc n) now db)
  put_statement namespace key value none now db =
      returned (err unavailable) db (q.upsert namespace key value now db)

  unfoldable pub put :
      (V → J) → String → String → V → Option ℕ → ℕ → Db → Result (StoredDocument V) × Db
  put stringify namespace key value expected now db =
      settle (λ reason. (err reason, db))
        (λ _. put_statement namespace key (stringify value) expected now db)
        (validate_document_key namespace key)

module _ {ℓ κ} {J : Type ℓ} {Db : Type κ} (q : Statements J Db) where
  unfoldable pub delete_statement : String → String → Option ℕ → Db → Answer ℕ Db
  delete_statement namespace key none db = q.delete_any namespace key db
  delete_statement namespace key (some expected) db = q.delete_version namespace key expected db

  -- The second look of `delete`, where no row had the expected version.
  unfoldable pub second_look : ℕ → Db → Answer (List ℕ) Db → Result Bool × Db
  second_look expected db (raised code) = (err unavailable, db)
  second_look expected db (answered (version ∷ versions) db') = (err conflict, db')
  second_look expected db (answered [] db') =
      if eqb expected 0 then (ok false, db') else (err conflict, db')

  -- The rest of `delete`, from the number of rows that the first statement has deleted. Between the two
  -- statements the others may change the database.
  unfoldable pub counted :
      String → String → Option ℕ → (Db → Db) → Db → Answer ℕ Db → Result Bool × Db
  counted namespace key expected others db (raised code) = (err unavailable, db)
  counted namespace key expected others db (answered (suc n) db') = (ok true, db')
  counted namespace key none others db (answered zero db') = (ok false, db')
  counted namespace key (some expected) others db (answered zero db') =
      second_look expected (others db') (q.select_version namespace key (others db'))

  unfoldable pub delete : String → String → Option ℕ → (Db → Db) → Db → Result Bool × Db
  delete namespace key expected others db =
      settle (λ reason. (err reason, db))
        (λ _. counted namespace key expected others db (delete_statement namespace key expected db))
        (validate_document_key namespace key)
