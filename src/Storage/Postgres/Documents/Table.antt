-- ===== src/Storage/Postgres/Documents/Table.antt =====
-- What the document store of src/harness/storage/postgres.ts relies on of PostgreSQL: the documented behaviour
-- of its statements on a table with the primary key (namespace, key), while the database answers.
use loomctl.Base.{ℕ, ◌+◌, ◌≡◌, ◌≢◌, String, Option, none, some, List, [], ◌∷◌, if◌then◌else◌}
use loomctl.Base.Directory.{same_path}
use loomctl.Storage.Postgres.{Answer, raised, answered, unique_violation}
use loomctl.Storage.Postgres.Documents.{Row, Statements}

module _ {ℓ} {J : Type ℓ} where
  -- The row that an INSERT writes with the defaults of the columns.
  abbrev pub new_row : String → String → J → ℕ → Row J
  new_row namespace key value now = record {
    namespace = namespace;
    key = key;
    version = 1;
    value = value;
    updated_at = now;
  }

  -- The row that an UPDATE leaves, of a row of that version under that key.
  abbrev pub next_row : String → String → ℕ → J → ℕ → Row J
  next_row namespace key version value now = record {
    namespace = namespace;
    key = key;
    version = version + 1;
    value = value;
    updated_at = now;
  }

abbrev pub rows_of {ℓ} : {A : Type ℓ} → Option A → List A
rows_of none = []
rows_of (some a) = a ∷ []

abbrev pub versions_of {ℓ} : {J : Type ℓ} → Option (Row J) → List ℕ
versions_of none = []
versions_of (some r) = r.version ∷ []

module _ {ℓ κ} {J : Type ℓ} {Db : Type κ} (row : Db → String → String → Option (Row J)) where
  -- The statement answers `a`, puts `o` under the key, and changes no other row.
  abbrev pub Changes {ν} :
      {A : Type ν} → Answer A Db → Db → String → String → Option (Row J) → A → Type (ℓ ⊔ κ ⊔ ν)
  Changes answer db n k o a =
      (db' : Db) × (answer ≡ answered a db')
      × ((n' k' : String) → row db' n' k' ≡ (if same_path n k n' k' then o else row db n' k'))

-- `row` gives the row under a key, where there is one.
pub record IsTable {ℓ κ} {J : Type ℓ} {Db : Type κ} (q : Statements J Db)
    (row : Db → String → String → Option (Row J)) : Type (ℓ ⊔ κ) where
  pub select_rows : (n k : String) (db : Db) → q.select n k db ≡ answered (rows_of (row db n k)) db
  pub select_versions :
      (n k : String) (db : Db) → q.select_version n k db ≡ answered (versions_of (row db n k)) db
  pub insert_new :
      (n k : String) (j : J) (now : ℕ) (db : Db)
      → row db n k ≡ none
      → Changes row
          (q.insert n k j now db)
          db
          n
          k
          (some (new_row n k j now))
          (new_row n k j now ∷ [])
  pub insert_old :
      (n k : String) (j : J) (now : ℕ) (db : Db) (r : Row J)
      → row db n k ≡ some r
      → q.insert n k j now db ≡ raised unique_violation
  pub update_row :
      (n k : String) (j : J) (now : ℕ) (db : Db) (r : Row J)
      → row db n k ≡ some r
      → Changes row
          (q.update n k j r.version now db)
          db
          n
          k
          (some (next_row n k r.version j now))
          (next_row n k r.version j now ∷ [])
  pub update_none :
      (n k : String) (j : J) (v now : ℕ) (db : Db)
      → ((r : Row J) → row db n k ≡ some r → r.version ≢ v)
      → q.update n k j v now db ≡ answered [] db
  pub upsert_new :
      (n k : String) (j : J) (now : ℕ) (db : Db)
      → row db n k ≡ none
      → Changes row
          (q.upsert n k j now db)
          db
          n
          k
          (some (new_row n k j now))
          (new_row n k j now ∷ [])
  pub upsert_old :
      (n k : String) (j : J) (now : ℕ) (db : Db) (r : Row J)
      → row db n k ≡ some r
      → Changes row
          (q.upsert n k j now db)
          db
          n
          k
          (some (next_row n k r.version j now))
          (next_row n k r.version j now ∷ [])
  pub delete_row :
      (n k : String) (db : Db) (r : Row J)
      → row db n k ≡ some r
      → Changes row (q.delete_any n k db) db n k none 1
        × Changes row (q.delete_version n k r.version db) db n k none 1
  pub delete_absent :
      (n k : String) (db : Db) → row db n k ≡ none → q.delete_any n k db ≡ answered 0 db
  pub delete_none :
      (n k : String) (v : ℕ) (db : Db)
      → ((r : Row J) → row db n k ≡ some r → r.version ≢ v)
      → q.delete_version n k v db ≡ answered 0 db
