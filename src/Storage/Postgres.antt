-- ===== src/Storage/Postgres.antt =====
-- src/harness/storage/postgres.ts: the state backend on PostgreSQL. The database is an argument: its state,
-- what its statements answer, and what they do to a table.
pub mod Documents
pub mod Events
use loomctl.Base.{String}

-- What `query` settles to: the error that the database raises, by its code, or an answer and the state
-- after the statement.
pub data Answer {ℓ κ} (A : Type ℓ) (Db : Type κ) : Type (ℓ ⊔ κ) where
  raised : (code : String) → Answer A Db
  answered : (answer : A) → (db : Db) → Answer A Db

abbrev pub unique_violation : String
unique_violation = "23505"
