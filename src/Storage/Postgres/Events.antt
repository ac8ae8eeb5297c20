-- ===== src/Storage/Postgres/Events.antt =====
-- createPostgresEventStore of src/harness/storage/postgres.ts: numbered events in a table. The statements of
-- a transaction are calls one after the other; what a transaction has done that is rolled back is gone.
pub mod Table
pub mod Refines
mod Tests
use loomctl.Base.{
  ℕ, ◌≡◌, String, List, [], ◌∷◌, leb, map, Result, ok, err, invalid, unavailable, settle, check,
  ◌>>◌,
}
use loomctl.Storage.Names.{assert_state_name}
use loomctl.Storage.Contracts.{StoredEvent}
use loomctl.Storage.Postgres.{Answer, raised, answered}

-- A row of the table `events`.
pub record EventRow {ℓ} (J : Type ℓ) : Type ℓ where
  pub stream : String
  pub seq : ℕ
  pub ts : ℕ
  pub value : J

-- The statements of the store, with their parameters, the time, and the state of the database.
pub record EventStatements {ℓ κ} (J : Type ℓ) (Db : Type κ) : Type (ℓ ⊔ κ) where
  pub start : Db → Answer (Unit {0}) Db
  pub lock : String → Db → Answer (Unit {0}) Db
  pub insert_next : String → J → ℕ → Db → Answer (List (EventRow J)) Db
  pub commit : Db → Answer (Unit {0}) Db
  pub select_after : String → ℕ → ℕ → Db → Answer (List (EventRow J)) Db

-- The next statement of a transaction, where the one before has not raised an error.
abbrev pub and_then {ℓ κ μ} :
    {A : Type ℓ} {B : Type κ} {Db : Type μ} → Answer A Db → (A → Db → Answer B Db) → Answer B Db
and_then (raised code) rest = raised code
and_then (answered a db) rest = rest a db

module _ {ℓ κ μ} {V : Type ℓ} {J : Type μ} {Db : Type κ} (parsed : J → V)
    (q : EventStatements J Db) where
  abbrev pub event_from_row : EventRow J → StoredEvent V
  event_from_row row = record {
    stream = row.stream;
    seq = row.seq;
    ts = row.ts;
    value = parsed row.value;
  }

  -- The statements between the `try` and the `return` of `append`.
  unfoldable pub append_statements : String → J → ℕ → Db → Answer (List (EventRow J)) Db
  append_statements stream value now db = and_then (q.start db) (λ _ begun.
      and_then (q.lock stream begun) (λ _ locked.
        and_then (q.insert_next stream value now locked)
          (λ rows inserted. and_then (q.commit inserted) (λ _ committed. answered rows committed))))

  -- The `return` of `append` and its catch, which rolls back.
  unfoldable pub event_returned : Db → Answer (List (EventRow J)) Db → Result (StoredEvent V) × Db
  event_returned db (raised code) = (err unavailable, db)
  event_returned db (answered [] db') = (err unavailable, db')
  event_returned db (answered (row ∷ rows) db') = (ok (event_from_row row), db')

  unfoldable pub append : (V → J) → String → V → ℕ → Db → Result (StoredEvent V) × Db
  append stringify stream value now db =
      settle (λ reason. (err reason, db))
        (λ _. event_returned db (append_statements stream (stringify value) now db))
        (assert_state_name stream)

  unfoldable pub selected : Answer (List (EventRow J)) Db → Result (List (StoredEvent V))
  selected (raised code) = err unavailable
  selected (answered rows db) = ok (map event_from_row rows)

  unfoldable pub read : String → ℕ → ℕ → Db → Result (List (StoredEvent V))
  read stream after_seq limit db =
      assert_state_name stream
      >> check (leb 1 limit) invalid
      >> check (leb limit 100000) invalid
      >> selected (q.select_after stream after_seq limit db)
