-- ===== src/Storage/Postgres/Events/Table.antt =====
-- What the event store of src/harness/storage/postgres.ts relies on of PostgreSQL: the documented behaviour of
-- its statements, while the database answers. The advisory lock keeps other appends to the stream out until
-- the transaction ends.
use loomctl.Base.{ℕ, ◌+◌, ◌≡◌, String, List, [], ◌∷◌, ◌++◌, ltb, if◌then◌else◌, ◌==◌, take, keep}
use loomctl.Storage.Postgres.{answered}
use loomctl.Storage.Postgres.Events.{EventRow, EventStatements}

-- `COALESCE(MAX(seq), 0)`
abbrev pub max_seq {ℓ} : {J : Type ℓ} → List (EventRow J) → ℕ
max_seq [] = 0
max_seq (r ∷ rs) = let rest = max_seq rs in if ltb rest r.seq then r.seq else rest

abbrev pub new_event {ℓ} : {J : Type ℓ} → String → J → ℕ → List (EventRow J) → EventRow J
new_event stream value now rows = record {
  stream = stream;
  seq = max_seq rows + 1;
  ts = now;
  value = value;
}

-- `rows` gives the rows of a stream, in ascending order of `seq`.
pub record IsEventTable {ℓ κ} {J : Type ℓ} {Db : Type κ} (q : EventStatements J Db)
    (rows : Db → String → List (EventRow J)) : Type (ℓ ⊔ κ) where
  pub starts : (db : Db) → q.start db ≡ answered tt db
  pub locks : (stream : String) (db : Db) → q.lock stream db ≡ answered tt db
  pub commits : (db : Db) → q.commit db ≡ answered tt db
  pub inserts :
      (stream : String) (j : J) (now : ℕ) (db : Db)
      → (db' : Db) × (q.insert_next stream j now db
          ≡ answered (new_event stream j now (rows db stream) ∷ []) db')
        × ((other : String)
            → rows db' other ≡ (
                if stream == other
                then rows db stream ++ new_event stream j now (rows db stream) ∷ []
                else rows db other))
  pub selects :
      (stream : String) (after_seq limit : ℕ) (db : Db)
      → q.select_after stream after_seq limit db
        ≡ answered (take limit (keep (λ r. ltb after_seq r.seq) (rows db stream))) db
