-- ===== src/Storage/Postgres/Events/Tests.antt =====
-- A table of events in memory, and the theorem about the store at it.
use loomctl.Base.{
  ℕ, ◌≤◌, ◌≡◌, refl, none, some, String, List, [], ◌∷◌, ◌++◌, ltb, take, keep, ok, after, arith,
  if◌then◌else◌, ◌==◌,
}
use loomctl.Base.Directory.{lookup, insert, lookup-insert}
use loomctl.Storage.Names.{is_state_name}
use loomctl.Storage.File.Events.{Line, read_event_file}
use loomctl.Storage.File.Events as File
use loomctl.Storage.Postgres.{answered}
use loomctl.Storage.Postgres.Events.{
  EventRow, EventStatements, append, append_statements, event_returned, read, selected,
}
use loomctl.Storage.Postgres.Events.Table.{new_event, IsEventTable}
use loomctl.Storage.Postgres.Events.Refines.{Related, Agrees, append_read_refine}

-- A value of the tests, as JSON.
data Stored : Type 0 where
  stored : (value : ℕ) → Stored

abbrev parsed : Stored → ℕ
parsed (stored value) = value

abbrev Db : Type 0
Db = List (String × List (EventRow Stored))

unfoldable rows : Db → String → List (EventRow Stored)
rows db stream = elim (lookup stream db) [ none ↦ [] | some rs ↦ rs ]

abbrev with_event : String → Stored → ℕ → Db → Db
with_event stream j now db =
    insert stream (rows db stream ++ new_event stream j now (rows db stream) ∷ []) db

abbrev in_memory : EventStatements Stored Db
in_memory = record {
  start = λ db. answered tt db;
  lock = λ stream db. answered tt db;
  insert_next = λ stream j now db.
      answered (new_event stream j now (rows db stream) ∷ []) (with_event stream j now db);
  commit = λ db. answered tt db;
  select_after = λ stream after_seq limit db.
      answered (take limit (keep (λ r. ltb after_seq r.seq) (rows db stream))) db;
}

rows-insert :
    (stream other : String) (rs : List (EventRow Stored)) (db : Db)
    → rows (insert stream rs db) other ≡ (if stream == other then rs else rows db other)
unfolding rows
rows-insert stream other rs db = ground (arith, lookup-insert stream other rs db)

in_memory-IsEventTable : IsEventTable in_memory rows
in_memory-IsEventTable = record {
  starts = λ db. refl;
  locks = λ stream db. refl;
  commits = λ db. refl;
  inserts =
      λ stream j now db. (with_event stream j now db, refl, λ other. rows-insert stream other _ db);
  selects = λ stream after_seq limit db. refl;
}

empty-Related : Related parsed in_memory rows [] []
unfolding rows lookup read_event_file
empty-Related = record { same = λ stream. refl; ascending = λ stream. tt }

abbrev one_table : Db
one_table = (append parsed in_memory stored "audit" 5 10 []).1

abbrev one_file : List (String × List (Line ℕ))
one_file = after [] (File.append "audit" 5 10 [])

one-Related : Related parsed in_memory rows one_table one_file
one-Related =
    (append_read_refine parsed stored (λ v. refl) in_memory rows in_memory-IsEventTable "audit" 5 10
      [] [] empty-Related).0.1

append_read_refine_example :
    Agrees parsed in_memory rows
      (append parsed in_memory stored "audit" 6 20 one_table)
      one_file
      (File.append "audit" 6 20 one_file)
    × ((after_seq limit : ℕ)
        → limit ≤ 100000
        → read parsed in_memory "audit" after_seq limit one_table
          ≡ File.read "audit" after_seq limit one_file)
append_read_refine_example =
    append_read_refine parsed stored (λ v. refl) in_memory rows in_memory-IsEventTable "audit" 6 20
      one_table one_file one-Related

second_event :
    (append parsed in_memory stored "audit" 6 20 one_table).0
    ≡ ok (record { stream = "audit"; seq = 2; ts = 20; value = 6 })
unfolding append append_statements event_returned is_state_name rows lookup insert
second_event = refl

first_page :
    read parsed in_memory "audit" 0 10 one_table
    ≡ ok (record { stream = "audit"; seq = 1; ts = 10; value = 5 } ∷ [])
unfolding append append_statements event_returned read selected is_state_name rows lookup insert
first_page = refl
