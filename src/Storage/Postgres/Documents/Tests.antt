-- ===== src/Storage/Postgres/Documents/Tests.antt =====
-- A table of documents in memory, and the theorems about the store at it.
use loomctl.Base.{
  ℕ, ◌≡◌, ◌≢◌, refl, false, String, Option, none, some, List, [], ◌∷◌, eqb, if◌then◌else◌, Result,
  ok, err, conflict, arith, after,
}
use loomctl.Base.Directory.{
  Tree, read, write, unlink, read-write, read-unlink, folder, lookup, insert,
}
use loomctl.Storage.Names.{is_state_name}
use loomctl.Storage.Contracts.{StoredDocument}
use loomctl.Storage.File.Documents as File
use loomctl.Storage.Postgres.{Answer, raised, answered, unique_violation}
use loomctl.Storage.Postgres.Documents.{
  Row, Statements, put, put_statement, returned, delete, delete_statement, counted, second_look,
}
use loomctl.Storage.Postgres.Documents.Table.{new_row, next_row, rows_of, versions_of, IsTable}
use loomctl.Storage.Postgres.Documents.Refines.{Related, Agrees, put_refines}
use loomctl.Storage.Postgres.Documents.Deletes.{TakesEffect, delete_refines}

-- A value of the tests, as JSON.
data Stored : Type 0 where
  stored : (value : ℕ) → Stored

abbrev parsed : Stored → ℕ
parsed (stored value) = value

abbrev Db : Type 0
Db = Tree (Row Stored)

abbrev inserted :
    String → String → Stored → ℕ → Db → Option (Row Stored) → Answer (List (Row Stored)) Db
inserted n k j now db none = answered (new_row n k j now ∷ []) (write n k (new_row n k j now) db)
inserted n k j now db (some r) = raised unique_violation

abbrev overwritten : String → String → Stored → ℕ → Db → Row Stored → Answer (List (Row Stored)) Db
overwritten n k j now db r =
    let row = next_row n k r.version j now in answered (row ∷ []) (write n k row db)

abbrev updated :
    String → String → Stored → ℕ → ℕ → Db → Option (Row Stored) → Answer (List (Row Stored)) Db
updated n k j v now db none = answered [] db
updated n k j v now db (some r) =
    if eqb r.version v then overwritten n k j now db r else answered [] db

abbrev upserted :
    String → String → Stored → ℕ → Db → Option (Row Stored) → Answer (List (Row Stored)) Db
upserted n k j now db none = inserted n k j now db none
upserted n k j now db (some r) = overwritten n k j now db r

abbrev removed : String → String → Db → Option (Row Stored) → Answer ℕ Db
removed n k db none = answered 0 db
removed n k db (some r) = answered 1 (unlink n k db)

abbrev removed_at : String → String → ℕ → Db → Option (Row Stored) → Answer ℕ Db
removed_at n k v db none = answered 0 db
removed_at n k v db (some r) = if eqb r.version v then answered 1 (unlink n k db) else answered 0 db

abbrev in_memory : Statements Stored Db
in_memory = record {
  select = λ n k db. answered (rows_of (read n k db)) db;
  select_version = λ n k db. answered (versions_of (read n k db)) db;
  insert = λ n k j now db. inserted n k j now db (read n k db);
  update = λ n k j v now db. updated n k j v now db (read n k db);
  upsert = λ n k j now db. upserted n k j now db (read n k db);
  delete_any = λ n k db. removed n k db (read n k db);
  delete_version = λ n k v db. removed_at n k v db (read n k db);
}

abbrev row : Db → String → String → Option (Row Stored)
row db n k = read n k db

updated_hit :
    (n k : String) (j : Stored) (now : ℕ) (db : Db) (r : Row Stored)
    → updated n k j r.version now db (some r) ≡ overwritten n k j now db r
updated_hit n k j now db r = ground arith

updated_miss :
    (n k : String) (j : Stored) (v now : ℕ) (db : Db) (o : Option (Row Stored))
    → ((r : Row Stored) → o ≡ some r → r.version ≢ v)
    → updated n k j v now db o ≡ answered [] db
updated_miss n k j v now db none differs = refl
updated_miss n k j v now db (some r) differs =
    let other : eqb r.version v ≡ false = (let d = differs r refl in ground arith) in rw other refl

removed_at_hit :
    (n k : String) (db : Db) (r : Row Stored)
    → removed_at n k r.version db (some r) ≡ answered 1 (unlink n k db)
removed_at_hit n k db r = ground arith

removed_at_miss :
    (n k : String) (v : ℕ) (db : Db) (o : Option (Row Stored))
    → ((r : Row Stored) → o ≡ some r → r.version ≢ v)
    → removed_at n k v db o ≡ answered 0 db
removed_at_miss n k v db none differs = refl
removed_at_miss n k v db (some r) differs =
    let other : eqb r.version v ≡ false = (let d = differs r refl in ground arith) in rw other refl

in_memory-IsTable : IsTable in_memory row
in_memory-IsTable = record {
  select_rows = λ n k db. refl;
  select_versions = λ n k db. refl;
  insert_new = λ n k j now db h.
      (write n k (new_row n k j now) db, rw h refl, λ n' k'. read-write n k n' k' _ db);
  insert_old = λ n k j now db r h. rw h refl;
  update_row = λ n k j now db r h. (
    write n k (next_row n k r.version j now) db,
    rw h (updated_hit n k j now db r),
    λ n' k'. read-write n k n' k' _ db,
  );
  update_none = λ n k j v now db differs. updated_miss n k j v now db (read n k db) differs;
  upsert_new = λ n k j now db h.
      (write n k (new_row n k j now) db, rw h refl, λ n' k'. read-write n k n' k' _ db);
  upsert_old = λ n k j now db r h.
      (write n k (next_row n k r.version j now) db, rw h refl, λ n' k'. read-write n k n' k' _ db);
  delete_row = λ n k db r h. (
    (unlink n k db, rw h refl, λ n' k'. read-unlink n k n' k' db),
    (unlink n k db, rw h (removed_at_hit n k db r), λ n' k'. read-unlink n k n' k' db),
  );
  delete_absent = λ n k db h. rw h refl;
  delete_none = λ n k v db differs. removed_at_miss n k v db (read n k db) differs;
}

empty-Related : Related parsed in_memory row [] []
unfolding read folder lookup
empty-Related = record { same = λ n k. refl; versions = λ n k d h. cc h }

abbrev put_in_memory : String → ℕ → Option ℕ → ℕ → Db → Result (StoredDocument ℕ) × Db
put_in_memory k v e now db = put parsed in_memory stored "runs" k v e now db

abbrev first_table : Db
first_table = (put_in_memory "a" 5 (some 0) 10 []).1

abbrev first_tree : Tree (StoredDocument ℕ)
first_tree = after [] (File.put "runs" "a" 5 (some 0) 10 [])

first-Related : Related parsed in_memory row first_table first_tree
first-Related =
    (put_refines parsed stored (λ v. refl) in_memory row in_memory-IsTable "runs" "a" 5 (some 0) 10
      [] [] empty-Related).1

put_refines_example :
    Agrees parsed in_memory row
      (put_in_memory "a" 7 (some 1) 20 first_table)
      first_tree
      (File.put "runs" "a" 7 (some 1) 20 first_tree)
put_refines_example =
    put_refines parsed stored (λ v. refl) in_memory row in_memory-IsTable "runs" "a" 7 (some 1) 20
      first_table first_tree first-Related

delete_refines_example :
    TakesEffect parsed in_memory row
      (delete in_memory "runs" "a" (some 0) (λ db. (put_in_memory "a" 5 (some 0) 10 db).1) [])
      (File.delete "runs" "a" (some 0))
      []
      first_tree
delete_refines_example =
    delete_refines parsed in_memory row in_memory-IsTable "runs" "a" (some 0)
      (λ db. (put_in_memory "a" 5 (some 0) 10 db).1) [] [] first_tree empty-Related first-Related

first_row : first_table ≡ ("runs", ("a", new_row "runs" "a" (stored 5) 10) ∷ []) ∷ []
unfolding put put_statement returned is_state_name read write folder lookup insert
first_row = refl

second_version :
    (put_in_memory "a" 7 (some 1) 20 first_table).0
    ≡ ok (record { namespace = "runs"; key = "a"; version = 2; value = 7; updated_at = 20 })
unfolding put put_statement returned is_state_name read write folder lookup insert
second_version = refl

stale_put : (put_in_memory "a" 7 (some 0) 20 first_table).0 ≡ err conflict
unfolding put put_statement returned is_state_name read write folder lookup insert
stale_put = refl

-- Version 0 was there at the first statement, and another client has put the document before the second.
put_in_between :
    (delete in_memory "runs" "a" (some 0) (λ db. (put_in_memory "a" 5 (some 0) 10 db).1) []).0
    ≡ err conflict
unfolding delete delete_statement counted second_look put put_statement returned is_state_name read
    write folder lookup insert
put_in_between = refl
