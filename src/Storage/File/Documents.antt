-- ===== src/Storage/File/Documents.antt =====
-- `createFileDocumentStore` of src/harness/storage/file.ts: documents with versions. The state is
-- the directory tree `documents/<namespace>/<key>.json`.
pub mod Versions
mod Tests
use loomctl.Base.{
  ℕ, ◌+◌, ◌≡◌, Bool, true, false, String, Option, none, some, List, [], ◌∷◌, eqb, if◌then◌else◌,
  Result, ok, err, conflict, ◌>>=◌, ◌>>◌, check, after,
}
use loomctl.Base.Directory.{Tree, read, write, unlink}
use loomctl.Storage.Names.{assert_state_name}
use loomctl.Storage.Contracts.{StoredDocument}

-- The version of a document that is not there counts as 0.
abbrev pub version_of {ℓ} : {V : Type ℓ} → Option (StoredDocument V) → ℕ
version_of none = 0
version_of (some d) = d.version

-- `assertExpectedVersion` is passed.
abbrev pub expects {ℓ} : {V : Type ℓ} → Option (StoredDocument V) → Option ℕ → Bool
expects current none = true
expects current (some e) = eqb (version_of current) e

abbrev pub document_path : String → String → Result (Unit {0})
document_path namespace key = assert_state_name namespace >> assert_state_name key

module _ {ℓ} {V : Type ℓ} where
  unfoldable pub get :
      String → String → Tree (StoredDocument V) → Result (Option (StoredDocument V))
  get namespace key t = document_path namespace key >> ok (read namespace key t)

  abbrev pub next_document : String → String → V → ℕ → Option (StoredDocument V) → StoredDocument V
  next_document namespace key value now current = record {
    namespace = namespace;
    key = key;
    version = version_of current + 1;
    value = value;
    updated_at = now;
  }

  unfoldable pub put :
      String
      → String
      → V
      → Option ℕ
      → ℕ
      → Tree (StoredDocument V)
      → Result (StoredDocument V × Tree (StoredDocument V))
  put namespace key value expected now t = do
    document_path namespace key
    let current = read namespace key t
    check (expects current expected) conflict
    let next = next_document namespace key value now current
    ok (next, write namespace key next t)

  unfoldable pub remove :
      String
      → String
      → Option (StoredDocument V)
      → Tree (StoredDocument V)
      → Bool × Tree (StoredDocument V)
  remove namespace key none t = (false, t)
  remove namespace key (some d) t = (true, unlink namespace key t)

  unfoldable pub delete :
      String → String → Option ℕ → Tree (StoredDocument V) → Result (Bool × Tree (StoredDocument V))
  unfolding remove
  delete namespace key expected t = do
    document_path namespace key
    let current = read namespace key t
    check (expects current expected) conflict
    ok (remove namespace key current t)

-- The calls of the clients, in the order in which the file locks let them through.
pub data Call {ℓ} (V : Type ℓ) : Type ℓ where
  puts : String → String → V → Option ℕ → ℕ → Call V
  deletes : String → String → Option ℕ → Call V

module _ {ℓ} {V : Type ℓ} where
  unfoldable pub step : Tree (StoredDocument V) → Call V → Tree (StoredDocument V)
  step t (puts n k v e now) = after t (put n k v e now t)
  step t (deletes n k e) = after t (delete n k e t)

  unfoldable pub run : Tree (StoredDocument V) → List (Call V) → Tree (StoredDocument V)
  run t [] = t
  run t (c ∷ cs) = run (step t c) cs
