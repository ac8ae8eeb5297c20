-- ===== src/Storage/File/Documents/Tests.antt =====
-- Tests of the document store.
use loomctl.Base.{
  ℕ, ◌+◌, ◌≡◌, ◌⊎◌, ◌↔◌, refl, String, Option, none, some, List, [], ◌∷◌, true, false,
  if◌then◌else◌, ok, err, conflict,
}
use loomctl.Base.Directory.{Tree, read, write, unlink, folder, insert, erase, lookup, same_path}
use loomctl.Storage.Names.{is_state_name}
use loomctl.Storage.Contracts.{StoredDocument}
use loomctl.Storage.File.Documents.{get, put, delete, remove, Call, puts, deletes, run, version_of}
use loomctl.Storage.File.Documents.Versions.{put-eq-ok, delete-eq-ok, no_lost_update}

abbrev draft : StoredDocument ℕ
draft = record { namespace = "runs"; key = "a"; version = 1; value = 5; updated_at = 10 }

abbrev tree : Tree (StoredDocument ℕ)
tree = ("runs", ("a", draft) ∷ []) ∷ []

abbrev others : List (Call ℕ)
others =
    puts "runs" "b" 8 none 11 ∷ puts "runs" "a" 6 (some 1) 12 ∷ deletes "runs" "b" (some 1) ∷ []

put_first : put "runs" "a" 5 (some 0) 10 [] ≡ ok (draft, tree)
unfolding put is_state_name read write folder insert lookup
put_first = refl

put_stale : put "runs" "a" 9 (some 0) 20 tree ≡ err conflict
unfolding put is_state_name read folder lookup
put_stale = refl

delete_there : delete "runs" "a" (some 1) tree ≡ ok (true, ("runs", []) ∷ [])
unfolding delete remove is_state_name read unlink folder insert erase lookup
delete_there = refl

no_lost_update_example : put "runs" "a" 7 (some 0) 30 (run tree others) ≡ err conflict
no_lost_update_example =
    no_lost_update "runs" "a" 5 7 0 10 30 [] others put_first (tt, (tt, (refl, tt)))

put-eq-ok_example :
    (◌≡◌ {A = Option ℕ} (some 0) none ⊎ some 0 ≡ some (version_of {V = ℕ} (read "runs" "a" [])))
    × (draft.version ≡ version_of {V = ℕ} (read "runs" "a" []) + 1)
    × (draft.value ≡ 5)
    × ((n' k' : String)
        → get n' k' tree ≡ (if same_path "runs" "a" n' k' then ok (some draft) else get n' k' []))
put-eq-ok_example = put-eq-ok "runs" "a" 5 (some 0) 10 [] put_first

delete-eq-ok_example :
    (◌≡◌ {A = Option ℕ} (some 1) none ⊎ some 1 ≡ some (version_of (read "runs" "a" tree)))
    × ((true ≡ false) ↔ (get "runs" "a" tree ≡ ok none))
    × ((n' k' : String)
        → get n' k' (("runs", []) ∷ [])
          ≡ (if same_path "runs" "a" n' k' then ok none else get n' k' tree))
delete-eq-ok_example = delete-eq-ok "runs" "a" (some 1) tree delete_there
