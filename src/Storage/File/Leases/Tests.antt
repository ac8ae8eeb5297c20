-- ===== src/Storage/File/Leases/Tests.antt =====
-- Tests of the lease store.
use loomctl.Base.{ℕ, ◌≡◌, refl, none, some, List, [], ◌∷◌, ok, arith}
use loomctl.Base.Directory.{insert, lookup}
use loomctl.Storage.Names.{is_state_name}
use loomctl.Storage.Contracts.{LeaseRecord}
use loomctl.Storage.File.Leases.{acquire, refresh, grant, Call, acquires, releases, run}
use loomctl.Storage.File.Leases.Exclusion.{acquire_excludes, refresh_holder}

abbrev lease : LeaseRecord ℕ
lease = record {
  key = "project";
  owner = "run:a";
  acquired_at = some 100;
  expires_at = some 150;
  value = 4;
}

abbrev others : List (Call ℕ)
others = acquires "project" "run:b" 50 9 110 110 ∷ releases "other" "run:a" ∷ []

acquire_first : acquire "project" "run:a" 50 4 99 100 [] ≡ ok (some lease, ("project", lease) ∷ [])
unfolding acquire grant is_state_name insert lookup
acquire_first = refl

acquire_excludes_example :
    acquire "project" "run:b" 50 9 120 120 (run (("project", lease) ∷ []) others)
    ≡ ok (none, run (("project", lease) ∷ []) others)
unfolding is_state_name
acquire_excludes_example =
    acquire_excludes "project" "run:a" "run:b" 50 50 4 9 99 100 120 120 [] others acquire_first
      ((λ same. omega arith), ((λ same. cc), tt)) (omega arith) refl refl

refresh_holder_example :
    refresh "project" "run:a" 60 120 120 (run (("project", lease) ∷ []) others)
    ≡ ok (
      some (record lease { expires_at = some 180 }),
      insert "project"
          (record lease { expires_at = some 180 })
          (run (("project", lease) ∷ []) others),
    )
unfolding is_state_name
refresh_holder_example =
    refresh_holder "project" "run:a" 50 60 4 99 100 120 120 [] others acquire_first
      ((λ same. omega arith), ((λ same. cc), tt)) (omega arith) refl
