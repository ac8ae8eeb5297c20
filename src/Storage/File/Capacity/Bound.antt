-- ===== src/Storage/File/Capacity/Bound.antt =====
-- src/harness/storage/file.ts: the number of capacity leases in a scope.
use loomctl.Base.{
  ℕ, suc, ◌+◌, ◌≤◌, ◌≡◌, refl, inl, inr, Bool, not, String, Option, none, some, List, [], ◌∷◌, ◌==◌,
  eq_iff, length, find, All, Option-cases, arith, length-keep-le,
}
use loomctl.Base.Directory.{
  Tree, read, write, unlink, folder, insert, erase, lookup, folder-insert, length-insert,
  length-insert_old, length-erase,
}
use loomctl.Storage.Contracts.{LeaseRecord}
use loomctl.Storage.File.Leases.{lease_expired, new_lease}
use loomctl.Storage.File.Capacity.{
  purge, records, insert_sorted, sort, admit, acquire, refresh, release, list, Call, acquires,
  refreshes, releases, lists, step, run,
}

module _ {ℓ} {V : Type ℓ} (before : String → String → Bool) where
  length-insert_sorted :
      (l : LeaseRecord V) (ms : List (LeaseRecord V))
      → length (insert_sorted before l ms) ≡ suc (length ms)
  unfolding insert_sorted
  length-insert_sorted l [] = refl
  length-insert_sorted l (m ∷ ms) = ground (arith, length-insert_sorted l ms)

  length-sort : (ls : List (LeaseRecord V)) → length (sort before ls) ≡ length ls
  unfolding sort
  length-sort [] = refl
  length-sort (l ∷ ls) = omega (arith, length-insert_sorted l (sort before ls), length-sort ls)

  length-records : (files : List (String × LeaseRecord V)) → length (records files) ≡ length files
  length-records [] = refl
  length-records (f ∷ files) = omega (arith, length-records files)

  -- The number of files in a scope.
  abbrev pub held : String → Tree (LeaseRecord V) → ℕ
  held scope t = length (folder scope t)

  -- A call whose limit, where it acquires in the scope, is at most `m`.
  abbrev pub Within : String → ℕ → Call V → Type 0
  Within scope m (acquires s key owner limit ttl value seen now) = s ≡ scope → limit ≤ m
  Within scope m _ = Unit

  admit_bound :
      (scope s key owner : String) (limit ttl m now : ℕ) (value : V)
      (files : List (String × LeaseRecord V)) (existing : Option (LeaseRecord V))
      (t : Tree (LeaseRecord V))
      → (s ≡ scope → limit ≤ m)
      → (s ≡ scope → length files ≤ m)
      → held scope t ≤ m
      → held scope (admit before s key owner limit ttl value now files existing t).1 ≤ m
  unfolding admit
  admit_bound scope s key owner limit ttl m now value files (some l) t lim fits h =
      ground (arith, folder-insert s scope files t, eq_iff s scope)
  admit_bound scope s key owner limit ttl m now value files none t lim fits h = ground (
    arith,
    folder-insert s scope files t,
    folder-insert s scope (insert key (new_lease key owner ttl value now) files) t,
    length-insert key (new_lease key owner ttl value now) files,
    length-sort (records files),
    length-records files,
    eq_iff s scope,
  )

  pub step_bound :
      (scope : String) (m : ℕ) (t : Tree (LeaseRecord V)) (c : Call V)
      → Within scope m c
      → held scope t ≤ m
      → held scope (step before t c) ≤ m
  unfolding step acquire refresh release list read write unlink
  step_bound scope m t (acquires s key owner limit ttl value seen now) lim h =
      let files = purge seen (folder s t) in
      let existing = find (λ l. l.key == key) (sort before (records files)) in
      ground (
        arith,
        length-keep-le (λ f. not (lease_expired seen f.1)) (folder s t),
        admit_bound scope s key owner limit ttl m now value files existing t lim,
        eq_iff s scope,
      )
  step_bound scope m t (refreshes s key owner ttl seen now) lim h =
      elim (Option-cases (lookup key (folder s t))) [
        | inl missing ↦ ground arith
        | inr (l, found) ↦
            let next = record l { expires_at = some (now + ttl) } in
            ground (
              arith,
              folder-insert s scope (insert key next (folder s t)) t,
              length-insert_old key next l (folder s t) found,
              eq_iff s scope,
            )
      ]
  step_bound scope m t (releases s key owner) lim h = ground (
    arith,
    folder-insert s scope (erase key (folder s t)) t,
    length-erase key (folder s t),
    eq_iff s scope,
  )
  step_bound scope m t (lists s seen) lim h = ground (
    arith,
    folder-insert s scope (purge seen (folder s t)) t,
    length-keep-le (λ f. not (lease_expired seen f.1)) (folder s t),
    eq_iff s scope,
  )

  run_bound :
      (scope : String) (m : ℕ) (t : Tree (LeaseRecord V)) (cs : List (Call V))
      → All (Within scope m) cs
      → held scope t ≤ m
      → held scope (run before t cs) ≤ m
  unfolding run
  run_bound scope m t [] lim h = h
  run_bound scope m t (c ∷ cs) lim h =
      run_bound scope m (step before t c) cs lim.1 (step_bound scope m t c lim.0 h)

  -- From an empty store, no history of calls puts more leases into a scope than the largest limit
  -- that an acquisition in the scope names.
  pub capacity_bound :
      (scope : String) (m : ℕ) (cs : List (Call V))
      → All (Within scope m) cs
      → held scope (run before [] cs) ≤ m
  unfolding folder lookup
  capacity_bound scope m cs lim = run_bound scope m [] cs lim (omega arith)
