-- ===== src/Storage/File/Capacity.antt =====
-- `createFileCapacityLeaseStore` of src/harness/storage/file.ts: at most `limit` leases in a scope.
-- The state is the directory tree `capacity-leases/<scope>/<key>.json`. `before` is the order of
-- `localeCompare`, by which the active leases are sorted.
pub mod Bound
pub mod Claims
mod Tests
use loomctl.Base.{
  ℕ, ◌+◌, ◌≡◌, Bool, true, false, ◌&&◌, ◌||◌, not, String, Option, none, some, List, [], ◌∷◌, ◌++◌,
  leb, if◌then◌else◌, ◌==◌, Result, ok, err, invalid, ◌>>=◌, ◌>>◌, check, after, length, keep, find,
  map,
}
use loomctl.Base.Directory.{Tree, read, write, unlink, folder, insert}
use loomctl.Storage.Names.{assert_state_name, positive_ttl_ms}
use loomctl.Storage.Contracts.{LeaseRecord}
use loomctl.Storage.File.Leases.{lease_expired, unexpired, new_lease}

pub record CapacityLeaseResult {ℓ} (V : Type ℓ) : Type ℓ where
  pub lease : Option (LeaseRecord V)
  pub active : List (LeaseRecord V)
  pub limit : ℕ

abbrev pub validate_capacity_lease : String → String → String → ℕ → ℕ → Result (Unit {0})
validate_capacity_lease scope key owner limit ttl = do
  assert_state_name scope
  assert_state_name key
  assert_state_name owner
  check (leb 1 limit && leb limit 100000) invalid
  positive_ttl_ms ttl

module _ {ℓ} {V : Type ℓ} where
  -- The scan of `activeCapacityLeases` unlinks the files of the leases that have run out.
  abbrev pub purge : ℕ → List (String × LeaseRecord V) → List (String × LeaseRecord V)
  purge seen files = keep (λ f. not (lease_expired seen f.1)) files

  abbrev pub records : List (String × LeaseRecord V) → List (LeaseRecord V)
  records files = map (λ f. f.1) files

  insert_sorted :
      (String → String → Bool) → LeaseRecord V → List (LeaseRecord V) → List (LeaseRecord V)
  insert_sorted before l [] = l ∷ []
  insert_sorted before l (m ∷ ms) =
      if before m.key l.key then m ∷ insert_sorted before l ms else l ∷ m ∷ ms

  unfoldable pub sort : (String → String → Bool) → List (LeaseRecord V) → List (LeaseRecord V)
  unfolding insert_sorted
  sort before [] = []
  sort before (l ∷ ls) = insert_sorted before l (sort before ls)

  -- What `acquire` does with the active leases, `files` being what the scan has left.
  admit :
      (String → String → Bool)
      → String
      → String
      → String
      → ℕ
      → ℕ
      → V
      → ℕ
      → List (String × LeaseRecord V)
      → Option (LeaseRecord V)
      → Tree (LeaseRecord V)
      → CapacityLeaseResult V × Tree (LeaseRecord V)
  admit before scope key owner limit ttl value now files (some existing) t = (
    record {
      lease = if existing.owner == owner then some existing else none;
      active = sort before (records files);
      limit = limit;
    },
    insert scope files t,
  )
  admit before scope key owner limit ttl value now files none t =
      let active = sort before (records files) in
      let lease = new_lease key owner ttl value now in
      if leb limit (length active)
      then (record { lease = none; active = active; limit = limit }, insert scope files t)
      else (
        record { lease = some lease; active = active ++ lease ∷ []; limit = limit },
        insert scope (insert key lease files) t,
      )

  unfoldable pub acquire :
      (String → String → Bool)
      → String
      → String
      → String
      → ℕ
      → ℕ
      → V
      → ℕ
      → ℕ
      → Tree (LeaseRecord V)
      → Result (CapacityLeaseResult V × Tree (LeaseRecord V))
  unfolding admit
  acquire before scope key owner limit ttl value seen now t = do
    validate_capacity_lease scope key owner limit ttl
    let files = purge seen (folder scope t)
    let existing = find (λ l. l.key == key) (sort before (records files))
    ok (admit before scope key owner limit ttl value now files existing t)

  extend :
      String
      → String
      → String
      → ℕ
      → ℕ
      → Option (LeaseRecord V)
      → Tree (LeaseRecord V)
      → Option (LeaseRecord V) × Tree (LeaseRecord V)
  extend scope key owner ttl now none t = (none, t)
  extend scope key owner ttl now (some l) t =
      let next = record l { expires_at = some (now + ttl) } in
      if l.owner == owner then (some next, write scope key next t) else (none, t)

  unfoldable pub refresh :
      String
      → String
      → String
      → ℕ
      → ℕ
      → ℕ
      → Tree (LeaseRecord V)
      → Result (Option (LeaseRecord V) × Tree (LeaseRecord V))
  unfolding extend
  refresh scope key owner ttl seen now t = do
    validate_capacity_lease scope key owner 1 ttl
    ok (extend scope key owner ttl now (unexpired seen (read scope key t)) t)

  drop_lease :
      String
      → String
      → String
      → Option (LeaseRecord V)
      → Tree (LeaseRecord V)
      → Bool × Tree (LeaseRecord V)
  drop_lease scope key owner none t = (false, t)
  drop_lease scope key owner (some l) t =
      if l.owner == owner then (true, unlink scope key t) else (false, t)

  unfoldable pub release :
      String → String → String → Tree (LeaseRecord V) → Result (Bool × Tree (LeaseRecord V))
  unfolding drop_lease
  release scope key owner t = do
    validate_capacity_lease scope key owner 1 1
    ok (drop_lease scope key owner (read scope key t) t)

  unfoldable pub list :
      (String → String → Bool)
      → String
      → ℕ
      → Tree (LeaseRecord V)
      → Result (List (LeaseRecord V) × Tree (LeaseRecord V))
  list before scope seen t = do
    assert_state_name scope
    let files = purge seen (folder scope t)
    ok (sort before (records files), insert scope files t)

-- The calls of the servers, in the order in which the file locks let them through.
pub data Call {ℓ} (V : Type ℓ) : Type ℓ where
  acquires : (scope key owner : String) → (limit ttl : ℕ) → V → (seen now : ℕ) → Call V
  refreshes : (scope key owner : String) → (ttl seen now : ℕ) → Call V
  releases : (scope key owner : String) → Call V
  lists : (scope : String) → (seen : ℕ) → Call V

module _ {ℓ} {V : Type ℓ} (before : String → String → Bool) where
  unfoldable pub step : Tree (LeaseRecord V) → Call V → Tree (LeaseRecord V)
  step t (acquires scope key owner limit ttl value seen now) =
      after t (acquire before scope key owner limit ttl value seen now t)
  step t (refreshes scope key owner ttl seen now) = after t (refresh scope key owner ttl seen now t)
  step t (releases scope key owner) = after t (release scope key owner t)
  step t (lists scope seen) = after t (list before scope seen t)

  unfoldable pub run : Tree (LeaseRecord V) → List (Call V) → Tree (LeaseRecord V)
  run t [] = t
  run t (c ∷ cs) = run (step t c) cs
