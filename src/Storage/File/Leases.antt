-- ===== src/Storage/File/Leases.antt =====
-- `createFileLeaseStore` of src/harness/storage/file.ts: leases with an owner and an expiry. The
-- state is the directory `leases`, with a file for each key.
pub mod Exclusion
mod Tests
use loomctl.Base.{
  ℕ, ◌+◌, ◌≡◌, Bool, true, false, ◌&&◌, ◌||◌, not, String, Option, none, some, List, [], ◌∷◌, leb,
  if◌then◌else◌, ◌==◌, Result, ok, err, ◌>>=◌, ◌>>◌, after,
}
use loomctl.Base.Directory.{lookup, insert, erase}
use loomctl.Storage.Names.{assert_state_name, positive_ttl_ms}
use loomctl.Storage.Contracts.{Timestamp, LeaseRecord}

-- `leaseExpired`: a lease whose expiry is no date counts as expired.
abbrev pub time_expired : ℕ → Timestamp → Bool
time_expired seen none = true
time_expired seen (some t) = leb t seen

module _ {ℓ} {V : Type ℓ} where
  abbrev pub lease_expired : ℕ → LeaseRecord V → Bool
  lease_expired seen l = time_expired seen l.expires_at

  -- The lease that a store holds for a key, if it has not run out.
  abbrev pub unexpired : ℕ → Option (LeaseRecord V) → Option (LeaseRecord V)
  unexpired seen none = none
  unexpired seen (some l) = if lease_expired seen l then none else some l

  abbrev pub new_lease : String → String → ℕ → V → ℕ → LeaseRecord V
  new_lease key owner ttl value now = record {
    key = key;
    owner = owner;
    acquired_at = some now;
    expires_at = some (now + ttl);
    value = value;
  }

  -- `lease_file` is what the file of the key holds: `readJsonIfPresent(path)`.
  grant :
      String
      → String
      → ℕ
      → V
      → ℕ
      → Option (LeaseRecord V)
      → List (String × LeaseRecord V)
      → Option (LeaseRecord V) × List (String × LeaseRecord V)
  grant key owner ttl value now (some held) s = (none, s)
  grant key owner ttl value now none s =
      (some (new_lease key owner ttl value now), insert key (new_lease key owner ttl value now) s)

  -- `seen` is the clock at the check of the lease in place, `now` the clock at the grant.
  unfoldable pub acquire :
      String
      → String
      → ℕ
      → V
      → ℕ
      → ℕ
      → List (String × LeaseRecord V)
      → Result (Option (LeaseRecord V) × List (String × LeaseRecord V))
  unfolding grant
  acquire key owner ttl value seen now s = do
    assert_state_name key
    positive_ttl_ms ttl
    assert_state_name owner
    ok (grant key owner ttl value now (unexpired seen (lookup key s)) s)

  extend :
      String
      → String
      → ℕ
      → ℕ
      → Option (LeaseRecord V)
      → List (String × LeaseRecord V)
      → Option (LeaseRecord V) × List (String × LeaseRecord V)
  extend key owner ttl now none s = (none, s)
  extend key owner ttl now (some l) s =
      let next = record l { expires_at = some (now + ttl) } in
      if l.owner == owner then (some next, insert key next s) else (none, s)

  unfoldable pub refresh :
      String
      → String
      → ℕ
      → ℕ
      → ℕ
      → List (String × LeaseRecord V)
      → Result (Option (LeaseRecord V) × List (String × LeaseRecord V))
  unfolding extend
  refresh key owner ttl seen now s = do
    assert_state_name key
    positive_ttl_ms ttl
    ok (extend key owner ttl now (unexpired seen (lookup key s)) s)

  drop_lease :
      String
      → String
      → Option (LeaseRecord V)
      → List (String × LeaseRecord V)
      → Bool × List (String × LeaseRecord V)
  drop_lease key owner none s = (false, s)
  drop_lease key owner (some l) s = if l.owner == owner then (true, erase key s) else (false, s)

  -- An owner may release its lease after it has run out, too.
  unfoldable pub release :
      String
      → String
      → List (String × LeaseRecord V)
      → Result (Bool × List (String × LeaseRecord V))
  unfolding drop_lease
  release key owner s = do assert_state_name key; ok (drop_lease key owner (lookup key s) s)

  unfoldable pub get : String → ℕ → List (String × LeaseRecord V) → Result (Option (LeaseRecord V))
  get key seen s = do assert_state_name key; ok (unexpired seen (lookup key s))

-- The calls of the servers, in the order in which the file locks let them through.
pub data Call {ℓ} (V : Type ℓ) : Type ℓ where
  acquires : (key owner : String) → ℕ → V → (seen now : ℕ) → Call V
  refreshes : (key owner : String) → ℕ → (seen now : ℕ) → Call V
  releases : (key owner : String) → Call V

module _ {ℓ} {V : Type ℓ} where
  unfoldable pub step : List (String × LeaseRecord V) → Call V → List (String × LeaseRecord V)
  step s (acquires key owner ttl value seen now) = after s (acquire key owner ttl value seen now s)
  step s (refreshes key owner ttl seen now) = after s (refresh key owner ttl seen now s)
  step s (releases key owner) = after s (release key owner s)

  unfoldable pub run : List (String × LeaseRecord V) → List (Call V) → List (String × LeaseRecord V)
  run s [] = s
  run s (c ∷ cs) = run (step s c) cs
