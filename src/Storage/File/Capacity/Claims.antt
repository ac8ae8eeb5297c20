-- ===== src/Storage/File/Capacity/Claims.antt =====
-- src/harness/storage/file.ts: the file of a capacity lease after an acquisition and after a release.
use loomctl.Base.{
  ◌∙◌, ◌⊎◌, ℕ, ◌≡◌, refl, Bool, not, ◌==◌, eq_refl, String, Option, none, some, List, [], ◌∷◌, ok,
  arith, keep, find, length, leb, Bool-cases, inl, inr,
}
use loomctl.Base.Directory.{
  Tree, read, folder, insert, lookup, folder-insert, lookup-insert_self, read-unlink,
}
use loomctl.Storage.Contracts.{LeaseRecord}
use loomctl.Storage.File.Leases.{new_lease, lease_expired}
use loomctl.Storage.File.Capacity.{
  CapacityLeaseResult, admit, drop_lease, purge, records, sort, acquire, release,
}

module _ {ℓ} {V : Type ℓ} where
  lookup-keep :
      (p : String × V → Bool) (k : String) (files : List (String × V))
      → lookup k files ≡ none
      → lookup k (keep p files) ≡ none
  unfolding lookup
  lookup-keep p k [] h = refl
  lookup-keep p k ((j, v) ∷ files) h = ground (arith, lookup-keep p k files)

-- The file, if there is one, belongs to the owner.
abbrev pub Mine : {V : Type 0} → String → Option (LeaseRecord V) → Type 0
Mine owner none = Unit
Mine owner (some l) = l.owner ≡ owner

Mine-either :
    {V : Type 0} {l : LeaseRecord V} (o : Option (LeaseRecord V))
    → (o ≡ none) ⊎ (o ≡ some l)
    → Mine l.owner o
Mine-either none h = tt
Mine-either (some m) (inl e) = cc
Mine-either (some m) (inr e) = cc

module _ (before : String → String → Bool) {V : Type 0} where
  read-insert :
      (scope k : String) (files : List (String × LeaseRecord V)) (t : Tree (LeaseRecord V))
      → read scope k (insert scope files t) ≡ lookup k files
  unfolding read
  read-insert scope k files t = ground (arith, folder-insert scope scope files t, eq_refl scope)

  admit-either :
      (scope k owner : String) (limit ttl now : ℕ) (value : V)
      (files : List (String × LeaseRecord V)) (existing : Option (LeaseRecord V))
      (t : Tree (LeaseRecord V))
      → lookup k files ≡ none
      → (read scope k (admit before scope k owner limit ttl value now files existing t).1 ≡ none)
        ⊎ (read scope k (admit before scope k owner limit ttl value now files existing t).1
            ≡ some (new_lease k owner ttl value now))
  unfolding admit
  admit-either scope k owner limit ttl now value files (some l) t free =
      inl (read-insert scope k files t ∙ free)
  admit-either scope k owner limit ttl now value files none t free =
      elim (Bool-cases (leb limit (length (sort before (records files))))) [
        | inl full ↦ inl (ground (arith, read-insert scope k files t))
        | inr room ↦ inr (
            ground (
              arith,
              read-insert scope k (insert k (new_lease k owner ttl value now) files) t,
              lookup-insert_self k (new_lease k owner ttl value now) files,
            ))
      ]

  acquire-admit :
      (scope k owner : String) (limit ttl : ℕ) (value : V) (seen now : ℕ) (t : Tree (LeaseRecord V))
      {r : CapacityLeaseResult V} {t' : Tree (LeaseRecord V)}
      → acquire before scope k owner limit ttl value seen now t ≡ ok (r, t')
      → let files = purge seen (folder scope t) in
        t'
        ≡ (admit before scope k owner limit ttl value now files
            (find (λ l. l.key == k) (sort before (records files)))
            t).1
  unfolding acquire
  acquire-admit scope k owner limit ttl value seen now t h = ground arith

  -- An acquisition of a key that has no file leaves it with none, or with a file of the owner.
  pub acquire-Mine :
      (scope k owner : String) (limit ttl : ℕ) (value : V) (seen now : ℕ) (t : Tree (LeaseRecord V))
      {r : CapacityLeaseResult V} {t' : Tree (LeaseRecord V)}
      → read scope k t ≡ none
      → acquire before scope k owner limit ttl value seen now t ≡ ok (r, t')
      → Mine owner (read scope k t')
  unfolding read
  acquire-Mine scope k owner limit ttl value seen now t free h =
      let files = purge seen (folder scope t) in
      rw (acquire-admit scope k owner limit ttl value seen now t h) (
        Mine-either _ (
          admit-either scope k owner limit ttl now value files
            (find (λ l. l.key == k) (sort before (records files))) t
            (lookup-keep (λ f. not (lease_expired seen f.1)) k (folder scope t) free)))

  drop_lease-gone :
      (scope k owner : String) (o : Option (LeaseRecord V)) (t : Tree (LeaseRecord V))
      → read scope k t ≡ o
      → Mine owner o
      → read scope k (drop_lease scope k owner o t).1 ≡ none
  unfolding drop_lease
  drop_lease-gone scope k owner none t e mine = e
  drop_lease-gone scope k owner (some l) t e mine =
      ground (arith, eq_refl owner, read-unlink scope k scope k t, eq_refl scope, eq_refl k)

  -- The release of what belongs to the owner leaves the key with no file.
  pub release-gone :
      (scope k owner : String) (t : Tree (LeaseRecord V)) {x : Bool} {t' : Tree (LeaseRecord V)}
      → Mine owner (read scope k t)
      → release scope k owner t ≡ ok (x, t')
      → read scope k t' ≡ none
  unfolding release
  release-gone scope k owner t mine h =
      ground (arith, drop_lease-gone scope k owner (read scope k t) t refl mine)
