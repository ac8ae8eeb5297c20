-- ===== src/Storage/File/Leases/Exclusion.antt =====
-- src/harness/storage/file.ts: a lease, its holder, and the calls of others.
use loomctl.Base.{
  ℕ, ◌+◌, ◌<◌, ◌≡◌, ◌≢◌, inl, inr, true, String, none, some, List, [], ◌∷◌, ◌==◌, eq_iff, eq_refl,
  ok, ◌>>◌, All, Option-cases, not_leb, >>-eq-ok, ap, arith,
}
use loomctl.Base.Directory.{lookup, insert, lookup-insert, lookup-insert_self, lookup-erase}
use loomctl.Storage.Names.{assert_state_name, positive_ttl_ms}
use loomctl.Storage.Contracts.{LeaseRecord}
use loomctl.Storage.File.Leases.{
  unexpired, new_lease, acquire, extend, refresh, release, get, Call, acquires, refreshes, releases,
  step, run,
}

module _ {ℓ} {V : Type ℓ} where
  -- A call that the holder of `k` does not make, and that sees a clock before `t` where it is about `k`.
  abbrev pub Foreign : String → String → ℕ → Call V → Type 0
  Foreign k holder t (acquires key owner ttl value seen now) = key ≡ k → seen < t
  Foreign k holder t (refreshes key owner ttl seen now) = key ≡ k → owner ≢ holder
  Foreign k holder t (releases key owner) = key ≡ k → owner ≢ holder

  step_kept :
      (k : String) (l : LeaseRecord V) (t : ℕ) (s : List (String × LeaseRecord V)) (c : Call V)
      → l.expires_at ≡ some t
      → Foreign k l.owner t c
      → lookup k s ≡ some l
      → lookup k (step s c) ≡ some l
  unfolding step acquire refresh release
  step_kept k l t s (acquires key owner ttl value seen now) e f h =
      ground (arith, eq_iff key k, lookup-insert key k (new_lease key owner ttl value now) s)
  step_kept k l t s (refreshes key owner ttl seen now) e f h = elim (Option-cases (lookup key s)) [
    | inl missing ↦ ground (arith, eq_iff key k)
    | inr (m, found) ↦ ground (
      arith,
      eq_iff key k,
      eq_iff m.owner owner,
      lookup-insert key k (record m { expires_at = some (now + ttl) }) s,
    )
  ]
  step_kept k l t s (releases key owner) e f h =
      ground (arith, eq_iff key k, eq_iff l.owner owner, lookup-erase key k s)

  run_kept :
      (k : String) (l : LeaseRecord V) (t : ℕ) (s : List (String × LeaseRecord V))
      (cs : List (Call V))
      → l.expires_at ≡ some t
      → All (Foreign k l.owner t) cs
      → lookup k s ≡ some l
      → lookup k (run s cs) ≡ some l
  unfolding run
  run_kept k l t s [] e f h = h
  run_kept k l t s (c ∷ cs) e f h = run_kept k l t (step s c) cs e f.1 (step_kept k l t s c e f.0 h)

  unexpired_kept :
      (k : String) (l : LeaseRecord V) (t seen : ℕ) (s : List (String × LeaseRecord V))
      (cs : List (Call V))
      → l.expires_at ≡ some t
      → All (Foreign k l.owner t) cs
      → seen < t
      → lookup k s ≡ some l
      → unexpired seen (lookup k (run s cs)) ≡ some l
  unexpired_kept k l t seen s cs e f lt h = rw (run_kept k l t s cs e f h, e, not_leb t seen lt)

  pub acquire-inv :
      (k owner : String) (ttl : ℕ) (value : V) (seen now : ℕ) (s : List (String × LeaseRecord V))
      {l : LeaseRecord V} {s' : List (String × LeaseRecord V)}
      → acquire k owner ttl value seen now s ≡ ok (some l, s')
      → (l ≡ new_lease k owner ttl value now)
        × (s' ≡ insert k l s)
        × (unexpired seen (lookup k s) ≡ none)
        × ((assert_state_name k >> (positive_ttl_ms ttl >> assert_state_name owner)) ≡ ok tt)
  unfolding acquire
  acquire-inv k owner ttl value seen now s h = ground arith

  acquire-lookup :
      (k owner : String) (ttl : ℕ) (value : V) (seen now : ℕ) (s : List (String × LeaseRecord V))
      {l : LeaseRecord V} {s' : List (String × LeaseRecord V)}
      → acquire k owner ttl value seen now s ≡ ok (some l, s')
      → lookup k s' ≡ some l
  acquire-lookup k owner ttl value seen now s {l} h =
      rw ((acquire-inv k owner ttl value seen now s h).1) (lookup-insert_self k l s)

  -- Mutual exclusion: from an acquisition at `now` until the clock reads `now + ttl`, no well-formed
  -- acquisition of the key succeeds, if the holder has not refreshed or released it: whatever other
  -- owners do before `now + ttl`, and whatever is done with other keys.
  pub acquire_excludes :
      (k owner other : String) (ttl ttl' : ℕ) (value value' : V) (seen now seen' now' : ℕ)
      (s : List (String × LeaseRecord V)) (cs : List (Call V)) {l : LeaseRecord V}
      {s' : List (String × LeaseRecord V)}
      → acquire k owner ttl value seen now s ≡ ok (some l, s')
      → All (Foreign k owner (now + ttl)) cs
      → seen' < now + ttl
      → assert_state_name other ≡ ok tt
      → positive_ttl_ms ttl' ≡ ok tt
      → acquire k other ttl' value' seen' now' (run s' cs) ≡ ok (none, run s' cs)
  unfolding acquire
  acquire_excludes k owner other ttl ttl' value value' seen now seen' now' s cs {l} {s'} h f lt
        named lasting =
      let (fresh, written, _, valid) = acquire-inv k owner ttl value seen now s h in
      let (named', _) =
        >>-eq-ok (assert_state_name k) (positive_ttl_ms ttl >> assert_state_name owner) valid in
      rw (
        named',
        lasting,
        named,
        unexpired_kept k l (now + ttl) seen' s' cs (ap (λ m. m.expires_at) fresh) (rw fresh f) lt
            (acquire-lookup k owner ttl value seen now s h),
      )

  -- The holder keeps it: before `now + ttl` its well-formed refresh succeeds and moves the expiry to
  -- `ttl'` from then, whatever other owners did before `now + ttl` and whatever was done with other
  -- keys.
  pub refresh_holder :
      (k owner : String) (ttl ttl' : ℕ) (value : V) (seen now seen' now' : ℕ)
      (s : List (String × LeaseRecord V)) (cs : List (Call V)) {l : LeaseRecord V}
      {s' : List (String × LeaseRecord V)}
      → acquire k owner ttl value seen now s ≡ ok (some l, s')
      → All (Foreign k owner (now + ttl)) cs
      → seen' < now + ttl
      → positive_ttl_ms ttl' ≡ ok tt
      → let next = record l { expires_at = some (now' + ttl') } in
        refresh k owner ttl' seen' now' (run s' cs) ≡ ok (some next, insert k next (run s' cs))
  unfolding refresh
  refresh_holder k owner ttl ttl' value seen now seen' now' s cs {l} {s'} h f lt lasting =
      let (fresh, written, _, valid) = acquire-inv k owner ttl value seen now s h in
      let (named', _) =
        >>-eq-ok (assert_state_name k) (positive_ttl_ms ttl >> assert_state_name owner) valid in
      let mine : (l.owner == owner) ≡ true = rw fresh (eq_refl owner) in
      rw (
        named',
        lasting,
        unexpired_kept k l (now + ttl) seen' s' cs (ap (λ m. m.expires_at) fresh) (rw fresh f) lt
            (acquire-lookup k owner ttl value seen now s h),
        extend,
        mine,
      )

  -- A lease that has run out or was never taken does not block: a well-formed acquisition gets it.
  pub acquire_free :
      (k owner : String) (ttl : ℕ) (value : V) (seen now : ℕ) (s : List (String × LeaseRecord V))
      → assert_state_name k ≡ ok tt
      → assert_state_name owner ≡ ok tt
      → positive_ttl_ms ttl ≡ ok tt
      → get k seen s ≡ ok none
      → let l = new_lease k owner ttl value now in
        acquire k owner ttl value seen now s ≡ ok (some l, insert k l s)
  unfolding acquire get
  acquire_free k owner ttl value seen now s a b c h = ground arith
