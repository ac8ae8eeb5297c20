-- ===== src/Storage/File/Documents/Versions.antt =====
-- src/harness/storage/file.ts: the versions of a document.
use loomctl.Base.{
  ℕ, ◌+◌, ◌≤◌, ◌<◌, ◌≡◌, ◌↔◌, ◌⊎◌, inl, inr, refl, ap, Bool, true, false, String, Option, none,
  some, List, [], ◌∷◌, eqb, if◌then◌else◌, ok, err, All, conflict, arith, eq_iff, eq_refl,
}
use loomctl.Base.Directory.{Tree, read, write, same_path, read-write, read-unlink}
use loomctl.Storage.Contracts.{StoredDocument}
use loomctl.Storage.File.Documents.{
  document_path, next_document, version_of, expects, get, put, remove, delete, Call, puts, deletes,
  step, run,
}

module _ {ℓ} {V : Type ℓ} where
  -- An expectation that is met is none at all, or the version that is there.
  expects-met :
      (current : Option (StoredDocument V)) (e : Option ℕ)
      → expects current e ≡ true
      → e ≡ none ⊎ e ≡ some (version_of current)
  expects-met current none h = inl refl
  expects-met current (some e) h = inr (ap some (ground arith))

  put-inv :
      (n k : String) (v : V) (e : Option ℕ) (now : ℕ) (t : Tree (StoredDocument V))
      {d : StoredDocument V} {t' : Tree (StoredDocument V)}
      → put n k v e now t ≡ ok (d, t')
      → (document_path n k ≡ ok tt)
        × (expects (read n k t) e ≡ true)
        × (next_document n k v now (read n k t) ≡ d)
        × (write n k d t ≡ t')
  unfolding put
  put-inv n k v e now t h = ground arith

  get-write :
      (n k : String) (d : StoredDocument V) (t : Tree (StoredDocument V))
      → document_path n k ≡ ok tt
      → (n' k' : String)
      → get n' k' (write n k d t) ≡ (if same_path n k n' k' then ok (some d) else get n' k' t)
  unfolding get
  get-write n k d t h n' k' = ground (arith, read-write n k n' k' d t, eq_iff n n', eq_iff k k')

  -- A put that succeeds expected no version or the one that was there, gives the document the next
  -- version, and leaves every other document as it was.
  pub put-eq-ok :
      (n k : String) (v : V) (e : Option ℕ) (now : ℕ) (t : Tree (StoredDocument V))
      {d : StoredDocument V} {t' : Tree (StoredDocument V)}
      → put n k v e now t ≡ ok (d, t')
      → (e ≡ none ⊎ e ≡ some (version_of (read n k t)))
        × (d.version ≡ version_of (read n k t) + 1)
        × (d.value ≡ v)
        × ((n' k' : String)
            → get n' k' t' ≡ (if same_path n k n' k' then ok (some d) else get n' k' t))
  put-eq-ok n k v e now t h =
      let (valid, met, next, written) = put-inv n k v e now t h in
      (
        expects-met (read n k t) e met,
        ground arith,
        ground arith,
        λ n' k'. rw (← written) (get-write n k _ t valid n' k'),
      )

  -- Read-modify-write: after a get, a put that expects another version is refused, and one that
  -- expects the version read goes through.
  pub put-get :
      (n k : String) (v : V) (e now : ℕ) (t : Tree (StoredDocument V))
      (o : Option (StoredDocument V))
      → get n k t ≡ ok o
      → put n k v (some e) now t ≡ (
          if eqb (version_of o) e
          then ok (next_document n k v now o, write n k (next_document n k v now o) t)
          else err conflict)
  unfolding put get
  put-get n k v e now t o h = ground arith

  delete-inv :
      (n k : String) (e : Option ℕ) (t : Tree (StoredDocument V)) {b : Bool}
      {t' : Tree (StoredDocument V)}
      → delete n k e t ≡ ok (b, t')
      → (document_path n k ≡ ok tt)
        × (expects (read n k t) e ≡ true)
        × (remove n k (read n k t) t ≡ (b, t'))
  unfolding delete
  delete-inv n k e t h = ground arith

  -- A delete that succeeds expected no version or the one that was there; it says whether the document
  -- was there, the document is gone after it, and every other document is as it was.
  pub delete-eq-ok :
      (n k : String) (e : Option ℕ) (t : Tree (StoredDocument V)) {b : Bool}
      {t' : Tree (StoredDocument V)}
      → delete n k e t ≡ ok (b, t')
      → (e ≡ none ⊎ e ≡ some (version_of (read n k t)))
        × ((b ≡ false) ↔ (get n k t ≡ ok none))
        × ((n' k' : String) → get n' k' t' ≡ (if same_path n k n' k' then ok none else get n' k' t))
  unfolding remove get
  delete-eq-ok n k e t h =
      let (valid, met, removed) = delete-inv n k e t h in
      (
        expects-met (read n k t) e met,
        ground arith,
        λ n' k'. ground (arith, read-unlink n k n' k' t, eq_iff n n', eq_iff k k'),
      )

  -- The call does not delete the document.
  abbrev pub Spares : String → String → Call V → Type 0
  Spares n k (puts n' k' v e now) = Unit
  Spares n k (deletes n' k' e) = same_path n' k' n k ≡ false

  step-version :
      (n k : String) (t : Tree (StoredDocument V)) (c : Call V)
      → Spares n k c
      → version_of (read n k t) ≤ version_of (read n k (step t c))
  unfolding step put delete remove
  step-version n k t (puts n' k' v e now) h = ground (
    arith,
    read-write n' k' n k (next_document n' k' v now (read n' k' t)) t,
    eq_iff n' n,
    eq_iff k' k,
  )
  step-version n k t (deletes n' k' e) h = ground (arith, read-unlink n' k' n k t)

  -- While nobody deletes a document, its version never falls.
  pub run-version :
      (n k : String) (t : Tree (StoredDocument V)) (cs : List (Call V))
      → All (Spares n k) cs
      → version_of (read n k t) ≤ version_of (read n k (run t cs))
  unfolding run
  run-version n k t [] h = omega arith
  run-version n k t (c ∷ cs) h =
      omega (arith, step-version n k t c h.0, run-version n k (step t c) cs h.1)

  stale_put :
      (n k : String) (v : V) (e now : ℕ) (t : Tree (StoredDocument V))
      → document_path n k ≡ ok tt
      → e < version_of (read n k t)
      → put n k v (some e) now t ≡ err conflict
  unfolding put
  stale_put n k v e now t h lt = ground arith

  -- No update is lost: once a put that expected version `e` has gone through, every later put of the
  -- document that expects `e` is refused, whatever documents were put and whatever other documents
  -- were deleted in between.
  pub no_lost_update :
      (n k : String) (v w : V) (e now later : ℕ) (t : Tree (StoredDocument V)) (cs : List (Call V))
      {d : StoredDocument V} {t' : Tree (StoredDocument V)}
      → put n k v (some e) now t ≡ ok (d, t')
      → All (Spares n k) cs
      → put n k w (some e) later (run t' cs) ≡ err conflict
  no_lost_update n k v w e now later t cs {d} {t'} h s =
      let (valid, met, next, written) = put-inv n k v (some e) now t h in
      stale_put n k w e later (run t' cs) valid
        (omega (arith, run-version n k t' cs s, newer met next written))
    where
      newer :
          expects (read n k t) (some e) ≡ true
          → next_document n k v now (read n k t) ≡ d
          → write n k d t ≡ t'
          → e < version_of (read n k t')
      newer met next written = ground (arith, read-write n k n k d t, eq_refl n, eq_refl k)
