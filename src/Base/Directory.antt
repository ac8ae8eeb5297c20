-- ===== src/Base/Directory.antt =====
-- A directory of files, or a table, or a hash: entries under distinct texts, in the order in which
-- they were first written.
use Prim.Native.Nat.{◌≤◌, ◌<◌, suc}
use Prim.Native.String.{String}
use mathlib.Core.Path.{◌≡◌, refl, sym, subst}
use mathlib.Core.Logic.{inl, inr}
use mathlib.Core.Bool.{Bool, ◌&&◌}
use mathlib.Core.Option.{Option, none, some}
use mathlib.Core.List.{List, [], ◌∷◌}
use native.Mathlib.Omega.{arith}
use text.Mathlib.Text.{◌==◌}
use text.Mathlib.TextEquality.{eq_iff}
use text.Mathlib.TextPositions.{eq_refl}
use loomctl.Base.Tests.{if◌then◌else◌, Bool-cases}
use loomctl.Base.Lists.{length, All}

module _ {ℓ} {V : Type ℓ} where
  -- Reading a file, by its name.
  unfoldable pub lookup : String → List (String × V) → Option V
  lookup name [] = none
  lookup name (file ∷ files) = if file.0 == name then some file.1 else lookup name files

  -- Unlinking a file.
  unfoldable pub erase : String → List (String × V) → List (String × V)
  erase name [] = []
  erase name (file ∷ files) = if file.0 == name then erase name files else file ∷ erase name files

  pub lookup-erase :
      (name asked : String) (files : List (String × V))
      → lookup asked (erase name files) ≡ (if name == asked then none else lookup asked files)
  unfolding lookup erase
  lookup-erase name asked [] = ground arith
  lookup-erase name asked (file ∷ files) = ground (
    arith,
    lookup-erase name asked files,
    eq_iff name asked,
    eq_iff file.0 name,
    eq_iff file.0 asked,
  )

  -- Writing a file: its content is replaced where it stands, or the file is new and comes last.
  unfoldable pub insert : String → V → List (String × V) → List (String × V)
  insert name content [] = (name, content) ∷ []
  insert name content (file ∷ files) =
      if file.0 == name then (file.0, content) ∷ files else file ∷ insert name content files

  -- A write is read back, and no other file is touched.
  pub lookup-insert :
      (name asked : String) (content : V) (files : List (String × V))
      → lookup asked (insert name content files)
        ≡ (if name == asked then some content else lookup asked files)
  unfolding lookup insert
  lookup-insert name asked content [] = refl
  lookup-insert name asked content (file ∷ files) = ground (
    arith,
    lookup-insert name asked content files,
    eq_iff name asked,
    eq_iff file.0 name,
    eq_iff file.0 asked,
  )

  pub lookup-insert_self :
      (name : String) (content : V) (files : List (String × V))
      → lookup name (insert name content files) ≡ some content
  lookup-insert_self name content files = simp (lookup-insert, eq_refl)

  pub length-insert :
      (k : String) (v : V) (m : List (String × V)) → length (insert k v m) ≤ suc (length m)
  unfolding insert
  length-insert k v [] = omega arith
  length-insert k v ((j, w) ∷ m) = ground (arith, length-insert k v m)

-- Directories in a directory: `<folder>/<name>`.
abbrev pub Tree {ℓ} : Type ℓ → Type ℓ
Tree V = List (String × List (String × V))

abbrev pub same_path : String → String → String → String → Bool
same_path d k d' k' = (d == d') && (k == k')

module _ {ℓ} {V : Type ℓ} where
  -- A folder that is not there has no entries.
  unfoldable pub folder : String → Tree V → List (String × V)
  folder d t = elim (lookup d t) [ none ↦ [] | some files ↦ files ]

  unfoldable pub read : String → String → Tree V → Option V
  read d k t = lookup k (folder d t)

  unfoldable pub write : String → String → V → Tree V → Tree V
  write d k v t = insert d (insert k v (folder d t)) t

  unfoldable pub unlink : String → String → Tree V → Tree V
  unlink d k t = insert d (erase k (folder d t)) t

  pub folder-insert :
      (d e : String) (files : List (String × V)) (t : Tree V)
      → folder e (insert d files t) ≡ (if d == e then files else folder e t)
  unfolding folder
  folder-insert d e files t = ground (arith, lookup-insert d e files t)

  pub read-write :
      (d k e j : String) (v : V) (t : Tree V)
      → read e j (write d k v t) ≡ (if same_path d k e j then some v else read e j t)
  unfolding read write
  read-write d k e j v t = ground (
    arith,
    folder-insert d e (insert k v (folder d t)) t,
    lookup-insert k j v (folder d t),
    eq_iff d e,
  )

  pub read-unlink :
      (d k e j : String) (t : Tree V)
      → read e j (unlink d k t) ≡ (if same_path d k e j then none else read e j t)
  unfolding read unlink
  read-unlink d k e j t =
      ground (
        arith,
        folder-insert d e (erase k (folder d t)) t,
        lookup-erase k j (folder d t),
        eq_iff d e,
      )

module _ {ℓ} {V : Type ℓ} where
  -- Writing a file that is there adds none.
  pub length-insert_old :
      (k : String) (v w : V) (m : List (String × V))
      → lookup k m ≡ some w
      → length (insert k v m) ≡ length m
  unfolding lookup insert
  length-insert_old k v w [] h = cc
  length-insert_old k v w ((j, u) ∷ m) h = ground (arith, length-insert_old k v w m)

  pub length-erase : (k : String) (m : List (String × V)) → length (erase k m) ≤ length m
  unfolding erase
  length-erase k [] = omega arith
  length-erase k ((j, u) ∷ m) = ground (arith, length-erase k m)

  pub length-erase_old :
      (k : String) (w : V) (m : List (String × V))
      → lookup k m ≡ some w
      → length (erase k m) < length m
  unfolding lookup erase
  length-erase_old k w [] h = cc
  length-erase_old k w ((j, u) ∷ m) h = ground (arith, length-erase k m, length-erase_old k w m)

  -- What holds of every file holds after a write of a file for which it holds, and after an unlink.
  module _ {κ} (P : String → V → Type κ) where
    pub All-insert :
        (k : String) (v : V) (m : List (String × V))
        → P k v
        → All (λ f. P f.0 f.1) m
        → All (λ f. P f.0 f.1) (insert k v m)
    unfolding insert
    All-insert k v [] p h = (p, tt)
    All-insert k v ((j, w) ∷ m) p (q, h) = elim (Bool-cases (j == k)) [
      | inl same ↦ rw same (subst (λ i. P i v) (sym ((eq_iff j k).0 same)) p, h)
      | inr other ↦ rw other (q, All-insert k v m p h)
    ]

    pub All-erase :
        (k : String) (m : List (String × V))
        → All (λ f. P f.0 f.1) m
        → All (λ f. P f.0 f.1) (erase k m)
    unfolding erase
    All-erase k [] h = tt
    All-erase k ((j, w) ∷ m) (q, h) = elim (Bool-cases (j == k)) [
      | inl same ↦ rw same (All-erase k m h)
      | inr other ↦ rw other (q, All-erase k m h)
    ]
