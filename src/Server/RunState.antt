-- ===== src/Server/RunState.antt =====
-- src/harness/run-state.ts: the state of a run in its directory and, where the server has a state backend, in
-- the document store. The run id is the last part of the run directory; of the directory stand here its two
-- files. A status is written under the same id.
mod Tests
use loomctl.Base.{
  ℕ, ◌≡◌, ◌≢◌, ◌⊎◌, inl, inr, refl, Bool, true, false, String, Option, none, some, Result, ok, err,
  invalid, not_found, Error, settle, ◌>>=◌, >>=-eq-ok, Bool-cases, eq_refl, ap, subst, ok-injective,
  ◌∙◌, sym, if◌then◌else◌, arith,
}
use loomctl.Base.Directory.{Tree}
use loomctl.Storage.Contracts.{StoredDocument}
use loomctl.Storage.File.Documents.{get, put}
use loomctl.Storage.File.Documents.Versions.{put-eq-ok}

-- A status that says "running" or "queued", or the summary of a run that has ended.
pub data ReadableRunState {ℓ} (V : Type ℓ) : Type ℓ where
  running queued ended : V → ReadableRunState V

abbrev pub is_open {ℓ} : {V : Type ℓ} → ReadableRunState V → Bool
is_open (running v) = true
is_open (queued v) = true
is_open (ended v) = false

-- A file of the run directory; what is `broken` is no JSON.
pub data Content {ℓ} (V : Type ℓ) : Type ℓ where
  missing broken : Content V
  holds : V → Content V

pub record RunDirectory {ℓ} (V : Type ℓ) : Type ℓ where
  pub status : Content (ReadableRunState V)
  pub summary : Content (ReadableRunState V)

-- `JSON.parse(await readFile(…))`
abbrev pub read_json {ℓ} : {V : Type ℓ} → Content V → Result V
read_json missing = err not_found
read_json broken = err invalid
read_json (holds v) = ok v

abbrev pub Documents {ℓ} : Type ℓ → Type ℓ
Documents V = Option (Tree (StoredDocument (ReadableRunState V)))

-- The directory with a new status file.
abbrev pub holding {ℓ} : {V : Type ℓ} → RunDirectory V → ReadableRunState V → RunDirectory V
holding dir s = record { status = holds s; summary = dir.summary }

module _ {ℓ} {V : Type ℓ} where
  abbrev value_of : Option (StoredDocument (ReadableRunState V)) → Option (ReadableRunState V)
  value_of none = none
  value_of (some d) = some d.value

  -- `documents?.get(…)`, and the value of what it finds.
  unfoldable pub stored : String → String → Documents V → Result (Option (ReadableRunState V))
  stored namespace run_id none = ok none
  stored namespace run_id (some t) = get namespace run_id t >>= (λ d. ok (value_of d))

  -- The catch of the second `try` of `readRunState`.
  unfoldable pub without_summary : RunDirectory V → Error → Result (ReadableRunState V)
  without_summary dir not_found = read_json dir.status
  without_summary dir reason = err reason

  -- The second `try` of `readRunState`, and its catch.
  unfoldable pub read_ended : String → Documents V → RunDirectory V → Result (ReadableRunState V)
  read_ended run_id documents dir = settle (without_summary dir) ok (
      stored "run-summary" run_id documents
      >>= (λ found. elim found [ none ↦ read_json dir.summary | some s ↦ ok s ]))

  -- The first `try` of `readRunState`, and what comes behind it.
  unfoldable pub read_status :
      String
      → Documents V
      → RunDirectory V
      → Content (ReadableRunState V)
      → Result (ReadableRunState V)
  read_status run_id documents dir missing = read_ended run_id documents dir
  read_status run_id documents dir broken = err invalid
  read_status run_id documents dir (holds s) =
      let ended = read_ended run_id documents dir in if is_open s then ok s else ended

  unfoldable pub read_run_state :
      String → Documents V → RunDirectory V → Result (ReadableRunState V)
  read_run_state run_id documents dir = stored "run-status" run_id documents >>= (λ found.
      elim found [ none ↦ read_status run_id documents dir dir.status | some s ↦ ok s ])

  abbrev absent_if_not_found : Error → Result (Option (ReadableRunState V))
  absent_if_not_found not_found = ok none
  absent_if_not_found reason = err reason

  unfoldable pub read_run_state_if_present :
      String → Documents V → RunDirectory V → Result (Option (ReadableRunState V))
  read_run_state_if_present run_id documents dir =
      settle absent_if_not_found (λ s. ok (some s)) (read_run_state run_id documents dir)

  -- `documents?.put(…)`
  unfoldable pub store :
      String → String → ReadableRunState V → ℕ → Documents V → Result (Documents V)
  store namespace run_id s now none = ok none
  store namespace run_id s now (some t) =
      put namespace run_id s none now t >>= (λ stored. ok (some stored.1))

  unfoldable pub write_run_status :
      String
      → ReadableRunState V
      → ℕ
      → Documents V
      → RunDirectory V
      → Result (Documents V × RunDirectory V)
  write_run_status run_id s now documents dir =
      store "run-status" run_id s now documents >>= (λ after. ok (after, holding dir s))

  unfoldable pub write_run_summary :
      String
      → ReadableRunState V
      → ℕ
      → Documents V
      → RunDirectory V
      → Result (Documents V × RunDirectory V)
  write_run_summary run_id s now documents dir =
      store "run-summary" run_id s now documents
      >>= (λ after. ok (after, record { status = dir.status; summary = holds s }))

  stored_back :
      (run_id : String) (s : ReadableRunState V) (now : ℕ)
      (t : Tree (StoredDocument (ReadableRunState V))) {d : StoredDocument (ReadableRunState V)}
      {t' : Tree (StoredDocument (ReadableRunState V))}
      → put "run-status" run_id s none now t ≡ ok (d, t')
      → stored "run-status" run_id (some t') ≡ ok (some s)
  unfolding stored
  stored_back run_id s now t {d} {t'} done =
      let (_, _, value, kept) = put-eq-ok "run-status" run_id s none now t done in
      let back = kept "run-status" run_id in ground (arith, eq_refl "run-status", eq_refl run_id)

  -- Without a document store.
  from_files :
      (run_id : String) (s : ReadableRunState V) (dir : RunDirectory V)
      → (is_open s ≡ true) ⊎ (dir.summary ≡ missing)
      → read_run_state run_id none (record { status = holds s; summary = dir.summary }) ≡ ok s
  unfolding read_run_state stored read_status read_ended without_summary
  from_files run_id s dir (inl is_open) = rw is_open refl
  from_files run_id (running v) dir (inr absent) = refl
  from_files run_id (queued v) dir (inr absent) = refl
  from_files run_id (ended v) dir (inr absent) = rw absent refl

  -- A status that writeRunStatus has written is what readRunState reads next, where the server has a
  -- document store, or the status is of an open run, or no summary lies in the directory.
  read_run_state-write_run_status :
      (run_id : String) (s : ReadableRunState V) (now : ℕ) (documents : Documents V)
      (dir : RunDirectory V) {documents' : Documents V} {dir' : RunDirectory V}
      → write_run_status run_id s now documents dir ≡ ok (documents', dir')
      → (documents ≢ none) ⊎ ((is_open s ≡ true) ⊎ (dir.summary ≡ missing))
      → read_run_state run_id documents' dir' ≡ ok s
  unfolding write_run_status store read_run_state
  read_run_state-write_run_status run_id s now none dir written (inl no_store) =
      absurd (no_store refl)
  read_run_state-write_run_status run_id s now none dir written (inr which) =
      subst (λ a. read_run_state run_id a.0 a.1 ≡ ok s) (ok-injective written)
        (from_files run_id s dir which)
  read_run_state-write_run_status run_id s now (some t) dir written which =
      let (_, saved, rest) = >>=-eq-ok (store "run-status" run_id s now (some t)) _ written in
      let ((d, t'), done, kept) = >>=-eq-ok (put "run-status" run_id s none now t) _ saved in
      let same =
        ap (λ documents. (documents, holding dir s)) (ok-injective kept) ∙ ok-injective rest in
      subst (λ a. read_run_state run_id a.0 a.1 ≡ ok s) same
        (rw (stored_back run_id s now t done) refl)
