-- ===== src/Storage/File/Events.antt =====
-- `createFileEventStore` of src/harness/storage/file.ts: numbered events, one stream to a file of
-- lines. A line that is empty, no JSON or no event is `junk`.
pub mod Sequence
mod Tests
use loomctl.Base.{
  ℕ, suc, ◌+◌, ◌≡◌, Bool, true, false, ◌&&◌, String, Option, none, some, List, [], ◌∷◌, ◌++◌, ltb,
  leb, if◌then◌else◌, ◌==◌, take, keep, Result, ok, err, invalid, ◌>>=◌, ◌>>◌, check, after,
}
use loomctl.Base.Directory.{lookup, insert}
use loomctl.Storage.Names.{assert_state_name}
use loomctl.Storage.Contracts.{StoredEvent}

pub data Line {ℓ} (V : Type ℓ) : Type ℓ where
  junk : Line V
  event : StoredEvent V → Line V

module _ {ℓ} {V : Type ℓ} where
  -- `readEventFile`
  unfoldable pub read_event_file : String → List (Line V) → List (StoredEvent V)
  read_event_file stream [] = []
  read_event_file stream (junk ∷ ls) = read_event_file stream ls
  read_event_file stream (event e ∷ ls) =
      let rest = read_event_file stream ls in
      if (e.stream == stream) && ltb 0 e.seq then e ∷ rest else rest

  -- `events.at(-1)?.seq ?? 0`
  abbrev pub last_seq : List (StoredEvent V) → ℕ
  last_seq [] = 0
  last_seq (e ∷ []) = e.seq
  last_seq (e ∷ (f ∷ es)) = last_seq (f ∷ es)

  -- A stream whose file is not there has no lines.
  abbrev pub lines : String → List (String × List (Line V)) → List (Line V)
  lines stream s = elim (lookup stream s) [ none ↦ [] | some ls ↦ ls ]

  abbrev pub next_event : String → V → ℕ → List (Line V) → StoredEvent V
  next_event stream value now ls = record {
    stream = stream;
    seq = last_seq (read_event_file stream ls) + 1;
    ts = now;
    value = value;
  }

  unfoldable pub append :
      String
      → V
      → ℕ
      → List (String × List (Line V))
      → Result (StoredEvent V × List (String × List (Line V)))
  append stream value now s = do
    assert_state_name stream
    let e = next_event stream value now (lines stream s)
    ok (e, insert stream (lines stream s ++ event e ∷ []) s)

  abbrev pub page : ℕ → ℕ → List (StoredEvent V) → List (StoredEvent V)
  page after_seq limit es = take limit (keep (λ e. ltb after_seq e.seq) es)

  unfoldable pub read :
      String → ℕ → ℕ → List (String × List (Line V)) → Result (List (StoredEvent V))
  read stream after_seq limit s = do
    check (leb 1 limit) invalid
    assert_state_name stream
    ok (page after_seq limit (read_event_file stream (lines stream s)))

  -- A history of appends; one that throws changes nothing.
  unfoldable pub append_all :
      List (String × List (Line V)) → List (String × V × ℕ) → List (String × List (Line V))
  append_all s [] = s
  append_all s ((stream, value, now) ∷ calls) =
      append_all (after s (append stream value now s)) calls
