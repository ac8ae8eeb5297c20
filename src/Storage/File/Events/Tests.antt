-- ===== src/Storage/File/Events/Tests.antt =====
-- Tests of the event store.
use loomctl.Base.{ℕ, ◌+◌, ◌≡◌, refl, String, List, [], ◌∷◌, ◌++◌, ◌==◌, if◌then◌else◌, ok}
use loomctl.Base.Directory.{insert, lookup}
use loomctl.Storage.Names.{is_state_name}
use loomctl.Storage.Contracts.{StoredEvent}
use loomctl.Storage.File.Events.{
  Line, junk, event, append, append_all, page, read_event_file, last_seq,
}
use loomctl.Storage.File.Events.Sequence.{
  IsDense, events, cursor, append-eq-ok, append_all-IsDense, page-page,
}

abbrev first_event : StoredEvent ℕ
first_event = record { stream = "run:a"; seq = 1; ts = 10; value = 4 }

abbrev second_event : StoredEvent ℕ
second_event = record { stream = "run:a"; seq = 2; ts = 11; value = 6 }

abbrev store : List (String × List (Line ℕ))
store = ("run:a", event first_event ∷ junk ∷ []) ∷ []

append_second :
    append "run:a" 6 11 store
    ≡ ok (second_event, ("run:a", event first_event ∷ junk ∷ event second_event ∷ []) ∷ [])
unfolding append is_state_name read_event_file insert lookup
append_second = refl

append-eq-ok_example :
    (second_event.value ≡ 6)
    × (second_event.seq ≡ last_seq (events "run:a" store) + 1)
    × ((other : String)
        → events other (("run:a", event first_event ∷ junk ∷ event second_event ∷ []) ∷ []) ≡ (
            if "run:a" == other
            then events "run:a" store ++ second_event ∷ []
            else events other store))
append-eq-ok_example = append-eq-ok "run:a" 6 11 store append_second

append_all-IsDense_example :
    IsDense {V = ℕ} 0
      (events "run:a" (append_all [] (("run:a", 4, 10) ∷ ("b", 1, 10) ∷ ("run:a", 6, 11) ∷ [])))
append_all-IsDense_example =
    append_all-IsDense (("run:a", 4, 10) ∷ ("b", 1, 10) ∷ ("run:a", 6, 11) ∷ []) "run:a"

page-page_example :
    page 0 1 (first_event ∷ second_event ∷ [])
      ++ page
          (cursor 0 (page 0 1 (first_event ∷ second_event ∷ [])))
          5
          (first_event ∷ second_event ∷ [])
    ≡ page 0 6 (first_event ∷ second_event ∷ [])
page-page_example = page-page 0 1 5 (first_event ∷ second_event ∷ []) (refl, (refl, tt))
