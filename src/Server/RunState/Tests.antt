-- ===== src/Server/RunState/Tests.antt =====
-- Tests of the state of a run.
use loomctl.Base.{ℕ, ◌≡◌, refl, none, some, [], ok, err, settle}
use loomctl.Base.Directory.{read, write, folder, lookup, insert}
use loomctl.Storage.Names.{is_state_name}
use loomctl.Storage.File.Documents.{get, put}
use loomctl.Server.RunState.{
  read_run_state_if_present, running, ended, missing, holds, RunDirectory, stored, store,
  without_summary, read_ended, read_status, read_run_state, write_run_status, write_run_summary,
}

abbrev new_directory : RunDirectory ℕ
new_directory = record { status = missing; summary = missing }

abbrev with_both : RunDirectory ℕ
with_both = record { status = holds (ended 1); summary = holds (ended 2) }

nothing_there : read_run_state_if_present "r1" none new_directory ≡ ok none
unfolding read_run_state_if_present read_run_state stored read_status read_ended without_summary
nothing_there = refl

summary_first : read_run_state "r1" none with_both ≡ ok (ended 2)
unfolding read_run_state stored read_status read_ended without_summary
summary_first = refl

open_status_first :
    read_run_state {V = ℕ} "r1" none
      (record { status = holds (running 1); summary = holds (ended 2) })
    ≡ ok (running 1)
unfolding read_run_state stored read_status read_ended without_summary
open_status_first = refl

summary_saved :
    write_run_summary "r1" (ended 2) 10 none new_directory
    ≡ ok (none, record { status = missing; summary = holds (ended 2) })
unfolding write_run_summary store
summary_saved = refl

-- With a document store, the status there goes before the summary.
summary_behind_status :
    settle err
      (λ a. read_run_state "r1" a.0 a.1)
      (settle err
        (λ a. write_run_summary "r1" (ended 2) 20 a.0 a.1)
        (write_run_status "r1" (running 1) 10 (some []) new_directory))
    ≡ ok (running 1)
unfolding write_run_status write_run_summary store read_run_state stored get put is_state_name read
    write folder lookup insert
summary_behind_status = refl
