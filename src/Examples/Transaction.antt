-- ===== src/Examples/Transaction.antt =====
-- A job's directory in which a second commit is interrupted just after its last exchange.
use lookfile.Prelude.{ℕ, ◌≡◌, refl, ◌⊎◌, false, none, some, List, [], ◌∷◌}
use lookfile.Domain.Identifiers.{Sha256}
use lookfile.Workflow.Transaction.Directory.{Bytes, clean, Slots, Directory, max_generation}
use lookfile.Workflow.Transaction.Runs.{Fault, fine, crashing, after, done, World, call, observe}
use lookfile.Workflow.Transaction.Reading.{
  State, namespace_fits, legacy_state, read_directory, read,
}
use lookfile.Workflow.Transaction.Writing.{
  write_slot, inspect_final, inspect_swap, rename_exchange, fsync_directory,
}
use lookfile.Workflow.Transaction.Publishing.{
  same_state, validate_targets, rollback_if_stable, exchange_known, publish_file,
  publish_changed_state, exchange_clean,
}
use lookfile.Workflow.Transaction.Clean.{
  accept_clean, compensate_clean_fsync, confirm_uncertain_clean, finish_clean, publish_clean,
  commit_clean, marker_of,
}
use lookfile.Workflow.Transaction.Commit.{bootstrap, create, genesis, commit_present, commit}
use lookfile.Workflow.Transaction.Cleaning.{Committed}
use lookfile.Workflow.Transaction.Atomic.{generation_after}
use lookfile.Workflow.Transaction.Outcomes.{HasContents, commit-done, commit-atomic}

-- In place of SHA-256
abbrev hash : Bytes → Sha256
hash b = b

abbrev slots_of : {A : Type 0} → ℕ → A → Slots A
slots_of n a = record { final = some (record { inode = n; content = a }); swap = none }

abbrev directory_of : ℕ → Bytes → Directory
directory_of generation snapshot = record {
  marker = slots_of 1 (marker_of hash clean generation snapshot none);
  snapshot = slots_of 2 snapshot;
  events = record { final = none; swap = none };
}

abbrev state_of : ℕ → Bytes → State
state_of generation snapshot = record {
  snapshot = some snapshot;
  events = none;
  snapshot_identity = some 2;
  events_identity = none;
  marker_identity = some 1;
  generation = some generation;
  slot_only = false;
}

abbrev world_of : List Fault → World
world_of faults = record { directory = directory_of 3 (5 ∷ []); next_inode = 10; faults = faults }

-- The sixteenth call exchanges the CLEAN marker.
abbrev at_last_exchange : List Fault
at_last_exchange =
    fine
    ∷ fine
    ∷ fine
    ∷ fine
    ∷ fine
    ∷ fine
    ∷ fine
    ∷ fine
    ∷ fine
    ∷ fine
    ∷ fine
    ∷ fine
    ∷ fine
    ∷ fine
    ∷ fine
    ∷ crashing after
    ∷ []

-- The files of the new snapshot and of the CLEAN marker are those of the two swap slots.
abbrev committed : State
committed = record {
  snapshot = some (6 ∷ []);
  events = none;
  snapshot_identity = some 11;
  events_identity = none;
  marker_identity = some 1;
  generation = some 4;
  slot_only = false;
}

commit_returns :
    (commit hash (state_of 3 (5 ∷ [])) (6 ∷ []) none none (world_of [])).0 ≡ done committed
unfolding max_generation call observe read_directory namespace_fits legacy_state read write_slot
    inspect_final inspect_swap rename_exchange fsync_directory same_state validate_targets
    rollback_if_stable exchange_known publish_file publish_changed_state exchange_clean accept_clean
    compensate_clean_fsync confirm_uncertain_clean finish_clean publish_clean commit_clean bootstrap
    create genesis commit_present commit
commit_returns = refl

commit-done_example :
    Committed hash
      (generation_after (state_of 3 (5 ∷ [])))
      (some (6 ∷ []))
      none
      committed
      (commit hash (state_of 3 (5 ∷ [])) (6 ∷ []) none none (world_of [])).1.directory
commit-done_example =
    commit-done hash (state_of 3 (5 ∷ [])) (6 ∷ []) none none (world_of []) committed commit_returns

interrupted_reads :
    read_directory hash
      (commit hash (state_of 3 (5 ∷ [])) (6 ∷ []) none none (world_of at_last_exchange)).1.directory
    ≡ done committed
unfolding max_generation call observe read_directory namespace_fits legacy_state read write_slot
    inspect_final inspect_swap rename_exchange fsync_directory same_state validate_targets
    rollback_if_stable exchange_known publish_file publish_changed_state exchange_clean accept_clean
    compensate_clean_fsync confirm_uncertain_clean finish_clean publish_clean commit_clean bootstrap
    create genesis commit_present commit
interrupted_reads = refl

commit-atomic_example :
    HasContents (some (5 ∷ [])) none committed ⊎ HasContents (some (6 ∷ [])) none committed
commit-atomic_example =
    commit-atomic hash (state_of 3 (5 ∷ [])) (6 ∷ []) none none (world_of at_last_exchange)
      committed interrupted_reads
