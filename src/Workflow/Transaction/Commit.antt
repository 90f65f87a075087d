-- ===== src/Workflow/Transaction/Commit.antt =====
-- `commit` and `genesis` of _job_store_transaction.py. `hash` is SHA-256, `equivalent` the test that
-- the store passes.
use lookfile.Prelude.{
  ℕ, ◌+◌, Bool, true, false, not, ◌&&◌, ◌||◌, Option, none, some, ◌==◌, nat_eq, list_eq, option_eq,
  if◌then◌else◌,
}
use lookfile.Domain.Identifiers.{Sha256}
use lookfile.Workflow.Transaction.Directory.{Bytes, clean, the_marker, the_snapshot, max_generation}
use lookfile.Workflow.Transaction.Runs.{
  StoreError, corrupt_store, store_io, destination_exists, rename_uncertain, generation_exhausted,
  assertion_failed, Run, ◌>>=◌, ◌>>◌, pure, raise, try_else, require,
}
use lookfile.Workflow.Transaction.Reading.{State, absent, legacy, is_none, read}
use lookfile.Workflow.Transaction.Writing.{
  torn_marker, torn_bytes, write_slot, rename_noreplace, fsync_directory,
}
use lookfile.Workflow.Transaction.Clean.{marker_of, commit_clean}
use lookfile.Workflow.Transaction.Publishing.{
  same_state, same_contents, equivalent_snapshot, valid_snapshot, validate_targets,
  require_published,
}

-- The tests of the `except` clauses of `_bootstrap`
abbrev pub is_bootstrapped : State → State → Bool
is_bootstrapped concurrent before =
    concurrent.generation == some 0 && same_contents concurrent before

abbrev pub is_same_genesis : State → Bytes → Option (Bytes → Bytes → Bool) → Bool
is_same_genesis state snapshot equivalent =
    equivalent_snapshot state.snapshot snapshot equivalent && is_none state.events

abbrev pub next_generation : Option ℕ → Run ℕ
next_generation none = raise assertion_failed
next_generation (some generation) = pure (generation + 1)

module _ (hash : Bytes → Sha256) where
  abbrev pub on_bootstrap : State → StoreError → Run State
  on_bootstrap before destination_exists = do
    concurrent ← read hash
    if is_bootstrapped concurrent before then pure concurrent else raise corrupt_store
  on_bootstrap before rename_uncertain = do
    concurrent ← read hash
    if is_bootstrapped concurrent before
        then (fsync_directory >> pure concurrent)
        else raise rename_uncertain
  on_bootstrap before e = raise e

  -- `_bootstrap` after the rename
  unfoldable pub finish_bootstrap : ℕ → Run State
  finish_bootstrap candidate =
      require_published the_marker candidate >> (fsync_directory >> read hash)

  abbrev pub bootstrap_snapshot : State → Option Bytes → Run State
  bootstrap_snapshot before none = raise assertion_failed
  bootstrap_snapshot before (some snapshot) = do
    require (legacy before) assertion_failed
    candidate ← write_slot the_marker torn_marker (marker_of hash clean 0 snapshot before.events)
    try_else (rename_noreplace the_marker) (on_bootstrap before) (λ _. finish_bootstrap candidate)

  -- `_bootstrap`
  unfoldable pub bootstrap : State → Run State
  bootstrap before = bootstrap_snapshot before before.snapshot

  -- The rest of `_accept_existing_genesis`, and that of `genesis` when it finds a snapshot
  abbrev pub or_bootstrap : State → Run State
  or_bootstrap state = if legacy state then bootstrap state else pure state

  -- `_accept_existing_genesis`
  unfoldable pub accept_existing_genesis : Bytes → Option (Bytes → Bytes → Bool) → Bool → Run State
  accept_existing_genesis snapshot equivalent uncertain = do
    concurrent ← read hash
    require (is_same_genesis concurrent snapshot equivalent)
        (if uncertain then rename_uncertain else corrupt_store)
    if uncertain then fsync_directory else pure tt
    or_bootstrap concurrent

  abbrev pub on_genesis : Bytes → Option (Bytes → Bytes → Bool) → StoreError → Run State
  on_genesis snapshot equivalent destination_exists =
      accept_existing_genesis snapshot equivalent false
  on_genesis snapshot equivalent rename_uncertain = accept_existing_genesis snapshot equivalent true
  on_genesis snapshot equivalent e = raise e

  -- `genesis` after the rename
  unfoldable pub finish_genesis : ℕ → Run State
  finish_genesis candidate = do
    require_published the_snapshot candidate
    fsync_directory
    created ← read hash
    bootstrap created

  -- `genesis` of a directory without a snapshot
  unfoldable pub create : Bytes → Option (Bytes → Bytes → Bool) → Run State
  create snapshot equivalent = do
    candidate ← write_slot the_snapshot torn_bytes snapshot
    try_else (rename_noreplace the_snapshot) (on_genesis snapshot equivalent)
        (λ _. finish_genesis candidate)

  -- `genesis`
  unfoldable pub genesis : Bytes → Option (Bytes → Bytes → Bool) → Run State
  genesis snapshot equivalent = do
    require (valid_snapshot snapshot) store_io
    current ← read hash
    if absent current
        then create snapshot equivalent
        else (require (is_same_genesis current snapshot equivalent) corrupt_store
            >> or_bootstrap current)

  -- `commit` of a directory that has a snapshot
  unfoldable pub commit_present : State → Bytes → Option Bytes → Run State
  commit_present current snapshot events = do
    require (not (current.generation == some max_generation)) generation_exhausted
    require (is_none current.events || not (is_none events)) corrupt_store
    marked ← or_bootstrap current
    generation ← next_generation marked.generation
    commit_clean hash marked snapshot events generation

  -- `commit`
  unfoldable pub commit : State → Bytes → Option Bytes → Option (Bytes → Bytes → Bool) → Run State
  commit expected snapshot events equivalent = do
    validate_targets snapshot events
    current ← read hash
    require (same_state current expected) corrupt_store
    if absent current
        then (require (is_none events) corrupt_store >> genesis snapshot equivalent)
        else commit_present current snapshot events
