-- ===== src/Workflow/Transaction/Clean.antt =====
-- `_commit_clean` and `_publish_clean` of _job_store_transaction.py. `hash` is SHA-256.
use lookfile.Prelude.{ℕ, ◌&&◌, Option, none, some, ◌==◌, nat_eq, list_eq, option_eq, if◌then◌else◌}
use lookfile.Domain.Identifiers.{Sha256}
use lookfile.Workflow.Transaction.Directory.{Bytes, Phase, clean, pending, Marker, the_marker}
use lookfile.Workflow.Transaction.Runs.{
  StoreError, corrupt_store, store_io, destination_exists, rename_uncertain, clean_uncertain, Run,
  ◌>>=◌, ◌>>◌, pure, raise, attempt, try_else,
}
use lookfile.Workflow.Transaction.Reading.{State, hash_option, read}
use lookfile.Workflow.Transaction.Writing.{torn_marker, write_slot, fsync_directory}
use lookfile.Workflow.Transaction.Publishing.{
  exchange_expected, publish_changed_state, exchange_clean,
}

-- What `_accept_clean` makes of an exception: `CorruptStore` is an answer.
abbrev pub refused : StoreError → Run (Option State)
refused corrupt_store = pure none
refused e = raise e

-- `if accepted is None: raise e`
abbrev pub accepted_or : StoreError → Option State → Run State
accepted_or e none = raise e
accepted_or e (some state) = pure state

-- The test of `_accept_clean`
abbrev pub matches : ℕ → Bytes → Option Bytes → State → Option State
matches generation snapshot events state =
    if state.generation == some generation
      && state.snapshot == some snapshot
      && state.events == events
    then some state
    else none

module _ (hash : Bytes → Sha256) where
  -- `marker_bytes`
  abbrev pub marker_of : Phase → ℕ → Bytes → Option Bytes → Option Marker
  marker_of phase generation snapshot events = some (record {
    phase = phase;
    generation = generation;
    snapshot_sha256 = hash snapshot;
    events_sha256 = hash_option hash events;
  })

  -- `_accept_clean`
  unfoldable pub accept_clean : ℕ → Bytes → Option Bytes → Run (Option State)
  accept_clean generation snapshot events =
      attempt (read hash >>= λ state. pure (matches generation snapshot events state)) refused

  -- `_compensate_clean_fsync` with the exception that it answers
  unfoldable pub compensate_clean_fsync : ℕ → Bytes → Option Bytes → StoreError → Run State
  compensate_clean_fsync generation snapshot events cause = do
    first ← accept_clean generation snapshot events
    _ ← accepted_or cause first
    fsync_directory
    accepted ← accept_clean generation snapshot events
    accepted_or corrupt_store accepted

  -- `_confirm_uncertain_clean`, and its caller's answer to it
  abbrev pub confirm_again : ℕ → Bytes → Option Bytes → Option State → Run (Option State)
  confirm_again generation snapshot events none = pure none
  confirm_again generation snapshot events (some state) =
      fsync_directory >> accept_clean generation snapshot events

  unfoldable pub confirm_uncertain_clean : ℕ → Bytes → Option Bytes → StoreError → Run State
  confirm_uncertain_clean generation snapshot events e = do
    first ← accept_clean generation snapshot events
    accepted ← confirm_again generation snapshot events first
    accepted_or e accepted

  -- The `except` clauses of `_publish_clean`
  abbrev pub on_clean : ℕ → Bytes → Option Bytes → StoreError → Run State
  on_clean generation snapshot events clean_uncertain =
      confirm_uncertain_clean generation snapshot events corrupt_store
  on_clean generation snapshot events rename_uncertain =
      confirm_uncertain_clean generation snapshot events rename_uncertain
  on_clean generation snapshot events store_io =
      compensate_clean_fsync generation snapshot events store_io
  on_clean generation snapshot events destination_exists =
      compensate_clean_fsync generation snapshot events destination_exists
  on_clean generation snapshot events e = raise e

  -- `_publish_clean` after its `try`
  unfoldable pub finish_clean : ℕ → Bytes → Option Bytes → Run State
  finish_clean generation snapshot events = do
    accepted ← accept_clean generation snapshot events
    accepted_or corrupt_store accepted

  -- `_publish_clean`
  unfoldable pub publish_clean : ℕ → ℕ → Bytes → Option Bytes → Run State
  publish_clean pending_id generation snapshot events = do
    candidate ← write_slot the_marker torn_marker (marker_of clean generation snapshot events)
    try_else (exchange_clean pending_id candidate >> fsync_directory)
        (on_clean generation snapshot events) (λ _. finish_clean generation snapshot events)

  -- `_commit_clean`
  unfoldable pub commit_clean : State → Bytes → Option Bytes → ℕ → Run State
  commit_clean current snapshot events generation = do
    pending_id ← write_slot the_marker torn_marker (marker_of pending generation snapshot events)
    exchange_expected the_marker pending_id current.marker_identity
    fsync_directory
    publish_changed_state current snapshot events
    fsync_directory
    publish_clean pending_id generation snapshot events
