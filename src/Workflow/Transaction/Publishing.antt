-- ===== src/Workflow/Transaction/Publishing.antt =====
-- The steps of `commit` in _job_store_transaction.py that put a file in place. The code's `is None`
-- after an `inspect_file` is moot: a missing file is refused there.
use lookfile.Prelude.{
  ℕ, Bool, true, false, ◌&&◌, ◌||◌, Option, none, some, [], leb, length, ◌==◌, nat_eq, list_eq,
  option_eq, if◌then◌else◌,
}
use lookfile.Domain.Identifiers.{}
use lookfile.Workflow.JobStore.{max_events}
use lookfile.Workflow.Transaction.Directory.{
  Bytes, Place, the_marker, the_snapshot, the_events, max_snapshot,
}
use lookfile.Workflow.Transaction.Runs.{
  StoreError, corrupt_store, store_io, destination_exists, clean_uncertain, Run, ◌>>=◌, ◌>>◌, pure,
  raise, attempt, require,
}
use lookfile.Workflow.Transaction.Reading.{State, at_least_one}
use lookfile.Workflow.Transaction.Writing.{
  torn_bytes, write_slot, inspect_final, inspect_swap, rename_exchange, rename_noreplace,
}

-- `_same_state`; the identity of a file is its inode
unfoldable pub same_state : State → State → Bool
same_state left right =
    left.snapshot == right.snapshot
    && left.events == right.events
    && left.generation == right.generation
    && left.snapshot_identity == right.snapshot_identity
    && left.events_identity == right.events_identity
    && left.marker_identity == right.marker_identity

-- `_equivalent`
abbrev pub same_contents : State → State → Bool
same_contents left right = left.snapshot == right.snapshot && left.events == right.events

abbrev pub accepts : Option (Bytes → Bytes → Bool) → Bytes → Bytes → Bool
accepts none stored candidate = false
accepts (some equivalent) stored candidate = equivalent stored candidate

-- `_equivalent_snapshot`
abbrev pub equivalent_snapshot : Option Bytes → Bytes → Option (Bytes → Bytes → Bool) → Bool
equivalent_snapshot none candidate equivalent = false
equivalent_snapshot (some stored) candidate equivalent =
    stored == candidate || accepts equivalent stored candidate

-- `_validate_targets`
abbrev pub valid_snapshot : Bytes → Bool
valid_snapshot snapshot = at_least_one snapshot && leb (length snapshot) max_snapshot

abbrev pub valid_events : Option Bytes → Bool
valid_events none = true
valid_events (some events) = leb (length events) max_events

unfoldable pub validate_targets : Bytes → Option Bytes → Run (Unit {0})
validate_targets snapshot events = require (valid_snapshot snapshot && valid_events events) store_io

module _ {A : Type 0} (place : Place A) where
  -- `_require_published`
  unfoldable pub require_published : ℕ → Run (Unit {0})
  require_published expected = do
    current ← inspect_final place
    require (current == expected) corrupt_store

  -- `_rollback_if_stable`
  unfoldable pub rollback_if_stable : ℕ → ℕ → Run (Unit {0})
  rollback_if_stable published retired = do
    latest_final ← inspect_final place
    latest_slot ← inspect_swap place
    if latest_final == published && latest_slot == retired then rename_exchange place else pure tt

  -- `_exchange_expected` with an identity that is known
  unfoldable pub exchange_known : ℕ → ℕ → Run (Unit {0})
  exchange_known candidate expected = do
    current ← inspect_final place
    require (current == expected) corrupt_store
    rename_exchange place
    published ← inspect_final place
    retired ← inspect_swap place
    if published == candidate && retired == expected
        then pure tt
        else (rollback_if_stable published retired >> raise corrupt_store)

  abbrev pub exchange_expected : ℕ → Option ℕ → Run (Unit {0})
  exchange_expected candidate none = raise corrupt_store
  exchange_expected candidate (some expected) = exchange_known candidate expected

-- The `except` clause of `_publish_file`
abbrev pub on_publish : StoreError → Run (Unit {0})
on_publish destination_exists = raise corrupt_store
on_publish e = raise e

module _ (place : Place Bytes) where
  abbrev pub publish_by : ℕ → Option ℕ → Run (Unit {0})
  publish_by candidate none =
      attempt (rename_noreplace place) on_publish >> require_published place candidate
  publish_by candidate (some expected) = exchange_known place candidate expected

  -- `_publish_file`
  unfoldable pub publish_file : Bytes → Option ℕ → Run (Unit {0})
  publish_file data_bytes expected =
      write_slot place torn_bytes data_bytes >>= λ candidate. publish_by candidate expected

abbrev pub or_empty : Option Bytes → Bytes
or_empty none = []
or_empty (some b) = b

-- `_publish_changed_state`
unfoldable pub publish_changed_state : State → Bytes → Option Bytes → Run (Unit {0})
publish_changed_state current snapshot events =
    (if current.snapshot == some snapshot
      then pure tt
      else publish_file the_snapshot snapshot current.snapshot_identity)
    >> (if current.events == events
        then pure tt
        else publish_file the_events (or_empty events) current.events_identity)

-- The `except` clause of `_exchange_clean`
abbrev pub as_uncertain : {A : Type 0} → StoreError → Run A
as_uncertain corrupt_store = raise clean_uncertain
as_uncertain e = raise e

-- `_exchange_clean`
unfoldable pub exchange_clean : ℕ → ℕ → Run (Unit {0})
exchange_clean pending_id candidate = do
  current ← inspect_final the_marker
  require (current == pending_id) corrupt_store
  rename_exchange the_marker
  final_id ← attempt (inspect_final the_marker) as_uncertain
  retired ← attempt (inspect_swap the_marker) as_uncertain
  require (final_id == candidate && retired == pending_id) clean_uncertain
