-- ===== src/Workflow/Transaction/Reading.antt =====
-- `read` of _job_store_transaction.py. The directory stands still while it is read, so the second
-- look at the names and identities in `_complete_read` sees what the first one saw. `hash` is SHA-256.
use lookfile.Prelude.{
  ℕ, Bool, true, false, not, ◌&&◌, Option, none, some, leb, length, ◌==◌, nat_eq, list_eq,
  option_eq, if◌then◌else◌,
}
use lookfile.Domain.Identifiers.{Sha256}
use lookfile.Workflow.Transaction.Directory.{
  Bytes, Phase, clean, pending, Marker, File, Directory, the_snapshot, the_events, max_generation,
  content, inode,
}
use lookfile.Workflow.Transaction.Runs.{
  corrupt_store, store_io, Outcome, done, raised, Run, call, from_outcome, ◌>>=◌,
}

-- `State`
pub record State : Type 0 where
  pub snapshot : Option Bytes
  pub events : Option Bytes
  pub snapshot_identity : Option ℕ
  pub events_identity : Option ℕ
  pub marker_identity : Option ℕ
  pub generation : Option ℕ
  pub slot_only : Bool

abbrev pub is_none : {A : Type 0} → Option A → Bool
is_none none = true
is_none (some _) = false

-- `State.absent` and `State.legacy`
abbrev pub absent : State → Bool
absent state = is_none state.snapshot

abbrev pub legacy : State → Bool
legacy state = not (is_none state.snapshot) && is_none state.marker_identity

abbrev slot_fits : {A : Type 0} → (A → Bool) → Option (File A) → Bool
slot_fits fits none = true
slot_fits fits (some file) = fits file.content

abbrev pub at_least_one : Bytes → Bool
at_least_one b = leb 1 (length b)

-- The sizes that `_validate_namespace` checks; a directory has no other names.
unfoldable pub namespace_fits : Directory → Bool
namespace_fits d =
    slot_fits the_snapshot.fits d.snapshot.final
    && slot_fits at_least_one d.snapshot.final
    && slot_fits the_snapshot.fits d.snapshot.swap
    && slot_fits the_events.fits d.events.final
    && slot_fits the_events.fits d.events.swap

-- `bool(names)` where there is no snapshot and no marker
abbrev pub any_slot : Directory → Bool
any_slot d = not (is_none d.marker.swap && is_none d.snapshot.swap && is_none d.events.swap)

-- `_legacy_state`
unfoldable pub legacy_state : Directory → Outcome State
legacy_state d =
    if is_none d.snapshot.final
    then (if is_none d.events.final
        then done (record {
          snapshot = none;
          events = none;
          snapshot_identity = none;
          events_identity = none;
          marker_identity = none;
          generation = none;
          slot_only = any_slot d;
        })
        else raised corrupt_store)
    else done (record {
      snapshot = content d.snapshot.final;
      events = content d.events.final;
      snapshot_identity = inode d.snapshot.final;
      events_identity = inode d.events.final;
      marker_identity = none;
      generation = none;
      slot_only = false;
    })

abbrev pub is_clean : Phase → Bool
is_clean clean = true
is_clean pending = false

module _ (hash : Bytes → Sha256) where
  abbrev pub hash_option : Option Bytes → Option Sha256
  hash_option none = none
  hash_option (some b) = some (hash b)

  -- `_verify_hashes`
  abbrev pub hashes_match : Marker → Bytes → Option Bytes → Bool
  hashes_match marker snapshot events =
      marker.snapshot_sha256 == hash snapshot && marker.events_sha256 == hash_option events

  -- `read` below the marker file's content; bytes that are no marker are refused.
  abbrev pub read_marked : Directory → ℕ → Option Marker → Option (File Bytes) → Outcome State
  read_marked d marker_inode parsed none = raised corrupt_store
  read_marked d marker_inode none (some snapshot) = raised corrupt_store
  read_marked d marker_inode (some marker) (some snapshot) =
      if leb marker.generation max_generation
        && is_clean marker.phase
        && hashes_match marker snapshot.content (content d.events.final)
      then done (record {
        snapshot = some snapshot.content;
        events = content d.events.final;
        snapshot_identity = some snapshot.inode;
        events_identity = inode d.events.final;
        marker_identity = some marker_inode;
        generation = some marker.generation;
        slot_only = false;
      })
      else raised corrupt_store

  abbrev pub read_by : Directory → Option (File (Option Marker)) → Outcome State
  read_by d none = legacy_state d
  read_by d (some file) = read_marked d file.inode file.content d.snapshot.final

  -- What `read` makes of a directory.
  unfoldable pub read_directory : Directory → Outcome State
  read_directory d =
      let outcome = read_by d d.marker.final in
      if namespace_fits d then outcome else raised corrupt_store

  -- `read`, in a world where its calls can fail
  unfoldable pub read : Run State
  read = call store_io (λ w. (read_directory w.directory, w)) (λ _ w. w) >>= from_outcome
