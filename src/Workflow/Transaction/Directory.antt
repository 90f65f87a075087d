-- ===== src/Workflow/Transaction/Directory.antt =====
-- The directory of a job: three files, each with a swap slot that it can be exchanged with. The
-- identity of a file is its inode; a marker file holds a marker, or bytes that are none.
use lookfile.Prelude.{ℕ, ◌*◌, ◌-◌, ◌^◌, Bool, true, Option, none, some, List, leb, length}
use lookfile.Domain.Identifiers.{Sha256}
use lookfile.Workflow.JobStore.{max_events}

abbrev pub Bytes : Type 0
Bytes = List ℕ

pub data Phase : Type 0 where
  clean pending : Phase

pub record Marker : Type 0 where
  pub phase : Phase
  pub generation : ℕ
  pub snapshot_sha256 : Sha256
  pub events_sha256 : Option Sha256

pub record File (A : Type 0) : Type 0 where
  pub inode : ℕ
  pub content : A

-- A file under its final name and the one in its swap slot.
pub record Slots (A : Type 0) : Type 0 where
  pub final : Option (File A)
  pub swap : Option (File A)

pub record Directory : Type 0 where
  pub marker : Slots (Option Marker)
  pub snapshot : Slots Bytes
  pub events : Slots Bytes

-- `MAX_SNAPSHOT` and `MAX_GENERATION`
abbrev pub max_snapshot : ℕ
max_snapshot = 1024 * 1024

unfoldable pub max_generation : ℕ
max_generation = 2 ^ 63 - 1

-- One of the three names, with the largest size that `_LIMITS` gives its two slots.
pub record Place (A : Type 0) : Type 0 where
  pub slots : Directory → Slots A
  pub put : Slots A → Directory → Directory
  pub fits : A → Bool

abbrev pub the_marker : Place (Option Marker)
the_marker = record {
  slots = λ d. d.marker;
  put = λ s d. record d { marker = s };
  fits = λ _. true;
}

abbrev pub the_snapshot : Place Bytes
the_snapshot = record {
  slots = λ d. d.snapshot;
  put = λ s d. record d { snapshot = s };
  fits = λ b. leb (length b) max_snapshot;
}

abbrev pub the_events : Place Bytes
the_events = record {
  slots = λ d. d.events;
  put = λ s d. record d { events = s };
  fits = λ b. leb (length b) max_events;
}

abbrev pub content : {A : Type 0} → Option (File A) → Option A
content none = none
content (some file) = some file.content

abbrev pub inode : {A : Type 0} → Option (File A) → Option ℕ
inode none = none
inode (some file) = some file.inode
