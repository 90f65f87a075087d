-- ===== src/Workflow/Transaction/Contents.antt =====
-- What a directory that can be read holds: the contents that `read` returns are those of the final
-- names, and a directory whose marker is PENDING cannot be read.
use lookfile.Prelude.{
  ℕ, ◌≡◌, ◌≢◌, arith, refl, Bool, true, false, Option, none, some, if◌then◌else◌,
}
use lookfile.Domain.Identifiers.{Sha256}
use lookfile.Workflow.Transaction.Directory.{
  Bytes, pending, Marker, File, Directory, content, inode,
}
use lookfile.Workflow.Transaction.Runs.{
  corrupt_store, Outcome, done, raised, crashed, from_outcome, store_io, Triple,
}
use lookfile.Workflow.Transaction.Reading.{
  State, legacy_state, read_marked, read_by, read_directory, namespace_fits, read,
}
use lookfile.Workflow.Transaction.Triples.{On, bind, call_rule}

-- The contents under the two final names that hold them
abbrev pub Holds : Option Bytes → Option Bytes → Directory → Type 0
Holds snapshot events d = (content d.snapshot.final ≡ snapshot) × (content d.events.final ≡ events)

abbrev pub marker_content : Directory → Option (Option Marker)
marker_content d = content d.marker.final

-- The generation that a marker file gives a state that is read
abbrev pub generation_of : Option (Option Marker) → Option ℕ
generation_of (some (some marker)) = some marker.generation
generation_of (some none) = none
generation_of none = none

-- What a state that was read has in common with its directory
abbrev pub Shows : Directory → State → Type 0
Shows d s =
    (s.snapshot ≡ content d.snapshot.final)
    × (s.events ≡ content d.events.final)
    × (s.generation ≡ generation_of (marker_content d))
    × (s.snapshot_identity ≡ inode d.snapshot.final)
    × (s.events_identity ≡ inode d.events.final)
    × (s.marker_identity ≡ inode d.marker.final)

module _ (hash : Bytes → Sha256) where
  legacy-Shows :
      (d : Directory) (s : State) → d.marker.final ≡ none → legacy_state d ≡ done s → Shows d s
  unfolding legacy_state
  legacy-Shows d s h r = ground arith

  marked-Shows :
      (d : Directory) (m : File (Option Marker)) (s : State)
      → d.marker.final ≡ some m
      → read_marked hash d m.inode m.content d.snapshot.final ≡ done s
      → Shows d s
  marked-Shows d m s h r = ground arith

  by-Shows :
      (d : Directory) (s : State) (m : Option (File (Option Marker)))
      → d.marker.final ≡ m
      → read_by hash d m ≡ done s
      → Shows d s
  by-Shows d s none h r = legacy-Shows d s h r
  by-Shows d s (some m) h r = marked-Shows d m s h r

  pub fitting :
      (b : Bool) (o : Outcome State) (s : State)
      → (if b then o else raised corrupt_store) ≡ done s
      → o ≡ done s
  fitting true o s r = r
  fitting false o s r = cc

  pub read-Shows : (d : Directory) (s : State) → read_directory hash d ≡ done s → Shows d s
  unfolding read_directory
  read-Shows d s r = by-Shows d s d.marker.final refl (fitting (namespace_fits d) _ s r)

  -- A directory whose marker is PENDING is never read, whatever else it holds.
  pub read_pending :
      (d : Directory) (m : Marker) (s : State)
      → marker_content d ≡ some (some m)
      → m.phase ≡ pending
      → read_directory hash d ≢ done s
  unfolding read_directory
  read_pending d m s h p r = ground arith

  -- A run of `read` leaves the directory as it is, and returns what the directory shows.
  pub reading :
      (D : Directory → Type 0)
      → Triple
          (On D)
          (read hash)
          (λ s w. D w.directory × (read_directory hash w.directory ≡ done s))
          (On D)
  unfolding read
  reading D =
      bind
        (call_rule D (λ o w. D w.directory × (read_directory hash w.directory ≡ o)) (On D) store_io
          _ _ (λ w d. (d, refl)) (λ w d. d) (λ w d. d) (λ n w d. d))
        answering
    where
      answering :
          (o : Outcome State)
          → Triple
              (λ w. D w.directory × (read_directory hash w.directory ≡ o))
              (from_outcome o)
              (λ s w. D w.directory × (read_directory hash w.directory ≡ done s))
              (On D)
      answering (done s) = record { ends = λ w h. h }
      answering (raised e) = record { ends = λ w h. h.0 }
      answering crashed = record { ends = λ w h. h.0 }
