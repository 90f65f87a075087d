-- ===== src/Workflow/Transaction/Committing.antt =====
-- `_commit_clean`: PENDING, then the changed files, then CLEAN.
use lookfile.Prelude.{
  ℕ, ◌≡◌, refl, ◌∙◌, ◌⊎◌, inl, inr, Bool, true, false, not, Option, none, some, ◌||◌, ◌==◌, nat_eq,
  list_eq, option_eq, if◌then◌else◌, ==→eq,
}
use lookfile.Domain.Identifiers.{Sha256}
use lookfile.Workflow.Transaction.Directory.{
  Bytes, pending, Marker, Directory, the_marker, the_snapshot, the_events, content,
}
use lookfile.Workflow.Transaction.Runs.{World, ◌>>◌, pure, Triple}
use lookfile.Workflow.Transaction.Triples.{On, weaken, bind, pure_rule, if_rule}
use lookfile.Workflow.Transaction.Reading.{State, is_none}
use lookfile.Workflow.Transaction.Writing.{torn_marker, fsync_directory}
use lookfile.Workflow.Transaction.Publishing.{publish_file, or_empty, publish_changed_state}
use lookfile.Workflow.Transaction.Clean.{marker_of, publish_clean, commit_clean}
use lookfile.Workflow.Transaction.Places.{syncing, writing}
use lookfile.Workflow.Transaction.Landings.{expected_lands, publish_lands}
use lookfile.Workflow.Transaction.Contents.{Holds, marker_content}
use lookfile.Workflow.Transaction.Cleaning.{the_marker-IsPlace, Committed, publishing_clean}

-- `events` can follow `before`: a journal that is there is not taken away.
abbrev pub may_follow : Option Bytes → Option Bytes → Bool
may_follow events before = is_none before || not (is_none events)

module _ (pm : Option Marker) where
  abbrev pub Marked : Directory → Type 0
  Marked d = marker_content d ≡ some pm

  -- Between the two exchanges of the marker
  abbrev pub Pending : Option Bytes → Option Bytes → Directory → Type 0
  Pending snapshot events d = Marked d × Holds snapshot events d

  changing_snapshot :
      (current : State) (old_events : Option Bytes) (snapshot : Bytes)
      → Triple
          (On (Pending current.snapshot old_events))
          (if current.snapshot == some snapshot
            then pure tt
            else publish_file the_snapshot snapshot current.snapshot_identity)
          (λ _. On (Pending (some snapshot) old_events))
          (On Marked)
  changing_snapshot current old_events snapshot =
      if_rule (current.snapshot == some snapshot)
        (λ e. pure_rule (λ w h. (h.0, (h.1.0 ∙ ==→eq _ _ e, h.1.1))))
        (λ _.
          weaken (λ w h. (h.0, h.1.1)) (λ _ w h. (h.0.0, (h.1, h.0.1))) (λ w h. h.0)
            (publish_lands the_snapshot (λ s d. refl)
              (λ d. Marked d × (content d.events.final ≡ old_events)) (λ s d h. h) snapshot
              current.snapshot_identity))

  -- The journal that is written is the one asked for, since none is not written over one.
  written_events :
      (before events : Option Bytes)
      → may_follow events before ≡ true
      → (before == events) ≡ false
      → some (or_empty events) ≡ events
  written_events before (some b) f e = refl
  written_events none none f e = cc
  written_events (some b) none f e = cc

  changing_events :
      (current : State) (snapshot : Bytes) (events : Option Bytes)
      → may_follow events current.events ≡ true
      → Triple
          (On (Pending (some snapshot) current.events))
          (if current.events == events
            then pure tt
            else publish_file the_events (or_empty events) current.events_identity)
          (λ _. On (Pending (some snapshot) events))
          (On Marked)
  changing_events current snapshot events f =
      if_rule (current.events == events)
        (λ e. pure_rule (λ w h. (h.0, (h.1.0, h.1.1 ∙ ==→eq _ _ e))))
        (λ e.
          weaken (λ w h. (h.0, h.1.0))
            (λ _ w h. (h.0.0, (h.0.1, h.1 ∙ written_events current.events events f e))) (λ w h. h.0)
            (publish_lands the_events (λ s d. refl)
              (λ d. Marked d × (content d.snapshot.final ≡ some snapshot)) (λ s d h. h)
              (or_empty events) current.events_identity))

  changing :
      (current : State) (snapshot : Bytes) (events : Option Bytes)
      → may_follow events current.events ≡ true
      → Triple
          (On (Pending current.snapshot current.events))
          (publish_changed_state current snapshot events)
          (λ _. On (Pending (some snapshot) events))
          (On Marked)
  unfolding publish_changed_state
  changing current snapshot events f =
      bind (changing_snapshot current current.events snapshot)
        (λ _. changing_events current snapshot events f)

-- Where a commit can stop: the contents are the old ones or the new ones, or the marker is PENDING.
abbrev pub Safe :
    Option Marker → Option Bytes → Option Bytes → Option Bytes → Option Bytes → Directory → Type 0
Safe pm old_snapshot old_events snapshot events d =
    Holds old_snapshot old_events d ⊎ (Holds snapshot events d ⊎ Marked pm d)

module _ (hash : Bytes → Sha256) (current : State) (snapshot : Bytes) (events : Option Bytes)
    (generation : ℕ) where
  abbrev pub pending_marker : Option Marker
  pending_marker = marker_of hash pending generation snapshot events

  abbrev pub SafeHere : World → Type 0
  SafeHere = On (Safe pending_marker current.snapshot current.events (some snapshot) events)

  after-Pending :
      (pending_id : ℕ)
      → may_follow events current.events ≡ true
      → Triple
          (On (Pending pending_marker current.snapshot current.events))
          (fsync_directory
            >> (publish_changed_state current snapshot events
                >> (fsync_directory >> publish_clean hash pending_id generation snapshot events)))
          (λ s w. Committed hash (some generation) (some snapshot) events s w.directory)
          SafeHere
  after-Pending pending_id f =
      bind
        (weaken (λ w h. h) (λ _ w h. h) (λ w h. inl h.1)
          (syncing (Pending pending_marker current.snapshot current.events)))
        (λ _.
          bind
            (weaken (λ w h. h) (λ _ w h. h.1) (λ w h. inr (inr h))
              (changing pending_marker current snapshot events f))
            (λ _.
              weaken (λ w h. h) (λ s w h. h.1) (λ w h. inr (inl h))
                (bind (syncing (Holds (some snapshot) events)) (λ _.
                  publishing_clean hash (Holds (some snapshot) events) generation snapshot events
                    (λ s d h. h) pending_id))))

  pub committing :
      may_follow events current.events ≡ true
      → Triple
          (On (Holds current.snapshot current.events))
          (commit_clean hash current snapshot events generation)
          (λ s w. Committed hash (some generation) (some snapshot) events s w.directory)
          SafeHere
  unfolding commit_clean
  committing f =
      let old = Holds current.snapshot current.events in
      bind
        (weaken (λ w h. h) (λ _ w h. h) (λ w h. inl h)
          (writing the_marker the_marker-IsPlace old (λ s d h. h) torn_marker pending_marker))
        (λ pending_id.
          bind
            (weaken (λ w h. h) (λ _ w h. h) (λ w h. inl h)
              (expected_lands the_marker the_marker-IsPlace old (λ s d h. h) pending_marker
                pending_id current.marker_identity))
            (λ _. weaken (λ w h. (h.1, h.0)) (λ s w h. h) (λ w h. h) (after-Pending pending_id f)))
