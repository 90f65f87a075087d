-- ===== src/Workflow/Transaction/Beginning.antt =====
-- `genesis` on a directory without a snapshot, and the bootstrap of one that has no marker.
use lookfile.Prelude.{
  ℕ, ◌≡◌, ◌≢◌, arith, refl, ap, sym, ◌∙◌, ◌⊎◌, inl, inr, Bool, true, false, not, Option, none, some,
  ◌&&◌, nat_eq, list_eq, option_eq, if◌then◌else◌, and_inv,
}
use lookfile.Domain.Identifiers.{Sha256}
use lookfile.Workflow.Transaction.Directory.{
  Bytes, Marker, File, Directory, the_snapshot, content, inode,
}
use lookfile.Workflow.Transaction.Runs.{
  StoreError, corrupt_store, store_io, destination_exists, rename_uncertain, generation_exhausted,
  clean_uncertain, assertion_failed, done, World, pure, Triple,
}
use lookfile.Workflow.Transaction.Triples.{
  On, weaken, try_rule, bind, pure_rule, raise_rule, require_rule, if_rule, with_fact,
}
use lookfile.Workflow.Transaction.Reading.{
  State, absent, legacy, is_none, legacy_state, read_by, read_directory, namespace_fits,
}
use lookfile.Workflow.Transaction.Writing.{torn_bytes, fsync_directory}
use lookfile.Workflow.Transaction.Publishing.{valid_snapshot, equivalent_snapshot}
use lookfile.Workflow.Transaction.Commit.{
  bootstrap, or_bootstrap, is_same_genesis, accept_existing_genesis, on_genesis, finish_genesis,
  create, genesis,
}
use lookfile.Workflow.Transaction.Places.{
  requiring, syncing, Swapped, Landed, writing, moving, confirming,
}
use lookfile.Workflow.Transaction.Contents.{Holds, Shows, read-Shows, reading, fitting}
use lookfile.Workflow.Transaction.Cleaning.{Committed}
use lookfile.Workflow.Transaction.Marking.{shown, Found, bootstrapping}

-- The generation of a state, once it has a marker
abbrev pub marked_generation : State → Option ℕ
marked_generation s = if legacy s then some 0 else s.generation

module _ (hash : Bytes → Sha256) where
  pub bootstrapping_if :
      (snapshot events : Option Bytes) (s : State)
      → Triple
          (On (Found hash snapshot events s))
          (or_bootstrap hash s)
          (λ r w. Committed hash (marked_generation s) snapshot events r w.directory)
          (On (Holds snapshot events))
  bootstrapping_if snapshot events s = by_legacy (legacy s)
    where
      by_legacy :
          (b : Bool)
          → Triple
              (On (Found hash snapshot events s))
              (if b then bootstrap hash s else pure s)
              (λ r w.
                Committed hash (if b then some 0 else s.generation) snapshot events r w.directory)
              (On (Holds snapshot events))
      by_legacy true =
          weaken (λ w h. h.0) (λ r w h. h) (λ w h. h) (bootstrapping hash snapshot events s)
      by_legacy false =
          pure_rule (λ w h. shown hash snapshot events w.directory s s.generation h.0 h.1 refl)

  -- Without a snapshot and a marker
  abbrev pub Empty : Directory → Type 0
  Empty d = Holds none none d × (d.marker.final ≡ none)

  absent_by :
      (d : Directory) (s : State) (m : Option (File (Option Marker)))
      → d.snapshot.final ≡ none
      → read_by hash d m ≡ done s
      → (m ≡ none) × (d.events.final ≡ none)
  unfolding legacy_state
  absent_by d s none e r = ground arith
  absent_by d s (some m) e r = ground arith

  -- A state without a snapshot is read only from a directory that has no journal and no marker.
  pub absent-Empty :
      (d : Directory) (s : State) → absent s ≡ true → read_directory hash d ≡ done s → Empty d
  unfolding read_directory
  absent-Empty d s e r =
      let shows = read-Shows hash d s r in
      let none_read = no_snapshot s.snapshot e in
      let f =
        absent_by d s d.marker.final (no_file _ (sym shows.0 ∙ none_read))
          (fitting hash (namespace_fits d) _ s r) in
      ((sym shows.0 ∙ none_read, ap content f.1), f.0)
    where
      no_file : (f : Option (File Bytes)) → content f ≡ none → f ≡ none
      no_file none e = refl
      no_file (some f) e = cc

      no_snapshot : (o : Option Bytes) → is_none o ≡ true → o ≡ none
      no_snapshot none e = refl
      no_snapshot (some b) e = cc

  -- Where a genesis of a snapshot can stop
  abbrev pub Begun : Bytes → Directory → Type 0
  Begun snapshot d = Holds (some snapshot) none d × (d.marker.final ≡ none)

  abbrev pub Beginning : Bytes → Directory → Type 0
  Beginning snapshot d = Empty d ⊎ Begun snapshot d

  Begun-generation :
      (snapshot : Bytes) (s : State) (d : Directory)
      → Begun snapshot d
      → read_directory hash d ≡ done s
      → marked_generation s ≡ some 0
  Begun-generation snapshot s d h r =
      marked_by s.snapshot s.marker_identity s.generation (shows.0 ∙ h.0.0) (shows.5 ∙ ap inode h.1)
    where
      shows : Shows d s
      shows = read-Shows hash d s r

      marked_by :
          (snap : Option Bytes) (i g : Option ℕ)
          → snap ≡ some snapshot
          → i ≡ none
          → (if not (is_none snap) && is_none i then some 0 else g) ≡ some 0
      marked_by none i g e f = cc
      marked_by (some b) none g e f = refl
      marked_by (some b) (some j) g e f = cc

  module _ (snapshot : Bytes) (equivalent : Option (Bytes → Bytes → Bool)) where
    abbrev Made : State → World → Type 0
    Made s w = Committed hash (some 0) (some snapshot) none s w.directory

    marking :
        (s : State)
        → Triple
            (λ w. Begun snapshot w.directory × (read_directory hash w.directory ≡ done s))
            (or_bootstrap hash s)
            Made
            (On (Holds (some snapshot) none))
    marking s =
        with_fact (λ w h. Begun-generation snapshot s w.directory h.0 h.1)
          (λ g.
            weaken (λ w h. (h.0.0, h.1)) (λ r w h. (h.0, h.1, h.2, h.3 ∙ g)) (λ w h. h)
              (bootstrapping_if (some snapshot) none s))

    -- What is accepted as the snapshot that was asked for has been put in place.
    same-Begun :
        (s : State) (d : Directory)
        → Beginning snapshot d
        → read_directory hash d ≡ done s
        → is_same_genesis s snapshot equivalent ≡ true
        → Begun snapshot d
    same-Begun s d (inr h) r e = h
    same-Begun s d (inl h) r e =
        elim (nothing s.snapshot ((read-Shows hash d s r).0 ∙ h.0.0)
          (and_inv (equivalent_snapshot s.snapshot snapshot equivalent) _ e).0) [ ]
      where
        nothing :
            (stored : Option Bytes)
            → stored ≡ none
            → equivalent_snapshot stored snapshot equivalent ≢ true
        nothing none e f = cc
        nothing (some b) e f = cc

    abbrev Stopped : World → Type 0
    Stopped w = Holds none none w.directory ⊎ Holds (some snapshot) none w.directory

    stopped : (w : World) → Beginning snapshot w.directory → Stopped w
    stopped w (inl h) = inl h.0
    stopped w (inr h) = inr h.0

    accepting_genesis :
        (uncertain : Bool)
        → Triple
            (On (Beginning snapshot))
            (accept_existing_genesis hash snapshot equivalent uncertain)
            Made
            Stopped
    unfolding accept_existing_genesis
    accepting_genesis uncertain =
        bind (weaken (λ w h. h) (λ s w h. h) stopped (reading hash (Beginning snapshot))) (λ s.
          bind
            (weaken (λ w h. h) (λ _ w h. (same-Begun s w.directory h.0.0 h.0.1 h.1, h.0.1))
              (λ w h. stopped w h.0)
              (require_rule (is_same_genesis s snapshot equivalent)
                (if uncertain then rename_uncertain else corrupt_store) (λ w h. h)))
            (λ _.
              bind (syncing_if s uncertain)
                (λ _. weaken (λ w h. h) (λ r w h. h) (λ w h. inr h) (marking s))))
      where
        syncing_if :
            (s : State) (b : Bool)
            → Triple
                (λ w. Begun snapshot w.directory × (read_directory hash w.directory ≡ done s))
                (if b then fsync_directory else pure tt)
                (λ _ w. Begun snapshot w.directory × (read_directory hash w.directory ≡ done s))
                Stopped
        syncing_if s true =
            weaken (λ w h. h) (λ _ w h. h) (λ w h. inr h.0.0)
              (syncing (λ d. Begun snapshot d × (read_directory hash d ≡ done s)))
        syncing_if s false = pure_rule (λ w h. h)

    answering :
        (x : StoreError)
        → Triple (On (Beginning snapshot)) (on_genesis hash snapshot equivalent x) Made Stopped
    answering destination_exists = accepting_genesis false
    answering rename_uncertain = accepting_genesis true
    answering corrupt_store = raise_rule stopped
    answering store_io = raise_rule stopped
    answering generation_exhausted = raise_rule stopped
    answering clean_uncertain = raise_rule stopped
    answering assertion_failed = raise_rule stopped

    landed :
        (d : Directory)
        → Landed the_snapshot (Beginning snapshot) snapshot d
        → Holds (some snapshot) none d
    landed d (inl h, e) = (e, h.0.1)
    landed d (inr h, e) = h.0

    finishing :
        (candidate : ℕ)
        → Triple (On (Holds (some snapshot) none)) (finish_genesis hash candidate) Made Stopped
    unfolding finish_genesis
    finishing candidate =
        let holds = Holds (some snapshot) none in
        weaken (λ w h. h) (λ s w h. h) (λ w h. inr h)
          (bind (confirming the_snapshot holds candidate) (λ _. bind (syncing holds) (λ _.
            bind (reading hash holds) (λ s.
              weaken (λ w h. h.0) (λ r w h. h) (λ w h. h)
                (bootstrapping hash (some snapshot) none s)))))

    creating : Triple (On Empty) (create hash snapshot equivalent) Made Stopped
    unfolding create
    creating =
        let ready = Swapped the_snapshot Empty snapshot in
        bind
          (weaken (λ w h. h) (λ _ w h. (h, h.1)) (λ w h. inl h.0)
            (writing the_snapshot (λ s d. refl) Empty (λ s d h. h) torn_bytes snapshot))
          (λ candidate.
            try_rule stopped
              (moving the_snapshot (λ s d. refl) ready (Beginning snapshot) (λ d h. inl h.0)
                (λ d h. inr ((h.1, h.0.0.1), h.0.1)) snapshot)
              answering
              (λ _.
                weaken (λ w h. landed w.directory h) (λ s w h. h) (λ w h. h) (finishing candidate)))

    pub beginning : Triple (On Empty) (genesis hash snapshot equivalent) Made Stopped
    unfolding genesis
    beginning =
        bind
          (weaken (λ w h. h) (λ _ w h. h.0) (λ w h. inl h.0)
            (requiring Empty (valid_snapshot snapshot) store_io))
          (λ _. bind (weaken (λ w h. h) (λ s w h. h) (λ w h. inl h.0) (reading hash Empty)) (λ s.
            with_fact (λ w h. (read-Shows hash w.directory s h.1).0 ∙ h.0.0.0)
              (λ e.
                if_rule (absent s) (λ _. weaken (λ w h. h.0) (λ r w h. h) (λ w h. h) creating)
                  (λ f. elim (absurd_absent s.snapshot e f) [ ]))))
      where
        absurd_absent : (stored : Option Bytes) → stored ≡ none → is_none stored ≢ false
        absurd_absent none e f = cc
        absurd_absent (some b) e f = cc
