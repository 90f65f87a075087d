-- ===== src/Workflow/Transaction/Marking.antt =====
-- `_bootstrap`: a directory without a marker gets one, and its contents stay wherever it stops.
use lookfile.Prelude.{
  ℕ, ◌≡◌, refl, ap, ◌∙◌, true, Option, none, some, ◌==◌, nat_eq, list_eq, option_eq, and_inv, ==→eq,
}
use lookfile.Domain.Identifiers.{Sha256}
use lookfile.Workflow.Transaction.Directory.{Bytes, clean, Marker, Directory, the_marker}
use lookfile.Workflow.Transaction.Runs.{
  StoreError, corrupt_store, store_io, destination_exists, rename_uncertain, generation_exhausted,
  clean_uncertain, assertion_failed, done, Triple,
}
use lookfile.Workflow.Transaction.Triples.{
  On, weaken, try_rule, bind, pure_rule, raise_rule, if_rule,
}
use lookfile.Workflow.Transaction.Reading.{State, legacy, read_directory}
use lookfile.Workflow.Transaction.Writing.{torn_marker}
use lookfile.Workflow.Transaction.Publishing.{}
use lookfile.Workflow.Transaction.Clean.{marker_of}
use lookfile.Workflow.Transaction.Commit.{
  is_bootstrapped, on_bootstrap, finish_bootstrap, bootstrap_snapshot, bootstrap,
}
use lookfile.Workflow.Transaction.Places.{
  raising, requiring, syncing, Landed, writing, moving, confirming,
}
use lookfile.Workflow.Transaction.Contents.{Holds, generation_of, read-Shows, reading}
use lookfile.Workflow.Transaction.Cleaning.{the_marker-IsPlace, Committed}

-- The generation that a state has once it is marked
abbrev pub or_first : Option ℕ → Option ℕ
or_first none = some 0
or_first (some generation) = some generation

module _ (hash : Bytes → Sha256) (snapshot events : Option Bytes) where
  pub shown :
      (d : Directory) (s : State) (generation : Option ℕ)
      → Holds snapshot events d
      → read_directory hash d ≡ done s
      → s.generation ≡ generation
      → Committed hash generation snapshot events s d
  shown d s generation h r g =
      let shows = read-Shows hash d s r in (r, shows.0 ∙ h.0, shows.1 ∙ h.1, g)

  finishing :
      (candidate : ℕ) (marker : Option Marker)
      → generation_of (some marker) ≡ some 0
      → Triple
          (On (Landed the_marker (Holds snapshot events) marker))
          (finish_bootstrap hash candidate)
          (λ s w. Committed hash (some 0) snapshot events s w.directory)
          (On (Holds snapshot events))
  unfolding finish_bootstrap
  finishing candidate marker g =
      let landed = Landed the_marker (Holds snapshot events) marker in
      weaken (λ w h. h) (λ _ w h. h) (λ w h. h.0)
        (bind (confirming the_marker landed candidate) (λ _. bind (syncing landed) (λ _.
          weaken (λ w h. h)
            (λ s w h.
              shown w.directory s (some 0) h.0.0 h.1
                ((read-Shows hash w.directory s h.1).2 ∙ (ap generation_of h.0.1 ∙ g)))
            (λ w h. h) (reading hash landed))))

  abbrev pub Found : State → Directory → Type 0
  Found s d = Holds snapshot events d × (read_directory hash d ≡ done s)

  bootstrapped :
      (s before : State) (d : Directory)
      → Found s d
      → is_bootstrapped s before ≡ true
      → Committed hash (some 0) snapshot events s d
  bootstrapped s before d h t =
      shown d s (some 0) h.0 h.1 (==→eq _ _ (and_inv (s.generation == some 0) _ t).0)

  answering :
      (before : State) (x : StoreError)
      → Triple
          (On (Holds snapshot events))
          (on_bootstrap hash before x)
          (λ s w. Committed hash (some 0) snapshot events s w.directory)
          (On (Holds snapshot events))
  answering before destination_exists = bind (reading hash (Holds snapshot events)) (λ s.
      if_rule (is_bootstrapped s before)
        (λ t. pure_rule (λ w h. bootstrapped s before w.directory h t))
        (λ _. raise_rule (λ w h. h.0)))
  answering before rename_uncertain = bind (reading hash (Holds snapshot events)) (λ s.
      if_rule (is_bootstrapped s before)
        (λ t.
          bind (weaken (λ w h. h) (λ _ w h. h) (λ w h. h.0) (syncing (Found s)))
            (λ _. pure_rule (λ w h. bootstrapped s before w.directory h t)))
        (λ _. raise_rule (λ w h. h.0)))
  answering before corrupt_store = raising (Holds snapshot events) _ corrupt_store
  answering before store_io = raising (Holds snapshot events) _ store_io
  answering before generation_exhausted = raising (Holds snapshot events) _ generation_exhausted
  answering before clean_uncertain = raising (Holds snapshot events) _ clean_uncertain
  answering before assertion_failed = raising (Holds snapshot events) _ assertion_failed

  bootstrapping_snapshot :
      (before : State) (stored : Option Bytes)
      → Triple
          (On (Holds snapshot events))
          (bootstrap_snapshot hash before stored)
          (λ s w. Committed hash (some 0) snapshot events s w.directory)
          (On (Holds snapshot events))
  bootstrapping_snapshot before none = raising (Holds snapshot events) _ assertion_failed
  bootstrapping_snapshot before (some stored) =
      bind
        (weaken (λ w h. h) (λ _ w h. h.0) (λ w h. h)
          (requiring (Holds snapshot events) (legacy before) assertion_failed))
        (λ _.
          bind
            (writing the_marker the_marker-IsPlace (Holds snapshot events) (λ s d h. h) torn_marker
              _)
            (λ candidate.
              try_rule (λ w e. e)
                (moving the_marker the_marker-IsPlace (Holds snapshot events)
                  (Holds snapshot events) (λ d h. h) (λ d h. h) _)
                (answering before)
                (λ _. finishing candidate (marker_of hash clean 0 stored before.events) refl)))

  pub bootstrapping :
      (before : State)
      → Triple
          (On (Holds snapshot events))
          (bootstrap hash before)
          (λ s w. Committed hash (some 0) snapshot events s w.directory)
          (On (Holds snapshot events))
  unfolding bootstrap
  bootstrapping before = bootstrapping_snapshot before before.snapshot
