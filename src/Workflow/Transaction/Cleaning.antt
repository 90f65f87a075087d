-- ===== src/Workflow/Transaction/Cleaning.antt =====
-- `_publish_clean`: only the marker changes, and what is returned is what the directory shows.
use lookfile.Prelude.{
  ℕ, ◌≡◌, refl, Bool, true, false, Option, none, some, ◌&&◌, ◌==◌, nat_eq, list_eq, option_eq,
  if◌then◌else◌, and_inv, ==→eq,
}
use lookfile.Domain.Identifiers.{Sha256}
use lookfile.Workflow.Transaction.Directory.{Bytes, clean, Marker, Directory, the_marker}
use lookfile.Workflow.Transaction.Runs.{
  StoreError, corrupt_store, store_io, destination_exists, rename_uncertain, generation_exhausted,
  clean_uncertain, assertion_failed, done, World, Triple,
}
use lookfile.Workflow.Transaction.Triples.{
  On, weaken, try_rule, attempt_rule, bind, pure_rule, require_rule,
}
use lookfile.Workflow.Transaction.Reading.{State, read_directory}
use lookfile.Workflow.Transaction.Writing.{torn_marker}
use lookfile.Workflow.Transaction.Publishing.{as_uncertain, exchange_clean}
use lookfile.Workflow.Transaction.Clean.{
  refused, accepted_or, marker_of, matches, accept_clean, compensate_clean_fsync, confirm_again,
  confirm_uncertain_clean, on_clean, finish_clean, publish_clean,
}
use lookfile.Workflow.Transaction.Places.{
  raising, requiring, syncing, IsPlace, IsStable, Swapped, writing, glance_final, glance_swap,
  exchanging,
}
use lookfile.Workflow.Transaction.Contents.{reading}

pub the_marker-IsPlace : IsPlace the_marker
the_marker-IsPlace s d = refl

module _ (hash : Bytes → Sha256) where
  -- The directory shows this state: the contents that were asked for, at the generation
  abbrev pub Committed : Option ℕ → Option Bytes → Option Bytes → State → Directory → Type 0
  Committed generation snapshot events s d =
      (read_directory hash d ≡ done s)
      × (s.snapshot ≡ snapshot)
      × (s.events ≡ events)
      × (s.generation ≡ generation)

  module _ (D : Directory → Type 0) (generation : ℕ) (snapshot : Bytes)
      (events : Option Bytes) where
    abbrev pub Result : State → Directory → Type 0
    Result s d = D d × Committed (some generation) (some snapshot) events s d

    abbrev Accepted : Option State → Directory → Type 0
    Accepted none d = D d
    Accepted (some s) d = Result s d

    accepting_if :
        (b : Bool) (s : State) (d : Directory)
        → D d
        → (b ≡ true → Result s d)
        → Accepted (if b then some s else none) d
    accepting_if true s d h f = f refl
    accepting_if false s d h f = h

    matching :
        (s : State) (d : Directory)
        → D d
        → read_directory hash d ≡ done s
        → Accepted (matches generation snapshot events s) d
    matching s d h r =
        accepting_if
          (s.generation == some generation && s.snapshot == some snapshot && s.events == events) s d
          h
          (λ t.
            let t12 =
              and_inv (s.generation == some generation && s.snapshot == some snapshot) _ t in
            let t1 = and_inv (s.generation == some generation) _ t12.0 in
            (h, (r, ==→eq _ _ t1.1, ==→eq _ _ t12.1, ==→eq _ _ t1.0)))

    refusing : (x : StoreError) → Triple (On D) (refused x) (λ r w. Accepted r w.directory) (On D)
    refusing corrupt_store = pure_rule (λ w h. h)
    refusing store_io = raising D _ store_io
    refusing destination_exists = raising D _ destination_exists
    refusing rename_uncertain = raising D _ rename_uncertain
    refusing generation_exhausted = raising D _ generation_exhausted
    refusing clean_uncertain = raising D _ clean_uncertain
    refusing assertion_failed = raising D _ assertion_failed

    accepting :
        Triple
          (On D)
          (accept_clean hash generation snapshot events)
          (λ r w. Accepted r w.directory)
          (On D)
    unfolding accept_clean
    accepting =
        attempt_rule (λ w e. e)
          (bind (reading hash D) (λ s. pure_rule (λ w h. matching s w.directory h.0 h.1))) refusing

    weak_accepted : (r : Option State) (d : Directory) → Accepted r d → D d
    weak_accepted none d h = h
    weak_accepted (some s) d h = h.0

    accepting_or :
        (x : StoreError) (r : Option State)
        → Triple
            (λ w. Accepted r w.directory)
            (accepted_or x r)
            (λ s w. Result s w.directory)
            (On D)
    accepting_or x none = raising D _ x
    accepting_or x (some s) = pure_rule (λ w h. h)

    pub finishing :
        Triple
          (On D)
          (finish_clean hash generation snapshot events)
          (λ s w. Result s w.directory)
          (On D)
    unfolding finish_clean
    finishing = bind accepting (λ r. accepting_or corrupt_store r)

    compensating :
        (x : StoreError)
        → Triple
            (On D)
            (compensate_clean_fsync hash generation snapshot events x)
            (λ s w. Result s w.directory)
            (On D)
    unfolding compensate_clean_fsync
    compensating x = bind accepting (λ r.
        bind (weaken (λ w h. h) (λ s w h. h.0) (λ w h. h) (accepting_or x r))
          (λ _. bind (syncing D) (λ _. bind accepting (λ r2. accepting_or corrupt_store r2))))

    confirming_again :
        (r : Option State)
        → Triple
            (λ w. Accepted r w.directory)
            (confirm_again hash generation snapshot events r)
            (λ q w. Accepted q w.directory)
            (On D)
    confirming_again none = pure_rule (λ w h. h)
    confirming_again (some s) =
        bind (weaken (λ w h. h.0) (λ _ w h. h) (λ w h. h) (syncing D)) (λ _. accepting)

    confirming_clean :
        (x : StoreError)
        → Triple
            (On D)
            (confirm_uncertain_clean hash generation snapshot events x)
            (λ s w. Result s w.directory)
            (On D)
    unfolding confirm_uncertain_clean
    confirming_clean x = bind accepting (λ r. bind (confirming_again r) (λ q. accepting_or x q))

    answering :
        (x : StoreError)
        → Triple
            (On D)
            (on_clean hash generation snapshot events x)
            (λ s w. Result s w.directory)
            (On D)
    answering clean_uncertain = confirming_clean corrupt_store
    answering rename_uncertain = confirming_clean rename_uncertain
    answering store_io = compensating store_io
    answering destination_exists = compensating destination_exists
    answering corrupt_store = raising D _ corrupt_store
    answering generation_exhausted = raising D _ generation_exhausted
    answering assertion_failed = raising D _ assertion_failed

    module _ (stable : IsStable the_marker D) where
      as_raising :
          {A : Type 0} (Q : A → World → Type 0) (x : StoreError)
          → Triple (On D) (as_uncertain {A = A} x) Q (On D)
      as_raising Q corrupt_store = raising D Q clean_uncertain
      as_raising Q store_io = raising D Q store_io
      as_raising Q destination_exists = raising D Q destination_exists
      as_raising Q rename_uncertain = raising D Q rename_uncertain
      as_raising Q generation_exhausted = raising D Q generation_exhausted
      as_raising Q clean_uncertain = raising D Q clean_uncertain
      as_raising Q assertion_failed = raising D Q assertion_failed

      exchanging_clean :
          (marker : Option Marker) (pending_id candidate : ℕ)
          → Triple
              (On (Swapped the_marker D marker))
              (exchange_clean pending_id candidate)
              (λ _. On D)
              (On D)
      unfolding exchange_clean
      exchanging_clean marker pending_id candidate =
          bind
            (weaken (λ w h. h) (λ _ w h. h) (λ w h. h.0)
              (glance_final the_marker (Swapped the_marker D marker)))
            (λ i.
              bind
                (weaken (λ w h. h) (λ _ w h. h.0) (λ w h. h)
                  (require_rule (i == pending_id) corrupt_store (λ w h. h.0)))
                (λ _.
                  bind
                    (weaken (λ w h. h) (λ _ w h. h.0) (λ w h. h)
                      (exchanging the_marker the_marker-IsPlace D stable marker))
                    (λ _.
                      bind
                        (attempt_rule (λ w e. e) (glance_final the_marker D)
                          (as_raising (λ _. On D)))
                        (λ j.
                          bind
                            (attempt_rule (λ w e. e) (glance_swap the_marker D)
                              (as_raising (λ _. On D)))
                            (λ k.
                              weaken (λ w h. h) (λ _ w h. h.0) (λ w h. h)
                                (requiring D (j == candidate && k == pending_id)
                                  clean_uncertain))))))

      pub publishing_clean :
          (pending_id : ℕ)
          → Triple
              (On D)
              (publish_clean hash pending_id generation snapshot events)
              (λ s w. Result s w.directory)
              (On D)
      unfolding publish_clean
      publishing_clean pending_id =
          let marker = marker_of hash clean generation snapshot events in
          bind (writing the_marker the_marker-IsPlace D (λ s d h. stable _ d h) torn_marker marker)
            (λ candidate.
              try_rule (λ w e. e)
                (bind (exchanging_clean marker pending_id candidate) (λ _. syncing D)) answering
                (λ _. finishing))
