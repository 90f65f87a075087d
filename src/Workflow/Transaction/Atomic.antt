-- ===== src/Workflow/Transaction/Atomic.antt =====
-- `commit` is atomic, whatever fault befalls each of its calls.
use lookfile.Prelude.{
  ℕ, ◌+◌, ◌≡◌, refl, ap, subst, sym, ◌∙◌, ◌⊎◌, inl, inr, Bool, true, false, not, Option, none, some,
  ◌&&◌, ◌==◌, nat_eq, list_eq, option_eq, if◌then◌else◌, and_inv, ==→eq,
}
use lookfile.Domain.Identifiers.{Sha256}
use lookfile.Workflow.Transaction.Directory.{Bytes, pending, Marker, Directory, max_generation}
use lookfile.Workflow.Transaction.Runs.{
  corrupt_store, store_io, generation_exhausted, assertion_failed, World, ◌>>=◌, ◌>>◌, require,
  Triple,
}
use lookfile.Workflow.Transaction.Triples.{On, weaken, bind, with_fact}
use lookfile.Workflow.Transaction.Reading.{State, absent, is_none}
use lookfile.Workflow.Transaction.Publishing.{
  same_state, valid_snapshot, valid_events, validate_targets,
}
use lookfile.Workflow.Transaction.Clean.{marker_of, commit_clean}
use lookfile.Workflow.Transaction.Commit.{genesis, next_generation, commit_present, commit}
use lookfile.Workflow.Transaction.Places.{raising, requiring}
use lookfile.Workflow.Transaction.Contents.{Holds, marker_content, read-Shows, reading}
use lookfile.Workflow.Transaction.Cleaning.{Committed}
use lookfile.Workflow.Transaction.Marking.{Found}
use lookfile.Workflow.Transaction.Committing.{may_follow, Safe, committing}
use lookfile.Workflow.Transaction.Beginning.{
  marked_generation, bootstrapping_if, absent-Empty, beginning,
}

abbrev pub successor : Option ℕ → Option ℕ
successor none = none
successor (some generation) = some (generation + 1)

-- The generation that a commit over a state gets
abbrev pub generation_after : State → Option ℕ
generation_after s = if absent s then some 0 else successor (marked_generation s)

-- The state that was expected says which generation comes next.
same_next :
    (s expected : State)
    → same_state s expected ≡ true
    → generation_after s ≡ generation_after expected
unfolding same_state
same_next s expected t =
    let t5 = and_inv _ (s.marker_identity == expected.marker_identity) t in
    let t4 = and_inv _ (s.events_identity == expected.events_identity) t5.0 in
    let t3 = and_inv _ (s.snapshot_identity == expected.snapshot_identity) t4.0 in
    let t2 = and_inv _ (s.generation == expected.generation) t3.0 in
    let t1 = and_inv _ (s.events == expected.events) t2.0 in
    next_of (==→eq _ _ t1.0) (==→eq _ _ t5.1) (==→eq _ _ t2.1)
  where
    next_of :
        s.snapshot ≡ expected.snapshot
        → s.marker_identity ≡ expected.marker_identity
        → s.generation ≡ expected.generation
        → generation_after s ≡ generation_after expected
    next_of a b c = rw (a, b, c) refl

-- The marker says that a commit was interrupted.
abbrev pub IsPending : Directory → Type 0
IsPending d = (m : Marker) × (marker_content d ≡ some (some m)) × (m.phase ≡ pending)

-- Where a commit can stop
abbrev pub Atomic : Option Bytes → Option Bytes → Bytes → Option Bytes → Directory → Type 0
Atomic old_snapshot old_events snapshot events d =
    Holds old_snapshot old_events d ⊎ (Holds (some snapshot) events d ⊎ IsPending d)

module _ (hash : Bytes → Sha256) (snapshot : Bytes) (events : Option Bytes) where
  Safe-Atomic :
      (generation : ℕ) (old_snapshot old_events : Option Bytes) (d : Directory)
      → Safe
          (marker_of hash pending generation snapshot events)
          old_snapshot
          old_events
          (some snapshot)
          events
          d
      → Atomic old_snapshot old_events snapshot events d
  Safe-Atomic generation a b d (inl h) = inl h
  Safe-Atomic generation a b d (inr (inl h)) = inr (inl h)
  Safe-Atomic generation a b d (inr (inr h)) = inr (inr (_, h, refl))

  module _ (old_snapshot old_events : Option Bytes) where
    abbrev Stopped : World → Type 0
    Stopped w = Atomic old_snapshot old_events snapshot events w.directory

    -- A commit over a state whose contents are the old ones
    committing_marked :
        (s : State) (generation : ℕ)
        → s.snapshot ≡ old_snapshot
        → s.events ≡ old_events
        → may_follow events old_events ≡ true
        → Triple
            (On (Holds old_snapshot old_events))
            (commit_clean hash s snapshot events generation)
            (λ r w. Committed hash (some generation) (some snapshot) events r w.directory)
            Stopped
    committing_marked s generation a b f =
        weaken (λ w h. (h.0 ∙ sym a, h.1 ∙ sym b)) (λ r w h. h)
          (λ w h. again w.directory (Safe-Atomic generation s.snapshot s.events w.directory h))
          (committing hash s snapshot events generation
            (subst (λ e. may_follow events e ≡ true) (sym b) f))
      where
        again :
            (d : Directory)
            → Atomic s.snapshot s.events snapshot events d
            → Atomic old_snapshot old_events snapshot events d
        again d (inl h) = inl (h.0 ∙ a, h.1 ∙ b)
        again d (inr h) = inr h

    to_generation :
        (s : State) (generation : Option ℕ)
        → s.snapshot ≡ old_snapshot
        → s.events ≡ old_events
        → may_follow events old_events ≡ true
        → Triple
            (On (Holds old_snapshot old_events))
            (next_generation generation >>= λ n. commit_clean hash s snapshot events n)
            (λ r w. Committed hash (successor generation) (some snapshot) events r w.directory)
            Stopped
    to_generation s none a b f =
        weaken (λ w h. h) (λ r w h. h) (λ w h. inl h)
          (raising (Holds old_snapshot old_events) _ assertion_failed)
    to_generation s (some generation) a b f = committing_marked s (generation + 1) a b f

    committing_present :
        (s : State)
        → Triple
            (On (Found hash old_snapshot old_events s))
            (commit_present hash s snapshot events)
            (λ r w.
              Committed hash (successor (marked_generation s)) (some snapshot) events r w.directory)
            Stopped
    unfolding commit_present
    committing_present s =
        bind
          (weaken (λ w h. h) (λ _ w h. h.0) (λ w h. inl h.0)
            (requiring (Found hash old_snapshot old_events s)
              (not (s.generation == some max_generation)) generation_exhausted))
          (λ _.
            bind
              (weaken (λ w h. h) (λ _ w h. h) (λ w h. inl h.0)
                (requiring (Found hash old_snapshot old_events s) (may_follow events s.events)
                  corrupt_store))
              (λ _.
                with_fact
                  (λ w h.
                    subst (λ e. may_follow events e ≡ true)
                      ((read-Shows hash w.directory s h.0.1).1 ∙ h.0.0.1) h.1)
                  (λ f.
                    bind
                      (weaken (λ w h. h.0) (λ r w h. h) (λ w h. inl h)
                        (bootstrapping_if hash old_snapshot old_events s))
                      (λ r. after_mark r f))))
      where
        after_mark :
            (r : State)
            → may_follow events old_events ≡ true
            → Triple
                (λ w. Committed hash (marked_generation s) old_snapshot old_events r w.directory)
                (next_generation r.generation >>= λ n. commit_clean hash r snapshot events n)
                (λ q w.
                  Committed hash
                    (successor (marked_generation s))
                    (some snapshot)
                    events
                    q
                    w.directory)
                Stopped
        after_mark r f =
            with_fact (λ w h. (h.1, h.2, h.3))
              (λ (a, b, g).
                weaken
                  (λ w h. (
                    sym (read-Shows hash w.directory r h.0).0 ∙ a,
                    sym (read-Shows hash w.directory r h.0).1 ∙ b,
                  ))
                  (λ q w h. (h.0, h.1, h.2, h.3 ∙ ap successor g)) (λ w h. h)
                  (to_generation r r.generation a b f))

    committing_absent :
        (s : State) (equivalent : Option (Bytes → Bytes → Bool))
        → absent s ≡ true
        → Triple
            (On (Found hash old_snapshot old_events s))
            (require (is_none events) corrupt_store >> genesis hash snapshot equivalent)
            (λ r w. Committed hash (some 0) (some snapshot) events r w.directory)
            Stopped
    committing_absent s equivalent e =
        bind
          (weaken (λ w h. h) (λ _ w h. h) (λ w h. inl h.0)
            (requiring (Found hash old_snapshot old_events s) (is_none events) corrupt_store))
          (λ _.
            with_fact
              (λ w h.
                let empty = absent-Empty hash w.directory s e h.0.1 in
                (sym empty.0.0 ∙ h.0.0.0, sym empty.0.1 ∙ h.0.0.1, is_none-eq events h.1))
              (λ (a, b, c).
                weaken (λ w h. absent-Empty hash w.directory s e h.0.1)
                  (λ r w h. (h.0, h.1, h.2 ∙ sym c, h.3)) (λ w h. kept w.directory a b c h)
                  (beginning hash snapshot equivalent)))
      where
        is_none-eq : (o : Option Bytes) → is_none o ≡ true → o ≡ none
        is_none-eq none e = refl
        is_none-eq (some b) e = cc

        kept :
            (d : Directory)
            → none ≡ old_snapshot
            → none ≡ old_events
            → events ≡ none
            → Holds none none d ⊎ Holds (some snapshot) none d
            → Atomic old_snapshot old_events snapshot events d
        kept d a b c (inl h) = inl (h.0 ∙ a, h.1 ∙ b)
        kept d a b c (inr h) = inr (inl (h.0, h.1 ∙ sym c))

    committing_over :
        (s : State) (equivalent : Option (Bytes → Bytes → Bool)) (b : Bool)
        → absent s ≡ b
        → Triple
            (On (Found hash old_snapshot old_events s))
            (if b
              then (require (is_none events) corrupt_store >> genesis hash snapshot equivalent)
              else commit_present hash s snapshot events)
            (λ r w.
              Committed hash
                (if b then some 0 else successor (marked_generation s))
                (some snapshot)
                events
                r
                w.directory)
            Stopped
    committing_over s equivalent true e = committing_absent s equivalent e
    committing_over s equivalent false e = committing_present s

    pub committing_all :
        (expected : State) (equivalent : Option (Bytes → Bytes → Bool))
        → Triple
            (On (Holds old_snapshot old_events))
            (commit hash expected snapshot events equivalent)
            (λ r w. Committed hash (generation_after expected) (some snapshot) events r w.directory)
            Stopped
    unfolding commit validate_targets
    committing_all expected equivalent =
        let holds = Holds old_snapshot old_events in
        bind
          (weaken (λ w h. h) (λ _ w h. h.0) (λ w h. inl h)
            (requiring holds (valid_snapshot snapshot && valid_events events) store_io))
          (λ _. bind (weaken (λ w h. h) (λ s w h. h) (λ w h. inl h) (reading hash holds)) (λ s.
            bind
              (weaken (λ w h. h) (λ _ w h. h) (λ w h. inl h.0)
                (requiring (Found hash old_snapshot old_events s) (same_state s expected)
                  corrupt_store))
              (λ _.
                with_fact (λ w h. same_next s expected h.1)
                  (λ e.
                    weaken (λ w h. h.0) (λ r w h. (h.0, h.1, h.2, h.3 ∙ e)) (λ w h. h)
                      (committing_over s equivalent (absent s) refl)))))
