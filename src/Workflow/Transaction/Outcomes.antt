-- ===== src/Workflow/Transaction/Outcomes.antt =====
-- What `commit` promises to those who read the directory after it.
use lookfile.Prelude.{◌≡◌, refl, sym, subst, ◌∙◌, ◌⊎◌, inl, inr, Bool, Option, some}
use lookfile.Domain.Identifiers.{Sha256}
use lookfile.Workflow.Transaction.Directory.{Bytes, content}
use lookfile.Workflow.Transaction.Runs.{Outcome, done, raised, crashed, World, Ends}
use lookfile.Workflow.Transaction.Reading.{State, read_directory}
use lookfile.Workflow.Transaction.Commit.{commit}
use lookfile.Workflow.Transaction.Contents.{read-Shows, read_pending}
use lookfile.Workflow.Transaction.Cleaning.{Committed}
use lookfile.Workflow.Transaction.Atomic.{generation_after, Atomic, committing_all}

module _ {A : Type 0} (Q : A → World → Type 0) (E : World → Type 0) where
  ends_done : (o : Outcome A × World) (a : A) → Ends Q E o → o.0 ≡ done a → Q a o.1
  ends_done (done b, w) a q e = subst (λ c. Q c w) (ap_done e) q
    where
      ap_done : done b ≡ done a → b ≡ a
      ap_done e = cc
  ends_done (raised x, w) a q e = cc
  ends_done (crashed, w) a q e = cc

  ends_all : (o : Outcome A × World) → ((a : A) (w : World) → Q a w → E w) → Ends Q E o → E o.1
  ends_all (done a, w) f q = f a w q
  ends_all (raised x, w) f q = q
  ends_all (crashed, w) f q = q

-- The contents that a state has
abbrev pub HasContents : Option Bytes → Option Bytes → State → Type 0
HasContents snapshot events s = (s.snapshot ≡ snapshot) × (s.events ≡ events)

module _ (hash : Bytes → Sha256) (expected : State) (snapshot : Bytes) (events : Option Bytes)
    (equivalent : Option (Bytes → Bytes → Bool)) (w : World) where
  abbrev after : World
  after = (commit hash expected snapshot events equivalent w).1

  abbrev Returns : State → World → Type 0
  Returns s v = Committed hash (generation_after expected) (some snapshot) events s v.directory

  abbrev Stops : World → Type 0
  Stops v =
      Atomic (content w.directory.snapshot.final) (content w.directory.events.final) snapshot events
        v.directory

  ended : Ends Returns Stops (commit hash expected snapshot events equivalent w)
  ended = (committing_all hash snapshot events _ _ expected equivalent).ends w (refl, refl)

  -- A commit that returns a state returns what the directory then shows: the contents that were asked
  -- for, at generation 0 on an empty directory, 1 on one without a marker, and one more than the expected
  -- state's otherwise.
  pub commit-done :
      (s : State)
      → (commit hash expected snapshot events equivalent w).0 ≡ done s
      → Committed hash (generation_after expected) (some snapshot) events s after.directory
  commit-done s e =
      ends_done Returns Stops (commit hash expected snapshot events equivalent w) s ended e

  stopped : Stops after
  stopped =
      ends_all Returns Stops (commit hash expected snapshot events equivalent w)
        (λ s v h.
          let shows = read-Shows hash v.directory s h.0 in
          inr (inl (sym shows.0 ∙ h.1, sym shows.1 ∙ h.2)))
        ended

  -- A commit refines an atomic register: whatever fault befalls each of its calls, and wherever the
  -- process stops, a directory that can be read afterwards holds the contents from before the commit or
  -- those of the commit.
  pub commit-atomic :
      (s : State)
      → read_directory hash after.directory ≡ done s
      → HasContents (content w.directory.snapshot.final) (content w.directory.events.final) s
        ⊎ HasContents (some snapshot) events s
  commit-atomic s r = read_of stopped
    where
      read_of :
          Stops after
          → HasContents (content w.directory.snapshot.final) (content w.directory.events.final) s
            ⊎ HasContents (some snapshot) events s
      read_of (inl h) =
          let shows = read-Shows hash after.directory s r in inl (shows.0 ∙ h.0, shows.1 ∙ h.1)
      read_of (inr (inl h)) =
          let shows = read-Shows hash after.directory s r in inr (shows.0 ∙ h.0, shows.1 ∙ h.1)
      read_of (inr (inr (m, h, p))) = elim (read_pending hash after.directory m s h p r) [ ]
