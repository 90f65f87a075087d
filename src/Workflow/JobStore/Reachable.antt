-- ===== src/Workflow/JobStore/Reachable.antt =====
-- Every content that the operations of job_store.py can leave in a job's directory loads.
use lookfile.Prelude.{
  ℕ, ◌≡◌, refl, sym, ◌∙◌, subst, Option, none, some, List, [], ok, list_eq, nat_eq,
}
use lookfile.Domain.Identifiers.{JobId}
use lookfile.Workflow.Events.{Event, JobSnapshot, JobState, job_state_eq}
use lookfile.Workflow.StateMachine.{}
use lookfile.Workflow.JobModels.{}
use lookfile.Workflow.StateMachine.Validity.{}
use lookfile.Workflow.StateMachine.Replay.{AllMade}
use lookfile.Workflow.JobStore.{Stored, load, append_event, save_snapshot}
use lookfile.Workflow.JobStore.Decoding.{load-Validated}
use lookfile.Workflow.JobStore.Append.{append_event-loads}
use lookfile.Workflow.JobStore.Save.{save_snapshot-load}
use lookfile.Workflow.JobStore.Made.{
  some_inj, append_event-AllMade, append_event-on_disk, save_snapshot-creates,
}

module _ (encoded_size : List Event → ℕ) (job_id : JobId) where
  -- The contents that saving and appending can lead to from an empty directory.
  pub data Reachable : Option Stored → Type 0 where
    fresh : Reachable none
    saved :
        {disk after : Option Stored} (candidate : JobSnapshot)
        → Reachable disk
        → save_snapshot job_id candidate disk ≡ ok after
        → Reachable after
    appended :
        {disk after : Option Stored} (candidate finalized : Event)
        → Reachable disk
        → append_event encoded_size job_id candidate disk ≡ ok (after, finalized)
        → Reachable after

  -- What holds of every content that is not empty.
  pub record IsLoadable (stored : Stored) : Type 0 where
    pub all_made : AllMade stored.events
    pub state : JobState
    pub loads : load job_id (some stored) ≡ ok state

  saved-IsLoadable :
      (disk after : Option Stored) (candidate : JobSnapshot)
      → ((s : Stored) → disk ≡ some s → IsLoadable s)
      → save_snapshot job_id candidate disk ≡ ok after
      → (stored : Stored) → after ≡ some stored
      → IsLoadable stored
  saved-IsLoadable none after candidate before h stored d =
      let (snapshot, state, written, valid) = save_snapshot-creates job_id candidate after h in
      subst IsLoadable (some_inj (sym written ∙ d)) (record {
        all_made = λ event m. elim m [ ];
        state = state;
        loads = load-Validated job_id (record { snapshot = snapshot; events = [] }) state valid;
      })
  saved-IsLoadable (some s) after candidate before h stored d =
      let (state, snapshot, _, loads, written) =
        save_snapshot-load job_id candidate (some s) after s refl (before s refl).all_made h in
      record {
        all_made =
            subst (λ (x : Stored). AllMade x.events) (some_inj (sym written ∙ d))
              (before s refl).all_made;
        state = state;
        loads = subst (λ x. load job_id x ≡ ok state) d loads;
      }

  appended-IsLoadable :
      (s : Stored) (after : Option Stored) (candidate finalized : Event)
      → IsLoadable s
      → append_event encoded_size job_id candidate (some s) ≡ ok (after, finalized)
      → (stored : Stored) → after ≡ some stored
      → IsLoadable stored
  appended-IsLoadable s after candidate finalized before h stored d =
      let (_, next, _, loads, _, _, _) =
        append_event-loads encoded_size job_id candidate (some s) after finalized s refl
          before.all_made h in
      record {
        all_made =
            append_event-AllMade encoded_size job_id candidate s stored finalized before.all_made (
              subst (λ x. append_event encoded_size job_id candidate (some s) ≡ ok (x, finalized)) d
                h);
        state = next;
        loads = subst (λ x. load job_id x ≡ ok next) d loads;
      }

  -- Whatever snapshots are saved and events appended, in whatever order, a job's directory stays
  -- empty or loads, and its events pass their constructors.
  pub Reachable-IsLoadable :
      (disk : Option Stored)
      → Reachable disk
      → (stored : Stored) → disk ≡ some stored
      → IsLoadable stored
  Reachable-IsLoadable disk fresh stored d = absurd (cc)
  Reachable-IsLoadable disk (saved {disk = before} candidate r h) stored d =
      saved-IsLoadable before disk candidate (Reachable-IsLoadable before r) h stored d
  Reachable-IsLoadable disk (appended {disk = before} candidate finalized r h) stored d =
      let (s, e) = append_event-on_disk encoded_size job_id candidate before disk finalized h in
      appended-IsLoadable s disk candidate finalized (Reachable-IsLoadable before r s e)
        (subst (λ x. append_event encoded_size job_id candidate x ≡ ok (disk, finalized)) e h)
        stored d
