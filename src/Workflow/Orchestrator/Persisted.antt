-- ===== src/Workflow/Orchestrator/Persisted.antt =====
-- The job on disk and the cursor of `_run_item` stay together.
use lookfile.Prelude.{ℕ, zero, suc, ◌≡◌, refl, Option, none, some, List, Eq, Result, ok, err}
use lookfile.Domain.Text.{Text}
use lookfile.Domain.Identifiers.{JobId, Sha256}
use lookfile.Domain.Artifacts.{ArtifactRef}
use lookfile.Verification.RuleModels.{RuleDefinition, RuleResult}
use lookfile.Workflow.JobModels.{
  JobStatus, EventType, attempt_started, attempt_finished, generating, verifying,
}
use lookfile.Domain.Integers.{pos}
use lookfile.Workflow.Events.{Event, Payload, attempt_began, attempt_ended, JobState}
use lookfile.Workflow.StateMachine.Replay.{AllMade}
use lookfile.Workflow.JobStore.{Stored, load, append_event}
use lookfile.Workflow.JobStore.Made.{}
use lookfile.Workflow.JobStore.Status.{append_event-status, append_event-writes}
use lookfile.Repair.Requests.{GenerationRequest}
use lookfile.Repair.History.{GeneratedArtifact, RepairHistory}
use lookfile.Repair.Loop.{RepairTerminal, RepairStep, next_generation, repair_terminal}
use lookfile.Repair.Comparison.{request_eq}
use lookfile.Workflow.Orchestrator.{
  Cursor, Staged, after, calling, moved, append, finish_item, continued, by_step, repair_loop,
  started_loop, from_rules, from_artifact, first_attempt, run_item,
}

-- The job is on disk, its events pass their constructors, and it loads in the status of the cursor.
pub record IsStored (job_id : JobId) (cursor : Cursor) : Type 0 where
  pub stored : Stored
  pub on_disk : cursor.disk ≡ some stored
  pub all_made : AllMade stored.events
  pub state : JobState
  pub loads : load job_id cursor.disk ≡ ok state
  pub in_status : state.job.status ≡ cursor.status

module _ (encoded_size : List Event → ℕ) (timestamp : Text) (job_id : JobId) where
  append-IsStored :
      (event_type : EventType) (to_state : JobStatus) (payload : Payload) (cursor : Cursor)
      → IsStored job_id cursor
      → IsStored job_id (append encoded_size timestamp job_id event_type to_state payload cursor).1
  unfolding append
  append-IsStored event_type to_state payload cursor s = written _ refl
    where
      candidate : Event
      candidate = record {
        sequence = 1;
        job_id = job_id;
        event_type = event_type;
        from_state = cursor.status;
        to_state = to_state;
        timestamp = timestamp;
        payload = payload;
      }

      written :
          (r : Result (Option Stored × Event))
          → append_event encoded_size job_id candidate cursor.disk ≡ r
          → IsStored job_id (moved to_state cursor r).1
      written (err x) e = s
      written (ok (disk, finalized)) e =
          let (next, loads, status) =
            append_event-status encoded_size job_id candidate cursor.disk disk finalized s.stored
              s.on_disk s.all_made e in
          let (after, on_disk, made) =
            append_event-writes encoded_size job_id candidate cursor.disk disk finalized s.stored
              s.on_disk s.all_made e in
          record {
            stored = after;
            on_disk = on_disk;
            all_made = made;
            state = next;
            loads = loads;
            in_status = status;
          }

abbrev KeepsStored : JobId → {A : Type 0} → Staged A → Type 0
KeepsStored job_id (r, cursor) = IsStored job_id cursor

after-KeepsStored :
    {A B : Type 0} (job_id : JobId) (s : Staged A) (next : A → Cursor → Staged B)
    → KeepsStored job_id s
    → ((a : A) (cursor : Cursor) → IsStored job_id cursor → KeepsStored job_id (next a cursor))
    → KeepsStored job_id (after s next)
after-KeepsStored job_id (ok a, cursor) next s k = k a cursor s
after-KeepsStored job_id (err x, cursor) next s k = s

module _ (encoded_size : List Event → ℕ) (timestamp : Text) {Binding Material : Type 0}
    ⦃d : Eq Binding⦄ ⦃m : Eq Material⦄
    (request_hash generation_fingerprint : GenerationRequest Binding Material → Sha256)
    (generate : GenerationRequest Binding Material → Result GeneratedArtifact)
    (verify : List ArtifactRef → List RuleDefinition → Result (List RuleResult)) where
  abbrev Item : Type 0
  Item = Option (Staged (RepairHistory Binding Material × RepairTerminal))

  -- The job is stored where the run ends, if it does.
  abbrev pub EndsStored : JobId → Item → Type 0
  EndsStored job_id none = Unit {0}
  EndsStored job_id (some (r, cursor)) = IsStored job_id cursor

  finish_item-KeepsStored :
      (job_id : JobId) (item : ℕ) (history : RepairHistory Binding Material) (step : RepairTerminal)
      (cursor : Cursor)
      → IsStored job_id cursor
      → KeepsStored job_id (
          finish_item encoded_size timestamp request_hash generation_fingerprint generate verify
            job_id item history step cursor)
  unfolding finish_item
  finish_item-KeepsStored job_id item history step cursor s =
      after-KeepsStored job_id _ _ (append-IsStored encoded_size timestamp job_id _ _ _ cursor s)
        (λ _ end k. k)

  continued-EndsStored :
      (again : RepairHistory Binding Material → Item) (job_id : JobId) (cursor : Cursor)
      (r : Result (RepairHistory Binding Material))
      → IsStored job_id cursor
      → ((next : RepairHistory Binding Material) → EndsStored job_id (again next))
      → EndsStored job_id (
          continued encoded_size timestamp request_hash generation_fingerprint generate verify again
            cursor r)
  continued-EndsStored again job_id cursor (ok next) s g = g next
  continued-EndsStored again job_id cursor (err x) s g = s

  by_step-EndsStored :
      (again : RepairHistory Binding Material → Item) (rules : List RuleDefinition) (job_id : JobId)
      (item : ℕ) (history : RepairHistory Binding Material) (cursor : Cursor)
      (step : Result (RepairStep Binding Material))
      → IsStored job_id cursor
      → ((next : RepairHistory Binding Material) → EndsStored job_id (again next))
      → EndsStored job_id (
          by_step encoded_size timestamp request_hash generation_fingerprint generate verify again
            rules job_id item history cursor step)
  by_step-EndsStored again rules job_id item history cursor (err x) s g = s
  by_step-EndsStored again rules job_id item history cursor (ok (repair_terminal t)) s g =
      finish_item-KeepsStored job_id item history t cursor s
  by_step-EndsStored again rules job_id item history cursor (ok (next_generation command)) s g =
      continued-EndsStored again job_id cursor _ s g

  repair_loop-EndsStored :
      (fuel : ℕ) (rules : List RuleDefinition) (job_id : JobId) (profile : Text) (item : ℕ)
      (cursor : Cursor) (history : RepairHistory Binding Material)
      → IsStored job_id cursor
      → EndsStored job_id (
          repair_loop encoded_size timestamp request_hash generation_fingerprint generate verify
            fuel rules job_id profile item cursor history)
  unfolding repair_loop
  repair_loop-EndsStored zero rules job_id profile item cursor history s = tt
  repair_loop-EndsStored (suc fuel) rules job_id profile item cursor history s =
      by_step-EndsStored _ rules job_id item history cursor _ s
        (λ next. repair_loop-EndsStored fuel rules job_id profile item cursor next s)

  first_attempt-KeepsStored :
      (job_id : JobId) (item : ℕ) (request : GenerationRequest Binding Material) (cursor : Cursor)
      → IsStored job_id cursor
      → KeepsStored job_id (
          first_attempt encoded_size timestamp request_hash generation_fingerprint generate verify
            job_id item request cursor)
  unfolding first_attempt
  first_attempt-KeepsStored job_id item request cursor s =
      after-KeepsStored job_id
        (append encoded_size timestamp job_id attempt_started generating began cursor) _
        (append-IsStored encoded_size timestamp job_id _ _ _ cursor s)
        (λ _ running k.
          after-KeepsStored job_id (calling (generate request) running) _ k (λ artifact same l.
            after-KeepsStored job_id
              (append encoded_size timestamp job_id attempt_finished verifying (ended artifact)
                same)
              _ (append-IsStored encoded_size timestamp job_id _ _ _ same l) (λ _ end e. e)))
    where
      began : Payload
      began = attempt_began (record {
        cohort_index = pos 0;
        item_index = pos item;
        attempt_id = request.attempt_id;
        parent_attempt_id = none;
      })

      ended : GeneratedArtifact → Payload
      ended artifact = attempt_ended (record {
        cohort_index = pos 0;
        item_index = pos item;
        attempt_id = request.attempt_id;
        artifact_id = artifact.ref.artifact_id;
        request_hash = request_hash request;
      })

  -- An item that ends leaves the job stored.
  pub run_item-EndsStored :
      (fuel : ℕ) (job_id : JobId) (profile : Text) (item : ℕ)
      (request : GenerationRequest Binding Material) (cursor : Cursor)
      → IsStored job_id cursor
      → EndsStored job_id (
          run_item encoded_size timestamp request_hash generation_fingerprint generate verify fuel
            job_id profile item request cursor)
  unfolding run_item
  run_item-EndsStored fuel job_id profile item request cursor s =
      from_first
        (first_attempt encoded_size timestamp request_hash generation_fingerprint generate verify
          job_id item request cursor)
        (first_attempt-KeepsStored job_id item request cursor s)
    where
      with_history :
          (rules : List RuleDefinition) (cursor : Cursor)
          (r : Result (RepairHistory Binding Material))
          → IsStored job_id cursor
          → EndsStored job_id (
              started_loop encoded_size timestamp request_hash generation_fingerprint generate
                verify fuel rules job_id profile item r cursor)
      with_history rules cursor (err x) s = s
      with_history rules cursor (ok history) s =
          repair_loop-EndsStored fuel rules job_id profile item cursor history s

      with_rules :
          (artifact : GeneratedArtifact) (cursor : Cursor) (rules : Result (List RuleDefinition))
          → IsStored job_id cursor
          → EndsStored job_id (
              from_rules encoded_size timestamp request_hash generation_fingerprint generate verify
                fuel job_id profile item request artifact cursor rules)
      with_rules artifact cursor (err x) s = s
      with_rules artifact cursor (ok rules) s = with_history rules cursor _ s

      from_first :
          (first : Staged GeneratedArtifact)
          → KeepsStored job_id first
          → EndsStored job_id (
              from_artifact encoded_size timestamp request_hash generation_fingerprint generate
                verify fuel job_id profile item request first)
      from_first (err x, cursor) s = s
      from_first (ok artifact, cursor) s = with_rules artifact cursor _ s

  ended :
      (job_id : JobId) (r : Staged (RepairHistory Binding Material × RepairTerminal))
      → EndsStored job_id (some r)
      → IsStored job_id r.1
  ended job_id (r, cursor) s = s
