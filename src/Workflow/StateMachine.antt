-- ===== src/Workflow/StateMachine.antt =====
-- src/specstyle/workflow/state_machine.py. The proofs stand in the modules below.
pub mod Transitions
pub mod Fresh
pub mod Rounds
pub mod Validity
pub mod Replay
pub mod Log
use lookfile.Prelude.{
  ℕ, ◌+◌, Bool, true, false, not, ◌&&◌, ◌||◌, List, [], ◌∷◌, ◌++◌, ◌==◌, ◌!=◌, nat_eq, list_eq,
  Result, ok, err, other_error, refuse_if, relabel, ◌>>=◌, ◌>>◌, contains,
}
use lookfile.Domain.Text.{Text, text_lt}
use lookfile.Domain.Identifiers.{AttemptId}
use lookfile.Workflow.JobModels.{
  JobStatus, job_status_eq, created, spec_validated, generating, verifying, approved, manual_review,
  rejected, repair_selecting, repairing, exporting, completed, recoverable_error, job_failed,
  cancelled, EventType, job_started, attempt_started, attempt_finished, verifier_finished,
  repair_step, export_started, export_published, recoverable, cancel_requested, fatal, Job,
  job_budget_eq, make_job,
}
use lookfile.Workflow.Events.{
  Payload, started, compiled, attempt_began, repaired, published, Event, JobSnapshot, JobState,
  make_state,
}

-- `TRANSITIONS`
abbrev pub transitions : JobStatus → List JobStatus
transitions created = spec_validated ∷ cancelled ∷ job_failed ∷ []
transitions spec_validated = JobStatus.spec_compiled ∷ cancelled ∷ job_failed ∷ []
transitions JobStatus.spec_compiled = generating ∷ cancelled ∷ job_failed ∷ []
transitions generating = verifying ∷ recoverable_error ∷ cancelled ∷ job_failed ∷ []
transitions verifying =
    approved ∷ manual_review ∷ rejected ∷ repair_selecting ∷ recoverable_error ∷ cancelled
    ∷ job_failed ∷ []
transitions approved = exporting ∷ cancelled ∷ job_failed ∷ []
transitions manual_review = exporting ∷ cancelled ∷ job_failed ∷ []
transitions rejected = exporting ∷ cancelled ∷ job_failed ∷ []
transitions repair_selecting =
    repairing ∷ rejected ∷ recoverable_error ∷ cancelled ∷ job_failed ∷ []
transitions repairing = verifying ∷ recoverable_error ∷ cancelled ∷ job_failed ∷ []
transitions exporting = completed ∷ recoverable_error ∷ cancelled ∷ job_failed ∷ []
transitions recoverable_error =
    generating ∷ verifying ∷ repair_selecting ∷ repairing ∷ exporting ∷ cancelled ∷ job_failed ∷ []
transitions completed = []
transitions job_failed = []
transitions cancelled = []

-- `_EVENT_TO_STATE`
abbrev pub event_states : EventType → List JobStatus
event_states job_started = spec_validated ∷ []
event_states EventType.spec_compiled = JobStatus.spec_compiled ∷ []
event_states attempt_started = generating ∷ []
event_states attempt_finished = verifying ∷ []
event_states verifier_finished = approved ∷ manual_review ∷ rejected ∷ repair_selecting ∷ []
event_states repair_step = repairing ∷ []
event_states export_started = exporting ∷ []
event_states export_published = completed ∷ []
event_states recoverable = recoverable_error ∷ []
event_states cancel_requested = cancelled ∷ []
event_states fatal = job_failed ∷ []

unfoldable pub validate_transition : JobStatus → JobStatus → EventType → Result (Unit {0})
validate_transition from_state to_state event_type = do
  refuse_if (not (contains to_state (transitions from_state))) "invalid job transition"
  refuse_if (not (contains to_state (event_states event_type))) "invalid job transition"

-- `_check_bound_payload`
unfoldable pub check_bound_payload : Job → EventType → Payload → Result (Unit {0})
check_bound_payload job job_started (started p) =
    refuse_if
      (p.compiled_spec_hash != job.compiled_spec_hash
        || p.cohort_profiles != job.cohort_profiles
        || p.budget != job.budget)
      "invalid job event"
check_bound_payload job job_started _ = refuse_if true "invalid job event"
check_bound_payload job EventType.spec_compiled (compiled compiled_spec_hash) =
    refuse_if (compiled_spec_hash != job.compiled_spec_hash) "invalid job event"
check_bound_payload job EventType.spec_compiled _ = refuse_if true "invalid job event"
check_bound_payload job _ _ = ok tt

-- `if aid in attempts: raise …` and `attempts.append(aid)`
abbrev pub append_new : Text → List Text → Result (List Text)
append_new value seen = do
  refuse_if (contains value seen) "invalid job event"
  ok (seen ++ value ∷ [])

-- The attempt id that an event brings to the log, and the bundle name.
abbrev pub fresh_attempts : EventType → Payload → List AttemptId → Result (List AttemptId)
fresh_attempts attempt_started (attempt_began p) attempts = append_new p.attempt_id attempts
fresh_attempts attempt_started _ attempts = err other_error
fresh_attempts repair_step (repaired p) attempts = append_new p.child_attempt_id attempts
fresh_attempts repair_step _ attempts = err other_error
fresh_attempts _ _ attempts = ok attempts

abbrev pub fresh_bundles : EventType → Payload → List Text → Result (List Text)
fresh_bundles export_published (published p) bundles = append_new p.bundle_name bundles
fresh_bundles export_published _ bundles = err other_error
fresh_bundles _ _ bundles = ok bundles

-- The local variables of `replay_events`.
pub record Progress : Type 0 where
  pub status : JobStatus
  pub last : ℕ
  pub attempts : List AttemptId
  pub bundles : List Text
  pub updated_at : Text

-- `_check_idempotent`; at most one of the two lists grows.
unfoldable pub check_idempotent : Event → Progress → Result (List AttemptId × List Text)
check_idempotent event p = do
  attempts ← fresh_attempts event.event_type event.payload p.attempts
  bundles ← fresh_bundles event.event_type event.payload p.bundles
  ok (attempts, bundles)

-- One round of the loop of `replay_events`.
unfoldable pub replay_step : Job → Progress → Event → Result Progress
replay_step job p event = do
  refuse_if
      (event.job_id != job.job_id
        || event.sequence != p.last + 1
        || event.from_state != p.status
        || text_lt event.timestamp p.updated_at)
      "invalid job event"
  check_bound_payload job event.event_type event.payload
  validate_transition p.status event.to_state event.event_type
  seen ← check_idempotent event p
  ok (record {
    status = event.to_state;
    last = event.sequence;
    attempts = seen.0;
    bundles = seen.1;
    updated_at = event.timestamp;
  })

unfoldable pub replay_loop : Job → Progress → List Event → Result Progress
replay_loop job p [] = ok p
replay_loop job p (event ∷ events) = do q ← replay_step job p event; replay_loop job q events

abbrev pub start : JobSnapshot → Progress
start snapshot = record {
  status = snapshot.job.status;
  last = snapshot.last_sequence;
  attempts = snapshot.attempt_ids;
  bundles = snapshot.bundle_names;
  updated_at = snapshot.job.updated_at;
}

-- The objects that `replay_events` builds from its variables.
unfoldable pub finish_replay : Job → Progress → Result JobState
finish_replay job p = do
  new_job ← make_job (record job { status = p.status; updated_at = p.updated_at })
  make_state "invalid job state" (record {
    job = new_job;
    last_sequence = p.last;
    attempt_ids = p.attempts;
    bundle_names = p.bundles;
  })

unfoldable pub replay_events : JobSnapshot → List Event → Result JobState
replay_events snapshot events =
    relabel "invalid job event"
      (replay_loop snapshot.job (start snapshot) events >>= finish_replay snapshot.job)
