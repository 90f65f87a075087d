-- ===== src/Workflow/Events.antt =====
-- src/specstyle/workflow/job_models.py: event payloads, events, snapshots and states.
use lookfile.Prelude.{
  ℕ, ◌≡◌, ◌↔◌, Eq, ==_iff, arith, Bool, true, not, ◌&&◌, ◌||◌, Option, List, [], ◌∷◌, ◌==◌, ◌!=◌,
  nat_eq, list_eq, Result, ok, refuse_if, ◌>>◌, ltb, contains, all, has_duplicates, String,
}
use lookfile.Domain.Text.{Text, text}
use lookfile.Domain.Integers.{ℤ}
use lookfile.Domain.Enums.{ArtifactStatus, DecisionReason, RepairStopReason}
use lookfile.Domain.Identifiers.{
  ArtifactId, AttemptId, DecisionId, Identifier, JobId, RuleId, Sha256, is_identifier,
}
use lookfile.Workflow.JobModels.{
  JobStatus, job_status_eq, EventType, event_type_eq, job_started, attempt_started,
  attempt_finished, verifier_finished, repair_step, export_started, export_published, recoverable,
  cancel_requested, fatal, OutputProfile, JobBudget, Job, job_eq, profiles, is_timestamp,
  is_safe_text,
}

pub record JobStartedPayload : Type 0 where
  pub compiled_spec_hash : Sha256
  pub cohort_profiles : List OutputProfile
  pub budget : JobBudget

pub record AttemptStartedPayload : Type 0 where
  pub cohort_index : ℤ
  pub item_index : ℤ
  pub attempt_id : AttemptId
  pub parent_attempt_id : Option AttemptId

pub record AttemptFinishedPayload : Type 0 where
  pub cohort_index : ℤ
  pub item_index : ℤ
  pub attempt_id : AttemptId
  pub artifact_id : ArtifactId
  pub request_hash : Sha256

pub record VerifierFinishedPayload : Type 0 where
  pub cohort_index : ℤ
  pub item_index : ℤ
  pub artifact_id : ArtifactId
  pub artifact_status : ArtifactStatus
  pub decision_reason : DecisionReason
  pub repair_stop_reason : Option RepairStopReason

pub record RepairStepPayload : Type 0 where
  pub cohort_index : ℤ
  pub item_index : ℤ
  pub decision_id : DecisionId
  pub action_id : Identifier
  pub trigger_rule_id : RuleId
  pub parent_attempt_id : AttemptId
  pub child_attempt_id : AttemptId

pub record ExportPublishedPayload : Type 0 where
  pub bundle_name : Text
  pub manifest_sha256 : Sha256
  pub payload_sha256 : Sha256
  pub bundle_sha256 : Sha256

pub record FatalPayload : Type 0 where
  pub error_family : Text
  pub reason : Text

-- The payload classes, one constructor for each.
pub data Payload : Type 0 where
  started : JobStartedPayload → Payload
  compiled : Sha256 → Payload
  attempt_began : AttemptStartedPayload → Payload
  attempt_ended : AttemptFinishedPayload → Payload
  verified : VerifierFinishedPayload → Payload
  repaired : RepairStepPayload → Payload
  export_began : Text → Payload
  published : ExportPublishedPayload → Payload
  recovering : Text → Payload
  cancelling : Text → Payload
  failing : FatalPayload → Payload

-- `_PAYLOAD_BY_EVENT`, read from the payload to its event type.
abbrev pub payload_event : Payload → EventType
payload_event (started p) = job_started
payload_event (compiled h) = EventType.spec_compiled
payload_event (attempt_began p) = attempt_started
payload_event (attempt_ended p) = attempt_finished
payload_event (verified p) = verifier_finished
payload_event (repaired p) = repair_step
payload_event (export_began name) = export_started
payload_event (published p) = export_published
payload_event (recovering reason) = recoverable
payload_event (cancelling reason) = cancel_requested
payload_event (failing p) = fatal

-- `_FATAL_FAMILIES`
abbrev pub fatal_families : List Text
fatal_families =
    text "GENERATION_OOM"
    ∷ text "GENERATION_FAILED"
    ∷ text "VERIFIER_UNAVAILABLE"
    ∷ text "VERIFIER_UNVERIFIABLE"
    ∷ text "REPAIR_BUDGET_EXHAUSTED"
    ∷ text "EXPORT_INVARIANT_VIOLATION"
    ∷ text "EXPORT_HASH_MISMATCH"
    ∷ text "ROCM_NOT_AVAILABLE"
    ∷ text "SPEC_INVALID"
    ∷ text "ASSET_UNLICENSED"
    ∷ text "MODEL_UNLICENSED"
    ∷ text "UNKNOWN"
    ∷ []

-- The `__post_init__` of the payload classes; identifiers and hashes are objects of their classes,
-- checked when these were made.
unfoldable pub check_payload : Payload → Result (Unit {0})
check_payload (started p) = profiles p.cohort_profiles
check_payload (export_began name) = refuse_if (not (is_identifier name)) "invalid bundle name"
check_payload (published p) = refuse_if (not (is_identifier p.bundle_name)) "invalid bundle name"
check_payload (recovering reason) =
    refuse_if (not (is_safe_text 256 reason)) "invalid recoverable reason"
check_payload (cancelling reason) =
    refuse_if (not (is_safe_text 256 reason)) "invalid cancel reason"
check_payload (failing p) = do
  refuse_if (not (contains p.error_family fatal_families)) "invalid error family"
  refuse_if (not (is_safe_text 256 p.reason)) "invalid fatal reason"
check_payload _ = ok tt

pub record Event : Type 0 where
  pub sequence : ℕ
  pub job_id : JobId
  pub event_type : EventType
  pub from_state : JobStatus
  pub to_state : JobStatus
  pub timestamp : Text
  pub payload : Payload

-- `Event.__post_init__`
unfoldable pub make_event : Event → Result Event
make_event event = do
  refuse_if (ltb event.sequence 1) "invalid sequence"
  refuse_if (event.from_state == event.to_state && event.event_type != fatal)
      "invalid job transition"
  refuse_if (payload_event event.payload != event.event_type) "invalid job event"
  refuse_if (not (is_timestamp event.timestamp)) "invalid timestamp"
  ok event

-- The fields that `JobSnapshot` and `JobState` share; the schema version of a snapshot is a constant.
pub record JobState : Type 0 where
  pub job : Job
  pub last_sequence : ℕ
  pub attempt_ids : List AttemptId
  pub bundle_names : List Text

abbrev job_state_beq : JobState → JobState → Bool
job_state_beq a b =
    a.job == b.job
    && a.last_sequence == b.last_sequence
    && a.attempt_ids == b.attempt_ids
    && a.bundle_names == b.bundle_names

pub job_state_beq_iff : (a b : JobState) → (job_state_beq a b ≡ true) ↔ (a ≡ b)
job_state_beq_iff a b = ground (
  arith,
  ==_iff a.job b.job,
  ==_iff a.last_sequence b.last_sequence,
  ==_iff a.attempt_ids b.attempt_ids,
  ==_iff a.bundle_names b.bundle_names,
)

instance abbrev pub job_state_eq : Eq JobState
job_state_eq = record { beq = job_state_beq; beq_iff = job_state_beq_iff }

abbrev pub JobSnapshot : Type 0
JobSnapshot = JobState

-- `JobState.__post_init__` and, up to its message, `JobSnapshot.__post_init__`
unfoldable pub make_state : String → JobState → Result JobState
make_state message state = do
  refuse_if (not (all is_identifier state.bundle_names)) "invalid bundle name"
  refuse_if (has_duplicates state.attempt_ids || has_duplicates state.bundle_names) message
  ok state
