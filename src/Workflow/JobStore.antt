-- ===== src/Workflow/JobStore.antt =====
-- src/specstyle/workflow/job_store.py: what the store does with the decoded content of one job. The
-- bytes, descriptors and locks are not part of it: a job's directory holds nothing, or a snapshot
-- and the events, and a commit under the job's lock replaces both. The size of an encoded log is an
-- argument, `encoded_size`.
pub mod Validation
pub mod Decoding
pub mod Append
pub mod Save
pub mod Made
pub mod Reachable
pub mod Status
use lookfile.Prelude.{
  ℕ, Bool, true, false, not, ◌&&◌, ◌||◌, Option, none, some, List, [], ◌∷◌, ◌++◌, ◌==◌, ◌!=◌, ◌+◌,
  ◌*◌, nat_eq, list_eq, Result, ok, err, domain_error, infrastructure_error, refuse_if, relabel,
  corrupt, ◌>>=◌, ◌>>◌, leb, ltb, length, take, drop, contains, if◌then◌else◌,
}
use lookfile.Domain.Identifiers.{JobId}
use lookfile.Workflow.JobModels.{
  JobStatus, job_status_eq, created, EventType, attempt_started, repair_step, export_published, Job,
  job_budget, make_job, terminal,
}
use lookfile.Workflow.Events.{
  Payload, attempt_began, repaired, published, Event, make_event, check_payload, JobSnapshot,
  JobState, make_state, job_state_eq,
}
use lookfile.Workflow.StateMachine.{replay_events, validate_transition}

-- `_canonical_genesis`
unfoldable pub canonical_genesis : Job → Result JobSnapshot
canonical_genesis job = do
  budget ← job_budget job.budget.max_attempts_per_item
  genesis ← make_job (record job { budget = budget; status = created; updated_at = job.created_at })
  make_state "invalid job snapshot"
      (record { job = genesis; last_sequence = 0; attempt_ids = []; bundle_names = [] })

-- `_validated_snapshot`
unfoldable pub validated_snapshot : JobId → JobSnapshot → List Event → Result JobState
validated_snapshot job_id snapshot events = do
  refuse_if (snapshot.job.job_id != job_id || not (leb snapshot.last_sequence (length events)))
      "invalid job snapshot"
  genesis ← canonical_genesis snapshot.job
  prefix ← replay_events genesis (take snapshot.last_sequence events)
  expected ← make_state "invalid job snapshot" prefix
  refuse_if (snapshot != expected) "invalid job snapshot"
  replay_events expected (drop snapshot.last_sequence events)

-- The content of a job's directory.
pub record Stored : Type 0 where
  pub snapshot : JobSnapshot
  pub events : List Event

-- `_DecodedState`, without the persisted bytes.
pub record Decoded : Type 0 where
  pub stored : Stored
  pub state : JobState

-- `_decode_persisted`
unfoldable pub decode_persisted : JobId → Option Stored → Result (Option Decoded)
decode_persisted job_id none = ok none
decode_persisted job_id (some stored) = do
  state ← corrupt "job store corrupted" (validated_snapshot job_id stored.snapshot stored.events)
  ok (some (record { stored = stored; state = state }))

abbrev pub found : Option Decoded → Result Decoded
found none = err (domain_error "job not found")
found (some decoded) = ok decoded

unfoldable pub load : JobId → Option Stored → Result JobState
load job_id disk = do
  decoded ← decode_persisted job_id disk
  present ← found decoded
  ok present.state

-- The duplicate tests at the head of `_validate_event`.
unfoldable pub check_duplicates : EventType → Payload → JobState → Result (Unit {0})
check_duplicates attempt_started (attempt_began p) state =
    refuse_if (contains p.attempt_id state.attempt_ids) "duplicate job attempt"
check_duplicates repair_step (repaired p) state =
    refuse_if (contains p.child_attempt_id state.attempt_ids) "duplicate job attempt"
check_duplicates export_published (published p) state =
    refuse_if (contains p.bundle_name state.bundle_names) "duplicate job export"
check_duplicates _ _ state = ok tt

-- `_validate_event`
unfoldable pub validate_event : JobId → Event → JobState → Result Event
validate_event job_id event state = do
  refuse_if (terminal state.job) "job is terminal"
  check_duplicates event.event_type event.payload state
  refuse_if (event.job_id != job_id || event.from_state != state.job.status)
      "invalid job transition"
  validate_transition state.job.status event.to_state event.event_type
  finalized ← make_event (record event { sequence = state.last_sequence + 1 })
  snapshot ← relabel "invalid job event" (make_state "invalid job snapshot" state)
  replayed ← relabel "invalid job event" (replay_events snapshot (finalized ∷ []))
  ok finalized

-- `MAX_EVENTS` of `_job_store_transaction.py`
abbrev pub max_events : ℕ
max_events = 64 * 1024 * 1024

-- `rebuild_event` and `rebuild_snapshot` of `_job_store_codec.py`: the constructors run once more.
unfoldable pub rebuild_event : Event → Result Event
rebuild_event event = relabel "invalid job event" (do check_payload event.payload; make_event event)

unfoldable pub rebuild_snapshot : JobSnapshot → Result JobSnapshot
rebuild_snapshot snapshot = relabel "invalid job snapshot" (do
  budget ← job_budget snapshot.job.budget.max_attempts_per_item
  job ← make_job (record snapshot.job { budget = budget })
  make_state "invalid job snapshot" (record snapshot { job = job }))

-- `append_event` on the content of the job's directory: the new content and the result.
module _ (encoded_size : List Event → ℕ) where
  pub append_decoded : JobId → Event → Decoded → Result (Option Stored × Event)
  append_decoded job_id event decoded = do
    finalized ← validate_event job_id event decoded.state
    let events = decoded.stored.events ++ finalized ∷ []
    if ltb max_events (encoded_size events)
        then err (infrastructure_error "job store io failed")
        else ok (some (record { snapshot = decoded.stored.snapshot; events = events }), finalized)

  unfoldable pub append_event : JobId → Event → Option Stored → Result (Option Stored × Event)
  unfolding append_decoded
  append_event job_id candidate disk = do
    event ← rebuild_event candidate
    decoded ← decode_persisted job_id disk
    present ← found decoded
    append_decoded job_id event present

-- The condition of `_validate_snapshot_update` on an old snapshot.
unfoldable pub update_forbidden : JobSnapshot → JobSnapshot → JobSnapshot → JobSnapshot → Bool
update_forbidden old_genesis genesis old snapshot =
    old_genesis != genesis
    || (ltb snapshot.last_sequence old.last_sequence
        || (snapshot.last_sequence == old.last_sequence && snapshot != old))

-- `_validate_snapshot_update`, on the events and the old snapshot of the decoded content.
abbrev update_allowed : JobSnapshot → Option Decoded → Result (Unit {0})
update_allowed snapshot none = do
  genesis ← canonical_genesis snapshot.job
  refuse_if (snapshot != genesis) "invalid job snapshot"
update_allowed snapshot (some decoded) = do
  old_genesis ← canonical_genesis decoded.stored.snapshot.job
  genesis ← canonical_genesis snapshot.job
  refuse_if (update_forbidden old_genesis genesis decoded.stored.snapshot snapshot)
      "invalid job snapshot"

abbrev pub events_of : Option Decoded → List Event
events_of none = []
events_of (some decoded) = decoded.stored.events

unfoldable pub validate_snapshot_update : JobId → JobSnapshot → Option Decoded → Result (Unit {0})
validate_snapshot_update job_id snapshot decoded = relabel "invalid job snapshot" (do
  state ← validated_snapshot job_id snapshot (events_of decoded)
  update_allowed snapshot decoded)

-- `save_snapshot` on the content of the job's directory.
unfoldable pub save_snapshot : JobId → JobSnapshot → Option Stored → Result (Option Stored)
save_snapshot job_id candidate disk = do
  snapshot ← rebuild_snapshot candidate
  refuse_if (snapshot.job.job_id != job_id) "invalid job snapshot"
  decoded ← decode_persisted job_id disk
  validate_snapshot_update job_id snapshot decoded
  ok (some (record { snapshot = snapshot; events = events_of decoded }))

unfoldable pub list_events : JobId → Option Stored → Result (List Event)
list_events job_id disk = do decoded ← decode_persisted job_id disk; ok (events_of decoded)

abbrev snapshot_of : Option Decoded → Option JobSnapshot
snapshot_of none = none
snapshot_of (some decoded) = some decoded.stored.snapshot

unfoldable pub get_snapshot : JobId → Option Stored → Result (Option JobSnapshot)
get_snapshot job_id disk = do decoded ← decode_persisted job_id disk; ok (snapshot_of decoded)
