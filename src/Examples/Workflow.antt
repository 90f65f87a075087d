-- ===== src/Examples/Workflow.antt =====
-- The job of src/specstyle/workflow/ on a log of two events.
use lookfile.Prelude.{
  none, ◌≡◌, refl, sym, subst, false, some, List, [], ◌∷◌, ◌+◌, Memᴰ, ok, ℕ, ◌>>=◌,
}
use lookfile.Domain.Text.{Text, text}
use lookfile.Workflow.JobModels.{
  JobStatus, created, spec_validated, verifying, approved, completed, cancelled, EventType,
  job_started, verifier_finished, cancel_requested, Job, make_job, profiles, is_timestamp,
  job_budget, terminal,
}
use lookfile.Workflow.Events.{
  started, compiled, Event, make_event, check_payload, JobSnapshot, JobState, make_state,
}
use lookfile.Workflow.StateMachine.{
  validate_transition, check_bound_payload, check_idempotent, replay_step, replay_loop,
  finish_replay, replay_events,
}
use lookfile.Workflow.StateMachine.Transitions.{
  Route, validate_transition_iff, terminal_or_stoppable, completes,
}
use lookfile.Workflow.StateMachine.Validity.{IsMade}
use lookfile.Workflow.StateMachine.Replay.{IsSound, AllMade, replay_events-append}
use lookfile.Workflow.StateMachine.Log.{replay_events-log}
use lookfile.Workflow.JobStore.{
  Stored, canonical_genesis, validated_snapshot, decode_persisted, load, check_duplicates,
  validate_event, rebuild_event, rebuild_snapshot, append_event, validate_snapshot_update,
  update_forbidden, save_snapshot,
}
use lookfile.Workflow.JobStore.Append.{append_event-loads}
use lookfile.Workflow.JobStore.Reachable.{fresh, saved, appended, IsLoadable, Reachable-IsLoadable}
use lookfile.Workflow.JobStore.Save.{save_snapshot-load}

validate_transition_iff_example : validate_transition verifying approved verifier_finished ≡ ok tt
validate_transition_iff_example =
    (validate_transition_iff verifying approved verifier_finished).1 (refl, refl)

abbrev pub noon : Text
noon = text "2026-01-01T12:00:00.000Z"

abbrev job : Job
job = record {
  job_id = text "job-1";
  compiled_spec_hash = text "00";
  cohort_profiles = text "xhs_grid" ∷ [];
  budget = record { max_attempts_per_item = 3 };
  status = created;
  created_at = noon;
  updated_at = noon;
}

abbrev genesis : JobSnapshot
genesis = record { job = job; last_sequence = 0; attempt_ids = []; bundle_names = [] }

abbrev start_event : Event
start_event = record {
  sequence = 1;
  job_id = text "job-1";
  event_type = job_started;
  from_state = created;
  to_state = spec_validated;
  timestamp = noon;
  payload = started (record {
    compiled_spec_hash = text "00";
    cohort_profiles = text "xhs_grid" ∷ [];
    budget = record { max_attempts_per_item = 3 };
  });
}

abbrev compile_event : Event
compile_event = record {
  sequence = 2;
  job_id = text "job-1";
  event_type = EventType.spec_compiled;
  from_state = spec_validated;
  to_state = JobStatus.spec_compiled;
  timestamp = text "2026-01-01T12:00:01.500Z";
  payload = compiled (text "00");
}

start-IsMade : IsMade start_event
unfolding make_event check_payload profiles is_timestamp
start-IsMade = record { built = refl; payload_built = refl }

compile-IsMade : IsMade compile_event
unfolding make_event check_payload profiles is_timestamp
compile-IsMade = record { built = refl; payload_built = refl }

start-AllMade : AllMade (start_event ∷ [])
start-AllMade event (Memᴰ.head e) = subst IsMade (sym e) start-IsMade
start-AllMade event (Memᴰ.tail m) = elim m [ ]

genesis-IsSound : IsSound genesis
unfolding profiles is_timestamp
genesis-IsSound = record {
  ordered = refl;
  cohort = refl;
  created = refl;
  updated = refl;
  named = refl;
  once_attempted = refl;
  once_published = refl;
}

abbrev validated : JobState
validated = record genesis { job = record job { status = spec_validated }; last_sequence = 1 }

start_replays : replay_events genesis (start_event ∷ []) ≡ ok validated
unfolding replay_events replay_loop replay_step check_bound_payload check_idempotent
    validate_transition finish_replay make_job make_state profiles is_timestamp
start_replays = refl

terminal_or_stoppable_example :
    validate_transition spec_validated cancelled cancel_requested ≡ ok tt
terminal_or_stoppable_example = ((terminal_or_stoppable spec_validated).1 refl).0

completes_example : Route spec_validated completed
completes_example = completes spec_validated refl

replay_events-append_example : replay_events genesis (start_event ∷ compile_event ∷ []) ≡ (
    replay_events genesis (start_event ∷ []) >>= λ state. replay_events state (compile_event ∷ []))
replay_events-append_example =
    replay_events-append genesis (start_event ∷ []) (compile_event ∷ []) start-AllMade
      genesis-IsSound

replay_events-log_example : Route created spec_validated
replay_events-log_example =
    (replay_events-log genesis (start_event ∷ []) validated start-AllMade genesis-IsSound
      start_replays).0

abbrev stored : Stored
stored = record { snapshot = genesis; events = start_event ∷ [] }

abbrev pub stored_more : Stored
stored_more = record { snapshot = genesis; events = start_event ∷ compile_event ∷ [] }

pub more-AllMade : AllMade stored_more.events
more-AllMade event (Memᴰ.head e) = subst IsMade (sym e) start-IsMade
more-AllMade event (Memᴰ.tail (Memᴰ.head e)) = subst IsMade (sym e) compile-IsMade
more-AllMade event (Memᴰ.tail (Memᴰ.tail m)) = elim m [ ]

abbrev pub encoded_size : List Event → ℕ
encoded_size events = 512

compile_appended :
    append_event encoded_size (text "job-1") (record compile_event { sequence = 7 }) (some stored)
    ≡ ok (some stored_more, compile_event)
unfolding append_event rebuild_event decode_persisted validated_snapshot canonical_genesis
    job_budget validate_event check_duplicates replay_events replay_loop replay_step
    check_bound_payload check_idempotent validate_transition finish_replay make_job make_state
    profiles is_timestamp make_event check_payload
compile_appended = refl

append_event-loads_example :
    (state : JobState) × (next : JobState) × (load (text "job-1") (some stored) ≡ ok state)
    × (load (text "job-1") (some stored_more) ≡ ok next)
    × (replay_events state (compile_event ∷ []) ≡ ok next)
    × (terminal state.job ≡ false)
    × (compile_event.sequence ≡ state.last_sequence + 1)
append_event-loads_example =
    append_event-loads encoded_size (text "job-1") (record compile_event { sequence = 7 })
      (some stored) (some stored_more) compile_event stored refl start-AllMade compile_appended

validated_saved :
    save_snapshot (text "job-1") validated (some stored)
    ≡ ok (some (record stored { snapshot = validated }))
unfolding save_snapshot rebuild_snapshot decode_persisted validated_snapshot canonical_genesis
    job_budget validate_snapshot_update update_forbidden replay_events replay_loop replay_step
    check_bound_payload check_idempotent validate_transition finish_replay make_job make_state
    profiles is_timestamp
validated_saved = refl

save_snapshot-load_example :
    (state : JobState) × (snapshot : JobSnapshot) × (load (text "job-1") (some stored) ≡ ok state)
    × (load (text "job-1") (some (record stored { snapshot = validated })) ≡ ok state)
    × (some (record stored { snapshot = validated })
        ≡ some (record { snapshot = snapshot; events = stored.events }))
save_snapshot-load_example =
    save_snapshot-load (text "job-1") validated (some stored)
      (some (record stored { snapshot = validated })) stored refl start-AllMade validated_saved

genesis_saved :
    save_snapshot (text "job-1") genesis none
    ≡ ok (some (record { snapshot = genesis; events = [] }))
unfolding save_snapshot rebuild_snapshot decode_persisted validated_snapshot canonical_genesis
    job_budget validate_snapshot_update update_forbidden replay_events replay_loop replay_step
    check_bound_payload check_idempotent validate_transition finish_replay make_job make_state
    profiles is_timestamp
genesis_saved = refl

start_appended :
    append_event encoded_size
      (text "job-1")
      start_event
      (some (record { snapshot = genesis; events = [] }))
    ≡ ok (some stored, start_event)
unfolding append_event rebuild_event decode_persisted validated_snapshot canonical_genesis
    job_budget validate_event check_duplicates replay_events replay_loop replay_step
    check_bound_payload check_idempotent validate_transition finish_replay make_job make_state
    profiles is_timestamp make_event check_payload
start_appended = refl

Reachable-IsLoadable_example : IsLoadable encoded_size (text "job-1") stored
Reachable-IsLoadable_example =
    Reachable-IsLoadable encoded_size (text "job-1") (some stored)
      (appended start_event start_event (saved genesis fresh genesis_saved) start_appended) stored
      refl
