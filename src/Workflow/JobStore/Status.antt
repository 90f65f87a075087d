-- ===== src/Workflow/JobStore/Status.antt =====
-- The status that an appended event leaves.
use lookfile.Prelude.{
  arith, subst, ◌≢◌, ℕ, ◌+◌, ◌≡◌, refl, sym, ap, ◌∙◌, Option, none, some, List, [], ◌∷◌, ok, ok_inj,
  >>=-eq-ok, >>-eq-ok, after_guard, relabel, relabel-eq-ok, list_eq, nat_eq,
}
use lookfile.Domain.Identifiers.{JobId}
use lookfile.Workflow.JobModels.{Job, make_job, terminal}
use lookfile.Workflow.Events.{Event, make_event, check_payload, JobSnapshot, JobState, make_state}
use lookfile.Workflow.StateMachine.{
  Progress, start, replay_step, replay_loop, replay_events, finish_replay, validate_transition,
}
use lookfile.Workflow.StateMachine.Rounds.{replay_step-Advanced}
use lookfile.Workflow.StateMachine.Validity.{make_event_inv}
use lookfile.Workflow.StateMachine.Replay.{AllMade}
use lookfile.Workflow.JobStore.{
  Stored, load, append_event, rebuild_event, decode_persisted, found, validate_event,
  check_duplicates,
}
use lookfile.Workflow.JobStore.Made.{append_event-AllMade}
use lookfile.Workflow.JobStore.Append.{append_decoded_inv, append_event-loads}

validate_event-to_state :
    (job_id : JobId) (event : Event) (state : JobState) (finalized : Event)
    → validate_event job_id event state ≡ ok finalized
    → finalized.to_state ≡ event.to_state
unfolding validate_event
validate_event-to_state job_id event state finalized h =
    let (_, h1) = after_guard (terminal state.job) _ _ h in
    let (_, h2) = >>-eq-ok (check_duplicates event.event_type event.payload state) _ h1 in
    let (_, h3) = after_guard _ _ _ h2 in
    let (_, h4) =
      >>-eq-ok (validate_transition state.job.status event.to_state event.event_type) _ h3 in
    let (made, built, h5) =
      >>=-eq-ok (make_event (record event { sequence = state.last_sequence + 1 })) _ h4 in
    let (snapshot, _, h6) =
      >>=-eq-ok (relabel "invalid job event" (make_state "invalid job snapshot" state)) _ h5 in
    let (_, _, e) =
      >>=-eq-ok (relabel "invalid job event" (replay_events snapshot (made ∷ []))) _ h6 in
    ap (λ (x : Event). x.to_state) (sym (ok_inj e))
    ∙ ap (λ (x : Event). x.to_state) (sym (make_event_inv _ built).1)

append_event-to_state :
    (encoded_size : List Event → ℕ) (job_id : JobId) (candidate : Event)
    (disk after : Option Stored) (finalized : Event)
    → append_event encoded_size job_id candidate disk ≡ ok (after, finalized)
    → finalized.to_state ≡ candidate.to_state
unfolding append_event rebuild_event
append_event-to_state encoded_size job_id candidate disk after finalized h =
    let (event, rebuilt, h1) = >>=-eq-ok (rebuild_event candidate) _ h in
    let (o, _, h2) = >>=-eq-ok (decode_persisted job_id disk) _ h1 in
    let (decoded, _, h3) = >>=-eq-ok (found o) _ h2 in
    let (accepted, _) = append_decoded_inv encoded_size job_id event decoded after finalized h3 in
    let (_, made) =
      >>-eq-ok (check_payload candidate.payload) (make_event candidate)
        (relabel-eq-ok "invalid job event" _ rebuilt) in
    validate_event-to_state job_id event decoded.state finalized accepted
    ∙ ap (λ (x : Event). x.to_state) (sym (make_event_inv candidate made).1)

nothing_written :
    (encoded_size : List Event → ℕ) (job_id : JobId) (candidate : Event) (disk : Option Stored)
    (finalized : Event)
    → append_event encoded_size job_id candidate disk ≢ ok (none, finalized)
unfolding append_event
nothing_written encoded_size job_id candidate disk finalized h =
    let (event, _, h1) = >>=-eq-ok (rebuild_event candidate) _ h in
    let (o, _, h2) = >>=-eq-ok (decode_persisted job_id disk) _ h1 in
    let (decoded, _, h3) = >>=-eq-ok (found o) _ h2 in
    let (_, written) = append_decoded_inv encoded_size job_id event decoded none finalized h3 in
    cc (written)

finish_replay-status :
    (job : Job) (p : Progress) (state : JobState)
    → finish_replay job p ≡ ok state
    → state.job.status ≡ p.status
unfolding finish_replay make_job make_state
finish_replay-status job p state h = ground arith

replay_events-status :
    (snapshot : JobSnapshot) (event : Event) (state : JobState)
    → replay_events snapshot (event ∷ []) ≡ ok state
    → state.job.status ≡ event.to_state
unfolding replay_events replay_loop
replay_events-status snapshot event state h =
    let (q, looped, finished) =
      >>=-eq-ok (replay_loop snapshot.job (start snapshot) (event ∷ []))
        (finish_replay snapshot.job) (relabel-eq-ok "invalid job event" _ h) in
    let (r, stepped, e) = >>=-eq-ok (replay_step snapshot.job (start snapshot) event) _ looped in
    finish_replay-status snapshot.job q state finished
    ∙ ap (λ (x : Progress). x.status) (sym (ok_inj e))
    ∙ (replay_step-Advanced snapshot.job (start snapshot) event stepped).status

-- After an accepted event the job loads in the status that the event leads to.
pub append_event-status :
    (encoded_size : List Event → ℕ) (job_id : JobId) (candidate : Event)
    (disk after : Option Stored) (finalized : Event) (stored : Stored)
    → disk ≡ some stored
    → AllMade stored.events
    → append_event encoded_size job_id candidate disk ≡ ok (after, finalized)
    → (next : JobState) × (load job_id after ≡ ok next) × (next.job.status ≡ candidate.to_state)
append_event-status encoded_size job_id candidate disk after finalized stored d m h =
    let (_, next, _, loads, replays, _, _) =
      append_event-loads encoded_size job_id candidate disk after finalized stored d m h in
    (
      next,
      loads,
      replay_events-status _ finalized next replays
          ∙ append_event-to_state encoded_size job_id candidate disk after finalized h,
    )

-- What an accepted event writes passes the constructors.
pub append_event-writes :
    (encoded_size : List Event → ℕ) (job_id : JobId) (candidate : Event)
    (disk after : Option Stored) (finalized : Event) (stored : Stored)
    → disk ≡ some stored
    → AllMade stored.events
    → append_event encoded_size job_id candidate disk ≡ ok (after, finalized)
    → (written : Stored) × (after ≡ some written) × AllMade written.events
append_event-writes encoded_size job_id candidate disk none finalized stored d m h =
    absurd (nothing_written encoded_size job_id candidate disk finalized h)
append_event-writes encoded_size job_id candidate disk (some written) finalized stored d m h = (
  written,
  refl,
  append_event-AllMade encoded_size job_id candidate stored written finalized m (
      subst (λ x. append_event encoded_size job_id candidate x ≡ ok (some written, finalized)) d h),
)
