-- ===== src/Workflow/JobStore/Made.antt =====
-- What job_store.py writes passes the constructors of the events and snapshots.
use mathlib.Core.List.Memᴰ
use lookfile.Prelude.{
  ℕ, ◌+◌, ◌≡◌, inl, inr, sym, subst, Option, none, some, List, [], ◌∷◌, ◌++◌, Memᴰ, ok, ◌>>=◌,
  >>=-eq-ok, >>-eq-ok, after_guard, relabel, relabel-eq-ok, ok_inj, ◌!=◌, list_eq, nat_eq,
}
use lookfile.Domain.Identifiers.{JobId}
use lookfile.Workflow.Events.{
  Event, make_event, check_payload, JobSnapshot, JobState, job_state_eq, make_state,
}
use lookfile.Workflow.StateMachine.{validate_transition, replay_events}
use lookfile.Workflow.JobModels.{terminal}
use lookfile.Workflow.StateMachine.Validity.{IsMade, make_event_inv}
use lookfile.Workflow.StateMachine.Replay.{AllMade}
use lookfile.Workflow.JobStore.{
  Stored, validated_snapshot, decode_persisted, found, check_duplicates, validate_event,
  append_event, rebuild_event, rebuild_snapshot, validate_snapshot_update, save_snapshot,
  update_allowed,
}
use lookfile.Workflow.JobStore.Decoding.{decoded_parts}
use lookfile.Workflow.JobStore.Append.{append_decoded_inv}
use lookfile.Workflow.JobStore.Save.{}

rebuild_event-payload :
    (candidate event : Event)
    → rebuild_event candidate ≡ ok event
    → check_payload event.payload ≡ ok tt
unfolding rebuild_event
rebuild_event-payload candidate event h =
    let (checked, made) =
      >>-eq-ok (check_payload candidate.payload) (make_event candidate)
        (relabel-eq-ok "invalid job event" _ h) in
    subst (λ (e : Event). check_payload e.payload ≡ ok tt) (make_event_inv candidate made).1 checked

make_event-again : (event made : Event) → make_event event ≡ ok made → make_event made ≡ ok made
make_event-again event made h = subst (λ e. make_event e ≡ ok made) (make_event_inv event h).1 h

-- The accepted event passes its constructors.
validate_event-IsMade :
    (job_id : JobId) (event : Event) (state : JobState) (finalized : Event)
    → check_payload event.payload ≡ ok tt
    → validate_event job_id event state ≡ ok finalized
    → IsMade finalized
unfolding validate_event
validate_event-IsMade job_id event state finalized c h =
    let (_, h1) = after_guard (terminal state.job) _ _ h in
    let (_, h2) = >>-eq-ok (check_duplicates event.event_type event.payload state) _ h1 in
    let (_, h3) = after_guard _ _ _ h2 in
    let (_, h4) =
      >>-eq-ok (validate_transition state.job.status event.to_state event.event_type) _ h3 in
    let (made, built, h5) =
      >>=-eq-ok (make_event (record event { sequence = state.last_sequence + 1 })) _ h4 in
    let (snapshot, _, h6) =
      >>=-eq-ok (relabel "invalid job event" (make_state "invalid job snapshot" state)) _ h5 in
    let (_, _, e) =
      >>=-eq-ok (relabel "invalid job event" (replay_events snapshot (made ∷ []))) _ h6 in
    let same = (make_event_inv _ built).1 in
    subst IsMade (ok_inj e) (record {
      built = make_event-again _ made built;
      payload_built = subst (λ (x : Event). check_payload x.payload ≡ ok tt) same c;
    })

pub some_inj : {s t : Stored} → some s ≡ some t → s ≡ t
some_inj h = cc

AllMade-snoc :
    (events : List Event) (event : Event)
    → AllMade events
    → IsMade event
    → AllMade (events ++ event ∷ [])
AllMade-snoc events event all_made made e m = elim (Memᴰ.append_cases events m) [
  | inl k ↦ all_made e k
  | inr k ↦ elim k [ Memᴰ.head same ↦ subst IsMade (sym same) made | Memᴰ.tail l ↦ elim l [ ] ]
]

pub append_event-AllMade :
    (encoded_size : List Event → ℕ) (job_id : JobId) (candidate : Event) (stored after : Stored)
    (finalized : Event)
    → AllMade stored.events
    → append_event encoded_size job_id candidate (some stored) ≡ ok (some after, finalized)
    → AllMade after.events
unfolding append_event
append_event-AllMade encoded_size job_id candidate stored after finalized m h =
    let (event, rebuilt, h1) = >>=-eq-ok (rebuild_event candidate) _ h in
    let (o, decoding, h2) = >>=-eq-ok (decode_persisted job_id (some stored)) _ h1 in
    let (decoded, present, h3) = >>=-eq-ok (found o) _ h2 in
    let (on_disk, _) = decoded_parts job_id (some stored) o decoded decoding present in
    let (accepted, written) =
      append_decoded_inv encoded_size job_id event decoded (some after) finalized h3 in
    let made =
      validate_event-IsMade job_id event decoded.state finalized
        (rebuild_event-payload candidate event rebuilt) accepted in
    let old : AllMade decoded.stored.events =
      subst (λ (x : Stored). AllMade x.events) (some_inj on_disk) m in
    subst (λ (x : Stored). AllMade x.events) (sym (some_inj written))
      (AllMade-snoc decoded.stored.events finalized old made)

pub append_event-on_disk :
    (encoded_size : List Event → ℕ) (job_id : JobId) (candidate : Event)
    (disk after : Option Stored) (finalized : Event)
    → append_event encoded_size job_id candidate disk ≡ ok (after, finalized)
    → (stored : Stored) × (disk ≡ some stored)
unfolding append_event
append_event-on_disk encoded_size job_id candidate disk after finalized h =
    let (event, _, h1) = >>=-eq-ok (rebuild_event candidate) _ h in
    let (o, decoding, h2) = >>=-eq-ok (decode_persisted job_id disk) _ h1 in
    let (decoded, present, _) = >>=-eq-ok (found o) _ h2 in
    (decoded.stored, (decoded_parts job_id disk o decoded decoding present).0)

-- The first snapshot of a job that is not on disk.
pub save_snapshot-creates :
    (job_id : JobId) (candidate : JobSnapshot) (after : Option Stored)
    → save_snapshot job_id candidate none ≡ ok after
    → (snapshot : JobSnapshot) × (state : JobState) × (after
        ≡ some (record { snapshot = snapshot; events = [] }))
      × (validated_snapshot job_id snapshot [] ≡ ok state)
unfolding save_snapshot decode_persisted validate_snapshot_update
save_snapshot-creates job_id candidate after h =
    let (snapshot, _, h1) = >>=-eq-ok (rebuild_snapshot candidate) _ h in
    let (_, h2) = after_guard (snapshot.job.job_id != job_id) _ _ h1 in
    let (updated, written) =
      >>-eq-ok
        (relabel "invalid job snapshot"
          (do state ← validated_snapshot job_id snapshot []; update_allowed snapshot none))
        _ h2 in
    let (state, valid, _) =
      >>=-eq-ok (validated_snapshot job_id snapshot []) _
        (relabel-eq-ok "invalid job snapshot" _ updated) in
    (snapshot, state, sym (ok_inj written), valid)
