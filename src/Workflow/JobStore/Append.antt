-- ===== src/Workflow/JobStore/Append.antt =====
-- `append_event` of job_store.py keeps a job loadable.
use lookfile.Prelude.{
  ℕ, ◌+◌, ◌≡◌, refl, sym, ap, ◌∙◌, subst, Bool, true, false, Option, some, List, [], ◌∷◌, ◌++◌, ok,
  err, Error, >>=-eq-ok, >>-eq-ok, after_guard, ok_inj, relabel-eq-ok, relabel, if◌then◌else◌,
  list_eq, nat_eq,
}
use lookfile.Domain.Identifiers.{JobId}
use lookfile.Workflow.JobModels.{terminal}
use lookfile.Workflow.Events.{Event, make_event, JobState, make_state, job_state_eq}
use lookfile.Workflow.StateMachine.{replay_events, validate_transition}
use lookfile.Workflow.StateMachine.Replay.{AllMade}
use lookfile.Workflow.StateMachine.Validity.{make_event_inv}
use lookfile.Workflow.JobStore.{
  Stored, Decoded, decode_persisted, found, load, check_duplicates, validate_event, append_decoded,
  append_event, rebuild_event,
}
use lookfile.Workflow.JobStore.Validation.{
  validated_snapshot-Validated, Validated-validated_snapshot, Validated-snoc, make_state-same,
}
use lookfile.Workflow.JobStore.Decoding.{load-Validated, decoded_parts}

-- The end of `validate_event`: the finalized event replays from the state.
validate_event-replays :
    (job_id : JobId) (event : Event) (state : JobState) (finalized : Event)
    → validate_event job_id event state ≡ ok finalized
    → (next : JobState) × (replay_events state (finalized ∷ []) ≡ ok next)
      × (terminal state.job ≡ false)
      × (finalized.sequence ≡ state.last_sequence + 1)
unfolding validate_event
validate_event-replays job_id event state finalized h =
    let (live, h1) = after_guard _ _ _ h in
    let (_, h2) = >>-eq-ok (check_duplicates event.event_type event.payload state) _ h1 in
    let (_, h3) = after_guard _ _ _ h2 in
    let (_, h4) =
      >>-eq-ok (validate_transition state.job.status event.to_state event.event_type) _ h3 in
    let (made, built, h5) =
      >>=-eq-ok (make_event (record event { sequence = state.last_sequence + 1 })) _ h4 in
    let (snapshot, k, h6) =
      >>=-eq-ok (relabel "invalid job event" (make_state "invalid job snapshot" state)) _ h5 in
    let (next, r, e) =
      >>=-eq-ok (relabel "invalid job event" (replay_events snapshot (made ∷ []))) _ h6 in
    let same =
      make_state-same "invalid job snapshot" state (relabel-eq-ok "invalid job event" _ k) in
    (
      next,
      subst (λ (x : Event). replay_events state (x ∷ []) ≡ ok next) (ok_inj e)
          (subst (λ (s : JobState). replay_events s (made ∷ []) ≡ ok next) (sym same)
            (relabel-eq-ok "invalid job event" _ r)),
      live,
      ap (λ (x : Event). x.sequence) (sym ((make_event_inv _ built).1 ∙ ok_inj e)),
    )

if_ok :
    (b : Bool) (e : Error) (r : Option Stored × Event) {p : Option Stored × Event}
    → (if b then err e else ok r) ≡ ok p
    → (b ≡ false) × (r ≡ p)
if_ok true e r h = cc
if_ok false e r h = (refl, ok_inj h)

-- What a successful append writes.
pub append_decoded_inv :
    (encoded_size : List Event → ℕ) (job_id : JobId) (event : Event) (decoded : Decoded)
    (disk : Option Stored) (finalized : Event)
    → append_decoded encoded_size job_id event decoded ≡ ok (disk, finalized)
    → (validate_event job_id event decoded.state ≡ ok finalized)
      × (disk
          ≡ some (record {
            snapshot = decoded.stored.snapshot;
            events = decoded.stored.events ++ finalized ∷ [];
          }))
unfolding append_decoded
append_decoded_inv encoded_size job_id event decoded disk finalized h =
    let (made, valid, e) = >>=-eq-ok (validate_event job_id event decoded.state) _ h in
    let (_, same) = if_ok _ _ _ e in
    (
      valid ∙ ap (λ (p : Option Stored × Event). ok p.1) same,
      ap (λ (p : Option Stored × Event). p.0) (sym same)
          ∙ ap
              (λ (x : Event). some (record {
                snapshot = decoded.stored.snapshot;
                events = decoded.stored.events ++ x ∷ [];
              }))
              (ap (λ (p : Option Stored × Event). p.1) same),
    )

-- Appending an event that the store accepts to a job on disk, whose events pass their constructors,
-- leaves a job that loads: its new state is the replay of the accepted event on the old state,
-- which was not terminal, and the event has the next number.
pub append_event-loads :
    (encoded_size : List Event → ℕ) (job_id : JobId) (candidate : Event)
    (disk after : Option Stored) (finalized : Event) (stored : Stored)
    → disk ≡ some stored
    → AllMade stored.events
    → append_event encoded_size job_id candidate disk ≡ ok (after, finalized)
    → (state : JobState) × (next : JobState) × (load job_id disk ≡ ok state)
      × (load job_id after ≡ ok next)
      × (replay_events state (finalized ∷ []) ≡ ok next)
      × (terminal state.job ≡ false)
      × (finalized.sequence ≡ state.last_sequence + 1)
unfolding append_event
append_event-loads encoded_size job_id candidate disk after finalized stored d m h =
    let (event, _, h1) = >>=-eq-ok (rebuild_event candidate) _ h in
    let (o, decoding, h2) = >>=-eq-ok (decode_persisted job_id disk) _ h1 in
    let (decoded, present, h3) = >>=-eq-ok (found o) _ h2 in
    let (on_disk, valid) = decoded_parts job_id disk o decoded decoding present in
    let (accepted, written) =
      append_decoded_inv encoded_size job_id event decoded after finalized h3 in
    let (next, replays, live, numbered) =
      validate_event-replays job_id event decoded.state finalized accepted in
    let same : stored ≡ decoded.stored = cc (d, on_disk) in
    let made : AllMade decoded.stored.events = subst (λ (x : Stored). AllMade x.events) same m in
    let v =
      validated_snapshot-Validated job_id decoded.stored.snapshot decoded.stored.events
        decoded.state valid in
    (
      decoded.state,
      next,
      rw on_disk (load-Validated job_id decoded.stored decoded.state valid),
      rw written (
          load-Validated job_id
            (record {
              snapshot = decoded.stored.snapshot;
              events = decoded.stored.events ++ finalized ∷ [];
            })
            next
            (Validated-validated_snapshot job_id _ _ next
              (Validated-snoc job_id _ _ decoded.state next finalized made v replays))),
      replays,
      live,
      numbered,
    )
