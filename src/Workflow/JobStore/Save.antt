-- ===== src/Workflow/JobStore/Save.antt =====
-- `save_snapshot` of job_store.py keeps a job loadable.
use lookfile.Prelude.{
  ◌≡◌, refl, sym, ap, ◌∙◌, subst, Bool, false, ◌||◌, ◌&&◌, Option, none, some, List, arith, ok,
  >>=-eq-ok, >>-eq-ok, after_guard, ok_inj, relabel-eq-ok, corrupt, refuse_if-eq-ok, true_of_not,
  ◌==◌, ◌!=◌, ==→eq, ltb, list_eq, nat_eq,
}
use lookfile.Domain.Identifiers.{JobId}
use lookfile.Workflow.JobModels.{}
use lookfile.Workflow.Events.{Event, JobSnapshot, JobState, job_state_eq}
use lookfile.Workflow.StateMachine.{replay_events}
use lookfile.Workflow.StateMachine.Replay.{AllMade}
use lookfile.Workflow.StateMachine.Validity.{}
use lookfile.Workflow.JobStore.{
  Stored, Decoded, canonical_genesis, validated_snapshot, decode_persisted, load, rebuild_snapshot,
  validate_snapshot_update, save_snapshot, update_allowed, update_forbidden, events_of,
}
use lookfile.Workflow.JobStore.Validation.{Validated, validated_snapshot-Validated, Validated-whole}
use lookfile.Workflow.JobStore.Decoding.{load-Validated, decoded_parts}

first_false : (a b : Bool) → (a || b) ≡ false → a ≡ false
first_false a b h = ground arith

-- Two valid snapshots of one genesis over one log have one state.
Validated-unique :
    (job_id : JobId) (s t : JobSnapshot) (events : List Event) (state other : JobState)
    → AllMade events
    → (v : Validated job_id s events state) → (w : Validated job_id t events other)
    → v.genesis ≡ w.genesis
    → state ≡ other
Validated-unique job_id s t events state other m v w e = ok_inj (
    sym (Validated-whole job_id s events state m v)
    ∙ ap (λ g. replay_events g events) e
    ∙ Validated-whole job_id t events other m w)

update_forbidden-genesis :
    (old_genesis genesis old snapshot : JobSnapshot)
    → update_forbidden old_genesis genesis old snapshot ≡ false
    → old_genesis ≡ genesis
unfolding update_forbidden
update_forbidden-genesis old_genesis genesis old snapshot h = ==→eq old_genesis genesis (
    true_of_not _ (
      first_false (old_genesis != genesis)
        (ltb snapshot.last_sequence old.last_sequence
          || (snapshot.last_sequence == old.last_sequence && snapshot != old))
        h))

same_genesis :
    (snapshot : JobSnapshot) (decoded : Decoded)
    → update_allowed snapshot (some decoded) ≡ ok tt
    → canonical_genesis decoded.stored.snapshot.job ≡ canonical_genesis snapshot.job
same_genesis snapshot decoded h =
    let (old, o, h1) = >>=-eq-ok (canonical_genesis decoded.stored.snapshot.job) _ h in
    let (new, n, h2) = >>=-eq-ok (canonical_genesis snapshot.job) _ h1 in
    let e =
      update_forbidden-genesis old new decoded.stored.snapshot snapshot
        (refuse_if-eq-ok (update_forbidden old new decoded.stored.snapshot snapshot) _ h2) in
    o ∙ ap ok e ∙ sym n

decoded_some :
    (job_id : JobId) (disk : Option Stored) (stored : Stored) (o : Option Decoded)
    → disk ≡ some stored
    → decode_persisted job_id disk ≡ ok o
    → (decoded : Decoded) × (o ≡ some decoded)
unfolding decode_persisted
decoded_some job_id none stored o d h = absurd (cc)
decoded_some job_id (some s) stored o d h =
    let (state, _, e) =
      >>=-eq-ok (corrupt "job store corrupted" (validated_snapshot job_id s.snapshot s.events)) _
        h in
    (record { stored = s; state = state }, sym (ok_inj e))

-- The two halves of a snapshot update that is allowed.
update_parts :
    (job_id : JobId) (snapshot : JobSnapshot) (decoded : Decoded)
    → validate_snapshot_update job_id snapshot (some decoded) ≡ ok tt
    → (state : JobState) × (validated_snapshot job_id snapshot decoded.stored.events ≡ ok state)
      × (canonical_genesis decoded.stored.snapshot.job ≡ canonical_genesis snapshot.job)
unfolding validate_snapshot_update
update_parts job_id snapshot decoded h =
    let (state, valid, h1) =
      >>=-eq-ok (validated_snapshot job_id snapshot decoded.stored.events) _
        (relabel-eq-ok "invalid job snapshot" _ h) in
    (state, valid, same_genesis snapshot decoded h1)

-- Saving a snapshot that the store accepts over a job on disk, whose events pass their
-- constructors, changes nothing that `load` shows: the job loads before and after, with the same
-- state, and the events are kept.
pub save_snapshot-load :
    (job_id : JobId) (candidate : JobSnapshot) (disk after : Option Stored) (stored : Stored)
    → disk ≡ some stored
    → AllMade stored.events
    → save_snapshot job_id candidate disk ≡ ok after
    → (state : JobState) × (snapshot : JobSnapshot) × (load job_id disk ≡ ok state)
      × (load job_id after ≡ ok state)
      × (after ≡ some (record { snapshot = snapshot; events = stored.events }))
unfolding save_snapshot
save_snapshot-load job_id candidate disk after stored d m h =
    let (snapshot, _, h1) = >>=-eq-ok (rebuild_snapshot candidate) _ h in
    let (_, h2) = after_guard (snapshot.job.job_id != job_id) _ _ h1 in
    let (o, decoding, h3) = >>=-eq-ok (decode_persisted job_id disk) _ h2 in
    let (updated, written) = >>-eq-ok (validate_snapshot_update job_id snapshot o) _ h3 in
    let (decoded, present) = decoded_some job_id disk stored o d decoding in
    let (on_disk, valid) = decoded_parts job_id disk o decoded decoding (rw present refl) in
    let same : stored ≡ decoded.stored = cc (d, on_disk) in
    let (state, valid_new, genesis) =
      update_parts job_id snapshot decoded
        (subst (λ x. validate_snapshot_update job_id snapshot x ≡ ok tt) present updated) in
    let made : AllMade decoded.stored.events = subst (λ (x : Stored). AllMade x.events) same m in
    let v = validated_snapshot-Validated job_id _ _ _ valid in
    let w = validated_snapshot-Validated job_id _ _ _ valid_new in
    let e =
      Validated-unique job_id decoded.stored.snapshot snapshot decoded.stored.events decoded.state
        state made v w (ok_inj (sym v.begun ∙ genesis ∙ w.begun)) in
    let stays : after ≡ some (record { snapshot = snapshot; events = decoded.stored.events }) =
      sym (ok_inj written)
      ∙ ap (λ (x : Option Decoded). some (record { snapshot = snapshot; events = events_of x }))
          present in
    (
      decoded.state,
      snapshot,
      rw on_disk (load-Validated job_id decoded.stored decoded.state valid),
      rw (stays, e)
          (load-Validated job_id (record { snapshot = snapshot; events = decoded.stored.events })
            state valid_new),
      stays
          ∙ ap (λ (x : Stored). some (record { snapshot = snapshot; events = x.events }))
              (sym same),
    )
