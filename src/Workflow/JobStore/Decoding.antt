-- ===== src/Workflow/JobStore/Decoding.antt =====
-- Decoding a job's directory, for job_store.py.
use lookfile.Prelude.{
  ◌≡◌, refl, ap, subst, Option, none, some, ok, >>=-eq-ok, ok_inj, corrupt-eq-ok, corrupt, list_eq,
  nat_eq,
}
use lookfile.Domain.Identifiers.{JobId}
use lookfile.Workflow.JobModels.{}
use lookfile.Workflow.Events.{JobState, job_state_eq}
use lookfile.Workflow.StateMachine.{}
use lookfile.Workflow.StateMachine.Replay.{}
use lookfile.Workflow.StateMachine.Validity.{}
use lookfile.Workflow.JobStore.{Stored, Decoded, validated_snapshot, decode_persisted, found, load}
use lookfile.Workflow.JobStore.Validation.{}

pub load-Validated :
    (job_id : JobId) (stored : Stored) (state : JobState)
    → validated_snapshot job_id stored.snapshot stored.events ≡ ok state
    → load job_id (some stored) ≡ ok state
unfolding load decode_persisted
load-Validated job_id stored state h = rw h refl

-- What a successful decoding of a present job is.
pub decoded_parts :
    (job_id : JobId) (disk : Option Stored) (o : Option Decoded) (decoded : Decoded)
    → decode_persisted job_id disk ≡ ok o
    → found o ≡ ok decoded
    → (disk ≡ some decoded.stored)
      × (validated_snapshot job_id decoded.stored.snapshot decoded.stored.events ≡ ok decoded.state)
unfolding decode_persisted
decoded_parts job_id none o decoded h f = absurd (cc)
decoded_parts job_id (some stored) none decoded h f = absurd (cc)
decoded_parts job_id (some stored) (some d) decoded h f =
    let (state, valid, e) =
      >>=-eq-ok
        (corrupt "job store corrupted" (validated_snapshot job_id stored.snapshot stored.events)) _
        h in
    let same : record { stored = stored; state = state } ≡ decoded = cc (ok_inj e, ok_inj f) in
    (
      ap (λ (x : Decoded). some x.stored) same,
      subst
          (λ (x : Decoded).
            validated_snapshot job_id x.stored.snapshot x.stored.events ≡ ok x.state)
          same (corrupt-eq-ok "job store corrupted" _ valid),
    )
