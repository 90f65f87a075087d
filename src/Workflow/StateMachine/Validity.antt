-- ===== src/Workflow/StateMachine/Validity.antt =====
-- A replay that starts from a valid snapshot goes through valid states only.
use lookfile.Prelude.{
  ◌≡◌, refl, Memᴰ, true, false, not, ◌&&◌, List, [], ◌∷◌, arith, ok, >>=-eq-ok, after_guard, ok_inj,
  all, has_duplicates, list_eq, nat_eq, ◌==◌, ◌!=◌, ltb, subst, String, true_of_not,
}
use lookfile.Domain.Text.{text_lt}
use lookfile.Domain.Identifiers.{is_identifier}
use lookfile.Workflow.JobModels.{
  job_status_eq, Job, make_job, profiles, is_timestamp, event_type_eq, fatal,
}
use lookfile.Workflow.Events.{payload_event, Event, JobState, make_event, check_payload, make_state}
use lookfile.Workflow.StateMachine.{Progress, replay_step, replay_loop, finish_replay}
use lookfile.Workflow.StateMachine.Fresh.{text_lt_trans, fresh_attempts-valid, fresh_bundles-valid}
use lookfile.Workflow.StateMachine.Rounds.{replay_step-Advanced}

-- What `Job` and `JobState` require of the variables of a replay.
pub record IsValid (job : Job) (p : Progress) : Type 0 where
  pub ordered : text_lt p.updated_at job.created_at ≡ false
  pub cohort : profiles job.cohort_profiles ≡ ok tt
  pub created : is_timestamp job.created_at ≡ true
  pub updated : is_timestamp p.updated_at ≡ true
  pub named : all is_identifier p.bundles ≡ true
  pub once_attempted : has_duplicates p.attempts ≡ false
  pub once_published : has_duplicates p.bundles ≡ false

-- The state that a replay with these variables returns.
abbrev pub state_of : Job → Progress → JobState
state_of job p = record {
  job = record job { status = p.status; updated_at = p.updated_at };
  last_sequence = p.last;
  attempt_ids = p.attempts;
  bundle_names = p.bundles;
}

pub finish_replay-valid :
    (job : Job) (p : Progress) → IsValid job p → finish_replay job p ≡ ok (state_of job p)
unfolding finish_replay make_job make_state
finish_replay-valid job p v =
    rw (v.ordered, v.cohort, v.created, v.updated, v.named, v.once_attempted, v.once_published) refl

pub make_job_inv :
    (job : Job) {made : Job}
    → make_job job ≡ ok made
    → (text_lt job.updated_at job.created_at ≡ false)
      × (profiles job.cohort_profiles ≡ ok tt)
      × (is_timestamp job.created_at ≡ true)
      × (is_timestamp job.updated_at ≡ true)
unfolding make_job
make_job_inv job h = ground arith

pub make_state_inv :
    (message : String) (state : JobState) {made : JobState}
    → make_state message state ≡ ok made
    → (all is_identifier state.bundle_names ≡ true)
      × (has_duplicates state.attempt_ids ≡ false)
      × (has_duplicates state.bundle_names ≡ false)
unfolding make_state
make_state_inv message state h = ground arith

replayed : Job → Progress → Job → JobState
replayed job p new_job = record {
  job = new_job;
  last_sequence = p.last;
  attempt_ids = p.attempts;
  bundle_names = p.bundles;
}

pub finish_replay_inv :
    (job : Job) (p : Progress) {state : JobState} → finish_replay job p ≡ ok state → IsValid job p
unfolding finish_replay replayed
finish_replay_inv job p h =
    let (new_job, made, h1) =
      >>=-eq-ok (make_job (record job { status = p.status; updated_at = p.updated_at }))
        (λ j. make_state "invalid job state" (replayed job p j)) h in
    let (ordered, cohort, created, updated) =
      make_job_inv (record job { status = p.status; updated_at = p.updated_at }) made in
    let (named, attempted, exported) =
      make_state_inv "invalid job state" (replayed job p new_job) h1 in
    record {
      ordered = ordered;
      cohort = cohort;
      created = created;
      updated = updated;
      named = named;
      once_attempted = attempted;
      once_published = exported;
    }

-- An event that the constructors of `Event` and of its payload accept.
pub record IsMade (event : Event) : Type 0 where
  pub built : make_event event ≡ ok event
  pub payload_built : check_payload event.payload ≡ ok tt

pub make_event_inv :
    (event : Event) {made : Event}
    → make_event event ≡ ok made
    → (is_timestamp event.timestamp ≡ true) × (event ≡ made)
unfolding make_event
make_event_inv event h =
    let (_, h1) = after_guard (ltb event.sequence 1) "invalid sequence" _ h in
    let (_, h2) =
      after_guard (event.from_state == event.to_state && event.event_type != fatal) _ _ h1 in
    let (_, h3) = after_guard (payload_event event.payload != event.event_type) _ _ h2 in
    let (t, e) = after_guard (not (is_timestamp event.timestamp)) _ _ h3 in
    (true_of_not _ t, ok_inj e)

-- An accepted event that was made by its constructors keeps the variables valid.
pub replay_step-IsValid :
    (job : Job) (p q : Progress) (event : Event)
    → IsMade event
    → IsValid job p
    → replay_step job p event ≡ ok q
    → IsValid job q
replay_step-IsValid job p q event m v h =
    let a = replay_step-Advanced job p event h in
    let (once, named) =
      fresh_bundles-valid event.event_type event.payload p.bundles q.bundles m.payload_built
        v.once_published v.named a.exported in
    record {
      ordered =
          rw a.updated
            (text_lt_trans job.created_at p.updated_at event.timestamp v.ordered a.later);
      cohort = v.cohort;
      created = v.created;
      updated = rw a.updated (make_event_inv event m.built).0;
      named = named;
      once_attempted =
          fresh_attempts-valid event.event_type event.payload p.attempts q.attempts v.once_attempted
            a.attempted;
      once_published = once;
    }

pub replay_loop-IsValid :
    (job : Job) (p q : Progress) (events : List Event)
    → ((event : Event) → Memᴰ event events → IsMade event)
    → IsValid job p
    → replay_loop job p events ≡ ok q
    → IsValid job q
unfolding replay_loop
replay_loop-IsValid job p q [] m v h = subst (IsValid job) (ok_inj h) v
replay_loop-IsValid job p q (event ∷ events) m v h =
    let (r, stepped, rest) = >>=-eq-ok (replay_step job p event) _ h in
    replay_loop-IsValid job r q events (λ e k. m e (Memᴰ.tail k))
      (replay_step-IsValid job p r event (m event (Memᴰ.head refl)) v stepped) rest
