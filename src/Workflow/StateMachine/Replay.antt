-- ===== src/Workflow/StateMachine/Replay.antt =====
-- Replays compose, and what they say of the log.
use lookfile.Prelude.{
  ◌≡◌, refl, sym, ◌∙◌, subst, List, [], ◌∷◌, ◌++◌, Memᴰ, Result, ok, err, domain_error, relabel,
  relabel-eq-ok, >>=-cong, >>=-assoc, ◌>>=◌, Error, >>=-eq-ok, ok_inj, list_eq, nat_eq,
}
use lookfile.Domain.Text.{Text}
use lookfile.Workflow.JobModels.{
  JobStatus, EventType, Job, job_started, attempt_started, job_budget_eq,
}
use lookfile.Workflow.Events.{Payload, started, compiled, Event, JobSnapshot, JobState}
use lookfile.Workflow.StateMachine.{
  Progress, check_bound_payload, replay_step, replay_loop, start, finish_replay, replay_events,
}
use lookfile.Workflow.StateMachine.Validity.{
  IsMade, IsValid, state_of, finish_replay-valid, replay_loop-IsValid,
}

-- A snapshot whose job and lists pass the tests of their constructors.
abbrev pub IsSound : JobSnapshot → Type 0
IsSound snapshot = IsValid snapshot.job (start snapshot)

abbrev pub AllMade : List Event → Type 0
AllMade events = (event : Event) → Memᴰ event events → IsMade event

-- The bound material of a job is what its status and its time do not touch.
check_bound-later :
    (job : Job) (s : JobStatus) (t : Text) (e : EventType) (payload : Payload)
    → check_bound_payload (record job { status = s; updated_at = t }) e payload
      ≡ check_bound_payload job e payload
unfolding check_bound_payload
check_bound-later job s t job_started (started p) = refl
check_bound-later job s t job_started _ = refl
check_bound-later job s t EventType.spec_compiled (compiled h) = refl
check_bound-later job s t EventType.spec_compiled _ = refl
check_bound-later job s t attempt_started payload = refl
check_bound-later job s t _ payload = refl

replay_step-later :
    (job : Job) (s : JobStatus) (t : Text) (p : Progress) (event : Event)
    → replay_step (record job { status = s; updated_at = t }) p event ≡ replay_step job p event
unfolding replay_step
replay_step-later job s t p event = rw (check_bound-later job s t) refl

replay_loop-later :
    (job : Job) (s : JobStatus) (t : Text) (p : Progress) (events : List Event)
    → replay_loop (record job { status = s; updated_at = t }) p events ≡ replay_loop job p events
unfolding replay_loop
replay_loop-later job s t p [] = refl
replay_loop-later job s t p (event ∷ events) =
    rw (replay_step-later job s t p event)
      (>>=-cong (replay_step job p event) _ _ (λ q. replay_loop-later job s t q events))

replay_loop-append :
    (job : Job) (p : Progress) (xs ys : List Event)
    → replay_loop job p (xs ++ ys) ≡ (replay_loop job p xs >>= λ q. replay_loop job q ys)
unfolding replay_loop
replay_loop-append job p [] ys = refl
replay_loop-append job p (event ∷ xs) ys =
    >>=-cong (replay_step job p event) _ _ (λ q. replay_loop-append job q xs ys)
    ∙ sym (>>=-assoc (replay_step job p event) _ _)

-- A replay that returns a state went through the loop, to the variables of that state.
pub replay_events_inv :
    (snapshot : JobSnapshot) (events : List Event) (state : JobState)
    → AllMade events
    → IsSound snapshot
    → replay_events snapshot events ≡ ok state
    → (q : Progress) × (replay_loop snapshot.job (start snapshot) events ≡ ok q)
      × (state_of snapshot.job q ≡ state)
unfolding replay_events
replay_events_inv snapshot events state m v h =
    let (q, looped, finished) =
      >>=-eq-ok (replay_loop snapshot.job (start snapshot) events) (finish_replay snapshot.job)
        (relabel-eq-ok "invalid job event" _ h) in
    let valid = replay_loop-IsValid snapshot.job (start snapshot) q events m v looped in
    (q, looped, ok_inj (sym (finish_replay-valid snapshot.job q valid) ∙ finished))

pub replay_events-loop :
    (snapshot : JobSnapshot) (events : List Event) (q : Progress)
    → AllMade events
    → IsSound snapshot
    → replay_loop snapshot.job (start snapshot) events ≡ ok q
    → replay_events snapshot events ≡ ok (state_of snapshot.job q)
unfolding replay_events
replay_events-loop snapshot events q m v h =
    rw
      (
        h,
        finish_replay-valid snapshot.job q
            (replay_loop-IsValid snapshot.job (start snapshot) q events m v h),
      )
      refl

-- The replayed state is a sound snapshot again.
pub replay_events-IsSound :
    (snapshot : JobSnapshot) (events : List Event) (state : JobState)
    → AllMade events
    → IsSound snapshot
    → replay_events snapshot events ≡ ok state
    → IsSound state
replay_events-IsSound snapshot events state m v h =
    let (q, looped, e) = replay_events_inv snapshot events state m v h in
    let valid = replay_loop-IsValid snapshot.job (start snapshot) q events m v looped in
    subst IsSound e (record {
      ordered = valid.ordered;
      cohort = valid.cohort;
      created = valid.created;
      updated = valid.updated;
      named = valid.named;
      once_attempted = valid.once_attempted;
      once_published = valid.once_published;
    })

resume :
    (job : Job) (q : Progress) (events : List Event)
    → replay_events (state_of job q) events
      ≡ relabel "invalid job event" (replay_loop job q events >>= finish_replay job)
unfolding replay_events finish_replay
resume job q events = rw (replay_loop-later job q.status q.updated_at) refl

-- A replay of two parts, by what the loop over the first part returns.
replay_parts :
    (snapshot : JobSnapshot) (xs ys : List Event) (r : Result Progress)
    → replay_loop snapshot.job (start snapshot) xs ≡ r
    → replay_events snapshot (xs ++ ys)
      ≡ relabel "invalid job event"
          (r >>= (λ q. replay_loop snapshot.job q ys) >>= finish_replay snapshot.job)
unfolding replay_events
replay_parts snapshot xs ys r e = rw (replay_loop-append snapshot.job, e) refl

replay_fails :
    (snapshot : JobSnapshot) (xs : List Event) (x : Error)
    → replay_loop snapshot.job (start snapshot) xs ≡ err x
    → replay_events snapshot xs ≡ err (domain_error "invalid job event")
unfolding replay_events
replay_fails snapshot xs x e = rw e refl

-- Replaying a log from a sound snapshot is the same in one go and in two, where the events of the
-- first part pass their constructors: the state after the first part is a snapshot from which the
-- second part gives the same state, or the same error.
pub replay_events-append :
    (snapshot : JobSnapshot) (xs ys : List Event)
    → AllMade xs
    → IsSound snapshot
    → replay_events snapshot (xs ++ ys)
      ≡ (replay_events snapshot xs >>= λ state. replay_events state ys)
replay_events-append snapshot xs ys m v = split (replay_loop snapshot.job (start snapshot) xs) refl
  where
    split :
        (r : Result Progress)
        → replay_loop snapshot.job (start snapshot) xs ≡ r
        → replay_events snapshot (xs ++ ys)
          ≡ (replay_events snapshot xs >>= λ state. replay_events state ys)
    split (ok q) e =
        rw (replay_events-loop snapshot xs q m v e)
          (replay_parts snapshot xs ys (ok q) e ∙ sym (resume snapshot.job q ys))
    split (err x) e = rw (replay_fails snapshot xs x e) (replay_parts snapshot xs ys (err x) e)
