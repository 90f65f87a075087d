-- ===== src/Workflow/StateMachine/Log.antt =====
-- What a successful replay says of the log that it read.
use mathlib.Core.List.Memᴰ
use lookfile.Prelude.{
  ◌+◌, ◌≡◌, refl, sym, ap, ◌∙◌, subst, false, List, [], ◌∷◌, Memᴰ, arith, ok, >>=-eq-ok,
  after_guard, ok_inj, length, has_duplicates, list_eq, nat_eq,
}
use lookfile.Domain.Text.{Text}
use lookfile.Domain.Identifiers.{AttemptId}
use lookfile.Workflow.JobModels.{EventType, Job, attempt_started, repair_step}
use lookfile.Workflow.Events.{Payload, attempt_began, repaired, Event, JobSnapshot, JobState}
use lookfile.Workflow.StateMachine.{
  Progress, append_new, fresh_attempts, replay_step, replay_loop, start, replay_events,
}
use lookfile.Workflow.StateMachine.Transitions.{Route, here, step, after}
use lookfile.Workflow.StateMachine.Rounds.{Advanced, replay_step-Advanced}
use lookfile.Workflow.StateMachine.Replay.{
  IsSound, AllMade, replay_events_inv, replay_events-IsSound,
}

append_new-keeps :
    (value a : Text) (seen new : List Text)
    → append_new value seen ≡ ok new
    → Memᴰ a seen
    → Memᴰ a new
append_new-keeps value a seen new h m =
    subst (Memᴰ a) (ok_inj (after_guard _ _ _ h).1) (Memᴰ.append_left (value ∷ []) m)

fresh_attempts-keeps :
    (e : EventType) (payload : Payload) (a : Text) (attempts new : List AttemptId)
    → fresh_attempts e payload attempts ≡ ok new
    → Memᴰ a attempts
    → Memᴰ a new
fresh_attempts-keeps attempt_started (attempt_began p) a attempts new h m =
    append_new-keeps p.attempt_id a attempts new h m
fresh_attempts-keeps repair_step (repaired p) a attempts new h m =
    append_new-keeps p.child_attempt_id a attempts new h m
fresh_attempts-keeps attempt_started _ a attempts new h m = absurd (cc)
fresh_attempts-keeps repair_step _ a attempts new h m = absurd (cc)
fresh_attempts-keeps _ payload a attempts new h m = subst (Memᴰ a) (ok_inj h) m

-- The loop follows the diagram, numbers the events without a gap, and forgets no attempt.
pub record Logged (job : Job) (p : Progress) (events : List Event) (q : Progress) : Type 0 where
  pub route : Route p.status q.status
  pub numbered : q.last ≡ p.last + length events
  pub kept : (a : Text) → Memᴰ a p.attempts → Memᴰ a q.attempts
  pub of_job : (event : Event) → Memᴰ event events → event.job_id ≡ job.job_id

Logged-refl : (job : Job) (p q : Progress) → p ≡ q → Logged job p [] q
Logged-refl job p q e = subst (Logged job p []) e (record {
  route = here;
  numbered = omega arith;
  kept = λ a m. m;
  of_job = λ event m. elim m [ ];
})

Logged-step :
    (job : Job) (p r q : Progress) (event : Event) (events : List Event)
    → Advanced job p event r
    → Logged job r events q
    → Logged job p (event ∷ events) q
Logged-step job p r q event events a l = record {
  route = after (step event.event_type a.legal) (subst (λ s. Route s q.status) a.status l.route);
  numbered = omega (arith, l.numbered, a.last, a.next);
  kept = λ x m.
      l.kept x
        (fresh_attempts-keeps event.event_type event.payload x p.attempts r.attempts a.attempted m);
  of_job = λ e m. elim m [
    | Memᴰ.head same ↦ ap (λ (x : Event). x.job_id) same ∙ a.same_job
    | Memᴰ.tail k ↦ l.of_job e k
  ];
}

replay_loop-Logged :
    (job : Job) (p q : Progress) (events : List Event)
    → replay_loop job p events ≡ ok q
    → Logged job p events q
unfolding replay_loop
replay_loop-Logged job p q [] h = Logged-refl job p q (ok_inj h)
replay_loop-Logged job p q (event ∷ events) h =
    let (r, stepped, rest) = >>=-eq-ok (replay_step job p event) _ h in
    Logged-step job p r q event events (replay_step-Advanced job p event stepped)
      (replay_loop-Logged job r q events rest)

-- A log that replays from a sound snapshot, where the events pass their constructors, follows the
-- transition diagram from the snapshot's status to the final one, is numbered without a gap,
-- forgets no attempt id and repeats none, repeats no bundle name, belongs to one job, and changes
-- nothing of the job but its status and its time.
pub replay_events-log :
    (snapshot : JobSnapshot) (events : List Event) (state : JobState)
    → AllMade events
    → IsSound snapshot
    → replay_events snapshot events ≡ ok state
    → Route snapshot.job.status state.job.status
      × (state.last_sequence ≡ snapshot.last_sequence + length events)
      × ((a : Text) → Memᴰ a snapshot.attempt_ids → Memᴰ a state.attempt_ids)
      × (has_duplicates state.attempt_ids ≡ false)
      × (has_duplicates state.bundle_names ≡ false)
      × ((event : Event) → Memᴰ event events → event.job_id ≡ snapshot.job.job_id)
      × (state.job
          ≡ record snapshot.job { status = state.job.status; updated_at = state.job.updated_at })
replay_events-log snapshot events state m v h =
    let (q, looped, e) = replay_events_inv snapshot events state m v h in
    let l = replay_loop-Logged snapshot.job (start snapshot) q events looped in
    let sound = replay_events-IsSound snapshot events state m v h in
    (
      subst (λ (s : JobState). Route snapshot.job.status s.job.status) e l.route,
      ap (λ (s : JobState). s.last_sequence) (sym e) ∙ l.numbered,
      λ a k. subst (λ (s : JobState). Memᴰ a s.attempt_ids) e (l.kept a k),
      sound.once_attempted,
      sound.once_published,
      l.of_job,
      subst
          (λ (s : JobState).
            s.job ≡ record snapshot.job { status = s.job.status; updated_at = s.job.updated_at })
          e refl,
    )
