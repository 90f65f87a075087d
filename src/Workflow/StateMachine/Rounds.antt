-- ===== src/Workflow/StateMachine/Rounds.antt =====
-- What a round of the loop of `replay_events` tests and changes.
use lookfile.Prelude.{
  ◌+◌, ◌≡◌, sym, ap, ◌∙◌, Bool, true, false, not, ◌||◌, List, arith, ok, >>=-eq-ok, >>-eq-ok,
  after_guard, ok_inj, list_eq, nat_eq, ◌==◌, ==→eq,
}
use lookfile.Domain.Text.{Text, text_lt}
use lookfile.Domain.Identifiers.{AttemptId}
use lookfile.Workflow.JobModels.{job_status_eq, Job, event_type_eq}
use lookfile.Workflow.Events.{Event}
use lookfile.Workflow.StateMachine.{
  Progress, fresh_attempts, fresh_bundles, check_idempotent, replay_step, check_bound_payload,
  validate_transition,
}

all_match :
    (a b c d : Bool)
    → (not a || not b || not c || d) ≡ false
    → (a ≡ true) × (b ≡ true) × (c ≡ true) × (d ≡ false)
all_match a b c d h = ground arith

-- The parts of a round that succeeds.
pub record Advanced (job : Job) (p : Progress) (event : Event) (q : Progress) : Type 0 where
  pub same_job : event.job_id ≡ job.job_id
  pub next : event.sequence ≡ p.last + 1
  pub from : event.from_state ≡ p.status
  pub later : text_lt event.timestamp p.updated_at ≡ false
  pub bound : check_bound_payload job event.event_type event.payload ≡ ok tt
  pub legal : validate_transition p.status event.to_state event.event_type ≡ ok tt
  pub attempted : fresh_attempts event.event_type event.payload p.attempts ≡ ok q.attempts
  pub exported : fresh_bundles event.event_type event.payload p.bundles ≡ ok q.bundles
  pub status : q.status ≡ event.to_state
  pub last : q.last ≡ event.sequence
  pub updated : q.updated_at ≡ event.timestamp

check_idempotent_inv :
    (event : Event) (p : Progress) {seen : List AttemptId × List Text}
    → check_idempotent event p ≡ ok seen
    → (fresh_attempts event.event_type event.payload p.attempts ≡ ok seen.0)
      × (fresh_bundles event.event_type event.payload p.bundles ≡ ok seen.1)
unfolding check_idempotent
check_idempotent_inv event p h =
    let (attempts, a, h1) =
      >>=-eq-ok (fresh_attempts event.event_type event.payload p.attempts) _ h in
    let (bundles, b, e) = >>=-eq-ok (fresh_bundles event.event_type event.payload p.bundles) _ h1 in
    (
      a ∙ ap (λ (t : List AttemptId × List Text). ok t.0) (ok_inj e),
      b ∙ ap (λ (t : List AttemptId × List Text). ok t.1) (ok_inj e),
    )

pub replay_step-Advanced :
    (job : Job) (p : Progress) (event : Event) {q : Progress}
    → replay_step job p event ≡ ok q
    → Advanced job p event q
unfolding replay_step
replay_step-Advanced job p event h =
    let (matches, h1) = after_guard _ _ _ h in
    let (bound, h2) = >>-eq-ok (check_bound_payload job event.event_type event.payload) _ h1 in
    let (legal, h3) =
      >>-eq-ok (validate_transition p.status event.to_state event.event_type) _ h2 in
    let (seen, checked, e) = >>=-eq-ok (check_idempotent event p) _ h3 in
    let (attempted, exported) = check_idempotent_inv event p checked in
    let (job_matches, sequence_matches, state_matches, later) =
      all_match (event.job_id == job.job_id) (event.sequence == p.last + 1)
        (event.from_state == p.status) (text_lt event.timestamp p.updated_at) matches in
    let r = ok_inj e in
    record {
      same_job = ==→eq event.job_id job.job_id job_matches;
      next = ==→eq event.sequence (p.last + 1) sequence_matches;
      from = ==→eq event.from_state p.status state_matches;
      later = later;
      bound = bound;
      legal = legal;
      attempted = attempted ∙ ap (λ (t : Progress). ok t.attempts) r;
      exported = exported ∙ ap (λ (t : Progress). ok t.bundles) r;
      status = ap (λ (t : Progress). t.status) (sym r);
      last = ap (λ (t : Progress). t.last) (sym r);
      updated = ap (λ (t : Progress). t.updated_at) (sym r);
    }
