-- ===== src/Workflow/StateMachine/Transitions.antt =====
-- The transition diagram: which events are legal, and which states a job can reach.
use lookfile.Prelude.{
  ◌≡◌, ◌≢◌, ◌↔◌, refl, true, false, Option, none, some, arith, ok, contains, after_guard,
  refuse_if-eq-ok, true_of_not,
}
use lookfile.Workflow.JobModels.{
  JobStatus, created, spec_validated, generating, verifying, approved, manual_review, rejected,
  repair_selecting, repairing, exporting, completed, recoverable_error, job_failed, cancelled,
  EventType, job_started, attempt_started, attempt_finished, verifier_finished, repair_step,
  export_started, export_published, recoverable, cancel_requested, fatal, is_terminal,
  job_status_eq,
}
use lookfile.Workflow.StateMachine.{transitions, event_states, validate_transition}

-- The one event type that may lead to a state.
abbrev event_into : JobStatus → Option EventType
event_into created = none
event_into spec_validated = some job_started
event_into JobStatus.spec_compiled = some EventType.spec_compiled
event_into generating = some attempt_started
event_into verifying = some attempt_finished
event_into approved = some verifier_finished
event_into manual_review = some verifier_finished
event_into rejected = some verifier_finished
event_into repair_selecting = some verifier_finished
event_into repairing = some repair_step
event_into exporting = some export_started
event_into completed = some export_published
event_into recoverable_error = some recoverable
event_into job_failed = some fatal
event_into cancelled = some cancel_requested

leads_into :
    (to_state : JobStatus) (e : EventType)
    → contains to_state (event_states e) ≡ true
    → event_into to_state ≡ some e
leads_into to_state job_started h = ground arith
leads_into to_state _ h = ground arith

listed_into :
    (to_state : JobStatus) (e : EventType)
    → event_into to_state ≡ some e
    → contains to_state (event_states e) ≡ true
listed_into created e h = cc
listed_into _ e h = ground arith

-- A transition is accepted exactly when the table lists it and the event is the one that leads to
-- the target state; `event_into` names that event, and `created` has none.
pub validate_transition_iff :
    (from_state to_state : JobStatus) (e : EventType)
    → (validate_transition from_state to_state e ≡ ok tt)
      ↔ ((contains to_state (transitions from_state) ≡ true) × (event_into to_state ≡ some e))
unfolding validate_transition
validate_transition_iff from_state to_state e = (
  λ h.
      let (a, k) = after_guard _ _ _ h in
      (true_of_not _ a, leads_into to_state e (true_of_not _ (refuse_if-eq-ok _ _ k))),
  λ p. rw (p.0, listed_into to_state e p.1) refl,
)

-- A job in a terminal state accepts no event, and in any other state it can be cancelled and can
-- fail.
pub terminal_or_stoppable :
    (s : JobStatus)
    → ((is_terminal s ≡ true) → (t : JobStatus) (e : EventType) → validate_transition s t e ≢ ok tt)
      × ((is_terminal s ≡ false)
          → (validate_transition s cancelled cancel_requested ≡ ok tt)
            × (validate_transition s job_failed fatal ≡ ok tt))
unfolding validate_transition
terminal_or_stoppable completed = (λ h t e k. cc, λ h. cc)
terminal_or_stoppable job_failed = (λ h t e k. cc, λ h. cc)
terminal_or_stoppable cancelled = (λ h t e k. cc, λ h. cc)
terminal_or_stoppable _ = (λ h t e k. cc, λ h. (refl, refl))

-- A step of the diagram, and a path of steps.
pub data Step (s t : JobStatus) : Type 0 where
  step : (e : EventType) → validate_transition s t e ≡ ok tt → Step s t

pub data Route (s : JobStatus) : JobStatus → Type 0 where
  here : Route s s
  then : {t u : JobStatus} → Route s t → Step t u → Route s u

edge :
    (s t : JobStatus) (e : EventType)
    → contains t (transitions s) ≡ true
    → event_into t ≡ some e
    → Step s t
edge s t e listed into = step e ((validate_transition_iff s t e).1 (listed, into))

pub after : {s t u : JobStatus} → Step s t → Route t u → Route s u
after st here = then here st
after st (then r last) = then (after st r) last

exporting-completes : Route exporting completed
exporting-completes = then here (edge exporting completed export_published refl refl)

decided-completes : (s : JobStatus) → contains exporting (transitions s) ≡ true → Route s completed
decided-completes s h = after (edge s exporting export_started h refl) exporting-completes

verifying-completes : Route verifying completed
verifying-completes =
    after (edge verifying approved verifier_finished refl refl) (decided-completes approved refl)

generating-completes : Route generating completed
generating-completes =
    after (edge generating verifying attempt_finished refl refl) verifying-completes

compiled-completes : Route JobStatus.spec_compiled completed
compiled-completes =
    after (edge JobStatus.spec_compiled generating attempt_started refl refl) generating-completes

validated-completes : Route spec_validated completed
validated-completes =
    after (edge spec_validated JobStatus.spec_compiled EventType.spec_compiled refl refl)
      compiled-completes

-- No state that a job can leave is a trap: from each there is a way to `completed`.
pub completes : (s : JobStatus) → is_terminal s ≡ false → Route s completed
completes created h = after (edge created spec_validated job_started refl refl) validated-completes
completes spec_validated h = validated-completes
completes JobStatus.spec_compiled h = compiled-completes
completes generating h = generating-completes
completes verifying h = verifying-completes
completes repair_selecting h =
    after (edge repair_selecting rejected verifier_finished refl refl)
      (decided-completes rejected refl)
completes repairing h =
    after (edge repairing verifying attempt_finished refl refl) verifying-completes
completes exporting h = exporting-completes
completes approved h = decided-completes approved refl
completes manual_review h = decided-completes manual_review refl
completes rejected h = decided-completes rejected refl
completes recoverable_error h = decided-completes recoverable_error refl
completes completed h = absurd (cc)
completes job_failed h = absurd (cc)
completes cancelled h = absurd (cc)
