-- ===== src/Workflow/Orchestrator/Approved.antt =====
-- What an item that returns has been through: compiled from the routing, the loop and the cursor.
use lookfile.Prelude.{
  ℕ, zero, suc, ◌+◌, ◌≡◌, refl, sym, ◌∙◌, subst, true, false, Option, none, some, List, Eq, Result,
  ok, err, >>=-eq-ok,
}
use lookfile.Domain.Text.{Text}
use lookfile.Domain.Enums.{ArtifactStatus, approved, pass}
use lookfile.Domain.Identifiers.{JobId, Sha256}
use lookfile.Domain.Artifacts.{ArtifactRef}
use lookfile.Verification.RuleModels.{RuleDefinition, RuleResult}
use lookfile.Verification.Reports.{}
use lookfile.Verification.Reports.Coverage.{Bears}
use lookfile.Verification.Routing.Approval.{approved_only_if_all_pass}
use lookfile.Workflow.JobModels.{JobStatus}
use lookfile.Workflow.Events.{Event, JobState}
use lookfile.Workflow.JobStore.{Stored, load}
use lookfile.Repair.Requests.{GenerationRequest}
use lookfile.Repair.Comparison.{request_eq}
use lookfile.Repair.History.{GeneratedArtifact, RepairHistory}
use lookfile.Repair.Loop.{
  RepairTerminal, RepairStep, next_generation, repair_terminal, current_report,
  current_target_artifact_id,
}
use lookfile.Repair.Loop.Trusted.{IsMade}
use lookfile.Repair.Loop.Terminals.{IsRouted, next_repair_step-IsRouted}
use lookfile.Workflow.Orchestrator.Persisted.{IsStored, EndsStored, run_item-EndsStored}
use lookfile.Workflow.Orchestrator.{
  Cursor, Staged, after, moved, terminal_to_state, append, attempt_id, decision_id, ask,
  finish_item, continued, by_step, repair_loop, started_loop, from_rules, from_artifact,
  first_attempt, run_item,
}

module _ (encoded_size : List Event → ℕ) (timestamp : Text) {Binding Material : Type 0}
    ⦃d : Eq Binding⦄ ⦃m : Eq Material⦄
    (request_hash generation_fingerprint : GenerationRequest Binding Material → Sha256)
    (generate : GenerationRequest Binding Material → Result GeneratedArtifact)
    (verify : List ArtifactRef → List RuleDefinition → Result (List RuleResult)) where
  abbrev Returned : Type 0
  Returned = RepairHistory Binding Material × RepairTerminal

  -- The history is one that the constructor makes, the decision is the routing's for its last artifact,
  -- and the cursor has the status of the decision.
  abbrev Concludes : RepairHistory Binding Material → RepairTerminal → Cursor → Type 0
  Concludes history step cursor =
      IsMade request_hash generation_fingerprint history
      × IsRouted history step
      × (cursor.status ≡ terminal_to_state step.artifact_decision.artifact_status)

  -- The same, where the job on disk loads in the status of the decision
  abbrev pub IsFinished :
      JobId → RepairHistory Binding Material → RepairTerminal → Cursor → JobState → Type 0
  IsFinished job_id history step cursor state =
      IsMade request_hash generation_fingerprint history
      × IsRouted history step
      × (load job_id cursor.disk ≡ ok state)
      × (state.job.status ≡ terminal_to_state step.artifact_decision.artifact_status)

  abbrev Good : Option (Staged Returned) → Type 0
  Good none = Unit {0}
  Good (some (err x, cursor)) = Unit {0}
  Good (some (ok (history, step), cursor)) = Concludes history step cursor

  finish_item-Good :
      (job_id : JobId) (item : ℕ) (history : RepairHistory Binding Material) (step : RepairTerminal)
      (cursor : Cursor)
      → IsMade request_hash generation_fingerprint history × IsRouted history step
      → Good (
          some (
            finish_item encoded_size timestamp request_hash generation_fingerprint generate verify
              job_id item history step cursor))
  unfolding finish_item append
  finish_item-Good job_id item history step cursor h = stored _
    where
      stored :
          (r : Result (Option Stored × Event))
          → Good (
              some (
                after
                  (moved (terminal_to_state step.artifact_decision.artifact_status) cursor r)
                  (λ _ cursor. (ok (history, step), cursor))))
      stored (ok (disk, event)) = (h.0, h.1, refl)
      stored (err x) = tt

  ask-IsRouted :
      (job_id : JobId) (profile : Text) (item : ℕ) (history : RepairHistory Binding Material)
      (step : RepairTerminal)
      → ask encoded_size timestamp request_hash generation_fingerprint generate verify job_id
          profile item history
        ≡ ok (repair_terminal step)
      → IsMade request_hash generation_fingerprint history × IsRouted history step
  unfolding ask
  ask-IsRouted job_id profile item history step h =
      let (decision, _, h1) =
        >>=-eq-ok (decision_id job_id profile item (history.rounds + 1)) _ h in
      let (attempt, _, h2) = >>=-eq-ok (attempt_id job_id profile item (history.rounds + 1)) _ h1 in
      next_repair_step-IsRouted request_hash generation_fingerprint history decision attempt step h2

  continued-Good :
      (again : RepairHistory Binding Material → Option (Staged Returned)) (cursor : Cursor)
      (r : Result (RepairHistory Binding Material))
      → ((next : RepairHistory Binding Material) → Good (again next))
      → Good (
          continued encoded_size timestamp request_hash generation_fingerprint generate verify again
            cursor r)
  continued-Good again cursor (ok next) g = g next
  continued-Good again cursor (err x) g = tt

  by_step-Good :
      (again : RepairHistory Binding Material → Option (Staged Returned))
      (rules : List RuleDefinition) (job_id : JobId) (item : ℕ)
      (history : RepairHistory Binding Material) (cursor : Cursor)
      (step : Result (RepairStep Binding Material))
      → ((next : RepairHistory Binding Material) → Good (again next))
      → ((t : RepairTerminal)
          → step ≡ ok (repair_terminal t)
          → IsMade request_hash generation_fingerprint history × IsRouted history t)
      → Good (
          by_step encoded_size timestamp request_hash generation_fingerprint generate verify again
            rules job_id item history cursor step)
  by_step-Good again rules job_id item history cursor (err x) g h = tt
  by_step-Good again rules job_id item history cursor (ok (repair_terminal t)) g h =
      finish_item-Good job_id item history t cursor (h t refl)
  by_step-Good again rules job_id item history cursor (ok (next_generation command)) g h =
      continued-Good again cursor _ g

  repair_loop-Good :
      (fuel : ℕ) (rules : List RuleDefinition) (job_id : JobId) (profile : Text) (item : ℕ)
      (cursor : Cursor) (history : RepairHistory Binding Material)
      → Good (
          repair_loop encoded_size timestamp request_hash generation_fingerprint generate verify
            fuel rules job_id profile item cursor history)
  unfolding repair_loop
  repair_loop-Good zero rules job_id profile item cursor history = tt
  repair_loop-Good (suc fuel) rules job_id profile item cursor history =
      by_step-Good _ rules job_id item history cursor _
        (λ next. repair_loop-Good fuel rules job_id profile item cursor next)
        (λ t h. ask-IsRouted job_id profile item history t h)

  run_item-Good :
      (fuel : ℕ) (job_id : JobId) (profile : Text) (item : ℕ)
      (request : GenerationRequest Binding Material) (cursor : Cursor)
      → Good (
          run_item encoded_size timestamp request_hash generation_fingerprint generate verify fuel
            job_id profile item request cursor)
  unfolding run_item
  run_item-Good fuel job_id profile item request cursor = from_first (
      first_attempt encoded_size timestamp request_hash generation_fingerprint generate verify
        job_id item request cursor)
    where
      with_history :
          (rules : List RuleDefinition) (cursor : Cursor)
          (r : Result (RepairHistory Binding Material))
          → Good (
              started_loop encoded_size timestamp request_hash generation_fingerprint generate
                verify fuel rules job_id profile item r cursor)
      with_history rules cursor (err x) = tt
      with_history rules cursor (ok history) =
          repair_loop-Good fuel rules job_id profile item cursor history

      with_rules :
          (artifact : GeneratedArtifact) (cursor : Cursor) (rules : Result (List RuleDefinition))
          → Good (
              from_rules encoded_size timestamp request_hash generation_fingerprint generate verify
                fuel job_id profile item request artifact cursor rules)
      with_rules artifact cursor (err x) = tt
      with_rules artifact cursor (ok rules) = with_history rules cursor _

      from_first :
          (s : Staged GeneratedArtifact)
          → Good (
              from_artifact encoded_size timestamp request_hash generation_fingerprint generate
                verify fuel job_id profile item request s)
      from_first (err x, cursor) = tt
      from_first (ok artifact, cursor) = with_rules artifact cursor _

  -- An item that returns, where the job was stored in the status of the cursor, has a history that the
  -- constructor makes, with the routing's decision for its last artifact, and the job on disk loads in
  -- the status of that decision. If that is APPROVED, every result of an applicable required rule that
  -- affects the artifact is a PASS.
  pub run_item-IsFinished :
      (fuel : ℕ) (job_id : JobId) (profile : Text) (item : ℕ)
      (request : GenerationRequest Binding Material) (cursor end : Cursor)
      (history : RepairHistory Binding Material) (step : RepairTerminal)
      → IsStored job_id cursor
      → run_item encoded_size timestamp request_hash generation_fingerprint generate verify fuel
          job_id profile item request cursor
        ≡ some (ok (history, step), end)
      → (state : JobState) × IsFinished job_id history step end state
        × ((rule : RuleDefinition) (result : RuleResult)
            → state.job.status ≡ JobStatus.approved
            → Bears
                (current_report history).rules
                (current_target_artifact_id history)
                (current_report history).results
                rule
                result
            → rule.required ≡ true
            → result.status ≡ pass)
  run_item-IsFinished fuel job_id profile item request cursor end history step stored h =
      let (made, routed, status) : Concludes history step end =
        subst Good h (run_item-Good fuel job_id profile item request cursor) in
      let ends : IsStored job_id end =
        subst
          (EndsStored encoded_size timestamp request_hash generation_fingerprint generate verify
            job_id)
          h
          (run_item-EndsStored encoded_size timestamp request_hash generation_fingerprint generate
            verify fuel job_id profile item request cursor stored) in
      (
        ends.state,
        (made, routed, ends.loads, ends.in_status ∙ status),
        λ rule result a b r.
            approved_only_if_all_pass (current_report history) (current_target_artifact_id history)
              (some routed.0) false step.artifact_decision rule result routed.1
              (is_approved _ (sym (ends.in_status ∙ status) ∙ a)) b r,
      )
    where
      is_approved : (s : ArtifactStatus) → terminal_to_state s ≡ JobStatus.approved → s ≡ approved
      is_approved approved e = refl
      is_approved ArtifactStatus.rejected e = cc
      is_approved ArtifactStatus.manual_review e = cc
