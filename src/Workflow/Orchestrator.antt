-- ===== src/Workflow/Orchestrator.antt =====
-- `_run_item` of src/specstyle/workflow/orchestrator.py: one artifact is generated, verified and
-- repaired, with an event in the job store for each stage. `generate` and `verify` stand for
-- `run_generation` and `run_verifier` with the services that are handed in.
pub mod Ends
pub mod Persisted
pub mod Approved
use lookfile.Prelude.{
  ℕ, zero, suc, ◌+◌, ◌/◌, ◌%◌, Bool, true, false, Option, none, some, List, [], ◌∷◌, ◌++◌, Eq,
  nat_eq, list_eq, Result, ok, err, domain_error, relabel, refuse_if, ◌>>=◌, ◌>>◌, ltb, select,
  if◌then◌else◌, ◌==◌,
}
use lookfile.Domain.Text.{Text, text}
use lookfile.Domain.Enums.{ArtifactStatus, approved, rejected}
use lookfile.Domain.Identifiers.{AttemptId, DecisionId, JobId, Sha256, identifier}
use lookfile.Domain.Integers.{ℤ, pos}
use lookfile.Domain.Artifacts.{ArtifactRef}
use lookfile.Verification.RuleModels.{RuleDefinition, RuleResult}
use lookfile.Verification.Reports.{VerificationReport, verification_report}
use lookfile.Workflow.JobModels.{
  JobStatus, generating, verifying, EventType, attempt_started, attempt_finished, verifier_finished,
}
use lookfile.Workflow.Events.{Event, Payload, attempt_began, attempt_ended, verified}
use lookfile.Workflow.JobStore.{Stored, append_event}
use lookfile.Repair.Requests.{CompiledVerificationPlan, GenerationRequest}
use lookfile.Repair.Context.{applicable_rule_definitions}
use lookfile.Repair.Comparison.{request_eq}
use lookfile.Repair.History.{GeneratedArtifact, RepairHistory}
use lookfile.Repair.Loop.{
  NextGeneration, RepairTerminal, RepairStep, next_generation, repair_terminal,
  start_repair_history, next_repair_step, consume_repair_result, current_target_artifact_id,
}

-- `str(n)`; a number of rounds above `n` is enough, since each divides `n` by ten
abbrev pub digits : ℕ → ℕ → Text
digits zero n = []
digits (suc rounds) n =
    let rest = digits rounds (n / 10) in
    if ltb n 10 then (48 + n) ∷ [] else rest ++ (48 + n % 10) ∷ []

abbrev pub decimal : ℕ → Text
decimal n = digits (n + 1) n

abbrev derived : Text → JobId → Text → ℕ → ℕ → Text
derived letter job profile item rnd =
    job ++ text "-" ++ letter ++ decimal rnd ++ text "-" ++ profile ++ text "-" ++ decimal item

-- `_attempt_id` and `_decision_id`
unfoldable pub attempt_id : JobId → Text → ℕ → ℕ → Result AttemptId
attempt_id job profile item rnd = identifier (derived (text "a") job profile item rnd)

unfoldable pub decision_id : JobId → Text → ℕ → ℕ → Result DecisionId
decision_id job profile item rnd = identifier (derived (text "d") job profile item rnd)

-- The cursor and the directory of the job
pub record Cursor : Type 0 where
  pub status : JobStatus
  pub disk : Option Stored

-- What a stage returns or raises, and where it leaves the job
abbrev pub Staged : Type 0 → Type 0
Staged A = Result A × Cursor

abbrev pub after : {A B : Type 0} → Staged A → (A → Cursor → Staged B) → Staged B
after (ok a, cursor) next = next a cursor
after (err x, cursor) next = (err x, cursor)

-- A call that leaves the job alone
abbrev pub calling : {A : Type 0} → Result A → Cursor → Staged A
calling r cursor = (r, cursor)

abbrev moved : JobStatus → Cursor → Result (Option Stored × Event) → Staged (Unit {0})
moved to_state cursor (ok (disk, event)) = (ok tt, record { status = to_state; disk = disk })
moved to_state cursor (err x) = (err x, cursor)

-- `_terminal_to_state`
abbrev pub terminal_to_state : ArtifactStatus → JobStatus
terminal_to_state approved = JobStatus.approved
terminal_to_state rejected = JobStatus.rejected
terminal_to_state ArtifactStatus.manual_review = JobStatus.manual_review

module _ (encoded_size : List Event → ℕ) (timestamp : Text) where
  -- `_append`
  unfoldable pub append : JobId → EventType → JobStatus → Payload → Cursor → Staged (Unit {0})
  append job_id event_type to_state payload cursor = moved to_state cursor (
      append_event encoded_size job_id
        (record {
          sequence = 1;
          job_id = job_id;
          event_type = event_type;
          from_state = cursor.status;
          to_state = to_state;
          timestamp = timestamp;
          payload = payload;
        })
        cursor.disk)

  module _ {Binding Material : Type 0} ⦃d : Eq Binding⦄ ⦃m : Eq Material⦄
      (request_hash generation_fingerprint : GenerationRequest Binding Material → Sha256)
      (generate : GenerationRequest Binding Material → Result GeneratedArtifact)
      (verify : List ArtifactRef → List RuleDefinition → Result (List RuleResult)) where
    -- `VerificationReport((artifact.ref,), rules, run_verifier(...))`
    unfoldable pub judge : List RuleDefinition → GeneratedArtifact → Result VerificationReport
    judge rules artifact = do
      results ← verify (artifact.ref ∷ []) rules
      verification_report
          (record { artifacts = artifact.ref ∷ []; rules = rules; results = results })

    -- The part of the loop's body after a request for a generation
    unfoldable pub take_round :
        List RuleDefinition
        → RepairHistory Binding Material
        → NextGeneration Binding Material
        → Result (RepairHistory Binding Material)
    take_round rules history command = do
      child ← generate command.request
      child_report ← judge rules child
      consume_repair_result request_hash generation_fingerprint history command child child_report

    -- The part of the loop's body before it
    unfoldable pub ask :
        JobId → Text → ℕ → RepairHistory Binding Material → Result (RepairStep Binding Material)
    ask job_id profile item history = do
      decision ← decision_id job_id profile item (history.rounds + 1)
      attempt ← attempt_id job_id profile item (history.rounds + 1)
      next_repair_step request_hash generation_fingerprint history decision attempt

    abbrev Finished : Type 0
    Finished = RepairHistory Binding Material × RepairTerminal

    -- The return of the loop, with the event of the verifier
    unfoldable pub finish_item :
        JobId → ℕ → RepairHistory Binding Material → RepairTerminal → Cursor → Staged Finished
    finish_item job_id item history step cursor =
        after
          (append job_id verifier_finished
            (terminal_to_state step.artifact_decision.artifact_status)
            (verified (record {
              cohort_index = pos 0;
              item_index = pos item;
              artifact_id = current_target_artifact_id history;
              artifact_status = step.artifact_decision.artifact_status;
              decision_reason = step.artifact_decision.decision_reason;
              repair_stop_reason = step.artifact_decision.repair_stop_reason;
            }))
            cursor)
          (λ _ cursor. (ok (history, step), cursor))

    abbrev continued :
        (RepairHistory Binding Material → Option (Staged Finished))
        → Cursor
        → Result (RepairHistory Binding Material)
        → Option (Staged Finished)
    continued again cursor (ok history) = again history
    continued again cursor (err x) = some (err x, cursor)

    abbrev by_step :
        (RepairHistory Binding Material → Option (Staged Finished))
        → List RuleDefinition
        → JobId
        → ℕ
        → RepairHistory Binding Material
        → Cursor
        → Result (RepairStep Binding Material)
        → Option (Staged Finished)
    by_step again rules job_id item history cursor (err x) = some (err x, cursor)
    by_step again rules job_id item history cursor (ok (repair_terminal step)) =
        some (finish_item job_id item history step cursor)
    by_step again rules job_id item history cursor (ok (next_generation command)) =
        continued again cursor (take_round rules history command)

    -- `while True`, on fuel
    unfoldable pub repair_loop :
        ℕ
        → List RuleDefinition
        → JobId
        → Text
        → ℕ
        → Cursor
        → RepairHistory Binding Material
        → Option (Staged Finished)
    repair_loop zero rules job_id profile item cursor history = none
    repair_loop (suc fuel) rules job_id profile item cursor history =
        let again = repair_loop fuel rules job_id profile item cursor in
        by_step again rules job_id item history cursor (ask job_id profile item history)

    abbrev started_loop :
        ℕ
        → List RuleDefinition
        → JobId
        → Text
        → ℕ
        → Result (RepairHistory Binding Material)
        → Cursor
        → Option (Staged Finished)
    started_loop fuel rules job_id profile item (ok history) cursor =
        repair_loop fuel rules job_id profile item cursor history
    started_loop fuel rules job_id profile item (err x) cursor = some (err x, cursor)

    -- `_verification_plan`
    abbrev pub the_rules : List (CompiledVerificationPlan Binding) → Result (List RuleDefinition)
    the_rules (plan ∷ []) = ok (applicable_rule_definitions plan)
    the_rules _ = err (domain_error "invalid fake job plan")

    unfoldable pub rules_for :
        GenerationRequest Binding Material → Text → Result (List RuleDefinition)
    rules_for request profile =
        the_rules
          (select (λ plan. plan.output_profile == profile) request.compiled_spec.verification_plans)

    -- The report on the first artifact, and the history that starts with it
    unfoldable pub first_history :
        GenerationRequest Binding Material
        → GeneratedArtifact
        → List RuleDefinition
        → Result (RepairHistory Binding Material)
    first_history request artifact rules = do
      report ← judge rules artifact
      start_repair_history request_hash generation_fingerprint request artifact report

    abbrev from_rules :
        ℕ
        → JobId
        → Text
        → ℕ
        → GenerationRequest Binding Material
        → GeneratedArtifact
        → Cursor
        → Result (List RuleDefinition)
        → Option (Staged Finished)
    from_rules fuel job_id profile item request artifact cursor (err x) = some (err x, cursor)
    from_rules fuel job_id profile item request artifact cursor (ok rules) =
        started_loop fuel rules job_id profile item (first_history request artifact rules) cursor

    -- The stages before the loop, on the initial request
    unfoldable pub first_attempt :
        JobId → ℕ → GenerationRequest Binding Material → Cursor → Staged GeneratedArtifact
    first_attempt job_id item request cursor =
        after
          (append job_id attempt_started generating
            (attempt_began (record {
              cohort_index = pos 0;
              item_index = pos item;
              attempt_id = request.attempt_id;
              parent_attempt_id = none;
            }))
            cursor)
          (λ _ cursor. after (calling (generate request) cursor) (λ artifact cursor.
            after
              (append job_id attempt_finished verifying
                (attempt_ended (record {
                  cohort_index = pos 0;
                  item_index = pos item;
                  attempt_id = request.attempt_id;
                  artifact_id = artifact.ref.artifact_id;
                  request_hash = request_hash request;
                }))
                cursor)
              (λ _ cursor. (ok artifact, cursor))))

    abbrev from_artifact :
        ℕ
        → JobId
        → Text
        → ℕ
        → GenerationRequest Binding Material
        → Staged GeneratedArtifact
        → Option (Staged Finished)
    from_artifact fuel job_id profile item request (err x, cursor) = some (err x, cursor)
    from_artifact fuel job_id profile item request (ok artifact, cursor) =
        from_rules fuel job_id profile item request artifact cursor (rules_for request profile)

    -- `_run_item` on its initial request
    unfoldable pub run_item :
        ℕ
        → JobId
        → Text
        → ℕ
        → GenerationRequest Binding Material
        → Cursor
        → Option (Staged Finished)
    run_item fuel job_id profile item request cursor =
        from_artifact fuel job_id profile item request (first_attempt job_id item request cursor)
