-- ===== src/Examples/Orchestrator.antt =====
-- One item of src/specstyle/workflow/orchestrator.py: the first artifact fails, its repair passes.
use lookfile.Prelude.{
  ◌≡◌, refl, ltb→lt, Option, none, some, List, [], ◌∷◌, nat_eq, list_eq, ok, Result, ◌==◌,
  if◌then◌else◌,
}
use lookfile.Domain.Text.{Text, text}
use lookfile.Domain.Enums.{pass, fail, pass_all_required}
use lookfile.Domain.Artifacts.{ArtifactRef}
use lookfile.Domain.Identifiers.{is_identifier, identifier}
use lookfile.Verification.RuleModels.{artifact_decision, RuleDefinition, RuleResult}
use lookfile.Verification.Reports.{
  verification_report, find_rule, check_result_refs, item_artifacts, set_size, check_scope,
  check_rule_results, check_all_rules, validate_results, validate_artifacts, validate_rules,
}
use lookfile.Verification.Routing.{
  decide_artifact, results_affecting_artifact, has_manual_policy, validate_stop_reason, route,
  finish,
}
use lookfile.Workflow.JobModels.{JobStatus, make_job, profiles, is_timestamp, job_budget}
use lookfile.Repair.Requests.{GenerationRequest, generation_request}
use lookfile.Repair.Models.{
  repair_policy, check_policy_version, generation_parameters, max_variation_index, repair_patch,
  repair_decision,
}
use lookfile.Repair.Actions.{
  repair_policy_from_request, known_action_ids, executable_action_ids, change_parameters, patch_for,
  check_action, is_action_executable, plan_repair_action, build_repair_request,
}
use lookfile.Repair.History.{
  GeneratedArtifact, RepairHistory, state, plan_for, check_report, check_initial, initial_attempt,
  check_attempt, record_attempt, replay_attempt, replay_attempts, replay, repair_history,
}
use lookfile.Repair.Loop.{
  RepairTerminal, make_terminal, terminal, stop_reason, trusted_history, next_repair_step,
  consume_repair_result, start_repair_history,
}
use lookfile.Workflow.Orchestrator.{
  Cursor, Staged, run_item, append, attempt_id, decision_id, judge, take_round, ask, finish_item,
  repair_loop, rules_for, first_history, first_attempt,
}
use lookfile.Workflow.Orchestrator.Ends.{HasEnded, run_item-HasEnded}
use lookfile.Examples.RepairInput.{request, judged, chosen}
use lookfile.Examples.RepairLoop.{request_hash, fingerprint, made_by}
use lookfile.Examples.Workflow.{stored_more, more-AllMade, encoded_size}
use lookfile.Repair.Scales.{one, tenth, excess, round_to, round, step_up}
use lookfile.Repair.Context.{
  insert, sorted, applicable_rule_definitions, ordered_required, validate_plan_report, result_for,
  blocking, blocking_among, blocking_rules, validated_context,
}
use lookfile.Repair.Policies.{
  actions, check_seen, first_repair, repair_of, select_repair, repair_state_key,
}
use lookfile.Repair.Guardrails.{
  passes, gate_bits, vector, gates_before, all_pass, compare_vectors, is_repair_improvement,
}
use lookfile.Repair.Loop.Stops.{decision_of}
use lookfile.Workflow.Events.{JobState, make_event, check_payload, make_state}
use lookfile.Workflow.StateMachine.{
  validate_transition, check_bound_payload, check_idempotent, replay_step, replay_loop,
  finish_replay, replay_events,
}
use lookfile.Workflow.JobStore.{
  load, canonical_genesis, validated_snapshot, decode_persisted, check_duplicates, validate_event,
  rebuild_event, append_event,
}
use lookfile.Workflow.Orchestrator.Persisted.{IsStored}
use lookfile.Workflow.Orchestrator.Approved.{IsFinished, run_item-IsFinished}

-- The services: the first artifact is `a1`, its repair `a2`, and only `a2` passes.
abbrev generate : GenerationRequest Text Text → Result GeneratedArtifact
generate r = ok (made_by r (if r.attempt_id == text "try-1" then text "a1" else text "a2"))

abbrev results_of : List ArtifactRef → List RuleResult
results_of [] = []
results_of (ref ∷ refs) =
    (judged ref.artifact_id (if ref.artifact_id == text "a1" then fail else pass)).results

abbrev verify : List ArtifactRef → List RuleDefinition → Result (List RuleResult)
verify refs rules = ok (results_of refs)

abbrev later : Text
later = text "2026-01-01T12:00:02.000Z"

abbrev ready : Cursor
ready = record { status = JobStatus.spec_compiled; disk = some stored_more }

allowed : repair_policy_from_request request ≡ ok request.compiled_spec.repair
unfolding repair_policy_from_request repair_policy check_policy_version
allowed = refl

run_item-HasEnded_example : HasEnded encoded_size later request_hash fingerprint generate verify (
    run_item encoded_size later request_hash fingerprint generate verify 4
      (text "job-1")
      (text "xhs_grid")
      0
      request
      ready)
run_item-HasEnded_example =
    run_item-HasEnded encoded_size later request_hash fingerprint generate verify 4 (text "job-1")
      (text "xhs_grid") 0 request ready request.compiled_spec.repair allowed (ltb→lt _ _ refl)

abbrev child : GenerationRequest Text Text
child = record request {
  attempt_id = text "job-1-a1-xhs_grid-0";
  parent_attempt_id = some (text "try-1");
  execution_parameters = chosen.patch.after_parameters;
}

abbrev repaired_item : RepairHistory Text Text
repaired_item = record {
  initial_attempt = record {
    request = request;
    artifact = made_by request (text "a1");
    report = judged (text "a1") fail;
  };
  repair_attempts =
      record {
        parent_report = judged (text "a1") fail;
        decision = record chosen { decision_id = text "job-1-d1-xhs_grid-0" };
        request = child;
        artifact = made_by child (text "a2");
        report = judged (text "a2") pass;
      }
      ∷ [];
  rounds = 1;
  consecutive_no_improvement = 0;
  seen_state_keys = repair_state_key request ∷ repair_state_key child ∷ [];
}

abbrev passed : RepairTerminal
passed = record { artifact_decision = decision_of (text "a2") pass_all_required; no_action = none }

abbrev end_of : {A : Type 0} → Option (Staged A) → Cursor
end_of none = ready
end_of (some (r, cursor)) = cursor

abbrev end : Cursor
end = end_of (
    run_item encoded_size later request_hash fingerprint generate verify 4 (text "job-1")
      (text "xhs_grid") 0 request ready)

ran :
    run_item encoded_size later request_hash fingerprint generate verify 4
      (text "job-1")
      (text "xhs_grid")
      0
      request
      ready
    ≡ some (ok (repaired_item, passed), end)
unfolding run_item first_attempt append append_event rebuild_event decode_persisted
    canonical_genesis validated_snapshot validate_event check_duplicates replay_events replay_loop
    replay_step check_bound_payload check_idempotent validate_transition finish_replay make_job
    make_state profiles is_timestamp make_event check_payload job_budget rules_for first_history
    start_repair_history judge repair_loop ask attempt_id decision_id identifier is_identifier
    finish_item take_round repair_history initial_attempt check_initial state plan_for check_report
    replay replay_attempts replay_attempt check_attempt record_attempt trusted_history
    next_repair_step stop_reason terminal make_terminal consume_repair_result build_repair_request
    generation_request is_repair_improvement validate_plan_report verification_report
    validate_artifacts validate_rules validate_results check_result_refs find_rule check_all_rules
    check_rule_results check_scope item_artifacts set_size applicable_rule_definitions sorted insert
    repair_decision check_policy_version repair_patch generation_parameters one tenth
    max_variation_index blocking_rules blocking_among blocking result_for ordered_required
    gates_before passes all_pass compare_vectors vector gate_bits select_repair validated_context
    repair_policy_from_request repair_policy check_seen decide_artifact results_affecting_artifact
    validate_stop_reason route has_manual_policy finish artifact_decision repair_of first_repair
    actions is_action_executable known_action_ids executable_action_ids plan_repair_action
    check_action patch_for change_parameters step_up round round_to excess
ran = refl

abbrev compiled : JobState
compiled = record {
  job = record stored_more.snapshot.job {
    status = JobStatus.spec_compiled;
    updated_at = text "2026-01-01T12:00:01.500Z";
  };
  last_sequence = 2;
  attempt_ids = [];
  bundle_names = [];
}

ready-IsStored : IsStored (text "job-1") ready
unfolding load decode_persisted canonical_genesis validated_snapshot replay_events replay_loop
    replay_step check_bound_payload check_idempotent validate_transition finish_replay make_job
    make_state profiles is_timestamp job_budget
ready-IsStored = record {
  stored = stored_more;
  on_disk = refl;
  all_made = more-AllMade;
  state = compiled;
  loads = refl;
  in_status = refl;
}

run_item-IsFinished_example :
    (state : JobState) × IsFinished encoded_size later request_hash fingerprint generate verify
      (text "job-1")
      repaired_item
      passed
      end
      state
run_item-IsFinished_example =
    let (state, finished, _) =
      run_item-IsFinished encoded_size later request_hash fingerprint generate verify 4
        (text "job-1") (text "xhs_grid") 0 request ready end repaired_item passed ready-IsStored
        ran in
    (state, finished)
