-- ===== src/Examples/Repair.antt =====
-- The repair of src/specstyle/repair/ on an artifact whose style is too weak.
use lookfile.Prelude.{
  is_empty, none, false, ◌≡◌, ◌≢◌, ◌<◌, ◌^◌, ◌↔◌, refl, true, some, List, [], ◌∷◌, Memᴰ, nat_eq,
  list_eq, ok, length, contains,
}
use lookfile.Domain.Text.{Text, text}
use lookfile.Domain.Enums.{pass, fail}
use lookfile.Domain.Artifacts.{}
use lookfile.Domain.Identifiers.{}
use lookfile.Verification.RuleModels.{artifact_decision}
use lookfile.Verification.Reports.{
  verification_report, find_rule, check_result_refs, item_artifacts, set_size, check_scope,
  check_rule_results, check_all_rules, validate_results, validate_artifacts, validate_rules,
}
use lookfile.Verification.Routing.{
  decide_artifact, results_affecting_artifact, has_manual_policy, validate_stop_reason, route,
  finish,
}
use lookfile.Repair.Scales.{one, tenth, excess, round_to, round, step_up}
use lookfile.Repair.Models.{
  generation_parameters, max_variation_index, repair_patch, RepairDecision, repair_decision,
  repair_policy, check_policy_version, NoAction, no_action,
}
use lookfile.Repair.Requests.{CompiledRule, GenerationRequest, generation_request}
use lookfile.Repair.Actions.{
  increase_style_scale, known_action_ids, executable_action_ids, change_parameters, patch_for,
  repair_policy_from_request, check_action, is_action_executable, plan_repair_action,
  build_repair_request,
}
use lookfile.Repair.Actions.Patches.{IsStep, patch_for-IsStep}
use lookfile.Repair.Context.{
  insert, sorted, applicable_rule_definitions, ordered_required, validate_plan_report, result_for,
  blocking, blocking_among, blocking_rules, validated_context,
}
use lookfile.Repair.Context.Routed.{blocking_rules-rejected}
use lookfile.Repair.Actions.Moves.{Moves, patch_for-Moves}
use lookfile.Domain.Enums.{rejected, required_gate_failed}
use lookfile.Verification.RuleModels.{ArtifactDecision}
use lookfile.Repair.Policies.{
  actions, state_key_eq, check_seen, repair, no_repair, first_repair, repair_of, select_repair,
  repair_state_key, eligible, state_after,
}
use lookfile.Repair.Policies.Choice.{Fits}
use lookfile.Repair.Policies.Selected.{select_repair-Fits, select_repair-exhausted}
use lookfile.Repair.Policies.Children.{build_repair_request-child}
use lookfile.Repair.Guardrails.{
  passes, gate_bits, vector, gates_before, all_pass, compare_vectors, is_repair_improvement,
}
use lookfile.Repair.Guardrails.Improvement.{is_repair_improvement-lowers}
use lookfile.Repair.Guardrails.Termination.{settled, improve, Improvements-bounded}
use lookfile.Examples.RepairInput.{style_rule, plan, flat, request, judged, stronger, chosen}

patch_stronger : patch_for request increase_style_scale ≡ ok stronger
unfolding patch_for change_parameters repair_patch generation_parameters step_up round round_to
    excess one tenth max_variation_index
patch_stronger = refl

patch_for-Moves_example :
    Moves request.execution_parameters request.variation_index increase_style_scale stronger
patch_for-Moves_example = patch_for-Moves request increase_style_scale stronger patch_stronger

patch_for-IsStep_example : IsStep flat 0 stronger
patch_for-IsStep_example = patch_for-IsStep request increase_style_scale stronger patch_stronger

blocked : blocking_rules plan (judged (text "a1") fail) (text "a1") ≡ ok (style_rule ∷ [])
unfolding blocking_rules blocking_among blocking result_for ordered_required sorted insert
blocked = refl

in_context : validated_context request plan (judged (text "a1") fail) (text "a1") ≡ ok tt
unfolding validated_context validate_plan_report verification_report validate_artifacts
    validate_rules validate_results check_result_refs find_rule check_all_rules check_rule_results
    check_scope item_artifacts set_size applicable_rule_definitions sorted insert
in_context = refl

selected :
    select_repair request plan (judged (text "a1") fail) (text "a1") (text "d1") []
    ≡ ok (repair chosen)
unfolding select_repair validated_context validate_plan_report verification_report
    validate_artifacts validate_rules validate_results check_result_refs find_rule check_all_rules
    check_rule_results check_scope item_artifacts set_size applicable_rule_definitions sorted insert
    repair_policy_from_request repair_policy check_policy_version check_seen decide_artifact
    results_affecting_artifact validate_stop_reason route has_manual_policy finish artifact_decision
    blocking_rules blocking_among blocking result_for ordered_required repair_of first_repair
    actions is_action_executable known_action_ids executable_action_ids plan_repair_action
    check_action repair_decision patch_for change_parameters repair_patch generation_parameters
    step_up round round_to excess one tenth max_variation_index
selected = refl

abbrev failed : ArtifactDecision
failed = record {
  artifact_id = text "a1";
  artifact_status = rejected;
  decision_reason = required_gate_failed;
  repair_stop_reason = none;
  accepted_with_override = false;
}

failed_decided : decide_artifact (judged (text "a1") fail) (text "a1") none false ≡ ok failed
unfolding decide_artifact results_affecting_artifact find_rule validate_stop_reason route
    has_manual_policy finish artifact_decision
failed_decided = refl

plan_reported : validate_plan_report plan (judged (text "a1") fail) (text "a1") ≡ ok tt
unfolding validate_plan_report verification_report validate_artifacts validate_rules
    validate_results check_result_refs find_rule check_all_rules check_rule_results check_scope
    item_artifacts set_size applicable_rule_definitions sorted insert
plan_reported = refl

blocking_rules-rejected_example :
    (is_empty (style_rule ∷ []) ≡ false) ↔ (failed.artifact_status ≡ rejected)
blocking_rules-rejected_example =
    blocking_rules-rejected plan (judged (text "a1") fail) (text "a1") (style_rule ∷ []) failed
      plan_reported blocked failed_decided (λ e. cc (e))

select_repair-Fits_example :
    (rule : CompiledRule Text) × (rest : List (CompiledRule Text)) × (blocking_rules plan
        (judged (text "a1") fail)
        (text "a1")
      ≡ ok (rule ∷ rest))
    × Memᴰ chosen.action_id (actions rule.definition.rule_id)
    × Fits request rule [] chosen
    × (chosen.decision_id ≡ text "d1")
select_repair-Fits_example =
    select_repair-Fits request plan (judged (text "a1") fail) (text "a1") (text "d1") [] chosen
      selected

abbrev stuck : NoAction
stuck = record {
  decision_id = text "d1";
  blocked_rule_ids = text "STYLE_LOW" ∷ [];
  blocked_action_ids = increase_style_scale ∷ [];
}

gave_up :
    select_repair request plan
      (judged (text "a1") fail)
      (text "a1")
      (text "d1")
      (state_after chosen ∷ [])
    ≡ ok (no_repair stuck)
unfolding select_repair validated_context validate_plan_report verification_report
    validate_artifacts validate_rules validate_results check_result_refs find_rule check_all_rules
    check_rule_results check_scope item_artifacts set_size applicable_rule_definitions sorted insert
    repair_policy_from_request repair_policy check_policy_version check_seen decide_artifact
    results_affecting_artifact validate_stop_reason route has_manual_policy finish artifact_decision
    blocking_rules blocking_among blocking result_for ordered_required repair_of first_repair
    actions is_action_executable known_action_ids executable_action_ids plan_repair_action
    check_action repair_decision patch_for change_parameters repair_patch generation_parameters
    step_up round round_to excess one tenth max_variation_index no_action
gave_up = refl

select_repair-exhausted_example :
    (rule : CompiledRule Text) × (rest : List (CompiledRule Text)) × (blocking_rules plan
        (judged (text "a1") fail)
        (text "a1")
      ≡ ok (rule ∷ rest))
    × ((action : Text) (decision : RepairDecision)
        → Memᴰ action (actions rule.definition.rule_id)
        → eligible request rule action ≡ true
        → plan_repair_action request (text "d1") rule.definition.rule_id action ≡ ok decision
        → contains (state_after decision) (state_after chosen ∷ []) ≡ true)
select_repair-exhausted_example =
    select_repair-exhausted request plan (judged (text "a1") fail) (text "a1") (text "d1")
      (state_after chosen ∷ []) stuck gave_up

abbrev child : GenerationRequest Text Text
child = record request {
  attempt_id = text "try-2";
  parent_attempt_id = some (text "try-1");
  execution_parameters = record flat { ip_adapter_scale = tenth };
}

child_built : build_repair_request request chosen (text "try-2") ≡ ok child
unfolding build_repair_request generation_request repair_policy_from_request repair_policy
    check_policy_version is_action_executable known_action_ids executable_action_ids
    plan_repair_action check_action repair_decision patch_for change_parameters repair_patch
    generation_parameters step_up round round_to excess one tenth max_variation_index
child_built = refl

build_repair_request-child_example :
    (child ≡ record request {
      attempt_id = text "try-2";
      parent_attempt_id = some (text "try-1");
      variation_index = chosen.patch.after_variation_index;
      execution_parameters = chosen.patch.after_parameters;
    })
    × (text "try-2" ≢ text "try-1")
    × (patch_for request chosen.action_id ≡ ok chosen.patch)
    × (repair_state_key child ≢ repair_state_key request)
build_repair_request-child_example =
    build_repair_request-child request chosen (text "try-2") child child_built

improved :
    is_repair_improvement plan
      (judged (text "a1") fail)
      (judged (text "a2") pass)
      (text "a1")
      (text "a2")
      chosen
    ≡ ok true
unfolding is_repair_improvement validate_plan_report verification_report validate_artifacts
    validate_rules validate_results check_result_refs find_rule check_all_rules check_rule_results
    check_scope item_artifacts set_size applicable_rule_definitions sorted insert repair_decision
    check_policy_version repair_patch generation_parameters one tenth max_variation_index
    blocking_rules blocking_among blocking result_for ordered_required gates_before passes all_pass
    compare_vectors vector gate_bits
improved = refl

is_repair_improvement-lowers_example :
    passes (judged (text "a2") pass) (text "a2") (text "STYLE_LOW") ≡ ok true
is_repair_improvement-lowers_example =
    (is_repair_improvement-lowers plan (judged (text "a1") fail) (judged (text "a2") pass)
      (text "a1") (text "a2") chosen improved).0

Improvements-bounded_example : 1 < 2 ^ length (ordered_required plan)
Improvements-bounded_example = Improvements-bounded plan (improve chosen improved settled)
