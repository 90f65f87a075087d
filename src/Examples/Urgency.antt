-- ===== src/Examples/Urgency.antt =====
-- An artifact that fails a style gate, which is listed first, and a domain gate.
use lookfile.Prelude.{none, ◌≡◌, refl, List, [], ◌∷◌, nat_eq, list_eq, ok}
use lookfile.Domain.Text.{Text, text}
use lookfile.Domain.Enums.{fail}
use lookfile.Domain.Artifacts.{}
use lookfile.Domain.Identifiers.{}
use lookfile.Verification.RuleModels.{artifact_decision}
use lookfile.Verification.Reports.{
  verification_report, find_rule, check_result_refs, item_artifacts, set_size, check_scope,
  check_rule_results, check_all_rules, validate_results, validate_artifacts, validate_rules,
}
use lookfile.Verification.Routing.{
  decide_artifact, results_affecting_artifact, has_manual_policy, validate_stop_reason, route,
  finish,
}
use lookfile.Repair.Scales.{one, tenth, excess, round_to, round, step_up}
use lookfile.Repair.Models.{
  generation_parameters, max_variation_index, repair_patch, RepairDecision, repair_decision,
  repair_policy, check_policy_version,
}
use lookfile.Repair.Requests.{CompiledRule, GenerationRequest}
use lookfile.Repair.Actions.{
  increase_structure, known_action_ids, executable_action_ids, change_parameters, patch_for,
  repair_policy_from_request, check_action, is_action_executable, plan_repair_action,
}
use lookfile.Repair.Actions.Patches.{}
use lookfile.Repair.Context.{
  insert, sorted, applicable_rule_definitions, ordered_required, validate_plan_report, result_for,
  blocking, blocking_among, blocking_rules, validated_context,
}
use lookfile.Repair.Context.Routed.{}
use lookfile.Repair.Actions.Moves.{}
use lookfile.Domain.Enums.{}
use lookfile.Verification.RuleModels.{}
use lookfile.Repair.Policies.{
  actions, state_key_eq, check_seen, repair, first_repair, repair_of, select_repair,
}
use lookfile.Repair.Policies.Choice.{Fits}
use lookfile.Repair.Policies.Selected.{}
use lookfile.Repair.Policies.Children.{}
use lookfile.Repair.Guardrails.{}
use lookfile.Repair.Guardrails.Improvement.{}
use lookfile.Repair.Guardrails.Termination.{}
use lookfile.Domain.Enums.{item, l3}
use lookfile.Verification.RuleModels.{RuleDefinition, RuleResult}
use lookfile.Verification.Reports.{VerificationReport}
use lookfile.Repair.Requests.{CompiledVerificationPlan}
use lookfile.Repair.Context.Order.{Leads}
use lookfile.Repair.Policies.Urgent.{select_repair-Leads}
use lookfile.Examples.RepairInput.{style, style_rule, plan, request, chosen}

abbrev drift : RuleDefinition
drift = record style { rule_id = text "CONTENT_DRIFT"; level = l3; scope = item }

abbrev drift_rule : CompiledRule Text
drift_rule = record {
  definition = drift;
  binding = text "metric";
  priority = 9;
  affected_by_actions = increase_structure ∷ [];
}

abbrev both : CompiledVerificationPlan Text
both = record plan { rules = style_rule ∷ drift_rule ∷ [] }

abbrev asked : GenerationRequest Text Text
asked = record request {
  compiled_spec = record request.compiled_spec { verification_plans = both ∷ [] };
}

abbrev failing : RuleDefinition → RuleResult
failing rule = record {
  rule_id = rule.rule_id;
  status = fail;
  affected_artifact_ids = text "a1" ∷ [];
  score = none;
}

abbrev report : VerificationReport
report = record {
  artifacts = record { artifact_id = text "a1"; sha256 = text "00" } ∷ [];
  rules = drift ∷ style ∷ [];
  results = failing drift ∷ failing style ∷ [];
}

abbrev answer : RepairDecision
answer = record chosen {
  trigger_rule_id = text "CONTENT_DRIFT";
  action_id = increase_structure;
  patch = record chosen.patch {
    after_parameters = record chosen.patch.before_parameters { controlnet_scale = tenth };
  };
}

answered : select_repair asked both report (text "a1") (text "d1") [] ≡ ok (repair answer)
unfolding select_repair validated_context validate_plan_report verification_report
    validate_artifacts validate_rules validate_results check_result_refs find_rule check_all_rules
    check_rule_results check_scope item_artifacts set_size applicable_rule_definitions sorted insert
    repair_policy_from_request repair_policy check_policy_version check_seen decide_artifact
    results_affecting_artifact validate_stop_reason route has_manual_policy finish artifact_decision
    blocking_rules blocking_among blocking result_for ordered_required repair_of first_repair
    actions is_action_executable known_action_ids executable_action_ids plan_repair_action
    check_action repair_decision patch_for change_parameters repair_patch generation_parameters
    step_up round round_to excess one tenth max_variation_index
answered = refl

select_repair-Leads_example :
    (rule : CompiledRule Text) × (rest : List (CompiledRule Text)) × (blocking_rules both report
        (text "a1")
      ≡ ok (rule ∷ rest))
    × Fits asked rule [] answer
    × Leads rule rest
select_repair-Leads_example =
    select_repair-Leads asked both report (text "a1") (text "d1") [] answer answered
