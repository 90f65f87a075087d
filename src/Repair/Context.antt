-- ===== src/Repair/Context.antt =====
-- src/specstyle/repair/conflict_resolution.py: what selection and guardrails check of their inputs,
-- the order of the gates and the rules that block an artifact.
pub mod Sorting
pub mod Gates
pub mod Order
pub mod Routed
use lookfile.Prelude.{
  ℕ, Bool, true, false, not, ◌&&◌, ◌||◌, List, [], ◌∷◌, ◌==◌, ◌!=◌, nat_eq, list_eq, Eq, Result, ok,
  err, domain_error, refuse_if, ◌>>=◌, ◌>>◌, ltb, map, select, contains, if◌then◌else◌,
}
use lookfile.Domain.Text.{Text, text_lt}
use lookfile.Domain.Enums.{
  RuleLevel, l1, l2, l3, RuleStatus, fail, warning, rule_status_eq, applicable,
  static_applicability_eq,
}
use lookfile.Domain.Identifiers.{ArtifactId, RuleId}
use lookfile.Verification.RuleModels.{RuleDefinition, RuleResult, reject, gate_action_eq}
use lookfile.Verification.Reports.{VerificationReport, artifact_ids, verification_report}
use lookfile.Repair.Requests.{
  CompiledRule, CompiledVerificationPlan, GenerationRequest, plan_eq, rule_definition_eq,
}

-- `sorted(xs, key=...)`, stable, by the test that one key is below another.
module _ {A : Type 0} (below : A → A → Bool) where
  unfoldable pub insert : A → List A → List A
  insert x [] = x ∷ []
  insert x (y ∷ ys) = let rest = insert x ys in if below y x then y ∷ rest else x ∷ y ∷ ys

  unfoldable pub sorted : List A → List A
  sorted [] = []
  sorted (x ∷ xs) = insert x (sorted xs)

abbrev pub tier : RuleLevel → ℕ
tier l1 = 0
tier l3 = 1
tier l2 = 2

-- `definition.rule_id.value` as a key
abbrev pub id_below : RuleDefinition → RuleDefinition → Bool
id_below a b = text_lt a.rule_id b.rule_id

module _ {Binding : Type 0} where
  -- `CompiledVerificationPlan.applicable_rule_definitions`
  unfoldable pub applicable_rule_definitions :
      CompiledVerificationPlan Binding → List RuleDefinition
  applicable_rule_definitions plan = sorted id_below (
      select (λ definition. definition.applicability == applicable)
        (map (λ rule. rule.definition) plan.rules))

  -- The key of `_ordered_required`: the tier, the priority, the rule id.
  abbrev pub gate_below : CompiledRule Binding → CompiledRule Binding → Bool
  gate_below a b =
      ltb (tier a.definition.level) (tier b.definition.level)
      || (tier a.definition.level == tier b.definition.level
          && (ltb a.priority b.priority
              || (a.priority == b.priority && text_lt a.definition.rule_id b.definition.rule_id)))

  abbrev pub is_gate : CompiledRule Binding → Bool
  is_gate rule = rule.definition.applicability == applicable && rule.definition.required

  unfoldable pub ordered_required : CompiledVerificationPlan Binding → List (CompiledRule Binding)
  ordered_required plan = sorted gate_below (select is_gate plan.rules)

  -- `_validated_plan_report`: the report is built once more.
  unfoldable pub validate_plan_report :
      CompiledVerificationPlan Binding → VerificationReport → ArtifactId → Result (Unit {0})
  validate_plan_report plan report target = do
    rebuilt ← verification_report report
    refuse_if
        (rebuilt.rules != applicable_rule_definitions plan
          || not (contains target (artifact_ids rebuilt.artifacts)))
        "report does not match plan target"

-- `_one_result`, on the matches
abbrev pub the_one : List RuleResult → Result RuleResult
the_one (result ∷ []) = ok result
the_one _ = err (domain_error "report result does not match target rule")

unfoldable pub result_for : VerificationReport → RuleId → ArtifactId → Result RuleResult
result_for report rule_id target = the_one (
    select (λ result. result.rule_id == rule_id && contains target result.affected_artifact_ids)
      report.results)

module _ {Binding : Type 0} where
  abbrev pub blocks : CompiledRule Binding → RuleStatus → Bool
  blocks rule status =
      status == fail || (status == warning && rule.definition.gate_policy.on_warning == reject)

  -- `_blocking`
  unfoldable pub blocking : CompiledRule Binding → VerificationReport → ArtifactId → Result Bool
  blocking rule report target = do
    result ← result_for report rule.definition.rule_id target
    ok (blocks rule result.status)

  -- The comprehension of `_blocking_rules`.
  unfoldable pub blocking_among :
      VerificationReport
      → ArtifactId
      → List (CompiledRule Binding)
      → Result (List (CompiledRule Binding))
  blocking_among report target [] = ok []
  blocking_among report target (rule ∷ rules) =
      let rest = blocking_among report target rules in
      do
        blocked ← blocking rule report target
        more ← rest
        ok (if blocked then rule ∷ more else more)

  unfoldable pub blocking_rules :
      CompiledVerificationPlan Binding
      → VerificationReport
      → ArtifactId
      → Result (List (CompiledRule Binding))
  blocking_rules plan report target = blocking_among report target (ordered_required plan)

module _ {Binding : Type 0} ⦃d : Eq Binding⦄ where
  -- `_validate_context`, on the plans of the request's output profile
  abbrev pub check_plan :
      List (CompiledVerificationPlan Binding) → CompiledVerificationPlan Binding → Result (Unit {0})
  check_plan (match ∷ []) plan = refuse_if (match != plan) "plan does not match generation request"
  check_plan _ plan = refuse_if true "plan does not match generation request"

  unfoldable pub validated_context :
      {Material : Type 0}
      → GenerationRequest Binding Material
      → CompiledVerificationPlan Binding
      → VerificationReport
      → ArtifactId
      → Result (Unit {0})
  validated_context request plan report target = do
    validate_plan_report plan report target
    check_plan
        (select (λ item. item.output_profile == request.output_profile)
          request.compiled_spec.verification_plans)
        plan
