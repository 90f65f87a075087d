-- ===== src/Repair/Guardrails.antt =====
-- src/specstyle/repair/guardrails.py: a repair counts as an improvement when its trigger and the gates
-- before it pass and the vector of gates is lexicographically below the parent's.
pub mod Improvement
pub mod Termination
use lookfile.Prelude.{
  ℕ, ◌+◌, Bool, true, false, not, ◌&&◌, Option, none, some, List, [], ◌∷◌, ◌==◌, ◌!=◌, nat_eq,
  list_eq, Result, ok, err, domain_error, refuse_if, ◌>>=◌, ◌>>◌, ltb, take, is_empty,
  if◌then◌else◌,
}
use lookfile.Domain.Enums.{pass, rule_status_eq}
use lookfile.Domain.Identifiers.{ArtifactId, RuleId}
use lookfile.Verification.Reports.{VerificationReport}
use lookfile.Repair.Models.{RepairDecision, repair_decision}
use lookfile.Repair.Requests.{CompiledRule, CompiledVerificationPlan}
use lookfile.Repair.Context.{result_for, ordered_required, validate_plan_report, blocking_rules}

-- `a < b` on tuples of ints
abbrev pub vector_lt : List ℕ → List ℕ → Bool
vector_lt as' [] = false
vector_lt [] (b ∷ bs) = true
vector_lt (a ∷ as') (b ∷ bs) =
    let rest = vector_lt as' bs in if ltb a b then true else if a == b then rest else false

-- Whether the target passes a rule.
unfoldable pub passes : VerificationReport → ArtifactId → RuleId → Result Bool
passes report target rule_id = do
  result ← result_for report rule_id target
  ok (result.status == pass)

module _ {Binding : Type 0} where
  -- The comprehension of `_vector`.
  unfoldable pub gate_bits :
      VerificationReport → ArtifactId → List (CompiledRule Binding) → Result (List ℕ)
  gate_bits report target [] = ok []
  gate_bits report target (rule ∷ rules) =
      let rest = gate_bits report target rules in
      do
        passed ← passes report target rule.definition.rule_id
        bits ← rest
        ok ((if passed then 0 else 1) ∷ bits)

  -- `_vector`
  unfoldable pub vector :
      CompiledVerificationPlan Binding → VerificationReport → ArtifactId → Result (List ℕ)
  vector plan report target = gate_bits report target (ordered_required plan)

  unfoldable pub required_gate_vector :
      CompiledVerificationPlan Binding → VerificationReport → ArtifactId → Result (List ℕ)
  required_gate_vector plan report target = do
    validate_plan_report plan report target
    refuse_if (is_empty (ordered_required plan)) "plan has no applicable required gate"
    vector plan report target

  abbrev pub matches_trigger : List (CompiledRule Binding) → RuleId → Bool
  matches_trigger [] trigger = false
  matches_trigger (rule ∷ rules) trigger = trigger == rule.definition.rule_id

  -- The gates before the first one with this id, `required[:index]`; without one, the
  -- `StopIteration` of `next` becomes the error.
  unfoldable pub gates_before :
      RuleId → List (CompiledRule Binding) → Result (List (CompiledRule Binding))
  gates_before trigger [] = err (domain_error "invalid repair decision")
  gates_before trigger (rule ∷ rules) =
      let rest = gates_before trigger rules in
      if rule.definition.rule_id == trigger then ok [] else (do before ← rest; ok (rule ∷ before))

  -- `all(...)`, which stops at the first gate that does not pass
  unfoldable pub all_pass :
      VerificationReport → ArtifactId → List (CompiledRule Binding) → Result Bool
  all_pass report target [] = ok true
  all_pass report target (rule ∷ rules) =
      let rest = all_pass report target rules in
      do passed ← passes report target rule.definition.rule_id; if passed then rest else ok false

  -- The end of `is_repair_improvement`: the two vectors.
  unfoldable pub compare_vectors :
      CompiledVerificationPlan Binding
      → VerificationReport
      → VerificationReport
      → ArtifactId
      → ArtifactId
      → Result Bool
  compare_vectors plan parent child parent_target child_target = do
    child_vector ← vector plan child child_target
    parent_vector ← vector plan parent parent_target
    ok (vector_lt child_vector parent_vector)

  unfoldable pub is_repair_improvement :
      CompiledVerificationPlan Binding
      → VerificationReport
      → VerificationReport
      → ArtifactId
      → ArtifactId
      → RepairDecision
      → Result Bool
  is_repair_improvement plan parent child parent_target child_target decision = do
    validate_plan_report plan parent parent_target
    validate_plan_report plan child child_target
    rebuilt ← repair_decision decision
    blocking ← blocking_rules plan parent parent_target
    refuse_if (not (matches_trigger blocking rebuilt.trigger_rule_id))
        "repair decision does not match parent blocking rule"
    refuse_if (is_empty (ordered_required plan)) "plan has no applicable required gate"
    before ← gates_before rebuilt.trigger_rule_id (ordered_required plan)
    trigger_passed ← passes child child_target rebuilt.trigger_rule_id
    let compared = compare_vectors plan parent child parent_target child_target
    if trigger_passed
        then (do
          prefix_passed ← all_pass child child_target before
          if prefix_passed then compared else ok false)
        else ok false
