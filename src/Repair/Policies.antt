-- ===== src/Repair/Policies.antt =====
-- src/specstyle/repair/policies.py: the repair of the first blocking rule.
pub mod Choice
pub mod Selected
pub mod Urgent
pub mod Children
use lookfile.Prelude.{
  ℕ, Bool, true, false, not, ◌&&◌, ◌||◌, none, List, [], ◌∷◌, ◌==◌, ◌!=◌, nat_eq, list_eq, Eq, ◌≡◌,
  ◌↔◌, ==_iff, arith, Result, ok, err, domain_error, refuse_if, ◌>>=◌, ◌>>◌, ltb, any, contains,
  has_duplicates, is_empty, if◌then◌else◌,
}
use lookfile.Domain.Text.{text}
use lookfile.Domain.Enums.{rejected, required_gate_failed, artifact_status_eq, decision_reason_eq}
use lookfile.Domain.Identifiers.{ArtifactId, DecisionId, Identifier, RuleId}
use lookfile.Verification.Reports.{VerificationReport}
use lookfile.Verification.Routing.{decide_artifact}
use lookfile.Repair.Models.{
  GenerationParameters, generation_parameters_eq, max_variation_index, RepairDecision, NoAction,
  no_action,
}
use lookfile.Repair.Requests.{CompiledRule, CompiledVerificationPlan, GenerationRequest}
use lookfile.Repair.Actions.{
  increase_style_scale, decrease_style_scale, reduce_denoise, increase_structure,
  render_output_profile, retry_sampling, known_action_ids, is_action_executable, plan_repair_action,
  repair_policy_from_request,
}
use lookfile.Repair.Context.{blocking_rules, validated_context}

-- `_POLICY_ACTIONS` and `_actions`; a rule that the table lacks has no action.
unfoldable pub actions : RuleId → List Identifier
actions rule_id =
    if rule_id == text "l1_bundle"
    then retry_sampling ∷ []
    else if rule_id == text "STYLE_LOW"
    then increase_style_scale ∷ []
    else if rule_id == text "STYLE_OVERPOWERED"
    then decrease_style_scale ∷ reduce_denoise ∷ []
    else if rule_id == text "CONTENT_DRIFT"
    then reduce_denoise ∷ increase_structure ∷ []
    else if rule_id == text "FACE_ID_LOW"
    then reduce_denoise ∷ []
    else if rule_id == text "OUTPUT_PROFILE_INVALID"
    then render_output_profile ∷ []
    else if rule_id == text "SAMPLING_DEFECT"
    then retry_sampling ∷ []
    else []

pub record StateKey : Type 0 where
  pub parameters : GenerationParameters
  pub variation_index : ℕ

abbrev state_key_beq : StateKey → StateKey → Bool
state_key_beq a b = a.parameters == b.parameters && a.variation_index == b.variation_index

pub state_key_beq_iff : (a b : StateKey) → (state_key_beq a b ≡ true) ↔ (a ≡ b)
state_key_beq_iff a b =
    ground (arith, ==_iff a.parameters b.parameters, ==_iff a.variation_index b.variation_index)

instance abbrev pub state_key_eq : Eq StateKey
state_key_eq = record { beq = state_key_beq; beq_iff = state_key_beq_iff }

-- `_seen`
unfoldable pub check_seen : List StateKey → Result (Unit {0})
check_seen seen =
    refuse_if (any (λ key. ltb max_variation_index key.variation_index) seen || has_duplicates seen)
      "invalid seen state keys"

-- What `select_repair` returns.
pub data Selection : Type 0 where
  repair : RepairDecision → Selection
  no_repair : NoAction → Selection

abbrev pub state_after : RepairDecision → StateKey
state_after decision = record {
  parameters = decision.patch.after_parameters;
  variation_index = decision.patch.after_variation_index;
}

module _ {Binding Material : Type 0} where
  -- `repair_state_key`
  abbrev pub repair_state_key : GenerationRequest Binding Material → StateKey
  repair_state_key request = record {
    parameters = request.execution_parameters;
    variation_index = request.variation_index;
  }

  abbrev pub eligible :
      GenerationRequest Binding Material → CompiledRule Binding → Identifier → Bool
  eligible request rule action =
      contains action rule.affected_by_actions
      && contains action known_action_ids
      && is_action_executable request action

  -- The loop of `select_repair` over the candidates that are left.
  unfoldable pub first_repair :
      GenerationRequest Binding Material
      → DecisionId
      → CompiledRule Binding
      → List StateKey
      → List Identifier
      → Result Selection
  first_repair request decision_id rule seen [] = do
    none_left ← no_action (record {
      decision_id = decision_id;
      blocked_rule_ids = rule.definition.rule_id ∷ [];
      blocked_action_ids = actions rule.definition.rule_id;
    })
    ok (no_repair none_left)
  first_repair request decision_id rule seen (action ∷ candidates) =
      let rest = first_repair request decision_id rule seen candidates in
      if eligible request rule action
      then (do
        selected ← plan_repair_action request decision_id rule.definition.rule_id action
        if contains (state_after selected) seen then rest else ok (repair selected))
      else rest

  unfoldable pub repair_of :
      GenerationRequest Binding Material
      → DecisionId
      → List StateKey
      → List (CompiledRule Binding)
      → Result Selection
  repair_of request decision_id seen [] =
      err (domain_error "required gate failure has no blocking rule")
  repair_of request decision_id seen (rule ∷ rules) =
      first_repair request decision_id rule seen (actions rule.definition.rule_id)

  unfoldable pub select_repair :
      ⦃d : Eq Binding⦄
      → GenerationRequest Binding Material
      → CompiledVerificationPlan Binding
      → VerificationReport
      → ArtifactId
      → DecisionId
      → List StateKey
      → Result Selection
  select_repair request plan report target decision_id seen = do
    validated_context request plan report target
    policy ← repair_policy_from_request request
    check_seen seen
    routed ← decide_artifact report target none false
    refuse_if
        (not (routed.artifact_status == rejected && routed.decision_reason == required_gate_failed))
        "repair selection requires required gate failure"
    trigger ← blocking_rules plan report target
    repair_of request decision_id seen trigger
