-- ===== src/Verification/RuleModels.antt =====
-- src/specstyle/verification/rule_models.py: the value objects. Each `__post_init__` is a function
-- that returns the object or the error; the tests on Python types are the types of its arguments.
use lookfile.Prelude.{
  ℕ, ◌≡◌, Bool, true, false, not, ◌&&◌, ◌||◌, Option, none, some, List, arith, Eq, enum_eq, ◌==◌,
  ◌!=◌, Result, ok, refuse_if, ◌>>◌,
}
use lookfile.Domain.Enums.{
  RuleStatus, StaticApplicability, ArtifactStatus, artifact_status_eq, decision_reason_eq, approved,
  rejected, DecisionReason, all_required_pass, required_gate_failed, required_gate_unverifiable,
  repair_exhausted, manual_policy, RepairStopReason, RuleLevel, RuleScope,
}
use lookfile.Domain.Float.{Float, is_finite}
use lookfile.Domain.Identifiers.{ArtifactId, RuleId}

-- The literals of the three gate fields.
pub data GateAction : Type 0 where
  reject manual_review continue : GateAction

abbrev gate_action_position : GateAction → ℕ
gate_action_position GateAction.reject = 0
gate_action_position GateAction.manual_review = 1
gate_action_position GateAction.continue = 2

pub gate_action_position_inj :
    (a b : GateAction) → gate_action_position a ≡ gate_action_position b → a ≡ b
gate_action_position_inj a b h = ground arith

instance abbrev pub gate_action_eq : Eq GateAction
gate_action_eq = enum_eq gate_action_position gate_action_position_inj

pub record GatePolicy : Type 0 where
  pub on_fail : GateAction
  pub on_unverifiable : GateAction
  pub on_warning : GateAction

unfoldable pub gate_policy : GateAction → GateAction → GateAction → Result GatePolicy
gate_policy on_fail on_unverifiable on_warning = do
  refuse_if (on_fail != reject) "on_fail must be 'reject'"
  refuse_if (not (on_unverifiable == reject || on_unverifiable == manual_review))
      "invalid on_unverifiable policy"
  ok (record { on_fail = on_fail; on_unverifiable = on_unverifiable; on_warning = on_warning })

pub record RuleDefinition : Type 0 where
  pub rule_id : RuleId
  pub level : RuleLevel
  pub scope : RuleScope
  pub required : Bool
  pub applicability : StaticApplicability
  pub gate_policy : GatePolicy

unfoldable pub rule_definition : RuleDefinition → Result RuleDefinition
rule_definition rule = do
  refuse_if (rule.required && rule.gate_policy.on_warning == continue)
      "required rule cannot continue on warning"
  ok rule

pub record RuleResult : Type 0 where
  pub rule_id : RuleId
  pub status : RuleStatus
  pub affected_artifact_ids : List ArtifactId
  pub score : Option Float

abbrev score_finite : Option Float → Bool
score_finite none = true
score_finite (some x) = is_finite x

unfoldable pub rule_result : RuleResult → Result RuleResult
rule_result result = do
  refuse_if (not (score_finite result.score)) "score must be finite float or None"
  ok result

pub record ArtifactDecision : Type 0 where
  pub artifact_id : ArtifactId
  pub artifact_status : ArtifactStatus
  pub decision_reason : DecisionReason
  pub repair_stop_reason : Option RepairStopReason
  pub accepted_with_override : Bool

-- `legal_pairs`
abbrev pub legal_pair : ArtifactStatus → DecisionReason → Bool
legal_pair approved all_required_pass = true
legal_pair ArtifactStatus.manual_review manual_policy = true
legal_pair rejected required_gate_failed = true
legal_pair rejected required_gate_unverifiable = true
legal_pair rejected repair_exhausted = true
legal_pair _ _ = false

unfoldable pub artifact_decision : ArtifactDecision → Result ArtifactDecision
artifact_decision d = do
  refuse_if (not (legal_pair d.artifact_status d.decision_reason))
      "artifact status and decision reason are incompatible"
  refuse_if
      (d.accepted_with_override
        && (d.artifact_status != ArtifactStatus.manual_review
            || d.decision_reason != manual_policy))
      "override requires manual review policy decision"
  ok d
