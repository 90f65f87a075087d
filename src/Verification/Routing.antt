-- ===== src/Verification/Routing.antt =====
-- src/specstyle/verification/routing.py. The proofs stand in the modules below.
pub mod Members
pub mod Approval
pub mod Order
pub mod Totality
use lookfile.Prelude.{
  if◌then◌else◌, Bool, true, false, not, ◌&&◌, ◌||◌, Option, none, some, List, [], ◌∷◌, map, ◌==◌,
  ◌!=◌, nat_eq, option_eq, list_eq, Result, ok, err, domain_error, other_error, refuse_if, ◌>>=◌,
  ◌>>◌, any, all, select, contains, is_empty,
}
use lookfile.Domain.Enums.{
  RuleStatus, rule_status_eq, pass, fail, warning, StaticApplicability, applicable,
  static_applicability_eq, ArtifactStatus, artifact_status_eq, approved, rejected, DecisionReason,
  all_required_pass, required_gate_failed, required_gate_unverifiable, repair_exhausted,
  manual_policy, RepairStopReason, repair_stop_reason_eq, no_action, no_improvement, max_rounds,
  pass_all_required, manual_request,
}
use lookfile.Domain.Identifiers.{ArtifactId}
use lookfile.Verification.RuleModels.{
  RuleDefinition, RuleResult, ArtifactDecision, artifact_decision, gate_action_eq, reject,
  manual_review,
}
use lookfile.Verification.Reports.{VerificationReport, find_rule, artifact_ids}

abbrev pub Relevant : Type 0
Relevant = RuleDefinition × RuleResult

-- `stop in _EXHAUSTED`
abbrev pub is_exhausted : Option RepairStopReason → Bool
is_exhausted (some no_action) = true
is_exhausted (some no_improvement) = true
is_exhausted (some max_rounds) = true
is_exhausted _ = false

-- One round of the comprehension of `_results_affecting_artifact`. Every scope is in `{ITEM, BATCH}`.
-- A result of a rule that the report lacks is the `KeyError` of `rules[result.rule_id]`.
abbrev pub relevant_step :
    Option RuleDefinition → RuleResult → Result (List Relevant) → Result (List Relevant)
relevant_step none result rest = err other_error
relevant_step (some rule) result rest = do
  tail ← rest
  ok (if rule.applicability == applicable then (rule, result) ∷ tail else tail)

unfoldable pub results_affecting_artifact :
    List RuleDefinition → ArtifactId → List RuleResult → Result (List Relevant)
unfolding find_rule
results_affecting_artifact rules artifact_id [] = ok []
results_affecting_artifact rules artifact_id (result ∷ results) =
    let rest = results_affecting_artifact rules artifact_id results in
    if contains artifact_id result.affected_artifact_ids
    then relevant_step (find_rule result.rule_id rules) result rest
    else rest

abbrev pub is_pass : Relevant → Bool
is_pass (rule, result) = result.status == pass

abbrev pub is_required : Relevant → Bool
is_required (rule, result) = rule.required

-- The tests of the routing ladder on one pair.
abbrev pub rejects_unverifiable : Relevant → Bool
rejects_unverifiable (rule, result) =
    result.status == RuleStatus.unverifiable && rule.gate_policy.on_unverifiable == reject

abbrev pub rejects_failure : Relevant → Bool
rejects_failure (rule, result) =
    result.status == fail || (result.status == warning && rule.gate_policy.on_warning == reject)

abbrev pub is_unverifiable : Relevant → Bool
is_unverifiable (rule, result) = result.status == RuleStatus.unverifiable

abbrev pub is_manual : Relevant → Bool
is_manual (rule, result) =
    (result.status == warning && rule.gate_policy.on_warning == manual_review)
    || (result.status == RuleStatus.unverifiable
        && rule.gate_policy.on_unverifiable == manual_review)

-- `_has_manual_policy`: the loop returns at the first pair that asks for a review.
unfoldable pub has_manual_policy : List Relevant → Bool
has_manual_policy = any is_manual

unfoldable pub validate_stop_reason : Option RepairStopReason → List Relevant → Result (Unit {0})
validate_stop_reason stop required =
    let required_nonpass = any (λ r. not (is_pass r)) required in
    do
      refuse_if (stop == some pass_all_required && required_nonpass)
          "PASS_ALL_REQUIRED conflicts with required non-pass result"
      refuse_if (is_exhausted stop && not required_nonpass)
          "repair exhaustion conflicts with all required pass"
      refuse_if (stop == some RepairStopReason.unverifiable && not (any is_unverifiable required))
          "UNVERIFIABLE stop requires required unverifiable result"

-- The ladder of `decide_artifact`.
unfoldable pub route :
    Option RepairStopReason
    → List Relevant
    → List Relevant
    → Result (ArtifactStatus × DecisionReason)
unfolding has_manual_policy
route stop relevant required =
    if any rejects_unverifiable required
    then ok (rejected, required_gate_unverifiable)
    else if is_exhausted stop && any (λ r. not (is_pass r)) required
    then ok (rejected, repair_exhausted)
    else if any rejects_failure required
    then ok (rejected, required_gate_failed)
    else if stop == some manual_request || has_manual_policy relevant
    then ok (ArtifactStatus.manual_review, manual_policy)
    else if all is_pass required
    then ok (approved, all_required_pass)
    else err (domain_error "required gate state has no valid terminal route")

-- The end of `decide_artifact`: the override check and the validated decision.
unfoldable pub finish :
    ArtifactId
    → Option RepairStopReason
    → Bool
    → ArtifactStatus × DecisionReason
    → Result ArtifactDecision
unfolding artifact_decision
finish artifact_id stop override (status, reason) = do
  refuse_if (override && status != ArtifactStatus.manual_review)
      "override is only valid for manual review"
  artifact_decision (record {
    artifact_id = artifact_id;
    artifact_status = status;
    decision_reason = reason;
    repair_stop_reason = stop;
    accepted_with_override = override;
  })

unfoldable pub decide_artifact :
    VerificationReport → ArtifactId → Option RepairStopReason → Bool → Result ArtifactDecision
decide_artifact report artifact_id stop override = do
  refuse_if (not (contains artifact_id (artifact_ids report.artifacts)))
      "artifact_id is not in report"
  relevant ← results_affecting_artifact report.rules artifact_id report.results
  let required = select is_required relevant
  refuse_if (is_empty required) "artifact has no applicable required gate"
  validate_stop_reason stop required
  decision ← route stop relevant required
  finish artifact_id stop override decision
