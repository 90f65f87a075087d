-- ===== src/Verification/Routing/Approval.antt =====
-- What an approved and a rejected decision say of the report.
use lookfile.Prelude.{
  ◌≡◌, Bool, true, false, Option, List, arith, ok, Result, >>=-eq-ok, any, all, select, is_empty,
  list_eq, nat_eq, all-mem, mem-any, mem-select, after_guard, >>-eq-ok, option_eq,
}
use lookfile.Domain.Enums.{
  ArtifactStatus, RepairStopReason, approved, rejected, pass, fail, DecisionReason,
}
use lookfile.Domain.Identifiers.{ArtifactId}
use lookfile.Verification.RuleModels.{
  RuleDefinition, RuleResult, ArtifactDecision, artifact_decision,
}
use lookfile.Verification.Reports.{VerificationReport}
use lookfile.Verification.Routing.{
  Relevant, results_affecting_artifact, validate_stop_reason, route, finish, decide_artifact,
  is_required, is_pass, rejects_failure,
}
use lookfile.Verification.Routing.Members.{Bears-mem}
use lookfile.Verification.Reports.Coverage.{Bears}

-- The intermediate values of a run of `decide_artifact` that returns.
pub record Decided (report : VerificationReport) (artifact_id : ArtifactId)
    (stop : Option RepairStopReason) (override : Bool) (d : ArtifactDecision) : Type 0 where
  pub relevant : List Relevant
  pub weighed : results_affecting_artifact report.rules artifact_id report.results ≡ ok relevant
  pub gated : is_empty (select is_required relevant) ≡ false
  pub stop_valid : validate_stop_reason stop (select is_required relevant) ≡ ok tt
  pub routed :
      route stop relevant (select is_required relevant) ≡ ok (d.artifact_status, d.decision_reason)

finish-fields :
    (artifact_id : ArtifactId) (stop : Option RepairStopReason) (override : Bool)
    (status : ArtifactStatus) (reason : DecisionReason) (d : ArtifactDecision)
    → finish artifact_id stop override (status, reason) ≡ ok d
    → (status ≡ d.artifact_status) × (reason ≡ d.decision_reason)
unfolding finish artifact_decision
finish-fields artifact_id stop override status reason d h = ground arith

routed_fields :
    {r : Result (ArtifactStatus × DecisionReason)} {p : ArtifactStatus × DecisionReason}
    {status : ArtifactStatus} {reason : DecisionReason}
    → r ≡ ok p
    → (p.0 ≡ status) × (p.1 ≡ reason)
    → r ≡ ok (status, reason)
routed_fields {p = (s, t)} h e = cc (h, e.0, e.1)

pub decide_artifact-Decided :
    (report : VerificationReport) (artifact_id : ArtifactId) (stop : Option RepairStopReason)
    (override : Bool) (d : ArtifactDecision)
    → decide_artifact report artifact_id stop override ≡ ok d
    → Decided report artifact_id stop override d
unfolding decide_artifact
decide_artifact-Decided report artifact_id stop override d h =
    let (_, h1) = after_guard _ _ _ h in
    let (relevant, weighed, h2) = >>=-eq-ok _ _ h1 in
    let (gated, h3) = after_guard _ _ _ h2 in
    let (valid, h4) = >>-eq-ok _ _ h3 in
    let (decision, routed, h5) = >>=-eq-ok _ _ h4 in
    record {
      relevant = relevant;
      weighed = weighed;
      gated = gated;
      stop_valid = valid;
      routed =
          routed_fields routed (finish-fields artifact_id stop override decision.0 decision.1 d h5);
    }

route-approved :
    (stop : Option RepairStopReason) (relevant required : List Relevant) {reason : DecisionReason}
    → route stop relevant required ≡ ok (approved, reason)
    → all is_pass required ≡ true
unfolding route
route-approved stop relevant required h = ground arith

pub route-failure :
    (stop : Option RepairStopReason) (relevant required : List Relevant) {status : ArtifactStatus}
    {reason : DecisionReason}
    → any rejects_failure required ≡ true
    → route stop relevant required ≡ ok (status, reason)
    → status ≡ rejected
unfolding route
route-failure stop relevant required f h = ground arith

-- An artifact is approved only if every result of an applicable required rule that affects it is a
-- PASS, whatever the stop reason and the override flag.
pub approved_only_if_all_pass :
    (report : VerificationReport) (artifact_id : ArtifactId) (stop : Option RepairStopReason)
    (override : Bool) (d : ArtifactDecision) (rule : RuleDefinition) (result : RuleResult)
    → decide_artifact report artifact_id stop override ≡ ok d
    → d.artifact_status ≡ approved
    → Bears report.rules artifact_id report.results rule result
    → rule.required ≡ true
    → result.status ≡ pass
approved_only_if_all_pass report artifact_id stop override d rule result h a b r =
    let run = decide_artifact-Decided report artifact_id stop override d h in
    let routed = run.routed in
    let kept = mem-select is_required (Bears-mem b run.weighed) r in
    let passes = all-mem is_pass kept (route-approved stop run.relevant _ (rw a at routed)) in
    ground (arith, passes)

-- Failure is closed: one required result that affects the artifact and is a FAIL makes every
-- decision a rejection, with or without a stop reason or an override.
pub required_fail_rejects :
    (report : VerificationReport) (artifact_id : ArtifactId) (stop : Option RepairStopReason)
    (override : Bool) (d : ArtifactDecision) (rule : RuleDefinition) (result : RuleResult)
    → decide_artifact report artifact_id stop override ≡ ok d
    → Bears report.rules artifact_id report.results rule result
    → rule.required ≡ true
    → result.status ≡ fail
    → d.artifact_status ≡ rejected
required_fail_rejects report artifact_id stop override d rule result h b r f =
    let run = decide_artifact-Decided report artifact_id stop override d h in
    let kept = mem-select is_required (Bears-mem b run.weighed) r in
    route-failure stop run.relevant _ (mem-any rejects_failure kept (ground (arith, f))) run.routed
