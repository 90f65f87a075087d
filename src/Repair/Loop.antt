-- ===== src/Repair/Loop.antt =====
-- src/specstyle/repair/loop.py: the two phases of the repair loop, which asks for a generation and
-- takes its result.
pub mod Trusted
pub mod Consumed
pub mod Steps
pub mod Stops
pub mod Terminals
use lookfile.Prelude.{
  ℕ, Bool, true, false, not, ◌&&◌, ◌||◌, Option, none, some, List, [], ◌∷◌, ◌++◌, map, Eq, ◌==◌,
  ◌!=◌, nat_eq, list_eq, option_eq, bool_eq, Result, ok, err, domain_error, relabel, refuse_if,
  ◌>>=◌, ◌>>◌, leb, contains, if◌then◌else◌,
}
use lookfile.Domain.Text.{Text}
use lookfile.Domain.Enums.{
  ArtifactStatus, artifact_status_eq, approved, rejected, DecisionReason, decision_reason_eq,
  all_required_pass, required_gate_unverifiable, manual_policy, RepairStopReason,
  repair_stop_reason_eq, pass_all_required, manual_request, no_improvement, max_rounds,
}
use lookfile.Domain.Identifiers.{ArtifactId, AttemptId, DecisionId, Sha256}
use lookfile.Verification.RuleModels.{ArtifactDecision}
use lookfile.Verification.Reports.{VerificationReport}
use lookfile.Verification.Routing.{decide_artifact}
use lookfile.Repair.Models.{RepairPolicy, RepairDecision, NoAction}
use lookfile.Repair.Requests.{GenerationRequest}
use lookfile.Repair.Actions.{repair_policy_from_request, build_repair_request}
use lookfile.Repair.Policies.{state_key_eq, Selection, repair, no_repair, select_repair}
use lookfile.Repair.Comparison.{request_eq}
use lookfile.Repair.Keys.{repair_decision_eq}
use lookfile.Repair.History.{
  GeneratedArtifact, InitialAttempt, RepairAttempt, RepairHistory, plan_for, repair_history,
  check_selected,
}

pub record NextGeneration (Binding Material : Type 0) : Type 0 where
  pub decision : RepairDecision
  pub request : GenerationRequest Binding Material

pub record RepairTerminal : Type 0 where
  pub artifact_decision : ArtifactDecision
  pub no_action : Option NoAction

-- `RepairStep`
pub data RepairStep (Binding Material : Type 0) : Type 0 where
  next_generation : NextGeneration Binding Material → RepairStep Binding Material
  repair_terminal : RepairTerminal → RepairStep Binding Material

abbrev is_missing : {A : Type 0} → Option A → Bool
is_missing none = true
is_missing (some a) = false

-- `RepairTerminal.__post_init__`
unfoldable pub make_terminal : RepairTerminal → Result RepairTerminal
make_terminal terminal = do
  refuse_if
      (is_missing terminal.no_action
        != (terminal.artifact_decision.repair_stop_reason != some RepairStopReason.no_action))
      "invalid repair terminal"
  ok terminal

-- What `_stop_reason` reads off the routing of the artifact, without a stop reason
abbrev pub routed_stop : ArtifactDecision → Option RepairStopReason
routed_stop routed =
    if routed.artifact_status == approved && routed.decision_reason == all_required_pass
    then some pass_all_required
    else if routed.artifact_status == rejected
        && routed.decision_reason == required_gate_unverifiable
    then some RepairStopReason.unverifiable
    else if routed.artifact_status == ArtifactStatus.manual_review
        && routed.decision_reason == manual_policy
    then some manual_request
    else none

abbrev pub last_or : {A B : Type 0} → A → (B → A) → List B → A
last_or a f [] = a
last_or a f (b ∷ bs) = last_or (f b) f bs

module _ {Binding Material : Type 0} where
  -- The properties of `RepairHistory`
  abbrev pub current_request : RepairHistory Binding Material → GenerationRequest Binding Material
  current_request history =
      last_or history.initial_attempt.request (λ a. a.request) history.repair_attempts

  abbrev pub current_artifact : RepairHistory Binding Material → GeneratedArtifact
  current_artifact history =
      last_or history.initial_attempt.artifact (λ a. a.artifact) history.repair_attempts

  abbrev pub current_report : RepairHistory Binding Material → VerificationReport
  current_report history =
      last_or history.initial_attempt.report (λ a. a.report) history.repair_attempts

  abbrev pub current_target_artifact_id : RepairHistory Binding Material → ArtifactId
  current_target_artifact_id history = (current_artifact history).ref.artifact_id

  -- `_executed_decision_ids` and `_attempt_ids`
  abbrev pub executed_decision_ids : RepairHistory Binding Material → List DecisionId
  executed_decision_ids history = map (λ a. a.decision.decision_id) history.repair_attempts

  abbrev pub attempt_ids : RepairHistory Binding Material → List AttemptId
  attempt_ids history =
      history.initial_attempt.request.attempt_id
      ∷ map (λ a. a.request.attempt_id) history.repair_attempts

  -- `_terminal`
  unfoldable pub terminal :
      RepairHistory Binding Material
      → RepairStopReason
      → Option NoAction
      → Result (RepairStep Binding Material)
  terminal history stop none_left = do
    decision ←
        decide_artifact (current_report history) (current_target_artifact_id history) (some stop)
          false
    made ← make_terminal (record { artifact_decision = decision; no_action = none_left })
    ok (repair_terminal made)

  abbrev pub bounded_stop : RepairHistory Binding Material → RepairPolicy → Option RepairStopReason
  bounded_stop history policy =
      if leb policy.stop_after_no_improvement history.consecutive_no_improvement
      then some no_improvement
      else if leb policy.max_rounds history.rounds
      then some max_rounds
      else none

  abbrev pub stop_or :
      Option RepairStopReason → RepairHistory Binding Material → Result (Option RepairStopReason)
  stop_or (some stop) history = ok (some stop)
  stop_or none history = do
    policy ← repair_policy_from_request (current_request history)
    ok (bounded_stop history policy)

  -- `_stop_reason`
  unfoldable pub stop_reason : RepairHistory Binding Material → Result (Option RepairStopReason)
  stop_reason history = do
    routed ←
        decide_artifact (current_report history) (current_target_artifact_id history) none false
    stop_or (routed_stop routed) history

  module _ ⦃d : Eq Binding⦄ where
    abbrev pub act_on :
        RepairHistory Binding Material
        → AttemptId
        → Selection
        → Result (RepairStep Binding Material)
    act_on history attempt_id (no_repair none_left) =
        terminal history RepairStopReason.no_action (some none_left)
    act_on history attempt_id (repair selected) = do
      refuse_if (contains attempt_id (attempt_ids history)) "invalid repair transition"
      request ← build_repair_request (current_request history) selected attempt_id
      ok (next_generation (record { decision = selected; request = request }))

    abbrev pub step_from :
        RepairHistory Binding Material
        → DecisionId
        → AttemptId
        → Option RepairStopReason
        → Result (RepairStep Binding Material)
    step_from history decision_id attempt_id (some stop) = terminal history stop none
    step_from history decision_id attempt_id none = do
      refuse_if (contains decision_id (executed_decision_ids history)) "invalid repair transition"
      plan ← plan_for (current_request history)
      selected ←
          select_repair (current_request history) plan (current_report history)
            (current_target_artifact_id history) decision_id history.seen_state_keys
      act_on history attempt_id selected

module _ {Binding Material : Type 0} ⦃d : Eq Binding⦄ ⦃m : Eq Material⦄
    (request_hash generation_fingerprint : GenerationRequest Binding Material → Sha256) where
  -- `_trusted_history`
  unfoldable pub trusted_history :
      RepairHistory Binding Material → Result (RepairHistory Binding Material)
  trusted_history value = do
    rebuilt ←
        repair_history request_hash generation_fingerprint value.initial_attempt
          value.repair_attempts
    refuse_if
        (value.rounds != rebuilt.rounds
          || value.consecutive_no_improvement != rebuilt.consecutive_no_improvement)
        "invalid repair history"
    refuse_if (value.seen_state_keys != rebuilt.seen_state_keys) "invalid repair history"
    ok rebuilt

  unfoldable pub start_repair_history :
      GenerationRequest Binding Material
      → GeneratedArtifact
      → VerificationReport
      → Result (RepairHistory Binding Material)
  start_repair_history request artifact report =
      repair_history request_hash generation_fingerprint
        (record { request = request; artifact = artifact; report = report }) []

  unfoldable pub next_repair_step :
      RepairHistory Binding Material → DecisionId → AttemptId → Result (RepairStep Binding Material)
  next_repair_step history decision_id next_attempt_id = relabel "invalid repair transition" (do
    trusted ← trusted_history history
    stop ← stop_reason trusted
    step_from trusted decision_id next_attempt_id stop)

  unfoldable pub consume_repair_result :
      RepairHistory Binding Material
      → NextGeneration Binding Material
      → GeneratedArtifact
      → VerificationReport
      → Result (RepairHistory Binding Material)
  consume_repair_result history command artifact report = relabel "invalid repair observation" (do
    trusted ← trusted_history history
    refuse_if
        (contains command.decision.decision_id (executed_decision_ids trusted)
          || contains command.request.attempt_id (attempt_ids trusted))
        "invalid repair observation"
    plan ← plan_for (current_request trusted)
    selected ←
        select_repair (current_request trusted) plan (current_report trusted)
          (current_target_artifact_id trusted) command.decision.decision_id trusted.seen_state_keys
    expected ←
        build_repair_request (current_request trusted) command.decision command.request.attempt_id
    check_selected selected command.decision
    refuse_if (expected != command.request) "invalid repair observation"
    repair_history request_hash generation_fingerprint trusted.initial_attempt (
        trusted.repair_attempts
        ++ record {
          parent_report = current_report trusted;
          decision = command.decision;
          request = command.request;
          artifact = artifact;
          report = report;
        }
          ∷ []))
