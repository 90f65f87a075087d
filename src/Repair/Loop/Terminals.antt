-- ===== src/Repair/Loop/Terminals.antt =====
-- Where the decision of a terminal step comes from.
use lookfile.Prelude.{
  ◌≡◌, ap, ◌∙◌, subst, false, Option, none, some, Eq, nat_eq, list_eq, Result, ok, ok_inj,
  >>=-eq-ok, after_guard, relabel-eq-ok, contains, option_eq,
}
use lookfile.Domain.Enums.{RepairStopReason, repair_stop_reason_eq}
use lookfile.Domain.Identifiers.{AttemptId, DecisionId, Sha256}
use lookfile.Verification.RuleModels.{}
use lookfile.Verification.Routing.{decide_artifact}
use lookfile.Repair.Models.{NoAction}
use lookfile.Repair.Comparison.{request_eq}
use lookfile.Repair.Requests.{GenerationRequest}
use lookfile.Repair.Actions.{build_repair_request}
use lookfile.Repair.Policies.{Selection, repair, no_repair, state_key_eq, select_repair}
use lookfile.Repair.History.{RepairHistory, plan_for}
use lookfile.Repair.Loop.{
  RepairTerminal, RepairStep, repair_terminal, make_terminal, current_request, current_report,
  current_target_artifact_id, executed_decision_ids, attempt_ids, terminal, stop_reason, act_on,
  step_from, trusted_history, next_repair_step,
}
use lookfile.Repair.Loop.Trusted.{IsMade, trusted_history_iff}

module _ {Binding Material : Type 0} where
  -- The routing decides it, under some stop reason.
  abbrev pub IsRouted : RepairHistory Binding Material → RepairTerminal → Type 0
  IsRouted history step =
      (stop : RepairStopReason) × (decide_artifact (current_report history)
          (current_target_artifact_id history) (some stop) false
        ≡ ok step.artifact_decision)

  terminal-IsRouted :
      (history : RepairHistory Binding Material) (stop : RepairStopReason) (n : Option NoAction)
      (step : RepairTerminal)
      → terminal history stop n ≡ ok (repair_terminal step)
      → IsRouted history step
  unfolding terminal make_terminal
  terminal-IsRouted history stop n step h =
      let (decision, decided, h1) =
        >>=-eq-ok
          (decide_artifact (current_report history) (current_target_artifact_id history) (some stop)
            false)
          _ h in
      let (made, m, h2) =
        >>=-eq-ok (make_terminal (record { artifact_decision = decision; no_action = n })) _ h1 in
      let (_, same) = after_guard _ _ _ m in
      (
        stop,
        decided
            ∙ ap ok (ap (λ (t : RepairTerminal). t.artifact_decision) (ok_inj same ∙ step_of h2)),
      )
    where
      as_step : RepairTerminal → Result (RepairStep Binding Material)
      as_step t = ok (repair_terminal t)

      step_of : {a b : RepairTerminal} → as_step a ≡ as_step b → a ≡ b
      step_of h = cc

  module _ ⦃d : Eq Binding⦄ where
    act_on-IsRouted :
        (history : RepairHistory Binding Material) (attempt_id : AttemptId) (selected : Selection)
        (step : RepairTerminal)
        → act_on history attempt_id selected ≡ ok (repair_terminal step)
        → IsRouted history step
    act_on-IsRouted history attempt_id (no_repair n) step h =
        terminal-IsRouted history RepairStopReason.no_action (some n) step h
    act_on-IsRouted history attempt_id (repair selected) step h =
        let (_, h1) = after_guard (contains attempt_id (attempt_ids history)) _ _ h in
        let (request, _, h2) =
          >>=-eq-ok (build_repair_request (current_request history) selected attempt_id) _ h1 in
        cc

    step_from-IsRouted :
        (history : RepairHistory Binding Material) (decision_id : DecisionId)
        (attempt_id : AttemptId) (stop : Option RepairStopReason) (step : RepairTerminal)
        → step_from history decision_id attempt_id stop ≡ ok (repair_terminal step)
        → IsRouted history step
    step_from-IsRouted history decision_id attempt_id (some stop) step h =
        terminal-IsRouted history stop none step h
    step_from-IsRouted history decision_id attempt_id none step h =
        let (_, h1) = after_guard (contains decision_id (executed_decision_ids history)) _ _ h in
        let (plan, _, h2) = >>=-eq-ok (plan_for (current_request history)) _ h1 in
        let (selected, _, h3) =
          >>=-eq-ok
            (select_repair (current_request history) plan (current_report history)
              (current_target_artifact_id history) decision_id history.seen_state_keys)
            _ h2 in
        act_on-IsRouted history attempt_id selected step h3

module _ {Binding Material : Type 0} ⦃d : Eq Binding⦄ ⦃m : Eq Material⦄
    (request_hash generation_fingerprint : GenerationRequest Binding Material → Sha256) where
  pub next_repair_step-IsRouted :
      (history : RepairHistory Binding Material) (decision_id : DecisionId) (attempt_id : AttemptId)
      (step : RepairTerminal)
      → next_repair_step request_hash generation_fingerprint history decision_id attempt_id
        ≡ ok (repair_terminal step)
      → IsMade request_hash generation_fingerprint history × IsRouted history step
  unfolding next_repair_step
  next_repair_step-IsRouted history decision_id attempt_id step h =
      let (trusted, t, h1) =
        >>=-eq-ok (trusted_history request_hash generation_fingerprint history) _
          (relabel-eq-ok _ _ h) in
      let (same, made) =
        (trusted_history_iff request_hash generation_fingerprint history trusted).0 t in
      let (stop, _, h2) = >>=-eq-ok (stop_reason trusted) _ h1 in
      (
        made,
        subst (λ t. IsRouted t step) same
            (step_from-IsRouted trusted decision_id attempt_id stop step h2),
      )
