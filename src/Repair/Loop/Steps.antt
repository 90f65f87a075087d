-- ===== src/Repair/Loop/Steps.antt =====
-- When `next_repair_step` asks for a generation, and how often it can.
use lookfile.Prelude.{
  ℕ, suc, ◌+◌, ◌≡◌, ◌≢◌, ◌≤◌, ◌<◌, refl, sym, ap, ◌∙◌, subst, arith, false, Option, none, some, Eq,
  nat_eq, list_eq, ok, ok_inj, >>=-eq-ok, after_guard, relabel-eq-ok, contains,
}
use lookfile.Domain.Identifiers.{AttemptId, DecisionId, Sha256}
use lookfile.Verification.Reports.{VerificationReport}
use lookfile.Verification.RuleModels.{ArtifactDecision}
use lookfile.Verification.Routing.{decide_artifact}
use lookfile.Domain.Enums.{RepairStopReason}
use lookfile.Repair.Models.{RepairPolicy, NoAction}
use lookfile.Repair.Comparison.{request_eq}
use lookfile.Repair.Requests.{GenerationRequest}
use lookfile.Repair.Actions.{repair_policy_from_request, build_repair_request}
use lookfile.Repair.Policies.{Selection, repair, no_repair, state_key_eq, select_repair}
use lookfile.Repair.History.{GeneratedArtifact, RepairHistory, plan_for}
use lookfile.Repair.History.Sound.{repair_history-IsSound}
use lookfile.Repair.Loop.{
  NextGeneration, next_generation, routed_stop, make_terminal, current_request, current_report,
  current_target_artifact_id, executed_decision_ids, attempt_ids, terminal, bounded_stop, stop_or,
  stop_reason, act_on, step_from, trusted_history, next_repair_step, consume_repair_result,
}
use lookfile.Repair.Loop.Trusted.{IsMade, trusted_history_iff}
use lookfile.Repair.Loop.Consumed.{consume_repair_result-extends}

-- A terminal step is no request for a generation.
terminal_differs :
    {Binding Material : Type 0} (history : RepairHistory Binding Material) (stop : RepairStopReason)
    (n : Option NoAction) (command : NextGeneration Binding Material)
    → terminal history stop n ≢ ok (next_generation command)
unfolding terminal
terminal_differs history stop n command h =
    let (decision, _, h1) =
      >>=-eq-ok
        (decide_artifact (current_report history) (current_target_artifact_id history) (some stop)
          false)
        _ h in
    let (made, _, h2) =
      >>=-eq-ok (make_terminal (record { artifact_decision = decision; no_action = n })) _ h1 in
    cc

module _ {Binding Material : Type 0} ⦃d : Eq Binding⦄ where
  -- What stands behind a request for a generation
  pub record Asked (history : RepairHistory Binding Material) (decision_id : DecisionId)
      (attempt_id : AttemptId) (command : NextGeneration Binding Material) : Type 0 where
    pub routed : ArtifactDecision
    pub policy : RepairPolicy
    pub routing :
        decide_artifact (current_report history) (current_target_artifact_id history) none false
        ≡ ok routed
    pub goes_on : routed_stop routed ≡ none
    pub allowed : repair_policy_from_request (current_request history) ≡ ok policy
    pub improving : history.consecutive_no_improvement < policy.stop_after_no_improvement
    pub within : history.rounds < policy.max_rounds
    pub new_decision : contains decision_id (executed_decision_ids history) ≡ false
    pub new_attempt : contains attempt_id (attempt_ids history) ≡ false
    pub built :
        build_repair_request (current_request history) command.decision attempt_id
        ≡ ok command.request

  within_bounds :
      (history : RepairHistory Binding Material) (policy : RepairPolicy)
      → bounded_stop history policy ≡ none
      → (history.consecutive_no_improvement < policy.stop_after_no_improvement)
        × (history.rounds < policy.max_rounds)
  within_bounds history policy h = ground arith

  stop_or-none :
      (history : RepairHistory Binding Material) (stop : Option RepairStopReason)
      → stop_or stop history ≡ ok none
      → (stop ≡ none)
        × (policy : RepairPolicy) × (repair_policy_from_request (current_request history)
            ≡ ok policy)
        × (bounded_stop history policy ≡ none)
  stop_or-none history (some stop) h = cc
  stop_or-none history none h =
      let (policy, allowed, h1) =
        >>=-eq-ok (repair_policy_from_request (current_request history)) _ h in
      (refl, policy, allowed, ok_inj h1)

  act_on_inv :
      (history : RepairHistory Binding Material) (attempt_id : AttemptId) (selected : Selection)
      (command : NextGeneration Binding Material)
      → act_on history attempt_id selected ≡ ok (next_generation command)
      → (contains attempt_id (attempt_ids history) ≡ false)
        × (build_repair_request (current_request history) command.decision attempt_id
            ≡ ok command.request)
  act_on_inv history attempt_id (no_repair n) command h =
      elim (terminal_differs history RepairStopReason.no_action (some n) command h) [ ]
  act_on_inv history attempt_id (repair selected) command h =
      let (fresh, h1) = after_guard (contains attempt_id (attempt_ids history)) _ _ h in
      let (request, built, h2) =
        >>=-eq-ok (build_repair_request (current_request history) selected attempt_id) _ h1 in
      let e = command_of h2 in
      (
        fresh,
        subst
            (λ (c : NextGeneration Binding Material).
              build_repair_request (current_request history) c.decision attempt_id ≡ ok c.request)
            e built,
      )
    where
      command_of :
          {a b : NextGeneration Binding Material}
          → ok (next_generation a) ≡ ok (next_generation b)
          → a ≡ b
      command_of h = cc

  step_from_inv :
      (history : RepairHistory Binding Material) (decision_id : DecisionId) (attempt_id : AttemptId)
      (stop : Option RepairStopReason) (command : NextGeneration Binding Material)
      → step_from history decision_id attempt_id stop ≡ ok (next_generation command)
      → (stop ≡ none)
        × (contains decision_id (executed_decision_ids history) ≡ false)
        × (contains attempt_id (attempt_ids history) ≡ false)
        × (build_repair_request (current_request history) command.decision attempt_id
            ≡ ok command.request)
  step_from_inv history decision_id attempt_id (some stop) command h =
      elim (terminal_differs history stop none command h) [ ]
  step_from_inv history decision_id attempt_id none command h =
      let (fresh, h1) = after_guard (contains decision_id (executed_decision_ids history)) _ _ h in
      let (plan, _, h2) = >>=-eq-ok (plan_for (current_request history)) _ h1 in
      let (selected, _, h3) =
        >>=-eq-ok
          (select_repair (current_request history) plan (current_report history)
            (current_target_artifact_id history) decision_id history.seen_state_keys)
          _ h2 in
      let (new, built) = act_on_inv history attempt_id selected command h3 in
      (refl, fresh, new, built)

module _ {Binding Material : Type 0} ⦃d : Eq Binding⦄ ⦃m : Eq Material⦄
    (request_hash generation_fingerprint : GenerationRequest Binding Material → Sha256) where
  -- A generation is asked for only on a history that the constructor makes, while the routing gives no
  -- reason to stop and both bounds of the policy leave room, under a decision id and an attempt id that
  -- the history lacks, and the request is the child that the decision makes of the current one.
  pub next_repair_step-Asked :
      (history : RepairHistory Binding Material) (decision_id : DecisionId) (attempt_id : AttemptId)
      (command : NextGeneration Binding Material)
      → next_repair_step request_hash generation_fingerprint history decision_id attempt_id
        ≡ ok (next_generation command)
      → IsMade request_hash generation_fingerprint history
        × Asked history decision_id attempt_id command
  unfolding next_repair_step stop_reason
  next_repair_step-Asked history decision_id attempt_id command h =
      let (trusted, t, h1) =
        >>=-eq-ok (trusted_history request_hash generation_fingerprint history) _
          (relabel-eq-ok _ _ h) in
      let (same, made) =
        (trusted_history_iff request_hash generation_fingerprint history trusted).0 t in
      let (stop, stopped, h2) = >>=-eq-ok (stop_reason trusted) _ h1 in
      let (goes, new_decision, new_attempt, built) =
        step_from_inv trusted decision_id attempt_id stop command h2 in
      let (routed, routing, h3) =
        >>=-eq-ok
          (decide_artifact (current_report trusted) (current_target_artifact_id trusted) none false)
          _ stopped in
      let (goes_on, policy, allowed, bounded) =
        stop_or-none trusted (routed_stop routed) (h3 ∙ ap ok goes) in
      let (improving, within) = within_bounds trusted policy bounded in
      (
        made,
        subst (λ t. Asked t decision_id attempt_id command) same
            (record {
              routed = routed;
              policy = policy;
              routing = routing;
              goes_on = goes_on;
              allowed = allowed;
              improving = improving;
              within = within;
              new_decision = new_decision;
              new_attempt = new_attempt;
              built = built;
            }),
      )

  -- A run of the loop: a generation is asked for, and its result is consumed.
  pub data Rounds : RepairHistory Binding Material → ℕ → Type 0 where
    settled : {history : RepairHistory Binding Material} → Rounds history 0
    one_round :
        {history next : RepairHistory Binding Material} {n : ℕ} (decision_id : DecisionId)
        (attempt_id : AttemptId) (command : NextGeneration Binding Material)
        (artifact : GeneratedArtifact) (report : VerificationReport)
        → next_repair_step request_hash generation_fingerprint history decision_id attempt_id
          ≡ ok (next_generation command)
        → consume_repair_result request_hash generation_fingerprint history command artifact report
          ≡ ok next
        → Rounds next n
        → Rounds history (suc n)

  -- However the generations turn out, the rounds of the loop that follow a history that the
  -- constructor makes and those that it has are together no more than the policy of its first request
  -- allows.
  pub Rounds-bounded :
      {history : RepairHistory Binding Material} {n : ℕ} (policy : RepairPolicy)
      → IsMade request_hash generation_fingerprint history
      → repair_policy_from_request history.initial_attempt.request ≡ ok policy
      → Rounds history n
      → history.rounds + n ≤ policy.max_rounds
  Rounds-bounded {history} policy made allowed settled =
      let (own, _, _, read, _, _, _, within, _, _, _) =
        repair_history-IsSound request_hash generation_fingerprint _ _ history made in
      omega (arith, within, ap (λ (p : RepairPolicy). p.max_rounds) (ok_inj (sym read ∙ allowed)))
  Rounds-bounded {history} policy made allowed
        (one_round {next} decision_id attempt_id command artifact report asked taken rest) =
      let (_, again, same, _, count) =
        consume_repair_result-extends request_hash generation_fingerprint history command artifact
          report next taken in
      let later =
        Rounds-bounded policy again (ap (λ i. repair_policy_from_request i.request) same ∙ allowed)
          rest in
      omega (arith, later, count)
