-- ===== src/Repair/Policies/Selected.antt =====
-- What `select_repair` of policies.py chooses, and when it has nothing to choose.
use lookfile.Prelude.{◌≡◌, true, List, ◌∷◌, Memᴰ, nat_eq, list_eq, Eq, ok, contains}
use lookfile.Domain.Identifiers.{ArtifactId, DecisionId, Identifier}
use lookfile.Verification.Reports.{VerificationReport}
use lookfile.Repair.Models.{RepairDecision, NoAction}
use lookfile.Repair.Requests.{CompiledRule, CompiledVerificationPlan, GenerationRequest}
use lookfile.Repair.Actions.{plan_repair_action}
use lookfile.Repair.Context.{blocking_rules}
use lookfile.Repair.Policies.{
  actions, StateKey, state_key_eq, repair, no_repair, state_after, eligible, select_repair,
}
use lookfile.Repair.Policies.Choice.{Fits, first_repair-Fits, first_repair-none, select_repair_inv}

module _ {Binding Material : Type 0} ⦃d : Eq Binding⦄ where
  -- A chosen repair answers the first blocking rule of the artifact with one of the actions that the
  -- policy lists for the rule; the rule names that action, the action can be executed, the patch is
  -- the action's, and the state it leads to was not seen before.
  pub select_repair-Fits :
      (request : GenerationRequest Binding Material) (plan : CompiledVerificationPlan Binding)
      (report : VerificationReport) (target : ArtifactId) (decision_id : DecisionId)
      (seen : List StateKey) (decision : RepairDecision)
      → select_repair request plan report target decision_id seen ≡ ok (repair decision)
      → (rule : CompiledRule Binding) × (rest : List (CompiledRule Binding)) × (blocking_rules plan
            report target
          ≡ ok (rule ∷ rest))
        × Memᴰ decision.action_id (actions rule.definition.rule_id)
        × Fits request rule seen decision
        × (decision.decision_id ≡ decision_id)
  select_repair-Fits request plan report target decision_id seen decision h =
      let (rule, rest, blocked, looped) =
        select_repair_inv request plan report target decision_id seen (repair decision) h in
      let (listed, fits, id) =
        first_repair-Fits request decision_id rule seen (actions rule.definition.rule_id) decision
          looped in
      (rule, rest, blocked, listed, fits, id)

  -- The selection gives up only when nothing is left: every action that the policy lists for the
  -- first blocking rule either cannot be used or leads to a state that was seen before.
  pub select_repair-exhausted :
      (request : GenerationRequest Binding Material) (plan : CompiledVerificationPlan Binding)
      (report : VerificationReport) (target : ArtifactId) (decision_id : DecisionId)
      (seen : List StateKey) (n : NoAction)
      → select_repair request plan report target decision_id seen ≡ ok (no_repair n)
      → (rule : CompiledRule Binding) × (rest : List (CompiledRule Binding)) × (blocking_rules plan
            report target
          ≡ ok (rule ∷ rest))
        × ((action : Identifier) (decision : RepairDecision)
            → Memᴰ action (actions rule.definition.rule_id)
            → eligible request rule action ≡ true
            → plan_repair_action request decision_id rule.definition.rule_id action ≡ ok decision
            → contains (state_after decision) seen ≡ true)
  select_repair-exhausted request plan report target decision_id seen n h =
      let (rule, rest, blocked, looped) =
        select_repair_inv request plan report target decision_id seen (no_repair n) h in
      (
        rule,
        rest,
        blocked,
        first_repair-none request decision_id rule seen (actions rule.definition.rule_id) n looped,
      )
