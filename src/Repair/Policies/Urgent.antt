-- ===== src/Repair/Policies/Urgent.antt =====
-- The gate that a repair answers is the most urgent one.
use lookfile.Prelude.{◌≡◌, List, ◌∷◌, Eq, ok}
use lookfile.Domain.Identifiers.{ArtifactId, DecisionId}
use lookfile.Verification.Reports.{VerificationReport}
use lookfile.Repair.Models.{RepairDecision}
use lookfile.Repair.Requests.{CompiledRule, CompiledVerificationPlan, GenerationRequest}
use lookfile.Repair.Context.{blocking_rules}
use lookfile.Repair.Context.Order.{Leads, blocking_rules-Leads}
use lookfile.Repair.Policies.{StateKey, state_key_eq, repair, select_repair}
use lookfile.Repair.Policies.Choice.{Fits}
use lookfile.Repair.Policies.Selected.{select_repair-Fits}

module _ {Binding Material : Type 0} ⦃d : Eq Binding⦄ where
  -- The rule that a chosen repair answers comes before every other blocking rule of the artifact: the
  -- technical level before the others, the domain level before the style level, and within a level by
  -- priority and then by rule id.
  pub select_repair-Leads :
      (request : GenerationRequest Binding Material) (plan : CompiledVerificationPlan Binding)
      (report : VerificationReport) (target : ArtifactId) (decision_id : DecisionId)
      (seen : List StateKey) (decision : RepairDecision)
      → select_repair request plan report target decision_id seen ≡ ok (repair decision)
      → (rule : CompiledRule Binding) × (rest : List (CompiledRule Binding)) × (blocking_rules plan
            report target
          ≡ ok (rule ∷ rest))
        × Fits request rule seen decision
        × Leads rule rest
  select_repair-Leads request plan report target decision_id seen decision h =
      let (rule, rest, blocked, _, fits, _) =
        select_repair-Fits request plan report target decision_id seen decision h in
      (rule, rest, blocked, fits, blocking_rules-Leads plan report target rule rest blocked)
