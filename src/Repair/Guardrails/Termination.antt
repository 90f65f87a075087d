-- ===== src/Repair/Guardrails/Termination.antt =====
-- Improvements cannot follow one another for ever.
use native.Mathlib.Nat.{one-le-pow}
use lookfile.Prelude.{
  ℕ, suc, ◌^◌, ◌≤◌, ◌<◌, ◌≡◌, sym, ap, ◌∙◌, true, List, nat_eq, arith, ok, ok_inj, length,
}
use lookfile.Domain.Identifiers.{ArtifactId}
use lookfile.Verification.Reports.{VerificationReport}
use lookfile.Repair.Models.{RepairDecision}
use lookfile.Repair.Requests.{CompiledVerificationPlan}
use lookfile.Repair.Context.{ordered_required}
use lookfile.Repair.Guardrails.{vector, is_repair_improvement}
use lookfile.Repair.Guardrails.Improvement.{weight, is_repair_improvement-lowers}

module _ {Binding : Type 0} (plan : CompiledVerificationPlan Binding) where
  -- A run of repairs from a report, each of which counts as an improvement on the one before.
  pub data Improvements : VerificationReport → ArtifactId → ℕ → Type 0 where
    settled : {report : VerificationReport} {target : ArtifactId} → Improvements report target 0
    improve :
        {parent child : VerificationReport} {parent_target child_target : ArtifactId} {n : ℕ}
        (decision : RepairDecision)
        → is_repair_improvement plan parent child parent_target child_target decision ≡ ok true
        → Improvements child child_target n
        → Improvements parent parent_target (suc n)

  Improvements-left :
      {report : VerificationReport} {target : ArtifactId} {n : ℕ} (bits : List ℕ)
      → Improvements report target n
      → vector plan report target ≡ ok bits
      → n ≤ weight bits
  Improvements-left bits settled h = omega arith
  Improvements-left bits (improve {parent} {child} {parent_target} {child_target} decision i rest)
        h =
      let (_, before, after, b, a, lower, _) =
        is_repair_improvement-lowers plan parent child parent_target child_target decision i in
      let same : weight before ≡ weight bits = ap weight (ok_inj (sym b ∙ h)) in
      omega (arith, Improvements-left after rest a, lower, same)

  -- Fewer improvements can follow one another than 2 to the number of the plan's required gates.
  pub Improvements-bounded :
      {report : VerificationReport} {target : ArtifactId} {n : ℕ}
      → Improvements report target n
      → n < 2 ^ length (ordered_required plan)
  Improvements-bounded settled = one-le-pow (length (ordered_required plan)) 2 (omega arith)
  Improvements-bounded (improve {parent} {child} {parent_target} {child_target} decision i rest) =
      let (_, before, after, b, a, lower, bound) =
        is_repair_improvement-lowers plan parent child parent_target child_target decision i in
      omega (arith, Improvements-left after rest a, lower, bound)
