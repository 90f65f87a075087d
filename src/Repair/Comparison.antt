-- ===== src/Repair/Comparison.antt =====
-- `_canonical` of src/specstyle/repair/history.py on requests: two requests are equal when all their
-- fields are.
use lookfile.Prelude.{
  ◌≡◌, ◌↔◌, Bool, true, ◌&&◌, Eq, ◌==◌, nat_eq, list_eq, option_eq, ==_iff, arith,
}
use lookfile.Domain.Identifiers.{}
use lookfile.Repair.Models.{generation_parameters_eq, RepairPolicy}
use lookfile.Repair.Requests.{plan_eq, CompiledExecutionGraph, CompiledStyleSpec, GenerationRequest}

abbrev policy_beq : RepairPolicy → RepairPolicy → Bool
policy_beq a b =
    a.policy_version == b.policy_version
    && a.max_rounds == b.max_rounds
    && a.stop_after_no_improvement == b.stop_after_no_improvement

pub policy_beq_iff : (a b : RepairPolicy) → (policy_beq a b ≡ true) ↔ (a ≡ b)
policy_beq_iff a b = ground (
  arith,
  ==_iff a.policy_version b.policy_version,
  ==_iff a.max_rounds b.max_rounds,
  ==_iff a.stop_after_no_improvement b.stop_after_no_improvement,
)

instance abbrev pub policy_eq : Eq RepairPolicy
policy_eq = record { beq = policy_beq; beq_iff = policy_beq_iff }

abbrev graph_beq : CompiledExecutionGraph → CompiledExecutionGraph → Bool
graph_beq a b = a.output_profile == b.output_profile && a.defaults == b.defaults

pub graph_beq_iff : (a b : CompiledExecutionGraph) → (graph_beq a b ≡ true) ↔ (a ≡ b)
graph_beq_iff a b =
    ground (arith, ==_iff a.output_profile b.output_profile, ==_iff a.defaults b.defaults)

instance abbrev pub graph_eq : Eq CompiledExecutionGraph
graph_eq = record { beq = graph_beq; beq_iff = graph_beq_iff }

module _ {Binding : Type 0} ⦃d : Eq Binding⦄ where
  abbrev spec_beq : CompiledStyleSpec Binding → CompiledStyleSpec Binding → Bool
  spec_beq a b =
      a.repair == b.repair
      && a.verification_plans == b.verification_plans
      && a.preview_graphs == b.preview_graphs
      && a.production_graphs == b.production_graphs

  pub spec_beq_iff : (a b : CompiledStyleSpec Binding) → (spec_beq a b ≡ true) ↔ (a ≡ b)
  spec_beq_iff a b = ground (
    arith,
    ==_iff a.repair b.repair,
    ==_iff a.verification_plans b.verification_plans,
    ==_iff a.preview_graphs b.preview_graphs,
    ==_iff a.production_graphs b.production_graphs,
  )

  instance abbrev pub spec_eq : Eq (CompiledStyleSpec Binding)
  spec_eq = record { beq = spec_beq; beq_iff = spec_beq_iff }

module _ {Binding Material : Type 0} ⦃d : Eq Binding⦄ ⦃m : Eq Material⦄ where
  abbrev request_beq :
      GenerationRequest Binding Material → GenerationRequest Binding Material → Bool
  request_beq a b =
      a.job_id == b.job_id
      && a.attempt_id == b.attempt_id
      && a.parent_attempt_id == b.parent_attempt_id
      && a.compiled_spec == b.compiled_spec
      && a.generation_profile == b.generation_profile
      && a.output_profile == b.output_profile
      && a.material == b.material
      && a.variation_index == b.variation_index
      && a.execution_parameters == b.execution_parameters

  pub request_beq_iff :
      (a b : GenerationRequest Binding Material) → (request_beq a b ≡ true) ↔ (a ≡ b)
  request_beq_iff a b = ground (
    arith,
    ==_iff a.job_id b.job_id,
    ==_iff a.attempt_id b.attempt_id,
    ==_iff a.parent_attempt_id b.parent_attempt_id,
    ==_iff a.compiled_spec b.compiled_spec,
    ==_iff a.generation_profile b.generation_profile,
    ==_iff a.output_profile b.output_profile,
    ==_iff a.material b.material,
    ==_iff a.variation_index b.variation_index,
    ==_iff a.execution_parameters b.execution_parameters,
  )

  instance abbrev pub request_eq : Eq (GenerationRequest Binding Material)
  request_eq = record { beq = request_beq; beq_iff = request_beq_iff }
