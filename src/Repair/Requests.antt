-- ===== src/Repair/Requests.antt =====
-- What repair reads of a request and of its compiled spec: the selectors of `GenerationRequest` in
-- src/specstyle/generation/requests.py, and the plans and rules of
-- src/specstyle/spec/compiled_models.py. `Material` stands for the images, the prompt, the references
-- and the environment, which a repair carries on unchanged, `Binding` for the pins, the metric and
-- the threshold of a rule or a plan, which repair only compares.
use lookfile.Prelude.{
  ℕ, ◌≡◌, ◌↔◌, Bool, true, false, not, ◌&&◌, ◌||◌, Option, none, some, List, [], ◌∷◌, Eq, ◌==◌,
  ◌!=◌, nat_eq, list_eq, bool_eq, ==_iff, ==_refl, ==→eq, and_inv, subst, refl, arith, Result, ok,
  refuse_if, ◌>>=◌, ◌>>◌, select, contains, if◌then◌else◌,
}
use lookfile.Domain.Text.{Text, text}
use lookfile.Domain.Enums.{rule_level_eq, rule_scope_eq, static_applicability_eq}
use lookfile.Domain.Identifiers.{AttemptId, Identifier, JobId}
use lookfile.Verification.RuleModels.{GatePolicy, RuleDefinition, gate_action_eq}
use lookfile.Repair.Models.{
  GenerationParameters, generation_parameters, generation_parameters_eq, RepairPolicy,
}

abbrev gate_policy_beq : GatePolicy → GatePolicy → Bool
gate_policy_beq a b =
    a.on_fail == b.on_fail && a.on_unverifiable == b.on_unverifiable && a.on_warning == b.on_warning

pub gate_policy_beq_iff : (a b : GatePolicy) → (gate_policy_beq a b ≡ true) ↔ (a ≡ b)
gate_policy_beq_iff a b = ground (
  arith,
  ==_iff a.on_fail b.on_fail,
  ==_iff a.on_unverifiable b.on_unverifiable,
  ==_iff a.on_warning b.on_warning,
)

instance abbrev pub gate_policy_eq : Eq GatePolicy
gate_policy_eq = record { beq = gate_policy_beq; beq_iff = gate_policy_beq_iff }

abbrev rule_definition_beq : RuleDefinition → RuleDefinition → Bool
rule_definition_beq a b =
    a.rule_id == b.rule_id
    && a.level == b.level
    && a.scope == b.scope
    && a.required == b.required
    && a.applicability == b.applicability
    && a.gate_policy == b.gate_policy

pub rule_definition_beq_iff : (a b : RuleDefinition) → (rule_definition_beq a b ≡ true) ↔ (a ≡ b)
rule_definition_beq_iff a b = (
  λ h.
      let (h1, policy) = and_inv _ (a.gate_policy == b.gate_policy) h in
      let (h2, applies) = and_inv _ (a.applicability == b.applicability) h1 in
      let (h3, required) = and_inv _ (a.required == b.required) h2 in
      let (h4, scope) = and_inv _ (a.scope == b.scope) h3 in
      let (id, level) = and_inv (a.rule_id == b.rule_id) (a.level == b.level) h4 in
      cc (
        ==→eq a.rule_id b.rule_id id,
        ==→eq a.level b.level level,
        ==→eq a.scope b.scope scope,
        ==→eq a.required b.required required,
        ==→eq a.applicability b.applicability applies,
        ==→eq a.gate_policy b.gate_policy policy,
      ),
  λ p.
      subst (λ x. rule_definition_beq a x ≡ true) p
        (rw
          (
            ==_refl a.rule_id,
            ==_refl a.level,
            ==_refl a.scope,
            ==_refl a.required,
            ==_refl a.applicability,
            ==_refl a.gate_policy,
          )
          refl),
)

instance abbrev pub rule_definition_eq : Eq RuleDefinition
rule_definition_eq = record { beq = rule_definition_beq; beq_iff = rule_definition_beq_iff }

pub record CompiledRule (Binding : Type 0) : Type 0 where
  pub definition : RuleDefinition
  pub binding : Binding
  pub priority : ℕ
  pub affected_by_actions : List Identifier

pub record CompiledVerificationPlan (Binding : Type 0) : Type 0 where
  pub output_profile : Text
  pub binding : Binding
  pub rules : List (CompiledRule Binding)

module _ {Binding : Type 0} ⦃d : Eq Binding⦄ where
  abbrev compiled_rule_beq : CompiledRule Binding → CompiledRule Binding → Bool
  compiled_rule_beq a b =
      a.definition == b.definition
      && a.binding == b.binding
      && a.priority == b.priority
      && a.affected_by_actions == b.affected_by_actions

  pub compiled_rule_beq_iff :
      (a b : CompiledRule Binding) → (compiled_rule_beq a b ≡ true) ↔ (a ≡ b)
  compiled_rule_beq_iff a b = (
    λ h.
        let (h1, actions) = and_inv _ (a.affected_by_actions == b.affected_by_actions) h in
        let (h2, priority) = and_inv _ (a.priority == b.priority) h1 in
        let (definition, binding) =
          and_inv (a.definition == b.definition) (a.binding == b.binding) h2 in
        cc (
          ==→eq a.definition b.definition definition,
          ==→eq a.binding b.binding binding,
          ==→eq a.priority b.priority priority,
          ==→eq a.affected_by_actions b.affected_by_actions actions,
        ),
    λ p.
        subst (λ x. compiled_rule_beq a x ≡ true) p
          (rw
            (
              ==_refl a.definition,
              ==_refl a.binding,
              ==_refl a.priority,
              ==_refl a.affected_by_actions,
            )
            refl),
  )

  instance abbrev pub compiled_rule_eq : Eq (CompiledRule Binding)
  compiled_rule_eq = record { beq = compiled_rule_beq; beq_iff = compiled_rule_beq_iff }

  abbrev plan_beq : CompiledVerificationPlan Binding → CompiledVerificationPlan Binding → Bool
  plan_beq a b =
      a.output_profile == b.output_profile && a.binding == b.binding && a.rules == b.rules

  pub plan_beq_iff : (a b : CompiledVerificationPlan Binding) → (plan_beq a b ≡ true) ↔ (a ≡ b)
  plan_beq_iff a b = ground (
    arith,
    ==_iff a.output_profile b.output_profile,
    ==_iff a.binding b.binding,
    ==_iff a.rules b.rules,
  )

  instance abbrev pub plan_eq : Eq (CompiledVerificationPlan Binding)
  plan_eq = record { beq = plan_beq; beq_iff = plan_beq_iff }

-- `CompiledExecutionGraph`: the profile and the default scales.
pub record CompiledExecutionGraph : Type 0 where
  pub output_profile : Text
  pub defaults : GenerationParameters

pub record CompiledStyleSpec (Binding : Type 0) : Type 0 where
  pub repair : RepairPolicy
  pub verification_plans : List (CompiledVerificationPlan Binding)
  pub preview_graphs : List CompiledExecutionGraph
  pub production_graphs : List CompiledExecutionGraph

pub record GenerationRequest (Binding Material : Type 0) : Type 0 where
  pub job_id : JobId
  pub attempt_id : AttemptId
  pub parent_attempt_id : Option AttemptId
  pub compiled_spec : CompiledStyleSpec Binding
  pub generation_profile : Text
  pub output_profile : Text
  pub material : Material
  pub variation_index : ℕ
  pub execution_parameters : GenerationParameters

abbrev pub is_initial : Option AttemptId → Bool
is_initial none = true
is_initial (some _) = false

-- `_resolve_graph` and `_resolve_execution_parameters` on the graphs that match.
abbrev pub check_graphs :
    List CompiledExecutionGraph → Option AttemptId → GenerationParameters → Result (Unit {0})
check_graphs (graph ∷ []) parent parameters = do
  defaults ← generation_parameters graph.defaults
  made ← generation_parameters parameters
  refuse_if (is_initial parent && made != defaults)
      "generation parameter override requires parent attempt"
check_graphs _ parent parameters =
    refuse_if true "generation selectors must resolve exactly one graph"

module _ {Binding Material : Type 0} where
  abbrev pub graphs_of : GenerationRequest Binding Material → List CompiledExecutionGraph
  graphs_of request =
      select (λ graph. graph.output_profile == request.output_profile)
        (if request.generation_profile == text "preview"
          then request.compiled_spec.preview_graphs
          else request.compiled_spec.production_graphs)

  -- `GenerationRequest.__post_init__`, on the fields that stand here.
  unfoldable pub generation_request :
      GenerationRequest Binding Material → Result (GenerationRequest Binding Material)
  generation_request request = do
    refuse_if
        (not (contains request.generation_profile (text "preview" ∷ text "production" ∷ []))
          || not (
              contains request.output_profile
                (text "xhs_grid" ∷ text "talking_head_cover" ∷ text "background_sequence" ∷ [])))
        "invalid generation selector"
    check_graphs (graphs_of request) request.parent_attempt_id request.execution_parameters
    ok request
