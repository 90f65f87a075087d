-- ===== src/Repair/Policies/Children.antt =====
-- The requests that `build_repair_request` of actions.py makes.
use lookfile.Prelude.{
  ℕ, ◌≡◌, ◌≢◌, inl, inr, sym, ap, ◌∙◌, subst, false, some, ◌==◌, ◌!=◌, nat_eq, list_eq, ==→eq,
  ==_refl, arith, ok, ok_inj, >>=-eq-ok, >>-eq-ok, after_guard, true_of_not,
}
use lookfile.Domain.Identifiers.{AttemptId}
use lookfile.Repair.Models.{GenerationParameters, RepairPatch, RepairDecision, repair_patch_eq}
use lookfile.Repair.Requests.{GenerationRequest, generation_request, graphs_of, check_graphs}
use lookfile.Repair.Actions.{
  patch_for, plan_repair_action, build_repair_request, repair_policy_from_request,
}
use lookfile.Repair.Actions.Patches.{IsStep, patch_for-IsStep, planned_patch}
use lookfile.Repair.Policies.{StateKey, repair_state_key}

abbrev key : GenerationParameters → ℕ → StateKey
key p i = record { parameters = p; variation_index = i }

step_moves :
    (p : GenerationParameters) (i : ℕ) (patch : RepairPatch)
    → IsStep p i patch
    → key patch.after_parameters patch.after_variation_index ≢ key p i
step_moves p i patch s e = elim s.one_category [
  | inl c ↦ c.0 (ap (λ (k : StateKey). k.parameters) e)
  | inr c ↦ omega (arith, c.1, ap (λ (k : StateKey). k.variation_index) e)
]

eq_false : (a b : AttemptId) → (a == b) ≡ false → a ≢ b
eq_false a b h e = cc (==_refl b, subst (λ x. (x == b) ≡ false) e h)

module _ {Binding Material : Type 0} where
  generation_request-same :
      (request : GenerationRequest Binding Material) {made : GenerationRequest Binding Material}
      → generation_request request ≡ ok made
      → request ≡ made
  unfolding generation_request
  generation_request-same request h =
      let (_, h1) = after_guard _ _ _ h in
      let (_, e) =
        >>-eq-ok
          (check_graphs (graphs_of request) request.parent_attempt_id request.execution_parameters)
          _ h1 in
      ok_inj e

  -- A request that was built from a repair decision is its parent with a new attempt id, linked to
  -- the parent, and with the state that the decision's patch leads to; that patch is the one that
  -- the decision's action has on the parent, and the state differs from the parent's.
  pub build_repair_request-child :
      (parent : GenerationRequest Binding Material) (decision : RepairDecision)
      (next_attempt_id : AttemptId) (child : GenerationRequest Binding Material)
      → build_repair_request parent decision next_attempt_id ≡ ok child
      → (child ≡ record parent {
        attempt_id = next_attempt_id;
        parent_attempt_id = some parent.attempt_id;
        variation_index = decision.patch.after_variation_index;
        execution_parameters = decision.patch.after_parameters;
      })
        × (next_attempt_id ≢ parent.attempt_id)
        × (patch_for parent decision.action_id ≡ ok decision.patch)
        × (repair_state_key child ≢ repair_state_key parent)
  unfolding build_repair_request
  build_repair_request-child parent decision next_attempt_id child h =
      let (fresh, h1) = after_guard (next_attempt_id == parent.attempt_id) _ _ h in
      let (policy, _, h2) = >>=-eq-ok (repair_policy_from_request parent) _ h1 in
      let (_, h3) = after_guard (decision.policy_version != policy.policy_version) _ _ h2 in
      let (expected, planned, h4) =
        >>=-eq-ok
          (plan_repair_action parent decision.decision_id decision.trigger_rule_id
            decision.action_id)
          _ h3 in
      let (matches, h5) = after_guard (decision.patch != expected.patch) _ _ h4 in
      let same = ==→eq decision.patch expected.patch (true_of_not _ matches) in
      let found =
        (planned_patch parent decision.decision_id decision.trigger_rule_id decision.action_id
          planned).0 in
      let made = generation_request-same _ h5 in
      let s = patch_for-IsStep parent decision.action_id expected.patch found in
      (
        subst
            (λ (patch : RepairPatch). child ≡ record parent {
              attempt_id = next_attempt_id;
              parent_attempt_id = some parent.attempt_id;
              variation_index = patch.after_variation_index;
              execution_parameters = patch.after_parameters;
            })
            (sym same) (sym made),
        eq_false next_attempt_id parent.attempt_id fresh,
        found ∙ ap ok (sym same),
        subst
            (λ (r : GenerationRequest Binding Material).
              repair_state_key r ≢ repair_state_key parent)
            made (step_moves parent.execution_parameters parent.variation_index expected.patch s),
      )
