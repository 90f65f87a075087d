-- ===== src/Repair/Actions.antt =====
-- src/specstyle/repair/actions.py. A request, a decision and an id are rebuilt by the code to refuse
-- a forged object; here they are objects of their classes already.
pub mod Patches
pub mod Moves
use lookfile.Prelude.{
  ℕ, ◌+◌, Bool, true, false, not, ◌&&◌, none, some, List, [], ◌∷◌, ◌==◌, ◌!=◌, nat_eq, list_eq,
  Result, ok, err, domain_error, refuse_if, ◌>>=◌, ◌>>◌, contains, if◌then◌else◌,
}
use lookfile.Domain.Text.{text}
use lookfile.Domain.Identifiers.{AttemptId, DecisionId, Identifier, RuleId}
use lookfile.Repair.Scales.{step_up, step_down}
use lookfile.Repair.Models.{
  GenerationParameters, generation_parameters, RepairPolicy, repair_policy, RepairPatch,
  repair_patch, repair_patch_eq, RepairDecision, repair_decision,
}
use lookfile.Repair.Requests.{GenerationRequest, generation_request}

abbrev pub increase_style_scale : Identifier
increase_style_scale = text "INCREASE_STYLE_SCALE"

abbrev pub decrease_style_scale : Identifier
decrease_style_scale = text "DECREASE_STYLE_SCALE"

abbrev pub reduce_denoise : Identifier
reduce_denoise = text "REDUCE_DENOISE"

abbrev pub increase_structure : Identifier
increase_structure = text "INCREASE_STRUCTURE"

abbrev pub render_output_profile : Identifier
render_output_profile = text "RENDER_OUTPUT_PROFILE"

abbrev pub retry_sampling : Identifier
retry_sampling = text "RETRY_SAMPLING"

unfoldable pub known_action_ids : List Identifier
known_action_ids =
    increase_style_scale ∷ decrease_style_scale ∷ reduce_denoise ∷ increase_structure
    ∷ render_output_profile ∷ retry_sampling ∷ []

unfoldable pub executable_action_ids : List Identifier
executable_action_ids =
    increase_style_scale ∷ decrease_style_scale ∷ reduce_denoise ∷ increase_structure
    ∷ retry_sampling ∷ []

-- The patch of an action that changes the parameters.
unfoldable pub change_parameters :
    GenerationParameters → GenerationParameters → ℕ → Result RepairPatch
change_parameters before after index = do
  made ← generation_parameters after
  repair_patch (record {
    before_parameters = before;
    after_parameters = made;
    before_variation_index = index;
    after_variation_index = index;
  })

module _ {Binding Material : Type 0} where
  -- `_patch_for`
  unfoldable pub patch_for : GenerationRequest Binding Material → Identifier → Result RepairPatch
  patch_for request action =
      let p = request.execution_parameters in
      let index = request.variation_index in
      if action == increase_style_scale
      then change_parameters p (record p { ip_adapter_scale = step_up p.ip_adapter_scale }) index
      else if action == decrease_style_scale
      then change_parameters p (record p { ip_adapter_scale = step_down p.ip_adapter_scale }) index
      else if action == reduce_denoise
      then change_parameters p (record p { img2img_strength = step_down p.img2img_strength }) index
      else if action == increase_structure
      then change_parameters p (record p { controlnet_scale = step_up p.controlnet_scale }) index
      else if action == retry_sampling
      then repair_patch (record {
        before_parameters = p;
        after_parameters = p;
        before_variation_index = index;
        after_variation_index = index + 1;
      })
      else err (domain_error "repair action is unavailable")

  -- `_policy`, and `repair_policy_from_request` on a trusted request
  unfoldable pub repair_policy_from_request :
      GenerationRequest Binding Material → Result RepairPolicy
  repair_policy_from_request request = repair_policy request.compiled_spec.repair

abbrev pub is_ok : Result RepairPatch → Bool
is_ok (ok patch) = true
is_ok (err _) = false

-- `_action`
unfoldable pub check_action : Identifier → Result (Unit {0})
check_action action = refuse_if (not (contains action known_action_ids)) "unknown repair action"

module _ {Binding Material : Type 0} where
  -- `is_action_executable` on a known action
  unfoldable pub is_action_executable : GenerationRequest Binding Material → Identifier → Bool
  is_action_executable request action =
      contains action executable_action_ids && is_ok (patch_for request action)

  unfoldable pub plan_repair_action :
      GenerationRequest Binding Material → DecisionId → RuleId → Identifier → Result RepairDecision
  plan_repair_action request decision_id trigger_rule_id action_id = do
    policy ← repair_policy_from_request request
    check_action action_id
    refuse_if (not (is_action_executable request action_id)) "repair action is not executable"
    patch ← patch_for request action_id
    repair_decision (record {
      decision_id = decision_id;
      policy_version = policy.policy_version;
      trigger_rule_id = trigger_rule_id;
      action_id = action_id;
      patch = patch;
    })

  unfoldable pub build_repair_request :
      GenerationRequest Binding Material
      → RepairDecision
      → AttemptId
      → Result (GenerationRequest Binding Material)
  build_repair_request parent decision next_attempt_id = do
    refuse_if (next_attempt_id == parent.attempt_id) "next attempt id must differ from parent"
    policy ← repair_policy_from_request parent
    refuse_if (decision.policy_version != policy.policy_version)
        "repair decision policy does not match parent"
    expected ←
        plan_repair_action parent decision.decision_id decision.trigger_rule_id decision.action_id
    refuse_if (decision.patch != expected.patch) "repair decision patch does not match action"
    generation_request (record parent {
      attempt_id = next_attempt_id;
      parent_attempt_id = some parent.attempt_id;
      variation_index = expected.patch.after_variation_index;
      execution_parameters = expected.patch.after_parameters;
    })
