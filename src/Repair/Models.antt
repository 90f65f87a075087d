-- ===== src/Repair/Models.antt =====
-- src/specstyle/repair/models.py, and `GenerationParameters` of src/specstyle/generation/requests.py.
use lookfile.Prelude.{
  ℕ, ◌≡◌, ◌↔◌, Bool, true, ◌&&◌, ◌||◌, ◌-◌, ◌^◌, List, Eq, ◌==◌, ◌!=◌, nat_eq, list_eq, bool_eq,
  ==_iff, arith, Result, ok, refuse_if, ◌>>=◌, ◌>>◌, ltb, is_empty, has_duplicates,
}
use lookfile.Domain.Text.{Text, text}
use lookfile.Domain.Identifiers.{DecisionId, Identifier, RuleId}
use lookfile.Repair.Scales.{Scale, one}

pub record GenerationParameters : Type 0 where
  pub ip_adapter_scale : Scale
  pub img2img_strength : Scale
  pub controlnet_scale : Scale

abbrev generation_parameters_beq : GenerationParameters → GenerationParameters → Bool
generation_parameters_beq a b =
    a.ip_adapter_scale == b.ip_adapter_scale
    && a.img2img_strength == b.img2img_strength
    && a.controlnet_scale == b.controlnet_scale

pub generation_parameters_beq_iff :
    (a b : GenerationParameters) → (generation_parameters_beq a b ≡ true) ↔ (a ≡ b)
generation_parameters_beq_iff a b = ground (
  arith,
  ==_iff a.ip_adapter_scale b.ip_adapter_scale,
  ==_iff a.img2img_strength b.img2img_strength,
  ==_iff a.controlnet_scale b.controlnet_scale,
)

instance abbrev pub generation_parameters_eq : Eq GenerationParameters
generation_parameters_eq = record {
  beq = generation_parameters_beq;
  beq_iff = generation_parameters_beq_iff;
}

-- `GenerationParameters.__post_init__`
unfoldable pub generation_parameters : GenerationParameters → Result GenerationParameters
generation_parameters p = do
  refuse_if (ltb one p.ip_adapter_scale || ltb one p.img2img_strength || ltb one p.controlnet_scale)
      "invalid generation parameters"
  ok p

-- `_MAX_VARIATION_INDEX`
unfoldable pub max_variation_index : ℕ
max_variation_index = 2 ^ 31 - 1

pub record RepairPolicy : Type 0 where
  pub policy_version : Text
  pub max_rounds : ℕ
  pub stop_after_no_improvement : ℕ

-- `_policy_version`
unfoldable pub check_policy_version : Text → Result (Unit {0})
check_policy_version version = refuse_if (version != text "1.0") "unsupported repair policy"

-- `RepairPolicy.__post_init__`
unfoldable pub repair_policy : RepairPolicy → Result RepairPolicy
repair_policy policy = do
  check_policy_version policy.policy_version
  refuse_if (ltb policy.max_rounds 1 || ltb 10 policy.max_rounds) "invalid max rounds"
  refuse_if
      (ltb policy.stop_after_no_improvement 1
        || ltb policy.max_rounds policy.stop_after_no_improvement)
      "invalid stop after no improvement"
  ok policy

pub record RepairPatch : Type 0 where
  pub before_parameters : GenerationParameters
  pub after_parameters : GenerationParameters
  pub before_variation_index : ℕ
  pub after_variation_index : ℕ

abbrev repair_patch_beq : RepairPatch → RepairPatch → Bool
repair_patch_beq a b =
    a.before_parameters == b.before_parameters
    && a.after_parameters == b.after_parameters
    && a.before_variation_index == b.before_variation_index
    && a.after_variation_index == b.after_variation_index

pub repair_patch_beq_iff : (a b : RepairPatch) → (repair_patch_beq a b ≡ true) ↔ (a ≡ b)
repair_patch_beq_iff a b = ground (
  arith,
  ==_iff a.before_parameters b.before_parameters,
  ==_iff a.after_parameters b.after_parameters,
  ==_iff a.before_variation_index b.before_variation_index,
  ==_iff a.after_variation_index b.after_variation_index,
)

instance abbrev pub repair_patch_eq : Eq RepairPatch
repair_patch_eq = record { beq = repair_patch_beq; beq_iff = repair_patch_beq_iff }

-- `RepairPatch.__post_init__`
unfoldable pub repair_patch : RepairPatch → Result RepairPatch
repair_patch patch = do
  before ← generation_parameters patch.before_parameters
  after ← generation_parameters patch.after_parameters
  refuse_if (ltb max_variation_index patch.before_variation_index) "invalid before variation index"
  refuse_if (ltb max_variation_index patch.after_variation_index) "invalid after variation index"
  refuse_if ((before != after) == (patch.before_variation_index != patch.after_variation_index))
      "repair patch must change exactly one state category"
  ok patch

pub record RepairDecision : Type 0 where
  pub decision_id : DecisionId
  pub policy_version : Text
  pub trigger_rule_id : RuleId
  pub action_id : Identifier
  pub patch : RepairPatch

-- `RepairDecision.__post_init__`
unfoldable pub repair_decision : RepairDecision → Result RepairDecision
repair_decision decision = do
  check_policy_version decision.policy_version
  patch ← repair_patch decision.patch
  ok decision

pub record NoAction : Type 0 where
  pub decision_id : DecisionId
  pub blocked_rule_ids : List RuleId
  pub blocked_action_ids : List Identifier

-- `NoAction.__post_init__`
unfoldable pub no_action : NoAction → Result NoAction
no_action none_left = do
  refuse_if (is_empty none_left.blocked_rule_ids) "blocked rule ids must be a nonempty exact tuple"
  refuse_if
      (has_duplicates none_left.blocked_rule_ids || has_duplicates none_left.blocked_action_ids)
      "blocked ids must be unique"
  ok none_left
