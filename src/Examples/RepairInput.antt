-- ===== src/Examples/RepairInput.antt =====
-- An artifact whose style is too weak, and its repair, for the witnesses of src/specstyle/repair/.
use lookfile.Prelude.{true, none, [], ◌∷◌, nat_eq, list_eq}
use lookfile.Domain.Text.{Text, text}
use lookfile.Domain.Enums.{RuleStatus, l2, batch, applicable}
use lookfile.Domain.Artifacts.{}
use lookfile.Domain.Identifiers.{ArtifactId}
use lookfile.Verification.RuleModels.{RuleDefinition, reject}
use lookfile.Verification.Reports.{VerificationReport}
use lookfile.Verification.Routing.{}
use lookfile.Repair.Scales.{tenth}
use lookfile.Repair.Models.{GenerationParameters, RepairPatch, RepairDecision}
use lookfile.Repair.Requests.{
  CompiledRule, CompiledVerificationPlan, CompiledStyleSpec, GenerationRequest,
}
use lookfile.Repair.Actions.{increase_style_scale}
use lookfile.Repair.Actions.Patches.{}
use lookfile.Repair.Context.{}
use lookfile.Repair.Context.Gates.{}
use lookfile.Repair.Policies.{state_key_eq}
use lookfile.Repair.Policies.Choice.{}
use lookfile.Repair.Policies.Selected.{}
use lookfile.Repair.Policies.Children.{}
use lookfile.Repair.Guardrails.{}
use lookfile.Repair.Guardrails.Improvement.{}
use lookfile.Repair.Guardrails.Termination.{}
use lookfile.Repair.Scales.Rounding.{}

abbrev pub style : RuleDefinition
style = record {
  rule_id = text "STYLE_LOW";
  level = l2;
  scope = batch;
  required = true;
  applicability = applicable;
  gate_policy = record { on_fail = reject; on_unverifiable = reject; on_warning = reject };
}

abbrev pub style_rule : CompiledRule Text
style_rule = record {
  definition = style;
  binding = text "metric";
  priority = 1;
  affected_by_actions = increase_style_scale ∷ [];
}

abbrev pub plan : CompiledVerificationPlan Text
plan = record { output_profile = text "xhs_grid"; binding = text "pin"; rules = style_rule ∷ [] }

abbrev pub flat : GenerationParameters
flat = record { ip_adapter_scale = 0; img2img_strength = 0; controlnet_scale = 0 }

abbrev pub spec : CompiledStyleSpec Text
spec = record {
  repair = record { policy_version = text "1.0"; max_rounds = 3; stop_after_no_improvement = 2 };
  verification_plans = plan ∷ [];
  preview_graphs = record { output_profile = text "xhs_grid"; defaults = flat } ∷ [];
  production_graphs = [];
}

abbrev pub request : GenerationRequest Text Text
request = record {
  job_id = text "job-1";
  attempt_id = text "try-1";
  parent_attempt_id = none;
  compiled_spec = spec;
  generation_profile = text "preview";
  output_profile = text "xhs_grid";
  material = text "prompt";
  variation_index = 0;
  execution_parameters = flat;
}

abbrev pub judged : ArtifactId → RuleStatus → VerificationReport
judged artifact_id status = record {
  artifacts = record { artifact_id = artifact_id; sha256 = text "00" } ∷ [];
  rules = style ∷ [];
  results =
      record {
        rule_id = text "STYLE_LOW";
        status = status;
        affected_artifact_ids = artifact_id ∷ [];
        score = none;
      }
      ∷ [];
}

abbrev pub stronger : RepairPatch
stronger = record {
  before_parameters = flat;
  after_parameters = record flat { ip_adapter_scale = tenth };
  before_variation_index = 0;
  after_variation_index = 0;
}

abbrev pub chosen : RepairDecision
chosen = record {
  decision_id = text "d1";
  policy_version = text "1.0";
  trigger_rule_id = text "STYLE_LOW";
  action_id = increase_style_scale;
  patch = stronger;
}
