-- ===== src/Examples/Routing.antt =====
-- The routing of src/specstyle/verification/routing.py on a batch of two artifacts.
use mathlib.Core.List.Perm
use lookfile.Prelude.{◌≡◌, refl, sym, subst, true, false, none, [], ◌∷◌, Memᴰ, ok}
use lookfile.Domain.Text.{text}
use lookfile.Domain.Enums.{
  pass, fail, approved, rejected, l1, l2, item, batch, applicable, all_required_pass,
  required_gate_failed,
}
use lookfile.Domain.Artifacts.{ArtifactRef}
use lookfile.Verification.RuleModels.{
  RuleDefinition, RuleResult, ArtifactDecision, gate_policy, rule_definition, reject, manual_review,
}
use lookfile.Verification.Reports.{
  VerificationReport, verification_report, find_rule, check_result_refs, item_artifacts, set_size,
  check_scope, check_rule_results, check_all_rules, validate_results, validate_artifacts,
  validate_rules,
}
use lookfile.Verification.Reports.Coverage.{Bears, report_covers}
use lookfile.Verification.Routing.{
  decide_artifact, results_affecting_artifact, has_manual_policy, validate_stop_reason, route,
  finish,
}
use lookfile.Verification.RuleModels.{artifact_decision}
use lookfile.Verification.Routing.Approval.{approved_only_if_all_pass, required_fail_rejects}
use lookfile.Verification.Routing.Order.{decide_artifact-perm}
use lookfile.Verification.Routing.Totality.{IsValidRule, decide_artifact-total}

abbrev sharpness : RuleDefinition
sharpness = record {
  rule_id = text "l1_bundle";
  level = l1;
  scope = item;
  required = true;
  applicability = applicable;
  gate_policy = record { on_fail = reject; on_unverifiable = reject; on_warning = reject };
}

abbrev style : RuleDefinition
style = record {
  rule_id = text "STYLE_LOW";
  level = l2;
  scope = batch;
  required = false;
  applicability = applicable;
  gate_policy = record { on_fail = reject; on_unverifiable = manual_review; on_warning = reject };
}

abbrev first : ArtifactRef
first = record { artifact_id = text "a1"; sha256 = text "00" }

abbrev second : ArtifactRef
second = record { artifact_id = text "a2"; sha256 = text "01" }

abbrev sharp_first : RuleResult
sharp_first = record {
  rule_id = text "l1_bundle";
  status = pass;
  affected_artifact_ids = text "a1" ∷ [];
  score = none;
}

abbrev blurred_second : RuleResult
blurred_second = record {
  rule_id = text "l1_bundle";
  status = fail;
  affected_artifact_ids = text "a2" ∷ [];
  score = none;
}

abbrev style_both : RuleResult
style_both = record {
  rule_id = text "STYLE_LOW";
  status = pass;
  affected_artifact_ids = text "a1" ∷ text "a2" ∷ [];
  score = none;
}

abbrev report : VerificationReport
report = record {
  artifacts = first ∷ second ∷ [];
  rules = sharpness ∷ style ∷ [];
  results = sharp_first ∷ blurred_second ∷ style_both ∷ [];
}

report_valid : verification_report report ≡ ok report
unfolding verification_report validate_artifacts validate_rules validate_results check_result_refs
    find_rule check_all_rules check_rule_results check_scope item_artifacts set_size
report_valid = refl

abbrev accepted : ArtifactDecision
accepted = record {
  artifact_id = text "a1";
  artifact_status = approved;
  decision_reason = all_required_pass;
  repair_stop_reason = none;
  accepted_with_override = false;
}

decide_first : decide_artifact report (text "a1") none false ≡ ok accepted
unfolding decide_artifact results_affecting_artifact find_rule validate_stop_reason route
    has_manual_policy finish artifact_decision
decide_first = refl

abbrev refused : ArtifactDecision
refused = record accepted {
  artifact_id = text "a2";
  artifact_status = rejected;
  decision_reason = required_gate_failed;
}

decide_second : decide_artifact report (text "a2") none false ≡ ok refused
unfolding decide_artifact results_affecting_artifact find_rule validate_stop_reason route
    has_manual_policy finish artifact_decision
decide_second = refl

sharp-Bears : Bears report.rules (text "a1") report.results sharpness sharp_first
unfolding find_rule
sharp-Bears = record { listed = Memᴰ.head refl; affects = refl; known = refl; applies = refl }

blurred-Bears : Bears report.rules (text "a2") report.results sharpness blurred_second
unfolding find_rule
blurred-Bears = record {
  listed = Memᴰ.tail (Memᴰ.head refl);
  affects = refl;
  known = refl;
  applies = refl;
}

approved_only_if_all_pass_example : sharp_first.status ≡ pass
approved_only_if_all_pass_example =
    approved_only_if_all_pass report (text "a1") none false accepted sharpness sharp_first
      decide_first refl sharp-Bears refl

required_fail_rejects_example : refused.artifact_status ≡ rejected
required_fail_rejects_example =
    required_fail_rejects report (text "a2") none false refused sharpness blurred_second
      decide_second blurred-Bears refl refl

decide_artifact-perm_example :
    decide_artifact report (text "a1") none false
    ≡ decide_artifact
        (record report { results = blurred_second ∷ sharp_first ∷ style_both ∷ [] })
        (text "a1")
        none
        false
decide_artifact-perm_example =
    decide_artifact-perm report (blurred_second ∷ sharp_first ∷ style_both ∷ []) (text "a1") none
      false (Perm.swap _ _ _)

sharpness-IsValidRule : IsValidRule sharpness
unfolding gate_policy rule_definition
sharpness-IsValidRule = record { policy = refl; definition = refl }

style-IsValidRule : IsValidRule style
unfolding gate_policy rule_definition
style-IsValidRule = record { policy = refl; definition = refl }

rules_valid : (r : RuleDefinition) → Memᴰ r report.rules → IsValidRule r
rules_valid r (Memᴰ.head e) = subst IsValidRule (sym e) sharpness-IsValidRule
rules_valid r (Memᴰ.tail (Memᴰ.head e)) = subst IsValidRule (sym e) style-IsValidRule
rules_valid r (Memᴰ.tail (Memᴰ.tail m)) = elim m [ ]

report_covers_example :
    (result : RuleResult) × Bears report.rules (text "a2") report.results style result
report_covers_example =
    report_covers report (text "a2") style report_valid refl (Memᴰ.tail (Memᴰ.head refl)) refl

decide_artifact-total_example :
    (d : ArtifactDecision) × (decide_artifact report (text "a2") none false ≡ ok d)
decide_artifact-total_example =
    decide_artifact-total report (text "a2") sharpness report_valid rules_valid refl
      (Memᴰ.head refl) refl refl
