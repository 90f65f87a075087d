-- ===== src/Examples/Batch.antt =====
-- A production batch of one artifact.
use lookfile.Prelude.{
  ◌⊎◌, any, ◌==◌, ◌≡◌, refl, subst, sym, true, false, some, List, [], ◌∷◌, nat_eq, list_eq,
  option_eq, Memᴰ, Result, ok, err, domain_error, contains,
}
use lookfile.Domain.Text.{text}
use lookfile.Domain.Float.{finite}
use lookfile.Domain.Enums.{
  artifact_status_eq, applicable, batch, item, l2, l3, pass, approved, all_required_pass,
  pass_all_required,
}
use lookfile.Domain.Identifiers.{Sha256, ArtifactId}
use lookfile.Domain.Artifacts.{ArtifactRef}
use lookfile.Verification.RuleModels.{
  GatePolicy, RuleDefinition, RuleResult, ArtifactDecision, reject, artifact_decision, gate_policy,
  rule_definition,
}
use lookfile.Verification.Reports.{
  VerificationReport, verification_report, artifact_ids, find_rule, check_result_refs,
  item_artifacts, set_size, check_scope, check_rule_results, check_all_rules, validate_results,
  validate_artifacts, validate_rules,
}
use lookfile.Verification.Routing.{
  decide_artifact, results_affecting_artifact, has_manual_policy, validate_stop_reason, route,
  finish,
}
use lookfile.Verification.Routing.Totality.{IsValidRule}
use lookfile.Repair.Context.{insert, sorted, applicable_rule_definitions}
use lookfile.Workflow.Batch.Cohort.{
  BatchPlan, BatchRule, rule_detail, plan_detail, ResourcePin, ProductionBatchReservation,
  ProductionBatchTarget, ProductionBatchCandidate, FrozenProductionCohort, reserve_production_batch,
  validate_reservation, l3_rule, batch_rule, is_batch_rule, item_definitions, validate_candidates,
  freeze_production_cohort,
}
use lookfile.Workflow.Batch.Run.{
  ProductionBatchResult, BatchPublicationReceipt, validate_batch_result, final_report,
  required_results, cohort_stop_reason, decide_candidate, decide_cohort, Traced, prepare, verify,
  route_cohort, run_atomic_production_batch,
}
use lookfile.Workflow.Batch.Protocol.{Journal, IsOrdered, before_commit, guarded, after_commit}
use lookfile.Workflow.Batch.Protocol.Ordered.{run_atomic_production_batch-IsOrdered}
use lookfile.Workflow.Batch.Reasons.{decide_cohort-total}
use lookfile.Workflow.Batch.Approved.Published.{run_atomic_production_batch-approved}

abbrev strict : GatePolicy
strict = record { on_fail = reject; on_unverifiable = reject; on_warning = reject }

abbrev consistency : RuleDefinition
consistency = record {
  rule_id = text "l2.batch";
  level = l2;
  scope = batch;
  required = true;
  applicability = applicable;
  gate_policy = strict;
}

abbrev edges : RuleDefinition
edges = record {
  rule_id = text "l3.edges";
  level = l3;
  scope = item;
  required = true;
  applicability = applicable;
  gate_policy = strict;
}

abbrev pin : ResourcePin
pin = record { id = text "profile"; revision = text "1"; sha256 = text "00" }

abbrev consistency_rule : BatchRule
consistency_rule = record {
  definition = consistency;
  binding = rule_detail (some (text "batch_style_consistency")) (
      some (record {
        status = text "VALIDATED";
        operator = text "<=";
        profile_pin = pin;
        production_approval_sha256 = some (text "l2");
      }));
  priority = 0;
  affected_by_actions = [];
}

abbrev edges_rule : BatchRule
edges_rule = record {
  definition = edges;
  binding = rule_detail (some (text "structure_edge_similarity")) (
      some (record {
        status = text "VALIDATED";
        operator = text ">=";
        profile_pin = pin;
        production_approval_sha256 = some (text "l3");
      }));
  priority = 1;
  affected_by_actions = [];
}

abbrev plan : BatchPlan
plan = record {
  output_profile = text "xhs_grid";
  binding = plan_detail (text "APPLICABLE") (some pin);
  rules = edges_rule ∷ consistency_rule ∷ [];
}

abbrev reservation : ProductionBatchReservation
reservation = record {
  batch_id = text "batch-1";
  target_cell_sha256 = text "cell";
  member_ids = text "m1" ∷ [];
}

abbrev target : ProductionBatchTarget
target = record {
  target_cell_sha256 = text "cell";
  compiled_spec_sha256 = text "spec";
  l2_profile_approval_sha256 = text "l2";
  l3_profile_approval_sha256 = text "l3";
  runtime_contract_sha256 = text "runtime";
}

abbrev image : ArtifactRef
image = record { artifact_id = text "a1"; sha256 = text "h1" }

abbrev passing : RuleDefinition → RuleResult
passing rule = record {
  rule_id = rule.rule_id;
  status = pass;
  affected_artifact_ids = text "a1" ∷ [];
  score = some (finite false 1);
}

abbrev member : ProductionBatchCandidate
member = record {
  member_id = text "m1";
  seed = 7;
  artifact = record {
    ref = image;
    content = [];
    request_hash = text "q";
    generation_fingerprint = text "f";
  };
  item_report = record { artifacts = image ∷ []; rules = edges ∷ []; results = passing edges ∷ [] };
  compiled_spec_sha256 = text "spec";
}

abbrev hash_manifest : FrozenProductionCohort → Sha256
hash_manifest manifest = text "manifest"

abbrev hash_result : Sha256 → RuleResult → Sha256
hash_result binding result = text "result"

abbrev hash_routing : Sha256 → List ArtifactDecision → Sha256
hash_routing binding decisions = text "routing"

abbrev receipt : BatchPublicationReceipt
receipt = record { bundle_name = text "bundle"; bundle_sha256 = text "b1" }

abbrev journal : Journal
journal = some (λ phase binding. ok tt)

abbrev run : Result BatchPublicationReceipt → Traced ProductionBatchResult
run commit =
    run_atomic_production_batch journal (λ phase. ok tt) (λ phase. false) hash_manifest hash_result
      hash_routing (λ r. ok (member ∷ [])) (λ manifest candidates rule. ok (passing consistency))
      (λ manifest report decisions candidates. ok tt) commit (ok tt) reservation target plan

abbrev whole : VerificationReport
whole = record {
  artifacts = image ∷ [];
  rules = consistency ∷ edges ∷ [];
  results = passing edges ∷ passing consistency ∷ [];
}

abbrev decision : ArtifactDecision
decision = record {
  artifact_id = text "a1";
  artifact_status = approved;
  decision_reason = all_required_pass;
  repair_stop_reason = some pass_all_required;
  accepted_with_override = false;
}

abbrev returned : ProductionBatchResult
returned = record {
  manifest = record {
    batch_id = text "batch-1";
    target_cell_sha256 = text "cell";
    expected_count = 1;
    member_ids = text "m1" ∷ [];
    artifact_ids = text "a1" ∷ [];
    artifact_sha256s = text "h1" ∷ [];
    seeds = 7 ∷ [];
    compiled_spec_sha256 = text "spec";
    l2_profile_approval_sha256 = text "l2";
    l3_profile_approval_sha256 = text "l3";
    runtime_contract_sha256 = text "runtime";
    manifest_sha256 = text "manifest";
  };
  report = whole;
  decisions = decision ∷ [];
  publication = receipt;
}

whole_checked : verification_report whole ≡ ok whole
unfolding verification_report validate_artifacts validate_rules validate_results check_result_refs
    find_rule check_all_rules check_rule_results check_scope item_artifacts set_size
whole_checked = refl

run-returned : (run (ok receipt)).1 ≡ ok returned
unfolding run_atomic_production_batch prepare verify route_cohort validate_reservation
    reserve_production_batch batch_rule l3_rule item_definitions applicable_rule_definitions sorted
    insert validate_candidates freeze_production_cohort validate_batch_result final_report
    verification_report validate_artifacts validate_rules validate_results check_result_refs
    find_rule check_all_rules check_rule_results check_scope item_artifacts set_size decide_cohort
    decide_candidate cohort_stop_reason required_results decide_artifact results_affecting_artifact
    has_manual_policy validate_stop_reason route finish artifact_decision
run-returned = refl

run_atomic_production_batch-approved_example :
    (ok receipt ≡ ok receipt)
    × (verification_report whole ≡ ok whole)
    × ((rule : BatchRule) × (result : RuleResult) × Memᴰ rule plan.rules
        × (is_batch_rule rule ≡ true)
        × Memᴰ result whole.results
        × (result.rule_id ≡ rule.definition.rule_id)
        × ((result.status ≡ pass)
            ⊎ (any (λ d. d.artifact_status == approved) returned.decisions ≡ false)))
run_atomic_production_batch-approved_example =
    run_atomic_production_batch-approved journal (λ phase. ok tt) (λ phase. false) hash_manifest
      hash_result hash_routing (λ r. ok (member ∷ []))
      (λ manifest candidates rule. ok (passing consistency))
      (λ manifest report decisions candidates. ok tt) (ok receipt) (ok tt) reservation target plan
      returned run-returned

run_atomic_production_batch-IsOrdered_example :
    IsOrdered
      (before_commit journal)
      (guarded journal)
      (after_commit journal)
      (run (err (domain_error "invalid export")))
run_atomic_production_batch-IsOrdered_example =
    run_atomic_production_batch-IsOrdered journal (λ phase. ok tt) (λ phase. false) hash_manifest
      hash_result hash_routing (λ r. ok (member ∷ []))
      (λ manifest candidates rule. ok (passing consistency))
      (λ manifest report decisions candidates. ok tt) (err (domain_error "invalid export")) (ok tt)
      reservation target plan

rules_valid : (r : RuleDefinition) → Memᴰ r whole.rules → IsValidRule r
unfolding gate_policy rule_definition
rules_valid r (Memᴰ.head e) =
    subst IsValidRule (sym e) (record { policy = refl; definition = refl })
rules_valid r (Memᴰ.tail (Memᴰ.head e)) =
    subst IsValidRule (sym e) (record { policy = refl; definition = refl })
rules_valid r (Memᴰ.tail (Memᴰ.tail m)) = elim m [ ]

all_known :
    (id : ArtifactId) → Memᴰ id (text "a1" ∷ []) → contains id (artifact_ids whole.artifacts) ≡ true
all_known id (Memᴰ.head e) =
    subst (λ i. contains i (artifact_ids whole.artifacts) ≡ true) (sym e) refl
all_known id (Memᴰ.tail m) = elim m [ ]

decide_cohort-total_example :
    (ds : List ArtifactDecision) × (decide_cohort whole (text "a1" ∷ []) ≡ ok ds)
decide_cohort-total_example =
    decide_cohort-total whole (text "a1" ∷ []) consistency whole_checked rules_valid all_known
      (Memᴰ.head refl) refl refl
