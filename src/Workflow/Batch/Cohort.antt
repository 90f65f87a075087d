-- ===== src/Workflow/Batch/Cohort.antt =====
-- src/specstyle/workflow/production_batch.py: what a batch reserves and freezes, and the checks of its
-- plan and of its candidates.
use lookfile.Prelude.{
  ℕ, ◌≡◌, ◌↔◌, arith, Bool, true, false, not, ◌&&◌, ◌||◌, Option, none, some, List, [], ◌∷◌, Eq,
  ◌==◌, ◌!=◌, nat_eq, list_eq, option_eq, bool_eq, list_beq_iff, Result, ok, err, domain_error,
  refuse_if, ◌>>=◌, ◌>>◌, ltb, length, map, all, select, is_empty, has_duplicates,
}
use lookfile.Domain.Text.{Text, text}
use lookfile.Domain.Enums.{
  applicable, static_applicability_eq, batch, item, rule_scope_eq, l2, l3, rule_level_eq,
}
use lookfile.Domain.Identifiers.{Identifier, ArtifactId, Sha256}
use lookfile.Domain.Artifacts.{artifact_ref_eq}
use lookfile.Verification.RuleModels.{RuleDefinition}
use lookfile.Verification.Reports.{VerificationReport}
use lookfile.Repair.Requests.{CompiledRule, CompiledVerificationPlan, rule_definition_eq}
use lookfile.Repair.Context.{applicable_rule_definitions}
use lookfile.Repair.History.{GeneratedArtifact}

pub record ResourcePin : Type 0 where
  pub id : Text
  pub revision : Text
  pub sha256 : Sha256

abbrev resource_pin_beq : ResourcePin → ResourcePin → Bool
resource_pin_beq a b = a.id == b.id && a.revision == b.revision && a.sha256 == b.sha256

pub resource_pin_beq_iff : (a b : ResourcePin) → (resource_pin_beq a b ≡ true) ↔ (a ≡ b)
resource_pin_beq_iff a b = ground (
  arith,
  list_beq_iff a.id b.id,
  list_beq_iff a.revision b.revision,
  list_beq_iff a.sha256 b.sha256,
)

instance abbrev pub resource_pin_eq : Eq ResourcePin
resource_pin_eq = record { beq = resource_pin_beq; beq_iff = resource_pin_beq_iff }

-- The fields of `CompiledThresholdBinding` that the batch reads
pub record ThresholdBinding : Type 0 where
  pub status : Text
  pub operator : Text
  pub profile_pin : ResourcePin
  pub production_approval_sha256 : Option Sha256

-- The fields of a compiled rule and of a plan that repair only compares and the batch reads
pub data Detail : Type 0 where
  rule_detail : Option Identifier → Option ThresholdBinding → Detail
  plan_detail : Text → Option ResourcePin → Detail

abbrev pub metric_id : Detail → Option Identifier
metric_id (rule_detail metric binding) = metric
metric_id (plan_detail status pin) = none

abbrev pub threshold_binding : Detail → Option ThresholdBinding
threshold_binding (rule_detail metric binding) = binding
threshold_binding (plan_detail status pin) = none

abbrev l3_status : Detail → Text
l3_status (rule_detail metric binding) = []
l3_status (plan_detail status pin) = status

abbrev l3_threshold_profile_pin : Detail → Option ResourcePin
l3_threshold_profile_pin (rule_detail metric binding) = none
l3_threshold_profile_pin (plan_detail status pin) = pin

abbrev pub BatchPlan : Type 0
BatchPlan = CompiledVerificationPlan Detail

abbrev pub BatchRule : Type 0
BatchRule = CompiledRule Detail

pub record ProductionBatchTarget : Type 0 where
  pub target_cell_sha256 : Sha256
  pub compiled_spec_sha256 : Sha256
  pub l2_profile_approval_sha256 : Sha256
  pub l3_profile_approval_sha256 : Sha256
  pub runtime_contract_sha256 : Sha256

pub record ProductionBatchReservation : Type 0 where
  pub batch_id : Identifier
  pub target_cell_sha256 : Sha256
  pub member_ids : List Identifier

-- `fresh` is the identifier that `uuid4` gives.
unfoldable pub reserve_production_batch :
    Identifier → Sha256 → List Identifier → Option Identifier → Result ProductionBatchReservation
reserve_production_batch fresh target member_ids batch_id = do
  refuse_if (is_empty member_ids || has_duplicates member_ids)
      "invalid production batch reservation"
  ok (record { batch_id = selected batch_id; target_cell_sha256 = target; member_ids = member_ids })
  where
    selected : Option Identifier → Identifier
    selected none = fresh
    selected (some id) = id

-- `_validate_reservation`: it is reserved again.
unfoldable pub validate_reservation : ProductionBatchReservation → Result ProductionBatchReservation
validate_reservation value =
    reserve_production_batch value.batch_id value.target_cell_sha256 value.member_ids
      (some value.batch_id)

pub record ProductionBatchCandidate : Type 0 where
  pub member_id : Identifier
  pub seed : ℕ
  pub artifact : GeneratedArtifact
  pub item_report : VerificationReport
  pub compiled_spec_sha256 : Sha256

unfoldable pub production_batch_candidate :
    (List ℕ → Sha256) → ProductionBatchCandidate → Result ProductionBatchCandidate
production_batch_candidate hash_bytes c = do
  refuse_if
      (not (
        ltb c.seed 9223372036854775808
        && c.item_report.artifacts == c.artifact.ref ∷ []
        && hash_bytes c.artifact.content == c.artifact.ref.sha256))
      "invalid production batch candidate"
  ok c

pub record FrozenProductionCohort : Type 0 where
  pub batch_id : Identifier
  pub target_cell_sha256 : Sha256
  pub expected_count : ℕ
  pub member_ids : List Identifier
  pub artifact_ids : List ArtifactId
  pub artifact_sha256s : List Sha256
  pub seeds : List ℕ
  pub compiled_spec_sha256 : Sha256
  pub l2_profile_approval_sha256 : Sha256
  pub l3_profile_approval_sha256 : Sha256
  pub runtime_contract_sha256 : Sha256
  pub manifest_sha256 : Sha256

-- The tests that both gate rules of a plan share: the rule is required, and its threshold is validated,
-- with the operator and the approval.
abbrev pub is_approved : Text → Sha256 → Option ThresholdBinding → Bool
is_approved operator approval none = false
is_approved operator approval (some binding) =
    binding.status == text "VALIDATED"
    && binding.operator == operator
    && binding.production_approval_sha256 == some approval

abbrev pub is_pinned : Option ResourcePin → Option ThresholdBinding → Bool
is_pinned pin none = false
is_pinned pin (some binding) = some binding.profile_pin == pin

abbrev pub the_rule : List BatchRule → Result BatchRule
the_rule (rule ∷ []) = ok rule
the_rule _ = err (domain_error "invalid production batch plan")

abbrev pub is_batch_rule : BatchRule → Bool
is_batch_rule rule = rule.definition.scope == batch && rule.definition.applicability == applicable

abbrev pub is_l3_rule : BatchRule → Bool
is_l3_rule rule =
    rule.definition.level == l3
    && rule.definition.scope == item
    && rule.definition.applicability == applicable
    && metric_id rule.binding == some (text "structure_edge_similarity")

-- `_l3_rule`
unfoldable pub l3_rule : BatchPlan → Sha256 → Result BatchRule
l3_rule plan approval = do
  rule ← the_rule (select is_l3_rule plan.rules)
  refuse_if
      (not (
        l3_status plan.binding == text "APPLICABLE"
        && rule.definition.required
        && is_approved (text ">=") approval (threshold_binding rule.binding)
        && is_pinned (l3_threshold_profile_pin plan.binding) (threshold_binding rule.binding)))
      "invalid production batch plan"
  ok rule

-- `_batch_rule`
unfoldable pub batch_rule : BatchPlan → Sha256 → Sha256 → Result BatchRule
batch_rule plan l2_approval l3_approval = do
  refuse_if (plan.output_profile != text "xhs_grid") "invalid production batch plan"
  rule ← the_rule (select is_batch_rule plan.rules)
  refuse_if
      (not (
        rule.definition.required
        && rule.definition.level == l2
        && metric_id rule.binding == some (text "batch_style_consistency")
        && is_approved (text "<=") l2_approval (threshold_binding rule.binding)))
      "invalid production batch plan"
  _ ← l3_rule plan l3_approval
  ok rule

-- `_item_definitions`
unfoldable pub item_definitions : BatchPlan → List RuleDefinition
item_definitions plan =
    select (λ definition. definition.scope == item) (applicable_rule_definitions plan)

abbrev pub cohort_ids : List ProductionBatchCandidate → List ArtifactId
cohort_ids = map (λ c. c.artifact.ref.artifact_id)

abbrev pub cohort_sha256s : List ProductionBatchCandidate → List Sha256
cohort_sha256s = map (λ c. c.artifact.ref.sha256)

-- `_validate_candidates`
unfoldable pub validate_candidates :
    ProductionBatchReservation
    → ProductionBatchTarget
    → BatchPlan
    → List ProductionBatchCandidate
    → Result (List ProductionBatchCandidate)
validate_candidates reservation target plan candidates = do
  refuse_if
      (not (
        length candidates == length reservation.member_ids
        && map (λ c. c.member_id) candidates == reservation.member_ids
        && not (has_duplicates (cohort_ids candidates))
        && not (has_duplicates (cohort_sha256s candidates))
        && all (λ c. c.compiled_spec_sha256 == target.compiled_spec_sha256) candidates
        && all (λ c. c.item_report.rules == item_definitions plan) candidates))
      "invalid production batch cohort"
  ok candidates

-- `hash_manifest` is the SHA-256 of the document of `_manifest_material`, from the fields it holds: the
-- manifest without its own hash, which is empty here.
unfoldable pub freeze_production_cohort :
    (FrozenProductionCohort → Sha256)
    → ProductionBatchReservation
    → ProductionBatchTarget
    → BatchPlan
    → List ProductionBatchCandidate
    → Result FrozenProductionCohort
freeze_production_cohort hash_manifest value target plan built = do
  reservation ← validate_reservation value
  refuse_if (reservation.target_cell_sha256 != target.target_cell_sha256)
      "invalid production batch target"
  rule ← batch_rule plan target.l2_profile_approval_sha256 target.l3_profile_approval_sha256
  candidates ← validate_candidates reservation target plan built
  ok (manifest reservation candidates (hash_manifest (manifest reservation candidates [])))
  where
    manifest :
        ProductionBatchReservation → List ProductionBatchCandidate → Sha256 → FrozenProductionCohort
    manifest reservation candidates hash = record {
      batch_id = reservation.batch_id;
      target_cell_sha256 = target.target_cell_sha256;
      expected_count = length candidates;
      member_ids = reservation.member_ids;
      artifact_ids = cohort_ids candidates;
      artifact_sha256s = cohort_sha256s candidates;
      seeds = map (λ c. c.seed) candidates;
      compiled_spec_sha256 = target.compiled_spec_sha256;
      l2_profile_approval_sha256 = target.l2_profile_approval_sha256;
      l3_profile_approval_sha256 = target.l3_profile_approval_sha256;
      runtime_contract_sha256 = target.runtime_contract_sha256;
      manifest_sha256 = hash;
    }
