-- ===== src/Workflow/Batch/Run.antt =====
-- `run_atomic_production_batch` of src/specstyle/workflow/production_batch.py, with the calls that it
-- makes of the journal, the checkpoint callback, the publisher and the staged publication. What
-- those return or raise are parameters.
use lookfile.Prelude.{
  Bool, false, not, ◌&&◌, ◌||◌, Option, none, some, List, [], ◌∷◌, ◌++◌, ◌==◌, ◌!=◌, nat_eq,
  list_eq, Result, ok, err, other_error, refuse_if, ◌>>=◌, ◌>>◌, any, map, contains, if◌then◌else◌,
}
use lookfile.Domain.Text.{Text}
use lookfile.Domain.Enums.{
  RuleStatus, pass, warning, rule_status_eq, applicable, static_applicability_eq, RepairStopReason,
  no_improvement, pass_all_required,
}
use lookfile.Domain.Identifiers.{ArtifactId, Sha256}
use lookfile.Verification.RuleModels.{RuleDefinition, RuleResult, ArtifactDecision}
use lookfile.Verification.Reports.{VerificationReport, verification_report, find_rule, results_of}
use lookfile.Verification.Routing.{decide_artifact}
use lookfile.Repair.Context.{applicable_rule_definitions}
use lookfile.Workflow.Batch.Cohort.{
  BatchPlan, BatchRule, ProductionBatchReservation, ProductionBatchTarget, ProductionBatchCandidate,
  FrozenProductionCohort, validate_reservation, batch_rule, item_definitions, cohort_ids,
  validate_candidates, freeze_production_cohort,
}

pub data ProductionBatchPhase : Type 0 where
  candidates_ready cohort_frozen batch_verified routed export_staged completed :
      ProductionBatchPhase

pub record BatchPublicationReceipt : Type 0 where
  pub bundle_name : Text
  pub bundle_sha256 : Sha256

pub record ProductionBatchResult : Type 0 where
  pub manifest : FrozenProductionCohort
  pub report : VerificationReport
  pub decisions : List ArtifactDecision
  pub publication : BatchPublicationReceipt

-- The part of `_validate_batch_result` about the score
abbrev score_fits : RuleResult → Bool
score_fits result = elim result.score [
  | none ↦ result.status == RuleStatus.unverifiable
  | some _ ↦ result.status != RuleStatus.unverifiable
]

-- `_validate_batch_result`
unfoldable pub validate_batch_result :
    BatchRule → List ProductionBatchCandidate → RuleResult → Result RuleResult
validate_batch_result rule candidates result = do
  refuse_if
      (result.rule_id != rule.definition.rule_id
        || result.affected_artifact_ids != cohort_ids candidates
        || result.status == warning
        || not (score_fits result))
      "invalid production batch result"
  ok result

-- The three loops of the comprehension of `_final_report`
abbrev pub results_for : Text → List ProductionBatchCandidate → List RuleResult
results_for rule_id [] = []
results_for rule_id (c ∷ cs) = results_of rule_id c.item_report.results ++ results_for rule_id cs

abbrev pub item_results : List RuleDefinition → List ProductionBatchCandidate → List RuleResult
item_results [] candidates = []
item_results (rule ∷ rules) candidates =
    results_for rule.rule_id candidates ++ item_results rules candidates

-- `_final_report`
unfoldable pub final_report :
    BatchPlan → List ProductionBatchCandidate → RuleResult → Result VerificationReport
final_report plan candidates batch_result = verification_report (record {
  artifacts = map (λ (c : ProductionBatchCandidate). c.artifact.ref) candidates;
  rules = applicable_rule_definitions plan;
  results = item_results (item_definitions plan) candidates ++ batch_result ∷ [];
})

-- One round of the comprehension of `_stop_reason`; a rule that the report lacks is a `KeyError`.
abbrev pub required_step :
    Option RuleDefinition → RuleResult → Result (List RuleResult) → Result (List RuleResult)
required_step none result rest = err other_error
required_step (some rule) result rest = do
  tail ← rest
  ok (if rule.required && rule.applicability == applicable then result ∷ tail else tail)

unfoldable pub required_results :
    List RuleDefinition → ArtifactId → List RuleResult → Result (List RuleResult)
required_results rules artifact_id [] = ok []
required_results rules artifact_id (result ∷ results) =
    let rest = required_results rules artifact_id results in
    if contains artifact_id result.affected_artifact_ids
    then required_step (find_rule result.rule_id rules) result rest
    else rest

abbrev pub reason_of : List RuleResult → RepairStopReason
reason_of required =
    if any (λ r. r.status == RuleStatus.unverifiable) required
    then RepairStopReason.unverifiable
    else if any (λ r. r.status != pass) required
    then no_improvement
    else pass_all_required

-- `_stop_reason`
unfoldable pub cohort_stop_reason : VerificationReport → ArtifactId → Result RepairStopReason
cohort_stop_reason report artifact_id = do
  required ← required_results report.rules artifact_id report.results
  ok (reason_of required)

-- `decide_artifact` for one candidate and for each
unfoldable pub decide_candidate : VerificationReport → ArtifactId → Result ArtifactDecision
decide_candidate report artifact_id = do
  reason ← cohort_stop_reason report artifact_id
  decide_artifact report artifact_id (some reason) false

unfoldable pub decide_cohort : VerificationReport → List ArtifactId → Result (List ArtifactDecision)
decide_cohort report [] = ok []
decide_cohort report (id ∷ ids) =
    let rest = decide_cohort report ids in
    do decision ← decide_candidate report id; decisions ← rest; ok (decision ∷ decisions)

-- The calls that a batch makes, each noted when it is made, whether it returns or raises
pub data Call : Type 0 where
  record_phase : ProductionBatchPhase → Sha256 → Call
  checkpoint_phase : ProductionBatchPhase → Call
  stage_export commit_export close_export : Call

abbrev pub Traced : Type 0 → Type 0
Traced A = List Call × Result A

abbrev pub then_on : {A B : Type 0} → Traced A → (A → Traced B) → Traced B
then_on (calls, err x) next = (calls, err x)
then_on (calls, ok a) next = (calls ++ (next a).0, (next a).1)

abbrev pub silent : {A : Type 0} → Result A → Traced A
silent r = ([], r)

abbrev pub calling : {A : Type 0} → Call → Result A → Traced A
calling call r = (call ∷ [], r)

-- `except BaseException: staged.close(); raise`, where an error of `close` replaces the other
abbrev pub closing : {A : Type 0} → Result (Unit {0}) → Traced A → Traced A
closing close (calls, ok a) = (calls, ok a)
closing (ok tt) (calls, err x) = (calls ++ close_export ∷ [], err x)
closing (err y) (calls, err x) = (calls ++ close_export ∷ [], err y)

module _ (journal : Option (ProductionBatchPhase → Sha256 → Result (Unit {0})))
    (checkpoint : ProductionBatchPhase → Result (Unit {0}))
    (cancelled : ProductionBatchPhase → Bool) where
  -- `_persist`
  abbrev pub persist : ProductionBatchPhase → Sha256 → Traced (Unit {0})
  persist phase binding = elim journal [
    | none ↦ silent (ok tt)
    | some record_it ↦ calling (record_phase phase binding) (record_it phase binding)
  ]

  -- `_checkpoint`; `cancelled phase` is the answer after the callback of the phase.
  abbrev pub announce : ProductionBatchPhase → Bool → Traced (Unit {0})
  announce phase stop =
      calling (checkpoint_phase phase)
        (checkpoint phase >> refuse_if stop "production batch cancelled")

  -- The pair of calls that ends a phase
  abbrev pub reach : ProductionBatchPhase → Sha256 → Traced (Unit {0})
  reach phase binding = then_on (persist phase binding) (λ _. announce phase (cancelled phase))

  -- The `try` block
  abbrev pub publish :
      Sha256 → Result BatchPublicationReceipt → Result (Unit {0}) → Traced BatchPublicationReceipt
  publish binding commit close =
      closing close (then_on (reach export_staged binding) (λ _. calling commit_export commit))

  module _ (hash_manifest : FrozenProductionCohort → Sha256)
      (hash_result : Sha256 → RuleResult → Sha256)
      (hash_routing : Sha256 → List ArtifactDecision → Sha256)
      (build_candidates : ProductionBatchReservation → Result (List ProductionBatchCandidate))
      (verify_batch : FrozenProductionCohort
        → List ProductionBatchCandidate
        → BatchRule
        → Result RuleResult)
      (stage : FrozenProductionCohort
        → VerificationReport
        → List ArtifactDecision
        → List ProductionBatchCandidate
        → Result (Unit {0}))
      (commit : Result BatchPublicationReceipt) (close : Result (Unit {0})) where
    -- The start of a run, up to the manifest
    unfoldable pub prepare :
        ProductionBatchReservation
        → ProductionBatchTarget
        → BatchPlan
        → Result (BatchRule × List ProductionBatchCandidate × FrozenProductionCohort)
    prepare value target plan = do
      reservation ← validate_reservation value
      rule ← batch_rule plan target.l2_profile_approval_sha256 target.l3_profile_approval_sha256
      built ← build_candidates reservation
      candidates ← validate_candidates reservation target plan built
      manifest ← freeze_production_cohort hash_manifest reservation target plan candidates
      ok (rule, candidates, manifest)

    -- The verification of the frozen cohort
    unfoldable pub verify :
        BatchRule → List ProductionBatchCandidate → FrozenProductionCohort → Result RuleResult
    verify rule candidates manifest = do
      result ← verify_batch manifest candidates rule
      validate_batch_result rule candidates result

    unfoldable pub route_cohort :
        BatchPlan
        → List ProductionBatchCandidate
        → RuleResult
        → Result (VerificationReport × List ArtifactDecision)
    route_cohort plan candidates result = do
      report ← final_report plan candidates result
      decisions ← decide_cohort report (cohort_ids candidates)
      ok (report, decisions)

    -- From the routed phase on
    abbrev pub export_cohort :
        List ProductionBatchCandidate
        → FrozenProductionCohort
        → Sha256
        → VerificationReport
        → List ArtifactDecision
        → Traced ProductionBatchResult
    export_cohort candidates manifest binding report decisions =
        then_on (reach routed binding) (λ _.
          then_on (calling stage_export (stage manifest report decisions candidates)) (λ _.
            then_on (publish binding commit close) (λ publication.
              then_on (persist completed publication.bundle_sha256) (λ _.
                then_on (announce completed false) (λ _. silent (
                  ok (record {
                    manifest = manifest;
                    report = report;
                    decisions = decisions;
                    publication = publication;
                  })))))))

    abbrev pub routed_export :
        List ProductionBatchCandidate
        → FrozenProductionCohort
        → Sha256
        → VerificationReport × List ArtifactDecision
        → Traced ProductionBatchResult
    routed_export candidates manifest binding (report, decisions) =
        export_cohort candidates manifest (hash_routing binding decisions) report decisions

    -- From the verified phase on
    abbrev pub judge_cohort :
        BatchPlan
        → List ProductionBatchCandidate
        → FrozenProductionCohort
        → RuleResult
        → Traced ProductionBatchResult
    judge_cohort plan candidates manifest result =
        then_on (reach batch_verified (hash_result manifest.manifest_sha256 result)) (λ _.
          then_on (silent (route_cohort plan candidates result))
            (routed_export candidates manifest (hash_result manifest.manifest_sha256 result)))

    abbrev pub run_frozen :
        BatchPlan
        → BatchRule × List ProductionBatchCandidate × FrozenProductionCohort
        → Traced ProductionBatchResult
    run_frozen plan (rule, candidates, manifest) =
        then_on (reach candidates_ready manifest.manifest_sha256) (λ _.
          then_on (reach cohort_frozen manifest.manifest_sha256) (λ _.
            then_on (silent (verify rule candidates manifest))
              (judge_cohort plan candidates manifest)))

    unfoldable pub run_atomic_production_batch :
        ProductionBatchReservation
        → ProductionBatchTarget
        → BatchPlan
        → Traced ProductionBatchResult
    run_atomic_production_batch reservation target plan =
        then_on (silent (prepare reservation target plan)) (run_frozen plan)
