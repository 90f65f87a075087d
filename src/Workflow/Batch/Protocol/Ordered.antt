-- ===== src/Workflow/Batch/Protocol/Ordered.antt =====
-- The calls of `run_atomic_production_batch`.
use lookfile.Prelude.{refl, Bool, false, none, some, List, [], ◌∷◌, ◌++◌, Result}
use lookfile.Domain.Identifiers.{Sha256}
use lookfile.Verification.RuleModels.{RuleResult, ArtifactDecision}
use lookfile.Verification.Reports.{VerificationReport}
use lookfile.Workflow.Batch.Cohort.{
  BatchPlan, BatchRule, ProductionBatchReservation, ProductionBatchTarget, ProductionBatchCandidate,
  FrozenProductionCohort,
}
use lookfile.Workflow.Batch.Run.{
  ProductionBatchPhase, candidates_ready, cohort_frozen, batch_verified, routed, export_staged,
  completed, BatchPublicationReceipt, record_phase, checkpoint_phase, stage_export, commit_export,
  persist, announce, reach, prepare, verify, route_cohort, export_cohort,
  run_atomic_production_batch,
}
use lookfile.Workflow.Batch.Protocol.{
  Follows, finished, follow, silent-Follows, calling-Follows, Journal, recorded, reached,
  before_commit, guarded, after_commit, IsOrdered, delay, guard,
}

module _ (journal : Journal) (checkpoint : ProductionBatchPhase → Result (Unit {0}))
    (cancelled : ProductionBatchPhase → Bool) where
  persist-Follows :
      (phase : ProductionBatchPhase) (binding : Sha256)
      → Follows (recorded journal phase) (persist journal checkpoint cancelled phase binding)
  persist-Follows phase binding = by_journal journal
    where
      by_journal :
          (j : Journal) → Follows (recorded j phase) (persist j checkpoint cancelled phase binding)
      by_journal none = finished refl
      by_journal (some record_it) =
          calling-Follows (record_phase phase binding) (record_it phase binding)

  announce-Follows :
      (phase : ProductionBatchPhase) (stop : Bool)
      → Follows (checkpoint_phase phase ∷ []) (announce journal checkpoint cancelled phase stop)
  announce-Follows phase stop = calling-Follows (checkpoint_phase phase) _

  reach-Follows :
      (phase : ProductionBatchPhase) (binding : Sha256)
      → Follows (reached journal phase) (reach journal checkpoint cancelled phase binding)
  reach-Follows phase binding =
      follow _ (persist-Follows phase binding) (λ _. announce-Follows phase (cancelled phase))

  module _ (hash_manifest : FrozenProductionCohort → Sha256)
      (hash_result : Sha256 → RuleResult → Sha256)
      (hash_routing : Sha256 → List ArtifactDecision → Sha256)
      (build_candidates : ProductionBatchReservation → Result (List ProductionBatchCandidate))
      (verify_batch : FrozenProductionCohort
        → List ProductionBatchCandidate
        → BatchRule
        → Result RuleResult)
      (stage : FrozenProductionCohort
        → VerificationReport
        → List ArtifactDecision
        → List ProductionBatchCandidate
        → Result (Unit {0}))
      (commit : Result BatchPublicationReceipt) (close : Result (Unit {0})) where
    export_cohort-IsOrdered :
        (candidates : List ProductionBatchCandidate) (manifest : FrozenProductionCohort)
        (binding : Sha256) (report : VerificationReport) (decisions : List ArtifactDecision)
        → IsOrdered
            (reached journal routed ++ stage_export ∷ [])
            (guarded journal)
            (after_commit journal)
            (export_cohort journal checkpoint cancelled hash_manifest hash_result hash_routing
              build_candidates verify_batch stage commit close candidates manifest binding report
              decisions)
    export_cohort-IsOrdered candidates manifest binding report decisions =
        delay _ (reach-Follows routed binding) (λ _.
          delay _ (calling-Follows stage_export (stage manifest report decisions candidates)) (λ _.
            guard close _
              (follow _ (reach-Follows export_staged binding)
                (λ _. calling-Follows commit_export commit))
              (λ publication.
                follow _ (persist-Follows completed publication.bundle_sha256) (λ _.
                  follow {g = []} _ (announce-Follows completed false) (λ _. finished refl)))))

    -- A batch makes its calls in the order of its phases. It raises before its export is staged; or it
    -- raises before the commit has returned, and then its last call closes the staged export; or it
    -- raises after the commit, which nothing undoes; or it returns, and then every call was made.
    pub run_atomic_production_batch-IsOrdered :
        (reservation : ProductionBatchReservation) (target : ProductionBatchTarget)
        (plan : BatchPlan)
        → IsOrdered (before_commit journal) (guarded journal) (after_commit journal) (
            run_atomic_production_batch journal checkpoint cancelled hash_manifest hash_result
              hash_routing build_candidates verify_batch stage commit close reservation target plan)
    unfolding run_atomic_production_batch
    run_atomic_production_batch-IsOrdered reservation target plan =
        delay {f = []} _
          (silent-Follows (
            prepare journal checkpoint cancelled hash_manifest hash_result hash_routing
              build_candidates verify_batch stage commit close reservation target plan))
          (λ (rule, candidates, manifest).
            delay _ (reach-Follows candidates_ready manifest.manifest_sha256) (λ _.
              delay _ (reach-Follows cohort_frozen manifest.manifest_sha256) (λ _.
                delay {f = []} _
                  (silent-Follows (
                    verify journal checkpoint cancelled hash_manifest hash_result hash_routing
                      build_candidates verify_batch stage commit close rule candidates manifest))
                  (λ result.
                    delay _
                      (reach-Follows batch_verified (hash_result manifest.manifest_sha256 result))
                      (λ _.
                        delay {f = []} _
                          (silent-Follows (
                            route_cohort journal checkpoint cancelled hash_manifest hash_result
                              hash_routing build_candidates verify_batch stage commit close plan
                              candidates result))
                          (λ (report, decisions).
                            export_cohort-IsOrdered candidates manifest _ report decisions))))))
