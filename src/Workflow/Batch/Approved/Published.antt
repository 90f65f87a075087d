-- ===== src/Workflow/Batch/Approved/Published.antt =====
-- The published result of `run_atomic_production_batch`.
use lookfile.Prelude.{
  ◌⊎◌, inl, inr, any, any-witness, Bool-cases, ◌==◌, ==→eq, ◌≡◌, ap, ◌∙◌, subst, Bool, true, List,
  Memᴰ, Result, ok, ok_inj, >>=-eq-ok, some, false,
}
use lookfile.Domain.Enums.{artifact_status_eq, approved, pass}
use lookfile.Domain.Identifiers.{Sha256}
use lookfile.Verification.RuleModels.{RuleResult, ArtifactDecision}
use lookfile.Verification.Reports.{VerificationReport, verification_report}
use lookfile.Verification.Routing.Approval.{approved_only_if_all_pass}
use lookfile.Workflow.Batch.Cohort.{
  BatchPlan, BatchRule, ProductionBatchReservation, ProductionBatchTarget, ProductionBatchCandidate,
  FrozenProductionCohort, validate_reservation, validate_candidates, freeze_production_cohort,
  batch_rule, is_batch_rule, cohort_ids,
}
use lookfile.Workflow.Batch.Run.{
  ProductionBatchPhase, candidates_ready, cohort_frozen, batch_verified, routed, export_staged,
  completed, BatchPublicationReceipt, ProductionBatchResult, stage_export, silent, calling, persist,
  announce, reach, publish, final_report, decide_cohort, prepare, verify, route_cohort,
  export_cohort, run_atomic_production_batch,
}
use lookfile.Workflow.Batch.Protocol.{Journal}
use lookfile.Workflow.Batch.Approved.{
  then_on-eq-ok, closing-eq-ok, decide_cohort-mem, decide_candidate-eq-ok, batch_rule-mem, Judged,
  final_report-eq-ok, validate_batch_result-eq-ok, result-Bears,
}

module _ (journal : Journal) (checkpoint : ProductionBatchPhase → Result (Unit {0}))
    (cancelled : ProductionBatchPhase → Bool) (hash_manifest : FrozenProductionCohort → Sha256)
    (hash_result : Sha256 → RuleResult → Sha256)
    (hash_routing : Sha256 → List ArtifactDecision → Sha256)
    (build_candidates : ProductionBatchReservation → Result (List ProductionBatchCandidate))
    (verify_batch : FrozenProductionCohort
      → List ProductionBatchCandidate
      → BatchRule
      → Result RuleResult)
    (stage : FrozenProductionCohort
      → VerificationReport
      → List ArtifactDecision
      → List ProductionBatchCandidate
      → Result (Unit {0}))
    (commit : Result BatchPublicationReceipt) (close : Result (Unit {0})) where
  export_cohort-eq-ok :
      (candidates : List ProductionBatchCandidate) (manifest : FrozenProductionCohort)
      (binding : Sha256) (report : VerificationReport) (decisions : List ArtifactDecision)
      {r : ProductionBatchResult}
      → (export_cohort journal checkpoint cancelled hash_manifest hash_result hash_routing
          build_candidates verify_batch stage commit close candidates manifest binding report
          decisions).1
        ≡ ok r
      → (commit ≡ ok r.publication) × (report ≡ r.report) × (decisions ≡ r.decisions)
  export_cohort-eq-ok candidates manifest binding report decisions {r} h =
      let (_, _, h1) = then_on-eq-ok (reach journal checkpoint cancelled routed binding) _ h in
      let (_, _, h2) =
        then_on-eq-ok (calling stage_export (stage manifest report decisions candidates)) _ h1 in
      let (publication, published, h3) =
        then_on-eq-ok (publish journal checkpoint cancelled binding commit close) _ h2 in
      let (_, _, h4) =
        then_on-eq-ok (persist journal checkpoint cancelled completed publication.bundle_sha256) _
          h3 in
      let (_, _, h5) = then_on-eq-ok (announce journal checkpoint cancelled completed false) _ h4 in
      let guarded = closing-eq-ok close _ published in
      let (_, _, committed) =
        then_on-eq-ok (reach journal checkpoint cancelled export_staged binding) _ guarded in
      (
        committed ∙ ap (λ (x : ProductionBatchResult). ok x.publication) (ok_inj h5),
        ap (λ (x : ProductionBatchResult). x.report) (ok_inj h5),
        ap (λ (x : ProductionBatchResult). x.decisions) (ok_inj h5),
      )

  -- What a returned result stands on
  pub record Published (plan : BatchPlan) (r : ProductionBatchResult) : Type 0 where
    pub rule : BatchRule
    pub candidates : List ProductionBatchCandidate
    pub result : RuleResult
    pub rule_listed : Memᴰ rule plan.rules
    pub rule_fits : is_batch_rule rule ≡ true
    pub rule_required : rule.definition.required ≡ true
    pub result_of_rule : result.rule_id ≡ rule.definition.rule_id
    pub result_of_cohort : result.affected_artifact_ids ≡ cohort_ids candidates
    pub judged : Judged plan candidates result r.report r.decisions
    pub receipt : commit ≡ ok r.publication

  prepare-eq-ok :
      (value : ProductionBatchReservation) (target : ProductionBatchTarget) (plan : BatchPlan)
      (rule : BatchRule) (candidates : List ProductionBatchCandidate)
      (manifest : FrozenProductionCohort)
      → prepare journal checkpoint cancelled hash_manifest hash_result hash_routing build_candidates
          verify_batch stage commit close value target plan
        ≡ ok (rule, candidates, manifest)
      → batch_rule plan target.l2_profile_approval_sha256 target.l3_profile_approval_sha256
        ≡ ok rule
  unfolding prepare
  prepare-eq-ok value target plan rule candidates manifest h =
      let (reservation, _, h1) = >>=-eq-ok (validate_reservation value) _ h in
      let (found, e, h2) =
        >>=-eq-ok
          (batch_rule plan target.l2_profile_approval_sha256 target.l3_profile_approval_sha256) _
          h1 in
      let (built, _, h3) = >>=-eq-ok (build_candidates reservation) _ h2 in
      let (cs, _, h4) = >>=-eq-ok (validate_candidates reservation target plan built) _ h3 in
      let (m, _, h5) =
        >>=-eq-ok (freeze_production_cohort hash_manifest reservation target plan cs) _ h4 in
      e
      ∙ ap (λ (x : BatchRule × List ProductionBatchCandidate × FrozenProductionCohort). ok x.0)
          (ok_inj h5)

  route_cohort-eq-ok :
      (plan : BatchPlan) (candidates : List ProductionBatchCandidate) (result : RuleResult)
      (report : VerificationReport) (decisions : List ArtifactDecision)
      → route_cohort journal checkpoint cancelled hash_manifest hash_result hash_routing
          build_candidates verify_batch stage commit close plan candidates result
        ≡ ok (report, decisions)
      → Judged plan candidates result report decisions
  unfolding route_cohort
  route_cohort-eq-ok plan candidates result report decisions h =
      let (built, made, h1) = >>=-eq-ok (final_report plan candidates result) _ h in
      let (ds, decided, h2) = >>=-eq-ok (decide_cohort built (cohort_ids candidates)) _ h1 in
      let (checked, rules_of, listed) = final_report-eq-ok plan candidates result built made in
      subst
        (λ (x : VerificationReport × List ArtifactDecision). Judged plan candidates result x.0 x.1)
        (ok_inj h2)
        (record { checked = checked; rules_of = rules_of; listed = listed; decided = decided })

  verify-eq-ok :
      (rule : BatchRule) (candidates : List ProductionBatchCandidate)
      (manifest : FrozenProductionCohort) (result : RuleResult)
      → verify journal checkpoint cancelled hash_manifest hash_result hash_routing build_candidates
          verify_batch stage commit close rule candidates manifest
        ≡ ok result
      → (result.rule_id ≡ rule.definition.rule_id)
        × (result.affected_artifact_ids ≡ cohort_ids candidates)
  unfolding verify
  verify-eq-ok rule candidates manifest result h =
      let (given, _, valid) = >>=-eq-ok (verify_batch manifest candidates rule) _ h in
      validate_batch_result-eq-ok rule candidates given result valid

  run-Published :
      (reservation : ProductionBatchReservation) (target : ProductionBatchTarget) (plan : BatchPlan)
      (r : ProductionBatchResult)
      → (run_atomic_production_batch journal checkpoint cancelled hash_manifest hash_result
          hash_routing build_candidates verify_batch stage commit close reservation target plan).1
        ≡ ok r
      → Published plan r
  unfolding run_atomic_production_batch
  run-Published reservation target plan r h =
      let ((rule, candidates, manifest), prepared, h1) =
        then_on-eq-ok
          (silent (
            prepare journal checkpoint cancelled hash_manifest hash_result hash_routing
              build_candidates verify_batch stage commit close reservation target plan))
          _ h in
      let (_, _, h2) =
        then_on-eq-ok (reach journal checkpoint cancelled candidates_ready manifest.manifest_sha256)
          _ h1 in
      let (_, _, h3) =
        then_on-eq-ok (reach journal checkpoint cancelled cohort_frozen manifest.manifest_sha256) _
          h2 in
      let (result, verified, h4) =
        then_on-eq-ok
          (silent (
            verify journal checkpoint cancelled hash_manifest hash_result hash_routing
              build_candidates verify_batch stage commit close rule candidates manifest))
          _ h3 in
      let (_, _, h5) =
        then_on-eq-ok
          (reach journal checkpoint cancelled batch_verified
            (hash_result manifest.manifest_sha256 result))
          _ h4 in
      let ((report, decisions), judged, h6) =
        then_on-eq-ok
          (silent (
            route_cohort journal checkpoint cancelled hash_manifest hash_result hash_routing
              build_candidates verify_batch stage commit close plan candidates result))
          _ h5 in
      let (receipt, same_report, same_decisions) =
        export_cohort-eq-ok candidates manifest _ report decisions h6 in
      let (m, fits, required) =
        batch_rule-mem plan _ _ rule
          (prepare-eq-ok reservation target plan rule candidates manifest prepared) in
      let (of_rule, of_cohort) = verify-eq-ok rule candidates manifest result verified in
      record {
        rule = rule;
        candidates = candidates;
        result = result;
        rule_listed = m;
        rule_fits = fits;
        rule_required = required;
        result_of_rule = of_rule;
        result_of_cohort = of_cohort;
        judged =
            subst (λ d. Judged plan candidates result r.report d) same_decisions
              (subst (λ x. Judged plan candidates result x decisions) same_report
                (route_cohort-eq-ok plan candidates result report decisions judged));
        receipt = receipt;
      }

  passed_or_none :
      (plan : BatchPlan) (r : ProductionBatchResult) (p : Published plan r)
      → (p.result.status ≡ pass) ⊎ (any (λ d. d.artifact_status == approved) r.decisions ≡ false)
  passed_or_none plan r p =
      elim (Bool-cases (any (λ d. d.artifact_status == approved) r.decisions)) [
        | inl a ↦
            let (d, listed, status) =
              any-witness (λ d. d.artifact_status == approved) r.decisions a in
            let (id, k, candidate) = decide_cohort-mem r.report _ p.judged.decided listed in
            let (stop, decided) = decide_candidate-eq-ok r.report id candidate in
            let bears =
              result-Bears plan p.rule p.candidates p.result r.report r.decisions id p.judged
                p.rule_listed p.rule_fits p.result_of_rule p.result_of_cohort k in
            inl (
              approved_only_if_all_pass r.report id (some stop) false d p.rule.definition p.result
                decided (==→eq d.artifact_status approved status) bears p.rule_required)
        | inr n ↦ inr n
      ]

  -- A batch that returns was committed with the receipt that it returns, its report is checked, and the
  -- report has a result for a batch rule of the plan, which is a PASS unless no artifact is approved.
  pub run_atomic_production_batch-approved :
      (reservation : ProductionBatchReservation) (target : ProductionBatchTarget) (plan : BatchPlan)
      (r : ProductionBatchResult)
      → (run_atomic_production_batch journal checkpoint cancelled hash_manifest hash_result
          hash_routing build_candidates verify_batch stage commit close reservation target plan).1
        ≡ ok r
      → (commit ≡ ok r.publication)
        × (verification_report r.report ≡ ok r.report)
        × ((rule : BatchRule) × (result : RuleResult) × Memᴰ rule plan.rules
            × (is_batch_rule rule ≡ true)
            × Memᴰ result r.report.results
            × (result.rule_id ≡ rule.definition.rule_id)
            × ((result.status ≡ pass)
                ⊎ (any (λ d. d.artifact_status == approved) r.decisions ≡ false)))
  run_atomic_production_batch-approved reservation target plan r h =
      let p = run-Published reservation target plan r h in
      (
        p.receipt,
        p.judged.checked,
        (
          p.rule,
          p.result,
          p.rule_listed,
          p.rule_fits,
          p.judged.listed,
          p.result_of_rule,
          passed_or_none plan r p,
        ),
      )
