-- ===== src/Workflow/Batch/Approved.antt =====
-- What a batch that returns says of its decisions.
pub mod Published
use lookfile.Prelude.{
  ◌≡◌, refl, sym, ap, ◌∙◌, subst, arith, Bool, true, false, not, ◌&&◌, ◌||◌, Option, none, some,
  List, [], ◌∷◌, ◌++◌, Memᴰ, map, ◌==◌, ◌!=◌, ==→eq, nat_eq, list_eq, option_eq, Result, ok, err,
  ok_inj, after_guard, >>-eq-ok, >>=-eq-ok, refuse_if, ◌>>◌, ◌>>=◌, contains, select, select-mem,
  mem-select, mem-contains, has_duplicates, true_of_not,
}
use lookfile.Domain.Enums.{
  applicable, static_applicability_eq, batch, rule_scope_eq, approved, pass, RepairStopReason,
  rule_status_eq,
}
use lookfile.Domain.Identifiers.{ArtifactId, Sha256}
use lookfile.Verification.RuleModels.{RuleDefinition, RuleResult, ArtifactDecision}
use lookfile.Verification.Reports.{
  VerificationReport, verification_report, validate_artifacts, validate_rules, validate_results,
  find_rule, rule_ids,
}
use lookfile.Verification.Reports.Coverage.{
  Bears, mem-find_rule, verification_report-Checked, verification_report-same,
}
use lookfile.Verification.Routing.{decide_artifact}
use lookfile.Verification.Routing.Approval.{approved_only_if_all_pass}
use lookfile.Repair.Context.{applicable_rule_definitions, id_below}
use lookfile.Repair.Context.Sorting.{mem-sorted}
use lookfile.Workflow.Batch.Cohort.{
  BatchPlan, BatchRule, ProductionBatchReservation, ProductionBatchTarget, ProductionBatchCandidate,
  FrozenProductionCohort, batch_rule, the_rule, is_batch_rule, l3_rule, cohort_ids,
  item_definitions,
}
use lookfile.Workflow.Batch.Run.{
  ProductionBatchPhase, candidates_ready, cohort_frozen, batch_verified, routed, export_staged,
  completed, BatchPublicationReceipt, ProductionBatchResult, stage_export, commit_export, Traced,
  then_on, silent, calling, closing, persist, announce, reach, publish, item_results, final_report,
  validate_batch_result, cohort_stop_reason, decide_candidate, decide_cohort, prepare, verify,
  route_cohort, export_cohort, routed_export, judge_cohort, run_frozen, run_atomic_production_batch,
}
use lookfile.Workflow.Batch.Protocol.{Journal}

pub then_on-eq-ok :
    {A B : Type 0} (t : Traced A) (next : A → Traced B) {b : B}
    → (then_on t next).1 ≡ ok b
    → (a : A) × (t.1 ≡ ok a) × ((next a).1 ≡ ok b)
then_on-eq-ok (calls, ok a) next h = (a, refl, h)
then_on-eq-ok (calls, err x) next h = cc

pub closing-eq-ok :
    {A : Type 0} (close : Result (Unit {0})) (t : Traced A) {a : A}
    → (closing close t).1 ≡ ok a
    → t.1 ≡ ok a
closing-eq-ok close (calls, ok b) h = h
closing-eq-ok (ok tt) (calls, err x) h = cc
closing-eq-ok (err y) (calls, err x) h = cc

-- A decision of a cohort is the routing's, for one of its artifacts.
pub decide_cohort-mem :
    (report : VerificationReport) (ids : List ArtifactId) {ds : List ArtifactDecision}
    {d : ArtifactDecision}
    → decide_cohort report ids ≡ ok ds
    → Memᴰ d ds
    → (id : ArtifactId) × Memᴰ id ids × (decide_candidate report id ≡ ok d)
unfolding decide_cohort
decide_cohort-mem report [] h m = elim (subst (Memᴰ _) (sym (ok_inj h)) m) [ ]
decide_cohort-mem report (id ∷ ids) {ds} {d} h m =
    let (first, decided, h1) = >>=-eq-ok (decide_candidate report id) _ h in
    let (others, rest, h2) = >>=-eq-ok (decide_cohort report ids) _ h1 in
    split first others decided (decide_cohort-mem report ids rest)
      (subst (Memᴰ d) (sym (ok_inj h2)) m)
  where
    split :
        (first : ArtifactDecision) (others : List ArtifactDecision)
        → decide_candidate report id ≡ ok first
        → (Memᴰ d others → (i : ArtifactId) × Memᴰ i ids × (decide_candidate report i ≡ ok d))
        → Memᴰ d (first ∷ others)
        → (i : ArtifactId) × Memᴰ i (id ∷ ids) × (decide_candidate report i ≡ ok d)
    split first others decided later (Memᴰ.head e) = (id, Memᴰ.head refl, decided ∙ ap ok (sym e))
    split first others decided later (Memᴰ.tail k) = let (i, l, c) = later k in (i, Memᴰ.tail l, c)

pub decide_candidate-eq-ok :
    (report : VerificationReport) (id : ArtifactId) {d : ArtifactDecision}
    → decide_candidate report id ≡ ok d
    → (stop : RepairStopReason) × (decide_artifact report id (some stop) false ≡ ok d)
unfolding decide_candidate
decide_candidate-eq-ok report id h =
    let (stop, _, decided) = >>=-eq-ok (cohort_stop_reason report id) _ h in (stop, decided)

mem_last : {A : Type 0} (xs : List A) (y : A) → Memᴰ y (xs ++ y ∷ [])
mem_last [] y = Memᴰ.head refl
mem_last (x ∷ xs) y = Memᴰ.tail (mem_last xs y)

mem_definition :
    {rule : BatchRule} (rules : List BatchRule)
    → Memᴰ rule rules
    → Memᴰ rule.definition (map (λ (r : BatchRule). r.definition) rules)
mem_definition [] m = elim m [ ]
mem_definition (r ∷ rs) (Memᴰ.head e) = Memᴰ.head (ap (λ (x : BatchRule). x.definition) e)
mem_definition (r ∷ rs) (Memᴰ.tail k) = Memᴰ.tail (mem_definition rs k)

applicable-mem :
    (plan : BatchPlan) (rule : BatchRule)
    → Memᴰ rule plan.rules
    → (rule.definition.applicability == applicable) ≡ true
    → Memᴰ rule.definition (applicable_rule_definitions plan)
unfolding applicable_rule_definitions
applicable-mem plan rule m a = mem-sorted id_below rule.definition _ (
    mem-select (λ definition. definition.applicability == applicable) (mem_definition plan.rules m)
      a)

the_rule-mem :
    (rules : List BatchRule) {rule : BatchRule} → the_rule rules ≡ ok rule → Memᴰ rule rules
the_rule-mem [] h = cc
the_rule-mem (r ∷ []) h = Memᴰ.head (sym (ok_inj h))
the_rule-mem (r ∷ s ∷ rs) h = cc

first_of_four : (a b c d : Bool) → not (a && b && c && d) ≡ false → a ≡ true
first_of_four a b c d h = ground arith

-- The batch rule of a plan stands in it, applies to batches and is required.
pub batch_rule-mem :
    (plan : BatchPlan) (l2_approval l3_approval : Sha256) (rule : BatchRule)
    → batch_rule plan l2_approval l3_approval ≡ ok rule
    → Memᴰ rule plan.rules × (is_batch_rule rule ≡ true) × (rule.definition.required ≡ true)
unfolding batch_rule
batch_rule-mem plan l2_approval l3_approval rule h =
    let (_, h1) = after_guard _ _ _ h in
    let (found, e, h2) = >>=-eq-ok (the_rule (select is_batch_rule plan.rules)) _ h1 in
    let (tests, h3) = after_guard _ _ _ h2 in
    let (_, _, h4) = >>=-eq-ok (l3_rule plan l3_approval) _ h3 in
    let same : found ≡ rule = ok_inj h4 in
    let (m, b) = select-mem is_batch_rule plan.rules (the_rule-mem _ (e ∙ h4)) in
    (
      m,
      b,
      subst (λ (r : BatchRule). r.definition.required ≡ true) same
          (first_of_four found.definition.required _ _ _ tests),
    )

-- The report of a routed cohort is checked, has the rules of the plan and the batch's result, and gives
-- the decisions.
pub record Judged (plan : BatchPlan) (candidates : List ProductionBatchCandidate)
    (result : RuleResult) (report : VerificationReport) (decisions : List ArtifactDecision)
    : Type 0 where
  pub checked : verification_report report ≡ ok report
  pub rules_of : report.rules ≡ applicable_rule_definitions plan
  pub listed : Memᴰ result report.results
  pub decided : decide_cohort report (cohort_ids candidates) ≡ ok decisions

pub final_report-eq-ok :
    (plan : BatchPlan) (candidates : List ProductionBatchCandidate) (result : RuleResult)
    (report : VerificationReport)
    → final_report plan candidates result ≡ ok report
    → (verification_report report ≡ ok report)
      × (report.rules ≡ applicable_rule_definitions plan)
      × Memᴰ result report.results
unfolding final_report
final_report-eq-ok plan candidates result report h =
    let same = verification_report-same _ report h in
    (
      subst (λ r. verification_report r ≡ ok report) same h,
      sym (ap (λ (r : VerificationReport). r.rules) same),
      subst (λ (r : VerificationReport). Memᴰ result r.results) same
          (mem_last (item_results (item_definitions plan) candidates) result),
    )

pub validate_batch_result-eq-ok :
    (rule : BatchRule) (candidates : List ProductionBatchCandidate) (given result : RuleResult)
    → validate_batch_result rule candidates given ≡ ok result
    → (result.rule_id ≡ rule.definition.rule_id)
      × (result.affected_artifact_ids ≡ cohort_ids candidates)
unfolding validate_batch_result
validate_batch_result-eq-ok rule candidates given result h =
    let (tests, same) = after_guard _ _ _ h in
    let (id, affected) = both_equal _ _ _ _ tests in
    (
      sym (ap (λ (r : RuleResult). r.rule_id) (ok_inj same))
          ∙ ==→eq given.rule_id rule.definition.rule_id id,
      sym (ap (λ (r : RuleResult). r.affected_artifact_ids) (ok_inj same))
          ∙ ==→eq given.affected_artifact_ids (cohort_ids candidates) affected,
    )
  where
    both_equal : (a b c d : Bool) → (not a || not b || c || d) ≡ false → (a ≡ true) × (b ≡ true)
    both_equal a b c d h = ground arith

-- The result of the batch bears on each artifact of the cohort.
pub result-Bears :
    (plan : BatchPlan) (rule : BatchRule) (candidates : List ProductionBatchCandidate)
    (result : RuleResult) (report : VerificationReport) (decisions : List ArtifactDecision)
    (id : ArtifactId)
    → Judged plan candidates result report decisions
    → Memᴰ rule plan.rules
    → is_batch_rule rule ≡ true
    → result.rule_id ≡ rule.definition.rule_id
    → result.affected_artifact_ids ≡ cohort_ids candidates
    → Memᴰ id (cohort_ids candidates)
    → Bears report.rules id report.results rule.definition result
result-Bears plan rule candidates result report decisions id j m b e a k =
    let applies : (rule.definition.applicability == applicable) ≡ true = ground arith in
    let found =
      mem-find_rule rule.definition report.rules
        (verification_report-Checked report j.checked).unique_rules
        (subst (Memᴰ rule.definition) (sym j.rules_of) (applicable-mem plan rule m applies)) in
    record {
      listed = j.listed;
      affects = subst (λ ids. contains id ids ≡ true) (sym a) (mem-contains k);
      known = ap (λ i. find_rule i report.rules) e ∙ found;
      applies = applies;
    }
