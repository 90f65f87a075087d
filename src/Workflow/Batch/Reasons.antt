-- ===== src/Workflow/Batch/Reasons.antt =====
-- The stop reasons of a cohort and the routing.
use lookfile.Prelude.{
  ◌≡◌, ◌⊎◌, refl, sym, ap, ◌∙◌, subst, inl, inr, Bool, true, false, not, ◌&&◌, ◌||◌, Option, none,
  some, List, [], ◌∷◌, Memᴰ, map, ◌==◌, ◌!=◌, option_eq, nat_eq, list_eq, Result, ok, err, ok_inj,
  any, select, contains, Bool-cases, mem-select, if◌then◌else◌,
}
use lookfile.Domain.Enums.{
  RuleStatus, pass, rule_status_eq, applicable, static_applicability_eq, ArtifactStatus,
  DecisionReason, rejected, required_gate_unverifiable, repair_exhausted, RepairStopReason,
  repair_stop_reason_eq, no_improvement, pass_all_required,
}
use lookfile.Domain.Identifiers.{ArtifactId}
use lookfile.Verification.RuleModels.{RuleDefinition, RuleResult, ArtifactDecision, legal_pair}
use lookfile.Verification.Reports.{VerificationReport, find_rule, artifact_ids, verification_report}
use lookfile.Verification.Reports.Coverage.{report_covers, verification_report-Checked}
use lookfile.Verification.Routing.{
  Relevant, relevant_step, results_affecting_artifact, validate_stop_reason, has_manual_policy,
  route, decide_artifact, is_required, is_pass, rejects_unverifiable,
}
use lookfile.Verification.Routing.Members.{Bears-mem}
use lookfile.Verification.Routing.Totality.{
  IsValidRule, AllValid, route-total, results_affecting-ok, some_required, finish-total,
}
use lookfile.Workflow.Batch.Run.{
  required_step, required_results, reason_of, cohort_stop_reason, decide_candidate, decide_cohort,
}

abbrev results : List Relevant → List RuleResult
results = map (λ (r : Relevant). r.1)

kept_results :
    (rule : RuleDefinition) (result : RuleResult) (tail : List Relevant)
    → (if rule.required && rule.applicability == applicable
        then result ∷ results (select is_required tail)
        else results (select is_required tail))
      ≡ results (
          select is_required
            (if rule.applicability == applicable then (rule, result) ∷ tail else tail))
kept_results rule result tail = elim (Bool-cases (rule.applicability == applicable)) [
  | inl a ↦ elim (Bool-cases rule.required) [ inl r ↦ rw (a, r) refl | inr r ↦ rw (a, r) refl ]
  | inr a ↦ elim (Bool-cases rule.required) [ inl r ↦ rw (a, r) refl | inr r ↦ rw (a, r) refl ]
]

step_required :
    (b : Bool) (o : Option RuleDefinition) (result : RuleResult) (weighed : Result (List Relevant))
    (required : Result (List RuleResult)) (relevant : List Relevant)
    → ((tail : List Relevant)
        → weighed ≡ ok tail
        → required ≡ ok (results (select is_required tail)))
    → (if b then relevant_step o result weighed else weighed) ≡ ok relevant
    → (if b then required_step o result required else required)
      ≡ ok (results (select is_required relevant))
step_required false o result weighed required relevant k h = k relevant h
step_required true none result weighed required relevant k h = cc
step_required true (some rule) result (err e) required relevant k h = cc
step_required true (some rule) result (ok tail) required relevant k h =
    ap (λ r. required_step (some rule) result r) (k tail refl)
    ∙ ap ok (kept_results rule result tail)
    ∙ ap (λ l. ok (results (select is_required l))) (ok_inj h)

-- The stop reason looks at the results that the routing weighs as required.
pub required_results-relevant :
    (rules : List RuleDefinition) (artifact_id : ArtifactId) (all_results : List RuleResult)
    (relevant : List Relevant)
    → results_affecting_artifact rules artifact_id all_results ≡ ok relevant
    → required_results rules artifact_id all_results ≡ ok (results (select is_required relevant))
unfolding results_affecting_artifact required_results
required_results-relevant rules artifact_id [] relevant h =
    ap (λ l. ok (results (select is_required l))) (ok_inj h)
required_results-relevant rules artifact_id (result ∷ more) relevant h =
    step_required (contains artifact_id result.affected_artifact_ids)
      (find_rule result.rule_id rules) result (results_affecting_artifact rules artifact_id more)
      (required_results rules artifact_id more) relevant
      (required_results-relevant rules artifact_id more) h

any-results :
    (p : RuleResult → Bool) (rs : List Relevant)
    → any p (results rs) ≡ any (λ (r : Relevant). p r.1) rs
any-results p [] = refl
any-results p (r ∷ rs) = ap (λ b. p r.1 || b) (any-results p rs)

-- What the routing says for a stop reason, with the tests on the required pairs as arguments
reason_valid :
    (required : List Relevant)
    → validate_stop_reason (some (reason_of (results required))) required ≡ ok tt
unfolding validate_stop_reason
reason_valid required =
    elim (Bool-cases (any (λ (r : Relevant). r.1.status == RuleStatus.unverifiable) required)) [
      | inl u ↦ rw (any-results (λ r. r.status == RuleStatus.unverifiable) required, u) refl
      | inr u ↦ elim (Bool-cases (any (λ (r : Relevant). r.1.status != pass) required)) [
        | inl n ↦
            rw
              (
                any-results (λ r. r.status == RuleStatus.unverifiable) required,
                u,
                any-results (λ r. r.status != pass) required,
                n,
              )
              refl
        | inr n ↦
            rw
              (
                any-results (λ r. r.status == RuleStatus.unverifiable) required,
                u,
                any-results (λ r. r.status != pass) required,
                n,
              )
              refl
      ]
    ]

route_exhausted :
    (relevant : List Relevant)
    → any (λ r. not (is_pass r)) (select is_required relevant) ≡ true
    → (d : ArtifactStatus × DecisionReason) × (route
          (some no_improvement)
          relevant
          (select is_required relevant)
        ≡ ok d)
      × (legal_pair d.0 d.1 ≡ true)
unfolding route
route_exhausted relevant n =
    elim (Bool-cases (any rejects_unverifiable (select is_required relevant))) [
      | inl u ↦ ((rejected, required_gate_unverifiable), rw u refl, refl)
      | inr u ↦ ((rejected, repair_exhausted), rw (u, n) refl, refl)
    ]

-- The reason that a cohort gives, with what it is routed as
reason_cases :
    (required : List Relevant)
    → (reason_of (results required) ≡ RepairStopReason.unverifiable)
      ⊎ (((reason_of (results required) ≡ no_improvement)
            × (any (λ r. not (is_pass r)) required ≡ true))
          ⊎ (reason_of (results required) ≡ pass_all_required))
reason_cases required =
    elim (Bool-cases
      (any (λ (r : RuleResult). r.status == RuleStatus.unverifiable) (results required))) [
        | inl u ↦ inl (rw u refl)
        | inr u ↦
            elim (Bool-cases (any (λ (r : RuleResult). r.status != pass) (results required))) [
              | inl n ↦
                  inr (inl (rw (u, n) refl, sym (any-results (λ r. r.status != pass) required) ∙ n))
              | inr n ↦ inr (inr (rw (u, n) refl))
            ]
      ]

route_reason :
    (relevant : List Relevant)
    → AllValid relevant
    → (d : ArtifactStatus × DecisionReason) × (route
          (some (reason_of (results (select is_required relevant))))
          relevant
          (select is_required relevant)
        ≡ ok d)
      × (legal_pair d.0 d.1 ≡ true)
unfolding route has_manual_policy
route_reason relevant v = elim (reason_cases (select is_required relevant)) [
  | inl e ↦ moved e (route-total relevant v)
  | inr (inl (e, n)) ↦ moved e (route_exhausted relevant n)
  | inr (inr e) ↦ moved e (route-total relevant v)
]
  where
    moved :
        {a b : RepairStopReason}
        → a ≡ b
        → (d : ArtifactStatus × DecisionReason) × (route
              (some b)
              relevant
              (select is_required relevant)
            ≡ ok d)
          × (legal_pair d.0 d.1 ≡ true)
        → (d : ArtifactStatus × DecisionReason) × (route
              (some a)
              relevant
              (select is_required relevant)
            ≡ ok d)
          × (legal_pair d.0 d.1 ≡ true)
    moved e (d, routed, legal) = (
      d,
      subst (λ s. route (some s) relevant (select is_required relevant) ≡ ok d) (sym e) routed,
      legal,
    )

decide_candidate-total :
    (report : VerificationReport) (artifact_id : ArtifactId) (rule : RuleDefinition)
    → verification_report report ≡ ok report
    → ((r : RuleDefinition) → Memᴰ r report.rules → IsValidRule r)
    → contains artifact_id (artifact_ids report.artifacts) ≡ true
    → Memᴰ rule report.rules
    → rule.applicability ≡ applicable
    → rule.required ≡ true
    → (d : ArtifactDecision) × (decide_candidate report artifact_id ≡ ok d)
unfolding decide_candidate cohort_stop_reason decide_artifact
decide_candidate-total report artifact_id rule h v c m a r =
    let checked = verification_report-Checked report h in
    let (relevant, weighed, from_rules) =
      results_affecting-ok (artifact_ids report.artifacts) report.rules artifact_id report.results
        checked.refs in
    let (result, bears) = report_covers report artifact_id rule h c m a in
    let kept = mem-select is_required (Bears-mem bears weighed) r in
    let (d, routed, legal) = route_reason relevant (λ p k. v p.0 (from_rules p k)) in
    let (decision, finished) =
      finish-total artifact_id (some (reason_of (results (select is_required relevant)))) d legal in
    (
      decision,
      rw
          (
            required_results-relevant report.rules artifact_id report.results relevant weighed,
            c,
            weighed,
            some_required kept,
            reason_valid (select is_required relevant),
            routed,
          )
          finished,
    )

-- In a validated report of valid rules with an applicable required rule, the stop reasons of a cohort
-- and the routing fit: each artifact gets a decision, and nothing is raised.
pub decide_cohort-total :
    (report : VerificationReport) (ids : List ArtifactId) (rule : RuleDefinition)
    → verification_report report ≡ ok report
    → ((r : RuleDefinition) → Memᴰ r report.rules → IsValidRule r)
    → ((id : ArtifactId) → Memᴰ id ids → contains id (artifact_ids report.artifacts) ≡ true)
    → Memᴰ rule report.rules
    → rule.applicability ≡ applicable
    → rule.required ≡ true
    → (ds : List ArtifactDecision) × (decide_cohort report ids ≡ ok ds)
unfolding decide_cohort
decide_cohort-total report [] rule h v c m a r = ([], refl)
decide_cohort-total report (id ∷ ids) rule h v c m a r =
    let (d, decided) = decide_candidate-total report id rule h v (c id (Memᴰ.head refl)) m a r in
    let (ds, rest) = decide_cohort-total report ids rule h v (λ i k. c i (Memᴰ.tail k)) m a r in
    (d ∷ ds, rw (decided, rest) refl)
