-- ===== src/Verification/Routing/Totality.antt =====
-- A valid report always has a route: the last branch of the ladder is dead.
use lookfile.Prelude.{
  ◌≡◌, refl, sym, subst, inl, inr, Bool, true, false, Option, none, some, List, [], ◌∷◌, Memᴰ,
  arith, ok, >>-eq-ok, after_guard, if◌then◌else◌, any, all, select, contains, is_empty, list_eq,
  nat_eq, option_eq, ◌==◌, any-mem, mem-select, select-mem, all_of_mem, Bool-cases,
}
use lookfile.Domain.Enums.{
  applicable, static_applicability_eq, ArtifactStatus, DecisionReason, RepairStopReason, rejected,
  approved, required_gate_unverifiable, required_gate_failed, manual_policy, all_required_pass,
}
use lookfile.Domain.Identifiers.{ArtifactId}
use lookfile.Verification.RuleModels.{
  RuleDefinition, RuleResult, ArtifactDecision, artifact_decision, legal_pair, gate_policy,
  rule_definition, gate_action_eq,
}
use lookfile.Verification.Reports.{
  VerificationReport, find_rule, artifact_ids, verification_report, check_result_refs, check_known,
}
use lookfile.Verification.Routing.{
  Relevant, relevant_step, results_affecting_artifact, validate_stop_reason, route, finish,
  decide_artifact, has_manual_policy, is_required, is_pass, is_manual, rejects_unverifiable,
  rejects_failure,
}
use lookfile.Verification.Routing.Members.{Bears-mem}
use lookfile.Verification.Reports.Coverage.{
  report_covers, find_rule-mem, verification_report-Checked,
}

-- A rule that the two constructors accept.
pub record IsValidRule (rule : RuleDefinition) : Type 0 where
  pub policy :
      gate_policy rule.gate_policy.on_fail rule.gate_policy.on_unverifiable
        rule.gate_policy.on_warning
      ≡ ok rule.gate_policy
  pub definition : rule_definition rule ≡ ok rule

abbrev pub AllValid : List Relevant → Type 0
AllValid pairs = (r : Relevant) → Memᴰ r pairs → IsValidRule r.0

-- A required result that is no PASS rejects, or asks for a review.
pass_or_routed :
    (rule : RuleDefinition) (result : RuleResult)
    → IsValidRule rule
    → rule.required ≡ true
    → rejects_unverifiable (rule, result) ≡ false
    → rejects_failure (rule, result) ≡ false
    → is_manual (rule, result) ≡ false
    → is_pass (rule, result) ≡ true
unfolding gate_policy rule_definition
pass_or_routed rule result v r u f m = ground (arith, v.policy, v.definition)

all_pass :
    (relevant : List Relevant)
    → AllValid relevant
    → any rejects_unverifiable (select is_required relevant) ≡ false
    → any rejects_failure (select is_required relevant) ≡ false
    → any is_manual relevant ≡ false
    → all is_pass (select is_required relevant) ≡ true
all_pass relevant v u f m = all_of_mem is_pass (select is_required relevant) (λ r k.
    let (listed, required) = select-mem is_required relevant k in
    pass_or_routed r.0 r.1 (v r listed) required (any-mem rejects_unverifiable k u)
      (any-mem rejects_failure k f) (any-mem is_manual listed m))

pub route-total :
    (relevant : List Relevant)
    → AllValid relevant
    → (d : ArtifactStatus × DecisionReason) × (route none relevant (select is_required relevant)
        ≡ ok d)
      × (legal_pair d.0 d.1 ≡ true)
unfolding route has_manual_policy
route-total relevant v =
    elim (Bool-cases (any rejects_unverifiable (select is_required relevant))) [
      | inl u ↦ ((rejected, required_gate_unverifiable), rw u, refl)
      | inr u ↦ elim (Bool-cases (any rejects_failure (select is_required relevant))) [
        | inl f ↦ ((rejected, required_gate_failed), rw (u, f), refl)
        | inr f ↦ elim (Bool-cases (any is_manual relevant)) [
          | inl m ↦ ((ArtifactStatus.manual_review, manual_policy), rw (u, f, m), refl)
          | inr m ↦ ((approved, all_required_pass), rw (u, f, m, all_pass relevant v u f m), refl)
        ]
      ]
    ]

known_rule :
    (o : Option RuleDefinition) → check_known o ≡ ok tt → (rule : RuleDefinition) × (o ≡ some rule)
known_rule none h = cc
known_rule (some rule) h = (rule, refl)

-- One round of the comprehension, when the rule is known and the rest succeeded.
step_from :
    (b : Bool) (rule : RuleDefinition) (result : RuleResult) (tail : List Relevant)
    (rules : List RuleDefinition)
    → Memᴰ rule rules
    → ((r : Relevant) → Memᴰ r tail → Memᴰ r.0 rules)
    → (relevant : List Relevant) × ((if b
          then relevant_step (some rule) result (ok tail)
          else ok tail)
        ≡ ok relevant)
      × ((r : Relevant) → Memᴰ r relevant → Memᴰ r.0 rules)
step_from false rule result tail rules m f = (tail, refl, f)
step_from true rule result tail rules m f = elim (Bool-cases (rule.applicability == applicable)) [
  | inl a ↦ (
    (rule, result) ∷ tail,
    rw a,
    λ r k. elim k [
      | Memᴰ.head e ↦ subst (λ (p : Relevant). Memᴰ p.0 rules) (sym e) m
      | Memᴰ.tail n ↦ f r n
    ],
  )
  | inr a ↦ (tail, rw a, f)
]

-- Every pair that the router weighs has a rule of the report.
pub results_affecting-ok :
    (ids : List ArtifactId) (rules : List RuleDefinition) (artifact_id : ArtifactId)
    (results : List RuleResult)
    → check_result_refs ids rules results ≡ ok tt
    → (relevant : List Relevant) × (results_affecting_artifact rules artifact_id results
        ≡ ok relevant)
      × ((r : Relevant) → Memᴰ r relevant → Memᴰ r.0 rules)
unfolding check_result_refs results_affecting_artifact
results_affecting-ok ids rules artifact_id [] h = ([], refl, λ r m. elim m [ ])
results_affecting-ok ids rules artifact_id (result ∷ results) h =
    let (known, k) = >>-eq-ok (check_known (find_rule result.rule_id rules)) _ h in
    let (_, rest) = after_guard _ _ _ k in
    let (rule, found) = known_rule (find_rule result.rule_id rules) known in
    let (tail, weighed, from_rules) = results_affecting-ok ids rules artifact_id results rest in
    rw (found, weighed)
      (step_from (contains artifact_id result.affected_artifact_ids) rule result tail rules
        (find_rule-mem result.rule_id rules found).0 from_rules)

pub finish-total :
    (artifact_id : ArtifactId) (stop : Option RepairStopReason)
    (d : ArtifactStatus × DecisionReason)
    → legal_pair d.0 d.1 ≡ true
    → (decision : ArtifactDecision) × (finish artifact_id stop false d ≡ ok decision)
unfolding finish artifact_decision
finish-total artifact_id stop (status, reason) l = (
  record {
    artifact_id = artifact_id;
    artifact_status = status;
    decision_reason = reason;
    repair_stop_reason = stop;
    accepted_with_override = false;
  },
  rw l refl,
)

pub some_required : {r : Relevant} {rs : List Relevant} → Memᴰ r rs → is_empty rs ≡ false
some_required (Memᴰ.head e) = refl
some_required (Memᴰ.tail m) = refl

-- In a validated report of valid rules, with at least one applicable required rule, routing with no
-- stop reason and no override returns a decision for every artifact: it neither raises a
-- `KeyError` nor falls through to "no valid terminal route".
pub decide_artifact-total :
    (report : VerificationReport) (artifact_id : ArtifactId) (rule : RuleDefinition)
    → verification_report report ≡ ok report
    → ((r : RuleDefinition) → Memᴰ r report.rules → IsValidRule r)
    → contains artifact_id (artifact_ids report.artifacts) ≡ true
    → Memᴰ rule report.rules
    → rule.applicability ≡ applicable
    → rule.required ≡ true
    → (d : ArtifactDecision) × (decide_artifact report artifact_id none false ≡ ok d)
unfolding decide_artifact validate_stop_reason
decide_artifact-total report artifact_id rule h v c m a r =
    let checked = verification_report-Checked report h in
    let (relevant, weighed, from_rules) =
      results_affecting-ok (artifact_ids report.artifacts) report.rules artifact_id report.results
        checked.refs in
    let (result, bears) = report_covers report artifact_id rule h c m a in
    let kept = mem-select is_required (Bears-mem bears weighed) r in
    let (d, routed, legal) = route-total relevant (λ p k. v p.0 (from_rules p k)) in
    let (decision, finished) = finish-total artifact_id none d legal in
    (decision, rw (c, weighed, some_required kept, routed) finished)
