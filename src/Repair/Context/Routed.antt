-- ===== src/Repair/Context/Routed.antt =====
-- The rules that repair acts on and the failures that routing rejects.
use lookfile.Prelude.{
  ◌≡◌, ◌≢◌, ◌↔◌, refl, sym, ap, ◌∙◌, subst, arith, Bool, true, false, not, ◌&&◌, ◌||◌, none, List,
  [], ◌∷◌, Memᴰ, map, ◌==◌, ==→eq, ==_refl, nat_eq, list_eq, option_eq, ok, ok_inj, >>=-eq-ok,
  refuse_if-eq-ok, any, any-witness, mem-any, select-mem, mem-select, contains, is_empty, and_inv,
  if◌then◌else◌,
}
use lookfile.Domain.Enums.{
  rule_status_eq, applicable, static_applicability_eq, ArtifactStatus, DecisionReason, rejected,
  required_gate_unverifiable,
}
use lookfile.Domain.Identifiers.{ArtifactId}
use lookfile.Verification.RuleModels.{RuleDefinition, RuleResult, ArtifactDecision}
use lookfile.Verification.Reports.{VerificationReport, verification_report, find_rule}
use lookfile.Verification.Reports.Coverage.{
  Bears, find_rule-mem, mem-find_rule, verification_report-Checked, verification_report-same,
}
use lookfile.Verification.Routing.{Relevant, route, decide_artifact, is_required, rejects_failure}
use lookfile.Verification.Routing.Members.{Bears-mem, mem-Bears}
use lookfile.Verification.Routing.Approval.{decide_artifact-Decided, route-failure}
use lookfile.Repair.Requests.{CompiledRule, CompiledVerificationPlan, rule_definition_eq}
use lookfile.Repair.Context.{
  id_below, applicable_rule_definitions, is_gate, ordered_required, validate_plan_report, the_one,
  result_for, blocks, blocking, blocking_among, blocking_rules,
}
use lookfile.Repair.Context.Sorting.{sorted-mem, mem-sorted}
use lookfile.Repair.Context.Gates.{
  blocking_inv, among_inv, blocking_rules-gates, ordered_required-gates,
}

the_one-mem : (rs : List RuleResult) {r : RuleResult} → the_one rs ≡ ok r → Memᴰ r rs
the_one-mem [] h = cc
the_one-mem (r ∷ []) h = Memᴰ.head (sym (ok_inj h))
the_one-mem (r ∷ s ∷ rs) h = cc

mem-the_one : (rs : List RuleResult) {r s : RuleResult} → the_one rs ≡ ok r → Memᴰ s rs → s ≡ r
mem-the_one [] h m = cc
mem-the_one (r ∷ []) h (Memᴰ.head e) = e ∙ ok_inj h
mem-the_one (r ∷ []) h (Memᴰ.tail m) = elim m [ ]
mem-the_one (r ∷ s ∷ rs) h m = cc

routed_failure :
    (relevant required : List Relevant) {status : ArtifactStatus} {reason : DecisionReason}
    → route none relevant required ≡ ok (status, reason)
    → status ≡ rejected
    → reason ≢ required_gate_unverifiable
    → any rejects_failure required ≡ true
unfolding route
routed_failure relevant required h s n = ground arith

-- A report on a plan holds the plan's applicable rules, and is checked.
record OfPlan {Binding : Type 0} (plan : CompiledVerificationPlan Binding)
    (report : VerificationReport) : Type 0 where
  pub checked : verification_report report ≡ ok report
  pub rules_of : report.rules ≡ applicable_rule_definitions plan

module _ {Binding : Type 0} where
  validate_plan_report-OfPlan :
      (plan : CompiledVerificationPlan Binding) (report : VerificationReport) (target : ArtifactId)
      → validate_plan_report plan report target ≡ ok tt
      → OfPlan plan report
  unfolding validate_plan_report
  validate_plan_report-OfPlan plan report target h =
      let (rebuilt, built, tests) = >>=-eq-ok (verification_report report) _ h in
      let same = verification_report-same report rebuilt built in
      record {
        checked = built ∙ ap ok (sym same);
        rules_of =
            ap (λ (r : VerificationReport). r.rules) same
            ∙ ==→eq rebuilt.rules (applicable_rule_definitions plan) (
                first_holds (rebuilt.rules == applicable_rule_definitions plan) _
                  (refuse_if-eq-ok _ _ tests));
      }
    where
      first_holds : (a b : Bool) → (not a || b) ≡ false → a ≡ true
      first_holds a b h = ground arith

  in_definitions :
      (rules : List (CompiledRule Binding)) {rule : CompiledRule Binding}
      → Memᴰ rule rules
      → Memᴰ rule.definition (map (λ r. r.definition) rules)
  in_definitions [] m = elim m [ ]
  in_definitions (r ∷ rs) (Memᴰ.head e) =
      Memᴰ.head (ap (λ (x : CompiledRule Binding). x.definition) e)
  in_definitions (r ∷ rs) (Memᴰ.tail m) = Memᴰ.tail (in_definitions rs m)

  of_definitions :
      (rules : List (CompiledRule Binding)) {definition : RuleDefinition}
      → Memᴰ definition (map (λ r. r.definition) rules)
      → (rule : CompiledRule Binding) × Memᴰ rule rules × (rule.definition ≡ definition)
  of_definitions [] m = elim m [ ]
  of_definitions (r ∷ rs) (Memᴰ.head e) = (r, Memᴰ.head refl, sym e)
  of_definitions (r ∷ rs) (Memᴰ.tail m) =
      let (rule, k, e) = of_definitions rs m in (rule, Memᴰ.tail k, e)

  gate-applicable :
      (plan : CompiledVerificationPlan Binding) (rule : CompiledRule Binding)
      → Memᴰ rule plan.rules
      → is_gate rule ≡ true
      → Memᴰ rule.definition (applicable_rule_definitions plan)
  unfolding applicable_rule_definitions
  gate-applicable plan rule m g = mem-sorted id_below rule.definition _ (
      mem-select (λ definition. definition.applicability == applicable)
        (in_definitions plan.rules m) (and_inv _ rule.definition.required g).0)

  applicable-gate :
      (plan : CompiledVerificationPlan Binding) (definition : RuleDefinition)
      → Memᴰ definition (applicable_rule_definitions plan)
      → (rule : CompiledRule Binding) × Memᴰ rule plan.rules × (rule.definition ≡ definition)
  unfolding applicable_rule_definitions
  applicable-gate plan definition m =
      of_definitions plan.rules
        (select-mem (λ definition. definition.applicability == applicable) _
          (sorted-mem id_below definition _ m)).0

  -- The result that blocks bears on the artifact.
  Blocks-Bears :
      (plan : CompiledVerificationPlan Binding) (report : VerificationReport) (target : ArtifactId)
      (rule : CompiledRule Binding) (result : RuleResult)
      → OfPlan plan report
      → Memᴰ rule plan.rules
      → is_gate rule ≡ true
      → result_for report rule.definition.rule_id target ≡ ok result
      → Bears report.rules target report.results rule.definition result
  unfolding result_for
  Blocks-Bears plan report target rule result p m g found =
      let (listed, tests) = select-mem _ report.results (the_one-mem _ found) in
      let (id, affects) = and_inv (result.rule_id == rule.definition.rule_id) _ tests in
      let known =
        mem-find_rule rule.definition report.rules
          (verification_report-Checked report p.checked).unique_rules
          (subst (Memᴰ rule.definition) (sym p.rules_of) (gate-applicable plan rule m g)) in
      record {
        listed = listed;
        affects = affects;
        known =
            ap (λ i. find_rule i report.rules) (==→eq result.rule_id rule.definition.rule_id id)
            ∙ known;
        applies = (and_inv _ rule.definition.required g).0;
      }

  -- Each gate of a loop that returned was tested, and is kept if it blocks.
  among-tested :
      (report : VerificationReport) (target : ArtifactId)
      (rules blocked : List (CompiledRule Binding)) (rule : CompiledRule Binding)
      → blocking_among report target rules ≡ ok blocked
      → Memᴰ rule rules
      → (b : Bool) × (blocking rule report target ≡ ok b) × (b ≡ true → is_empty blocked ≡ false)
  unfolding blocking_among
  among-tested report target [] blocked rule h m = elim m [ ]
  among-tested report target (r ∷ rules) blocked rule h (Memᴰ.head e) =
      let (b, more, tested, _, kept) = among_inv report target r rules blocked h in
      (
        b,
        ap (λ x. blocking x report target) e ∙ tested,
        λ t. subst (λ l. is_empty l ≡ false) kept (rw t refl),
      )
  among-tested report target (r ∷ rules) blocked rule h (Memᴰ.tail m) =
      let (b, more, _, later, kept) = among_inv report target r rules blocked h in
      let (c, tested, k) = among-tested report target rules more rule later m in
      (c, tested, λ t. subst (λ l. is_empty l ≡ false) kept (still b r more (k t)))
    where
      still :
          (b : Bool) (r : CompiledRule Binding) (more : List (CompiledRule Binding))
          → is_empty more ≡ false
          → is_empty (if b then r ∷ more else more) ≡ false
      still true r more e = refl
      still false r more e = e

  blocked-rejected :
      (plan : CompiledVerificationPlan Binding) (report : VerificationReport) (target : ArtifactId)
      (first : CompiledRule Binding) (rest : List (CompiledRule Binding)) (d : ArtifactDecision)
      → OfPlan plan report
      → blocking_rules plan report target ≡ ok (first ∷ rest)
      → decide_artifact report target none false ≡ ok d
      → d.artifact_status ≡ rejected
  blocked-rejected plan report target first rest d p h decided =
      let (m, gate, (result, found, b)) =
        (blocking_rules-gates plan report target (first ∷ rest) h first).0 (Memᴰ.head refl) in
      let bears = Blocks-Bears plan report target first result p m gate found in
      let run = decide_artifact-Decided report target none false d decided in
      let kept =
        mem-select is_required (Bears-mem bears run.weighed)
          (and_inv (first.definition.applicability == applicable) _ gate).1 in
      route-failure none run.relevant _ (mem-any rejects_failure kept b) run.routed

  rejected-blocked :
      (plan : CompiledVerificationPlan Binding) (report : VerificationReport) (target : ArtifactId)
      (blocked : List (CompiledRule Binding)) (d : ArtifactDecision)
      → OfPlan plan report
      → blocking_rules plan report target ≡ ok blocked
      → decide_artifact report target none false ≡ ok d
      → d.decision_reason ≢ required_gate_unverifiable
      → d.artifact_status ≡ rejected
      → is_empty blocked ≡ false
  unfolding blocking_rules result_for
  rejected-blocked plan report target blocked d p h decided n r =
      let run = decide_artifact-Decided report target none false d decided in
      let (pair, kept, fails) =
        any-witness rejects_failure _ (routed_failure run.relevant _ run.routed r n) in
      let (weighed, required) = select-mem is_required run.relevant kept in
      let bears =
        mem-Bears report.rules target report.results run.relevant pair run.weighed weighed in
      let (in_report, id) = find_rule-mem pair.1.rule_id report.rules bears.known in
      let (rule, m, same) =
        applicable-gate plan pair.0 (subst (Memᴰ pair.0) p.rules_of in_report) in
      let gate : is_gate rule ≡ true = is_gate_of rule pair.0 same bears.applies required in
      let (b, tested, k) =
        among-tested report target (ordered_required plan) blocked rule h
          (((ordered_required-gates plan).1 rule).1 (m, gate)) in
      let (result, found, e) = blocking_inv rule report target b tested in
      let one : pair.1 ≡ result =
        mem-the_one _ found
          (mem-select _ bears.listed (named rule pair.0 pair.1 same id bears.affects)) in
      k (
        sym e
        ∙ ap (λ (x : RuleResult). blocks rule x.status) (sym one)
        ∙ fails_too rule pair.0 pair.1 same fails)
    where
      is_gate_of :
          (rule : CompiledRule Binding) (definition : RuleDefinition)
          → rule.definition ≡ definition
          → (definition.applicability == applicable) ≡ true
          → definition.required ≡ true
          → is_gate rule ≡ true
      is_gate_of rule definition same a r =
          subst (λ (x : RuleDefinition). (x.applicability == applicable && x.required) ≡ true)
            (sym same) (rw (a, r) refl)

      named :
          (rule : CompiledRule Binding) (definition : RuleDefinition) (result : RuleResult)
          → rule.definition ≡ definition
          → definition.rule_id ≡ result.rule_id
          → contains target result.affected_artifact_ids ≡ true
          → (result.rule_id == rule.definition.rule_id
              && contains target result.affected_artifact_ids)
            ≡ true
      named rule definition result same id affects =
          subst
            (λ (x : RuleDefinition).
              (result.rule_id == x.rule_id && contains target result.affected_artifact_ids) ≡ true)
            (sym same)
            (subst
              (λ i. (result.rule_id == i && contains target result.affected_artifact_ids) ≡ true)
              (sym id) (rw (==_refl result.rule_id, affects) refl))

      fails_too :
          (rule : CompiledRule Binding) (definition : RuleDefinition) (result : RuleResult)
          → rule.definition ≡ definition
          → rejects_failure (definition, result) ≡ true
          → blocks rule result.status ≡ true
      fails_too rule definition result same f =
          subst (λ (x : RuleDefinition). rejects_failure (x, result) ≡ true) (sym same) f

  -- Repair and routing agree: an artifact of a report on the plan, routed without a stop reason and not
  -- for an unverifiable gate, is rejected exactly when it has a blocking rule.
  pub blocking_rules-rejected :
      (plan : CompiledVerificationPlan Binding) (report : VerificationReport) (target : ArtifactId)
      (blocked : List (CompiledRule Binding)) (d : ArtifactDecision)
      → validate_plan_report plan report target ≡ ok tt
      → blocking_rules plan report target ≡ ok blocked
      → decide_artifact report target none false ≡ ok d
      → d.decision_reason ≢ required_gate_unverifiable
      → (is_empty blocked ≡ false) ↔ (d.artifact_status ≡ rejected)
  blocking_rules-rejected plan report target [] d v h decided n = (
    λ e. cc (e),
    λ r.
        rejected-blocked plan report target [] d (validate_plan_report-OfPlan plan report target v)
          h decided n r,
  )
  blocking_rules-rejected plan report target (first ∷ rest) d v h decided n = (
    λ e.
        blocked-rejected plan report target first rest d
          (validate_plan_report-OfPlan plan report target v) h decided,
    λ r. refl,
  )
