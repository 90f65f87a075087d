-- ===== src/Verification/Reports/Coverage.antt =====
-- What a validated report holds: for every applicable rule and every artifact, a result.
use lookfile.Prelude.{
  ◌≡◌, refl, sym, ap, ◌∙◌, subst, true, false, none, some, List, [], ◌∷◌, Memᴰ, arith, ok,
  >>=-eq-ok, >>-eq-ok, ok_inj, refuse_if-eq-ok, all, contains, has_duplicates, list_eq, nat_eq,
  ◌==◌, all-mem, select-mem, contains-mem, ==→eq, ==_refl, ==_sym, or_else_inv, if_some_inv, inl,
  inr,
}
use lookfile.Domain.Enums.{applicable, static_applicability_eq, RuleScope, item, batch}
use lookfile.Domain.Identifiers.{ArtifactId, RuleId}
use lookfile.Verification.RuleModels.{RuleDefinition, RuleResult}
use lookfile.Verification.Reports.{
  VerificationReport, find_rule, artifact_ids, rule_ids, results_of, item_artifacts, check_scope,
  check_rule_results, check_all_rules, validate_results, validate_rules, verification_report,
  check_result_refs, validate_artifacts,
}

-- A result that bears on the artifact, with its rule.
pub record Bears (rules : List RuleDefinition) (artifact_id : ArtifactId)
    (results : List RuleResult) (rule : RuleDefinition) (result : RuleResult) : Type 0 where
  pub listed : Memᴰ result results
  pub affects : contains artifact_id result.affected_artifact_ids ≡ true
  pub known : find_rule result.rule_id rules ≡ some rule
  pub applies : (rule.applicability == applicable) ≡ true

-- A rule that the table gives back stands in the list under its own id.
pub find_rule-mem :
    (rule_id : RuleId) (rules : List RuleDefinition) {rule : RuleDefinition}
    → find_rule rule_id rules ≡ some rule
    → Memᴰ rule rules × (rule.rule_id ≡ rule_id)
unfolding find_rule
find_rule-mem rule_id [] h = absurd (cc)
find_rule-mem rule_id (r ∷ rules) h = elim (or_else_inv (find_rule rule_id rules) _ h) [
  | inl later ↦ let (m, e) = find_rule-mem rule_id rules later in (Memᴰ.tail m, e)
  | inr here ↦
      let (b, e) = if_some_inv (r.rule_id == rule_id) r here in
      (Memᴰ.head (sym e), ap (λ (x : RuleDefinition). x.rule_id) (sym e) ∙ ==→eq _ _ b)
]

find_rule-none :
    (rule_id : RuleId) (rules : List RuleDefinition)
    → contains rule_id (rule_ids rules) ≡ false
    → find_rule rule_id rules ≡ none
unfolding find_rule
find_rule-none rule_id [] h = refl
find_rule-none rule_id (r ∷ rules) h =
    ground (arith, ==_sym rule_id r.rule_id, find_rule-none rule_id rules)

-- In a list of rules with unique ids every rule is found under its id.
pub mem-find_rule :
    (rule : RuleDefinition) (rules : List RuleDefinition)
    → has_duplicates (rule_ids rules) ≡ false
    → Memᴰ rule rules
    → find_rule rule.rule_id rules ≡ some rule
unfolding find_rule
mem-find_rule rule [] u m = elim m [ ]
mem-find_rule rule (r ∷ rules) u (Memᴰ.head e) =
    subst (λ x. find_rule x.rule_id (r ∷ rules) ≡ some x) (sym e)
      (rw (find_rule-none r.rule_id rules (ground arith), ==_refl r.rule_id))
mem-find_rule rule (r ∷ rules) u (Memᴰ.tail m) = rw (mem-find_rule rule rules (ground arith) m)

-- A round of `item_artifacts` that succeeds saw exactly one artifact.
item_artifacts-cons :
    (r : RuleResult) (results : List RuleResult) (ids : List ArtifactId)
    → item_artifacts (r ∷ results) ≡ ok ids
    → (head : ArtifactId) × (tail : List ArtifactId) × (r.affected_artifact_ids ≡ head ∷ [])
      × (item_artifacts results ≡ ok tail)
      × (head ∷ tail ≡ ids)
unfolding item_artifacts
item_artifacts-cons r results ids h = ground arith

item_step :
    {r : RuleResult} {results : List RuleResult} {head artifact_id : ArtifactId}
    {tail : List ArtifactId}
    → (Memᴰ artifact_id tail
        → (result : RuleResult) × Memᴰ result results
          × (contains artifact_id result.affected_artifact_ids ≡ true))
    → r.affected_artifact_ids ≡ head ∷ []
    → Memᴰ artifact_id (head ∷ tail)
    → (result : RuleResult) × Memᴰ result (r ∷ results)
      × (contains artifact_id result.affected_artifact_ids ≡ true)
item_step {r} {head = head} later first (Memᴰ.head e) =
    (r, Memᴰ.head refl, rw first (rw e (ground (arith, ==_refl head))))
item_step later first (Memᴰ.tail m) =
    let (result, listed, affects) = later m in (result, Memᴰ.tail listed, affects)

item_artifacts-mem :
    (results : List RuleResult) (ids : List ArtifactId) (artifact_id : ArtifactId)
    → item_artifacts results ≡ ok ids
    → Memᴰ artifact_id ids
    → (result : RuleResult) × Memᴰ result results
      × (contains artifact_id result.affected_artifact_ids ≡ true)
unfolding item_artifacts
item_artifacts-mem [] ids artifact_id h m = elim (subst (Memᴰ artifact_id) (sym (ok_inj h)) m) [ ]
item_artifacts-mem (r ∷ results) ids artifact_id h m =
    let (head, tail, first, rest, e) = item_artifacts-cons r results ids h in
    item_step (item_artifacts-mem results tail artifact_id rest) first
      (subst (Memᴰ artifact_id) (sym e) m)

-- A rule that passed its round has a result for every artifact of the report.
scope_covers :
    (scope : RuleScope) (ids : List ArtifactId) (results : List RuleResult)
    (artifact_id : ArtifactId)
    → check_scope scope ids results ≡ ok tt
    → contains artifact_id ids ≡ true
    → (result : RuleResult) × Memᴰ result results
      × (contains artifact_id result.affected_artifact_ids ≡ true)
unfolding check_scope
scope_covers item ids results artifact_id h c =
    let (actual, collected, k) = >>=-eq-ok (item_artifacts results) _ h in
    let same = refuse_if-eq-ok _ _ k in
    let covered : all (λ y. contains y actual) ids ≡ true = ground (arith, same) in
    item_artifacts-mem results actual artifact_id collected
      (contains-mem artifact_id actual (all-mem _ (contains-mem artifact_id ids c) covered))
scope_covers batch ids [] artifact_id h c = absurd (cc)
scope_covers batch ids (result ∷ more) artifact_id h c =
    let ordered : (result.affected_artifact_ids == ids) ≡ true =
      ground (arith, refuse_if-eq-ok _ _ h) in
    (result, Memᴰ.head refl, rw (==→eq result.affected_artifact_ids ids ordered) c)

rule_checked :
    (ids : List ArtifactId) (results : List RuleResult) (rules : List RuleDefinition)
    {rule : RuleDefinition}
    → check_all_rules ids results rules ≡ ok tt
    → Memᴰ rule rules
    → check_rule_results ids results rule ≡ ok tt
unfolding check_all_rules
rule_checked ids results [] h m = elim m [ ]
rule_checked ids results (r ∷ rules) h (Memᴰ.head e) =
    subst (λ x. check_rule_results ids results x ≡ ok tt) (sym e) (>>-eq-ok _ _ h).0
rule_checked ids results (r ∷ rules) h (Memᴰ.tail m) =
    rule_checked ids results rules (>>-eq-ok _ _ h).1 m

-- The constructor gives back what it was given.
pub verification_report-same :
    (given report : VerificationReport) → verification_report given ≡ ok report → given ≡ report
unfolding verification_report
verification_report-same given report h =
    let (_, h1) = >>-eq-ok (validate_artifacts given.artifacts) _ h in
    let (_, h2) = >>-eq-ok (validate_rules given.rules) _ h1 in
    let (_, h3) = >>-eq-ok (validate_results given.artifacts given.rules given.results) _ h2 in
    ok_inj h3

-- The parts of a successful validation.
pub record Checked (report : VerificationReport) : Type 0 where
  pub unique_rules : has_duplicates (rule_ids report.rules) ≡ false
  pub refs : check_result_refs (artifact_ids report.artifacts) report.rules report.results ≡ ok tt
  pub covered : check_all_rules (artifact_ids report.artifacts) report.results report.rules ≡ ok tt

pub verification_report-Checked :
    (report : VerificationReport) → verification_report report ≡ ok report → Checked report
unfolding verification_report validate_rules validate_results
verification_report-Checked report h =
    let (_, h1) = >>-eq-ok _ _ h in
    let (u, h2) = >>-eq-ok _ _ h1 in
    let (v, _) = >>-eq-ok _ _ h2 in
    let (refs, covered) = >>-eq-ok _ _ v in
    record { unique_rules = refuse_if-eq-ok _ _ u; refs = refs; covered = covered }

-- A validated report has a result of every applicable rule for every one of its artifacts.
pub report_covers :
    (report : VerificationReport) (artifact_id : ArtifactId) (rule : RuleDefinition)
    → verification_report report ≡ ok report
    → contains artifact_id (artifact_ids report.artifacts) ≡ true
    → Memᴰ rule report.rules
    → rule.applicability ≡ applicable
    → (result : RuleResult) × Bears report.rules artifact_id report.results rule result
unfolding check_rule_results
report_covers report artifact_id rule h c m a =
    let checked = verification_report-Checked report h in
    let round = rule_checked _ report.results report.rules checked.covered m in
    let (result, listed, affects) =
      scope_covers rule.scope (artifact_ids report.artifacts)
        (results_of rule.rule_id report.results) artifact_id (rw a at round) c in
    let (in_report, same_id) = select-mem _ report.results listed in
    (
      result,
      record {
        listed = in_report;
        affects = affects;
        known =
            rw (==→eq result.rule_id rule.rule_id same_id)
              (mem-find_rule rule report.rules checked.unique_rules m);
        applies = rw a refl;
      },
    )
