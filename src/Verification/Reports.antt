-- ===== src/Verification/Reports.antt =====
-- src/specstyle/verification/rule_models.py: `VerificationReport` and its validation.
pub mod Coverage
use lookfile.Prelude.{
  or_else, if◌then◌else◌, ◌+◌, ℕ, Bool, true, false, not, ◌&&◌, ◌||◌, Option, none, some, List, [],
  ◌∷◌, map, ◌==◌, ◌!=◌, nat_eq, list_eq, Result, ok, err, domain_error, refuse_if, ◌>>=◌, ◌>>◌,
  length, any, all, select, contains, has_duplicates, is_empty,
}
use lookfile.Domain.Enums.{
  StaticApplicability, not_applicable, static_applicability_eq, RuleScope, item, batch,
}
use lookfile.Domain.Identifiers.{ArtifactId, RuleId}
use lookfile.Domain.Artifacts.{ArtifactRef}
use lookfile.Verification.RuleModels.{RuleDefinition, RuleResult}

pub record VerificationReport : Type 0 where
  pub artifacts : List ArtifactRef
  pub rules : List RuleDefinition
  pub results : List RuleResult

abbrev pub artifact_ids : List ArtifactRef → List ArtifactId
artifact_ids = map (λ artifact. artifact.artifact_id)

abbrev pub rule_ids : List RuleDefinition → List RuleId
rule_ids = map (λ rule. rule.rule_id)

-- `{rule.rule_id: rule for rule in rules}.get(rule_id)`: a later rule replaces an earlier one.
unfoldable pub find_rule : RuleId → List RuleDefinition → Option RuleDefinition
find_rule rule_id [] = none
find_rule rule_id (rule ∷ rules) =
    or_else (find_rule rule_id rules) (if rule.rule_id == rule_id then some rule else none)

-- `by_rule[rule_id]`
abbrev pub results_of : RuleId → List RuleResult → List RuleResult
results_of rule_id = select (λ result. result.rule_id == rule_id)

abbrev pub check_known : Option RuleDefinition → Result (Unit {0})
check_known none = err (domain_error "result references unknown rule")
check_known (some rule) =
    refuse_if (rule.applicability == not_applicable) "not applicable rule must not have result"

-- The first loop of `_validate_results`.
unfoldable pub check_result_refs :
    List ArtifactId → List RuleDefinition → List RuleResult → Result (Unit {0})
check_result_refs ids rules [] = ok tt
check_result_refs ids rules (result ∷ results) =
    let rest = check_result_refs ids rules results in
    do
      check_known (find_rule result.rule_id rules)
      refuse_if (any (λ artifact_id. not (contains artifact_id ids)) result.affected_artifact_ids)
          "result references unknown artifact"
      rest

-- `actual`: the artifacts that the results of an item rule name, one each.
unfoldable pub item_artifacts : List RuleResult → Result (List ArtifactId)
item_artifacts [] = ok []
item_artifacts (result ∷ results) =
    let rest = item_artifacts results in
    elim result.affected_artifact_ids [
      | [] ↦ err (domain_error "item result must affect exactly one artifact")
      | artifact_id ∷ more ↦ elim more [
        | [] ↦ do actual ← rest; ok (artifact_id ∷ actual)
        | _ ∷ _ ↦ err (domain_error "item result must affect exactly one artifact")
      ]
    ]

-- `set(xs) == set(ys)`
abbrev pub same_set : List ArtifactId → List ArtifactId → Bool
same_set xs ys = all (λ x. contains x ys) xs && all (λ y. contains y xs) ys

-- `len(set(xs))`
unfoldable pub set_size : List ArtifactId → ℕ
set_size [] = 0
set_size (x ∷ xs) = if contains x xs then set_size xs else 1 + set_size xs

unfoldable pub check_scope : RuleScope → List ArtifactId → List RuleResult → Result (Unit {0})
check_scope item ids results = do
  actual ← item_artifacts results
  refuse_if (not (same_set actual ids) || length results != set_size ids)
      "item rule results must cover each artifact exactly once"
check_scope batch ids [] =
    err (domain_error "batch rule must have one result affecting the ordered batch")
check_scope batch ids (result ∷ more) =
    refuse_if (not (is_empty more) || result.affected_artifact_ids != ids)
      "batch rule must have one result affecting the ordered batch"

-- One round of the second loop of `_validate_results`.
unfoldable pub check_rule_results :
    List ArtifactId → List RuleResult → RuleDefinition → Result (Unit {0})
check_rule_results ids results rule =
    let rule_results = results_of rule.rule_id results in
    if rule.applicability == not_applicable
    then refuse_if (not (is_empty rule_results)) "not applicable rule must not have result"
    else check_scope rule.scope ids rule_results

unfoldable pub check_all_rules :
    List ArtifactId → List RuleResult → List RuleDefinition → Result (Unit {0})
check_all_rules ids results [] = ok tt
check_all_rules ids results (rule ∷ rules) =
    let rest = check_all_rules ids results rules in do check_rule_results ids results rule; rest

unfoldable pub validate_results :
    List ArtifactRef → List RuleDefinition → List RuleResult → Result (Unit {0})
validate_results artifacts rules results = do
  check_result_refs (artifact_ids artifacts) rules results
  check_all_rules (artifact_ids artifacts) results rules

unfoldable pub validate_artifacts : List ArtifactRef → Result (Unit {0})
validate_artifacts artifacts = do
  refuse_if (is_empty artifacts) "artifacts must be a nonempty tuple"
  refuse_if (has_duplicates (artifact_ids artifacts)) "artifact ids must be unique"

unfoldable pub validate_rules : List RuleDefinition → Result (Unit {0})
validate_rules rules = refuse_if (has_duplicates (rule_ids rules)) "rule ids must be unique"

unfoldable pub verification_report : VerificationReport → Result VerificationReport
verification_report report = do
  validate_artifacts report.artifacts
  validate_rules report.rules
  validate_results report.artifacts report.rules report.results
  ok report
