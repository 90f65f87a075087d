-- ===== src/Repair/History.antt =====
-- src/specstyle/repair/history.py: a history is replayed whenever one is made. The hashes of a
-- request are parameters.
pub mod Rounds
pub mod Sound
use lookfile.Prelude.{
  ℕ, zero, suc, ◌+◌, Bool, true, false, not, ◌&&◌, ◌||◌, Option, none, some, List, [], ◌∷◌, ◌++◌,
  map, Eq, ◌==◌, ◌!=◌, nat_eq, list_eq, Result, ok, err, domain_error, relabel, refuse_if, ◌>>=◌,
  ◌>>◌, ltb, length, contains, select, option_map, if◌then◌else◌,
}
use lookfile.Domain.Text.{Text, text}
use lookfile.Domain.Identifiers.{ArtifactId, AttemptId, DecisionId, Sha256}
use lookfile.Domain.Artifacts.{ArtifactRef, artifact_ref_eq}
use lookfile.Verification.RuleModels.{RuleDefinition}
use lookfile.Verification.Reports.{VerificationReport}
use lookfile.Repair.Models.{generation_parameters_eq, max_variation_index, RepairDecision}
use lookfile.Repair.Requests.{
  rule_definition_eq, CompiledRule, CompiledVerificationPlan, CompiledExecutionGraph,
  GenerationRequest, is_initial, graphs_of,
}
use lookfile.Repair.Context.{applicable_rule_definitions}
use lookfile.Repair.Actions.{repair_policy_from_request, build_repair_request}
use lookfile.Repair.Policies.{
  StateKey, state_key_eq, Selection, repair, no_repair, repair_state_key, select_repair,
}
use lookfile.Repair.Guardrails.{is_repair_improvement}
use lookfile.Repair.Comparison.{request_eq}
use lookfile.Repair.Keys.{same_report, repair_decision_eq}

-- `GeneratedArtifact` of src/specstyle/generation/protocols.py
pub record GeneratedArtifact : Type 0 where
  pub ref : ArtifactRef
  pub content : List ℕ
  pub request_hash : Sha256
  pub generation_fingerprint : Sha256

-- The place of the first reference that is equal to one, and whether a child's cohort differs from
-- its parent's only there, where it holds the new reference.
abbrev pub find_slot : ArtifactRef → List ArtifactRef → Option ℕ
find_slot ref [] = none
find_slot ref (r ∷ refs) =
    let later = find_slot ref refs in if r == ref then some 0 else option_map (λ n. n + 1) later

abbrev pub cohort_fits : ℕ → ArtifactRef → List ArtifactRef → List ArtifactRef → Bool
cohort_fits n new [] [] = false
cohort_fits n new [] (c ∷ cs) = false
cohort_fits n new (p ∷ ps) [] = false
cohort_fits zero new (p ∷ ps) (c ∷ cs) = c == new && ps == cs
cohort_fits (suc n) new (p ∷ ps) (c ∷ cs) = let rest = cohort_fits n new ps cs in p == c && rest

abbrev pub slot_fits : Option ℕ → ArtifactRef → List ArtifactRef → List ArtifactRef → Bool
slot_fits none new parent child = false
slot_fits (some n) new parent child = cohort_fits n new parent child

pub record InitialAttempt (Binding Material : Type 0) : Type 0 where
  pub request : GenerationRequest Binding Material
  pub artifact : GeneratedArtifact
  pub report : VerificationReport

pub record RepairAttempt (Binding Material : Type 0) : Type 0 where
  pub parent_report : VerificationReport
  pub decision : RepairDecision
  pub request : GenerationRequest Binding Material
  pub artifact : GeneratedArtifact
  pub report : VerificationReport

pub record RepairHistory (Binding Material : Type 0) : Type 0 where
  pub initial_attempt : InitialAttempt Binding Material
  pub repair_attempts : List (RepairAttempt Binding Material)
  pub rounds : ℕ
  pub consecutive_no_improvement : ℕ
  pub seen_state_keys : List StateKey

-- The local variables of `_replay`.
pub record Replay (Binding Material : Type 0) : Type 0 where
  pub request : GenerationRequest Binding Material
  pub artifact : GeneratedArtifact
  pub report : VerificationReport
  pub seen : List StateKey
  pub no_improvement : ℕ
  pub attempt_ids : List AttemptId
  pub artifact_ids : List ArtifactId
  pub decision_ids : List DecisionId

abbrev pub invalid_history : {A : Type 0} → Result A
invalid_history = err (domain_error "invalid repair history")

-- A result that is not a repair is refused, and so is another repair than the one recorded.
abbrev pub check_selected : Selection → RepairDecision → Result (Unit {0})
check_selected (no_repair none_left) decision = invalid_history
check_selected (repair selected) decision =
    refuse_if (selected != decision) "invalid repair history"

module _ {Binding : Type 0} where
  abbrev pub the_plan :
      List (CompiledVerificationPlan Binding) → Result (CompiledVerificationPlan Binding)
  the_plan (plan ∷ []) = ok plan
  the_plan _ = invalid_history

  -- `_check_report`
  unfoldable pub check_report :
      CompiledVerificationPlan Binding → VerificationReport → Result (Unit {0})
  check_report plan report =
      refuse_if (report.rules != applicable_rule_definitions plan) "invalid repair history"

module _ {Binding Material : Type 0} where
  -- `_state`
  unfoldable pub state : GenerationRequest Binding Material → Result StateKey
  state request = do
    refuse_if (ltb max_variation_index request.variation_index) "invalid repair history"
    ok (repair_state_key request)

  -- `_plan_for`
  unfoldable pub plan_for :
      GenerationRequest Binding Material → Result (CompiledVerificationPlan Binding)
  plan_for request = the_plan (
      select (λ plan. plan.output_profile == request.output_profile)
        request.compiled_spec.verification_plans)

  -- The defaults of `request.graph`
  abbrev pub check_defaults :
      List CompiledExecutionGraph → GenerationRequest Binding Material → Result (Unit {0})
  check_defaults (graph ∷ []) request =
      refuse_if (request.execution_parameters != graph.defaults) "invalid initial repair attempt"
  check_defaults _ request =
      err (domain_error "generation selectors must resolve exactly one graph")

  -- The end of a round
  unfoldable pub record_attempt :
      Replay Binding Material
      → RepairAttempt Binding Material
      → Bool
      → Result (Replay Binding Material)
  record_attempt r attempt improved = do
    next_state ← state attempt.request
    refuse_if (contains next_state r.seen) "invalid repair history"
    ok (record {
      request = attempt.request;
      artifact = attempt.artifact;
      report = attempt.report;
      seen = r.seen ++ next_state ∷ [];
      no_improvement = if improved then 0 else r.no_improvement + 1;
      attempt_ids = r.attempt_ids ++ attempt.request.attempt_id ∷ [];
      artifact_ids = r.artifact_ids ++ attempt.artifact.ref.artifact_id ∷ [];
      decision_ids = r.decision_ids ++ attempt.decision.decision_id ∷ [];
    })

  abbrev pub replay_start : InitialAttempt Binding Material → StateKey → Replay Binding Material
  replay_start initial key = record {
    request = initial.request;
    artifact = initial.artifact;
    report = initial.report;
    seen = key ∷ [];
    no_improvement = 0;
    attempt_ids = initial.request.attempt_id ∷ [];
    artifact_ids = initial.artifact.ref.artifact_id ∷ [];
    decision_ids = [];
  }

module _ {Binding Material : Type 0} ⦃d : Eq Binding⦄ ⦃m : Eq Material⦄
    (request_hash generation_fingerprint : GenerationRequest Binding Material → Sha256) where
  abbrev pub is_made_by : GeneratedArtifact → GenerationRequest Binding Material → Bool
  is_made_by artifact request =
      artifact.request_hash == request_hash request
      && artifact.generation_fingerprint == generation_fingerprint request

  -- `_check_initial`
  unfoldable pub check_initial : InitialAttempt Binding Material → Result (Unit {0})
  check_initial initial = do
    refuse_if (not (is_initial initial.request.parent_attempt_id)) "invalid initial repair attempt"
    _ ← state initial.request
    check_defaults (graphs_of initial.request) initial.request
    refuse_if (not (is_made_by initial.artifact initial.request)) "invalid initial repair attempt"
    refuse_if (not (contains initial.artifact.ref initial.report.artifacts))
        "invalid initial repair attempt"
    plan ← plan_for initial.request
    check_report plan initial.report

  -- `InitialAttempt.__post_init__`
  unfoldable pub initial_attempt :
      InitialAttempt Binding Material → Result (InitialAttempt Binding Material)
  initial_attempt initial =
      relabel "invalid initial repair attempt" (do check_initial initial; ok initial)

  -- The checks of the loop of `_replay` on one attempt, up to the test of an improvement
  unfoldable pub check_attempt :
      CompiledVerificationPlan Binding
      → Replay Binding Material
      → RepairAttempt Binding Material
      → Result (Unit {0})
  check_attempt plan r attempt = do
    refuse_if (not (same_report attempt.parent_report r.report)) "invalid repair history"
    selected ←
        select_repair r.request plan r.report r.artifact.ref.artifact_id
          attempt.decision.decision_id r.seen
    check_selected selected attempt.decision
    expected ← build_repair_request r.request attempt.decision attempt.request.attempt_id
    refuse_if (expected != attempt.request) "invalid repair history"
    refuse_if
        (contains attempt.request.attempt_id r.attempt_ids
          || contains attempt.decision.decision_id r.decision_ids
          || contains attempt.artifact.ref.artifact_id r.artifact_ids)
        "invalid repair history"
    refuse_if (not (is_made_by attempt.artifact attempt.request)) "invalid repair history"
    check_report plan attempt.report
    refuse_if
        (not (
          slot_fits (find_slot r.artifact.ref r.report.artifacts) attempt.artifact.ref
            r.report.artifacts attempt.report.artifacts))
        "invalid repair history"

  -- One round of the loop of `_replay`
  unfoldable pub replay_attempt :
      Replay Binding Material → RepairAttempt Binding Material → Result (Replay Binding Material)
  replay_attempt r attempt = do
    plan ← plan_for r.request
    check_attempt plan r attempt
    improved ←
        is_repair_improvement plan r.report attempt.report r.artifact.ref.artifact_id
          attempt.artifact.ref.artifact_id attempt.decision
    record_attempt r attempt improved

  unfoldable pub replay_attempts :
      Replay Binding Material
      → List (RepairAttempt Binding Material)
      → Result (Replay Binding Material)
  replay_attempts r [] = ok r
  replay_attempts r (attempt ∷ attempts) =
      replay_attempt r attempt >>= λ next. replay_attempts next attempts

  -- `_replay`
  unfoldable pub replay :
      InitialAttempt Binding Material
      → List (RepairAttempt Binding Material)
      → Result (Replay Binding Material)
  replay initial attempts = do
    key ← state initial.request
    last ← replay_attempts (replay_start initial key) attempts
    policy ← repair_policy_from_request last.request
    refuse_if (ltb policy.max_rounds (length attempts)) "invalid repair history"
    ok last

  -- `RepairHistory.__post_init__`
  unfoldable pub repair_history :
      InitialAttempt Binding Material
      → List (RepairAttempt Binding Material)
      → Result (RepairHistory Binding Material)
  repair_history initial attempts = relabel "invalid repair history" (do
    made ← initial_attempt initial
    last ← replay made attempts
    ok (record {
      initial_attempt = made;
      repair_attempts = attempts;
      rounds = length attempts;
      consecutive_no_improvement = last.no_improvement;
      seen_state_keys = last.seen;
    }))
