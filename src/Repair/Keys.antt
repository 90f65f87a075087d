-- ===== src/Repair/Keys.antt =====
-- The comparisons of src/specstyle/repair/history.py: `_report_key` forgets the order of the results.
use lookfile.Prelude.{
  ◌≡◌, ◌↔◌, Bool, true, false, ◌&&◌, Option, none, some, List, [], ◌∷◌, Eq, ◌==◌, nat_eq, list_eq,
  option_eq, bool_eq, ==_iff, arith, option_map, if◌then◌else◌,
}
use lookfile.Domain.Enums.{rule_status_eq}
use lookfile.Domain.Float.{Float, finite, infinite, nan}
use lookfile.Domain.Artifacts.{artifact_ref_eq}
use lookfile.Verification.RuleModels.{RuleResult}
use lookfile.Verification.Reports.{VerificationReport}
use lookfile.Repair.Models.{RepairDecision, repair_patch_eq}
use lookfile.Repair.Requests.{rule_definition_eq}

-- `float.hex` tells two values apart when their sign or their size differs.
abbrev float_beq : Float → Float → Bool
float_beq (finite s m) (finite t n) = s == t && m == n
float_beq (infinite s) (infinite t) = s == t
float_beq nan nan = true
float_beq _ _ = false

pub float_beq_iff : (a b : Float) → (float_beq a b ≡ true) ↔ (a ≡ b)
float_beq_iff (finite s m) (finite t n) = ground (arith, ==_iff s t, ==_iff m n)
float_beq_iff (finite s m) (infinite t) = (λ h. cc, λ h. cc)
float_beq_iff (finite s m) nan = (λ h. cc, λ h. cc)
float_beq_iff (infinite s) (finite t n) = (λ h. cc, λ h. cc)
float_beq_iff (infinite s) (infinite t) = ground (arith, ==_iff s t)
float_beq_iff (infinite s) nan = (λ h. cc, λ h. cc)
float_beq_iff nan (finite t n) = (λ h. cc, λ h. cc)
float_beq_iff nan (infinite t) = (λ h. cc, λ h. cc)
float_beq_iff nan nan = ground arith

instance abbrev pub float_eq : Eq Float
float_eq = record { beq = float_beq; beq_iff = float_beq_iff }

abbrev rule_result_beq : RuleResult → RuleResult → Bool
rule_result_beq a b =
    a.rule_id == b.rule_id
    && a.status == b.status
    && a.affected_artifact_ids == b.affected_artifact_ids
    && a.score == b.score

pub rule_result_beq_iff : (a b : RuleResult) → (rule_result_beq a b ≡ true) ↔ (a ≡ b)
rule_result_beq_iff a b = ground (
  arith,
  ==_iff a.rule_id b.rule_id,
  ==_iff a.status b.status,
  ==_iff a.affected_artifact_ids b.affected_artifact_ids,
  ==_iff a.score b.score,
)

instance abbrev pub rule_result_eq : Eq RuleResult
rule_result_eq = record { beq = rule_result_beq; beq_iff = rule_result_beq_iff }

module _ {A : Type 0} ⦃e : Eq A⦄ where
  -- A list without the first occurrence of an element, if it has one
  abbrev pub remove : A → List A → Option (List A)
  remove a [] = none
  remove a (b ∷ bs) =
      let later = remove a bs in if a == b then some bs else option_map (λ rest. b ∷ rest) later

  -- Equal once sorted: the elements of the first are those of the second, each as often.
  abbrev same_bag_or : (List A → Bool) → Option (List A) → Bool
  same_bag_or same none = false
  same_bag_or same (some rest) = same rest

  abbrev pub same_bag : List A → List A → Bool
  same_bag [] [] = true
  same_bag [] (b ∷ bs) = false
  same_bag (a ∷ as') bs = let same = same_bag as' in same_bag_or same (remove a bs)

-- `_report_key(a) == _report_key(b)`
abbrev pub same_report : VerificationReport → VerificationReport → Bool
same_report a b = a.artifacts == b.artifacts && a.rules == b.rules && same_bag a.results b.results

-- `_decision_key(a) == _decision_key(b)`
abbrev repair_decision_beq : RepairDecision → RepairDecision → Bool
repair_decision_beq a b =
    a.decision_id == b.decision_id
    && a.policy_version == b.policy_version
    && a.trigger_rule_id == b.trigger_rule_id
    && a.action_id == b.action_id
    && a.patch == b.patch

pub repair_decision_beq_iff : (a b : RepairDecision) → (repair_decision_beq a b ≡ true) ↔ (a ≡ b)
repair_decision_beq_iff a b = ground (
  arith,
  ==_iff a.decision_id b.decision_id,
  ==_iff a.policy_version b.policy_version,
  ==_iff a.trigger_rule_id b.trigger_rule_id,
  ==_iff a.action_id b.action_id,
  ==_iff a.patch b.patch,
)

instance abbrev pub repair_decision_eq : Eq RepairDecision
repair_decision_eq = record { beq = repair_decision_beq; beq_iff = repair_decision_beq_iff }
