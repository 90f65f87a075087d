-- ===== src/Domain/Enums.antt =====
-- src/specstyle/domain/enums.py
use lookfile.Prelude.{ℕ, ◌≡◌, Eq, enum_eq, arith}

pub data RuleStatus : Type 0 where
  pass fail warning unverifiable : RuleStatus

abbrev rule_status_position : RuleStatus → ℕ
rule_status_position pass = 0
rule_status_position fail = 1
rule_status_position warning = 2
rule_status_position RuleStatus.unverifiable = 3

pub rule_status_position_inj :
    (a b : RuleStatus) → rule_status_position a ≡ rule_status_position b → a ≡ b
rule_status_position_inj a b h = ground arith

instance abbrev pub rule_status_eq : Eq RuleStatus
rule_status_eq = enum_eq rule_status_position rule_status_position_inj

pub data StaticApplicability : Type 0 where
  applicable not_applicable : StaticApplicability

abbrev static_applicability_position : StaticApplicability → ℕ
static_applicability_position applicable = 0
static_applicability_position not_applicable = 1

pub static_applicability_position_inj :
    (a b : StaticApplicability)
    → static_applicability_position a ≡ static_applicability_position b
    → a ≡ b
static_applicability_position_inj a b h = ground arith

instance abbrev pub static_applicability_eq : Eq StaticApplicability
static_applicability_eq = enum_eq static_applicability_position static_applicability_position_inj

pub data ArtifactStatus : Type 0 where
  approved rejected manual_review : ArtifactStatus

abbrev artifact_status_position : ArtifactStatus → ℕ
artifact_status_position approved = 0
artifact_status_position rejected = 1
artifact_status_position manual_review = 2

pub artifact_status_position_inj :
    (a b : ArtifactStatus) → artifact_status_position a ≡ artifact_status_position b → a ≡ b
artifact_status_position_inj a b h = ground arith

instance abbrev pub artifact_status_eq : Eq ArtifactStatus
artifact_status_eq = enum_eq artifact_status_position artifact_status_position_inj

pub data DecisionReason : Type 0 where
  all_required_pass required_gate_failed required_gate_unverifiable repair_exhausted manual_policy :
      DecisionReason

abbrev decision_reason_position : DecisionReason → ℕ
decision_reason_position all_required_pass = 0
decision_reason_position required_gate_failed = 1
decision_reason_position required_gate_unverifiable = 2
decision_reason_position repair_exhausted = 3
decision_reason_position manual_policy = 4

pub decision_reason_position_inj :
    (a b : DecisionReason) → decision_reason_position a ≡ decision_reason_position b → a ≡ b
decision_reason_position_inj a b h = ground arith

instance abbrev pub decision_reason_eq : Eq DecisionReason
decision_reason_eq = enum_eq decision_reason_position decision_reason_position_inj

pub data RepairStopReason : Type 0 where
  pass_all_required no_action no_improvement max_rounds unverifiable manual_request :
      RepairStopReason

abbrev repair_stop_reason_position : RepairStopReason → ℕ
repair_stop_reason_position pass_all_required = 0
repair_stop_reason_position no_action = 1
repair_stop_reason_position no_improvement = 2
repair_stop_reason_position max_rounds = 3
repair_stop_reason_position RepairStopReason.unverifiable = 4
repair_stop_reason_position manual_request = 5

pub repair_stop_reason_position_inj :
    (a b : RepairStopReason) → repair_stop_reason_position a ≡ repair_stop_reason_position b → a ≡ b
repair_stop_reason_position_inj a b h = ground arith

instance abbrev pub repair_stop_reason_eq : Eq RepairStopReason
repair_stop_reason_eq = enum_eq repair_stop_reason_position repair_stop_reason_position_inj

pub data RuleLevel : Type 0 where
  l1 l2 l3 : RuleLevel

abbrev rule_level_position : RuleLevel → ℕ
rule_level_position l1 = 0
rule_level_position l2 = 1
rule_level_position l3 = 2

pub rule_level_position_inj :
    (a b : RuleLevel) → rule_level_position a ≡ rule_level_position b → a ≡ b
rule_level_position_inj a b h = ground arith

instance abbrev pub rule_level_eq : Eq RuleLevel
rule_level_eq = enum_eq rule_level_position rule_level_position_inj

pub data RuleScope : Type 0 where
  item batch : RuleScope

abbrev rule_scope_position : RuleScope → ℕ
rule_scope_position item = 0
rule_scope_position batch = 1

pub rule_scope_position_inj :
    (a b : RuleScope) → rule_scope_position a ≡ rule_scope_position b → a ≡ b
rule_scope_position_inj a b h = ground arith

instance abbrev pub rule_scope_eq : Eq RuleScope
rule_scope_eq = enum_eq rule_scope_position rule_scope_position_inj
