-- ===== src/Evaluation/StopContract.antt =====
-- src/specstyle/evaluation/stop_contract.py, on the fields of an attempt that it reads. The texts that
-- name an arm, a status or a decision are enumerations; a kind of event is any text.
pub mod Stops
use lookfile.Prelude.{
  ℕ, ◌+◌, ◌≡◌, arith, Bool, true, false, not, ◌&&◌, ◌||◌, Option, none, some, List, [], ◌∷◌, Eq,
  ◌==◌, ◌!=◌, nat_eq, list_eq, option_eq, bool_eq, enum_eq, Result, ok, err, domain_error,
  refuse_if, ◌>>=◌, ◌>>◌, ltb, length, any, select, is_empty, has_duplicates, if◌then◌else◌,
}
use lookfile.Domain.Text.{Text, text}
use lookfile.Domain.Float.{Float, finite, infinite, nan}
use lookfile.Domain.Identifiers.{Sha256}

-- `FORMAL_ARMS` of protocol.py
pub data Arm : Type 0 where
  single_pass random_retry best_of_k directed_no_guardrail full_specstyle : Arm

pub data GenerationStatus : Type 0 where
  generated generation_failed : GenerationStatus

pub data GuardrailDecision : Type 0 where
  disabled_evaluation_only not_applicable passed rejected : GuardrailDecision

abbrev status_position : GenerationStatus → ℕ
status_position generated = 0
status_position generation_failed = 1

pub status_position_inj : (a b : GenerationStatus) → status_position a ≡ status_position b → a ≡ b
status_position_inj a b h = ground arith

instance abbrev pub generation_status_eq : Eq GenerationStatus
generation_status_eq = enum_eq status_position status_position_inj

abbrev decision_position : GuardrailDecision → ℕ
decision_position disabled_evaluation_only = 0
decision_position not_applicable = 1
decision_position passed = 2
decision_position rejected = 3

pub decision_position_inj :
    (a b : GuardrailDecision) → decision_position a ≡ decision_position b → a ≡ b
decision_position_inj a b h = ground arith

instance abbrev pub guardrail_decision_eq : Eq GuardrailDecision
guardrail_decision_eq = enum_eq decision_position decision_position_inj

-- The fields of an attempt that the contract reads.
pub record Attempt : Type 0 where
  pub generation_status : GenerationStatus
  pub artifact_sha256 : Option Sha256
  pub qa_pass : Bool
  pub repair_action_sha256 : Option Sha256
  pub trigger_rule_ids : List Text
  pub utility_score : Option Float

pub record StopEvent : Type 0 where
  pub generation_index : Option ℕ
  pub guardrail_decision : GuardrailDecision
  pub kind : Text
  pub repair_action_sha256 : Option Sha256
  pub result_sha256 : Sha256
  pub trigger_rule_ids : List Text

abbrev pub invalid_ledger : {A : Type 0} → Result A
invalid_ledger = err (domain_error "invalid machine evaluation ledger")

abbrev index_fits : Option ℕ → ℕ → Bool
index_fits none n = true
index_fits (some i) n = ltb i n

-- The checks of `parse_stop_event` on an event whose fields have their types
unfoldable pub parse_stop_event : StopEvent → List Attempt → Result StopEvent
parse_stop_event event attempts = do
  refuse_if (not (index_fits event.generation_index (length attempts)))
      "invalid machine evaluation ledger"
  refuse_if (has_duplicates event.trigger_rule_ids) "invalid machine evaluation ledger"
  ok event

abbrev pub is_none : {A : Type 0} → Option A → Bool
is_none none = true
is_none (some a) = false

-- `index == count - 1` in the source's integers, where no attempt gives -1
abbrev pub is_last_index : Option ℕ → ℕ → Bool
is_last_index none count = false
is_last_index (some i) count = i + 1 == count

-- `_plain`, on the number of attempts in place of the last index
unfoldable pub plain : StopEvent → ℕ → Bool
plain event count =
    is_last_index event.generation_index count
    && event.guardrail_decision == not_applicable
    && is_none event.repair_action_sha256
    && is_empty event.trigger_rule_ids

abbrev pub is_full : Arm → Bool
is_full full_specstyle = true
is_full _ = false

-- `_early_repair`, with `attempts[-1]`; a list of attempts is not empty.
abbrev pub early_repair_of : Arm → ℕ → Attempt → StopEvent → Bool
early_repair_of arm count last event =
    if event.kind == text "GENERATION_FAILED"
    then is_last_index event.generation_index count
      && last.generation_status == generation_failed
      && event.guardrail_decision == not_applicable
      && is_none event.repair_action_sha256
      && is_empty event.trigger_rule_ids
    else if event.kind == text "NO_ACTION_AVAILABLE"
    then is_none event.generation_index
      && event.guardrail_decision == not_applicable
      && is_none event.repair_action_sha256
      && not (is_empty event.trigger_rule_ids)
    else if event.kind == text "UNVERIFIABLE"
    then is_last_index event.generation_index count
      && last.generation_status == generated
      && event.guardrail_decision == not_applicable
      && is_none event.repair_action_sha256
      && not (is_empty event.trigger_rule_ids)
    else if not (is_full arm)
    then false
    else if event.kind == text "NO_IMPROVEMENT"
    then is_last_index event.generation_index count
      && last.generation_status == generated
      && event.guardrail_decision == passed
      && event.repair_action_sha256 == last.repair_action_sha256
      && event.trigger_rule_ids == last.trigger_rule_ids
      && not (is_empty event.trigger_rule_ids)
    else event.kind == text "GUARDRAIL_REJECTED"
      && is_none event.generation_index
      && event.guardrail_decision == rejected
      && not (is_none event.repair_action_sha256)
      && not (is_empty event.trigger_rule_ids)

abbrev pub last_of : List Attempt → Option Attempt
last_of [] = none
last_of (a ∷ []) = some a
last_of (a ∷ b ∷ as') = last_of (b ∷ as')

abbrev early_by : Arm → ℕ → Option Attempt → StopEvent → Bool
early_by arm count none event = false
early_by arm count (some last) event = early_repair_of arm count last event

unfoldable pub early_repair : Arm → List Attempt → StopEvent → Bool
early_repair arm attempts event = early_by arm (length attempts) (last_of attempts) event

-- The conditions that arms share: a pass, and the end of the budget without one.
abbrev pub passed_stop : List Attempt → StopEvent → Bool
passed_stop attempts event =
    any (λ a. a.qa_pass) attempts && event.kind == text "QA_PASSED" && plain event (length attempts)

abbrev pub exhausted_stop : List Attempt → ℕ → StopEvent → Bool
exhausted_stop attempts maximum event =
    length attempts == maximum
    && event.kind == text "BUDGET_EXHAUSTED"
    && plain event (length attempts)

abbrev pub repairing_stop : Arm → List Attempt → ℕ → StopEvent → Bool
repairing_stop arm attempts maximum event =
    passed_stop attempts event
    || (not (any (λ a. a.qa_pass) attempts) && exhausted_stop attempts maximum event)
    || (not (any (λ a. a.qa_pass) attempts)
        && ltb (length attempts) maximum
        && early_repair arm attempts event)

-- `_valid_stop`
unfoldable pub valid_stop : Arm → List Attempt → ℕ → StopEvent → Bool
valid_stop single_pass attempts maximum event =
    length attempts == 1
    && event.kind == text "SINGLE_PASS_COMPLETE"
    && plain event (length attempts)
valid_stop random_retry attempts maximum event =
    passed_stop attempts event
    || (not (any (λ a. a.qa_pass) attempts) && exhausted_stop attempts maximum event)
valid_stop best_of_k attempts maximum event = exhausted_stop attempts maximum event
valid_stop directed_no_guardrail attempts maximum event =
    repairing_stop directed_no_guardrail attempts maximum event
valid_stop full_specstyle attempts maximum event =
    repairing_stop full_specstyle attempts maximum event

-- `a < b` and `a == b` on finite floats; the two zeros are equal.
abbrev pub float_lt : Float → Float → Bool
float_lt (finite true m) (finite true n) = ltb n m
float_lt (finite true m) (finite false n) = ltb 0 m || ltb 0 n
float_lt (finite false m) (finite true n) = false
float_lt (finite false m) (finite false n) = ltb m n
float_lt _ _ = false

abbrev pub same_score : Option Float → Option Float → Bool
same_score (some a) (some b) = not (float_lt a b) && not (float_lt b a)
same_score _ _ = false

-- `max(...)` of the scores, none of which is missing in a ledger that was parsed
abbrev pub greater : Option Float → Option Float → Option Float
greater none b = b
greater (some a) none = some a
greater (some a) (some b) = if float_lt a b then some b else some a

abbrev pub best_score : List Attempt → Option Float
best_score [] = none
best_score (a ∷ as') = greater a.utility_score (best_score as')

-- `next(item for item in generated if item["utility_score"] == best)`
abbrev pub first_scored : Option Float → List Attempt → Option Attempt
first_scored best [] = none
first_scored best (a ∷ as') =
    let later = first_scored best as' in if same_score a.utility_score best then some a else later

abbrev pub artifact_of : Option Attempt → Option Sha256
artifact_of none = none
artifact_of (some a) = a.artifact_sha256

abbrev pub generated_attempts : List Attempt → List Attempt
generated_attempts attempts = select (λ a. not (is_none a.artifact_sha256)) attempts

-- The first index of a pass is the last index, if there is one.
abbrev pub pass_is_last : List Attempt → Bool
pass_is_last [] = true
pass_is_last (a ∷ as') = let later = pass_is_last as' in if a.qa_pass then is_empty as' else later

abbrev pub is_best_of_k : Arm → Bool
is_best_of_k best_of_k = true
is_best_of_k _ = false

abbrev pub check_candidate : Arm → List Attempt → Option Sha256 → Result (Unit {0})
check_candidate arm attempts candidate =
    if is_best_of_k arm
    then refuse_if
        (not (is_none candidate)
          && candidate
            != artifact_of (
                first_scored (best_score (generated_attempts attempts))
                  (generated_attempts attempts)))
        "invalid machine evaluation ledger"
    else (do
      refuse_if (not (pass_is_last attempts)) "invalid machine evaluation ledger"
      refuse_if
          (not (is_none candidate)
            && candidate != artifact_of (last_of (generated_attempts attempts)))
          "invalid machine evaluation ledger")

-- `validate_stopping`
unfoldable pub validate_stopping :
    Arm → List Attempt → Option Sha256 → ℕ → StopEvent → Result (Unit {0})
validate_stopping arm attempts candidate maximum stop_event = do
  refuse_if (not (valid_stop arm attempts maximum stop_event)) "invalid machine evaluation ledger"
  check_candidate arm attempts candidate
