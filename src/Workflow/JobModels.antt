-- ===== src/Workflow/JobModels.antt =====
-- src/specstyle/workflow/job_models.py. Each `__post_init__` is a function that returns the object or
-- the error; the tests on Python types are the types of its arguments.
use lookfile.Prelude.{
  ℕ, ◌≡◌, ◌↔◌, Bool, true, false, not, ◌&&◌, ◌||◌, List, [], ◌∷◌, arith, Eq, enum_eq, ◌==◌, ◌!=◌,
  nat_eq, nat_beq_iff, ==_iff, list_eq, Result, ok, refuse_if, ◌>>◌, leb, ltb, length, all,
  contains, has_duplicates, is_empty, if◌then◌else◌,
}
use lookfile.Domain.Text.{Text, text, text_lt}
use lookfile.Domain.Identifiers.{JobId, Sha256}

pub data JobStatus : Type 0 where
  created spec_validated spec_compiled generating verifying approved manual_review rejected
        repair_selecting repairing exporting completed recoverable_error job_failed cancelled :
      JobStatus

abbrev job_status_position : JobStatus → ℕ
job_status_position created = 0
job_status_position spec_validated = 1
job_status_position JobStatus.spec_compiled = 2
job_status_position generating = 3
job_status_position verifying = 4
job_status_position approved = 5
job_status_position manual_review = 6
job_status_position rejected = 7
job_status_position repair_selecting = 8
job_status_position repairing = 9
job_status_position exporting = 10
job_status_position completed = 11
job_status_position recoverable_error = 12
job_status_position job_failed = 13
job_status_position cancelled = 14

pub job_status_position_inj :
    (a b : JobStatus) → job_status_position a ≡ job_status_position b → a ≡ b
job_status_position_inj a b h = ground arith

instance abbrev pub job_status_eq : Eq JobStatus
job_status_eq = enum_eq job_status_position job_status_position_inj

pub data EventType : Type 0 where
  job_started spec_compiled attempt_started attempt_finished verifier_finished repair_step
        export_started export_published recoverable cancel_requested fatal :
      EventType

abbrev event_type_position : EventType → ℕ
event_type_position job_started = 0
event_type_position EventType.spec_compiled = 1
event_type_position attempt_started = 2
event_type_position attempt_finished = 3
event_type_position verifier_finished = 4
event_type_position repair_step = 5
event_type_position export_started = 6
event_type_position export_published = 7
event_type_position recoverable = 8
event_type_position cancel_requested = 9
event_type_position fatal = 10

pub event_type_position_inj :
    (a b : EventType) → event_type_position a ≡ event_type_position b → a ≡ b
event_type_position_inj a b h = ground arith

instance abbrev pub event_type_eq : Eq EventType
event_type_eq = enum_eq event_type_position event_type_position_inj

-- `status in TERMINAL_STATUSES`
abbrev pub is_terminal : JobStatus → Bool
is_terminal completed = true
is_terminal job_failed = true
is_terminal cancelled = true
is_terminal _ = false

abbrev pub OutputProfile : Type 0
OutputProfile = Text

abbrev pub output_profiles : List OutputProfile
output_profiles = text "xhs_grid" ∷ text "talking_head_cover" ∷ text "background_sequence" ∷ []

-- `_profiles`: nonempty, known, and no one twice.
unfoldable pub profiles : List OutputProfile → Result (Unit {0})
profiles value =
    refuse_if
      (is_empty value
        || not (all (λ item. contains item output_profiles) value)
        || has_duplicates value)
      "invalid cohort profiles"

abbrev is_digit : ℕ → Bool
is_digit c = leb b'0' c && leb c b'9'

-- `_TS_RE.fullmatch(value)`: a `0` of the mask stands for a digit, any other character for itself.
abbrev pub matches_mask : Text → Text → Bool
matches_mask [] [] = true
matches_mask [] (c ∷ cs) = false
matches_mask (m ∷ ms) [] = false
matches_mask (m ∷ ms) (c ∷ cs) =
    let rest = matches_mask ms cs in
    if (if m == b'0' then is_digit c else m == c) then rest else false

unfoldable pub is_timestamp : Text → Bool
is_timestamp = matches_mask (text "0000-00-00T00:00:00.000Z")

-- The characters that `str.strip` removes.
abbrev pub is_space : ℕ → Bool
is_space c =
    (leb 9 c && leb c 13)
    || (leb 28 c && leb c 32)
    || c == 0x85
    || c == 0xa0
    || c == 0x1680
    || (leb 0x2000 c && leb c 0x200a)
    || c == 0x2028
    || c == 0x2029
    || c == 0x202f
    || c == 0x205f
    || c == 0x3000

abbrev pub ends_with_space : Text → Bool
ends_with_space [] = false
ends_with_space (c ∷ cs) = let rest = ends_with_space cs in if is_empty cs then is_space c else rest

abbrev pub starts_with_space : Text → Bool
starts_with_space [] = false
starts_with_space (c ∷ cs) = is_space c

-- `[^\\x00-\\x1f\\x7f]`
abbrev pub is_safe_char : ℕ → Bool
is_safe_char c = ltb 31 c && c != 127

-- `_safe_text`
unfoldable pub is_safe_text : ℕ → Text → Bool
is_safe_text limit value =
    leb 1 (length value)
    && leb (length value) limit
    && not (starts_with_space value || ends_with_space value)
    && all is_safe_char value

pub record JobBudget : Type 0 where
  pub max_attempts_per_item : ℕ

unfoldable pub job_budget : ℕ → Result JobBudget
job_budget budget = do
  refuse_if (ltb budget 1) "invalid budget"
  ok (record { max_attempts_per_item = budget })

abbrev job_budget_beq : JobBudget → JobBudget → Bool
job_budget_beq a b = a.max_attempts_per_item == b.max_attempts_per_item

pub job_budget_beq_iff : (a b : JobBudget) → (job_budget_beq a b ≡ true) ↔ (a ≡ b)
job_budget_beq_iff a b = ground (arith, nat_beq_iff a.max_attempts_per_item b.max_attempts_per_item)

instance abbrev pub job_budget_eq : Eq JobBudget
job_budget_eq = record { beq = job_budget_beq; beq_iff = job_budget_beq_iff }

pub record Job : Type 0 where
  pub job_id : JobId
  pub compiled_spec_hash : Sha256
  pub cohort_profiles : List OutputProfile
  pub budget : JobBudget
  pub status : JobStatus
  pub created_at : Text
  pub updated_at : Text

-- `==` of the dataclass; `terminal` is computed from the status.
abbrev job_beq : Job → Job → Bool
job_beq a b =
    a.job_id == b.job_id
    && a.compiled_spec_hash == b.compiled_spec_hash
    && a.cohort_profiles == b.cohort_profiles
    && a.budget == b.budget
    && a.status == b.status
    && a.created_at == b.created_at
    && a.updated_at == b.updated_at

pub job_beq_iff : (a b : Job) → (job_beq a b ≡ true) ↔ (a ≡ b)
job_beq_iff a b = ground (
  arith,
  ==_iff a.job_id b.job_id,
  ==_iff a.compiled_spec_hash b.compiled_spec_hash,
  ==_iff a.cohort_profiles b.cohort_profiles,
  ==_iff a.budget b.budget,
  ==_iff a.status b.status,
  ==_iff a.created_at b.created_at,
  ==_iff a.updated_at b.updated_at,
)

instance abbrev pub job_eq : Eq Job
job_eq = record { beq = job_beq; beq_iff = job_beq_iff }

-- `Job.terminal`
abbrev pub terminal : Job → Bool
terminal job = is_terminal job.status

-- `Job.__post_init__`
unfoldable pub make_job : Job → Result Job
make_job job = do
  refuse_if (text_lt job.updated_at job.created_at) "invalid job timestamps"
  profiles job.cohort_profiles
  refuse_if (not (is_timestamp job.created_at)) "invalid timestamp"
  refuse_if (not (is_timestamp job.updated_at)) "invalid timestamp"
  ok job
