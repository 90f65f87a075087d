-- ===== src/Examples/Evaluation.antt =====
-- Ledgers of src/specstyle/evaluation/stop_contract.py.
use lookfile.Prelude.{
  ℕ, ◌≡◌, ◌⊎◌, refl, Bool, true, false, none, some, List, [], ◌∷◌, nat_eq, list_eq, option_eq, ap,
  ok, length, Memᴰ,
}
use lookfile.Domain.Text.{Text, text}
use lookfile.Domain.Float.{finite}
use lookfile.Domain.Identifiers.{}
use lookfile.Evaluation.StopContract.{
  single_pass, random_retry, best_of_k, directed_no_guardrail, full_specstyle, Attempt, StopEvent,
  generated, not_applicable, plain, early_repair, valid_stop, validate_stopping,
}
use lookfile.Evaluation.StopContract.Stops.{validate_stopping-passes, validate_stopping-early}
use lookfile.Evaluation.StopContract.Stops.Scores.{AllScored, score_lt, validate_stopping-best}

abbrev tried : Text → Bool → ℕ → Attempt
tried hash pass score = record {
  generation_status = generated;
  artifact_sha256 = some hash;
  qa_pass = pass;
  repair_action_sha256 = none;
  trigger_rule_ids = [];
  utility_score = some (finite false score);
}

abbrev stopped : ℕ → Text → List Text → StopEvent
stopped index kind rules = record {
  generation_index = some index;
  guardrail_decision = not_applicable;
  kind = kind;
  repair_action_sha256 = none;
  result_sha256 = text "r";
  trigger_rule_ids = rules;
}

abbrev two : List Attempt
two = tried (text "a") false 3 ∷ tried (text "b") true 5 ∷ []

retried :
    validate_stopping random_retry two (some (text "b")) 4 (stopped 1 (text "QA_PASSED") []) ≡ ok tt
unfolding validate_stopping valid_stop plain
retried = refl

abbrev nothing_after : List Attempt
nothing_after = []

validate_stopping-passes_example : nothing_after ≡ []
validate_stopping-passes_example =
    validate_stopping-passes random_retry (tried (text "a") false 3 ∷ []) (tried (text "b") true 5)
      nothing_after (some (text "b")) 4 (stopped 1 (text "QA_PASSED") []) refl retried refl

abbrev failing : List Attempt
failing = tried (text "a") false 3 ∷ []

unverified :
    validate_stopping directed_no_guardrail failing none 4
      (stopped 0 (text "UNVERIFIABLE") (text "l2.color" ∷ []))
    ≡ ok tt
unfolding validate_stopping valid_stop plain early_repair
unverified = refl

validate_stopping-early_example :
    ((directed_no_guardrail ≡ single_pass) × (length failing ≡ 1))
    ⊎ (((directed_no_guardrail ≡ directed_no_guardrail) ⊎ (directed_no_guardrail ≡ full_specstyle))
        × (early_repair directed_no_guardrail failing
              (stopped 0 (text "UNVERIFIABLE") (text "l2.color" ∷ []))
            ≡ true))
validate_stopping-early_example =
    validate_stopping-early directed_no_guardrail failing none 4
      (stopped 0 (text "UNVERIFIABLE") (text "l2.color" ∷ [])) unverified refl refl

chosen_best :
    validate_stopping best_of_k two (some (text "b")) 2 (stopped 1 (text "BUDGET_EXHAUSTED") [])
    ≡ ok tt
unfolding validate_stopping valid_stop plain
chosen_best = refl

two_scored : AllScored two
two_scored a (Memᴰ.head e) = (false, 3, ap (λ (x : Attempt). x.utility_score) e)
two_scored a (Memᴰ.tail (Memᴰ.head e)) = (false, 5, ap (λ (x : Attempt). x.utility_score) e)
two_scored a (Memᴰ.tail (Memᴰ.tail k)) = elim k [ ]

validate_stopping-best_example :
    (a : Attempt) × Memᴰ a two
    × (a.artifact_sha256 ≡ some (text "b"))
    × ((b : Attempt) → Memᴰ b two → score_lt a.utility_score b.utility_score ≡ false)
validate_stopping-best_example =
    validate_stopping-best two (text "b") 2 (stopped 1 (text "BUDGET_EXHAUSTED") []) two_scored
      chosen_best
