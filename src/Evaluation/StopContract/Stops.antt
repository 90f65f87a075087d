-- ===== src/Evaluation/StopContract/Stops.antt =====
-- What a ledger that passes the contract says of its attempts.
pub mod Scores
use lookfile.Prelude.{
  ℕ, ◌≡◌, ◌≢◌, ◌⊎◌, inl, inr, refl, sym, ap, ◌∙◌, subst, arith, Bool, true, false, not, ◌&&◌, ◌||◌,
  Option, none, some, List, [], ◌∷◌, ◌++◌, ◌==◌, ◌!=◌, nat_eq, list_eq, option_eq, Result, ok,
  refuse_if, ◌>>=◌, ◌>>◌, after_guard, refuse_if-eq-ok, true_of_not, ltb, length, any, is_empty,
  if◌then◌else◌,
}
use lookfile.Domain.Text.{Text}
use lookfile.Domain.Identifiers.{Sha256}
use lookfile.Evaluation.StopContract.{
  Arm, single_pass, random_retry, best_of_k, directed_no_guardrail, full_specstyle, Attempt,
  StopEvent, is_none, plain, early_repair, passed_stop, exhausted_stop, repairing_stop, valid_stop,
  pass_is_last, is_best_of_k, check_candidate, validate_stopping, artifact_of, last_of,
  generated_attempts, first_scored, best_score,
}

pub accepted :
    (arm : Arm) (attempts : List Attempt) (candidate : Option Sha256) (maximum : ℕ)
    (event : StopEvent)
    → validate_stopping arm attempts candidate maximum event ≡ ok tt
    → (valid_stop arm attempts maximum event ≡ true)
      × (check_candidate arm attempts candidate ≡ ok tt)
unfolding validate_stopping
accepted arm attempts candidate maximum event h =
    let (valid, checked) = after_guard (not (valid_stop arm attempts maximum event)) _ _ h in
    (true_of_not _ valid, checked)

last_only :
    (before : List Attempt) (a : Attempt) (after : List Attempt)
    → pass_is_last (before ++ a ∷ after) ≡ true
    → a.qa_pass ≡ true
    → after ≡ []
last_only [] a [] h p = refl
last_only [] a (b ∷ bs) h p = ground arith
last_only (b ∷ bs) a after h p = last_only bs a after (ground arith) p

-- Outside the best-of-k arm an accepted ledger stops at its first pass: nothing follows an attempt
-- that passes.
pub validate_stopping-passes :
    (arm : Arm) (before : List Attempt) (a : Attempt) (after : List Attempt)
    (candidate : Option Sha256) (maximum : ℕ) (event : StopEvent)
    → is_best_of_k arm ≡ false
    → validate_stopping arm (before ++ a ∷ after) candidate maximum event ≡ ok tt
    → a.qa_pass ≡ true
    → after ≡ []
validate_stopping-passes arm before a after candidate maximum event k h p =
    let (_, checked) = accepted arm (before ++ a ∷ after) candidate maximum event h in
    last_only before a after (passes_checked arm k checked) p
  where
    passes_checked :
        (arm : Arm)
        → is_best_of_k arm ≡ false
        → check_candidate arm (before ++ a ∷ after) candidate ≡ ok tt
        → pass_is_last (before ++ a ∷ after) ≡ true
    passes_checked arm k c = ground arith

-- An accepted ledger without a pass that is shorter than the budget is one of a repairing arm whose
-- repair stopped early, or the one attempt of the single pass.
pub validate_stopping-early :
    (arm : Arm) (attempts : List Attempt) (candidate : Option Sha256) (maximum : ℕ)
    (event : StopEvent)
    → validate_stopping arm attempts candidate maximum event ≡ ok tt
    → any (λ a. a.qa_pass) attempts ≡ false
    → ltb (length attempts) maximum ≡ true
    → ((arm ≡ single_pass) × (length attempts ≡ 1))
      ⊎ (((arm ≡ directed_no_guardrail) ⊎ (arm ≡ full_specstyle))
          × (early_repair arm attempts event ≡ true))
unfolding valid_stop
validate_stopping-early arm attempts candidate maximum event h n l =
    by_arm arm (accepted arm attempts candidate maximum event h).0
  where
    by_arm :
        (arm : Arm)
        → valid_stop arm attempts maximum event ≡ true
        → ((arm ≡ single_pass) × (length attempts ≡ 1))
          ⊎ (((arm ≡ directed_no_guardrail) ⊎ (arm ≡ full_specstyle))
              × (early_repair arm attempts event ≡ true))
    by_arm single_pass v = inl (refl, ground arith)
    by_arm random_retry v = ground arith
    by_arm best_of_k v = ground arith
    by_arm directed_no_guardrail v = inr (inl refl, ground arith)
    by_arm full_specstyle v = inr (inr refl, ground arith)
