-- ===== src/Repair/Loop/Consumed.antt =====
-- What `consume_repair_result` adds to a history.
use lookfile.Prelude.{
  ◌+◌, ◌≡◌, sym, ap, ◌∙◌, subst, ◌||◌, [], ◌∷◌, ◌++◌, Eq, ◌!=◌, nat_eq, list_eq, ok, >>=-eq-ok,
  >>-eq-ok, after_guard, relabel-eq-ok, length-append, contains,
}
use lookfile.Domain.Identifiers.{Sha256}
use lookfile.Verification.Reports.{VerificationReport}
use lookfile.Repair.Models.{}
use lookfile.Repair.Comparison.{request_eq}
use lookfile.Repair.Requests.{GenerationRequest}
use lookfile.Repair.Actions.{build_repair_request}
use lookfile.Repair.Policies.{state_key_eq, select_repair}
use lookfile.Repair.History.{
  GeneratedArtifact, RepairAttempt, RepairHistory, plan_for, repair_history, check_selected,
}
use lookfile.Repair.History.Sound.{repair_history-IsSound}
use lookfile.Repair.Loop.{
  NextGeneration, current_request, current_report, current_target_artifact_id,
  executed_decision_ids, attempt_ids, trusted_history, consume_repair_result,
}
use lookfile.Repair.Loop.Trusted.{IsMade, repair_history-IsMade, trusted_history_iff}

module _ {Binding Material : Type 0} where
  -- The attempt that a result makes of a command
  abbrev pub attempt_of :
      RepairHistory Binding Material
      → NextGeneration Binding Material
      → GeneratedArtifact
      → VerificationReport
      → RepairAttempt Binding Material
  attempt_of history command artifact report = record {
    parent_report = current_report history;
    decision = command.decision;
    request = command.request;
    artifact = artifact;
    report = report;
  }

module _ {Binding Material : Type 0} ⦃d : Eq Binding⦄ ⦃m : Eq Material⦄
    (request_hash generation_fingerprint : GenerationRequest Binding Material → Sha256) where
  -- A result is consumed only on a history that the constructor makes; the new history is made too,
  -- with the same first attempt, the attempt of the command and its result added at the end, and one
  -- round more.
  pub consume_repair_result-extends :
      (history : RepairHistory Binding Material) (command : NextGeneration Binding Material)
      (artifact : GeneratedArtifact) (report : VerificationReport)
      (next : RepairHistory Binding Material)
      → consume_repair_result request_hash generation_fingerprint history command artifact report
        ≡ ok next
      → IsMade request_hash generation_fingerprint history
        × IsMade request_hash generation_fingerprint next
        × (next.initial_attempt ≡ history.initial_attempt)
        × (next.repair_attempts
            ≡ history.repair_attempts ++ attempt_of history command artifact report ∷ [])
        × (next.rounds ≡ history.rounds + 1)
  unfolding consume_repair_result
  consume_repair_result-extends history command artifact report next h =
      let (trusted, t, h1) =
        >>=-eq-ok (trusted_history request_hash generation_fingerprint history) _
          (relabel-eq-ok _ _ h) in
      let (same, made) =
        (trusted_history_iff request_hash generation_fingerprint history trusted).0 t in
      let (_, h2) =
        after_guard
          (contains command.decision.decision_id (executed_decision_ids trusted)
            || contains command.request.attempt_id (attempt_ids trusted))
          _ _ h1 in
      let (plan, _, h3) = >>=-eq-ok (plan_for (current_request trusted)) _ h2 in
      let (selected, _, h4) =
        >>=-eq-ok
          (select_repair (current_request trusted) plan (current_report trusted)
            (current_target_artifact_id trusted) command.decision.decision_id
            trusted.seen_state_keys)
          _ h3 in
      let (expected, _, h5) =
        >>=-eq-ok
          (build_repair_request (current_request trusted) command.decision
            command.request.attempt_id)
          _ h4 in
      let (_, h6) = >>-eq-ok (check_selected selected command.decision) _ h5 in
      let (_, h7) = after_guard (expected != command.request) _ _ h6 in
      grown
        (subst
          (λ (t : RepairHistory Binding Material).
            repair_history request_hash generation_fingerprint t.initial_attempt
              (t.repair_attempts ++ attempt_of t command artifact report ∷ [])
            ≡ ok next)
          same h7)
        made
    where
      grown :
          repair_history request_hash generation_fingerprint history.initial_attempt
              (history.repair_attempts ++ attempt_of history command artifact report ∷ [])
            ≡ ok next
          → IsMade request_hash generation_fingerprint history
          → IsMade request_hash generation_fingerprint history
            × IsMade request_hash generation_fingerprint next
            × (next.initial_attempt ≡ history.initial_attempt)
            × (next.repair_attempts
                ≡ history.repair_attempts ++ attempt_of history command artifact report ∷ [])
            × (next.rounds ≡ history.rounds + 1)
      grown r made =
          let (_, _, _, _, a, b, n, _, _, _, _) =
            repair_history-IsSound request_hash generation_fingerprint _ _ next r in
          let (_, _, _, _, _, _, m, _, _, _, _) =
            repair_history-IsSound request_hash generation_fingerprint _ _ history made in
          (
            made,
            repair_history-IsMade request_hash generation_fingerprint _ _ next r,
            a,
            b,
            n ∙ (length-append history.repair_attempts _ ∙ ap (λ k. k + 1) (sym m)),
          )
