-- ===== src/Repair/Loop/Stops.antt =====
-- A stop reason that the loop finds is one that the routing accepts: the last step never raises.
use lookfile.Prelude.{
  ◌≡◌, ◌≢◌, ◌⊎◌, inl, inr, refl, ap, ◌∙◌, arith, true, false, not, Option, none, some, List, [],
  ◌∷◌, nat_eq, list_eq, option_eq, Result, ok, ok_inj, >>=-eq-ok, after_guard, any, all, select,
  contains, Eq, ◌>>=◌,
}
use lookfile.Domain.Enums.{
  ArtifactStatus, artifact_status_eq, approved, rejected, DecisionReason, decision_reason_eq,
  all_required_pass, required_gate_unverifiable, repair_exhausted, manual_policy, rule_status_eq,
  RepairStopReason, repair_stop_reason_eq, pass_all_required, manual_request, no_improvement,
  max_rounds,
}
use lookfile.Domain.Identifiers.{ArtifactId, AttemptId, DecisionId, Sha256}
use lookfile.Verification.RuleModels.{ArtifactDecision, artifact_decision}
use lookfile.Verification.Reports.{VerificationReport, artifact_ids}
use lookfile.Verification.Routing.{
  Relevant, validate_stop_reason, has_manual_policy, route, finish, decide_artifact, is_required,
  is_pass, is_exhausted, is_unverifiable, rejects_unverifiable, rejects_failure,
}
use lookfile.Verification.Routing.Approval.{decide_artifact-Decided}
use lookfile.Repair.Models.{RepairPolicy}
use lookfile.Repair.Comparison.{request_eq}
use lookfile.Repair.Requests.{GenerationRequest}
use lookfile.Repair.Actions.{repair_policy_from_request}
use lookfile.Repair.History.{RepairHistory}
use lookfile.Repair.Loop.{
  routed_stop, RepairTerminal, RepairStep, repair_terminal, make_terminal, bounded_stop, stop_or,
  stop_reason, terminal, current_request, current_report, current_target_artifact_id,
  next_repair_step,
}
use lookfile.Repair.Loop.Trusted.{IsMade, trusted_history_iff}

-- The status that an artifact ends with under a stop reason of the loop, and its reason
abbrev pub status_of : RepairStopReason → ArtifactStatus
status_of pass_all_required = approved
status_of manual_request = ArtifactStatus.manual_review
status_of _ = rejected

abbrev pub reason_of : RepairStopReason → DecisionReason
reason_of pass_all_required = all_required_pass
reason_of manual_request = manual_policy
reason_of RepairStopReason.unverifiable = required_gate_unverifiable
reason_of _ = repair_exhausted

-- The reasons that the loop can stop with, given what the routing says of the artifact
abbrev pub MayStop : ArtifactDecision → RepairStopReason → Type 0
MayStop routed stop =
    (routed_stop routed ≡ some stop)
    ⊎ ((routed_stop routed ≡ none) × (is_exhausted (some stop) ≡ true))

unverifiable_some :
    (rs : List Relevant) → any rejects_unverifiable rs ≡ true → any is_unverifiable rs ≡ true
unverifiable_some [] h = cc
unverifiable_some (r ∷ rs) h = ground (arith, unverifiable_some rs)

all_none : (rs : List Relevant) → all is_pass rs ≡ true → any (λ r. not (is_pass r)) rs ≡ false
all_none [] h = refl
all_none (r ∷ rs) h = ground (arith, all_none rs)

failure_some :
    (rs : List Relevant) → any rejects_failure rs ≡ true → any (λ r. not (is_pass r)) rs ≡ true
failure_some [] h = cc
failure_some (r ∷ rs) h = ground (arith, failure_some rs)

abbrev pub decision_of : ArtifactId → RepairStopReason → ArtifactDecision
decision_of target stop = record {
  artifact_id = target;
  artifact_status = status_of stop;
  decision_reason = reason_of stop;
  repair_stop_reason = some stop;
  accepted_with_override = false;
}

-- What the ladder says without a stop reason, and what it says with one
routing :
    (relevant : List Relevant) (stop : RepairStopReason) (routed : ArtifactDecision)
    → route none relevant (select is_required relevant)
      ≡ ok (routed.artifact_status, routed.decision_reason)
    → MayStop routed stop
    → (validate_stop_reason (some stop) (select is_required relevant) ≡ ok tt)
      × (route (some stop) relevant (select is_required relevant)
          ≡ ok (status_of stop, reason_of stop))
unfolding route validate_stop_reason has_manual_policy
routing relevant pass_all_required routed h m = ground (
  arith,
  unverifiable_some (select is_required relevant),
  all_none (select is_required relevant),
  failure_some (select is_required relevant),
)
routing relevant RepairStopReason.no_action routed h m = ground (
  arith,
  unverifiable_some (select is_required relevant),
  all_none (select is_required relevant),
  failure_some (select is_required relevant),
)
routing relevant no_improvement routed h m = ground (
  arith,
  unverifiable_some (select is_required relevant),
  all_none (select is_required relevant),
  failure_some (select is_required relevant),
)
routing relevant max_rounds routed h m = ground (
  arith,
  unverifiable_some (select is_required relevant),
  all_none (select is_required relevant),
  failure_some (select is_required relevant),
)
routing relevant RepairStopReason.unverifiable routed h m = ground (
  arith,
  unverifiable_some (select is_required relevant),
  all_none (select is_required relevant),
  failure_some (select is_required relevant),
)
routing relevant manual_request routed h m = ground (
  arith,
  unverifiable_some (select is_required relevant),
  all_none (select is_required relevant),
  failure_some (select is_required relevant),
)

decide_stop :
    (report : VerificationReport) (target : ArtifactId) (stop : RepairStopReason)
    (routed : ArtifactDecision)
    → decide_artifact report target none false ≡ ok routed
    → MayStop routed stop
    → decide_artifact report target (some stop) false ≡ ok (decision_of target stop)
unfolding decide_artifact finish artifact_decision
decide_stop report target stop routed h m =
    let (listed, h1) = after_guard (not (contains target (artifact_ids report.artifacts))) _ _ h in
    let decided = decide_artifact-Decided report target none false routed h in
    let (valid, route_of) = routing decided.relevant stop routed decided.routed m in
    rw (listed, decided.weighed, decided.gated, valid, route_of) (finished stop)
  where
    finished :
        (stop : RepairStopReason)
        → finish target (some stop) false (status_of stop, reason_of stop)
          ≡ ok (decision_of target stop)
    finished pass_all_required = refl
    finished RepairStopReason.no_action = refl
    finished no_improvement = refl
    finished max_rounds = refl
    finished RepairStopReason.unverifiable = refl
    finished manual_request = refl

routed_stop-Found :
    (routed : ArtifactDecision) (stop : RepairStopReason)
    → routed_stop routed ≡ some stop
    → MayStop routed stop × (stop ≢ RepairStopReason.no_action)
routed_stop-Found routed stop h = (inl h, λ n. not_routed routed (h ∙ ap some n))
  where
    not_routed : (routed : ArtifactDecision) → routed_stop routed ≢ some RepairStopReason.no_action
    not_routed routed h = ground arith

module _ {Binding Material : Type 0} where
  bounded_stop-Found :
      (history : RepairHistory Binding Material) (policy : RepairPolicy) (routed : ArtifactDecision)
      (stop : RepairStopReason)
      → routed_stop routed ≡ none
      → bounded_stop history policy ≡ some stop
      → MayStop routed stop × (stop ≢ RepairStopReason.no_action)
  bounded_stop-Found history policy routed stop r h = elim (which h) [
    | inl e ↦ (inr (r, ap (λ s. is_exhausted (some s)) e), λ n. cc (e, n))
    | inr e ↦ (inr (r, ap (λ s. is_exhausted (some s)) e), λ n. cc (e, n))
  ]
    where
      which :
          bounded_stop history policy ≡ some stop → (stop ≡ no_improvement) ⊎ (stop ≡ max_rounds)
      which h = ground arith

  stop_or-Found :
      (history : RepairHistory Binding Material) (routed : ArtifactDecision)
      (stop : RepairStopReason) (found : Option RepairStopReason)
      → routed_stop routed ≡ found
      → stop_or found history ≡ ok (some stop)
      → MayStop routed stop × (stop ≢ RepairStopReason.no_action)
  stop_or-Found history routed stop (some other) r h = routed_stop-Found routed stop (r ∙ ok_inj h)
  stop_or-Found history routed stop none r h =
      let (policy, _, h1) = >>=-eq-ok (repair_policy_from_request (current_request history)) _ h in
      bounded_stop-Found history policy routed stop r (ok_inj h1)

  terminal_with :
      (history : RepairHistory Binding Material) (stop : RepairStopReason)
      → stop_reason history ≡ ok (some stop)
      → terminal history stop none
        ≡ ok (
            repair_terminal (record {
              artifact_decision = decision_of (current_target_artifact_id history) stop;
              no_action = none;
            }))
  unfolding stop_reason terminal make_terminal
  terminal_with history stop h =
      let (routed, r, h1) =
        >>=-eq-ok
          (decide_artifact (current_report history) (current_target_artifact_id history) none false)
          _ h in
      let (may, other) = stop_or-Found history routed stop (routed_stop routed) refl h1 in
      rw
        (decide_stop (current_report history) (current_target_artifact_id history) stop routed r
          may)
        (made stop other)
    where
      returned : RepairTerminal → Result (RepairStep Binding Material)
      returned t = ok (repair_terminal t)

      made :
          (stop : RepairStopReason)
          → stop ≢ RepairStopReason.no_action
          → (make_terminal (record {
            artifact_decision = decision_of (current_target_artifact_id history) stop;
            no_action = none;
          })
              >>= returned)
            ≡ ok (
                repair_terminal (record {
                  artifact_decision = decision_of (current_target_artifact_id history) stop;
                  no_action = none;
                }))
      made pass_all_required n = refl
      made RepairStopReason.no_action n = elim (n refl) [ ]
      made no_improvement n = refl
      made max_rounds n = refl
      made RepairStopReason.unverifiable n = refl
      made manual_request n = refl

module _ {Binding Material : Type 0} ⦃d : Eq Binding⦄ ⦃m : Eq Material⦄
    (request_hash generation_fingerprint : GenerationRequest Binding Material → Sha256) where
  -- On a history that the constructor makes, a stop reason that the loop finds ends it: the step does
  -- not raise, and its terminal decision carries the reason, with the artifact approved, handed to
  -- review or rejected as the reason says.
  pub next_repair_step-stops :
      (history : RepairHistory Binding Material) (decision_id : DecisionId) (attempt_id : AttemptId)
      (stop : RepairStopReason)
      → IsMade request_hash generation_fingerprint history
      → stop_reason history ≡ ok (some stop)
      → next_repair_step request_hash generation_fingerprint history decision_id attempt_id
        ≡ ok (
            repair_terminal (record {
              artifact_decision = decision_of (current_target_artifact_id history) stop;
              no_action = none;
            }))
  unfolding next_repair_step
  next_repair_step-stops history decision_id attempt_id stop made h =
      rw
        (
          (trusted_history_iff request_hash generation_fingerprint history history).1 (refl, made),
          h,
          terminal_with history stop h,
        )
        refl
