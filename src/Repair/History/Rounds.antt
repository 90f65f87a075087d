-- ===== src/Repair/History/Rounds.antt =====
-- What one round of `_replay` requires of an attempt, and what it leaves.
use lookfile.Prelude.{
  ℕ, ◌+◌, ◌≡◌, ◌≤◌, refl, sym, ap, ◌∙◌, subst, arith, Bool, true, false, ◌||◌, [], ◌∷◌, ◌++◌, Eq,
  ◌!=◌, nat_eq, list_eq, ==→eq, ok, ok_inj, >>=-eq-ok, >>-eq-ok, after_guard, true_of_not, contains,
  refuse_if, if◌then◌else◌,
}
use lookfile.Domain.Identifiers.{Sha256}
use lookfile.Domain.Artifacts.{artifact_ref_eq}
use lookfile.Repair.Models.{RepairDecision}
use lookfile.Repair.Requests.{CompiledVerificationPlan, GenerationRequest, rule_definition_eq}
use lookfile.Repair.Actions.{build_repair_request}
use lookfile.Repair.Policies.{
  StateKey, state_key_eq, Selection, repair, no_repair, repair_state_key, select_repair,
}
use lookfile.Repair.Guardrails.{is_repair_improvement}
use lookfile.Repair.Comparison.{request_eq}
use lookfile.Repair.Keys.{repair_decision_eq}
use lookfile.Repair.History.{
  RepairAttempt, Replay, state, plan_for, check_selected, check_attempt, record_attempt,
  replay_attempt,
}

pub check_selected-repair :
    (s : Selection) (decision : RepairDecision)
    → check_selected s decision ≡ ok tt
    → s ≡ repair decision
check_selected-repair (no_repair none_left) decision h = cc
check_selected-repair (repair selected) decision h =
    ap repair (==→eq selected decision (true_of_not _ (after_refusal (selected != decision) h)))
  where
    after_refusal : (b : Bool) → refuse_if b "invalid repair history" ≡ ok tt → b ≡ false
    after_refusal true h = cc
    after_refusal false h = refl

module _ {Binding Material : Type 0} ⦃d : Eq Binding⦄ ⦃m : Eq Material⦄
    (request_hash generation_fingerprint : GenerationRequest Binding Material → Sha256) where
  -- An attempt that a round accepts: the repair that the selection makes, on a request that is the
  -- parent's child, under ids that were not used.
  pub record Accepted (plan : CompiledVerificationPlan Binding) (r : Replay Binding Material)
      (attempt : RepairAttempt Binding Material) : Type 0 where
    pub selected :
        select_repair r.request plan r.report r.artifact.ref.artifact_id
          attempt.decision.decision_id r.seen
        ≡ ok (repair attempt.decision)
    pub built :
        build_repair_request r.request attempt.decision attempt.request.attempt_id
        ≡ ok attempt.request
    pub new_attempt : contains attempt.request.attempt_id r.attempt_ids ≡ false
    pub new_decision : contains attempt.decision.decision_id r.decision_ids ≡ false
    pub new_artifact : contains attempt.artifact.ref.artifact_id r.artifact_ids ≡ false

  all_false : (a b c : Bool) → (a || b || c) ≡ false → (a ≡ false) × (b ≡ false) × (c ≡ false)
  all_false a b c h = ground arith

  check_attempt-Accepted :
      (plan : CompiledVerificationPlan Binding) (r : Replay Binding Material)
      (attempt : RepairAttempt Binding Material)
      → check_attempt request_hash generation_fingerprint plan r attempt ≡ ok tt
      → Accepted plan r attempt
  unfolding check_attempt
  check_attempt-Accepted plan r attempt h =
      let (_, h1) = after_guard _ _ _ h in
      let (chosen, selected, h2) = >>=-eq-ok _ _ h1 in
      let (same, h3) = >>-eq-ok (check_selected chosen attempt.decision) _ h2 in
      let (expected, built, h4) = >>=-eq-ok _ _ h3 in
      let (equal, h5) = after_guard (expected != attempt.request) _ _ h4 in
      let (fresh, _) = after_guard _ _ _ h5 in
      let new = all_false _ _ (contains attempt.artifact.ref.artifact_id r.artifact_ids) fresh in
      record {
        selected = selected ∙ ap ok (check_selected-repair chosen attempt.decision same);
        built = built ∙ ap ok (==→eq expected attempt.request (true_of_not _ equal));
        new_attempt = new.0;
        new_decision = new.1;
        new_artifact = new.2;
      }

  -- What a round leaves of an attempt that it accepts
  pub record Recorded (r : Replay Binding Material) (attempt : RepairAttempt Binding Material)
      (next : Replay Binding Material) : Type 0 where
    pub request : next.request ≡ attempt.request
    pub artifact : next.artifact ≡ attempt.artifact
    pub report : next.report ≡ attempt.report
    pub new_state : contains (repair_state_key attempt.request) r.seen ≡ false
    pub seen : next.seen ≡ r.seen ++ repair_state_key attempt.request ∷ []
    pub attempt_ids : next.attempt_ids ≡ r.attempt_ids ++ attempt.request.attempt_id ∷ []
    pub artifact_ids : next.artifact_ids ≡ r.artifact_ids ++ attempt.artifact.ref.artifact_id ∷ []
    pub decision_ids : next.decision_ids ≡ r.decision_ids ++ attempt.decision.decision_id ∷ []
    pub no_improvement : next.no_improvement ≤ r.no_improvement + 1

  pub state-key :
      (request : GenerationRequest Binding Material) (key : StateKey)
      → state request ≡ ok key
      → key ≡ repair_state_key request
  unfolding state
  state-key request key h = let (_, h1) = after_guard _ _ _ h in sym (ok_inj h1)

  counted : (b : Bool) (n : ℕ) → (if b then 0 else n + 1) ≤ n + 1
  counted b n = ground arith

  record_attempt-Recorded :
      (r : Replay Binding Material) (attempt : RepairAttempt Binding Material) (improved : Bool)
      (next : Replay Binding Material)
      → record_attempt r attempt improved ≡ ok next
      → Recorded r attempt next
  unfolding record_attempt
  record_attempt-Recorded r attempt improved next h =
      let (key, keyed, h1) = >>=-eq-ok (state attempt.request) _ h in
      let (fresh, made) = after_guard (contains key r.seen) _ _ h1 in
      let e = ok_inj made in
      let k = state-key attempt.request key keyed in
      record {
        request = sym (ap (λ (n : Replay Binding Material). n.request) e);
        artifact = sym (ap (λ (n : Replay Binding Material). n.artifact) e);
        report = sym (ap (λ (n : Replay Binding Material). n.report) e);
        new_state = subst (λ k. contains k r.seen ≡ false) k fresh;
        seen = sym (ap (λ (n : Replay Binding Material). n.seen) e) ∙ ap (λ k. r.seen ++ k ∷ []) k;
        attempt_ids = sym (ap (λ (n : Replay Binding Material). n.attempt_ids) e);
        artifact_ids = sym (ap (λ (n : Replay Binding Material). n.artifact_ids) e);
        decision_ids = sym (ap (λ (n : Replay Binding Material). n.decision_ids) e);
        no_improvement =
            subst (λ n. n ≤ r.no_improvement + 1)
              (ap (λ (n : Replay Binding Material). n.no_improvement) e)
              (counted improved r.no_improvement);
      }

  pub replay_attempt_inv :
      (r : Replay Binding Material) (attempt : RepairAttempt Binding Material)
      (next : Replay Binding Material)
      → replay_attempt request_hash generation_fingerprint r attempt ≡ ok next
      → (plan : CompiledVerificationPlan Binding) × Accepted plan r attempt
        × Recorded r attempt next
  unfolding replay_attempt
  replay_attempt_inv r attempt next h =
      let (plan, _, h1) = >>=-eq-ok (plan_for r.request) _ h in
      let (checked, h2) =
        >>-eq-ok (check_attempt request_hash generation_fingerprint plan r attempt) _ h1 in
      let (improved, _, h3) =
        >>=-eq-ok
          (is_repair_improvement plan r.report attempt.report r.artifact.ref.artifact_id
            attempt.artifact.ref.artifact_id attempt.decision)
          _ h2 in
      (
        plan,
        check_attempt-Accepted plan r attempt checked,
        record_attempt-Recorded r attempt improved next h3,
      )
