-- ===== src/Repair/Policies/Choice.antt =====
-- The loop of `select_repair` in policies.py over the candidates.
use lookfile.Prelude.{
  ◌≡◌, ◌⊎◌, inl, inr, refl, sym, ap, ◌∙◌, subst, Bool, true, false, not, ◌&&◌, none, List, [], ◌∷◌,
  Memᴰ, ◌==◌, nat_eq, list_eq, Eq, Result, ok, err, ok_inj, ◌>>=◌, >>=-eq-ok, >>-eq-ok, after_guard,
  contains, if◌then◌else◌,
}
use lookfile.Domain.Enums.{rejected, required_gate_failed, artifact_status_eq, decision_reason_eq}
use lookfile.Domain.Identifiers.{ArtifactId, DecisionId, Identifier}
use lookfile.Verification.RuleModels.{}
use lookfile.Verification.Reports.{VerificationReport}
use lookfile.Verification.Routing.{decide_artifact}
use lookfile.Repair.Models.{RepairDecision, NoAction, no_action}
use lookfile.Repair.Requests.{CompiledRule, CompiledVerificationPlan, GenerationRequest}
use lookfile.Repair.Actions.{patch_for, plan_repair_action, repair_policy_from_request}
use lookfile.Repair.Actions.Patches.{planned_patch}
use lookfile.Repair.Context.{blocking_rules, validated_context}
use lookfile.Repair.Policies.{
  actions, StateKey, state_key_eq, check_seen, Selection, repair, no_repair, state_after, eligible,
  first_repair, repair_of, select_repair,
}

module _ {Binding Material : Type 0} where
  -- A decision that the loop may choose for a rule.
  pub record Fits (request : GenerationRequest Binding Material) (rule : CompiledRule Binding)
      (seen : List StateKey) (decision : RepairDecision) : Type 0 where
    pub triggered : decision.trigger_rule_id ≡ rule.definition.rule_id
    pub affecting : eligible request rule decision.action_id ≡ true
    pub patched : patch_for request decision.action_id ≡ ok decision.patch
    pub unseen : contains (state_after decision) seen ≡ false

-- The two ways in which a round of the loop returns.
candidate_inv :
    (b : Bool) (m : Result RepairDecision) (c : RepairDecision → Bool) (rest : Result Selection)
    (s : Selection)
    → (if b then (m >>= λ selected. if c selected then rest else ok (repair selected)) else rest)
      ≡ ok s
    → ((rest ≡ ok s)
        × ((b ≡ true) → (selected : RepairDecision) → m ≡ ok selected → c selected ≡ true))
      ⊎ ((selected : RepairDecision) × (b ≡ true)
          × (m ≡ ok selected)
          × (c selected ≡ false)
          × (repair selected ≡ s))
candidate_inv false m c rest s h = inl (h, λ k. cc)
candidate_inv true (err x) c rest s h = absurd (cc)
candidate_inv true (ok selected) c rest s h = seen_inv (c selected) refl h
  where
    seen_inv :
        (b : Bool)
        → c selected ≡ b
        → (if b then rest else ok (repair selected)) ≡ ok s
        → ((rest ≡ ok s)
            × ((true ≡ true) → (other : RepairDecision) → ok selected ≡ ok other → c other ≡ true))
          ⊎ ((other : RepairDecision) × (true ≡ true)
              × (ok selected ≡ ok other)
              × (c other ≡ false)
              × (repair other ≡ s))
    seen_inv true e k = inl (k, λ _ other same. subst (λ x. c x ≡ true) (ok_inj same) e)
    seen_inv false e k = inr (selected, refl, refl, e, ok_inj k)

module _ {Binding Material : Type 0} where
  pub first_repair-Fits :
      (request : GenerationRequest Binding Material) (decision_id : DecisionId)
      (rule : CompiledRule Binding) (seen : List StateKey) (candidates : List Identifier)
      (decision : RepairDecision)
      → first_repair request decision_id rule seen candidates ≡ ok (repair decision)
      → Memᴰ decision.action_id candidates
        × Fits request rule seen decision
        × (decision.decision_id ≡ decision_id)
  unfolding first_repair
  first_repair-Fits request decision_id rule seen [] decision h =
      let (n, _, e) =
        >>=-eq-ok
          (no_action (record {
            decision_id = decision_id;
            blocked_rule_ids = rule.definition.rule_id ∷ [];
            blocked_action_ids = actions rule.definition.rule_id;
          }))
          (λ x. ok (no_repair x)) h in
      absurd (cc (ok_inj e))
  first_repair-Fits request decision_id rule seen (action ∷ candidates) decision h =
      elim (candidate_inv (eligible request rule action)
        (plan_repair_action request decision_id rule.definition.rule_id action)
        (λ selected. contains (state_after selected) seen)
        (first_repair request decision_id rule seen candidates) (repair decision) h) [
          | inl (k, _) ↦
              let (listed, fits, id) =
                first_repair-Fits request decision_id rule seen candidates decision k in
              (Memᴰ.tail listed, fits, id)
          | inr (selected, able, planned, fresh, same) ↦
              let (found, acts, triggers, id) =
                planned_patch request decision_id rule.definition.rule_id action planned in
              subst
                (λ (d : RepairDecision).
                  Memᴰ d.action_id (action ∷ candidates)
                  × Fits request rule seen d
                  × (d.decision_id ≡ decision_id))
                (repair_inj same)
                (
                  Memᴰ.head acts,
                  record {
                    triggered = triggers;
                    affecting = subst (λ a. eligible request rule a ≡ true) (sym acts) able;
                    patched = ap (patch_for request) acts ∙ found;
                    unseen = fresh;
                  },
                  id,
                )
        ]
    where
      repair_inj : {d e : RepairDecision} → repair d ≡ repair e → d ≡ e
      repair_inj p = cc

  pub first_repair-none :
      (request : GenerationRequest Binding Material) (decision_id : DecisionId)
      (rule : CompiledRule Binding) (seen : List StateKey) (candidates : List Identifier)
      (n : NoAction)
      → first_repair request decision_id rule seen candidates ≡ ok (no_repair n)
      → (action : Identifier) (decision : RepairDecision) → Memᴰ action candidates
      → eligible request rule action ≡ true
      → plan_repair_action request decision_id rule.definition.rule_id action ≡ ok decision
      → contains (state_after decision) seen ≡ true
  unfolding first_repair
  first_repair-none request decision_id rule seen [] n h action decision m a p = elim m [ ]
  first_repair-none request decision_id rule seen (first ∷ candidates) n h action decision m a p =
      elim (candidate_inv (eligible request rule first)
        (plan_repair_action request decision_id rule.definition.rule_id first)
        (λ selected. contains (state_after selected) seen)
        (first_repair request decision_id rule seen candidates) (no_repair n) h) [
          | inr (selected, able, planned, fresh, same) ↦ absurd (cc)
          | inl (k, tried) ↦ elim m [
            | Memᴰ.tail later ↦
                first_repair-none request decision_id rule seen candidates n k action decision later
                  a p
            | Memᴰ.head e ↦ tried (subst (λ x. eligible request rule x ≡ true) e a) decision (
                subst
                  (λ x.
                    plan_repair_action request decision_id rule.definition.rule_id x ≡ ok decision)
                  e p)
          ]
        ]

  -- The trigger and the loop of a selection that returns.
  pub select_repair_inv :
      ⦃d : Eq Binding⦄ (request : GenerationRequest Binding Material)
      (plan : CompiledVerificationPlan Binding) (report : VerificationReport) (target : ArtifactId)
      (decision_id : DecisionId) (seen : List StateKey) (s : Selection)
      → select_repair request plan report target decision_id seen ≡ ok s
      → (rule : CompiledRule Binding) × (rest : List (CompiledRule Binding)) × (blocking_rules plan
            report target
          ≡ ok (rule ∷ rest))
        × (first_repair request decision_id rule seen (actions rule.definition.rule_id) ≡ ok s)
  unfolding select_repair repair_of
  select_repair_inv request plan report target decision_id seen s h =
      let (_, h1) = >>-eq-ok (validated_context request plan report target) _ h in
      let (_, _, h2) = >>=-eq-ok (repair_policy_from_request request) _ h1 in
      let (_, h3) = >>-eq-ok (check_seen seen) _ h2 in
      let (routed, _, h4) = >>=-eq-ok (decide_artifact report target none false) _ h3 in
      let (_, h5) =
        after_guard
          (not
            (routed.artifact_status == rejected && routed.decision_reason == required_gate_failed))
          _ _ h4 in
      let (trigger, blocked, h6) = >>=-eq-ok (blocking_rules plan report target) _ h5 in
      split trigger blocked h6
    where
      split :
          (trigger : List (CompiledRule Binding))
          → blocking_rules plan report target ≡ ok trigger
          → repair_of request decision_id seen trigger ≡ ok s
          → (rule : CompiledRule Binding) × (rest : List (CompiledRule Binding)) × (blocking_rules
                plan report target
              ≡ ok (rule ∷ rest))
            × (first_repair request decision_id rule seen (actions rule.definition.rule_id) ≡ ok s)
      split [] blocked k = absurd (cc)
      split (rule ∷ rest) blocked k = (rule, rest, blocked, k)
