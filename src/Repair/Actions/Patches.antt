-- ===== src/Repair/Actions/Patches.antt =====
-- What the patches of actions.py and the requests built from them change.
use lookfile.Prelude.{
  ℕ, ◌+◌, ◌≤◌, ◌≡◌, ◌≢◌, ◌⊎◌, inl, inr, refl, sym, ap, ◌∙◌, subst, Bool, false, not, ◌||◌, ◌==◌,
  ◌!=◌, nat_eq, list_eq, bool_eq, ==_refl, arith, Result, ok, err, Error, ok_inj, >>=-eq-ok,
  >>-eq-ok, after_guard, ltb, if◌then◌else◌,
}
use lookfile.Domain.Identifiers.{Identifier, DecisionId, RuleId}
use lookfile.Repair.Scales.{one}
use lookfile.Repair.Models.{
  GenerationParameters, generation_parameters, generation_parameters_eq, max_variation_index,
  RepairPatch, repair_patch, repair_patch_eq, RepairDecision, repair_decision, check_policy_version,
}
use lookfile.Repair.Requests.{GenerationRequest}
use lookfile.Repair.Actions.{
  patch_for, change_parameters, is_action_executable, plan_repair_action,
  repair_policy_from_request, check_action, increase_style_scale, decrease_style_scale,
  reduce_denoise, increase_structure, retry_sampling,
}

-- Scales in [0, 1].
pub record IsBounded (p : GenerationParameters) : Type 0 where
  pub style : p.ip_adapter_scale ≤ one
  pub denoise : p.img2img_strength ≤ one
  pub structure : p.controlnet_scale ≤ one

none_above : (a b c n : ℕ) → (ltb n a || ltb n b || ltb n c) ≡ false → (a ≤ n) × (b ≤ n) × (c ≤ n)
none_above a b c n h = ground arith

not_above : (a n : ℕ) → ltb n a ≡ false → a ≤ n
not_above a n h = ground arith

pub generation_parameters_inv :
    (p : GenerationParameters) {q : GenerationParameters}
    → generation_parameters p ≡ ok q
    → (p ≡ q) × IsBounded p
unfolding generation_parameters
generation_parameters_inv p h =
    let (inside, e) = after_guard _ _ _ h in
    let (style, denoise, structure) = none_above _ _ _ one inside in
    (ok_inj e, record { style = style; denoise = denoise; structure = structure })

-- A patch from one state to another: either the scales change and the index stays, or the index
-- moves on and the scales stay; the new state is in range.
pub record IsStep (before : GenerationParameters) (index : ℕ) (patch : RepairPatch) : Type 0 where
  pub from_parameters : patch.before_parameters ≡ before
  pub from_index : patch.before_variation_index ≡ index
  pub in_range : IsBounded patch.after_parameters
  pub index_in_range : patch.after_variation_index ≤ max_variation_index
  pub one_category :
      ((patch.after_parameters ≢ before) × (patch.after_variation_index ≡ index))
      ⊎ ((patch.after_parameters ≡ before) × (patch.after_variation_index ≡ index + 1))

-- The tests of a patch that was accepted.
pub repair_patch_inv :
    (patch : RepairPatch) {made : RepairPatch}
    → repair_patch patch ≡ ok made
    → (patch ≡ made)
      × IsBounded patch.after_parameters
      × (patch.after_variation_index ≤ max_variation_index)
      × (((patch.before_parameters != patch.after_parameters)
            == (patch.before_variation_index != patch.after_variation_index))
          ≡ false)
unfolding repair_patch
repair_patch_inv patch h =
    let (before, b, h1) = >>=-eq-ok (generation_parameters patch.before_parameters) _ h in
    let (after, a, h2) = >>=-eq-ok (generation_parameters patch.after_parameters) _ h1 in
    let (_, h3) = after_guard (ltb max_variation_index patch.before_variation_index) _ _ h2 in
    let (i, h4) = after_guard (ltb max_variation_index patch.after_variation_index) _ _ h3 in
    let (c, e) =
      after_guard
        ((before != after) == (patch.before_variation_index != patch.after_variation_index)) _ _
        h4 in
    let (same_before, _) = generation_parameters_inv patch.before_parameters b in
    let (same_after, bounded) = generation_parameters_inv patch.after_parameters a in
    (ok_inj e, bounded, not_above _ _ i, rw (same_before, same_after) c)

differ : (p : GenerationParameters) (i : ℕ) → ((p != p) == (i != i)) ≢ false
differ p i k = cc (k, ==_refl p, ==_refl i)

-- Two parameter sets that `!=` tells apart, where the indices agree.
only_parameters : (p q : GenerationParameters) (i : ℕ) → ((p != q) == (i != i)) ≡ false → q ≢ p
only_parameters p q i h e = differ p i (subst (λ x. ((p != x) == (i != i)) ≡ false) e h)

change_parameters-IsStep :
    (p q : GenerationParameters) (i : ℕ) {patch : RepairPatch}
    → change_parameters p q i ≡ ok patch
    → IsStep p i patch
unfolding change_parameters
change_parameters-IsStep p q i h =
    let (made, m, h1) = >>=-eq-ok (generation_parameters q) _ h in
    let (same, bounded, index, differs) = repair_patch_inv _ h1 in
    subst (IsStep p i) same (record {
      from_parameters = refl;
      from_index = refl;
      in_range = bounded;
      index_in_range = index;
      one_category = inl (only_parameters p made i differs, refl);
    })

retry-IsStep :
    (p : GenerationParameters) (i : ℕ) {patch : RepairPatch}
    → repair_patch (record {
      before_parameters = p;
      after_parameters = p;
      before_variation_index = i;
      after_variation_index = i + 1;
    })
      ≡ ok patch
    → IsStep p i patch
retry-IsStep p i h =
    let (same, bounded, index, _) = repair_patch_inv _ h in
    subst (IsStep p i) same (record {
      from_parameters = refl;
      from_index = refl;
      in_range = bounded;
      index_in_range = index;
      one_category = inr (refl, refl);
    })

-- The branch that a ladder of five tests takes.
ladder :
    (b c d e f : Bool) (v w x y z : Result RepairPatch) (last : Error) {patch : RepairPatch}
    → (if b
        then v
        else if c
        then w
        else if d
        then x
        else if e
        then y
        else if f
        then z
        else err last)
      ≡ ok patch
    → (v ≡ ok patch) ⊎ (w ≡ ok patch) ⊎ (x ≡ ok patch) ⊎ (y ≡ ok patch) ⊎ (z ≡ ok patch)
ladder b c d e f v w x y z last h = ground arith

module _ {Binding Material : Type 0} where
  -- The patch of an action starts from the parameters and the index of the request and changes
  -- exactly one of them: the scales, which stay in [0, 1], or the index, which moves on by one and
  -- stays within its bound.
  pub patch_for-IsStep :
      (request : GenerationRequest Binding Material) (action : Identifier) (patch : RepairPatch)
      → patch_for request action ≡ ok patch
      → IsStep request.execution_parameters request.variation_index patch
  unfolding patch_for
  patch_for-IsStep request action patch h =
      let p = request.execution_parameters in
      let i = request.variation_index in
      elim (ladder (action == increase_style_scale) (action == decrease_style_scale)
        (action == reduce_denoise) (action == increase_structure) (action == retry_sampling) _ _ _ _
        _ _ h) [
          | inl k ↦ change_parameters-IsStep p _ i k
          | inr (inl k) ↦ change_parameters-IsStep p _ i k
          | inr (inr (inl k)) ↦ change_parameters-IsStep p _ i k
          | inr (inr (inr (inl k))) ↦ change_parameters-IsStep p _ i k
          | inr (inr (inr (inr k))) ↦ retry-IsStep p i k
        ]

  -- What a planned decision consists of.
  pub planned_patch :
      (request : GenerationRequest Binding Material) (decision_id : DecisionId) (rule_id : RuleId)
      (action : Identifier) {decision : RepairDecision}
      → plan_repair_action request decision_id rule_id action ≡ ok decision
      → (patch_for request action ≡ ok decision.patch)
        × (decision.action_id ≡ action)
        × (decision.trigger_rule_id ≡ rule_id)
        × (decision.decision_id ≡ decision_id)
  unfolding plan_repair_action repair_decision
  planned_patch request decision_id rule_id action h =
      let (policy, _, h1) = >>=-eq-ok (repair_policy_from_request request) _ h in
      let (_, h2) = >>-eq-ok (check_action action) _ h1 in
      let (_, h3) = after_guard (not (is_action_executable request action)) _ _ h2 in
      let (patch, found, h4) = >>=-eq-ok (patch_for request action) _ h3 in
      let (_, h5) = >>-eq-ok (check_policy_version policy.policy_version) _ h4 in
      let (_, _, e) = >>=-eq-ok (repair_patch patch) _ h5 in
      let same = ok_inj e in
      (
        found ∙ ap (λ (d : RepairDecision). ok d.patch) same,
        ap (λ (d : RepairDecision). d.action_id) (sym same),
        ap (λ (d : RepairDecision). d.trigger_rule_id) (sym same),
        ap (λ (d : RepairDecision). d.decision_id) (sym same),
      )
