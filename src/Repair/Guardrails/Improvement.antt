-- ===== src/Repair/Guardrails/Improvement.antt =====
-- An improvement lowers the vector of gates, read as a binary number; so improvements end.
use native.Mathlib.Nat.{pow-suc}
use lookfile.Prelude.{
  ℕ, zero, suc, ◌+◌, ◌*◌, ◌^◌, ◌≤◌, ◌<◌, ◌≡◌, refl, sym, ap, ◌∙◌, subst, Bool, true, false, not,
  List, [], ◌∷◌, ◌==◌, nat_eq, list_eq, arith, Result, ok, ok_inj, >>=-eq-ok, >>-eq-ok, after_guard,
  ltb, length, is_empty, if◌then◌else◌,
}
use lookfile.Domain.Enums.{rule_status_eq}
use lookfile.Domain.Identifiers.{ArtifactId}
use lookfile.Verification.Reports.{VerificationReport}
use lookfile.Repair.Models.{RepairDecision, repair_decision, repair_patch, check_policy_version}
use lookfile.Repair.Requests.{CompiledRule, CompiledVerificationPlan}
use lookfile.Repair.Context.{ordered_required, validate_plan_report, blocking_rules}
use lookfile.Repair.Guardrails.{
  vector_lt, passes, gate_bits, vector, matches_trigger, gates_before, all_pass, compare_vectors,
  is_repair_improvement,
}

-- A vector read as a binary number, the first gate as the highest bit.
abbrev pub weight : List ℕ → ℕ
weight [] = 0
weight (b ∷ bs) = b * 2 ^ length bs + weight bs

pub data AllBits : List ℕ → Type 0 where
  done : AllBits []
  bit : {b : ℕ} {bs : List ℕ} → b ≤ 1 → AllBits bs → AllBits (b ∷ bs)

abbrev head_bit : Bool → ℕ
head_bit passed = if passed then 0 else 1

bit_le : (passed : Bool) → head_bit passed ≤ 1
bit_le true = omega arith
bit_le false = omega arith

scaled : (b p : ℕ) → b ≤ 1 → b * p ≤ p
scaled b p h = grind arith

weight_bound : (bs : List ℕ) → AllBits bs → weight bs < 2 ^ length bs
weight_bound [] done = omega arith
weight_bound (b ∷ bs) (bit h k) =
    omega (arith, weight_bound bs k, scaled b (2 ^ length bs) h, pow-suc 2 (length bs))

-- One place of the comparison.
heads :
    (a b v w p : ℕ) (r : Bool)
    → b ≤ 1
    → v < p
    → (r ≡ true → v < w)
    → (if ltb a b then true else if a == b then r else false) ≡ true
    → a * p + v < b * p + w
heads zero zero v w p r j l k h = omega (arith, k h)
heads zero (suc zero) v w p r j l k h = omega arith
heads zero (suc (suc b)) v w p r j l k h = absurd (omega arith)
heads (suc a) zero v w p r j l k h = ground arith
heads (suc zero) (suc zero) v w p r j l k h = omega (arith, k h)
heads (suc (suc a)) (suc zero) v w p r j l k h = ground arith
heads (suc a) (suc (suc b)) v w p r j l k h = absurd (omega arith)

vector_lt-weight :
    (as' bs : List ℕ)
    → AllBits as'
    → AllBits bs
    → length as' ≡ length bs
    → vector_lt as' bs ≡ true
    → weight as' < weight bs
vector_lt-weight as' [] i j e h = absurd (cc)
vector_lt-weight [] (b ∷ bs) i j e h = absurd (omega (arith, e))
vector_lt-weight (a ∷ as') (b ∷ bs) (bit i is) (bit j js) e h =
    let same : length as' ≡ length bs = omega (arith, e) in
    subst (λ n. a * 2 ^ length as' + weight as' < b * 2 ^ n + weight bs) same
      (heads a b (weight as') (weight bs) (2 ^ length as') (vector_lt as' bs) j
        (weight_bound as' is) (vector_lt-weight as' bs is js same) h)

repair_decision-same :
    (decision : RepairDecision) {made : RepairDecision}
    → repair_decision decision ≡ ok made
    → decision ≡ made
unfolding repair_decision
repair_decision-same decision h =
    let (_, h1) = >>-eq-ok (check_policy_version decision.policy_version) _ h in
    let (_, _, e) = >>=-eq-ok (repair_patch decision.patch) _ h1 in ok_inj e

passed_test :
    (b : Bool) (r : Result Bool)
    → (if b then r else ok false) ≡ ok true
    → (b ≡ true) × (r ≡ ok true)
passed_test true r h = (refl, h)
passed_test false r h = absurd (cc (ok_inj h))

module _ {Binding : Type 0} where
  gate_bits-AllBits :
      (report : VerificationReport) (target : ArtifactId) (rules : List (CompiledRule Binding))
      (bits : List ℕ)
      → gate_bits report target rules ≡ ok bits
      → AllBits bits × (length bits ≡ length rules)
  unfolding gate_bits
  gate_bits-AllBits report target [] bits h =
      (subst AllBits (ok_inj h) done, ap (λ (xs : List ℕ). length xs) (sym (ok_inj h)))
  gate_bits-AllBits report target (rule ∷ rules) bits h =
      let (passed, _, h1) = >>=-eq-ok (passes report target rule.definition.rule_id) _ h in
      let (more, rest, e) = >>=-eq-ok (gate_bits report target rules) _ h1 in
      let (bits_more, same) = gate_bits-AllBits report target rules more rest in
      (
        subst AllBits (ok_inj e) (bit (bit_le passed) bits_more),
        ap (λ (xs : List ℕ). length xs) (sym (ok_inj e)) ∙ ap suc same,
      )

  -- The two vectors at the end of an improvement.
  compared :
      (plan : CompiledVerificationPlan Binding) (parent child : VerificationReport)
      (parent_target child_target : ArtifactId)
      → compare_vectors plan parent child parent_target child_target ≡ ok true
      → (before : List ℕ) × (after : List ℕ) × (vector plan parent parent_target ≡ ok before)
        × (vector plan child child_target ≡ ok after)
        × (weight after < weight before)
        × (weight before < 2 ^ length (ordered_required plan))
  unfolding compare_vectors vector
  compared plan parent child parent_target child_target h =
      let (after, a, h1) = >>=-eq-ok (vector plan child child_target) _ h in
      let (before, b, e) = >>=-eq-ok (vector plan parent parent_target) _ h1 in
      let (after_bits, after_length) = gate_bits-AllBits child child_target _ after a in
      let (before_bits, before_length) = gate_bits-AllBits parent parent_target _ before b in
      (
        before,
        after,
        b,
        a,
        vector_lt-weight after before after_bits before_bits (after_length ∙ sym before_length)
            (ok_inj e),
        subst (λ n. weight before < 2 ^ n) before_length (weight_bound before before_bits),
      )

  -- A repair that counts as an improvement makes its trigger pass and lowers the vector of required
  -- gates, read as a binary number with the first gate as its highest bit; the parent's vector is
  -- below 2 to the number of required gates.
  pub is_repair_improvement-lowers :
      (plan : CompiledVerificationPlan Binding) (parent child : VerificationReport)
      (parent_target child_target : ArtifactId) (decision : RepairDecision)
      → is_repair_improvement plan parent child parent_target child_target decision ≡ ok true
      → (passes child child_target decision.trigger_rule_id ≡ ok true)
        × (before : List ℕ) × (after : List ℕ) × (vector plan parent parent_target ≡ ok before)
        × (vector plan child child_target ≡ ok after)
        × (weight after < weight before)
        × (weight before < 2 ^ length (ordered_required plan))
  unfolding is_repair_improvement
  is_repair_improvement-lowers plan parent child parent_target child_target decision h =
      let (_, h1) = >>-eq-ok (validate_plan_report plan parent parent_target) _ h in
      let (_, h2) = >>-eq-ok (validate_plan_report plan child child_target) _ h1 in
      let (rebuilt, made, h3) = >>=-eq-ok (repair_decision decision) _ h2 in
      let (blocking, _, h4) = >>=-eq-ok (blocking_rules plan parent parent_target) _ h3 in
      let (_, h5) = after_guard (not (matches_trigger blocking rebuilt.trigger_rule_id)) _ _ h4 in
      let (_, h6) = after_guard (is_empty (ordered_required plan)) _ _ h5 in
      let (before, _, h7) =
        >>=-eq-ok (gates_before rebuilt.trigger_rule_id (ordered_required plan)) _ h6 in
      let (trigger, tested, h8) =
        >>=-eq-ok (passes child child_target rebuilt.trigger_rule_id) _ h7 in
      let (yes_trigger, h9) = passed_test trigger _ h8 in
      let (prefix, _, h10) = >>=-eq-ok (all_pass child child_target before) _ h9 in
      let (_, h11) = passed_test prefix _ h10 in
      let (old, new, b, a, lower, bound) =
        compared plan parent child parent_target child_target h11 in
      (
        subst (λ (d : RepairDecision). passes child child_target d.trigger_rule_id ≡ ok true)
            (sym (repair_decision-same decision made)) (tested ∙ ap ok yes_trigger),
        old,
        new,
        b,
        a,
        lower,
        bound,
      )
