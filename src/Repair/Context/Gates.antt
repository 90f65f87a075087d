-- ===== src/Repair/Context/Gates.antt =====
-- The order of the required gates and the rules that block, of conflict_resolution.py.
use lookfile.Prelude.{
  ℕ, ◌≡◌, ◌↔◌, ◌⊎◌, inl, inr, refl, sym, ap, ◌∙◌, subst, Bool, true, false, ◌&&◌, ◌||◌, List, [],
  ◌∷◌, Memᴰ, ◌==◌, nat_eq, list_eq, arith, ok, ok_inj, >>=-eq-ok, ltb, select, select-mem,
  mem-select, if◌then◌else◌,
}
use lookfile.Domain.Text.{Text, text_lt}
use lookfile.Domain.Identifiers.{ArtifactId}
use lookfile.Verification.RuleModels.{RuleResult}
use lookfile.Verification.Reports.{VerificationReport}
use lookfile.Repair.Requests.{CompiledRule, CompiledVerificationPlan}
use lookfile.Repair.Context.{
  tier, gate_below, is_gate, ordered_required, result_for, blocks, blocking, blocking_among,
  blocking_rules,
}
use lookfile.Repair.Context.Sorting.{IsSorted, sorted-IsSorted, sorted-mem, mem-sorted}

text_lt_asym : (a b : Text) → text_lt a b ≡ true → text_lt b a ≡ false
text_lt_asym [] [] h = cc
text_lt_asym [] (y ∷ b) h = refl
text_lt_asym (x ∷ a) [] h = absurd (cc)
text_lt_asym (x ∷ a) (y ∷ b) h = ground (arith, text_lt_asym a b)

keys_asym :
    (s t p q : ℕ) (a b : Text)
    → (ltb s t || (s == t && (ltb p q || (p == q && text_lt a b)))) ≡ true
    → (ltb t s || (t == s && (ltb q p || (q == p && text_lt b a)))) ≡ false
keys_asym s t p q a b h = ground (arith, text_lt_asym a b)

module _ {Binding : Type 0} where
  pub gate_below_asym :
      (a b : CompiledRule Binding) → gate_below a b ≡ true → gate_below b a ≡ false
  gate_below_asym a b h =
      keys_asym (tier a.definition.level) (tier b.definition.level) a.priority b.priority
        a.definition.rule_id b.definition.rule_id h

  -- The required gates of a plan are its applicable required rules, all of them and no others, in
  -- the order of tier (the first level, then the third, then the second), priority and rule id.
  pub ordered_required-gates :
      (plan : CompiledVerificationPlan Binding)
      → IsSorted gate_below (ordered_required plan)
        × ((rule : CompiledRule Binding)
            → Memᴰ rule (ordered_required plan) ↔ (Memᴰ rule plan.rules × (is_gate rule ≡ true)))
  unfolding ordered_required
  ordered_required-gates plan = (
    sorted-IsSorted gate_below gate_below_asym (select is_gate plan.rules),
    λ rule. (
      λ m. select-mem is_gate plan.rules (sorted-mem gate_below rule _ m),
      λ p. mem-sorted gate_below rule _ (mem-select is_gate p.0 p.1),
    ),
  )

  -- That a rule blocks an artifact: its one result is a failure, or a warning that the rule's policy
  -- rejects.
  abbrev pub Blocks : VerificationReport → ArtifactId → CompiledRule Binding → Type 0
  Blocks report target rule =
      (result : RuleResult) × (result_for report rule.definition.rule_id target ≡ ok result)
      × (blocks rule result.status ≡ true)

  pub blocking_inv :
      (rule : CompiledRule Binding) (report : VerificationReport) (target : ArtifactId) (b : Bool)
      → blocking rule report target ≡ ok b
      → (result : RuleResult) × (result_for report rule.definition.rule_id target ≡ ok result)
        × (blocks rule result.status ≡ b)
  unfolding blocking
  blocking_inv rule report target b h =
      let (result, found, e) = >>=-eq-ok (result_for report rule.definition.rule_id target) _ h in
      (result, found, ok_inj e)

  kept_inv :
      (b : Bool) (r rule : CompiledRule Binding) (more : List (CompiledRule Binding))
      → Memᴰ r (if b then rule ∷ more else more)
      → ((b ≡ true) × (r ≡ rule)) ⊎ Memᴰ r more
  kept_inv true r rule more (Memᴰ.head e) = inl (refl, e)
  kept_inv true r rule more (Memᴰ.tail m) = inr m
  kept_inv false r rule more m = inr m

  kept_more :
      (b : Bool) (r rule : CompiledRule Binding) (more : List (CompiledRule Binding))
      → Memᴰ r more
      → Memᴰ r (if b then rule ∷ more else more)
  kept_more true r rule more m = Memᴰ.tail m
  kept_more false r rule more m = m

  -- The two results of the loop at a rule and after it.
  pub among_inv :
      (report : VerificationReport) (target : ArtifactId) (rule : CompiledRule Binding)
      (rules blocked : List (CompiledRule Binding))
      → blocking_among report target (rule ∷ rules) ≡ ok blocked
      → (b : Bool) × (more : List (CompiledRule Binding)) × (blocking rule report target ≡ ok b)
        × (blocking_among report target rules ≡ ok more)
        × ((if b then rule ∷ more else more) ≡ blocked)
  unfolding blocking_among
  among_inv report target rule rules blocked h =
      let (b, tested, h1) = >>=-eq-ok (blocking rule report target) _ h in
      let (more, rest, e) = >>=-eq-ok (blocking_among report target rules) _ h1 in
      (b, more, tested, rest, ok_inj e)

  pub blocking_among-mem :
      (report : VerificationReport) (target : ArtifactId)
      (rules blocked : List (CompiledRule Binding)) (r : CompiledRule Binding)
      → blocking_among report target rules ≡ ok blocked
      → Memᴰ r blocked
      → Memᴰ r rules × Blocks report target r
  unfolding blocking_among
  blocking_among-mem report target [] blocked r h m = elim (subst (Memᴰ r) (sym (ok_inj h)) m) [ ]
  blocking_among-mem report target (rule ∷ rules) blocked r h m =
      let (b, more, tested, rest, e) = among_inv report target rule rules blocked h in
      elim (kept_inv b r rule more (subst (Memᴰ r) (sym e) m)) [
        | inl (failed, same) ↦ (
          Memᴰ.head same,
          subst (Blocks report target) (sym same)
              (blocking_inv rule report target true (tested ∙ ap ok failed)),
        )
        | inr k ↦
            let (listed, blocks_r) = blocking_among-mem report target rules more r rest k in
            (Memᴰ.tail listed, blocks_r)
      ]

  mem-blocking_among :
      (report : VerificationReport) (target : ArtifactId)
      (rules blocked : List (CompiledRule Binding)) (r : CompiledRule Binding)
      → blocking_among report target rules ≡ ok blocked
      → Memᴰ r rules
      → Blocks report target r
      → Memᴰ r blocked
  unfolding blocking_among
  mem-blocking_among report target [] blocked r h m k = elim m [ ]
  mem-blocking_among report target (rule ∷ rules) blocked r h m k =
      let (b, more, tested, rest, e) = among_inv report target rule rules blocked h in
      subst (Memᴰ r) e (elim m [
        | Memᴰ.tail later ↦
            kept_more b r rule more (mem-blocking_among report target rules more r rest later k)
        | Memᴰ.head same ↦
            rw (← same) (rw (sure report target rule r b tested same k) (Memᴰ.head refl))
      ])
    where
      sure :
          (report : VerificationReport) (target : ArtifactId) (rule r : CompiledRule Binding)
          (b : Bool)
          → blocking rule report target ≡ ok b
          → r ≡ rule
          → Blocks report target r
          → b ≡ true
      sure report target rule r b tested same k =
          let (result, found, blocked) = subst (Blocks report target) same k in
          let (other, also, e) = blocking_inv rule report target b tested in
          let one : result ≡ other = ok_inj (sym found ∙ also) in
          sym e ∙ ap (λ (x : RuleResult). blocks rule x.status) (sym one) ∙ blocked

  -- The blocking rules of an artifact are the required gates whose result for it fails, or warns
  -- where the rule's policy rejects a warning: all of them and no others.
  pub blocking_rules-gates :
      (plan : CompiledVerificationPlan Binding) (report : VerificationReport) (target : ArtifactId)
      (blocked : List (CompiledRule Binding))
      → blocking_rules plan report target ≡ ok blocked
      → (rule : CompiledRule Binding)
      → Memᴰ rule blocked
        ↔ (Memᴰ rule plan.rules × (is_gate rule ≡ true) × Blocks report target rule)
  unfolding blocking_rules
  blocking_rules-gates plan report target blocked h rule =
      let gates = (ordered_required-gates plan).1 rule in
      (
        λ m.
            let (listed, k) =
              blocking_among-mem report target (ordered_required plan) blocked rule h m in
            let (in_plan, gate) = gates.0 listed in (in_plan, gate, k),
        λ p.
            let (in_plan, gate, k) = p in
            mem-blocking_among report target (ordered_required plan) blocked rule h
              (gates.1 (in_plan, gate)) k,
      )
