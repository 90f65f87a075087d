-- ===== src/Repair/Context/Order.antt =====
-- Which of two gates is the more urgent, without the keys of the sort.
use lookfile.Prelude.{
  ℕ, ◌<◌, ◌≡◌, ◌≢◌, ◌⊎◌, inl, inr, refl, sym, subst, Bool, true, false, ◌&&◌, ◌||◌, List, [], ◌∷◌,
  Memᴰ, ◌==◌, nat_eq, list_eq, arith, ok, ltb, if◌then◌else◌,
}
use lookfile.Domain.Text.{Text, text_lt}
use lookfile.Domain.Enums.{RuleLevel, l1, l2, l3}
use lookfile.Domain.Identifiers.{ArtifactId}
use lookfile.Verification.Reports.{VerificationReport}
use lookfile.Repair.Requests.{CompiledRule, CompiledVerificationPlan}
use lookfile.Repair.Context.{tier, gate_below, ordered_required, blocking_among, blocking_rules}
use lookfile.Repair.Context.Sorting.{IsSorted, empty, single, next}
use lookfile.Repair.Context.Gates.{ordered_required-gates, among_inv, blocking_among-mem}

text_lt_trans : (a b c : Text) → text_lt b a ≡ false → text_lt c b ≡ false → text_lt c a ≡ false
text_lt_trans [] [] [] h k = refl
text_lt_trans [] [] (z ∷ c) h k = k
text_lt_trans [] (y ∷ b) [] h k = refl
text_lt_trans [] (y ∷ b) (z ∷ c) h k = refl
text_lt_trans (x ∷ a) [] c h k = absurd (cc)
text_lt_trans (x ∷ a) (y ∷ b) [] h k = absurd (cc)
text_lt_trans (x ∷ a) (y ∷ b) (z ∷ c) h k = ground (arith, text_lt_trans a b c)

keys_trans :
    (s t u p q r : ℕ) (a b c : Text)
    → (ltb t s || (t == s && (ltb q p || (q == p && text_lt b a)))) ≡ false
    → (ltb u t || (u == t && (ltb r q || (r == q && text_lt c b)))) ≡ false
    → (ltb u s || (u == s && (ltb r p || (r == p && text_lt c a)))) ≡ false
keys_trans s t u p q r a b c h k = ground (arith, text_lt_trans a b c)

-- The technical level comes before the others and the domain level before the style level; within a
-- level the priority decides, and then the rule id.
pub data Precedes {Binding : Type 0} (a b : CompiledRule Binding) : Type 0 where
  technical_first : a.definition.level ≡ l1 → b.definition.level ≢ l1 → Precedes a b
  domain_before_style : a.definition.level ≡ l3 → b.definition.level ≡ l2 → Precedes a b
  by_priority : a.definition.level ≡ b.definition.level → a.priority < b.priority → Precedes a b
  by_id :
      a.definition.level ≡ b.definition.level
      → a.priority ≡ b.priority
      → text_lt b.definition.rule_id a.definition.rule_id ≡ false
      → Precedes a b

-- A gate comes before each gate of a list.
abbrev pub Leads : {Binding : Type 0} → CompiledRule Binding → List (CompiledRule Binding) → Type 0
Leads rule [] = Unit {0}
Leads rule (other ∷ others) = Precedes rule other × Leads rule others

levels :
    (a b : RuleLevel) (p q : ℕ) (i j : Text)
    → (ltb (tier b) (tier a) || (tier b == tier a && (ltb q p || (q == p && text_lt j i)))) ≡ false
    → ((a ≡ l1) × (b ≢ l1))
      ⊎ (((a ≡ l3) × (b ≡ l2))
          ⊎ (((a ≡ b) × (p < q)) ⊎ ((a ≡ b) × (p ≡ q) × (text_lt j i ≡ false))))
levels l1 l1 p q i j h = inr (inr (ground arith))
levels l1 l2 p q i j h = inl (refl, λ e. cc (e))
levels l1 l3 p q i j h = inl (refl, λ e. cc (e))
levels l2 l1 p q i j h = absurd (cc (h))
levels l2 l2 p q i j h = inr (inr (ground arith))
levels l2 l3 p q i j h = absurd (cc (h))
levels l3 l1 p q i j h = absurd (cc (h))
levels l3 l2 p q i j h = inr (inl (refl, refl))
levels l3 l3 p q i j h = inr (inr (ground arith))

module _ {Binding : Type 0} where
  not_below-Precedes : (a b : CompiledRule Binding) → gate_below b a ≡ false → Precedes a b
  not_below-Precedes a b h =
      elim (levels a.definition.level b.definition.level a.priority b.priority a.definition.rule_id
        b.definition.rule_id h) [
          | inl (e, f) ↦ technical_first e f
          | inr (inl (e, f)) ↦ domain_before_style e f
          | inr (inr (inl (e, f))) ↦ by_priority e f
          | inr (inr (inr (e, f, g))) ↦ by_id e f g
        ]

  IsSorted-tail :
      {x : CompiledRule Binding} {xs : List (CompiledRule Binding)}
      → IsSorted gate_below (x ∷ xs)
      → IsSorted gate_below xs
  IsSorted-tail single = empty
  IsSorted-tail (next h s) = s

  -- The head of a sorted list is above no later gate.
  head_least :
      (x y : CompiledRule Binding) (xs : List (CompiledRule Binding))
      → IsSorted gate_below (x ∷ xs)
      → Memᴰ y xs
      → gate_below y x ≡ false
  head_least x y [] s m = elim m [ ]
  head_least x y (z ∷ xs) (next h s) (Memᴰ.head e) =
      subst (λ (w : CompiledRule Binding). gate_below w x ≡ false) (sym e) h
  head_least x y (z ∷ xs) (next h s) (Memᴰ.tail m) =
      keys_trans (tier x.definition.level) (tier z.definition.level) (tier y.definition.level)
        x.priority z.priority y.priority x.definition.rule_id z.definition.rule_id
        y.definition.rule_id h (head_least z y xs s m)

  leading :
      (rule : CompiledRule Binding) (others : List (CompiledRule Binding))
      → ((other : CompiledRule Binding) → Memᴰ other others → Precedes rule other)
      → Leads rule others
  leading rule [] h = tt
  leading rule (other ∷ others) h =
      (h other (Memᴰ.head refl), leading rule others (λ o m. h o (Memᴰ.tail m)))

  among-Leads :
      (report : VerificationReport) (target : ArtifactId) (rules : List (CompiledRule Binding))
      (first : CompiledRule Binding) (rest : List (CompiledRule Binding))
      → IsSorted gate_below rules
      → blocking_among report target rules ≡ ok (first ∷ rest)
      → Leads first rest
  unfolding blocking_among
  among-Leads report target [] first rest s h = cc
  among-Leads report target (rule ∷ rules) first rest s h =
      let (b, more, tested, later, e) = among_inv report target rule rules (first ∷ rest) h in
      split b more later e (λ k. among-Leads report target rules first rest (IsSorted-tail s) k)
    where
      split :
          (b : Bool) (more : List (CompiledRule Binding))
          → blocking_among report target rules ≡ ok more
          → (if b then rule ∷ more else more) ≡ first ∷ rest
          → (blocking_among report target rules ≡ ok (first ∷ rest) → Leads first rest)
          → Leads first rest
      split true more later e again =
          let same : rule ≡ first = cc (e) in
          let tail : more ≡ rest = cc (e) in
          leading first rest (λ other m.
            let (listed, _) =
              blocking_among-mem report target rules more other later
                (subst (Memᴰ other) (sym tail) m) in
            subst (λ r. Precedes r other) same
              (not_below-Precedes rule other (head_least rule other rules s listed)))
      split false more later e again =
          again (subst (λ l. blocking_among report target rules ≡ ok l) e later)

  -- The first blocking rule comes before the others.
  pub blocking_rules-Leads :
      (plan : CompiledVerificationPlan Binding) (report : VerificationReport) (target : ArtifactId)
      (first : CompiledRule Binding) (rest : List (CompiledRule Binding))
      → blocking_rules plan report target ≡ ok (first ∷ rest)
      → Leads first rest
  unfolding blocking_rules
  blocking_rules-Leads plan report target first rest h =
      among-Leads report target (ordered_required plan) first rest (ordered_required-gates plan).0 h
