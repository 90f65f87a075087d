-- ===== src/Verification/Routing/Members.antt =====
-- Which results `results_affecting_artifact` keeps.
use lookfile.Prelude.{
  ◌⊎◌, inl, inr, ap, ◌∙◌, ◌≡◌, refl, sym, Bool, true, false, some, none, List, [], ◌∷◌, Memᴰ, ok,
  err, Result, if◌then◌else◌, contains, list_eq, nat_eq, subst, ok_inj, Option, ◌==◌,
}
use lookfile.Domain.Enums.{applicable, static_applicability_eq}
use lookfile.Domain.Identifiers.{ArtifactId}
use lookfile.Verification.RuleModels.{RuleDefinition, RuleResult}
use lookfile.Verification.Reports.{find_rule}
use lookfile.Verification.Reports.Coverage.{Bears}
use lookfile.Verification.Routing.{Relevant, results_affecting_artifact, relevant_step}

mem_if :
    (b : Bool) (r : Relevant) {pair : Relevant} {tail : List Relevant}
    → Memᴰ pair tail
    → Memᴰ pair (if b then r ∷ tail else tail)
mem_if true r m = Memᴰ.tail m
mem_if false r m = m

-- A step that succeeds keeps what the rest of the loop kept.
step_keeps :
    (b : Bool) (o : Option RuleDefinition) (result : RuleResult) (rest : Result (List Relevant))
    (relevant : List Relevant)
    → (if b then relevant_step o result rest else rest) ≡ ok relevant
    → (tail : List Relevant) × (rest ≡ ok tail)
      × ((pair : Relevant) → Memᴰ pair tail → Memᴰ pair relevant)
step_keeps false o result rest relevant h = (relevant, h, λ pair m. m)
step_keeps true none result rest relevant h = absurd (cc)
step_keeps true (some rule) result (err e) relevant h = absurd (cc)
step_keeps true (some rule) result (ok tail) relevant h = (
  tail,
  refl,
  λ pair m.
      subst (Memᴰ pair) (ok_inj h) (mem_if (rule.applicability == applicable) (rule, result) m),
)

-- A step keeps the result that it is about, when the result bears on the artifact.
step_here :
    (rule : RuleDefinition) (result : RuleResult) (rest : Result (List Relevant))
    (relevant : List Relevant)
    → (rule.applicability == applicable) ≡ true
    → relevant_step (some rule) result rest ≡ ok relevant
    → Memᴰ (rule, result) relevant
step_here rule result (err e) relevant a h = absurd (cc)
step_here rule result (ok tail) relevant a h =
    subst (Memᴰ (rule, result)) (ok_inj h) (rw a (Memᴰ.head refl))

mem_of_results :
    (rules : List RuleDefinition) (artifact_id : ArtifactId) {rule : RuleDefinition}
    {result : RuleResult} {results : List RuleResult} (relevant : List Relevant)
    → Memᴰ result results
    → contains artifact_id result.affected_artifact_ids ≡ true
    → find_rule result.rule_id rules ≡ some rule
    → (rule.applicability == applicable) ≡ true
    → results_affecting_artifact rules artifact_id results ≡ ok relevant
    → Memᴰ (rule, result) relevant
unfolding results_affecting_artifact
mem_of_results rules artifact_id {results = []} relevant m c f a h = elim m [ ]
mem_of_results rules artifact_id {rule} {result} {results = r ∷ results} relevant (Memᴰ.head e) c f
      a h =
    step_here rule result (results_affecting_artifact rules artifact_id results) relevant a (
      rw (c, f) at
        (subst (λ x. results_affecting_artifact rules artifact_id (x ∷ results) ≡ ok relevant)
          (sym e) h))
mem_of_results rules artifact_id {rule} {result} {results = r ∷ results} relevant (Memᴰ.tail m) c f
      a h =
    let (tail, p, keep) =
      step_keeps (contains artifact_id r.affected_artifact_ids) (find_rule r.rule_id rules) r
        (results_affecting_artifact rules artifact_id results) relevant h in
    keep (rule, result) (mem_of_results rules artifact_id tail m c f a p)

-- Every result that bears on the artifact is among those that the router weighs.
pub Bears-mem :
    {rules : List RuleDefinition} {artifact_id : ArtifactId} {results : List RuleResult}
    {rule : RuleDefinition} {result : RuleResult} {relevant : List Relevant}
    → Bears rules artifact_id results rule result
    → results_affecting_artifact rules artifact_id results ≡ ok relevant
    → Memᴰ (rule, result) relevant
Bears-mem {rules} {artifact_id} {relevant = relevant} b h =
    mem_of_results rules artifact_id relevant b.listed b.affects b.known b.applies h

-- What a step of the loop adds, or takes over from the rest.
step_inv :
    (b : Bool) (o : Option RuleDefinition) (result : RuleResult) (rest : Result (List Relevant))
    (relevant : List Relevant) (pair : Relevant)
    → (if b then relevant_step o result rest else rest) ≡ ok relevant
    → Memᴰ pair relevant
    → ((tail : List Relevant) × (rest ≡ ok tail) × Memᴰ pair tail)
      ⊎ ((b ≡ true)
          × (o ≡ some pair.0)
          × (pair.1 ≡ result)
          × ((pair.0.applicability == applicable) ≡ true))
step_inv false o result rest relevant pair h m = inl (relevant, h, m)
step_inv true none result rest relevant pair h m = absurd (cc)
step_inv true (some rule) result (err e) relevant pair h m = absurd (cc)
step_inv true (some rule) result (ok tail) relevant pair h m =
    added (rule.applicability == applicable) refl (subst (Memᴰ pair) (sym (ok_inj h)) m)
  where
    added :
        (b : Bool)
        → (rule.applicability == applicable) ≡ b
        → Memᴰ pair (if b then (rule, result) ∷ tail else tail)
        → ((t : List Relevant) × (ok tail ≡ ok t) × Memᴰ pair t)
          ⊎ ((true ≡ true)
              × (some rule ≡ some pair.0)
              × (pair.1 ≡ result)
              × ((pair.0.applicability == applicable) ≡ true))
    added false e k = inl (tail, refl, k)
    added true e (Memᴰ.tail k) = inl (tail, refl, k)
    added true e (Memᴰ.head same) = inr (
      refl,
      ap (λ (p : Relevant). some p.0) (sym same),
      ap (λ (p : Relevant). p.1) same,
      ap (λ (p : Relevant). p.0.applicability == applicable) same ∙ e,
    )

-- Every pair that is kept bears on the artifact.
pub mem-Bears :
    (rules : List RuleDefinition) (artifact_id : ArtifactId) (results : List RuleResult)
    (relevant : List Relevant) (pair : Relevant)
    → results_affecting_artifact rules artifact_id results ≡ ok relevant
    → Memᴰ pair relevant
    → Bears rules artifact_id results pair.0 pair.1
unfolding results_affecting_artifact
mem-Bears rules artifact_id [] relevant pair h m = elim (subst (Memᴰ pair) (sym (ok_inj h)) m) [ ]
mem-Bears rules artifact_id (result ∷ results) relevant pair h m =
    elim (step_inv (contains artifact_id result.affected_artifact_ids)
      (find_rule result.rule_id rules) result _ relevant pair h m) [
        | inl (tail, rest, k) ↦
            let b = mem-Bears rules artifact_id results tail pair rest k in
            record {
              listed = Memᴰ.tail b.listed;
              affects = b.affects;
              known = b.known;
              applies = b.applies;
            }
        | inr (affects, known, same, applies) ↦ record {
          listed = Memᴰ.head same;
          affects =
              subst (λ (r : RuleResult). contains artifact_id r.affected_artifact_ids ≡ true)
                (sym same) affects;
          known =
              subst (λ (r : RuleResult). find_rule r.rule_id rules ≡ some pair.0) (sym same) known;
          applies = applies;
        }
      ]
