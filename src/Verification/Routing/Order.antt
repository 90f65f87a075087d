-- ===== src/Verification/Routing/Order.antt =====
-- The routing does not depend on the order in which the verifiers reported.
use mathlib.Core.Logic.{∥∥₁_elim}
use mathlib.Core.Path.{subst₂}
use mathlib.Core.List.{Perm}
use mathlib.Core.List.Permᴰ
use text.Mathlib.TextEquality.{IsScalar-prop}
use lookfile.Prelude.{
  ◌≡◌, refl, ap, ◌∙◌, subst, Bool, true, false, not, Option, none, some, List, ◌∷◌, Permᴰ, Result,
  ok, err, ◌>>=◌, ◌>>◌, refuse_if, if◌then◌else◌, select, contains, is_empty, any-perm, all-perm,
  select-perm, is_empty-perm, cons_if, swap_same, list_eq, nat_eq, option_eq, ◌==◌,
}
use lookfile.Domain.Enums.{RepairStopReason, applicable, static_applicability_eq}
use lookfile.Domain.Identifiers.{ArtifactId}
use lookfile.Verification.RuleModels.{RuleDefinition, RuleResult, ArtifactDecision}
use lookfile.Verification.Reports.{VerificationReport, find_rule, artifact_ids}
use lookfile.Verification.Routing.{
  Relevant, relevant_step, results_affecting_artifact, validate_stop_reason, route, finish,
  decide_artifact, has_manual_policy, is_required,
}

-- Two outcomes of the comprehension that hold the same pairs.
abbrev SamePairs : Result (List Relevant) → Result (List Relevant) → Type 0
SamePairs (ok a) (ok b) = Permᴰ a b
SamePairs (err e) (err f) = e ≡ f
SamePairs _ _ = ⊥

SamePairs-refl : (r : Result (List Relevant)) → SamePairs r r
SamePairs-refl (ok a) = Permᴰ.refl a
SamePairs-refl (err e) = refl

SamePairs-trans : (r s t : Result (List Relevant)) → SamePairs r s → SamePairs s t → SamePairs r t
SamePairs-trans (ok a) (ok b) (ok c) p q = Permᴰ.trans p q
SamePairs-trans (err e) (err f) (err g) p q = p ∙ q
SamePairs-trans (ok a) (err f) t p q = absurd p
SamePairs-trans (err e) (ok b) t p q = absurd p
SamePairs-trans (ok a) (ok b) (err g) p q = absurd q
SamePairs-trans (err e) (err f) (ok c) p q = absurd q

SamePairs-step :
    (b : Bool) (o : Option RuleDefinition) (result : RuleResult) (s t : Result (List Relevant))
    → SamePairs s t
    → SamePairs
        (if b then relevant_step o result s else s)
        (if b then relevant_step o result t else t)
SamePairs-step false o result s t p = p
SamePairs-step true none result s t p = refl
SamePairs-step true (some rule) result (ok a) (ok b) p =
    cons_if (rule.applicability == applicable) (rule.applicability == applicable) refl refl p
SamePairs-step true (some rule) result (err e) (err f) p = p
SamePairs-step true (some rule) result (ok a) (err f) p = absurd p
SamePairs-step true (some rule) result (err e) (ok b) p = absurd p

-- Two rounds of the loop commute.
SamePairs-swap :
    (b c : Bool) (o p : Option RuleDefinition) (r s : RuleResult) (t : Result (List Relevant))
    → SamePairs
        (if b
          then relevant_step o r (if c then relevant_step p s t else t)
          else (if c then relevant_step p s t else t))
        (if c
          then relevant_step p s (if b then relevant_step o r t else t)
          else (if b then relevant_step o r t else t))
SamePairs-swap false c o p r s t = SamePairs-refl _
SamePairs-swap true false o p r s t = SamePairs-refl _
SamePairs-swap true true none none r s t = refl
SamePairs-swap true true none (some q) r s (ok a) = refl
SamePairs-swap true true none (some q) r s (err e) = refl
SamePairs-swap true true (some q) none r s (ok a) = refl
SamePairs-swap true true (some q) none r s (err e) = refl
SamePairs-swap true true (some p) (some q) r s (ok a) =
    swap_same (p.applicability == applicable) (q.applicability == applicable) (p, r) (q, s) a
SamePairs-swap true true (some p) (some q) r s (err e) = refl

module _ (rules : List RuleDefinition) (artifact_id : ArtifactId) where
  weighed : List RuleResult → Result (List Relevant)
  weighed = results_affecting_artifact rules artifact_id

  weighed-perm : {xs ys : List RuleResult} → Permᴰ xs ys → SamePairs (weighed xs) (weighed ys)
  unfolding weighed results_affecting_artifact
  weighed-perm Permᴰ.nil = Permᴰ.nil
  weighed-perm (Permᴰ.cons {a = a} {l₁ = xs} {l₂ = ys} e p) =
      subst (λ b. SamePairs (weighed (a ∷ xs)) (weighed (b ∷ ys))) e
        (SamePairs-step (contains artifact_id a.affected_artifact_ids) (find_rule a.rule_id rules) a
          (weighed xs) (weighed ys) (weighed-perm p))
  weighed-perm (Permᴰ.swap {a = a} {b = b} {l = xs} e f) =
      subst₂ (λ c d. SamePairs (weighed (a ∷ b ∷ xs)) (weighed (d ∷ c ∷ xs))) e f
        (SamePairs-swap (contains artifact_id a.affected_artifact_ids)
          (contains artifact_id b.affected_artifact_ids) (find_rule a.rule_id rules)
          (find_rule b.rule_id rules) a b (weighed xs))
  weighed-perm (Permᴰ.trans {l₁ = xs} {l₂ = ys} {l₃ = zs} p q) =
      SamePairs-trans (weighed xs) (weighed ys) (weighed zs) (weighed-perm p) (weighed-perm q)

validate_stop_reason-perm :
    (stop : Option RepairStopReason) {xs ys : List Relevant}
    → Permᴰ xs ys
    → validate_stop_reason stop xs ≡ validate_stop_reason stop ys
unfolding validate_stop_reason
validate_stop_reason-perm stop p = rw (any-perm _ p, any-perm _ p) refl

route-perm :
    (stop : Option RepairStopReason) {xs ys required required' : List Relevant}
    → Permᴰ xs ys
    → Permᴰ required required'
    → route stop xs required ≡ route stop ys required'
unfolding route has_manual_policy
route-perm stop p q = rw (any-perm _ p, any-perm _ q, any-perm _ q, any-perm _ q, all-perm _ q) refl

-- What `decide_artifact` does once it has the pairs.
decide_pairs :
    ArtifactId → Option RepairStopReason → Bool → Result (List Relevant) → Result ArtifactDecision
decide_pairs artifact_id stop override pairs = do
  relevant ← pairs
  refuse_if (is_empty (select is_required relevant)) "artifact has no applicable required gate"
  validate_stop_reason stop (select is_required relevant)
  decision ← route stop relevant (select is_required relevant)
  finish artifact_id stop override decision

decide_pairs-perm :
    (artifact_id : ArtifactId) (stop : Option RepairStopReason) (override : Bool)
    (s t : Result (List Relevant))
    → SamePairs s t
    → decide_pairs artifact_id stop override s ≡ decide_pairs artifact_id stop override t
unfolding decide_pairs
decide_pairs-perm artifact_id stop override (ok a) (ok b) p =
    let q = select-perm is_required p in
    rw (is_empty-perm q, validate_stop_reason-perm stop q, route-perm stop p q) refl
decide_pairs-perm artifact_id stop override (err e) (err f) p = ap err p
decide_pairs-perm artifact_id stop override (ok a) (err f) p = absurd p
decide_pairs-perm artifact_id stop override (err e) (ok b) p = absurd p

decide_perm_listed :
    (report : VerificationReport) (results : List RuleResult) (artifact_id : ArtifactId)
    (stop : Option RepairStopReason) (override : Bool)
    → Permᴰ report.results results
    → decide_artifact report artifact_id stop override
      ≡ decide_artifact (record report { results = results }) artifact_id stop override
unfolding decide_artifact decide_pairs weighed
decide_perm_listed report results artifact_id stop override p =
    ap
      (λ (k : Result ArtifactDecision).
        refuse_if (not (contains artifact_id (artifact_ids report.artifacts)))
          "artifact_id is not in report"
        >> k)
      (decide_pairs-perm artifact_id stop override (weighed report.rules artifact_id report.results)
        (weighed report.rules artifact_id results) (weighed-perm report.rules artifact_id p))

decision_set : IsSet (Result ArtifactDecision)
decision_set = hlevel IsScalar-prop

-- The routing is order-independent: reports with the same results in another order have the same
-- decision, or the same error, for every artifact, stop reason and override flag.
pub decide_artifact-perm :
    (report : VerificationReport) (results : List RuleResult) (artifact_id : ArtifactId)
    (stop : Option RepairStopReason) (override : Bool)
    → Perm report.results results
    → decide_artifact report artifact_id stop override
      ≡ decide_artifact (record report { results = results }) artifact_id stop override
decide_artifact-perm report results artifact_id stop override p =
    ∥∥₁_elim p (decision_set _ _) (decide_perm_listed report results artifact_id stop override)
