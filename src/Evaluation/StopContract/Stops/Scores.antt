-- ===== src/Evaluation/StopContract/Stops/Scores.antt =====
-- The candidate of the best-of-k arm.
use lookfile.Prelude.{
  ℕ, ◌≡◌, inl, inr, refl, sym, ap, ◌∙◌, subst, arith, Bool, true, false, Option, none, some, List,
  [], ◌∷◌, nat_eq, list_eq, option_eq, ok, refuse_if-eq-ok, true_of_not, Memᴰ, ==→eq, Bool-cases,
}
use lookfile.Domain.Float.{Float, finite}
use lookfile.Domain.Identifiers.{Sha256}
use lookfile.Evaluation.StopContract.{
  best_of_k, Attempt, StopEvent, float_lt, same_score, greater, best_score, first_scored,
  artifact_of, generated_attempts, check_candidate, validate_stopping,
}
use lookfile.Evaluation.StopContract.Stops.{accepted}

-- `a < b` on scores that are there
abbrev pub score_lt : Option Float → Option Float → Bool
score_lt (some a) (some b) = float_lt a b
score_lt _ _ = false

-- A finite score, as every attempt of this arm that was generated has
abbrev pub IsScored : Option Float → Type 0
IsScored o = (sign : Bool) × (units : ℕ) × (o ≡ some (finite sign units))

greater_first :
    (s t : Bool) (m n : ℕ)
    → score_lt (greater (some (finite s m)) (some (finite t n))) (some (finite s m)) ≡ false
greater_first s t m n = ground arith

greater_later :
    (s t u : Bool) (m n k : ℕ)
    → float_lt (finite t n) (finite u k) ≡ false
    → score_lt (greater (some (finite s m)) (some (finite t n))) (some (finite u k)) ≡ false
greater_later s t u m n k h = ground arith

greater-IsScored :
    (s t : Bool) (m n : ℕ) → IsScored (greater (some (finite s m)) (some (finite t n)))
greater-IsScored s t m n = elim (Bool-cases (float_lt (finite s m) (finite t n))) [
  | inl e ↦ (t, n, rw e refl)
  | inr e ↦ (s, m, rw e refl)
]

same_below :
    (s t u : Bool) (m n k : ℕ)
    → same_score (some (finite s m)) (some (finite t n)) ≡ true
    → float_lt (finite t n) (finite u k) ≡ false
    → float_lt (finite s m) (finite u k) ≡ false
same_below s t u m n k e h = ground arith

abbrev pub AllScored : List Attempt → Type 0
AllScored attempts = (a : Attempt) → Memᴰ a attempts → IsScored a.utility_score

best_score-IsScored :
    (a : Attempt) (as' : List Attempt) → AllScored (a ∷ as') → IsScored (best_score (a ∷ as'))
best_score-IsScored a [] h = let (s, m, e) = h a (Memᴰ.head refl) in (s, m, rw e refl)
best_score-IsScored a (b ∷ bs) h =
    let (s, m, e) = h a (Memᴰ.head refl) in
    let (t, n, f) = best_score-IsScored b bs (λ c k. h c (Memᴰ.tail k)) in
    subst IsScored
      (sym (ap (λ x. greater x (best_score (b ∷ bs))) e ∙ ap (greater (some (finite s m))) f))
      (greater-IsScored s t m n)

first_of : (x y : Option Float) → IsScored x → IsScored y → score_lt (greater x y) x ≡ false
first_of x y (s, m, e) (t, n, f) = rw (e, f) (greater_first s t m n)

alone : (x : Option Float) → IsScored x → score_lt (greater x none) x ≡ false
alone x (s, m, e) = rw e (not_below s m)
  where
    not_below : (s : Bool) (m : ℕ) → float_lt (finite s m) (finite s m) ≡ false
    not_below s m = ground arith

later_of :
    (x y z : Option Float)
    → IsScored x
    → IsScored y
    → IsScored z
    → score_lt y z ≡ false
    → score_lt (greater x y) z ≡ false
later_of x y z (s, m, e) (t, n, f) (u, k, g) h =
    rw (e, f, g) (greater_later s t u m n k (rw (f, g) at h))

below_of :
    (x best z : Option Float)
    → IsScored x
    → IsScored best
    → IsScored z
    → same_score x best ≡ true
    → score_lt best z ≡ false
    → score_lt x z ≡ false
below_of x best z (s, m, e) (t, n, f) (u, k, g) same h =
    rw (e, g) (same_below s t u m n k (rw (e, f) at same) (rw (f, g) at h))

best_score-upper :
    (as' : List Attempt) (b : Attempt)
    → AllScored as'
    → Memᴰ b as'
    → score_lt (best_score as') b.utility_score ≡ false
best_score-upper [] b h k = elim k [ ]
best_score-upper (a ∷ []) b h (Memᴰ.head e) =
    subst (λ (c : Attempt). score_lt (best_score (a ∷ [])) c.utility_score ≡ false) (sym e)
      (alone a.utility_score (h a (Memᴰ.head refl)))
best_score-upper (a ∷ []) b h (Memᴰ.tail k) = elim k [ ]
best_score-upper (a ∷ c ∷ cs) b h (Memᴰ.head e) =
    subst (λ (x : Attempt). score_lt (best_score (a ∷ c ∷ cs)) x.utility_score ≡ false) (sym e)
      (first_of a.utility_score (best_score (c ∷ cs)) (h a (Memᴰ.head refl))
        (best_score-IsScored c cs (λ x k. h x (Memᴰ.tail k))))
best_score-upper (a ∷ c ∷ cs) b h (Memᴰ.tail k) =
    later_of a.utility_score (best_score (c ∷ cs)) b.utility_score (h a (Memᴰ.head refl))
      (best_score-IsScored c cs (λ x k. h x (Memᴰ.tail k))) (h b (Memᴰ.tail k))
      (best_score-upper (c ∷ cs) b (λ x k. h x (Memᴰ.tail k)) k)

-- The first attempt with a score has it, and is one of the list.
first_scored-mem :
    (best : Option Float) (as' : List Attempt) (a : Attempt)
    → first_scored best as' ≡ some a
    → Memᴰ a as' × (same_score a.utility_score best ≡ true)
first_scored-mem best [] a h = cc
first_scored-mem best (b ∷ bs) a h = elim (Bool-cases (same_score b.utility_score best)) [
  | inl e ↦
      let same : b ≡ a = some_inj (rw e at h) in
      (Memᴰ.head (sym same), subst (λ (x : Attempt). same_score x.utility_score best ≡ true) same e)
  | inr e ↦ let (k, s) = first_scored-mem best bs a (rw e at h) in (Memᴰ.tail k, s)
]
  where
    some_inj : {x y : Attempt} → some x ≡ some y → x ≡ y
    some_inj h = cc

chosen_candidate :
    (attempts : List Attempt) (c : Sha256)
    → check_candidate best_of_k attempts (some c) ≡ ok tt
    → artifact_of
        (first_scored (best_score (generated_attempts attempts)) (generated_attempts attempts))
      ≡ some c
chosen_candidate attempts c h = sym (==→eq (some c) _ (true_of_not _ (refuse_if-eq-ok _ _ h)))

-- In the best-of-k arm the candidate of an accepted ledger is a generated attempt, and no generated
-- attempt has a greater score, when all of them have finite scores.
pub validate_stopping-best :
    (attempts : List Attempt) (candidate : Sha256) (maximum : ℕ) (event : StopEvent)
    → AllScored (generated_attempts attempts)
    → validate_stopping best_of_k attempts (some candidate) maximum event ≡ ok tt
    → (a : Attempt) × Memᴰ a (generated_attempts attempts)
      × (a.artifact_sha256 ≡ some candidate)
      × ((b : Attempt)
          → Memᴰ b (generated_attempts attempts)
          → score_lt a.utility_score b.utility_score ≡ false)
validate_stopping-best attempts candidate maximum event scored h = from_first _ refl (
    chosen_candidate attempts candidate
      (accepted best_of_k attempts (some candidate) maximum event h).1)
  where
    gs : List Attempt
    gs = generated_attempts attempts

    best_scored :
        (as' : List Attempt)
        → AllScored as'
        → {a : Attempt} → Memᴰ a as'
        → IsScored (best_score as')
    best_scored [] h k = elim k [ ]
    best_scored (a ∷ as') h k = best_score-IsScored a as' h

    from_first :
        (o : Option Attempt)
        → first_scored (best_score gs) gs ≡ o
        → artifact_of o ≡ some candidate
        → (a : Attempt) × Memᴰ a gs
          × (a.artifact_sha256 ≡ some candidate)
          × ((b : Attempt) → Memᴰ b gs → score_lt a.utility_score b.utility_score ≡ false)
    from_first none e c = cc
    from_first (some a) e c =
        let (k, same) = first_scored-mem (best_score gs) gs a e in
        (
          a,
          k,
          c,
          λ b l.
              below_of a.utility_score (best_score gs) b.utility_score (scored a k)
                (best_scored gs scored k) (scored b l) same (best_score-upper gs b scored l),
        )
