-- ===== src/Repair/Scales/Rounding.antt =====
-- The rounding of the scales is that of a binary float with a significand of 53 bits.
use native.Mathlib.Nat.{
  pow-succ', div-le_self, div-one, div-div-eq-div-mul, div-add-mod', mod-lt, one-le-pow,
}
use lookfile.Prelude.{
  ℕ, zero, suc, ◌+◌, ◌*◌, ◌/◌, ◌%◌, ◌^◌, ◌≤◌, ◌<◌, ◌≡◌, ◌⊎◌, inl, inr, refl, sym, ap, ◌∙◌, Bool,
  true, false, ◌&&◌, ◌||◌, arith, ltb, ltb→lt, ◌==◌, nat_eq, if◌then◌else◌,
}
use lookfile.Repair.Scales.{excess, round_to, round}

halved : (n e : ℕ) → n / 2 ^ suc e ≡ n / 2 / 2 ^ e
halved n e = ap (λ d. n / d) (pow-succ' 2 e) ∙ sym (div-div-eq-div-mul n 2 (2 ^ e))

half_below : (n p : ℕ) → n < 2 * p → n / 2 < p
half_below n p h = omega arith

-- Enough halvings leave at most 53 bits.
excess-enough : (fuel n : ℕ) → n < 2 ^ fuel * 2 ^ 53 → n / 2 ^ excess fuel n < 2 ^ 53
unfolding excess
excess-enough zero n h = omega (arith, div-le_self n (2 ^ 0))
excess-enough (suc fuel) n h = split (ltb n (2 ^ 53)) refl (
    excess-enough fuel (n / 2) (half_below n (2 ^ fuel * 2 ^ 53) (omega (arith, pow-succ' 2 fuel))))
  where
    split :
        (b : Bool)
        → ltb n (2 ^ 53) ≡ b
        → n / 2 / 2 ^ excess fuel (n / 2) < 2 ^ 53
        → n / 2 ^ (if b then 0 else suc (excess fuel (n / 2))) < 2 ^ 53
    split true e rest = omega (arith, div-le_self n (2 ^ 0), ltb→lt n (2 ^ 53) e)
    split false e rest = rw (halved n (excess fuel (n / 2))) rest

at_least_half : (n : ℕ) → ltb n (2 ^ 53) ≡ false → 2 ^ 52 ≤ n / 2
at_least_half n h = ground arith

-- No more halvings than the significand needs.
excess-tight : (fuel n : ℕ) → (excess fuel n ≡ 0) ⊎ (2 ^ 52 ≤ n / 2 ^ excess fuel n)
unfolding excess
excess-tight zero n = inl refl
excess-tight (suc fuel) n = split (ltb n (2 ^ 53)) refl (excess-tight fuel (n / 2))
  where
    split :
        (b : Bool)
        → ltb n (2 ^ 53) ≡ b
        → (excess fuel (n / 2) ≡ 0) ⊎ (2 ^ 52 ≤ n / 2 / 2 ^ excess fuel (n / 2))
        → ((if b then 0 else suc (excess fuel (n / 2))) ≡ 0)
          ⊎ (2 ^ 52 ≤ n / 2 ^ (if b then 0 else suc (excess fuel (n / 2))))
    split true e rest = inl refl
    split false e (inl none_more) =
        inr (rw (halved n (excess fuel (n / 2)), none_more, div-one (n / 2)) (at_least_half n e))
    split false e (inr enough) = inr (rw (halved n (excess fuel (n / 2))) enough)

-- A rounding to `2 ^ k` is a multiple of it, at a distance of at most one half of it.
round_to-near :
    (k n : ℕ)
    → (m : ℕ) × (round_to k n ≡ m * 2 ^ k)
      × (m ≤ n / 2 ^ k + 1)
      × (2 * n ≤ 2 * round_to k n + 2 ^ k)
      × (2 * round_to k n ≤ 2 * n + 2 ^ k)
unfolding round_to
round_to-near k n =
    split (ltb (2 ^ k) (2 * (n % 2 ^ k)) || (2 * (n % 2 ^ k) == 2 ^ k && n / 2 ^ k % 2 == 1)) refl
      (div-add-mod' n (2 ^ k)) (mod-lt n (one-le-pow k 2 (omega arith)))
  where
    split :
        (b : Bool)
        → (ltb (2 ^ k) (2 * (n % 2 ^ k)) || (2 * (n % 2 ^ k) == 2 ^ k && n / 2 ^ k % 2 == 1)) ≡ b
        → n / 2 ^ k * 2 ^ k + n % 2 ^ k ≡ n
        → n % 2 ^ k < 2 ^ k
        → (m : ℕ) × ((if b then (n / 2 ^ k + 1) * 2 ^ k else n / 2 ^ k * 2 ^ k) ≡ m * 2 ^ k)
          × (m ≤ n / 2 ^ k + 1)
          × (2 * n ≤ 2 * (if b then (n / 2 ^ k + 1) * 2 ^ k else n / 2 ^ k * 2 ^ k) + 2 ^ k)
          × (2 * (if b then (n / 2 ^ k + 1) * 2 ^ k else n / 2 ^ k * 2 ^ k) ≤ 2 * n + 2 ^ k)
    split true e d r = (n / 2 ^ k + 1, refl, omega arith, grind arith, grind arith)
    split false e d r = (n / 2 ^ k, refl, omega arith, grind arith, grind arith)

fine : (m q p : ℕ) → m ≤ q + 1 → q < p → m ≤ p
fine m q p h k = omega arith

-- Rounding a number of units below `2 ^ 1153`, which the sum of two scales is, gives a multiple of a
-- power of two, by a significand of at most `2 ^ 53`, at a distance of at most one half of the power;
-- the power is 1, or the significand before the rounding has all of its 53 bits.
pub round-near :
    (n : ℕ)
    → n < 2 ^ 1100 * 2 ^ 53
    → (k : ℕ) × (m : ℕ) × (round n ≡ m * 2 ^ k)
      × (m ≤ 2 ^ 53)
      × ((k ≡ 0) ⊎ (2 ^ 52 ≤ n / 2 ^ k))
      × (2 * n ≤ 2 * round n + 2 ^ k)
      × (2 * round n ≤ 2 * n + 2 ^ k)
unfolding round
round-near n h =
    let k = excess 1100 n in
    let (m, multiple, top, above, below) = round_to-near k n in
    (
      k,
      m,
      multiple,
      fine m (n / 2 ^ k) (2 ^ 53) top (excess-enough 1100 n h),
      excess-tight 1100 n,
      above,
      below,
    )
