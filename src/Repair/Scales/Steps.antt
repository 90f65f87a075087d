-- ===== src/Repair/Scales/Steps.antt =====
-- How far a step of a scale goes.
use native.Mathlib.Nat.{div-mul-le_self, mul-le-mul_right}
use lookfile.Prelude.{
  ℕ, ◌+◌, ◌-◌, ◌*◌, ◌/◌, ◌^◌, ◌≤◌, ◌<◌, ◌≡◌, ◌⊎◌, inl, inr, refl, true, false, arith, ltb, ltb→lt,
  leb→le, Bool-cases,
}
use lookfile.Repair.Scales.{Scale, one, tenth, round, step_up, step_down}
use lookfile.Repair.Scales.Rounding.{round-near}

-- A scale that a step raised: by a tenth, within a thousandth of the range, or to the end of it
pub record IsRaised (before after : Scale) : Type 0 where
  pub in_range : after ≤ one
  pub least : (after ≡ one) ⊎ (99 * one + 1000 * before ≤ 1000 * after)
  pub most : 1000 * after ≤ 1000 * before + 101 * one

-- A scale that a step lowered
pub record IsLowered (before after : Scale) : Type 0 where
  pub least : (after ≡ 0) ⊎ (99 * one + 1000 * after ≤ 1000 * before)
  pub most : 1000 * before ≤ 1000 * after + 101 * one

-- The power of two that a rounding uses is small against the number.
power_small : (n k : ℕ) → (k ≡ 0) ⊎ (2 ^ 52 ≤ n / 2 ^ k) → 2 ^ 52 * 2 ^ k ≤ n + 2 ^ 52
power_small n k (inl e) = rw e (omega arith)
power_small n k (inr h) = omega (arith, mul-le-mul_right (2 ^ k) h, div-mul-le_self n (2 ^ k))

close :
    (n p x y : ℕ)
    → 2 ^ 52 * p ≤ n + 2 ^ 52
    → 2 * x ≤ 2 * y + p
    → 100000 * x ≤ 100000 * y + n + 100000
close n p x y small h = omega (arith, small, h)

-- A rounding errs by less than a hundred-thousandth of the number, or by less than two units.
round-close :
    (n : ℕ)
    → n < 2 ^ 1100 * 2 ^ 53
    → (100000 * n ≤ 100000 * round n + n + 100000) × (100000 * round n ≤ 100000 * n + n + 100000)
round-close n h =
    let (k, m, _, _, small, above, below) = round-near n h in
    let p = power_small n k small in
    (close n (2 ^ k) n (round n) p above, close n (2 ^ k) (round n) n p below)

-- The two numbers of the steps: a tenth of the range, nearly, and no small range
record IsTenth (whole part : ℕ) : Type 0 where
  pub at_least : whole ≤ 10 * part
  pub at_most : 10000 * part < 1001 * whole
  pub large : 1000000 < whole

tenth-IsTenth : IsTenth one tenth
unfolding one tenth
tenth-IsTenth = record {
  at_least = leb→le _ _ refl;
  at_most = ltb→lt _ _ refl;
  large = ltb→lt _ _ refl;
}

representable : (n : ℕ) → n ≤ 2 * one → n < 2 ^ 1100 * 2 ^ 53
unfolding one
representable n h = below n (2 * 2 ^ 1074) (2 ^ 1100 * 2 ^ 53) h (ltb→lt _ _ refl)
  where
    below : (n a b : ℕ) → n ≤ a → a < b → n < b
    below n a b h k = omega arith

module _ (w t : ℕ) (fits : IsTenth w t) where
  sum_small : (a : ℕ) → a ≤ w → a + t ≤ 2 * w
  sum_small a h = omega (arith, h, fits.at_most)

  difference_small : (a : ℕ) → a ≤ w → a - t ≤ 2 * w
  difference_small a h = omega (arith, h)

  raised_least :
      (a s : ℕ)
      → a ≤ w
      → 100000 * (a + t) ≤ 100000 * s + (a + t) + 100000
      → 99 * w + 1000 * a ≤ 1000 * s
  raised_least a s h k = omega (arith, h, k, fits.at_least, fits.at_most, fits.large)

  raised_most :
      (a b s : ℕ)
      → a ≤ w
      → b ≤ s
      → 100000 * s ≤ 100000 * (a + t) + (a + t) + 100000
      → 1000 * b ≤ 1000 * a + 101 * w
  raised_most a b s h l k = omega (arith, h, l, k, fits.at_most, fits.large)

  lowered_least :
      (a s : ℕ)
      → a ≤ w
      → t ≤ a
      → 100000 * s ≤ 100000 * (a - t) + (a - t) + 100000
      → 99 * w + 1000 * s ≤ 1000 * a
  lowered_least a s h l k = omega (arith, h, l, k, fits.at_least, fits.at_most, fits.large)

  lowered_most :
      (a s : ℕ)
      → a ≤ w
      → t ≤ a
      → 100000 * (a - t) ≤ 100000 * s + (a - t) + 100000
      → 1000 * a ≤ 1000 * s + 101 * w
  lowered_most a s h l k = omega (arith, h, l, k, fits.at_most, fits.large)

  bottom : (a : ℕ) → a < t → 1000 * a ≤ 1000 * 0 + 101 * w
  bottom a h = omega (arith, h, fits.at_most)

not_below : (a b : ℕ) → ltb a b ≡ false → b ≤ a
not_below a b h = ground arith

below : (a b : ℕ) → ltb a b ≡ true → a ≤ b
below a b h = ground arith

same : (b : ℕ) → b ≤ b
same b = omega arith

pub step_up-IsRaised : (a : Scale) → a ≤ one → IsRaised a (step_up a)
unfolding step_up
step_up-IsRaised a h =
    let (above, under) =
      round-close (a + tenth) (representable (a + tenth) (sum_small one tenth tenth-IsTenth a h)) in
    elim (Bool-cases (ltb (round (a + tenth)) one)) [
      | inl e ↦ rw e (record {
        in_range = below (round (a + tenth)) one e;
        least = inr (raised_least one tenth tenth-IsTenth a (round (a + tenth)) h above);
        most =
            raised_most one tenth tenth-IsTenth a (round (a + tenth)) (round (a + tenth)) h
              (same (round (a + tenth))) under;
      })
      | inr e ↦ rw e (record {
        in_range = same one;
        least = inl refl;
        most =
            raised_most one tenth tenth-IsTenth a one (round (a + tenth)) h
              (not_below (round (a + tenth)) one e) under;
      })
    ]

pub step_down-IsLowered : (a : Scale) → a ≤ one → IsLowered a (step_down a)
unfolding step_down
step_down-IsLowered a h =
    let (above, under) =
      round-close (a - tenth)
        (representable (a - tenth) (difference_small one tenth tenth-IsTenth a h)) in
    elim (Bool-cases (ltb a tenth)) [
      | inl e ↦
          rw e (record {
            least = inl refl;
            most = bottom one tenth tenth-IsTenth a (ltb→lt a tenth e);
          })
      | inr e ↦ rw e (record {
        least = inr (
            lowered_least one tenth tenth-IsTenth a (round (a - tenth)) h (not_below a tenth e)
              under);
        most =
            lowered_most one tenth tenth-IsTenth a (round (a - tenth)) h (not_below a tenth e)
              above;
      })
    ]
