-- ===== src/Repair/Scales.antt =====
-- The floats of `GenerationParameters` in src/specstyle/generation/requests.py lie in [0, 1]. Such a
-- float is the natural number of its units of 2^-1074, and the two operations on it round to the
-- nearest double, ties to even, as Python does. A negative zero is the same scale as zero.
pub mod Rounding
pub mod Steps
use lookfile.Prelude.{
  ℕ, zero, suc, ◌+◌, ◌-◌, ◌*◌, ◌/◌, ◌%◌, ◌^◌, Bool, ◌&&◌, ◌||◌, ltb, leb, ◌==◌, nat_eq,
  if◌then◌else◌,
}

abbrev pub Scale : Type 0
Scale = ℕ

-- `1.0`
unfoldable pub one : Scale
one = 2 ^ 1074

-- `_STEP = 0.10`: the double nearest to a tenth
unfoldable pub tenth : Scale
tenth = 7205759403792794 * 2 ^ 1018

-- The number of halvings after which a number has at most 53 bits.
unfoldable pub excess : ℕ → ℕ → ℕ
excess zero n = 0
excess (suc fuel) n = let rest = excess fuel (n / 2) in if ltb n (2 ^ 53) then 0 else suc rest

-- The rounding of a number of units to `2 ^ k` of them.
unfoldable pub round_to : ℕ → ℕ → ℕ
round_to k n =
    let quotient = n / 2 ^ k in
    let twice = 2 * (n % 2 ^ k) in
    if ltb (2 ^ k) twice || (twice == 2 ^ k && quotient % 2 == 1)
    then (quotient + 1) * 2 ^ k
    else quotient * 2 ^ k

-- Two scales add up to less than `2 ^ (53 + 1100)` units.
unfoldable pub round : ℕ → Scale
round n = round_to (excess 1100 n) n

-- `min(1.0, a + _STEP)`
unfoldable pub step_up : Scale → Scale
step_up a = let sum = round (a + tenth) in if ltb sum one then sum else one

-- `max(0.0, a - _STEP)`
unfoldable pub step_down : Scale → Scale
step_down a = if ltb a tenth then 0 else round (a - tenth)
