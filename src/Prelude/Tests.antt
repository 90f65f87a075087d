-- ===== src/Prelude/Tests.antt =====
-- Boolean tests on the native numbers, and the conditional.
use Prim.Native.Nat.{ℕ, ◌≤◌, ◌<◌, compare, Ordering}
use mathlib.Core.Path.{◌≡◌, refl}
use mathlib.Core.Logic.{◌⊎◌, inl, inr}
use mathlib.Core.Bool.{Bool, true, false, not, ◌&&◌, ◌||◌}
use mathlib.Core.Option.{Option, none, some}
use native.Mathlib.Omega.{arith}

-- These compute to `compare`, which `ground` and `grind` read with no lemma listed.
abbrev pub ltb : ℕ → ℕ → Bool
ltb a b = elim (compare a b) [ Ordering.lt ↦ true | _ ↦ false ]

abbrev pub leb : ℕ → ℕ → Bool
leb a b = elim (compare a b) [ Ordering.gt ↦ false | _ ↦ true ]

infix 1 if◌then◌else◌
abbrev pub if◌then◌else◌ {ℓ} : {A : Type ℓ} → Bool → A → A → A
if true then x else y = x
if false then x else y = y

pub leb→le : (a b : ℕ) → leb a b ≡ true → a ≤ b
leb→le a b h = ground arith

pub ltb→lt : (a b : ℕ) → ltb a b ≡ true → a < b
ltb→lt a b h = ground arith

-- To split on a computed value and keep the equation.
pub Bool-cases : (b : Bool) → (b ≡ true) ⊎ (b ≡ false)
Bool-cases true = inl refl
Bool-cases false = inr refl

pub Option-cases {ℓ} : {A : Type ℓ} (o : Option A) → (o ≡ none) ⊎ ((a : A) × (o ≡ some a))
Option-cases none = inl refl
Option-cases (some a) = inr (a, refl)

pub le→leb : (a b : ℕ) → a ≤ b → leb a b ≡ true
le→leb a b h = ground arith

pub two_match : (a b : Bool) → (not a || not b) ≡ false → (a ≡ true) × (b ≡ true)
two_match a b h = ground arith

pub and_inv : (a b : Bool) → (a && b) ≡ true → (a ≡ true) × (b ≡ true)
and_inv a b h = ground arith

pub true_of_not : (b : Bool) → not b ≡ false → b ≡ true
true_of_not true h = refl
true_of_not false h = cc

-- A later entry of a Python dict replaces an earlier one.
abbrev pub or_else {ℓ} : {A : Type ℓ} → Option A → Option A → Option A
or_else (some a) b = some a
or_else none b = b

module _ {ℓ} {A : Type ℓ} where
  pub or_else_inv : (o p : Option A) {a : A} → or_else o p ≡ some a → (o ≡ some a) ⊎ (p ≡ some a)
  or_else_inv (some b) p h = inl h
  or_else_inv none p h = inr h

  pub if_some_inv :
      (b : Bool) (x : A) {a : A} → (if b then some x else none) ≡ some a → (b ≡ true) × (x ≡ a)
  if_some_inv true x h = (refl, some_inj h)
    where
      some_inj : {a : A} → some x ≡ some a → x ≡ a
      some_inj p = cc
  if_some_inv false x h = absurd (cc)

abbrev pub option_map {ℓ κ} : {A : Type ℓ} {B : Type κ} → (A → B) → Option A → Option B
option_map f none = none
option_map f (some a) = some (f a)
