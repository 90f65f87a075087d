-- ===== src/Prelude/Lists.antt =====
-- Lists measured by native numbers and searched by `==`, under the library's names.
use Prim.Native.Nat.{ℕ, zero, suc, ◌+◌, ◌≤◌}
use mathlib.Core.Path.{◌≡◌, refl, ap}
use mathlib.Core.Bool.{Bool, true, false, ◌&&◌, ◌||◌}
use mathlib.Core.List.{List, [], ◌∷◌, ◌++◌}
use native.Mathlib.Omega.{arith}
use lookfile.Prelude.Tests.{if◌then◌else◌}
use lookfile.Prelude.Equality.{Eq, ◌==◌}

module _ {ℓ} {A : Type ℓ} where
  abbrev pub length : List A → ℕ
  length [] = 0
  length (x ∷ xs) = suc (length xs)

  pub length-append : (xs ys : List A) → length (xs ++ ys) ≡ length xs + length ys
  length-append [] ys = omega arith
  length-append (x ∷ xs) ys = omega (arith, length-append xs ys)

  -- `xs[:n]` and `xs[n:]`
  abbrev pub take : ℕ → List A → List A
  take zero xs = []
  take (suc n) [] = []
  take (suc n) (x ∷ xs) = x ∷ take n xs

  abbrev pub drop : ℕ → List A → List A
  drop zero xs = xs
  drop (suc n) [] = []
  drop (suc n) (x ∷ xs) = drop n xs

  pub take-append : (n : ℕ) (xs ys : List A) → n ≤ length xs → take n (xs ++ ys) ≡ take n xs
  take-append zero xs ys h = refl
  take-append (suc n) [] ys h = absurd (omega arith)
  take-append (suc n) (x ∷ xs) ys h = ap (λ t. x ∷ t) (take-append n xs ys (omega arith))

  pub drop-append : (n : ℕ) (xs ys : List A) → n ≤ length xs → drop n (xs ++ ys) ≡ drop n xs ++ ys
  drop-append zero xs ys h = refl
  drop-append (suc n) [] ys h = absurd (omega arith)
  drop-append (suc n) (x ∷ xs) ys h = drop-append n xs ys (omega arith)

  pub take-append-drop : (n : ℕ) (xs : List A) → take n xs ++ drop n xs ≡ xs
  take-append-drop zero xs = refl
  take-append-drop (suc n) [] = refl
  take-append-drop (suc n) (x ∷ xs) = ap (λ t. x ∷ t) (take-append-drop n xs)

  -- `any(...)` and `all(...)` over a tuple; the element tests have no effects
  abbrev pub any : (A → Bool) → List A → Bool
  any p [] = false
  any p (x ∷ xs) = p x || any p xs

  abbrev pub all : (A → Bool) → List A → Bool
  all p [] = true
  all p (x ∷ xs) = p x && all p xs

  -- `not xs`
  abbrev pub is_empty : List A → Bool
  is_empty [] = true
  is_empty (x ∷ xs) = false

  -- `[x for x in xs if p(x)]`
  abbrev pub select : (A → Bool) → List A → List A
  select p [] = []
  select p (x ∷ xs) = let rest = select p xs in if p x then x ∷ rest else rest

module _ {A : Type 0} ⦃e : Eq A⦄ where
  -- `x in xs`
  abbrev pub contains : A → List A → Bool
  contains a [] = false
  contains a (x ∷ xs) = a == x || contains a xs

  -- `len(set(xs)) != len(xs)`
  abbrev pub has_duplicates : List A → Bool
  has_duplicates [] = false
  has_duplicates (x ∷ xs) = contains x xs || has_duplicates xs
