-- ===== src/Prelude/Perms.antt =====
-- Tests and selections over a list do not depend on its order.
use mathlib.Core.Path.{◌≡◌, refl, ap, ◌∙◌}
use mathlib.Core.Bool.{Bool, true, false}
use mathlib.Core.List.{List, ◌∷◌, Permᴰ}
use mathlib.Core.List.Permᴰ
use native.Mathlib.Omega.{arith}
use lookfile.Prelude.Tests.{if◌then◌else◌}
use lookfile.Prelude.Lists.{any, all, select, is_empty}

module _ {ℓ} {A : Type ℓ} where
  pub cons_if :
      (b c : Bool) {x y : A} {xs ys : List A}
      → b ≡ c
      → x ≡ y
      → Permᴰ xs ys
      → Permᴰ (if b then x ∷ xs else xs) (if c then y ∷ ys else ys)
  cons_if true true q e p = Permᴰ.cons e p
  cons_if false false q e p = p
  cons_if true false q e p = absurd (cc)
  cons_if false true q e p = absurd (cc)

  pub swap_same :
      (b c : Bool) (x y : A) (xs : List A)
      → Permᴰ
          (if b then x ∷ (if c then y ∷ xs else xs) else (if c then y ∷ xs else xs))
          (if c then y ∷ (if b then x ∷ xs else xs) else (if b then x ∷ xs else xs))
  swap_same true true x y xs = Permᴰ.swap refl refl
  swap_same true false x y xs = Permᴰ.refl _
  swap_same false c x y xs = Permᴰ.refl _

  swap_if :
      (b c b' c' : Bool) {x y x' y' : A} (xs : List A)
      → b ≡ c'
      → c ≡ b'
      → x ≡ y'
      → y ≡ x'
      → Permᴰ
          (if b then x ∷ (if c then y ∷ xs else xs) else (if c then y ∷ xs else xs))
          (if b' then x' ∷ (if c' then y' ∷ xs else xs) else (if c' then y' ∷ xs else xs))
  swap_if b c b' c' {x' = x'} {y' = y'} xs q r e f = rw (q, r, e, f) (swap_same c' b' y' x' xs)

  pub is_empty-perm : {xs ys : List A} → Permᴰ xs ys → is_empty xs ≡ is_empty ys
  is_empty-perm Permᴰ.nil = refl
  is_empty-perm (Permᴰ.cons e p) = refl
  is_empty-perm (Permᴰ.swap e f) = refl
  is_empty-perm (Permᴰ.trans p q) = is_empty-perm p ∙ is_empty-perm q

module _ {ℓ} {A : Type ℓ} (p : A → Bool) where
  pub any-perm : {xs ys : List A} → Permᴰ xs ys → any p xs ≡ any p ys
  any-perm Permᴰ.nil = refl
  any-perm (Permᴰ.cons e q) = ground (arith, ap p e, any-perm q)
  any-perm (Permᴰ.swap e f) = ground (arith, ap p e, ap p f)
  any-perm (Permᴰ.trans q r) = any-perm q ∙ any-perm r

  pub all-perm : {xs ys : List A} → Permᴰ xs ys → all p xs ≡ all p ys
  all-perm Permᴰ.nil = refl
  all-perm (Permᴰ.cons e q) = ground (arith, ap p e, all-perm q)
  all-perm (Permᴰ.swap e f) = ground (arith, ap p e, ap p f)
  all-perm (Permᴰ.trans q r) = all-perm q ∙ all-perm r

  pub select-perm : {xs ys : List A} → Permᴰ xs ys → Permᴰ (select p xs) (select p ys)
  select-perm Permᴰ.nil = Permᴰ.nil
  select-perm (Permᴰ.cons e q) = cons_if _ _ (ap p e) e (select-perm q)
  select-perm (Permᴰ.swap e f) = swap_if _ _ _ _ _ (ap p e) (ap p f) e f
  select-perm (Permᴰ.trans q r) = Permᴰ.trans (select-perm q) (select-perm r)
