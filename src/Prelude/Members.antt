-- ===== src/Prelude/Members.antt =====
-- Membership as a family, and the tests over lists that it decides.
use mathlib.Core.Path.{◌≡◌, refl, ap, ◌∙◌, sym, subst}
use mathlib.Core.Bool.{Bool, true, false, ◌||◌}
use mathlib.Core.List.{List, [], ◌∷◌, Memᴰ}
use native.Mathlib.Omega.{arith}
use lookfile.Prelude.Tests.{if◌then◌else◌}
use lookfile.Prelude.Equality.{Eq, ◌==◌}
use lookfile.Prelude.Lists.{any, all, select, contains}

mem-if {ℓ} :
    {A : Type ℓ} (b : Bool) (y : A) {x : A} {xs : List A}
    → Memᴰ x xs
    → Memᴰ x (if b then y ∷ xs else xs)
mem-if true y m = Memᴰ.tail m
mem-if false y m = m

module _ {ℓ} {A : Type ℓ} (p : A → Bool) where
  pub all-mem : {x : A} {xs : List A} → Memᴰ x xs → all p xs ≡ true → p x ≡ true
  all-mem (Memᴰ.head e) h = ap p e ∙ ground arith
  all-mem (Memᴰ.tail m) h = all-mem m (ground arith)

  pub any-mem : {x : A} {xs : List A} → Memᴰ x xs → any p xs ≡ false → p x ≡ false
  any-mem (Memᴰ.head e) h = ap p e ∙ ground arith
  any-mem (Memᴰ.tail m) h = any-mem m (ground arith)

  pub mem-any : {x : A} {xs : List A} → Memᴰ x xs → p x ≡ true → any p xs ≡ true
  mem-any (Memᴰ.head e) h = ground (arith, ap p e)
  mem-any (Memᴰ.tail m) h = ground (arith, mem-any m h)

  pub mem-select : {x : A} {xs : List A} → Memᴰ x xs → p x ≡ true → Memᴰ x (select p xs)
  mem-select {xs = []} m h = elim m [ ]
  mem-select {xs = y ∷ ys} (Memᴰ.head e) h = rw (← e) (rw h (Memᴰ.head refl))
  mem-select {xs = y ∷ ys} (Memᴰ.tail m) h = mem-if (p y) y (mem-select m h)

  -- A test that holds of every element holds of all.
  pub all_of_mem : (xs : List A) → ((x : A) → Memᴰ x xs → p x ≡ true) → all p xs ≡ true
  all_of_mem [] h = refl
  all_of_mem (x ∷ xs) h =
      ground (arith, h x (Memᴰ.head refl), all_of_mem xs (λ y m. h y (Memᴰ.tail m)))

select_inv {ℓ κ} :
    {A : Type ℓ} (b : Bool) (P : A → Type κ) (y : A) {x : A} {xs ys : List A}
    → (b ≡ true → P y)
    → (Memᴰ x ys → Memᴰ x xs × P x)
    → Memᴰ x (if b then y ∷ ys else ys)
    → Memᴰ x (y ∷ xs) × P x
select_inv true P y here later (Memᴰ.head e) = (Memᴰ.head e, subst P (sym e) (here refl))
select_inv true P y here later (Memᴰ.tail m) = let (n, q) = later m in (Memᴰ.tail n, q)
select_inv false P y here later m = let (n, q) = later m in (Memᴰ.tail n, q)

-- What `select` keeps stood in the list and passed the test.
pub select-mem {ℓ} :
    {A : Type ℓ} (p : A → Bool) {x : A} (xs : List A)
    → Memᴰ x (select p xs)
    → Memᴰ x xs × (p x ≡ true)
select-mem p [] m = elim m [ ]
select-mem p (y ∷ ys) m = select_inv (p y) (λ z. p z ≡ true) y (λ h. h) (select-mem p ys) m

module _ {A : Type 0} ⦃e : Eq A⦄ where
  pub mem-contains : {a : A} {xs : List A} → Memᴰ a xs → contains a xs ≡ true
  mem-contains {a} {xs = x ∷ xs} (Memᴰ.head q) = ground (arith, (e.beq_iff a x).1 q)
  mem-contains (Memᴰ.tail m) = ground (arith, mem-contains m)

  contains_cons :
      (b : Bool) (a x : A) (xs : List A)
      → (b ≡ true → a ≡ x)
      → (contains a xs ≡ true → Memᴰ a xs)
      → (b || contains a xs) ≡ true
      → Memᴰ a (x ∷ xs)
  contains_cons true a x xs here later h = Memᴰ.head (here refl)
  contains_cons false a x xs here later h = Memᴰ.tail (later h)

  pub contains-mem : (a : A) (xs : List A) → contains a xs ≡ true → Memᴰ a xs
  contains-mem a [] h = absurd (cc)
  contains-mem a (x ∷ xs) h = contains_cons (a == x) a x xs (e.beq_iff a x).0 (contains-mem a xs) h

any_cons {ℓ} :
    {A : Type ℓ} (b : Bool) (p : A → Bool) (x : A) (xs : List A)
    → (b ≡ true → p x ≡ true)
    → (any p xs ≡ true → (y : A) × Memᴰ y xs × (p y ≡ true))
    → (b || any p xs) ≡ true
    → (y : A) × Memᴰ y (x ∷ xs) × (p y ≡ true)
any_cons true p x xs here later h = (x, Memᴰ.head refl, here refl)
any_cons false p x xs here later h = let (y, m, k) = later h in (y, Memᴰ.tail m, k)

-- An element that passes, where one does.
pub any-witness {ℓ} :
    {A : Type ℓ} (p : A → Bool) (xs : List A) → any p xs ≡ true → (x : A) × Memᴰ x xs × (p x ≡ true)
any-witness p [] h = absurd (cc)
any-witness p (x ∷ xs) h = any_cons (p x) p x xs (λ e. e) (any-witness p xs) h
