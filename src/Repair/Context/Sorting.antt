-- ===== src/Repair/Context/Sorting.antt =====
-- Python's `sorted`: a list in order, with the same elements.
use lookfile.Prelude.{
  ◌≡◌, ◌⊎◌, inl, inr, refl, Bool, true, false, List, [], ◌∷◌, Memᴰ, if◌then◌else◌,
}
use lookfile.Repair.Context.{insert, sorted}

module _ {A : Type 0} (below : A → A → Bool) where
  insert-mem : (x a : A) (xs : List A) → Memᴰ a (insert below x xs) → (a ≡ x) ⊎ Memᴰ a xs
  unfolding insert
  insert-mem x a [] (Memᴰ.head e) = inl e
  insert-mem x a [] (Memᴰ.tail m) = elim m [ ]
  insert-mem x a (y ∷ ys) m = split (below y x) (insert-mem x a ys) m
    where
      split :
          (b : Bool)
          → (Memᴰ a (insert below x ys) → (a ≡ x) ⊎ Memᴰ a ys)
          → Memᴰ a (if b then y ∷ insert below x ys else x ∷ y ∷ ys)
          → (a ≡ x) ⊎ Memᴰ a (y ∷ ys)
      split true rest (Memᴰ.head e) = inr (Memᴰ.head e)
      split true rest (Memᴰ.tail k) = elim (rest k) [ inl e ↦ inl e | inr l ↦ inr (Memᴰ.tail l) ]
      split false rest (Memᴰ.head e) = inl e
      split false rest (Memᴰ.tail k) = inr k

  mem-insert : (x a : A) (xs : List A) → (a ≡ x) ⊎ Memᴰ a xs → Memᴰ a (insert below x xs)
  unfolding insert
  mem-insert x a [] (inl e) = Memᴰ.head e
  mem-insert x a [] (inr m) = elim m [ ]
  mem-insert x a (y ∷ ys) m = split (below y x) (mem-insert x a ys) m
    where
      split :
          (b : Bool)
          → ((a ≡ x) ⊎ Memᴰ a ys → Memᴰ a (insert below x ys))
          → (a ≡ x) ⊎ Memᴰ a (y ∷ ys)
          → Memᴰ a (if b then y ∷ insert below x ys else x ∷ y ∷ ys)
      split false rest (inl e) = Memᴰ.head e
      split false rest (inr k) = Memᴰ.tail k
      split true rest (inl e) = Memᴰ.tail (rest (inl e))
      split true rest (inr (Memᴰ.head e)) = Memᴰ.head e
      split true rest (inr (Memᴰ.tail k)) = Memᴰ.tail (rest (inr k))

  pub sorted-mem : (a : A) (xs : List A) → Memᴰ a (sorted below xs) → Memᴰ a xs
  unfolding sorted
  sorted-mem a [] m = m
  sorted-mem a (x ∷ xs) m = elim (insert-mem x a (sorted below xs) m) [
    | inl e ↦ Memᴰ.head e
    | inr k ↦ Memᴰ.tail (sorted-mem a xs k)
  ]

  pub mem-sorted : (a : A) (xs : List A) → Memᴰ a xs → Memᴰ a (sorted below xs)
  unfolding sorted
  mem-sorted a [] m = elim m [ ]
  mem-sorted a (x ∷ xs) (Memᴰ.head e) = mem-insert x a (sorted below xs) (inl e)
  mem-sorted a (x ∷ xs) (Memᴰ.tail m) = mem-insert x a (sorted below xs) (inr (mem-sorted a xs m))

  -- No element is below the one before it.
  pub data IsSorted : List A → Type 0 where
    empty : IsSorted []
    single : {x : A} → IsSorted (x ∷ [])
    next : {x y : A} {ys : List A} → below y x ≡ false → IsSorted (y ∷ ys) → IsSorted (x ∷ y ∷ ys)

  module _ (asym : (x y : A) → below x y ≡ true → below y x ≡ false) where
    insert-IsSorted : (x : A) (xs : List A) → IsSorted xs → IsSorted (insert below x xs)
    unfolding insert
    insert-IsSorted x [] s = single
    insert-IsSorted x (y ∷ []) s = split (below y x) refl
      where
        split :
            (b : Bool) → below y x ≡ b → IsSorted (if b then y ∷ insert below x [] else x ∷ y ∷ [])
        split true e = next (asym y x e) single
        split false e = next e single
    insert-IsSorted x (y ∷ z ∷ zs) (next k s) =
        split (below y x) (below z x) refl refl (insert-IsSorted x (z ∷ zs) s)
      where
        split :
            (b c : Bool)
            → below y x ≡ b
            → below z x ≡ c
            → IsSorted (insert below x (z ∷ zs))
            → IsSorted (if b then y ∷ insert below x (z ∷ zs) else x ∷ y ∷ z ∷ zs)
        split false c e f i = next e (next k s)
        split true true e f i = rw f (next k (rw f at i))
        split true false e f i = rw f (next (asym y x e) (rw f at i))

    pub sorted-IsSorted : (xs : List A) → IsSorted (sorted below xs)
    unfolding sorted
    sorted-IsSorted [] = empty
    sorted-IsSorted (x ∷ xs) = insert-IsSorted x (sorted below xs) (sorted-IsSorted xs)
