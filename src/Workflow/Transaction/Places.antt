-- ===== src/Workflow/Transaction/Places.antt =====
-- What the calls of Writing.antt and the steps of Publishing.antt do to one of the three names, for
-- every fault, when an assertion on the directory is kept by changes to that name.
use lookfile.Prelude.{ℕ, ◌≡◌, refl, ap, ◌∙◌, Bool, true, Option, none, some, ◌&&◌, ◌==◌, nat_eq}
use lookfile.Workflow.Transaction.Directory.{File, Slots, Directory, Place, content, inode}
use lookfile.Workflow.Transaction.Runs.{
  StoreError, corrupt_store, store_io, rename_uncertain, World, raise, require, Triple,
}
use lookfile.Workflow.Transaction.Triples.{
  On, weaken, bind, pure_rule, raise_rule, require_rule, if_rule, call_rule, observe_rule,
}
use lookfile.Workflow.Transaction.Writing.{
  rewritten, put_swap, fits_slot, found, exchange_existing, published, move_existing, write_slot,
  inspect_final, inspect_swap, rename_exchange, rename_noreplace, fsync_directory,
}
use lookfile.Workflow.Transaction.Publishing.{require_published, rollback_if_stable}

-- Raising keeps every assertion.
pub raising :
    {A : Type 0} (D : Directory → Type 0) (Q : A → World → Type 0) (x : StoreError)
    → Triple (On D) (raise x) Q (On D)
raising D Q x = raise_rule (λ w d. d)

pub requiring :
    (D : Directory → Type 0) (b : Bool) (x : StoreError)
    → Triple (On D) (require b x) (λ _ w. D w.directory × (b ≡ true)) (On D)
requiring D b x = require_rule b x (λ w d. d)

pub syncing : (D : Directory → Type 0) → Triple (On D) fsync_directory (λ _. On D) (On D)
unfolding fsync_directory
syncing D = weaken (λ w d. d) (λ a w h. h.0) (λ w e. e) (observe_rule D store_io (λ _. tt))

module _ {A : Type 0} (place : Place A) where
  -- What is put in place is found there.
  abbrev pub IsPlace : Type 0
  IsPlace = (s : Slots A) (d : Directory) → place.slots (place.put s d) ≡ s

  abbrev pub final_content : Directory → Option A
  final_content d = content (place.slots d).final

  abbrev pub swap_content : Directory → Option A
  swap_content d = content (place.slots d).swap

  -- Kept by every change to the swap slot, and by every change to the name
  abbrev pub IsSwapStable : (Directory → Type 0) → Type 0
  IsSwapStable D =
      (s : Option (File A)) (d : Directory)
      → D d
      → D (place.put (record (place.slots d) { swap = s }) d)

  abbrev pub IsStable : (Directory → Type 0) → Type 0
  IsStable D = (s : Slots A) (d : Directory) → D d → D (place.put s d)

  rewritten-content : (f : Option (File A)) (n : ℕ) (a : A) → (rewritten place f n a).content ≡ a
  rewritten-content none n a = refl
  rewritten-content (some file) n a = refl

  rewritten-swap :
      IsPlace → (a : A) (w : World) → swap_content (put_swap place a w).directory ≡ some a
  rewritten-swap law a w =
      ap (λ s. content s.swap) (law _ w.directory)
      ∙ ap some (rewritten-content (place.slots w.directory).swap w.next_inode a)

  pub writing :
      IsPlace
      → (D : Directory → Type 0) → IsSwapStable D
      → (torn : ℕ → A → A) (a : A)
      → Triple
          (On D)
          (write_slot place torn a)
          (λ _ w. D w.directory × (swap_content w.directory ≡ some a))
          (On D)
  unfolding write_slot
  writing law D stable torn a = record {
    ends = λ w d.
        (bind (requiring D (fits_slot place (place.slots w.directory).swap) corrupt_store) (λ _.
            weaken (λ v h. h.0) (λ n v h. h) (λ v e. e)
              (call_rule D (λ _ v. D v.directory × (swap_content v.directory ≡ some a)) (On D)
                store_io _ _ (λ v h. (stable _ v.directory h, rewritten-swap law a v)) (λ v h. h)
                (λ v h. stable _ v.directory h) (λ n v h. stable _ v.directory h)))).ends
          w d;
  }

  looking :
      (D : Directory → Type 0) (f : Option (File A)) (view : World → Option (File A))
      → Triple
          (λ w. D w.directory × (view w ≡ f))
          (found place f)
          (λ i w. D w.directory × (inode (view w) ≡ some i))
          (On D)
  looking D none view = raise_rule (λ w h. h.0)
  looking D (some file) view =
      bind (require_rule (place.fits file.content) corrupt_store (λ w h. h.0))
        (λ _. pure_rule (λ w (d, e). (d.0, ap inode d.1)))

  pub looking_final :
      (D : Directory → Type 0)
      → Triple
          (On D)
          (inspect_final place)
          (λ i w. D w.directory × (inode (place.slots w.directory).final ≡ some i))
          (On D)
  unfolding inspect_final
  looking_final D =
      bind (observe_rule D corrupt_store (λ w. (place.slots w.directory).final))
        (λ f. looking D f (λ w. (place.slots w.directory).final))

  pub looking_swap :
      (D : Directory → Type 0)
      → Triple
          (On D)
          (inspect_swap place)
          (λ i w. D w.directory × (inode (place.slots w.directory).swap ≡ some i))
          (On D)
  unfolding inspect_swap
  looking_swap D =
      bind (observe_rule D corrupt_store (λ w. (place.slots w.directory).swap))
        (λ f. looking D f (λ w. (place.slots w.directory).swap))

  -- A look at a file, where the file's identity does not matter
  pub glance_final :
      (D : Directory → Type 0) → Triple (On D) (inspect_final place) (λ _. On D) (On D)
  glance_final D = weaken (λ w d. d) (λ i w h. h.0) (λ w e. e) (looking_final D)

  pub glance_swap : (D : Directory → Type 0) → Triple (On D) (inspect_swap place) (λ _. On D) (On D)
  glance_swap D = weaken (λ w d. d) (λ i w h. h.0) (λ w e. e) (looking_swap D)

  -- What the swap slot holds is under the final name after a rename.
  abbrev pub Swapped : (Directory → Type 0) → A → Directory → Type 0
  Swapped D a d = D d × (swap_content d ≡ some a)

  abbrev pub Landed : (Directory → Type 0) → A → Directory → Type 0
  Landed D a d = D d × (final_content d ≡ some a)

  exchange_slots :
      IsPlace
      → (D : Directory → Type 0) → IsStable D
      → (a : A) (f g : Option (File A))
      → Triple (On (Swapped D a)) (exchange_existing place f g) (λ _. On (Landed D a)) (On D)
  exchange_slots law D stable a none g = raise_rule (λ w h. h.0)
  exchange_slots law D stable a (some f) none = raise_rule (λ w h. h.0)
  exchange_slots law D stable a (some f) (some g) =
      call_rule (Swapped D a) (λ _. On (Landed D a)) (On D) rename_uncertain _ _
        (λ v h. (stable _ v.directory h.0, ap (λ s. content s.final) (law _ v.directory) ∙ h.1))
        (λ v h. h.0) (λ v h. stable _ v.directory h.0) (λ n v h. h.0)

  pub exchanging :
      IsPlace
      → (D : Directory → Type 0) → IsStable D
      → (a : A) → Triple (On (Swapped D a)) (rename_exchange place) (λ _. On (Landed D a)) (On D)
  unfolding rename_exchange
  exchanging law D stable a = record {
    ends = λ w d.
        (exchange_slots law D stable a (place.slots w.directory).final
            (place.slots w.directory).swap).ends
          w d;
  }

  exchange_back :
      (D : Directory → Type 0)
      → IsStable D
      → (f g : Option (File A)) → Triple (On D) (exchange_existing place f g) (λ _. On D) (On D)
  exchange_back D stable none g = raising D (λ _. On D) rename_uncertain
  exchange_back D stable (some f) none = raising D (λ _. On D) rename_uncertain
  exchange_back D stable (some f) (some g) =
      call_rule D (λ _. On D) (On D) rename_uncertain _ _ (λ v h. stable _ v.directory h) (λ v h. h)
        (λ v h. stable _ v.directory h) (λ n v h. h)

  pub rolling_back :
      (D : Directory → Type 0)
      → IsStable D
      → (published retired : ℕ)
      → Triple (On D) (rollback_if_stable place published retired) (λ _. On D) (On D)
  unfolding rollback_if_stable rename_exchange
  rolling_back D stable published retired = bind (glance_final D) (λ i. bind (glance_swap D) (λ j.
      if_rule (i == published && j == retired)
        (λ _. record {
          ends = λ w d.
              (exchange_back D stable (place.slots w.directory).final
                  (place.slots w.directory).swap).ends
                w d;
        })
        (λ _. pure_rule (λ w d. d))))

  -- `rename_noreplace` of a file to a name that can be missing
  move_slots :
      IsPlace
      → (D E : Directory → Type 0) → ((d : Directory) → D d → E d)
      → ((d : Directory) → D d → E (place.put (published place (place.slots d)) d))
      → (a : A) (f g : Option (File A))
      → Triple (On (Swapped D a)) (move_existing place f g) (λ _. On (Landed E a)) (On E)
  move_slots law D E keep move a (some f) g = raise_rule (λ w h. keep _ h.0)
  move_slots law D E keep move a none none = raise_rule (λ w h. keep _ h.0)
  move_slots law D E keep move a none (some g) =
      call_rule (Swapped D a) (λ _. On (Landed E a)) (On E) rename_uncertain _ _
        (λ v h. (move v.directory h.0, ap (λ s. content s.final) (law _ v.directory) ∙ h.1))
        (λ v h. keep _ h.0) (λ v h. move v.directory h.0) (λ n v h. keep _ h.0)

  pub moving :
      IsPlace
      → (D E : Directory → Type 0) → ((d : Directory) → D d → E d)
      → ((d : Directory) → D d → E (place.put (published place (place.slots d)) d))
      → (a : A) → Triple (On (Swapped D a)) (rename_noreplace place) (λ _. On (Landed E a)) (On E)
  unfolding rename_noreplace
  moving law D E keep move a = record {
    ends = λ w d.
        (move_slots law D E keep move a (place.slots w.directory).final
            (place.slots w.directory).swap).ends
          w d;
  }

  pub confirming :
      (D : Directory → Type 0) (i : ℕ)
      → Triple (On D) (require_published place i) (λ _. On D) (On D)
  unfolding require_published
  confirming D i =
      bind (glance_final D)
        (λ j. weaken (λ w d. d) (λ _ w h. h.0) (λ w e. e) (requiring D (j == i) corrupt_store))
