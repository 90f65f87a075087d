-- ===== src/Prelude/Equality.antt =====
-- Python's `==` as an interface: a Boolean test that agrees with the path type.
use Prim.Native.Nat.{ℕ, compare, Ordering}
use Prim.Native.String.{String}
use mathlib.Core.Path.{◌≡◌, refl}
use mathlib.Core.Logic.{◌↔◌}
use mathlib.Core.Bool.{Bool, true, false, not}
use mathlib.Core.List.{List, [], ◌∷◌}
use mathlib.Core.Option.{Option, none, some}
use native.Mathlib.Omega.{arith}
use text.Mathlib.Text.{◌==◌ as str_eq}
use text.Mathlib.TextEquality.{eq_iff}

pub record Eq {ℓ} (A : Type ℓ) : Type ℓ where
  pub beq : A → A → Bool
  pub beq_iff : (a b : A) → (beq a b ≡ true) ↔ (a ≡ b)

abbrev pub nat_beq : ℕ → ℕ → Bool
nat_beq a b = elim (compare a b) [ Ordering.eq ↦ true | _ ↦ false ]

pub nat_beq_iff : (a b : ℕ) → (nat_beq a b ≡ true) ↔ (a ≡ b)
nat_beq_iff a b = ground arith

instance abbrev pub nat_eq : Eq ℕ
nat_eq = record { beq = nat_beq; beq_iff = nat_beq_iff }

infix 50 ◌==◌
abbrev pub ◌==◌ {κ} : {B : Type κ} ⦃d : Eq B⦄ → B → B → Bool
◌==◌ ⦃d⦄ = d.beq

infix 50 ◌!=◌
abbrev pub ◌!=◌ {ℓ} : {A : Type ℓ} ⦃e : Eq A⦄ → A → A → Bool
a != b = not (a == b)

abbrev pub bool_beq : Bool → Bool → Bool
bool_beq true b = b
bool_beq false b = not b

pub bool_beq_iff : (a b : Bool) → (bool_beq a b ≡ true) ↔ (a ≡ b)
bool_beq_iff a b = ground arith

instance abbrev pub bool_eq : Eq Bool
bool_eq = record { beq = bool_beq; beq_iff = bool_beq_iff }

instance abbrev pub string_eq : Eq String
string_eq = record { beq = str_eq; beq_iff = eq_iff }

-- The equality of an enumeration is that of the positions of its members.
module _ {A : Type 0} (position : A → ℕ) (inj : (a b : A) → position a ≡ position b → a ≡ b) where
  abbrev pub enum_beq : A → A → Bool
  enum_beq a b = nat_beq (position a) (position b)

  pub enum_beq_iff : (a b : A) → (enum_beq a b ≡ true) ↔ (a ≡ b)
  enum_beq_iff a b = (λ h. inj a b ((nat_beq_iff _ _).0 h), λ p. ground (arith, ap_position p))
    where
      ap_position : a ≡ b → position a ≡ position b
      ap_position p = cc

  abbrev pub enum_eq : Eq A
  enum_eq = record { beq = enum_beq; beq_iff = enum_beq_iff }

module _ {A : Type 0} ⦃e : Eq A⦄ where
  abbrev pub option_beq : Option A → Option A → Bool
  option_beq none none = true
  option_beq none (some b) = false
  option_beq (some a) none = false
  option_beq (some a) (some b) = a == b

  pub option_beq_iff : (a b : Option A) → (option_beq a b ≡ true) ↔ (a ≡ b)
  option_beq_iff none none = (λ _. refl, λ _. refl)
  option_beq_iff none (some b) = (λ h. cc, λ h. cc)
  option_beq_iff (some a) none = (λ h. cc, λ h. cc)
  option_beq_iff (some a) (some b) = ground (arith, e.beq_iff a b)

  instance abbrev pub option_eq : Eq (Option A)
  option_eq = record { beq = option_beq; beq_iff = option_beq_iff }

  abbrev pub list_beq : List A → List A → Bool
  list_beq [] [] = true
  list_beq [] (b ∷ bs) = false
  list_beq (a ∷ as') [] = false
  list_beq (a ∷ as') (b ∷ bs) =
      let rest = list_beq as' bs in elim (a == b) [ true ↦ rest | false ↦ false ]

  pub list_beq_iff : (a b : List A) → (list_beq a b ≡ true) ↔ (a ≡ b)
  list_beq_iff [] [] = (λ _. refl, λ _. refl)
  list_beq_iff [] (b ∷ bs) = (λ h. cc, λ h. cc)
  list_beq_iff (a ∷ as') [] = (λ h. cc, λ h. cc)
  list_beq_iff (a ∷ as') (b ∷ bs) = ground (arith, e.beq_iff a b, list_beq_iff as' bs)

  instance abbrev pub list_eq : Eq (List A)
  list_eq = record { beq = list_beq; beq_iff = list_beq_iff }

  pub ==_refl : (a : A) → (a == a) ≡ true
  ==_refl a = (e.beq_iff a a).1 refl

  pub ==→eq : (a b : A) → (a == b) ≡ true → a ≡ b
  ==→eq a b h = (e.beq_iff a b).0 h

  pub ==_sym : (a b : A) → (a == b) ≡ (b == a)
  ==_sym a b = ground (arith, e.beq_iff a b, e.beq_iff b a)

  pub ==_iff : (a b : A) → ((a == b) ≡ true) ↔ (a ≡ b)
  ==_iff a b = e.beq_iff a b
