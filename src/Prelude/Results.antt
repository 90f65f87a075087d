-- ===== src/Prelude/Results.antt =====
-- Exceptions as values. A function that may raise returns a `Result`.
use Prim.Native.String.{String}
use mathlib.Core.Path.{◌≡◌, refl}
use mathlib.Core.Bool.{Bool, true, false}

-- The two exception classes of `specstyle/errors.py`, with their message, and any other exception
-- that Python itself raises (`KeyError`, `StopIteration`).
pub data Error : Type 0 where
  domain_error : String → Error
  infrastructure_error : String → Error
  other_error : Error

pub data Result {ℓ} (A : Type ℓ) : Type ℓ where
  ok : A → Result A
  err : Error → Result A

-- `if bad: raise DomainError(message)`
abbrev pub refuse_if : Bool → String → Result (Unit {0})
refuse_if true message = err (domain_error message)
refuse_if false message = ok tt

-- `try: r` with `except Exception: raise DomainError(message) from None`
abbrev pub relabel {ℓ} : {A : Type ℓ} → String → Result A → Result A
relabel message (ok a) = ok a
relabel message (err _) = err (domain_error message)

infixl 5 ◌>>=◌
abbrev pub ◌>>=◌ {κ ℓ} : {B : Type κ} {A : Type ℓ} → Result B → (B → Result A) → Result A
err e >>= next = err e
ok value >>= next = next value

-- A check, and then what the code does when it passes.
infixl 5 ◌>>◌
abbrev pub ◌>>◌ {ℓ} : {A : Type ℓ} → Result (Unit {0}) → Result A → Result A
check >> rest = check >>= λ _. rest

-- A test that did not raise was false, and the rest returned.
pub after_guard {ℓ} :
    {A : Type ℓ} (b : Bool) (message : String) (k : Result A) {a : A}
    → (refuse_if b message >> k) ≡ ok a
    → (b ≡ false) × (k ≡ ok a)
after_guard true message k h = cc
after_guard false message k h = (refl, h)

pub >>-eq-ok {ℓ} :
    {A : Type ℓ} (m : Result (Unit {0})) (k : Result A) {a : A}
    → (m >> k) ≡ ok a
    → (m ≡ ok tt) × (k ≡ ok a)
>>-eq-ok (ok tt) k h = (refl, h)
>>-eq-ok (err e) k h = cc

-- The same with `raise InfrastructureError(message) from None`
abbrev pub corrupt {ℓ} : {A : Type ℓ} → String → Result A → Result A
corrupt message (ok a) = ok a
corrupt message (err _) = err (infrastructure_error message)

pub corrupt-eq-ok {ℓ} :
    {A : Type ℓ} (message : String) (r : Result A) {a : A} → corrupt message r ≡ ok a → r ≡ ok a
corrupt-eq-ok message (ok a) h = h
corrupt-eq-ok message (err e) h = cc

module _ {ℓ κ} {A : Type ℓ} {B : Type κ} where
  pub >>=-eq-ok :
      (r : Result A) (next : A → Result B) {b : B}
      → (r >>= next) ≡ ok b
      → (value : A) × (r ≡ ok value) × (next value ≡ ok b)
  >>=-eq-ok (err e) next h = cc
  >>=-eq-ok (ok value) next h = (value, refl, h)

pub refuse_if-eq-ok : (b : Bool) (message : String) → refuse_if b message ≡ ok tt → b ≡ false
refuse_if-eq-ok true message h = cc
refuse_if-eq-ok false message h = refl

pub relabel-eq-ok {ℓ} :
    {A : Type ℓ} (message : String) (r : Result A) {a : A} → relabel message r ≡ ok a → r ≡ ok a
relabel-eq-ok message (ok a) h = h
relabel-eq-ok message (err e) h = cc

pub ok_inj {ℓ} : {A : Type ℓ} {a b : A} → ok a ≡ ok b → a ≡ b
ok_inj h = cc

module _ {ℓ κ} {A : Type ℓ} {B : Type κ} where
  pub >>=-cong : (r : Result A) (f g : A → Result B) → ((a : A) → f a ≡ g a) → (r >>= f) ≡ (r >>= g)
  >>=-cong (ok a) f g h = h a
  >>=-cong (err e) f g h = refl

pub >>=-assoc {ℓ κ μ} :
    {A : Type ℓ} {B : Type κ} {C : Type μ} (m : Result A) (h : A → Result B) (k : B → Result C)
    → (m >>= h >>= k) ≡ (m >>= λ x. h x >>= k)
>>=-assoc (err e) h k = refl
>>=-assoc (ok x) h k = refl
