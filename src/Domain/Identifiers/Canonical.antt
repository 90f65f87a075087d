-- ===== src/Domain/Identifiers/Canonical.antt =====
-- The normal form of the hashes of src/specstyle/domain/identifiers.py.
use lookfile.Prelude.{
  leb, ◌&&◌, ◌||◌, ℕ, suc, ◌≡◌, refl, ap, subst, Bool, true, false, [], ◌∷◌, arith, ok, err,
  domain_error, ok_inj, nat_beq_iff, length, all, map, and_inv, ◌==◌, nat_eq, if◌then◌else◌,
}
use lookfile.Domain.Text.{Text}
use lookfile.Domain.Identifiers.{is_hex, lower, sha256}

lower-hex : (c : ℕ) → is_hex c ≡ true → is_hex (lower c) ≡ true
unfolding is_hex lower
lower-hex c h = ground arith

lower-lower : (c : ℕ) → lower (lower c) ≡ lower c
unfolding lower
lower-lower c = ground arith

map-lower-hex : (cs : Text) → all is_hex cs ≡ true → all is_hex (map lower cs) ≡ true
map-lower-hex [] h = refl
map-lower-hex (c ∷ cs) h =
    let (head, tail) = and_inv (is_hex c) (all is_hex cs) h in
    rw (lower-hex c head, map-lower-hex cs tail) refl

length-map-lower : (cs : Text) → length (map lower cs) ≡ length cs
length-map-lower [] = refl
length-map-lower (c ∷ cs) = ap suc (length-map-lower cs)

map-lower-lower : (cs : Text) → map lower (map lower cs) ≡ map lower cs
map-lower-lower [] = refl
map-lower-lower (c ∷ cs) = cc (lower-lower c, map-lower-lower cs)

if_ok_inv :
    (b : Bool) (x : Text) {y : Text}
    → (if b then ok x else err (domain_error "invalid sha256")) ≡ ok y
    → (b ≡ true) × (x ≡ y)
if_ok_inv true x h = (refl, ok_inj h)
if_ok_inv false x h = absurd (cc)

-- The characters of a normal form: a digit, or a small letter from `a` to `f`
abbrev pub is_lower_hex : ℕ → Bool
is_lower_hex c = (leb b'0' c && leb c b'9') || (leb b'a' c && leb c b'f')

lower-is_lower_hex : (c : ℕ) → is_hex c ≡ true → is_lower_hex (lower c) ≡ true
unfolding is_hex lower
lower-is_lower_hex c h = ground arith

map-lower-is_lower_hex : (cs : Text) → all is_hex cs ≡ true → all is_lower_hex (map lower cs) ≡ true
map-lower-is_lower_hex [] h = refl
map-lower-is_lower_hex (c ∷ cs) h =
    let (head, tail) = and_inv (is_hex c) (all is_hex cs) h in
    rw (lower-is_lower_hex c head, map-lower-is_lower_hex cs tail) refl

-- The digest that `Sha256` stores is in its normal form: it has 64 characters, each a digit or a small
-- letter from a to f, and building a `Sha256` from it again gives the same digest.
pub sha256-again :
    (value digest : Text)
    → sha256 value ≡ ok digest
    → (length digest ≡ 64) × (all is_lower_hex digest ≡ true) × (sha256 digest ≡ ok digest)
unfolding sha256
sha256-again value digest h =
    let (valid, same) = if_ok_inv _ _ h in
    let (hex, long) = and_inv (all is_hex value) (length value == 64) valid in
    subst (λ (d : Text). (length d ≡ 64) × (all is_lower_hex d ≡ true) × (sha256 d ≡ ok d)) same
      (
        rw (length-map-lower value) ((nat_beq_iff (length value) 64).0 long),
        map-lower-is_lower_hex value hex,
        rw (map-lower-hex value hex, length-map-lower value, long, map-lower-lower value) refl,
      )
