-- ===== src/Examples/Domain.antt =====
-- A digest of src/specstyle/domain/identifiers.py in capital letters.
use lookfile.Prelude.{all, true, ◌≡◌, refl, ok, length}
use lookfile.Domain.Text.{Text, text}
use lookfile.Domain.Identifiers.{sha256}
use lookfile.Domain.Identifiers.Canonical.{is_lower_hex, sha256-again}

abbrev capitals : Text
capitals = text "ABCDEF0123456789ABCDEF0123456789ABCDEF0123456789ABCDEF0123456789"

abbrev digest : Text
digest = text "abcdef0123456789abcdef0123456789abcdef0123456789abcdef0123456789"

stored : sha256 capitals ≡ ok digest
unfolding sha256
stored = refl

sha256-again_example :
    (length digest ≡ 64) × (all is_lower_hex digest ≡ true) × (sha256 digest ≡ ok digest)
sha256-again_example = sha256-again capitals digest stored
