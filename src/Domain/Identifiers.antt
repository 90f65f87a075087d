-- ===== src/Domain/Identifiers.antt =====
-- src/specstyle/domain/identifiers.py. The identifier classes differ by their Python class alone,
-- so they are synonyms of the text that an instance holds.
pub mod Canonical
use lookfile.Prelude.{
  ℕ, ◌+◌, Bool, false, ◌&&◌, ◌||◌, [], ◌∷◌, leb, ◌==◌, nat_eq, Result, ok, err, domain_error,
  length, all, map, if◌then◌else◌,
}
use lookfile.Domain.Text.{Text}

abbrev pub Identifier : Type 0
Identifier = Text

abbrev pub JobId : Type 0
JobId = Text

abbrev pub AssetId : Type 0
AssetId = Text

abbrev pub AttemptId : Type 0
AttemptId = Text

abbrev pub ArtifactId : Type 0
ArtifactId = Text

abbrev pub DecisionId : Type 0
DecisionId = Text

abbrev pub RuleId : Type 0
RuleId = Text

abbrev pub Sha256 : Type 0
Sha256 = Text

-- `[A-Za-z0-9]`
pub is_alphanumeric : ℕ → Bool
is_alphanumeric c =
    (leb b'A' c && leb c b'Z') || (leb b'a' c && leb c b'z') || (leb b'0' c && leb c b'9')

-- `[A-Za-z0-9_-]`
pub is_id_char : ℕ → Bool
unfolding is_alphanumeric
is_id_char c = is_alphanumeric c || c == b'_' || c == b'-'

-- `re.fullmatch(r"[A-Za-z0-9][A-Za-z0-9_-]{0,127}", value, re.ASCII)`
unfoldable pub is_identifier : Text → Bool
unfolding is_id_char is_alphanumeric
is_identifier [] = false
is_identifier (c ∷ cs) = is_alphanumeric c && all is_id_char cs && leb (length cs) 127

unfoldable pub identifier : Text → Result Identifier
unfolding is_identifier
identifier value = if is_identifier value then ok value else err (domain_error "invalid identifier")

-- `[0-9a-fA-F]`
pub is_hex : ℕ → Bool
is_hex c = (leb b'0' c && leb c b'9') || (leb b'a' c && leb c b'f') || (leb b'A' c && leb c b'F')

-- `str.lower` on the characters that the pattern admits
pub lower : ℕ → ℕ
lower c = if leb b'A' c && leb c b'Z' then c + 32 else c

-- `_validate_sha256`, and the normalisation of `Sha256.__post_init__`
unfoldable pub sha256 : Text → Result Sha256
unfolding is_hex lower
sha256 value =
    if all is_hex value && length value == 64
    then ok (map lower value)
    else err (domain_error "invalid sha256")
