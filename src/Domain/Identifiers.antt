-- ===== src/Domain/Identifiers.antt =====
-- The identifiers and digests of internal/domain, and the rules for retained text. Each regular
-- expression without alternatives is a test of its characters and its length.
use Prim.Native.Char.{code}
use goalrail.Base.{
  String, Bool, false, ℕ, ◌&&◌, ◌||◌, leb, nat_eq, is_digit, is_lower, is_upper, all_chars,
  char_count, Option, none, some, strip_prefix, is_blank, not,
}

-- `[A-Za-z0-9]`
abbrev pub is_alphanumeric : ℕ → Bool
is_alphanumeric c = is_digit c || (is_lower c || is_upper c)

-- `[A-Za-z0-9._-]`
abbrev pub is_id_char : ℕ → Bool
is_id_char c = is_alphanumeric c || (nat_eq c 46 || (nat_eq c 95 || nat_eq c 45))

unfoldable pub is_canonical_id : String → Bool
unfolding all_chars char_count
is_canonical_id String.[] = false
is_canonical_id (String.◌∷◌ c s) =
    is_alphanumeric (code c) && (all_chars is_id_char s && leb (char_count s) 127)

-- `[0-9a-f]`
abbrev pub is_lower_hex : ℕ → Bool
is_lower_hex c = is_digit c || (leb 97 c && leb c 102)

-- `^sha256:[0-9a-f]{64}$`
unfoldable pub is_hex_digest : String → Bool
unfolding all_chars char_count
is_hex_digest value = elim (strip_prefix value "sha256:") [
  | none ↦ false
  | some rest ↦ all_chars is_lower_hex rest && nat_eq (char_count rest) 64
]

-- A character below 0x20 other than a line feed or a tab.
unfoldable pub has_unsafe_control : String → Bool
unfolding all_chars
has_unsafe_control value = not (all_chars (λ c. leb 32 c || (nat_eq c 10 || nat_eq c 9)) value)

-- `ValidateEscalationPayload`: the payload as text, `none` for bytes that are not UTF-8, its
-- length in bytes, and the search for secrets, which is by regular expressions.
unfoldable pub validate_escalation_payload : (String → Bool) → ℕ → Option String → Bool
unfolding is_blank has_unsafe_control
validate_escalation_payload has_secret size none = false
validate_escalation_payload has_secret size (some text) =
    not (is_blank text)
    && (leb size 65536 && (not (has_unsafe_control text) && not (has_secret text)))
