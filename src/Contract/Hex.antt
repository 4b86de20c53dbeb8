-- ===== src/Contract/Hex.antt =====
-- The text form of identifiers and fingerprints: `encode_hex` and `parse_digest` of
-- src/contract/ids.rs, `decode_prefixed` and `decode_nibble` of src/contract/fingerprint.rs.
pub mod Laws
use parc.Prelude.{
  ℕ, ◌+◌, ◌-◌, ◌*◌, ◌/◌, ◌%◌, Bool, true, false, ◌&&◌, ◌||◌, List, [], ◌∷◌, ◌++◌, Option, none,
  some, leb, ltb, ◌==◌, if◌then◌else◌,
}
use parc.Prelude.Lists.{length, all}
use parc.Prelude.Text.{Text}
use parc.Contract.Checked.{Checked, ok, err}

pub data FingerprintParseError : Type 0 where
  prefix : Text → FingerprintParseError
  shape : FingerprintParseError

pub data IdError : Type 0 where
  invalid_logical_path empty_name parameter_requires_ordinal : IdError
  invalid_encoding : FingerprintParseError → IdError

-- `HEX[nibble]`
abbrev pub hex_digit : ℕ → ℕ
hex_digit n = if ltb n 10 then b'0' + n else b'a' + (n - 10)

unfoldable pub encode_hex : List ℕ → Text
encode_hex [] = []
encode_hex (b ∷ bs) = hex_digit (b / 16) ∷ hex_digit (b % 16) ∷ encode_hex bs

abbrev pub is_hex : ℕ → Bool
is_hex b = (leb b'0' b && leb b b'9') || (leb b'a' b && leb b b'f')

abbrev pub decode_nibble : ℕ → ℕ
decode_nibble b = if leb b'0' b && leb b b'9' then b - b'0' else b - b'a' + 10

-- `(high << 4) | low` on nibbles, for each pair of digits.
unfoldable pub decode_pairs : Text → List ℕ
decode_pairs (h ∷ l ∷ rest) = (decode_nibble h * 16 + decode_nibble l) ∷ decode_pairs rest
decode_pairs _ = []

unfoldable pub strip_prefix : Text → Text → Option Text
strip_prefix value [] = some value
strip_prefix [] (p ∷ ps) = none
strip_prefix (v ∷ vs) (p ∷ ps) = let rest = strip_prefix vs ps in if v == p then rest else none

abbrev decode_shaped : Text → Checked FingerprintParseError (List ℕ)
decode_shaped hex = if length hex == 64 && all is_hex hex then ok (decode_pairs hex) else err shape

abbrev decode_stripped : Text → Option Text → Checked FingerprintParseError (List ℕ)
decode_stripped expected none = err (prefix expected)
decode_stripped expected (some hex) = decode_shaped hex

unfoldable pub decode_prefixed : Text → Text → Checked FingerprintParseError (List ℕ)
unfolding decode_pairs strip_prefix
decode_prefixed value expected = decode_stripped expected (strip_prefix value expected)

abbrev pub id_shaped : Text → Checked IdError (List ℕ)
id_shaped hex =
    if length hex == 64 && all is_hex hex
    then ok (decode_pairs hex)
    else err (invalid_encoding shape)

abbrev pub id_stripped : Text → Option Text → Checked IdError (List ℕ)
id_stripped expected none = err (invalid_encoding (prefix expected))
id_stripped expected (some hex) = id_shaped hex

unfoldable pub parse_digest : Text → Text → Checked IdError (List ℕ)
unfolding decode_pairs strip_prefix
parse_digest value expected = id_stripped expected (strip_prefix value expected)
