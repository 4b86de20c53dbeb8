-- ===== src/Contract/Tests.antt =====
-- The theorems on src/contract at concrete inputs.
use parc.Prelude.{ℕ, zero, suc, ◌≡◌, ◌≢◌, ◌⊎◌, ◌≤◌, refl, List, [], ◌∷◌, ◌++◌, arith}
use parc.Prelude.Lists.{All}
use parc.Prelude.Text.{Text, bytes}
use parc.Contract.Checked.{ok, err}
use parc.Prelude.{◌^◌, ◌-◌, true}
use parc.Prelude.Int.{negsuc}
use parc.Contract.Declarations.{signed, ordinary, file}
use parc.Contract.Entity.{EntityKey, named}
use parc.Contract.Entity.Input.{entity_input-injective}
use parc.Contract.Integer.{exact_text, read_exact}
use parc.Contract.Integer.Printed.{read_exact-exact_text}
use parc.Contract.Hex.{encode_hex, parse_digest}
use parc.Contract.Hex.Laws.{IsByte, parse_digest-encode_hex, parse_digest→eq}
use parc.Contract.Canonical.{canonical_tokens_bytes-injective}
use parc.Contract.Selection.{
  DeclarationId, empty, duplicate, checked_ids, first_duplicate, sort, insert, member,
}
use parc.Contract.Selection.Laws.{Increasing, count, checked_ids-ok, checked_ids-err}

abbrev repeated : ℕ → ℕ → List ℕ
repeated zero b = []
repeated (suc n) b = b ∷ repeated n b

abbrev digest : List ℕ
digest = repeated 32 0xa7

abbrev prefixed : Text
prefixed = bytes "parc-file-v1:"

digest-IsByte : (n : ℕ) → All IsByte (repeated n 0xa7)
digest-IsByte zero = tt
digest-IsByte (suc n) = (omega arith, digest-IsByte n)

parse_digest-encode_hex_example : parse_digest (prefixed ++ encode_hex digest) prefixed ≡ ok digest
parse_digest-encode_hex_example = parse_digest-encode_hex prefixed digest refl (digest-IsByte 32)

parse_digest→eq_example : prefixed ++ encode_hex digest ≡ prefixed ++ encode_hex digest
parse_digest→eq_example =
    parse_digest→eq (prefixed ++ encode_hex digest) prefixed digest
      (parse_digest-encode_hex prefixed digest refl (digest-IsByte 32))

abbrev declared : List Text
declared = bytes "ab" ∷ bytes "c" ∷ []

canonical_tokens_bytes-injective_example : declared ≡ declared
canonical_tokens_bytes-injective_example =
    canonical_tokens_bytes-injective declared declared (omega arith, (omega arith, tt))
      (omega arith, (omega arith, tt)) refl

abbrev unordered : List DeclarationId
unordered = 5 ∷ 3 ∷ 9 ∷ []

checked-unordered : checked_ids unordered ≡ ok (3 ∷ 5 ∷ 9 ∷ [])
unfolding checked_ids first_duplicate sort insert member
checked-unordered = refl

checked_ids-ok_example :
    (unordered ≢ [])
    × Increasing (3 ∷ 5 ∷ 9 ∷ [])
    × ((d : DeclarationId) → count d (3 ∷ 5 ∷ 9 ∷ []) ≡ count d unordered)
checked_ids-ok_example = checked_ids-ok unordered (3 ∷ 5 ∷ 9 ∷ []) checked-unordered

abbrev twice : List DeclarationId
twice = 5 ∷ 3 ∷ 5 ∷ []

checked-twice : checked_ids twice ≡ err (duplicate 5)
unfolding checked_ids first_duplicate sort insert member
checked-twice = refl

checked_ids-err_example :
    ((twice ≡ []) × (duplicate 5 ≡ empty))
    ⊎ ((d : DeclarationId) × (duplicate 5 ≡ duplicate d) × (2 ≤ count d twice))
checked_ids-err_example = checked_ids-err twice (duplicate 5) checked-twice

read_exact-exact_text_example :
    read_exact true (exact_text (signed (negsuc (2 ^ 127 - 1))))
    ≡ ok (signed (negsuc (2 ^ 127 - 1)))
read_exact-exact_text_example = read_exact-exact_text (signed (negsuc (2 ^ 127 - 1))) (omega arith)

abbrev in_file : EntityKey
in_file = named ordinary (file 5) (bytes "x")

entity_input-injective_example : in_file ≡ in_file
entity_input-injective_example =
    entity_input-injective in_file in_file (refl, omega arith) (refl, omega arith) refl
