-- ===== src/Contract/Integer.antt =====
-- src/contract/exact_integer.rs: the text of an exact integer, without the serde formats around it.
pub mod Printed
use parc.Prelude.{
  ℕ, suc, ◌≡◌, Bool, true, false, not, ◌||◌, ◌&&◌, List, [], ◌∷◌, Option, none, some, ◌==◌, leb,
  ◌^◌, ◌-◌, if◌then◌else◌,
}
use parc.Prelude.Lists.{length, all}
use parc.Prelude.Int.{ℤ, pos, negsuc}
use parc.Prelude.Parse.{parse_i128, parse_unsigned}
use parc.Prelude.Text.{Text, bytes, starts_with}
use parc.Prelude.Decimal.{decimal}
use parc.Contract.Checked.{Checked, ok, err, ◌>>=◌}
use parc.Contract.Declarations.{ExactInteger, signed, unsigned}

-- `signed_decimal::serialize`: `i128::to_string`
unfoldable pub signed_text : ℤ → Text
unfolding decimal
signed_text (pos n) = decimal n
signed_text (negsuc n) = b'-' ∷ decimal (suc n)

-- `unsigned_decimal::serialize`
unfoldable pub unsigned_text : ℕ → Text
unfolding decimal
unsigned_text n = decimal n

abbrev pub is_ascii_digit : ℕ → Bool
is_ascii_digit b = leb b'0' b && leb b b'9'

-- A byte at the index 0 may be a sign.
abbrev pub digits_after : Bool → Text → Bool
digits_after sign [] = true
digits_after sign (b ∷ bs) = (is_ascii_digit b || (sign && b == b'-')) && all is_ascii_digit bs

abbrev is_empty : Text → Bool
is_empty [] = true
is_empty (_ ∷ _) = false

unfoldable pub validate_decimal : Text → Bool → Bool
validate_decimal value sign =
    if is_empty value
      || (starts_with value (bytes "+")
          || ((starts_with value (bytes "0") && not (length value == 1))
              || starts_with value (bytes "-0")))
    then false
    else digits_after sign value

pub data DecimalError : Type 0 where
  not_canonical out_of_range : DecimalError

abbrev pub parsed {ℓ} : {A : Type ℓ} → Option A → Checked DecimalError A
parsed none = err out_of_range
parsed (some a) = ok a

-- `signed_decimal::deserialize`
unfoldable pub read_signed : Text → Checked DecimalError ℤ
unfolding validate_decimal parse_i128
read_signed value =
    if validate_decimal value true then parsed (parse_i128 10 value) else err not_canonical

-- `unsigned_decimal::deserialize`
unfoldable pub read_unsigned : Text → Checked DecimalError ℕ
unfolding validate_decimal parse_unsigned
read_unsigned value =
    if validate_decimal value false
    then parsed (parse_unsigned (2 ^ 128 - 1) 10 value)
    else err not_canonical

-- The tag `sign` of the serialized value tells the two kinds apart.
abbrev pub is_signed : ExactInteger → Bool
is_signed (signed _) = true
is_signed (unsigned _) = false

unfoldable pub exact_text : ExactInteger → Text
unfolding signed_text unsigned_text
exact_text (signed z) = signed_text z
exact_text (unsigned n) = unsigned_text n

unfoldable pub read_exact : Bool → Text → Checked DecimalError ExactInteger
unfolding read_signed read_unsigned
read_exact true value = read_signed value >>= λ z. ok (signed z)
read_exact false value = read_unsigned value >>= λ n. ok (unsigned n)
