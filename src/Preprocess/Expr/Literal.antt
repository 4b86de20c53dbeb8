-- ===== src/Preprocess/Expr/Literal.antt =====
-- `parse_integer` and `parse_char_constant` of src/preprocess/expr.rs.
use parc.Prelude.{
  ℕ, ◌+◌, ◌*◌, ◌%◌, Bool, ◌&&◌, ◌||◌, [], ◌∷◌, Option, none, some, leb, ltb, ◌==◌, if◌then◌else◌,
}
use parc.Prelude.Int.{ℤ, pos}
use parc.Prelude.Lists.{length, drop, all}
use parc.Prelude.Parse.{parse_i128}
use parc.Prelude.Result.{Result, ok, ◌>>=◌}
use parc.Prelude.Text.{Text, bytes, starts_with}
use parc.Preprocess.Directive.{unquote}

abbrev is_suffix : ℕ → Bool
is_suffix b = b == b'u' || (b == b'U' || (b == b'l' || b == b'L'))

abbrev keep_unless_suffix : ℕ → Text → Text
keep_unless_suffix b [] = if is_suffix b then [] else b ∷ []
keep_unless_suffix b (c ∷ cs) = b ∷ c ∷ cs

-- `trim_end_matches(['u', 'U', 'l', 'L'])`
unfoldable pub trim_suffix : Text → Text
trim_suffix [] = []
trim_suffix (b ∷ bs) = keep_unless_suffix b (trim_suffix bs)

abbrev or_zero : Option ℤ → ℤ
or_zero none = pos 0
or_zero (some z) = z

abbrev pub is_ascii_digit : ℕ → Bool
is_ascii_digit b = leb b'0' b && leb b b'9'

abbrev integer_of : Text → ℤ
integer_of s =
    if starts_with s (bytes "0x") || starts_with s (bytes "0X")
    then or_zero (parse_i128 16 (drop 2 s))
    else if starts_with s (bytes "0b") || starts_with s (bytes "0B")
    then or_zero (parse_i128 2 (drop 2 s))
    else if starts_with s (bytes "0") && (ltb 1 (length s) && all is_ascii_digit s)
    then or_zero (parse_i128 8 (drop 1 s))
    else or_zero (parse_i128 10 s)

unfoldable pub parse_integer : Text → ℤ
unfolding trim_suffix parse_i128
parse_integer s = integer_of (trim_suffix s)

-- The code point in front of a text, and what follows it, by the lead byte.
abbrev pub next_char : Text → Option (ℕ × Text)
next_char [] = none
next_char (a ∷ []) = some (a, [])
next_char (a ∷ b ∷ []) = if ltb a 0x80 then some (a, b ∷ []) else some ((a % 32) * 64 + b % 64, [])
next_char (a ∷ b ∷ c ∷ []) =
    if ltb a 0x80
    then some (a, b ∷ c ∷ [])
    else if ltb a 0xe0
    then some ((a % 32) * 64 + b % 64, c ∷ [])
    else some (((a % 16) * 64 + b % 64) * 64 + c % 64, [])
next_char (a ∷ b ∷ c ∷ d ∷ r) =
    if ltb a 0x80
    then some (a, b ∷ c ∷ d ∷ r)
    else if ltb a 0xe0
    then some ((a % 32) * 64 + b % 64, c ∷ d ∷ r)
    else if ltb a 0xf0
    then some (((a % 16) * 64 + b % 64) * 64 + c % 64, d ∷ r)
    else some ((((a % 8) * 64 + b % 64) * 64 + c % 64) * 64 + d % 64, r)

abbrev escape_value : Option (ℕ × Text) → ℕ
escape_value none = 0
escape_value (some (c, _)) =
    if c == b'n'
    then 10
    else if c == b't'
    then 9
    else if c == b'r'
    then 13
    else if c == b'0'
    then 0
    else c

abbrev char_value : Option (ℕ × Text) → ℕ
char_value none = 0
char_value (some (c, rest)) = if c == 0x5c then escape_value (next_char rest) else c

unfoldable pub parse_char_constant : Text → Result ℤ
unfolding unquote
parse_char_constant s = unquote s >>= λ inner. ok (pos (char_value (next_char inner)))
