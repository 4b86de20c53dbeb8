-- ===== src/Preprocess/Lexer/Scan.antt =====
-- The scanning loops of src/preprocess/lexer.rs. Each returns the bytes that it passed over and
-- those that it left.
use parc.Prelude.{
  ℕ, Bool, false, ◌&&◌, ◌||◌, not, [], ◌∷◌, ◌==◌, leb, if◌then◌else◌, Option, none, some,
}
use parc.Prelude.Text.{Text}

pub record Cut : Type 0 where
  pub eaten : Text
  pub left : Text

-- The loop went on over `b`.
abbrev pub past : ℕ → Cut → Cut
past b c = record { eaten = b ∷ c.eaten; left = c.left }

abbrev pub stop : Text → Cut
stop bs = record { eaten = []; left = bs }

abbrev pub is_digit : ℕ → Bool
is_digit b = leb b'0' b && leb b b'9'

abbrev pub is_letter : ℕ → Bool
is_letter b = (leb b'a' b && leb b b'z') || (leb b'A' b && leb b b'Z')

abbrev pub is_horizontal : ℕ → Bool
is_horizontal b = b == b' ' || (b == 0x09 || (b == 0x0d || b == 0x0c))

unfoldable pub skip_horizontal_whitespace : Text → Cut
skip_horizontal_whitespace [] = stop []
skip_horizontal_whitespace (b ∷ bs) =
    let rest = past b (skip_horizontal_whitespace bs) in
    if is_horizontal b then rest else stop (b ∷ bs)

-- The loop of `skip_line_comment`, behind the two slashes.
unfoldable pub skip_line_comment : Text → Cut
skip_line_comment [] = stop []
skip_line_comment (b ∷ bs) =
    let rest = past b (skip_line_comment bs) in if not (b == 0x0a) then rest else stop (b ∷ bs)

-- The loop of `skip_block_comment`, behind `/*`. An unterminated comment takes the rest.
unfoldable pub skip_block_comment : Text → Cut
skip_block_comment [] = stop []
skip_block_comment (b ∷ []) = past b (stop [])
skip_block_comment (b ∷ c ∷ bs) =
    let rest = past b (skip_block_comment (c ∷ bs)) in
    if b == b'*' && c == b'/' then past b (past c (stop bs)) else rest

-- The loop of `lex_string_literal` and of `lex_char_literal`, behind the opening quote.
unfoldable pub lex_literal : ℕ → Text → Cut
lex_literal quote [] = stop []
lex_literal quote (b ∷ []) =
    if b == quote then past b (stop []) else if b == 0x0a then stop (b ∷ []) else past b (stop [])
lex_literal quote (b ∷ c ∷ bs) =
    let escaped = past b (past c (lex_literal quote bs)) in
    let rest = past b (lex_literal quote (c ∷ bs)) in
    if b == quote
    then past b (stop (c ∷ bs))
    else if b == 0x5c
    then escaped
    else if b == 0x0a
    then stop (b ∷ c ∷ bs)
    else rest

unfoldable pub lex_identifier : Text → Cut
lex_identifier [] = stop []
lex_identifier (b ∷ bs) =
    let rest = past b (lex_identifier bs) in
    if is_letter b || (is_digit b || b == b'_') then rest else stop (b ∷ bs)

-- `prev` is the byte before, if it belongs to the number: a sign continues a number behind an
-- exponent mark.
unfoldable pub lex_number : Option ℕ → Text → Cut
lex_number prev [] = stop []
lex_number prev (b ∷ bs) =
    let rest = past b (lex_number (some b) bs) in
    if is_digit b || (is_letter b || (b == b'_' || b == b'.'))
    then rest
    else if (b == b'+' || b == b'-') && is_exponent prev
    then rest
    else stop (b ∷ bs)
  where
    is_exponent : Option ℕ → Bool
    is_exponent none = false
    is_exponent (some e) = e == b'e' || (e == b'E' || (e == b'p' || e == b'P'))

-- The length of the operator or other byte `b` before `c` and `d`.
unfoldable pub operator_length : ℕ → Option ℕ → Option ℕ → ℕ
operator_length b none d = 1
operator_length b (some c) d =
    if (b == b'<' && c == b'<') || (b == b'>' && c == b'>')
    then (if is_equals d then 3 else 2)
    else if doubles && b == c
    then 2
    else if b == b'-' && c == b'>'
    then 2
    else if assigns && c == b'='
    then 2
    else 1
  where
    is_equals : Option ℕ → Bool
    is_equals none = false
    is_equals (some e) = e == b'='

    doubles : Bool
    doubles = b == b'=' || (b == b'&' || (b == b'|' || (b == b'+' || b == b'-')))

    assigns : Bool
    assigns =
        (b == b'=' || (b == b'!' || (b == b'<' || b == b'>')))
        || ((b == b'+' || (b == b'-' || (b == b'*' || b == b'/')))
            || (b == b'%' || (b == b'&' || (b == b'|' || b == b'^'))))
