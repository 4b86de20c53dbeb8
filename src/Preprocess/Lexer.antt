-- ===== src/Preprocess/Lexer.antt =====
-- src/preprocess/lexer.rs: the tokenizer. A lexer holds the input from `pos` on in place of the
-- whole input. A scanning loop returns what it passed over and what it left.
mod Scan
mod Splice
pub mod Lossless
unfoldable pub use Scan.*
unfoldable pub use Splice.*
use mathlib.Core.Option
use parc.Prelude.{
  ℕ, zero, suc, ◌+◌, Bool, true, false, ◌&&◌, ◌||◌, List, [], ◌∷◌, Option, none, some, ltb, ◌==◌,
  leb, if◌then◌else◌,
}
use parc.Prelude.Lists.{length}
use parc.Prelude.Text.{Text, bytes, from_utf8_or}
use parc.Preprocess.Token.{Token, TokenKind, tag}

pub record Lexer : Type 0 where
  pub rest : Text
  pub pos : ℕ
  pub at_line_start : Bool

abbrev pub new : Text → Lexer
new input = record { rest = input; pos = 0; at_line_start = true }

-- What `next_token` finds in front of it: the kind of the token, the fallback of its
-- `from_utf8`, the new `at_line_start` and where the token ends.
pub record Lexeme : Type 0 where
  pub kind : TokenKind
  pub fallback : Text
  pub line_start : Bool
  pub cut : Cut

abbrev lexeme : TokenKind → Text → Bool → Cut → Lexeme
lexeme k f l c = record { kind = k; fallback = f; line_start = l; cut = c }

-- `self.peek(1)` and `self.peek(2)`, with the current byte taken off.
abbrev pub peek1 : Text → Option ℕ
peek1 [] = none
peek1 (c ∷ _) = some c

abbrev pub peek2 : Text → Option ℕ
peek2 [] = none
peek2 (_ ∷ bs) = peek1 bs

abbrev pub peeks : Option ℕ → ℕ → Bool
peeks none b = false
peeks (some c) b = c == b

abbrev peeks_digit : Option ℕ → Bool
peeks_digit none = false
peeks_digit (some c) = is_digit c

-- Pass over the next byte, which the caller has looked at.
unfoldable pub skip : Text → (Text → Cut) → Cut
skip [] k = stop []
skip (b ∷ bs) k = past b (k bs)

-- The last arm: operators of one to three bytes, and any byte that starts nothing else.
unfoldable pub lex_operator : ℕ → Text → Cut
unfolding operator_length
lex_operator b bs =
    let n = operator_length b (peek1 bs) (peek2 bs) in
    past b (if n == 3 then skip bs (λ r. skip r stop) else if n == 2 then skip bs stop else stop bs)

-- The arms of the match in `next_token` on the byte `b` and what follows it, in their order.
unfoldable pub scan : Bool → ℕ → Text → Lexeme
scan line b bs =
    if b == 0x0a
    then lexeme TokenKind.newline (0x0a ∷ []) true (past b (stop bs))
    else if is_horizontal b
    then lexeme TokenKind.whitespace (bytes " ") line (past b (skip_horizontal_whitespace bs))
    else if b == b'/' && peeks (peek1 bs) b'/'
    then lexeme TokenKind.line_comment (bytes "//") line (past b (skip bs skip_line_comment))
    else if b == b'/' && peeks (peek1 bs) b'*'
    then lexeme TokenKind.block_comment (bytes "/**/") line (past b (skip bs skip_block_comment))
    else if b == b'#' && peeks (peek1 bs) b'#'
    then lexeme TokenKind.hash_hash (bytes "##") false (past b (skip bs stop))
    else if b == b'#' && line
    then lexeme TokenKind.hash (bytes "#") line (past b (stop bs))
    else if b == b'#'
    then lexeme TokenKind.hash (bytes "#") false (past b (stop bs))
    else if b == 0x22
    then lexeme TokenKind.string_literal (0x22 ∷ 0x22 ∷ []) false (past b (lex_literal 0x22 bs))
    else if b == 0x27
    then lexeme TokenKind.char_literal (bytes "''") false (past b (lex_literal 0x27 bs))
    else if prefixes && peeks (peek1 bs) 0x22
    then lexeme TokenKind.string_literal (0x22 ∷ 0x22 ∷ []) false
        (past b (skip bs (lex_literal 0x22)))
    else if prefixes && peeks (peek1 bs) 0x27
    then lexeme TokenKind.char_literal (bytes "''") false (past b (skip bs (lex_literal 0x27)))
    else if b == b'u' && (peeks (peek1 bs) b'8' && peeks (peek2 bs) 0x22)
    then lexeme TokenKind.string_literal (0x22 ∷ 0x22 ∷ []) false
        (past b (skip bs (λ r. skip r (lex_literal 0x22))))
    else if is_letter b || b == b'_'
    then lexeme TokenKind.ident [] false (past b (lex_identifier bs))
    else if is_digit b || (b == b'.' && peeks_digit (peek1 bs))
    then lexeme TokenKind.number [] false (past b (lex_number (some b) bs))
    else lexeme TokenKind.punct (bytes "?") false (lex_operator b bs)
  where
    prefixes : Bool
    prefixes = b == b'L' || (b == b'u' || b == b'U')

-- The token at `pos`, before the lexer moves to where the lexeme ends.
abbrev pub emit : Lexeme → ℕ → Token × Lexer
emit l pos = (
  record { kind = l.kind; text = from_utf8_or l.fallback l.cut.eaten; offset = pos },
  record { rest = l.cut.left; pos = pos + length l.cut.eaten; at_line_start = l.line_start },
)

abbrev next_from : Text → Lexer → Token × Lexer
next_from [] lx = (record { kind = TokenKind.eof; text = []; offset = lx.pos }, lx)
next_from (b ∷ bs) lx = emit (scan lx.at_line_start b bs) lx.pos

unfoldable pub next_token : Lexer → Token × Lexer
next_token lx = next_from lx.rest lx

-- The loop of `tokenize`, on fuel: a round for each byte at most, and one for the end.
unfoldable pub run : ℕ → Lexer → Option (List Token)
run zero lx = none
run (suc f) lx =
    let (t, lx') = next_token lx in
    let rest = Option.map (λ ts. t ∷ ts) (run f lx') in
    if tag t.kind == tag TokenKind.eof then some (t ∷ []) else rest

-- `Lexer::tokenize`
unfoldable pub tokenize : Text → Option (List Token)
unfolding run next_token scan
tokenize input = let spliced = splice_lines input in run (suc (length spliced)) (new spliced)
