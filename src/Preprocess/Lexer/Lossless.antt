-- ===== src/Preprocess/Lexer/Lossless.antt =====
-- The tokens of src/preprocess/lexer.rs as pieces of the spliced input.
use parc.Prelude.{
  ◌∙◌, ℕ, zero, suc, ◌+◌, ◌<◌, ◌≡◌, ◌≢◌, refl, sym, ap, Bool, true, List, [], ◌∷◌, ◌++◌, Option,
  some, ne→==, arith,
}
use parc.Prelude.Lists.{length, length-append}
use parc.Prelude.Text.{Text, IsAscii, IsAscii-append, from_utf8_or-ascii}
use parc.Preprocess.Token.{Token, TokenKind, tag}
use parc.Preprocess.Lexer.{
  Cut, stop, skip_horizontal_whitespace, skip_line_comment, skip_block_comment, lex_literal,
  lex_identifier, lex_number, lex_operator, Lexeme, scan, next_token, run, tokenize, emit,
  splice_lines, splice_lines-IsAscii, skip,
}

-- What a loop passed over and what it left is what it was given.
abbrev pub Splits : Cut → Text → Type 0
Splits c bs = c.eaten ++ c.left ≡ bs

skip_horizontal_whitespace-Splits : (bs : Text) → Splits (skip_horizontal_whitespace bs) bs
unfolding skip_horizontal_whitespace
skip_horizontal_whitespace-Splits [] = refl
skip_horizontal_whitespace-Splits (b ∷ bs) = ground (arith, skip_horizontal_whitespace-Splits bs)

skip_line_comment-Splits : (bs : Text) → Splits (skip_line_comment bs) bs
unfolding skip_line_comment
skip_line_comment-Splits [] = refl
skip_line_comment-Splits (b ∷ bs) = ground (arith, skip_line_comment-Splits bs)

skip_block_comment-Splits : (bs : Text) → Splits (skip_block_comment bs) bs
unfolding skip_block_comment
skip_block_comment-Splits [] = refl
skip_block_comment-Splits (b ∷ []) = refl
skip_block_comment-Splits (b ∷ c ∷ bs) = ground (arith, skip_block_comment-Splits (c ∷ bs))

lex_literal-Splits : (q : ℕ) (bs : Text) → Splits (lex_literal q bs) bs
unfolding lex_literal
lex_literal-Splits q [] = refl
lex_literal-Splits q (b ∷ []) = ground arith
lex_literal-Splits q (b ∷ c ∷ bs) =
    ground (arith, lex_literal-Splits q (c ∷ bs), lex_literal-Splits q bs)

lex_identifier-Splits : (bs : Text) → Splits (lex_identifier bs) bs
unfolding lex_identifier
lex_identifier-Splits [] = refl
lex_identifier-Splits (b ∷ bs) = ground (arith, lex_identifier-Splits bs)

lex_number-Splits : (prev : Option ℕ) (bs : Text) → Splits (lex_number prev bs) bs
unfolding lex_number
lex_number-Splits prev [] = refl
lex_number-Splits prev (b ∷ bs) = ground (arith, lex_number-Splits (some b) bs)

-- A lexeme is not empty, is no end of input, and splits what the lexer has in front of it.
abbrev IsPiece : ℕ → Text → Lexeme → Type 0
IsPiece b bs l = (tag l.kind ≢ tag TokenKind.eof) × (0 < length l.cut.eaten) × Splits l.cut (b ∷ bs)

skip-Splits : (bs : Text) (k : Text → Cut) → ((r : Text) → Splits (k r) r) → Splits (skip bs k) bs
unfolding skip
skip-Splits [] k h = refl
skip-Splits (c ∷ bs) k h = ap (λ t. c ∷ t) (h bs)

skip-stop-Splits : (bs : Text) → Splits (skip bs stop) bs
skip-stop-Splits bs = skip-Splits bs stop (λ _. refl)

lex_operator-Splits : (b : ℕ) (bs : Text) → Splits (lex_operator b bs) (b ∷ bs)
unfolding lex_operator
lex_operator-Splits b bs =
    ground (arith, skip-Splits bs (λ r. skip r stop) skip-stop-Splits, skip-stop-Splits bs)

scan-Splits : (line : Bool) (b : ℕ) (bs : Text) → Splits (scan line b bs).cut (b ∷ bs)
unfolding scan
scan-Splits line b bs = ground (
  arith,
  skip_horizontal_whitespace-Splits bs,
  skip-Splits bs skip_line_comment skip_line_comment-Splits,
  skip-Splits bs skip_block_comment skip_block_comment-Splits,
  skip-stop-Splits bs,
  lex_literal-Splits 0x22 bs,
  lex_literal-Splits 0x27 bs,
  skip-Splits bs (lex_literal 0x22) (lex_literal-Splits 0x22),
  skip-Splits bs (lex_literal 0x27) (lex_literal-Splits 0x27),
  skip-Splits bs (λ r. skip r (lex_literal 0x22))
      (λ r. skip-Splits r (lex_literal 0x22) (lex_literal-Splits 0x22)),
  lex_identifier-Splits bs,
  lex_number-Splits (some b) bs,
  lex_operator-Splits b bs,
)

-- A lexeme is not empty, and is no end of input.
scan_progress :
    (line : Bool) (b : ℕ) (bs : Text)
    → (0 < length (scan line b bs).cut.eaten) × (tag (scan line b bs).kind ≢ tag TokenKind.eof)
unfolding scan lex_operator
scan_progress line b bs = (ground arith, ground arith)

-- Tokens from `pos` on that cut a text into nonempty pieces, in order, each at its offset, and
-- end by the end of input. No other token is an end of input.
pub data Covers : ℕ → Text → List Token → Type 0 where
  finished :
      {pos : ℕ} → Covers pos [] (record { kind = TokenKind.eof; text = []; offset = pos } ∷ [])
  piece :
      {pos : ℕ} {input rest : Text} {t : Token} {ts : List Token}
      → tag t.kind ≢ tag TokenKind.eof
      → 0 < length t.text
      → (tag t.kind ≡ tag TokenKind.newline → t.text ≡ 0x0a ∷ [])
      → t.offset ≡ pos
      → input ≡ t.text ++ rest
      → Covers (pos + length t.text) rest ts
      → Covers pos input (t ∷ ts)

-- The lexeme of a newline is the one byte.
scan-newline :
    (line : Bool) (b : ℕ) (bs : Text)
    → tag (scan line b bs).kind ≡ tag TokenKind.newline
    → (scan line b bs).cut.eaten ≡ 0x0a ∷ []
unfolding scan
scan-newline line b bs h = ground arith

length-Splits : (c : Cut) (bs : Text) → Splits c bs → length c.left + length c.eaten ≡ length bs
length-Splits c bs h = omega (arith, ap length h, length-append c.eaten c.left)

-- One round of the loop: the token covers what the lexer passed over, the next lexer has less.
run-Covers :
    (f : ℕ) (rest : Text) (pos : ℕ) (line : Bool)
    → length rest < f
    → IsAscii rest
    → (ts : List Token) × (run f (record { rest = rest; pos = pos; at_line_start = line })
        ≡ some ts)
      × Covers pos rest ts
unfolding run next_token
run-Covers zero rest pos line h a = absurd (omega arith)
run-Covers (suc f) [] pos line h a = (_, refl, finished)
run-Covers (suc f) (b ∷ bs) pos line h a =
    let l = scan line b bs in
    let s = scan-Splits line b bs in
    let (pos_eaten, kind) = scan_progress line b bs in
    let (ae, al) = IsAscii-append l.cut.eaten l.cut.left (rw s a) in
    let text = from_utf8_or-ascii l.fallback l.cut.eaten ae in
    let (ts, e, c) =
      run-Covers f l.cut.left (pos + length l.cut.eaten) l.line_start
        (omega (arith, length-Splits l.cut (b ∷ bs) s)) al in
    (
      (emit l pos).0 ∷ ts,
      rw (ne→== kind, e),
      piece {rest = l.cut.left} kind (rw text pos_eaten) (λ n. text ∙ scan-newline line b bs n) refl
          (rw text (sym s)) (rw text c),
    )

-- An ASCII input is cut into tokens without a gap: the fuel of `tokenize` is enough, and the texts
-- of the tokens, none of them empty, make up the spliced input in order, each at its offset, up to
-- the end of input, which comes last and only there.
pub tokenize-Covers :
    (input : Text)
    → IsAscii input
    → (ts : List Token) × (tokenize input ≡ some ts) × Covers 0 (splice_lines input) ts
unfolding tokenize
tokenize-Covers input a =
    run-Covers (suc (length (splice_lines input))) (splice_lines input) 0 true (omega arith)
      (splice_lines-IsAscii input a)

-- Whether the lexer stands at the start of a line changes no token, `#` included.
pub next_token-at_line_start :
    (rest : Text) (pos : ℕ) (line : Bool)
    → (next_token (record { rest = rest; pos = pos; at_line_start = line })).0
      ≡ (next_token (record { rest = rest; pos = pos; at_line_start = true })).0
unfolding next_token scan
next_token-at_line_start [] pos line = refl
next_token-at_line_start (b ∷ bs) pos line = ground arith
