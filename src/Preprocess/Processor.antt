-- ===== src/Preprocess/Processor.antt =====
-- src/preprocess/processor.rs: conditional compilation and the state that the directives change.
-- `include_handler` is the caller's closure, and `checks` as in `Expr`.
mod Apply
pub mod Events
pub mod Nesting
pub mod Groups
pub mod Total
pub mod Verbatim
unfoldable pub use Apply.*
use parc.Prelude.{
  ℕ, zero, suc, Bool, true, false, ◌||◌, List, [], ◌∷◌, ◌++◌, Option, none, some, if◌then◌else◌,
}
use parc.Prelude.Lists.{length}
use parc.Prelude.Result.{Result, ok, panic, out_of_fuel, ◌>>=◌}
use parc.Prelude.Text.{Text, bytes}
use parc.Preprocess.Token.{Token, TokenKind, is_kind}
use parc.Preprocess.Directive.{Directive, parse_directive}
use parc.Preprocess.Lexer.{tokenize}
use parc.Preprocess.Macros
use parc.Preprocess.Macros.{MacroTable, expand}

-- The tokens of a line up to its newline, and those behind the newline.
unfoldable pub split_line : List Token → List Token × List Token
split_line [] = ([], [])
split_line (t ∷ rest) =
    let (line, behind) = split_line rest in
    if is_kind t TokenKind.newline then ([], rest) else (t ∷ line, behind)

-- What an active branch puts out for a token that is no directive.
abbrev pub emitted : Token → List Token
emitted t =
    if is_kind t TokenKind.line_comment || is_kind t TokenKind.block_comment
    then []
    else if is_kind t TokenKind.newline
    then record { kind = TokenKind.whitespace; text = 0x0a ∷ []; offset = t.offset } ∷ []
    else t ∷ []

unfoldable pub plain_token : Token → State → State
plain_token t s = if is_active s then record s { world = push_tokens (emitted t) s.world } else s

module _ (checks : Bool) (include_handler : Handler) where
  -- The loop of `process_inner`, on fuel: a directive takes its line, any other token itself.
  unfoldable pub process_loop : ℕ → List Token → State → Result State
  process_loop zero ts s = out_of_fuel
  process_loop (suc f) [] s = ok s
  process_loop (suc f) (t ∷ rest) s =
      let (line, behind) = split_line rest in
      let directive = parse_directive line >>= λ d.
      apply_directive checks include_handler t.offset d s >>= λ s'. process_loop f behind s' in
      let plain = process_loop f rest (plain_token t s) in
      if is_kind t TokenKind.hash then directive else plain

  -- `process_inner`: the output tokens are expanded at the end, by the table as it is then.
  unfoldable pub process_inner : List Token → MacroTable → Result World
  process_inner tokens table = process_loop (suc (length tokens)) tokens (initial table) >>= λ s.
      expand s.world.macros s.world.tokens >>= λ ts. ok (record s.world { tokens = ts })

-- `tokens_to_text`
unfoldable pub tokens_to_text : List Token → Text
tokens_to_text [] = []
tokens_to_text (t ∷ ts) = t.text ++ tokens_to_text ts

abbrev process_tokens : Bool → Option (List Token) → Result World
process_tokens checks none = out_of_fuel
process_tokens checks (some tokens) = process_inner checks no_includes tokens Macros.new

-- `preprocess`
unfoldable pub preprocess : Bool → Text → Result World
unfolding process_inner
preprocess checks source = process_tokens checks (tokenize source)
