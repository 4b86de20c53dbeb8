-- ===== src/Preprocess/Tests.antt =====
-- The definitions of src/preprocess run on small inputs, and the theorems at such inputs.
use parc.Prelude.{
  ℕ, ◌↔◌, ◌≡◌, ◌≢◌, refl, true, false, List, [], ◌∷◌, ◌++◌, map, Option, none, some, arith,
  if◌then◌else◌,
}
use parc.Prelude.Lists.{drop}
use parc.Prelude.Result.{Result, ok, out_of_fuel, ◌>>=◌}
use parc.Prelude.Text.{Text, bytes, text_eq, IsAscii}
use parc.Preprocess.Token.{Token, TokenKind}
use parc.Prelude.Text.{from_utf8_or, utf8_from, utf8_step}
use parc.Prelude.Parse.{parse_i128, digits_value}
use parc.Preprocess.Lexer
use parc.Preprocess.Lexer.{
  tokenize, splice_lines, next_token, scan, push_char, skip_horizontal_whitespace, lex_identifier,
  lex_number, lex_operator, operator_length, skip,
}
use parc.Preprocess.Lexer.Lossless.{Covers, tokenize-Covers, next_token-at_line_start}
use parc.Preprocess.Lexer.{splice_lines-id_iff}
use parc.Preprocess.Directive.{
  else_, parse_directive, parse_define, strip_whitespace_edges, strip_whitespace_end,
  skip_whitespace,
}
use parc.Preprocess.Directive.Total.{is_well_formed}
use parc.Preprocess.Directive.ParamLoop.{ends, Hangs, parse_define-diverges_iff}
use parc.Preprocess.Macros
use parc.Preprocess.Macros.{
  MacroDef, MacroTable, expand, expand_with_paint, get, define, undef, substitute_fn_macro,
  collect_macro_args, drop_empty, is_defined, lookup, ident_tokens, position, expand_loop, step,
  contains, len, without,
}
use parc.Preprocess.Macros.Table.{get-define, get-undef}
use parc.Preprocess.Macros.Total.{expand-Returns}
use parc.Preprocess.Macros.ArgLaws.{invocation, collect_macro_args-invocation}
use parc.Preprocess.Macros.Inert.{expand-IsInert}
use parc.Preprocess.Macros.Pasting.{pasting, paste-empty_left}
use parc.Preprocess.Expr.{
  eval_condition, expand_for_condition, replace_defined, defined_round, evaluate, ternary,
  logical_or, level, operators, unary, primary, advance, peek_text, parse_integer, trim_suffix,
  overflowing,
}
use parc.Preprocess.Expr.Total.{eval_condition-ends}
use parc.Preprocess.Processor.{
  preprocess, tokens_to_text, World, State, CondState, no_includes, initial, opened, process_loop,
  process_inner, split_line, apply_directive, last_branch, plain_token, apply_active, test_if,
}
use parc.Preprocess.Processor.Events.{Event, plain, directive, events, run, process_loop-run}
use parc.Preprocess.Processor.Nesting.{Nested, process_loop-Nested}
use parc.Preprocess.Processor.Groups.{
  Group, nil, token, cond, otherwise, on_ifdef, flatten, meaning, run-flatten, run-flatten_inactive,
}
use parc.Preprocess.Processor.Total.{AreWellFormed, process_inner-ends}
use parc.Preprocess.Processor.Verbatim.{preprocess-IsPlain}

abbrev lines : Text
lines =
    bytes "#define A 2"
    ++ 0x0a ∷ bytes "#if A*3 == 6 && !defined B"
    ++ 0x0a ∷ bytes "x A"
    ++ 0x0a ∷ bytes "#else"
    ++ 0x0a ∷ bytes "y"
    ++ 0x0a ∷ bytes "#endif"
    ++ 0x0a ∷ []

abbrev tokens_of : Option (List Token) → List Token
tokens_of none = []
tokens_of (some ts) = ts

abbrev texts_of : Result World → List Text
texts_of (ok w) = map (λ (t : Token). t.text) w.tokens
texts_of _ = []

abbrev tok : TokenKind → Text → Token
tok k t = record { kind = k; text = t; offset = 0 }

abbrev word : Text → Token
word t = tok TokenKind.ident t

abbrev mark : Text → Token
mark t = tok TokenKind.punct t

-- A macro that names itself.
abbrev knot : MacroDef
knot = record {
  name = bytes "A";
  params = none;
  is_variadic = false;
  body = mark (bytes "+") ∷ word (bytes "A") ∷ [];
}

abbrev knots : MacroTable
knots = record { macros = knot ∷ [] }

abbrev sample : Group
sample =
    cond 0 (on_ifdef (bytes "A")) (token (word (bytes "x")) nil)
      (otherwise 5 (token (word (bytes "y")) nil) 9) nil

abbrev start : State
start = initial knots

abbrev dead : State
dead = record start { cond_stack = opened true false ∷ [] }

-- A line `#else`, and a word.
abbrev line_else : List Token
line_else =
    tok TokenKind.hash (bytes "#")
    ∷ word (bytes "else")
    ∷ tok TokenKind.newline (0x0a ∷ [])
    ∷ word (bytes "x")
    ∷ []

abbrev events_else : List Event
events_else = directive 0 else_ ∷ plain (word (bytes "x")) ∷ []

run-flatten_example : run true no_includes (flatten sample ++ events_else) start ≡ (
    meaning true no_includes sample start.world >>= λ w.
    run true no_includes events_else (record start { world = w }))
run-flatten_example = run-flatten true no_includes sample events_else start refl

run-flatten_inactive_example :
    run true no_includes (flatten sample ++ events_else) dead
    ≡ run true no_includes events_else dead
run-flatten_inactive_example = run-flatten_inactive true no_includes sample events_else dead refl

events-line_else : events 5 line_else ≡ ok events_else
unfolding events split_line parse_directive skip_whitespace
events-line_else = refl

process_loop-run_example :
    process_loop true no_includes 5 line_else dead ≡ run true no_includes events_else dead
process_loop-run_example =
    process_loop-run true no_includes 5 line_else events_else dead events-line_else

-- `#else` in the only branch of a conditional that was not taken.
abbrev skipped : CondState
skipped = opened true false

abbrev finished : State
finished = record {
  world = record start.world { tokens = word (bytes "x") ∷ [] };
  cond_stack = record skipped { active = true; any_taken = true } ∷ [];
}

loop-line_else : process_loop true no_includes 5 line_else dead ≡ ok finished
unfolding process_loop split_line parse_directive skip_whitespace apply_directive last_branch
    plain_token
loop-line_else = refl

process_loop-Nested_example : Nested finished
process_loop-Nested_example =
    process_loop-Nested true no_includes 5 line_else dead finished (refl, λ e. cc, tt)
      loop-line_else

-- A line `#define F(a, b)`, and a word.
abbrev function_line : List Token
function_line =
    tok TokenKind.hash (bytes "#")
    ∷ word (bytes "define")
    ∷ tok TokenKind.whitespace (bytes " ")
    ∷ word (bytes "F")
    ∷ mark (bytes "(")
    ∷ word (bytes "a")
    ∷ mark (bytes ",")
    ∷ word (bytes "b")
    ∷ mark (bytes ")")
    ∷ tok TokenKind.newline (0x0a ∷ [])
    ∷ word (bytes "x")
    ∷ []

function_line-AreWellFormed : AreWellFormed false function_line
unfolding is_well_formed skip_whitespace
function_line-AreWellFormed = (refl, (refl, tt))

process_inner-ends_example : process_inner true no_includes function_line knots ≢ out_of_fuel
process_inner-ends_example =
    process_inner-ends true no_includes function_line knots function_line-AreWellFormed

expand-Returns_example : (r : List Token) × (expand knots (word (bytes "A") ∷ []) ≡ ok r)
expand-Returns_example = expand-Returns knots (word (bytes "A") ∷ [])

-- `(f(x, y), z)` behind the name of a macro, in front of `;`.
abbrev arg_f : List Token
arg_f =
    word (bytes "f")
    ∷ mark (bytes "(")
    ∷ word (bytes "x")
    ∷ mark (bytes ",")
    ∷ word (bytes "y")
    ∷ mark (bytes ")")
    ∷ []

abbrev arg_z : List Token
arg_z = tok TokenKind.whitespace (bytes " ") ∷ word (bytes "z") ∷ []

collect_macro_args-invocation_example :
    collect_macro_args (
      mark (bytes "(")
      ∷ invocation (mark (bytes ",")) (mark (bytes ")")) arg_f (arg_z ∷ []) (mark (bytes ";") ∷ []))
    ≡ some (drop_empty (map strip_whitespace_edges (arg_f ∷ arg_z ∷ [])), mark (bytes ";") ∷ [])
collect_macro_args-invocation_example =
    collect_macro_args-invocation (mark (bytes "(")) (mark (bytes ",")) (mark (bytes ")")) arg_f
      (arg_z ∷ []) (mark (bytes ";") ∷ []) refl refl refl refl (omega arith, (omega arith, refl))
      (refl, tt)

undefined-z : is_defined (bytes "z") knots ≡ false
unfolding is_defined get lookup
undefined-z = refl

expand-IsInert_example : expand knots arg_z ≡ ok arg_z
expand-IsInert_example = expand-IsInert knots arg_z (refl, (undefined-z, tt))

get-define_example :
    get (bytes "A") (define knot Macros.new)
    ≡ (if text_eq (bytes "A") (bytes "A") then some knot else get (bytes "A") Macros.new)
get-define_example = get-define knot Macros.new (bytes "A")

get-undef_example :
    get (bytes "A") (undef (bytes "A") knots)
    ≡ (if text_eq (bytes "A") (bytes "A") then none else get (bytes "A") knots)
get-undef_example = get-undef (bytes "A") knots (bytes "A")

-- `#define P(a, b) a ## b`
abbrev paste_line : Text
paste_line = bytes "#define P(a, b) a ## b"

abbrev at : ℕ → TokenKind → Text → Token
at o k t = record { kind = k; text = t; offset = o }

abbrev white_at : ℕ → List Token
white_at o = at o TokenKind.whitespace (bytes " ") ∷ []

abbrev paste_macro : MacroDef
paste_macro = record {
  name = bytes "P";
  params = some (bytes "a" ∷ bytes "b" ∷ []);
  is_variadic = false;
  body =
      pasting (at 16 TokenKind.ident (bytes "a")) (white_at 17)
        (at 18 TokenKind.hash_hash (bytes "##")) (white_at 20) (at 21 TokenKind.ident (bytes "b"))
        [];
}

empty_a :
    ident_tokens
      (bytes "a" ∷ bytes "b" ∷ [])
      false
      ([] ∷ (word (bytes "x") ∷ []) ∷ [])
      (at 16 TokenKind.ident (bytes "a"))
    ≡ []
unfolding ident_tokens position
empty_a = refl

paste-empty_left_example :
    substitute_fn_macro paste_macro ([] ∷ (word (bytes "x") ∷ []) ∷ [])
    ≡ substitute_fn_macro (record paste_macro { body = [] }) ([] ∷ (word (bytes "x") ∷ []) ∷ [])
paste-empty_left_example =
    paste-empty_left paste_macro (bytes "a" ∷ bytes "b" ∷ []) ([] ∷ (word (bytes "x") ∷ []) ∷ [])
      (at 16 TokenKind.ident (bytes "a")) (at 18 TokenKind.hash_hash (bytes "##"))
      (at 21 TokenKind.ident (bytes "b")) (white_at 17) (white_at 20) [] refl refl refl empty_a
      (refl, tt) refl (refl, tt) refl

-- The body is the one of the line, up to the end of the input.
paste_line-body :
    drop 11 (tokens_of (tokenize paste_line)) ≡ paste_macro.body ++ at 22 TokenKind.eof [] ∷ []
unfolding tokenize Lexer.run next_token scan splice_lines push_char skip_horizontal_whitespace
    lex_identifier lex_number lex_operator operator_length skip from_utf8_or utf8_from utf8_step
paste_line-body = refl

-- `#if A`, where the macro names itself.
eval_condition-ends_example : eval_condition true knots (word (bytes "A") ∷ []) ≢ out_of_fuel
eval_condition-ends_example = eval_condition-ends true knots (word (bytes "A") ∷ [])

-- `#define F(1)`
abbrev number_list : List Token
number_list = tok TokenKind.number (bytes "1") ∷ mark (bytes ")") ∷ []

parse_define-diverges_iff_example :
    (Hangs number_list ↔ (ends number_list ≡ false))
    × ((parse_define (word (bytes "F") ∷ mark (bytes "(") ∷ number_list) ≡ out_of_fuel)
        ↔ (ends number_list ≡ false))
parse_define-diverges_iff_example =
    parse_define-diverges_iff (word (bytes "F")) (mark (bytes "(")) number_list refl refl refl

abbrev spliced_line : Text
spliced_line = bytes "a" ++ 0x5c ∷ 0x0a ∷ bytes "+=2"

tokenize-Covers_example :
    (ts : List Token) × (tokenize spliced_line ≡ some ts) × Covers 0 (splice_lines spliced_line) ts
tokenize-Covers_example =
    tokenize-Covers spliced_line
      (omega arith, (omega arith, (omega arith, (omega arith, (omega arith, (omega arith, tt))))))

next_token-at_line_start_example :
    (next_token (record { rest = bytes "#if"; pos = 7; at_line_start = false })).0
    ≡ (next_token (record { rest = bytes "#if"; pos = 7; at_line_start = true })).0
next_token-at_line_start_example = next_token-at_line_start (bytes "#if") 7 false

-- The two bytes of `é`.
abbrev e_acute : Text
e_acute = 0xc3 ∷ 0xa9 ∷ []

splice_lines-id_iff_example : (splice_lines e_acute ≡ e_acute) ↔ IsAscii e_acute
splice_lines-id_iff_example = splice_lines-id_iff e_acute refl

-- The output of the whole pipeline.
lines_output :
    texts_of (process_inner true no_includes (tokens_of (tokenize lines)) Macros.new)
    ≡ bytes "x" ∷ bytes " " ∷ bytes "2" ∷ (0x0a ∷ []) ∷ [] ∷ []
unfolding tokenize Lexer.run next_token scan splice_lines push_char skip_horizontal_whitespace
    lex_identifier lex_number lex_operator operator_length skip from_utf8_or utf8_from utf8_step
    process_inner process_loop split_line parse_directive parse_define skip_whitespace
    strip_whitespace_edges strip_whitespace_end apply_directive apply_active last_branch plain_token
    test_if eval_condition expand_for_condition replace_defined defined_round expand
    expand_with_paint expand_loop step contains len get lookup is_defined define without evaluate
    ternary logical_or level operators unary primary advance peek_text parse_integer trim_suffix
    parse_i128 digits_value overflowing
lines_output = refl

abbrev spliced_tokens : List Token
spliced_tokens =
    record { kind = TokenKind.ident; text = bytes "a"; offset = 0 }
    ∷ record { kind = TokenKind.punct; text = bytes "+="; offset = 1 }
    ∷ record { kind = TokenKind.number; text = bytes "2"; offset = 3 }
    ∷ record { kind = TokenKind.eof; text = []; offset = 4 }
    ∷ []

tokenize-spliced_line : tokenize spliced_line ≡ some spliced_tokens
unfolding tokenize Lexer.run next_token scan splice_lines push_char lex_identifier lex_number
    lex_operator operator_length skip from_utf8_or utf8_from utf8_step
tokenize-spliced_line = refl

preprocess-IsPlain_example :
    (w : World) × (preprocess true spliced_line ≡ ok w)
    × (tokens_to_text w.tokens ≡ splice_lines spliced_line)
preprocess-IsPlain_example =
    preprocess-IsPlain true spliced_line spliced_tokens
      (omega arith, (omega arith, (omega arith, (omega arith, (omega arith, (omega arith, tt))))))
      tokenize-spliced_line
      ((refl, refl, refl), ((refl, refl, refl), ((refl, refl, refl), ((refl, refl, refl), tt))))
