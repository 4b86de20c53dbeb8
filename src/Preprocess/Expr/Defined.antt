-- ===== src/Preprocess/Expr/Defined.antt =====
-- `expand_for_condition` of src/preprocess/expr.rs: the operator `defined` before the expansion of
-- macros, and 0 for the identifiers that are left.
use parc.Prelude.{ℕ, zero, suc, ◌&&◌, List, [], ◌∷◌, ◌++◌, map, if◌then◌else◌}
use parc.Prelude.Lists.{length}
use parc.Prelude.Result.{Result, ok, out_of_fuel, ◌>>=◌}
use parc.Prelude.Text.{bytes, text_eq}
use parc.Preprocess.Token.{Token, TokenKind, is_kind}
use parc.Preprocess.Directive.{skip_whitespace}
use parc.Preprocess.Macros.{MacroTable, is_defined, expand}

-- The number that stands for `defined name`.
abbrev pub defined_token : MacroTable → Token → Token
defined_token table t = record {
  kind = TokenKind.number;
  text = if is_defined t.text table then bytes "1" else bytes "0";
  offset = t.offset;
}

-- What a use of `defined` puts in its place, and where the scan goes on.
abbrev pub Replaced : Type 0
Replaced = List Token × List Token

abbrev pub past_close : List Token → List Token
past_close [] = []
past_close (t ∷ rest) = if text_eq t.text (bytes ")") then rest else t ∷ rest

abbrev pub in_parentheses : MacroTable → List Token → Replaced
in_parentheses table [] = ([], [])
in_parentheses table (t ∷ rest) =
    if is_kind t TokenKind.ident
    then (defined_token table t ∷ [], past_close (skip_whitespace rest))
    else ([], t ∷ rest)

abbrev pub operand : MacroTable → List Token → Replaced
operand table [] = ([], [])
operand table (t ∷ rest) =
    if text_eq t.text (bytes "(")
    then in_parentheses table (skip_whitespace rest)
    else if is_kind t TokenKind.ident
    then (defined_token table t ∷ [], rest)
    else ([], t ∷ rest)

unfoldable pub defined_round : MacroTable → Token → List Token → Replaced
unfolding skip_whitespace is_defined
defined_round table t rest =
    if is_kind t TokenKind.ident && text_eq t.text (bytes "defined")
    then operand table (skip_whitespace rest)
    else (t ∷ [], rest)

-- The loop over the tokens, on fuel.
unfoldable pub replace_defined : MacroTable → ℕ → List Token → Result (List Token)
unfolding defined_round
replace_defined table zero ts = out_of_fuel
replace_defined table (suc f) [] = ok []
replace_defined table (suc f) (t ∷ rest) =
    let (put, rest') = defined_round table t rest in
    replace_defined table f rest' >>= λ r. ok (put ++ r)

abbrev zero_ident : Token → Token
zero_ident t =
    if is_kind t TokenKind.ident then record t { kind = TokenKind.number; text = bytes "0" } else t

unfoldable pub expand_for_condition : MacroTable → List Token → Result (List Token)
unfolding replace_defined
expand_for_condition table tokens = replace_defined table (suc (length tokens)) tokens >>= λ ts.
    expand table ts >>= λ expanded. ok (map zero_ident expanded)
