-- ===== src/Preprocess/Expr.antt =====
-- src/preprocess/expr.rs: the condition of `#if` and `#elif`. `checks` tells whether the build checks
-- arithmetic for overflow.
mod Int128
mod Literal
mod Defined
pub mod Total
pub mod Condition
pub mod Levels
pub mod Places
pub mod Printed
mod Tests
unfoldable pub use Int128.*
unfoldable pub use Literal.*
unfoldable pub use Defined.*
use parc.Prelude.{
  ℕ, zero, suc, Bool, true, false, not, ◌&&◌, ◌||◌, List, [], ◌∷◌, Option, none, some,
  if◌then◌else◌,
}
use parc.Prelude.Int.{ℤ, pos, eqb, ltb_ℤ}
use parc.Prelude.Lists.{length}
use parc.Prelude.Result.{Result, ok, panic, out_of_fuel, ◌>>=◌}
use parc.Prelude.Text.{Text, bytes, text_eq}
use parc.Preprocess.Token.{Token, TokenKind, is_kind}
use parc.Preprocess.Directive.{skip_whitespace}
use parc.Preprocess.Macros.{MacroTable}

-- A method of `ExprParser`: it reads a value from the tokens that are left.
abbrev pub Parser : Type 0
Parser = List Token → Result (ℤ × List Token)

abbrev tail : List Token → List Token
tail [] = []
tail (_ ∷ ts) = ts

-- `advance` passes over the white space and the token behind it.
unfoldable pub advance : List Token → List Token
unfolding skip_whitespace
advance ts = tail (skip_whitespace ts)

abbrev text_of : List Token → Text
text_of [] = []
text_of (t ∷ _) = t.text

unfoldable pub peek_text : List Token → Text
unfolding skip_whitespace
peek_text ts = text_of (skip_whitespace ts)

abbrev pub peeks : List Token → Text → Bool
peeks ts s = text_eq (peek_text ts) s

-- What an operator does with the value so far and the operand behind it.
abbrev pub Operator : Type 0
Operator = ℤ → ℤ → Result ℤ

abbrev pub truth : Bool → Result ℤ
truth b = ok (if b then pos 1 else pos 0)

abbrev pub nonzero : ℤ → Bool
nonzero z = not (eqb z (pos 0))

abbrev pub or_operator : Text → Option Operator
or_operator s =
    if text_eq s (bytes "||") then some (λ a b. truth (nonzero a || nonzero b)) else none

abbrev pub and_operator : Text → Option Operator
and_operator s =
    if text_eq s (bytes "&&") then some (λ a b. truth (nonzero a && nonzero b)) else none

abbrev pub bit_or_operator : Text → Option Operator
bit_or_operator s = if text_eq s (bytes "|") then some (λ a b. ok (or_i128 a b)) else none

abbrev pub bit_xor_operator : Text → Option Operator
bit_xor_operator s = if text_eq s (bytes "^") then some (λ a b. ok (xor_i128 a b)) else none

abbrev pub bit_and_operator : Text → Option Operator
bit_and_operator s = if text_eq s (bytes "&") then some (λ a b. ok (and_i128 a b)) else none

abbrev pub equality_operator : Text → Option Operator
equality_operator s =
    if text_eq s (bytes "==")
    then some (λ a b. truth (eqb a b))
    else if text_eq s (bytes "!=")
    then some (λ a b. truth (not (eqb a b)))
    else none

abbrev pub relational_operator : Text → Option Operator
relational_operator s =
    if text_eq s (bytes "<")
    then some (λ a b. truth (ltb_ℤ a b))
    else if text_eq s (bytes ">")
    then some (λ a b. truth (ltb_ℤ b a))
    else if text_eq s (bytes "<=")
    then some (λ a b. truth (not (ltb_ℤ b a)))
    else if text_eq s (bytes ">=")
    then some (λ a b. truth (not (ltb_ℤ a b)))
    else none

abbrev pub shift_operator : Bool → Text → Option Operator
shift_operator checks s =
    if text_eq s (bytes "<<")
    then some (shl_i128 checks)
    else if text_eq s (bytes ">>")
    then some (shr_i128 checks)
    else none

abbrev pub additive_operator : Bool → Text → Option Operator
additive_operator checks s =
    if text_eq s (bytes "+")
    then some (add_i128 checks)
    else if text_eq s (bytes "-")
    then some (sub_i128 checks)
    else none

-- A division by zero gives zero.
abbrev pub multiplicative_operator : Bool → Text → Option Operator
multiplicative_operator checks s =
    if text_eq s (bytes "*")
    then some (mul_i128 checks)
    else if text_eq s (bytes "/")
    then some (λ a b. if nonzero b then div_i128 a b else ok (pos 0))
    else if text_eq s (bytes "%")
    then some (λ a b. if nonzero b then rem_i128 a b else ok (pos 0))
    else none

abbrev pub unary_operator : Bool → Text → Option (ℤ → Result ℤ)
unary_operator checks s =
    if text_eq s (bytes "!")
    then some (λ a. truth (eqb a (pos 0)))
    else if text_eq s (bytes "-")
    then some (neg_i128 checks)
    else if text_eq s (bytes "+")
    then some ok
    else if text_eq s (bytes "~")
    then some (λ a. ok (not_i128 a))
    else none

abbrev value_of : Token → Result ℤ
value_of t =
    if is_kind t TokenKind.number
    then ok (parse_integer t.text)
    else if is_kind t TokenKind.char_literal
    then parse_char_constant t.text
    else ok (pos 0)

abbrev literal : List Token → Result (ℤ × List Token)
literal [] = ok (pos 0, [])
literal (t ∷ rest) = value_of t >>= λ v. ok (v, rest)

-- `ternary` is the call for what stands in parentheses.
unfoldable pub primary : Parser → Parser
unfolding advance peek_text parse_integer parse_char_constant
primary ternary ts =
    if peeks ts (bytes "(")
    then (ternary (advance ts) >>= λ (v, rest).
        ok (v, if peeks rest (bytes ")") then advance rest else rest))
    else literal (skip_whitespace ts)

-- A unary operator applies to what `operand` reads behind it.
abbrev pub unary_round :
    Parser → Parser → List Token → Option (ℤ → Result ℤ) → Result (ℤ × List Token)
unary_round atom operand ts none = atom ts
unary_round atom operand ts (some g) =
    operand (advance ts) >>= λ (v, rest). g v >>= λ w. ok (w, rest)

unfoldable pub unary : Bool → Parser → ℕ → Parser
unfolding primary
unary checks ternary zero ts = out_of_fuel
unary checks ternary (suc f) ts =
    unary_round (primary ternary) (λ us. unary checks ternary f us) ts
      (unary_operator checks (peek_text ts))

-- A round of the loop of every binary level: while an operator of the level is next, its right
-- operand is read from the level below.
abbrev pub operator_round :
    Parser → (ℤ → Parser) → ℤ → List Token → Option Operator → Result (ℤ × List Token)
operator_round below loop v ts none = ok (v, ts)
operator_round below loop v ts (some g) =
    below (advance ts) >>= λ (rhs, rest). g v rhs >>= λ w. loop w rest

unfoldable pub operators : (Text → Option Operator) → Parser → ℕ → ℤ → Parser
unfolding advance peek_text
operators operator below zero v ts = out_of_fuel
operators operator below (suc f) v ts =
    operator_round below (λ w us. operators operator below f w us) v ts (operator (peek_text ts))

unfoldable pub level : (Text → Option Operator) → ℕ → Parser → Parser
unfolding operators
level operator n below ts = below ts >>= λ (v, rest). operators operator below n v rest

unfoldable pub logical_or : Bool → ℕ → Parser → Parser
unfolding level unary shl_i128 shr_i128 div_i128 rem_i128 and_i128 or_i128 xor_i128 overflowing
logical_or checks n ternary =
    let multiplicative = level (multiplicative_operator checks) n (unary checks ternary n) in
    let additive = level (additive_operator checks) n multiplicative in
    let shift = level (shift_operator checks) n additive in
    let relational = level relational_operator n shift in
    let equality = level equality_operator n relational in
    let bitwise_and = level bit_and_operator n equality in
    let bitwise_xor = level bit_xor_operator n bitwise_and in
    let bitwise_or = level bit_or_operator n bitwise_xor in
    let logical_and = level and_operator n bitwise_or in level or_operator n logical_and

-- The branches of `?` and `:`. Both are evaluated.
abbrev choose : Parser → ℤ → Parser
choose ternary cond ts =
    if peeks ts (bytes "?")
    then (ternary (advance ts) >>= λ (a, rest).
        ternary (if peeks rest (bytes ":") then advance rest else rest) >>= λ (b, rest').
        ok (if nonzero cond then a else b, rest'))
    else ok (cond, ts)

-- `n` bounds the rounds of each loop, the other number the depth of the calls.
unfoldable pub ternary : Bool → ℕ → ℕ → Parser
unfolding logical_or
ternary checks n zero ts = out_of_fuel
ternary checks n (suc f) ts =
    logical_or checks n (λ us. ternary checks n f us) ts >>= λ (cond, rest).
    choose (λ us. ternary checks n f us) cond rest

unfoldable pub evaluate : Bool → List Token → Result Bool
unfolding ternary
evaluate checks ts =
    ternary checks (suc (length ts)) (suc (length ts)) ts >>= λ (v, _). ok (nonzero v)

unfoldable pub eval_condition : Bool → MacroTable → List Token → Result Bool
unfolding evaluate expand_for_condition
eval_condition checks table tokens = expand_for_condition table tokens >>= evaluate checks
