-- ===== src/Preprocess/Expr/Total.antt =====
-- The fuel of the parser of conditions in src/preprocess/expr.rs.
use parc.Prelude.{
  ℕ, zero, suc, ◌<◌, ◌≤◌, ◌≡◌, ◌≢◌, refl, sym, ◌∙◌, not, Bool, true, List, [], ◌∷◌, Option, none,
  some, arith, if◌then◌else◌, if_both,
}
use parc.Prelude.Int.{ℤ, pos, eqb}
use parc.Prelude.Lists.{length}
use parc.Prelude.Result.{
  Result, ok, out_of_fuel, ◌>>=◌, Ensures, returns, panics, Ensures-bind, Ensures-ne-out_of_fuel,
  ends,
}
use parc.Prelude.Text.{Text, bytes, text_eq→eq}
use parc.Preprocess.Token.{Token}
use parc.Preprocess.Directive.{skip_whitespace, unquote}
use parc.Preprocess.Macros.{MacroTable, expand}
use parc.Preprocess.Macros.Total.{length-skip_whitespace_le, expand-Returns}
use parc.Preprocess.Expr.{
  Parser, Operator, advance, peek_text, peeks, primary, literal, unary, unary_operator, operators,
  level, logical_or, ternary, choose, value_of, parse_char_constant, eval_condition, evaluate,
  expand_for_condition, replace_defined, defined_round, past_close, in_parentheses, operand,
  or_operator, and_operator, bit_or_operator, bit_xor_operator, bit_and_operator, equality_operator,
  relational_operator, shift_operator, additive_operator, multiplicative_operator, operator_round,
  unary_round, shl_i128, shr_i128, div_i128, rem_i128, overflowing,
}

advance_le : (ts : List Token) → length (advance ts) ≤ length ts
unfolding advance
advance_le ts = ground (arith, length-skip_whitespace_le ts)

-- Past a token with a text there are fewer.
advance_lt : (ts : List Token) → peek_text ts ≢ [] → length (advance ts) < length ts
unfolding advance peek_text
advance_lt ts h = ground (arith, length-skip_whitespace_le ts)

-- A value was read, and no more tokens are left than there were.
abbrev Shortens : List Token → Result (ℤ × List Token) → Type 0
Shortens ts = Ensures (λ r. length r.1 ≤ length ts)

Shortens-le :
    (ts us : List Token) {r : Result (ℤ × List Token)}
    → length us ≤ length ts
    → Shortens us r
    → Shortens ts r
Shortens-le ts us h (returns l) = returns (omega arith)
Shortens-le ts us h panics = panics

Shortens-bind :
    (ts : List Token) {A : Type 0} {P : A → Type 0} {r : Result A} {f : A → Result (ℤ × List Token)}
    → Ensures P r
    → ((a : A) → P a → Shortens ts (f a))
    → Shortens ts (r >>= f)
Shortens-bind ts e k = Ensures-bind e k

-- `p` ends on every input of at most `m` tokens.
abbrev Reads : ℕ → Parser → Type 0
Reads m p = (ts : List Token) → length ts ≤ m → Shortens ts (p ts)

abbrev Ends : Result ℤ → Type 0
Ends r = Ensures (λ _. Unit {0}) r

peeks-ne : (ts : List Token) (s : Text) → s ≢ [] → peeks ts s ≡ true → peek_text ts ≢ []
peeks-ne ts s n h e = n (sym (text_eq→eq (peek_text ts) s h) ∙ e)

value_of-Ends : (t : Token) → Ends (value_of t)
unfolding parse_char_constant unquote
value_of-Ends t = ends (value_of t) (ground arith)

literal-Shortens : (ts us : List Token) → length us ≤ length ts → Shortens ts (literal us)
literal-Shortens ts [] h = returns (omega arith)
literal-Shortens ts (t ∷ us) h = Shortens-bind ts (value_of-Ends t) (λ v _. returns (omega arith))

-- The optional closing token.
past_optional_le : (b : Bool) (ts : List Token) → length (if b then advance ts else ts) ≤ length ts
past_optional_le b ts = ground (arith, advance_le ts)

primary-Reads :
    (m : ℕ) (tern : Parser)
    → ((us : List Token) → length us < m → Shortens us (tern us))
    → Reads m (primary tern)
unfolding primary
primary-Reads m tern k ts h =
    if_both (Shortens ts) (peeks ts (bytes "("))
      (λ open_.
        let l = advance_lt ts (peeks-ne ts (bytes "(") (cc) open_) in
        Shortens-bind ts (k (advance ts) (omega arith))
          (λ (v, rest) le. returns (omega (arith, past_optional_le (peeks rest (bytes ")")) rest))))
      (λ _. literal-Shortens ts (skip_whitespace ts) (length-skip_whitespace_le ts))

-- What an operator computes; a value where there is none.
abbrev applied : Option Operator → ℤ → ℤ → Result ℤ
applied none a b = ok a
applied (some g) a b = g a b

abbrev applied_unary : Option (ℤ → Result ℤ) → ℤ → Result ℤ
applied_unary none a = ok a
applied_unary (some g) a = g a

-- No operator of a level is the empty text, and what an operator computes ends.
abbrev IsLevel : (Text → Option Operator) → Type 0
IsLevel operator =
    (operator [] ≡ none) × ((s : Text) (a b : ℤ) → applied (operator s) a b ≢ out_of_fuel)

unary_operator-ends :
    (c : Bool) (s : Text) (a : ℤ) → applied_unary (unary_operator c s) a ≢ out_of_fuel
unfolding overflowing
unary_operator-ends c s a = ground arith

none-ne-some {ℓ} : {A : Type ℓ} {B : Type 0} {o : Option A} {a : A} → o ≡ none → o ≡ some a → B
none-ne-some p q = absurd (cc (p, q))

-- A token is taken where an operator is found.
operator_lt :
    {A : Type 0} (operator : Text → Option A) (ts : List Token) {g : A}
    → operator [] ≡ none
    → operator (peek_text ts) ≡ some g
    → length (advance ts) < length ts
operator_lt operator ts z e = advance_lt ts (λ n. none-ne-some z (rw n at e))

operator_round-Shortens :
    (operator : Text → Option Operator) (below : Parser) (loop : ℤ → Parser) (v : ℤ)
    (ts : List Token) (o : Option Operator)
    → IsLevel operator
    → operator (peek_text ts) ≡ o
    → Reads (length ts) below
    → ((w : ℤ) (us : List Token) → length us < length ts → Shortens us (loop w us))
    → Shortens ts (operator_round below loop v ts o)
operator_round-Shortens operator below loop v ts none good e reads again = returns (omega arith)
operator_round-Shortens operator below loop v ts (some g) good e reads again =
    let lt = operator_lt operator ts good.0 e in
    Shortens-bind ts (reads (advance ts) (omega arith)) (λ (rhs, rest) le.
      Shortens-bind ts (ends (g v rhs) (rw e at (good.1 (peek_text ts) v rhs)))
        (λ w _. Shortens-le ts rest (omega arith) (again w rest (omega arith))))

operators-Shortens :
    (operator : Text → Option Operator) (below : Parser) (m : ℕ)
    → IsLevel operator
    → Reads m below
    → (f : ℕ) (v : ℤ) (ts : List Token) → length ts ≤ m
    → length ts < f
    → Shortens ts (operators operator below f v ts)
unfolding operators
operators-Shortens operator below m good reads zero v ts h l = absurd (omega arith)
operators-Shortens operator below m good reads (suc f) v ts h l =
    operator_round-Shortens operator below (λ w us. operators operator below f w us) v ts
      (operator (peek_text ts)) good refl (λ us le. reads us (omega arith))
      (λ w us lt. operators-Shortens operator below m good reads f w us (omega arith) (omega arith))

level-Reads :
    (operator : Text → Option Operator) (below : Parser) (m n : ℕ)
    → IsLevel operator
    → m < n
    → Reads m below
    → Reads m (level operator n below)
unfolding level
level-Reads operator below m n good lt reads ts h = Shortens-bind ts (reads ts h) (λ (v, rest) le.
    Shortens-le ts rest le
      (operators-Shortens operator below m good reads n v rest (omega arith) (omega arith)))

unary_round-Shortens :
    (c : Bool) (atom operand : Parser) (ts : List Token) (o : Option (ℤ → Result ℤ))
    → unary_operator c (peek_text ts) ≡ o
    → Shortens ts (atom ts)
    → ((us : List Token) → length us < length ts → Shortens us (operand us))
    → Shortens ts (unary_round atom operand ts o)
unary_round-Shortens c atom operand ts none e k again = k
unary_round-Shortens c atom operand ts (some g) e k again =
    let lt = operator_lt (unary_operator c) ts refl e in
    Shortens-bind ts (again (advance ts) lt) (λ (v, rest) le.
      Shortens-bind ts (ends (g v) (rw e at (unary_operator-ends c (peek_text ts) v)))
        (λ w _. returns (omega arith)))

unary-Reads :
    (c : Bool) (tern : Parser) (m : ℕ)
    → ((us : List Token) → length us < m → Shortens us (tern us))
    → (f : ℕ) (ts : List Token) → length ts ≤ m
    → length ts < f
    → Shortens ts (unary c tern f ts)
unfolding unary
unary-Reads c tern m k zero ts h l = absurd (omega arith)
unary-Reads c tern m k (suc f) ts h l =
    unary_round-Shortens c (primary tern) (λ us. unary c tern f us) ts
      (unary_operator c (peek_text ts)) refl (primary-Reads m tern k ts h)
      (λ us lt. unary-Reads c tern m k f us (omega arith) (omega arith))

shift-IsLevel : (c : Bool) → IsLevel (shift_operator c)
unfolding shl_i128 shr_i128
shift-IsLevel c = (refl, λ s a b. ground arith)

additive-IsLevel : (c : Bool) → IsLevel (additive_operator c)
unfolding overflowing
additive-IsLevel c = (refl, λ s a b. ground arith)

multiplicative-IsLevel : (c : Bool) → IsLevel (multiplicative_operator c)
unfolding overflowing div_i128 rem_i128
multiplicative-IsLevel c = (refl, λ s a b. ground arith)

logical_or-Reads :
    (c : Bool) (tern : Parser) (m n : ℕ)
    → m < n
    → ((us : List Token) → length us < m → Shortens us (tern us))
    → Reads m (logical_or c n tern)
unfolding logical_or
logical_or-Reads c tern m n l k =
    level-Reads or_operator _ m n (refl, λ s a b. ground arith) l
      (level-Reads and_operator _ m n (refl, λ s a b. ground arith) l
        (level-Reads bit_or_operator _ m n (refl, λ s a b. ground arith) l
          (level-Reads bit_xor_operator _ m n (refl, λ s a b. ground arith) l
            (level-Reads bit_and_operator _ m n (refl, λ s a b. ground arith) l
              (level-Reads equality_operator _ m n (refl, λ s a b. ground arith) l
                (level-Reads relational_operator _ m n (refl, λ s a b. ground arith) l
                  (level-Reads (shift_operator c) _ m n (shift-IsLevel c) l (
                    level-Reads (additive_operator c) _ m n (additive-IsLevel c) l (
                      level-Reads (multiplicative_operator c) _ m n (multiplicative-IsLevel c) l
                        (λ ts h. unary-Reads c tern m k n ts h (omega arith)))))))))))

choose-Shortens :
    (tern : Parser) (cond : ℤ) (ts : List Token)
    → ((us : List Token) → length us < length ts → Shortens us (tern us))
    → Shortens ts (choose tern cond ts)
choose-Shortens tern cond ts k =
    if_both (Shortens ts) (peeks ts (bytes "?"))
      (λ found.
        let lt = advance_lt ts (peeks-ne ts (bytes "?") (cc) found) in
        Shortens-bind ts (k (advance ts) lt) (λ (a, rest) le.
          let colon = past_optional_le (peeks rest (bytes ":")) rest in
          Shortens-bind ts (k (if peeks rest (bytes ":") then advance rest else rest) (omega arith))
            (λ (b, rest') le'. returns (omega arith))))
      (λ _. returns (omega arith))

ternary-Shortens :
    (c : Bool) (n f : ℕ) (ts : List Token)
    → length ts < n
    → length ts < f
    → Shortens ts (ternary c n f ts)
unfolding ternary
ternary-Shortens c n zero ts l h = absurd (omega arith)
ternary-Shortens c n (suc f) ts l h =
    Shortens-bind ts
      (logical_or-Reads c (λ us. ternary c n f us) (length ts) n l
        (λ us lt. ternary-Shortens c n f us (omega arith) (omega arith)) ts (omega arith))
      (λ (cond, rest) le. Shortens-le ts rest le (
        choose-Shortens (λ us. ternary c n f us) cond rest
          (λ us lt. ternary-Shortens c n f us (omega arith) (omega arith))))

past_close_le : (ts : List Token) → length (past_close ts) ≤ length ts
past_close_le [] = omega arith
past_close_le (t ∷ ts) = ground arith

in_parentheses_le :
    (table : MacroTable) (ts : List Token) → length (in_parentheses table ts).1 ≤ length ts
in_parentheses_le table [] = omega arith
in_parentheses_le table (t ∷ ts) =
    ground (arith, length-skip_whitespace_le ts, past_close_le (skip_whitespace ts))

operand_le : (table : MacroTable) (ts : List Token) → length (operand table ts).1 ≤ length ts
operand_le table [] = omega arith
operand_le table (t ∷ ts) =
    ground (arith, length-skip_whitespace_le ts, in_parentheses_le table (skip_whitespace ts))

defined_round_le :
    (table : MacroTable) (t : Token) (ts : List Token)
    → length (defined_round table t ts).1 ≤ length ts
unfolding defined_round
defined_round_le table t ts =
    ground (arith, length-skip_whitespace_le ts, operand_le table (skip_whitespace ts))

replace_defined-Ensures :
    (table : MacroTable) (f : ℕ) (ts : List Token)
    → length ts < f
    → Ensures (λ _. Unit {0}) (replace_defined table f ts)
unfolding replace_defined
replace_defined-Ensures table zero ts h = absurd (omega arith)
replace_defined-Ensures table (suc f) [] h = returns tt
replace_defined-Ensures table (suc f) (t ∷ rest) h =
    Ensures-bind
      (replace_defined-Ensures table f (defined_round table t rest).1
        (omega (arith, defined_round_le table t rest)))
      (λ r _. returns tt)

expand-Ensures : (table : MacroTable) (ts : List Token) → Ensures (λ _. Unit {0}) (expand table ts)
expand-Ensures table ts = let (r, e) = expand-Returns table ts in rw e (returns tt)

expand_for_condition-Ensures :
    (table : MacroTable) (ts : List Token) → Ensures (λ _. Unit {0}) (expand_for_condition table ts)
unfolding expand_for_condition
expand_for_condition-Ensures table ts =
    Ensures-bind (replace_defined-Ensures table (suc (length ts)) ts (omega arith))
      (λ us _. Ensures-bind (expand-Ensures table us) (λ expanded _. returns tt))

abbrev truth_of : ℤ × List Token → Result Bool
truth_of (v, _) = ok (not (eqb v (pos 0)))

truth_of-Ensures :
    (ts : List Token) {r : Result (ℤ × List Token)}
    → Shortens ts r
    → Ensures (λ _. Unit {0}) (r >>= truth_of)
truth_of-Ensures ts (returns h) = returns tt
truth_of-Ensures ts panics = panics

evaluate-Ensures : (c : Bool) (ts : List Token) → Ensures (λ _. Unit {0}) (evaluate c ts)
unfolding evaluate
evaluate-Ensures c ts =
    let n : ℕ = suc (length ts) in
    truth_of-Ensures ts (ternary-Shortens c n n ts (omega arith) (omega arith))

-- The evaluation of a condition ends, whatever its tokens and the table of macros are: with a truth
-- value, or by a panic.
pub eval_condition-ends :
    (checks : Bool) (table : MacroTable) (ts : List Token)
    → eval_condition checks table ts ≢ out_of_fuel
unfolding eval_condition
eval_condition-ends checks table ts =
    Ensures-ne-out_of_fuel
      (Ensures-bind (expand_for_condition-Ensures table ts) (λ us _. evaluate-Ensures checks us))
