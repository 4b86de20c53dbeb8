-- ===== src/Preprocess/Expr/Condition.antt =====
-- Conditions as trees, how they are written with a pair of parentheses for each operator, and their
-- values: an independent description for src/preprocess/expr.rs.
use parc.Prelude.{ℕ, ◌+◌, ◌≡◌, Bool, true, not, ◌&&◌, ◌||◌, List, ◌∷◌, arith, if◌then◌else◌}
use parc.Prelude.Int.{ℤ, pos, eqb, ltb_ℤ}
use parc.Prelude.Lists.{length}
use parc.Prelude.Result.{Result, ok, ◌>>=◌}
use parc.Prelude.Text.{Text, bytes}
use parc.Preprocess.Token.{Token, TokenKind}
use parc.Preprocess.Expr.{
  truth, nonzero, is_ascii_digit, parse_integer, add_i128, sub_i128, mul_i128, div_i128, rem_i128,
  shl_i128, shr_i128, and_i128, or_i128, xor_i128, neg_i128, not_i128,
}

pub data BinaryOp : Type 0 where
  mul quotient remainder add sub shl shr lt gt le ge eq ne bit_and bit_xor bit_or both either :
      BinaryOp

pub data UnaryOp : Type 0 where
  complement negate plus bit_not : UnaryOp

pub data Condition : Type 0 where
  number : (d : ℕ) → is_ascii_digit d ≡ true → Text → Condition
  unary_of : UnaryOp → Condition → Condition
  binary_of : BinaryOp → Condition → Condition → Condition
  choice : Condition → Condition → Condition → Condition

abbrev pub binary_text : BinaryOp → Text
binary_text mul = bytes "*"
binary_text quotient = bytes "/"
binary_text remainder = bytes "%"
binary_text add = bytes "+"
binary_text sub = bytes "-"
binary_text shl = bytes "<<"
binary_text shr = bytes ">>"
binary_text lt = bytes "<"
binary_text gt = bytes ">"
binary_text le = bytes "<="
binary_text ge = bytes ">="
binary_text eq = bytes "=="
binary_text ne = bytes "!="
binary_text bit_and = bytes "&"
binary_text bit_xor = bytes "^"
binary_text bit_or = bytes "|"
binary_text both = bytes "&&"
binary_text either = bytes "||"

abbrev pub unary_text : UnaryOp → Text
unary_text complement = bytes "!"
unary_text negate = bytes "-"
unary_text plus = bytes "+"
unary_text bit_not = bytes "~"

abbrev pub mark : Text → Token
mark t = record { kind = TokenKind.punct; text = t; offset = 0 }

-- The tokens of a condition, in front of others.
unfoldable pub print : Condition → List Token → List Token
print (number d _ t) k = record { kind = TokenKind.number; text = d ∷ t; offset = 0 } ∷ k
print (unary_of o e) k = mark (bytes "(") ∷ mark (unary_text o) ∷ print e (mark (bytes ")") ∷ k)
print (binary_of o l r) k =
    mark (bytes "(") ∷ print l (mark (binary_text o) ∷ print r (mark (bytes ")") ∷ k))
print (choice c a b) k =
    mark (bytes "(")
    ∷ print c (mark (bytes "?") ∷ print a (mark (bytes ":") ∷ print b (mark (bytes ")") ∷ k)))

unfoldable pub size : Condition → ℕ
size (number d _ t) = 1
size (unary_of o e) = 3 + size e
size (binary_of o l r) = 3 + size l + size r
size (choice c a b) = 4 + size c + size a + size b

pub length-print : (e : Condition) (k : List Token) → length (print e k) ≡ size e + length k
unfolding print size
length-print (number d _ t) k = omega arith
length-print (unary_of o e) k = omega (arith, length-print e (mark (bytes ")") ∷ k))
length-print (binary_of o l r) k = omega (
  arith,
  length-print l (mark (binary_text o) ∷ print r (mark (bytes ")") ∷ k)),
  length-print r (mark (bytes ")") ∷ k),
)
length-print (choice c a b) k = omega (
  arith,
  length-print c (mark (bytes "?") ∷ print a (mark (bytes ":") ∷ print b (mark (bytes ")") ∷ k))),
  length-print a (mark (bytes ":") ∷ print b (mark (bytes ")") ∷ k)),
  length-print b (mark (bytes ")") ∷ k),
)

module _ (checks : Bool) where
  abbrev pub apply_binary : BinaryOp → ℤ → ℤ → Result ℤ
  apply_binary mul = mul_i128 checks
  apply_binary quotient = λ a b. if nonzero b then div_i128 a b else ok (pos 0)
  apply_binary remainder = λ a b. if nonzero b then rem_i128 a b else ok (pos 0)
  apply_binary add = add_i128 checks
  apply_binary sub = sub_i128 checks
  apply_binary shl = shl_i128 checks
  apply_binary shr = shr_i128 checks
  apply_binary lt = λ a b. truth (ltb_ℤ a b)
  apply_binary gt = λ a b. truth (ltb_ℤ b a)
  apply_binary le = λ a b. truth (not (ltb_ℤ b a))
  apply_binary ge = λ a b. truth (not (ltb_ℤ a b))
  apply_binary eq = λ a b. truth (eqb a b)
  apply_binary ne = λ a b. truth (not (eqb a b))
  apply_binary bit_and = λ a b. ok (and_i128 a b)
  apply_binary bit_xor = λ a b. ok (xor_i128 a b)
  apply_binary bit_or = λ a b. ok (or_i128 a b)
  apply_binary both = λ a b. truth (nonzero a && nonzero b)
  apply_binary either = λ a b. truth (nonzero a || nonzero b)

  abbrev pub apply_unary : UnaryOp → ℤ → Result ℤ
  apply_unary complement = λ a. truth (eqb a (pos 0))
  apply_unary negate = neg_i128 checks
  apply_unary plus = ok
  apply_unary bit_not = λ a. ok (not_i128 a)

  -- The value: a comparison or a logical operator gives 1 or 0, a division by zero gives 0. Every
  -- operand is evaluated, also one that does not decide.
  unfoldable pub value : Condition → Result ℤ
  value (number d _ t) = ok (parse_integer (d ∷ t))
  value (unary_of o e) = value e >>= apply_unary o
  value (binary_of o l r) = value l >>= λ a. value r >>= λ b. apply_binary o a b
  value (choice c a b) =
      value c >>= λ x. value a >>= λ y. value b >>= λ z. ok (if nonzero x then y else z)
