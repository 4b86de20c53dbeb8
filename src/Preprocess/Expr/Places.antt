-- ===== src/Preprocess/Expr/Places.antt =====
-- Where each binary operator stands among the levels of the parser of src/preprocess/expr.rs.
use parc.Prelude.{ℕ, suc, ◌≡◌, refl, sym, subst, Bool, List, [], ◌∷◌, ◌++◌, some}
use parc.Prelude.Int.{ℤ}
use parc.Prelude.Result.{Result, ◌>>=◌}
use parc.Preprocess.Token.{Token}
use parc.Preprocess.Expr.{
  Parser, advance, peek_text, multiplicative_operator, additive_operator, shift_operator,
  relational_operator, equality_operator, bit_and_operator, bit_xor_operator, bit_or_operator,
  and_operator, or_operator,
}
use parc.Preprocess.Expr.Condition.{
  BinaryOp, mul, quotient, remainder, add, sub, shl, shr, lt, gt, le, ge, eq, ne, bit_and, bit_xor,
  bit_or, both, either, binary_text, apply_binary,
}
use parc.Preprocess.Expr.Levels.{Table, tables, climb, climb-some, Parses, Silent}

-- Where an operator stands in the tables.
abbrev Stands : Bool → BinaryOp → Type 0
Stands checks o =
    (pre : List Table) × (t : Table) × (post : List Table) × (tables checks ≡ pre ++ t ∷ post)
    × Silent (binary_text o) pre
    × (t (binary_text o) ≡ some (apply_binary checks o))

stands : (checks : Bool) (o : BinaryOp) → Stands checks o
stands checks mul = (
  [],
  multiplicative_operator checks,
  additive_operator checks
      ∷ shift_operator checks
      ∷ relational_operator
      ∷ equality_operator
      ∷ bit_and_operator
      ∷ bit_xor_operator
      ∷ bit_or_operator
      ∷ and_operator
      ∷ or_operator
      ∷ [],
  refl,
  tt,
  refl,
)
stands checks quotient = (
  [],
  multiplicative_operator checks,
  additive_operator checks
      ∷ shift_operator checks
      ∷ relational_operator
      ∷ equality_operator
      ∷ bit_and_operator
      ∷ bit_xor_operator
      ∷ bit_or_operator
      ∷ and_operator
      ∷ or_operator
      ∷ [],
  refl,
  tt,
  refl,
)
stands checks remainder = (
  [],
  multiplicative_operator checks,
  additive_operator checks
      ∷ shift_operator checks
      ∷ relational_operator
      ∷ equality_operator
      ∷ bit_and_operator
      ∷ bit_xor_operator
      ∷ bit_or_operator
      ∷ and_operator
      ∷ or_operator
      ∷ [],
  refl,
  tt,
  refl,
)
stands checks add = (
  multiplicative_operator checks ∷ [],
  additive_operator checks,
  shift_operator checks
      ∷ relational_operator
      ∷ equality_operator
      ∷ bit_and_operator
      ∷ bit_xor_operator
      ∷ bit_or_operator
      ∷ and_operator
      ∷ or_operator
      ∷ [],
  refl,
  (refl, tt),
  refl,
)
stands checks sub = (
  multiplicative_operator checks ∷ [],
  additive_operator checks,
  shift_operator checks
      ∷ relational_operator
      ∷ equality_operator
      ∷ bit_and_operator
      ∷ bit_xor_operator
      ∷ bit_or_operator
      ∷ and_operator
      ∷ or_operator
      ∷ [],
  refl,
  (refl, tt),
  refl,
)
stands checks shl = (
  multiplicative_operator checks ∷ additive_operator checks ∷ [],
  shift_operator checks,
  relational_operator ∷ equality_operator ∷ bit_and_operator ∷ bit_xor_operator ∷ bit_or_operator
      ∷ and_operator ∷ or_operator ∷ [],
  refl,
  (refl, (refl, tt)),
  refl,
)
stands checks shr = (
  multiplicative_operator checks ∷ additive_operator checks ∷ [],
  shift_operator checks,
  relational_operator ∷ equality_operator ∷ bit_and_operator ∷ bit_xor_operator ∷ bit_or_operator
      ∷ and_operator ∷ or_operator ∷ [],
  refl,
  (refl, (refl, tt)),
  refl,
)
stands checks lt = (
  multiplicative_operator checks ∷ additive_operator checks ∷ shift_operator checks ∷ [],
  relational_operator,
  equality_operator ∷ bit_and_operator ∷ bit_xor_operator ∷ bit_or_operator ∷ and_operator
      ∷ or_operator ∷ [],
  refl,
  (refl, (refl, (refl, tt))),
  refl,
)
stands checks gt = (
  multiplicative_operator checks ∷ additive_operator checks ∷ shift_operator checks ∷ [],
  relational_operator,
  equality_operator ∷ bit_and_operator ∷ bit_xor_operator ∷ bit_or_operator ∷ and_operator
      ∷ or_operator ∷ [],
  refl,
  (refl, (refl, (refl, tt))),
  refl,
)
stands checks le = (
  multiplicative_operator checks ∷ additive_operator checks ∷ shift_operator checks ∷ [],
  relational_operator,
  equality_operator ∷ bit_and_operator ∷ bit_xor_operator ∷ bit_or_operator ∷ and_operator
      ∷ or_operator ∷ [],
  refl,
  (refl, (refl, (refl, tt))),
  refl,
)
stands checks ge = (
  multiplicative_operator checks ∷ additive_operator checks ∷ shift_operator checks ∷ [],
  relational_operator,
  equality_operator ∷ bit_and_operator ∷ bit_xor_operator ∷ bit_or_operator ∷ and_operator
      ∷ or_operator ∷ [],
  refl,
  (refl, (refl, (refl, tt))),
  refl,
)
stands checks eq = (
  multiplicative_operator checks
      ∷ additive_operator checks
      ∷ shift_operator checks
      ∷ relational_operator
      ∷ [],
  equality_operator,
  bit_and_operator ∷ bit_xor_operator ∷ bit_or_operator ∷ and_operator ∷ or_operator ∷ [],
  refl,
  (refl, (refl, (refl, (refl, tt)))),
  refl,
)
stands checks ne = (
  multiplicative_operator checks
      ∷ additive_operator checks
      ∷ shift_operator checks
      ∷ relational_operator
      ∷ [],
  equality_operator,
  bit_and_operator ∷ bit_xor_operator ∷ bit_or_operator ∷ and_operator ∷ or_operator ∷ [],
  refl,
  (refl, (refl, (refl, (refl, tt)))),
  refl,
)
stands checks bit_and = (
  multiplicative_operator checks
      ∷ additive_operator checks
      ∷ shift_operator checks
      ∷ relational_operator
      ∷ equality_operator
      ∷ [],
  bit_and_operator,
  bit_xor_operator ∷ bit_or_operator ∷ and_operator ∷ or_operator ∷ [],
  refl,
  (refl, (refl, (refl, (refl, (refl, tt))))),
  refl,
)
stands checks bit_xor = (
  multiplicative_operator checks
      ∷ additive_operator checks
      ∷ shift_operator checks
      ∷ relational_operator
      ∷ equality_operator
      ∷ bit_and_operator
      ∷ [],
  bit_xor_operator,
  bit_or_operator ∷ and_operator ∷ or_operator ∷ [],
  refl,
  (refl, (refl, (refl, (refl, (refl, (refl, tt)))))),
  refl,
)
stands checks bit_or = (
  multiplicative_operator checks
      ∷ additive_operator checks
      ∷ shift_operator checks
      ∷ relational_operator
      ∷ equality_operator
      ∷ bit_and_operator
      ∷ bit_xor_operator
      ∷ [],
  bit_or_operator,
  and_operator ∷ or_operator ∷ [],
  refl,
  (refl, (refl, (refl, (refl, (refl, (refl, (refl, tt))))))),
  refl,
)
stands checks both = (
  multiplicative_operator checks
      ∷ additive_operator checks
      ∷ shift_operator checks
      ∷ relational_operator
      ∷ equality_operator
      ∷ bit_and_operator
      ∷ bit_xor_operator
      ∷ bit_or_operator
      ∷ [],
  and_operator,
  or_operator ∷ [],
  refl,
  (refl, (refl, (refl, (refl, (refl, (refl, (refl, (refl, tt)))))))),
  refl,
)
stands checks either = (
  multiplicative_operator checks
      ∷ additive_operator checks
      ∷ shift_operator checks
      ∷ relational_operator
      ∷ equality_operator
      ∷ bit_and_operator
      ∷ bit_xor_operator
      ∷ bit_or_operator
      ∷ and_operator
      ∷ [],
  or_operator,
  [],
  refl,
  (refl, (refl, (refl, (refl, (refl, (refl, (refl, (refl, (refl, tt))))))))),
  refl,
)

-- An operator between two operands, in front of what ends a level.
pub climb-binary :
    (checks : Bool) (o : BinaryOp) (n : ℕ) (p : Parser) (ts us : List Token) (x y : Result ℤ)
    (rest : List Token)
    → peek_text us ≡ binary_text o
    → Silent (peek_text rest) (tables checks)
    → Parses p ts x us
    → Parses p (advance us) y rest
    → Parses
        (climb (suc (suc n)) (tables checks) p)
        ts
        (x >>= λ a. y >>= λ b. apply_binary checks o a b)
        rest
climb-binary checks o n p ts us x y rest w s h k =
    let (pre, t, post, same, q, e) = stands checks o in
    subst
      (λ levels.
        Parses (climb (suc (suc n)) levels p) ts (x >>= λ a. y >>= λ b. apply_binary checks o a b)
          rest)
      (sym same)
      (climb-some n pre t post (apply_binary checks o) p ts us x y rest (rw w q) (rw w e)
        (subst (Silent (peek_text rest)) same s) h k)
