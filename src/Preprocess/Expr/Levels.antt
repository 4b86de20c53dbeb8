-- ===== src/Preprocess/Expr/Levels.antt =====
-- The levels of the parser of src/preprocess/expr.rs, from the products up to `||`, as a list of
-- tables of operators.
use parc.Prelude.{ℕ, suc, ◌≡◌, refl, Bool, List, [], ◌∷◌, ◌++◌, Option, none, some}
use parc.Prelude.Int.{ℤ}
use parc.Prelude.Lists.{All}
use parc.Prelude.Result.{Result, ok, panic, out_of_fuel, ◌>>=◌}
use parc.Prelude.Text.{Text}
use parc.Preprocess.Token.{Token}
use parc.Preprocess.Expr.{
  Parser, Operator, advance, peek_text, operators, level, logical_or, unary,
  multiplicative_operator, additive_operator, shift_operator, relational_operator,
  equality_operator, bit_and_operator, bit_xor_operator, bit_or_operator, and_operator, or_operator,
}

abbrev pub Table : Type 0
Table = Text → Option Operator

abbrev pub tables : Bool → List Table
tables checks =
    multiplicative_operator checks
    ∷ additive_operator checks
    ∷ shift_operator checks
    ∷ relational_operator
    ∷ equality_operator
    ∷ bit_and_operator
    ∷ bit_xor_operator
    ∷ bit_or_operator
    ∷ and_operator
    ∷ or_operator
    ∷ []

abbrev pub climb : ℕ → List Table → Parser → Parser
climb n [] p = p
climb n (t ∷ ts) p = climb n ts (level t n p)

pub logical_or-climb :
    (checks : Bool) (n : ℕ) (ternary : Parser)
    → logical_or checks n ternary ≡ climb n (tables checks) (unary checks ternary n)
unfolding logical_or
logical_or-climb checks n ternary = refl

-- The parser reads the value from the tokens and leaves the others.
abbrev pub Parses : Parser → List Token → Result ℤ → List Token → Type 0
Parses p ts r rest = p ts ≡ (r >>= λ v. ok (v, rest))

-- No operator of the tables.
abbrev pub Silent : Text → List Table → Type 0
Silent text ts = All (λ t. t text ≡ none) ts

level-none :
    (t : Table) (n : ℕ) (p : Parser) (ts : List Token) (r : Result ℤ) (rest : List Token)
    → t (peek_text rest) ≡ none
    → Parses p ts r rest
    → Parses (level t (suc n) p) ts r rest
unfolding level operators
level-none t n p ts (ok v) rest e h = rw (h, e) refl
level-none t n p ts panic rest e h = rw h refl
level-none t n p ts out_of_fuel rest e h = rw h refl

level-some :
    (t : Table) (g : Operator) (n : ℕ) (p : Parser) (ts us : List Token) (x y : Result ℤ)
    (rest : List Token)
    → t (peek_text us) ≡ some g
    → t (peek_text rest) ≡ none
    → Parses p ts x us
    → Parses p (advance us) y rest
    → Parses (level t (suc (suc n)) p) ts (x >>= λ a. y >>= λ b. g a b) rest
unfolding level operators
level-some t g n p ts us (ok a) (ok b) rest e s h k = rw (h, e, k) (after (g a b))
  where
    after : (r : Result ℤ) → (r >>= λ v. operators t p (suc n) v rest) ≡ (r >>= λ v. ok (v, rest))
    after (ok v) = rw s refl
    after panic = refl
    after out_of_fuel = refl
level-some t g n p ts us (ok a) panic rest e s h k = rw (h, e, k) refl
level-some t g n p ts us (ok a) out_of_fuel rest e s h k = rw (h, e, k) refl
level-some t g n p ts us panic y rest e s h k = rw h refl
level-some t g n p ts us out_of_fuel y rest e s h k = rw h refl

-- Levels without the operator that is next pass the value on.
pub climb-none :
    (n : ℕ) (tables : List Table) (p : Parser) (ts : List Token) (r : Result ℤ) (rest : List Token)
    → Silent (peek_text rest) tables
    → Parses p ts r rest
    → Parses (climb (suc n) tables p) ts r rest
climb-none n [] p ts r rest s h = h
climb-none n (t ∷ tables) p ts r rest s h =
    climb-none n tables (level t (suc n) p) ts r rest s.1 (level-none t n p ts r rest s.0 h)

pub climb-some :
    (n : ℕ) (pre : List Table) (t : Table) (post : List Table) (g : Operator) (p : Parser)
    (ts us : List Token) (x y : Result ℤ) (rest : List Token)
    → Silent (peek_text us) pre
    → t (peek_text us) ≡ some g
    → Silent (peek_text rest) (pre ++ t ∷ post)
    → Parses p ts x us
    → Parses p (advance us) y rest
    → Parses (climb (suc (suc n)) (pre ++ t ∷ post) p) ts (x >>= λ a. y >>= λ b. g a b) rest
climb-some n [] t post g p ts us x y rest q e s h k =
    climb-none (suc n) post (level t (suc (suc n)) p) ts _ rest s.1
      (level-some t g n p ts us x y rest e s.0 h k)
climb-some n (u ∷ pre) t post g p ts us x y rest q e s h k =
    climb-some n pre t post g (level u (suc (suc n)) p) ts us x y rest q.1 e s.1
      (level-none u (suc n) p ts x us q.0 h) (level-none u (suc n) p (advance us) y rest s.0 k)
