-- ===== src/Preprocess/Expr/Printed.antt =====
-- The parser of conditions in src/preprocess/expr.rs reads what a condition is written as.
use parc.Prelude.{
  ℕ, suc, ◌≤◌, ◌≡◌, refl, Bool, false, List, [], ◌∷◌, none, some, arith, true, if◌then◌else◌,
}
use parc.Prelude.Lists.{length}
use parc.Prelude.Int.{ℤ}
use parc.Prelude.Result.{Result, ok, panic, out_of_fuel, ◌>>=◌}
use parc.Prelude.Text.{Text, bytes, text_eq}
use parc.Preprocess.Token.{Token}
use parc.Preprocess.Directive.{skip_whitespace}
use parc.Preprocess.Expr.{
  is_ascii_digit, nonzero, advance, peek_text, peeks, primary, unary, logical_or, ternary, evaluate,
  unary_operator,
}
use parc.Preprocess.Expr.Condition.{
  Condition, number, unary_of, binary_of, choice, UnaryOp, BinaryOp, complement, negate, plus,
  bit_not, mark, binary_text, unary_text, print, size, length-print, value, apply_unary,
}
use parc.Preprocess.Expr.Places.{climb-binary}
use parc.Preprocess.Expr.Levels.{tables, climb, Parses, Silent, climb-none}

peek_binary : (o : BinaryOp) (k : List Token) → peek_text (mark (binary_text o) ∷ k) ≡ binary_text o
unfolding peek_text skip_whitespace
peek_binary o k = refl

unary_found :
    (checks : Bool) (o : UnaryOp)
    → unary_operator checks (unary_text o) ≡ some (apply_unary checks o)
unary_found checks complement = refl
unary_found checks negate = refl
unary_found checks plus = refl
unary_found checks bit_not = refl

close-Silent : (checks : Bool) → Silent (bytes ")") (tables checks)
close-Silent checks =
    (refl, (refl, (refl, (refl, (refl, (refl, (refl, (refl, (refl, (refl, tt))))))))))

question-Silent : (checks : Bool) → Silent (bytes "?") (tables checks)
question-Silent checks =
    (refl, (refl, (refl, (refl, (refl, (refl, (refl, (refl, (refl, (refl, tt))))))))))

colon-Silent : (checks : Bool) → Silent (bytes ":") (tables checks)
colon-Silent checks =
    (refl, (refl, (refl, (refl, (refl, (refl, (refl, (refl, (refl, (refl, tt))))))))))

end-Silent : (checks : Bool) → Silent [] (tables checks)
end-Silent checks =
    (refl, (refl, (refl, (refl, (refl, (refl, (refl, (refl, (refl, (refl, tt))))))))))

-- What stands in parentheses is an operand of every level.
parenthesised :
    (checks : Bool) (n f g : ℕ) (ts : List Token) (r : Result ℤ) (rest : List Token)
    → Parses (ternary checks n f) ts r (mark (bytes ")") ∷ rest)
    → Parses (unary checks (ternary checks n f) (suc g)) (mark (bytes "(") ∷ ts) r rest
unfolding unary primary peek_text advance skip_whitespace
parenthesised checks n f g ts (ok v) rest h = rw h refl
parenthesised checks n f g ts panic rest h = rw h refl
parenthesised checks n f g ts out_of_fuel rest h = rw h refl

prefixed :
    (checks : Bool) (n f g : ℕ) (o : UnaryOp) (ts : List Token) (r : Result ℤ) (rest : List Token)
    → Parses (unary checks (ternary checks n f) (suc g)) ts r rest
    → Parses
        (unary checks (ternary checks n f) (suc (suc g)))
        (mark (unary_text o) ∷ ts)
        (r >>= apply_unary checks o)
        rest
unfolding unary peek_text advance skip_whitespace
prefixed checks n f g o ts (ok v) rest h = rw (unary_found checks o, h) refl
prefixed checks n f g o ts panic rest h = rw (unary_found checks o, h) refl
prefixed checks n f g o ts out_of_fuel rest h = rw (unary_found checks o, h) refl

-- A value that neither an operator nor `?` follows is the whole of what `ternary` reads.
alone :
    (checks : Bool) (n f : ℕ) (ts : List Token) (r : Result ℤ) (rest : List Token)
    → peeks rest (bytes "?") ≡ false
    → Parses (climb n (tables checks) (unary checks (ternary checks n f) n)) ts r rest
    → Parses (ternary checks n (suc f)) ts r rest
unfolding ternary logical_or
alone checks n f ts (ok v) rest q h = rw (h, q) refl
alone checks n f ts panic rest q h = rw h refl
alone checks n f ts out_of_fuel rest q h = rw h refl

-- The three parts of a choice, the first up to `?`, the others read by `ternary` again.
chosen :
    (checks : Bool) (n f : ℕ) (ts us vs rest : List Token) (x y z : Result ℤ)
    → Parses
        (climb n (tables checks) (unary checks (ternary checks n f) n))
        ts
        x
        (mark (bytes "?") ∷ us)
    → Parses (ternary checks n f) us y (mark (bytes ":") ∷ vs)
    → Parses (ternary checks n f) vs z rest
    → Parses
        (ternary checks n (suc f))
        ts
        (x >>= λ a. y >>= λ b. z >>= λ c. ok (if nonzero a then b else c))
        rest
unfolding ternary logical_or peek_text advance skip_whitespace
chosen checks n f ts us vs rest (ok a) (ok b) (ok c) h k l = rw (h, k, l) refl
chosen checks n f ts us vs rest (ok a) (ok b) panic h k l = rw (h, k, l) refl
chosen checks n f ts us vs rest (ok a) (ok b) out_of_fuel h k l = rw (h, k, l) refl
chosen checks n f ts us vs rest (ok a) panic z h k l = rw (h, k) refl
chosen checks n f ts us vs rest (ok a) out_of_fuel z h k l = rw (h, k) refl
chosen checks n f ts us vs rest panic y z h k l = rw h refl
chosen checks n f ts us vs rest out_of_fuel y z h k l = rw h refl

digit_text :
    (checks : Bool) (d : ℕ) (t : Text)
    → is_ascii_digit d ≡ true
    → (unary_operator checks (d ∷ t) ≡ none) × (text_eq (d ∷ t) (bytes "(") ≡ false)
digit_text checks d t h = (ground arith, ground arith)

-- An operand of every level is the whole of what `ternary` reads where neither an operator nor `?`
-- follows.
whole :
    (checks : Bool) (n f : ℕ) (ts : List Token) (r : Result ℤ) (rest : List Token)
    → Silent (peek_text rest) (tables checks)
    → peeks rest (bytes "?") ≡ false
    → Parses (unary checks (ternary checks (suc n) f) (suc n)) ts r rest
    → Parses (ternary checks (suc n) (suc f)) ts r rest
whole checks n f ts r rest s q h =
    alone checks (suc n) f ts r rest q (climb-none n (tables checks) _ ts r rest s h)

-- A condition as it is written is an operand of every level, and reads as its value.
unary-print :
    (checks : Bool) (e : Condition) (n f g : ℕ) (k : List Token)
    → size e ≤ n
    → size e ≤ f
    → Parses (unary checks (ternary checks n f) (suc g)) (print e k) (value checks e) k
unfolding print size value unary primary peek_text advance skip_whitespace
unary-print checks (number d h t) n f g k sn sf =
    let (u, p) = digit_text checks d t h in rw (u, p) refl
unary-print checks (unary_of o e) (suc (suc n)) (suc f) g k sn sf =
    let m = suc (suc n) in
    parenthesised checks m (suc f) g _ _ k (
      whole checks (suc n) f _ _ (mark (bytes ")") ∷ k) (close-Silent checks) refl (
        prefixed checks m f n o _ _ (mark (bytes ")") ∷ k)
          (unary-print checks e m f n (mark (bytes ")") ∷ k) (omega arith) (omega arith))))
unary-print checks (binary_of o l r) (suc (suc n)) (suc f) g k sn sf =
    let m = suc (suc n) in
    let behind = mark (bytes ")") ∷ k in
    parenthesised checks m (suc f) g _ _ k (
      alone checks m f _ _ behind refl (
        climb-binary checks o n _ _ _ _ _ behind (peek_binary o (print r behind))
          (close-Silent checks)
          (unary-print checks l m f (suc n) (mark (binary_text o) ∷ print r behind) (omega arith)
            (omega arith))
          (unary-print checks r m f (suc n) behind (omega arith) (omega arith))))
unary-print checks (choice c a b) (suc n) (suc (suc f)) g k sn sf =
    let behind = mark (bytes ")") ∷ k in
    let last = mark (bytes ":") ∷ print b behind in
    let first = mark (bytes "?") ∷ print a last in
    parenthesised checks (suc n) (suc (suc f)) g _ _ k (
      chosen checks (suc n) (suc f) _ _ _ behind _ _ _
        (climb-none n (tables checks) _ _ _ first (question-Silent checks)
          (unary-print checks c (suc n) (suc f) n first (omega arith) (omega arith)))
        (whole checks n f _ _ last (colon-Silent checks) refl
          (unary-print checks a (suc n) f n last (omega arith) (omega arith)))
        (whole checks n f _ _ behind (close-Silent checks) refl
          (unary-print checks b (suc n) f n behind (omega arith) (omega arith))))
unary-print checks e n f g k sn sf = absurd (omega arith)

-- What a condition is written as, with parentheses around each operator, evaluates to whether its
-- value is not 0, and panics where the value does: of the arithmetic, with and without the checks.
pub evaluate-print :
    (checks : Bool) (e : Condition)
    → evaluate checks (print e []) ≡ (value checks e >>= λ v. ok (nonzero v))
unfolding evaluate
evaluate-print checks e =
    let m = length (print e []) in
    finish (value checks e) (
      whole checks m m (print e []) (value checks e) []
        (unfold peek_text in unfold skip_whitespace in end-Silent checks)
        (unfold peek_text in unfold skip_whitespace in refl)
        (unary-print checks e (suc m) m m [] (omega (arith, length-print e []))
          (omega (arith, length-print e []))))
  where
    finish :
        (r : Result ℤ)
        → Parses
            (ternary checks (suc (length (print e []))) (suc (length (print e []))))
            (print e [])
            r
            []
        → (ternary checks (suc (length (print e []))) (suc (length (print e []))) (print e [])
            >>= λ (v, _). ok (nonzero v))
          ≡ (r >>= λ v. ok (nonzero v))
    finish (ok v) h = rw h refl
    finish panic h = rw h refl
    finish out_of_fuel h = rw h refl
