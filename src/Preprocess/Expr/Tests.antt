-- ===== src/Preprocess/Expr/Tests.antt =====
-- The evaluation of src/preprocess/expr.rs at a concrete condition.
use parc.Prelude.{◌≡◌, refl, true, []}
use parc.Prelude.Int.{pos}
use parc.Prelude.Result.{ok, ◌>>=◌}
use parc.Prelude.Text.{bytes}
use parc.Preprocess.Expr.{nonzero, evaluate, parse_integer, trim_suffix, overflowing}
use parc.Prelude.Parse.{parse_i128, digits_value}
use parc.Preprocess.Expr.Condition.{
  Condition, number, unary_of, binary_of, choice, sub, lt, complement, print, value,
}
use parc.Preprocess.Expr.Printed.{evaluate-print}

-- `((3 < 5L) ? (!0) : (4 - 4))`
abbrev sample : Condition
sample =
    choice (binary_of lt (number b'3' refl []) (number b'5' refl (bytes "L")))
      (unary_of complement (number b'0' refl []))
      (binary_of sub (number b'4' refl []) (number b'4' refl []))

evaluate-print_example :
    evaluate true (print sample []) ≡ (value true sample >>= λ v. ok (nonzero v))
evaluate-print_example = evaluate-print true sample

value-sample : value true sample ≡ ok (pos 1)
unfolding value parse_integer trim_suffix parse_i128 digits_value overflowing
value-sample = refl
