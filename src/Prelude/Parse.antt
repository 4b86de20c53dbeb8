-- ===== src/Prelude/Parse.antt =====
-- `from_str_radix` and `parse` of the Rust integers: an optional sign, then digits. What does not
-- fit the type is an error.
use mathlib.Core.Bool.{◌&&◌}
use mathlib.Core.List.{[], ◌∷◌}
use mathlib.Core.Option.{Option, none, some}
use Prim.Native.Nat.{ℕ, ◌+◌, ◌-◌, ◌*◌, ◌^◌}
use parc.Prelude.Tests.{◌==◌, leb, ltb, if◌then◌else◌}
use parc.Prelude.Text.{Text}
use parc.Prelude.Int.{ℤ, pos, negsuc}

-- `char::to_digit` up to radix 16
abbrev pub digit_value : ℕ → ℕ
digit_value b =
    if leb b'0' b && leb b b'9'
    then b - b'0'
    else if leb b'a' b && leb b b'f'
    then b - b'a' + 10
    else if leb b'A' b && leb b b'F'
    then b - b'A' + 10
    else 99

unfoldable pub digits_value : ℕ → ℕ → Text → Option ℕ
digits_value radix acc [] = some acc
digits_value radix acc (b ∷ bs) =
    let rest = digits_value radix (acc * radix + digit_value b) bs in
    if ltb (digit_value b) radix then rest else none

abbrev pub magnitude : ℕ → Text → Option ℕ
magnitude radix [] = none
magnitude radix (b ∷ bs) = digits_value radix 0 (b ∷ bs)

abbrev pub at_most : ℕ → Option ℕ → Option ℕ
at_most bound none = none
at_most bound (some n) = if leb n bound then some n else none

-- An unsigned type whose largest value is `bound`.
unfoldable pub parse_unsigned : ℕ → ℕ → Text → Option ℕ
unfolding digits_value
parse_unsigned bound radix [] = none
parse_unsigned bound radix (b ∷ bs) =
    at_most bound (if b == b'+' then magnitude radix bs else magnitude radix (b ∷ bs))

abbrev pub positive : Option ℕ → Option ℤ
positive none = none
positive (some n) = some (pos n)

abbrev pub negative : Option ℕ → Option ℤ
negative none = none
negative (some n) = some (if n == 0 then pos 0 else negsuc (n - 1))

-- `i128::from_str_radix`
unfoldable pub parse_i128 : ℕ → Text → Option ℤ
unfolding digits_value
parse_i128 radix [] = none
parse_i128 radix (b ∷ bs) =
    if b == b'-'
    then negative (at_most (2 ^ 127) (magnitude radix bs))
    else positive
        (at_most (2 ^ 127 - 1) (if b == b'+' then magnitude radix bs else magnitude radix (b ∷ bs)))
