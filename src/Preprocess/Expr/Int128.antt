-- ===== src/Preprocess/Expr/Int128.antt =====
-- The operators of `i128` that src/preprocess/expr.rs uses. With `checks` an overflow panics (the
-- build profile's `overflow-checks`), without it the result wraps.
use Prim.Native.Nat.{bit_and, bit_or, bit_xor}
use parc.Prelude.{ℕ, ◌+◌, ◌-◌, ◌*◌, ◌/◌, ◌%◌, ◌^◌, Bool, false, not, ◌&&◌, if◌then◌else◌, ltb, ◌==◌}
use parc.Prelude.Int.{ℤ, pos, negsuc, pos_part, neg_part, sub_ℕ, ◌+ℤ◌, ◌-ℤ◌, ◌*ℤ◌, neg, eqb}
use parc.Prelude.Result.{Result, ok, panic}

abbrev pub fits : ℤ → Bool
fits (pos n) = ltb n (2 ^ 127)
fits (negsuc n) = ltb n (2 ^ 127)

-- Two's complement.
unfoldable pub to_bits : ℤ → ℕ
to_bits (pos n) = n % 2 ^ 128
to_bits (negsuc n) = 2 ^ 128 - 1 - n % 2 ^ 128

unfoldable pub of_bits : ℕ → ℤ
of_bits b = if ltb b (2 ^ 127) then pos b else negsuc (2 ^ 128 - 1 - b)

unfoldable pub overflowing : Bool → ℤ → Result ℤ
unfolding to_bits of_bits
overflowing checks z = if fits z then ok z else if checks then panic else ok (of_bits (to_bits z))

abbrev pub add_i128 : Bool → ℤ → ℤ → Result ℤ
add_i128 checks a b = overflowing checks (a +ℤ b)

abbrev pub sub_i128 : Bool → ℤ → ℤ → Result ℤ
sub_i128 checks a b = overflowing checks (a -ℤ b)

abbrev pub mul_i128 : Bool → ℤ → ℤ → Result ℤ
mul_i128 checks a b = overflowing checks (a *ℤ b)

abbrev pub neg_i128 : Bool → ℤ → Result ℤ
neg_i128 checks a = overflowing checks (neg a)

abbrev magnitude : ℤ → ℕ
magnitude a = pos_part a + neg_part a

abbrev sign : ℤ → ℕ
sign (pos n) = 0
sign (negsuc n) = 1

abbrev is_min : ℤ → Bool
is_min a = eqb a (negsuc (2 ^ 127 - 1))

-- `/` and `%` truncate towards zero. The smallest value by -1 panics in every profile.
unfoldable pub div_i128 : ℤ → ℤ → Result ℤ
div_i128 a b =
    if is_min a && eqb b (negsuc 0)
    then panic
    else if sign a == sign b
    then ok (pos (magnitude a / magnitude b))
    else ok (sub_ℕ 0 (magnitude a / magnitude b))

unfoldable pub rem_i128 : ℤ → ℤ → Result ℤ
rem_i128 a b =
    if is_min a && eqb b (negsuc 0)
    then panic
    else ok (sub_ℕ (pos_part a % magnitude b) (neg_part a % magnitude b))

-- `!a`
abbrev pub not_i128 : ℤ → ℤ
not_i128 (pos n) = negsuc n
not_i128 (negsuc n) = pos n

unfoldable pub and_i128 : ℤ → ℤ → ℤ
unfolding to_bits of_bits
and_i128 a b = of_bits (bit_and (to_bits a) (to_bits b))

unfoldable pub or_i128 : ℤ → ℤ → ℤ
unfolding to_bits of_bits
or_i128 a b = of_bits (bit_or (to_bits a) (to_bits b))

unfoldable pub xor_i128 : ℤ → ℤ → ℤ
unfolding to_bits of_bits
xor_i128 a b = of_bits (bit_xor (to_bits a) (to_bits b))

abbrev is_amount : ℤ → Bool
is_amount (pos n) = ltb n 128
is_amount (negsuc n) = false

abbrev shifted_left : ℤ → ℕ → ℤ
shifted_left a n = of_bits (to_bits a * 2 ^ n % 2 ^ 128)

abbrev shifted_right : ℤ → ℕ → ℤ
shifted_right (pos a) n = pos (a / 2 ^ n)
shifted_right (negsuc a) n = negsuc (a / 2 ^ n)

-- An amount out of range is an overflow; without the check its low seven bits are taken.
unfoldable pub shl_i128 : Bool → ℤ → ℤ → Result ℤ
unfolding to_bits of_bits
shl_i128 checks a b =
    if checks && not (is_amount b) then panic else ok (shifted_left a (to_bits b % 128))

unfoldable pub shr_i128 : Bool → ℤ → ℤ → Result ℤ
unfolding to_bits
shr_i128 checks a b =
    if checks && not (is_amount b) then panic else ok (shifted_right a (to_bits b % 128))
