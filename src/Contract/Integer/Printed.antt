-- ===== src/Contract/Integer/Printed.antt =====
-- The text of an exact integer is canonical, and is read back (src/contract/exact_integer.rs).
use parc.Prelude.{
  ℕ, zero, suc, ne→==, ◌-◌, ◌^◌, ◌≤◌, ◌≡◌, refl, sym, ap, subst, ◌∙◌, Bool, true, false, [], ◌∷◌,
  some, arith, ◌==◌, leb,
}
use parc.Prelude.Lists.{All, all}
use parc.Prelude.Int.{ℤ, pos, negsuc}
use parc.Prelude.Parse.{
  parse_i128, parse_unsigned, digits_value, at_most, magnitude, positive, negative,
}
use parc.Prelude.Text.{Text}
use parc.Prelude.Decimal.{decimal, digits_value-decimal, Significant, decimal-Significant}
use parc.Contract.Checked.{ok}
use parc.Contract.Integer.{
  signed_text, unsigned_text, is_ascii_digit, validate_decimal, read_signed, read_unsigned,
  is_signed, exact_text, read_exact,
}
use parc.Contract.Declarations.{ExactInteger, signed, unsigned}

all-digits : (s : Text) → All (λ b. (b'0' ≤ b) × (b ≤ b'9')) s → all is_ascii_digit s ≡ true
all-digits [] h = refl
all-digits (b ∷ bs) h = ground (arith, all-digits bs h.1)

leb-true : (a b : ℕ) → a ≤ b → leb a b ≡ true
leb-true a b h = ground arith

validate_decimal-first :
    (sign : Bool) (h : ℕ) (t : Text)
    → b'1' ≤ h
    → h ≤ b'9'
    → all is_ascii_digit t ≡ true
    → validate_decimal (h ∷ t) sign ≡ true
unfolding validate_decimal
validate_decimal-first sign h t lo hi d = ground arith

validate_decimal-minus :
    (h : ℕ) (t : Text)
    → b'1' ≤ h
    → h ≤ b'9'
    → all is_ascii_digit t ≡ true
    → validate_decimal (b'-' ∷ h ∷ t) true ≡ true
unfolding validate_decimal
validate_decimal-minus h t lo hi d = ground arith

-- What is printed of a number that is not 0 is accepted, with a sign and without.
Significant-valid : (s : Text) (sign : Bool) → Significant s → validate_decimal s sign ≡ true
Significant-valid s sign c =
    subst (λ t. validate_decimal t sign ≡ true) (sym c.shape)
      (validate_decimal-first sign c.first c.rest c.range.0 c.range.1 (all-digits c.rest c.digits))

Significant-minus : (s : Text) → Significant s → validate_decimal (b'-' ∷ s) true ≡ true
Significant-minus s c =
    subst (λ t. validate_decimal (b'-' ∷ t) true ≡ true) (sym c.shape)
      (validate_decimal-minus c.first c.rest c.range.0 c.range.1 (all-digits c.rest c.digits))

decimal-valid : (n : ℕ) (sign : Bool) → validate_decimal (decimal n) sign ≡ true
unfolding validate_decimal decimal
decimal-valid zero sign = refl
decimal-valid (suc n) sign =
    Significant-valid (decimal (suc n)) sign (decimal-Significant (suc n) (omega arith))

not_minus : (h : ℕ) → b'0' ≤ h → (h == b'-') ≡ false
not_minus h lo = ne→== (omega arith)

not_plus : (h : ℕ) → b'0' ≤ h → (h == b'+') ≡ false
not_plus h lo = ne→== (omega arith)

not_zero : (v : ℕ) → (suc v == 0) ≡ false
not_zero v = ne→== (omega arith)

at_most-le : (bound v : ℕ) → v ≤ bound → at_most bound (some v) ≡ some v
at_most-le bound v h = rw (leb-true v bound h) refl

-- What is read of a text without a sign.
parse_i128-first :
    (h : ℕ) (t : Text) (v : ℕ)
    → b'0' ≤ h
    → digits_value 10 0 (h ∷ t) ≡ some v
    → v ≤ 2 ^ 127 - 1
    → parse_i128 10 (h ∷ t) ≡ some (pos v)
unfolding parse_i128
parse_i128-first h t v lo e le =
    rw (not_minus h lo, not_plus h lo)
      (ap (λ o. positive (at_most (2 ^ 127 - 1) o)) e ∙ ap positive (at_most-le (2 ^ 127 - 1) v le))

parse_unsigned-first :
    (bound h : ℕ) (t : Text) (v : ℕ)
    → b'0' ≤ h
    → digits_value 10 0 (h ∷ t) ≡ some v
    → v ≤ bound
    → parse_unsigned bound 10 (h ∷ t) ≡ some v
unfolding parse_unsigned
parse_unsigned-first bound h t v lo e le =
    rw (not_plus h lo) (ap (at_most bound) e ∙ at_most-le bound v le)

parse_i128-minus :
    (s : Text) (v : ℕ)
    → magnitude 10 s ≡ some (suc v)
    → suc v ≤ 2 ^ 127
    → parse_i128 10 (b'-' ∷ s) ≡ some (negsuc v)
unfolding parse_i128
parse_i128-minus s v e le =
    ap (λ o. negative (at_most (2 ^ 127) o)) e
    ∙ ap negative (at_most-le (2 ^ 127) (suc v) le)
    ∙ rw (not_zero v) (ap (λ x. some (negsuc x)) (omega arith))

magnitude-decimal : (n : ℕ) → 1 ≤ n → magnitude 10 (decimal n) ≡ some n
magnitude-decimal n h =
    let c = decimal-Significant n h in
    subst (λ t. magnitude 10 t ≡ some n) (sym c.shape)
      (subst (λ t. digits_value 10 0 t ≡ some n) c.shape (digits_value-decimal n))

parse_i128-decimal : (n : ℕ) → n ≤ 2 ^ 127 - 1 → parse_i128 10 (decimal n) ≡ some (pos n)
unfolding parse_i128 decimal digits_value
parse_i128-decimal zero h = refl
parse_i128-decimal (suc n) h =
    let c = decimal-Significant (suc n) (omega arith) in
    subst (λ t. parse_i128 10 t ≡ some (pos (suc n))) (sym c.shape)
      (parse_i128-first c.first c.rest (suc n) (omega (arith, c.range.0))
        (subst (λ t. digits_value 10 0 t ≡ some (suc n)) c.shape (digits_value-decimal (suc n))) h)

parse_unsigned-decimal : (bound n : ℕ) → n ≤ bound → parse_unsigned bound 10 (decimal n) ≡ some n
unfolding decimal digits_value
parse_unsigned-decimal bound zero h = parse_unsigned-first bound b'0' [] 0 (omega arith) refl h
parse_unsigned-decimal bound (suc n) h =
    let c = decimal-Significant (suc n) (omega arith) in
    subst (λ t. parse_unsigned bound 10 t ≡ some (suc n)) (sym c.shape)
      (parse_unsigned-first bound c.first c.rest (suc n) (omega (arith, c.range.0))
        (subst (λ t. digits_value 10 0 t ≡ some (suc n)) c.shape (digits_value-decimal (suc n))) h)

abbrev pub IsI128 : ℤ → Type 0
IsI128 (pos n) = n ≤ 2 ^ 127 - 1
IsI128 (negsuc n) = suc n ≤ 2 ^ 127

read_signed-signed_text : (z : ℤ) → IsI128 z → read_signed (signed_text z) ≡ ok z
unfolding read_signed signed_text
read_signed-signed_text (pos n) h = rw (decimal-valid n true, parse_i128-decimal n h) refl
read_signed-signed_text (negsuc n) h =
    rw
      (
        Significant-minus (decimal (suc n)) (decimal-Significant (suc n) (omega arith)),
        parse_i128-minus (decimal (suc n)) n (magnitude-decimal (suc n) (omega arith)) h,
      )
      refl

read_unsigned-unsigned_text : (n : ℕ) → n ≤ 2 ^ 128 - 1 → read_unsigned (unsigned_text n) ≡ ok n
unfolding read_unsigned unsigned_text
read_unsigned-unsigned_text n h =
    rw (decimal-valid n false, parse_unsigned-decimal (2 ^ 128 - 1) n h) refl

abbrev pub IsExact : ExactInteger → Type 0
IsExact (signed z) = IsI128 z
IsExact (unsigned n) = n ≤ 2 ^ 128 - 1

-- The text of an i128 or a u128 is canonical, and is read back under its sign tag.
pub read_exact-exact_text :
    (x : ExactInteger) → IsExact x → read_exact (is_signed x) (exact_text x) ≡ ok x
unfolding read_exact exact_text
read_exact-exact_text (signed z) h = rw (read_signed-signed_text z h) refl
read_exact-exact_text (unsigned n) h = rw (read_unsigned-unsigned_text n h) refl
