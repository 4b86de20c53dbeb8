-- ===== src/Prelude/Decimal.antt =====
-- `to_string` of the unsigned integers of Rust, and that `parse` reads it back.
use Prim.Native.Nat.{ℕ, zero, suc, ◌+◌, ◌*◌, ◌/◌, ◌%◌, ◌<◌, ◌≤◌}
use mathlib.Core.Path.{◌≡◌, refl, ap, ◌∙◌}
use mathlib.Core.Logic.{inl, inr}
use mathlib.Core.List.{[], ◌∷◌, ◌++◌}
use mathlib.Core.Option.{some, some-injective}
use native.Mathlib.Omega.{arith}
use parc.Prelude.Tests.{ltb, ltb_iff, if◌then◌else◌, Bool-cases}
use parc.Prelude.Lists.{All}
use parc.Prelude.Text.{Text}
use parc.Prelude.Parse.{digit_value, digits_value}

-- The digits, on fuel.
unfoldable pub decimal_loop : ℕ → ℕ → Text
decimal_loop zero n = []
decimal_loop (suc f) n =
    let rest = decimal_loop f (n / 10) in
    if ltb n 10 then (b'0' + n) ∷ [] else rest ++ (b'0' + n % 10) ∷ []

unfoldable pub decimal : ℕ → Text
unfolding decimal_loop
decimal n = decimal_loop (suc n) n

digit_value-digit : (d : ℕ) → d < 10 → digit_value (b'0' + d) ≡ d
digit_value-digit d h = ground arith

digits_value-digit :
    (acc d : ℕ) → d < 10 → digits_value 10 acc ((b'0' + d) ∷ []) ≡ some (acc * 10 + d)
unfolding digits_value
digits_value-digit acc d h = rw (digit_value-digit d h, (ltb_iff d 10).1 h) refl

digits_value-append :
    (acc : ℕ) (s : Text) (d v : ℕ)
    → digits_value 10 acc s ≡ some v
    → d < 10
    → digits_value 10 acc (s ++ (b'0' + d) ∷ []) ≡ some (v * 10 + d)
unfolding digits_value
digits_value-append acc [] d v h lt =
    rw (digit_value-digit d lt, (ltb_iff d 10).1 lt)
      (ap (λ a. some (a * 10 + d)) (some-injective acc v h))
digits_value-append acc (b ∷ bs) d v h lt = elim (Bool-cases (ltb (digit_value b) 10)) [
  | inl e ↦ rw e (digits_value-append (acc * 10 + digit_value b) bs d v (rw e at h) lt)
  | inr e ↦ cc (rw e at h)
]

digits_value-decimal_loop : (f n : ℕ) → n < f → digits_value 10 0 (decimal_loop f n) ≡ some n
unfolding decimal_loop
digits_value-decimal_loop zero n h = absurd (omega arith)
digits_value-decimal_loop (suc f) n h = elim (Bool-cases (ltb n 10)) [
  | inl lt ↦ rw lt (digits_value-digit 0 n ((ltb_iff n 10).0 lt) ∙ ap some (omega arith))
  | inr ge ↦
      let big : 10 ≤ n = ground arith in
      let ih = digits_value-decimal_loop f (n / 10) (omega arith) in
      rw ge (
        digits_value-append 0 (decimal_loop f (n / 10)) (n % 10) (n / 10) ih (omega arith)
        ∙ ap some (omega arith))
]

-- The digits of a number are read as the number.
pub digits_value-decimal : (n : ℕ) → digits_value 10 0 (decimal n) ≡ some n
unfolding decimal
digits_value-decimal n = digits_value-decimal_loop (suc n) n (omega arith)

-- A digit but `0`, and digits behind it.
pub record Significant (s : Text) : Type 0 where
  pub first : ℕ
  pub rest : Text
  pub shape : s ≡ first ∷ rest
  pub range : (b'1' ≤ first) × (first ≤ b'9')
  pub digits : All (λ b. (b'0' ≤ b) × (b ≤ b'9')) rest

All-last : (P : ℕ → Type 0) (s : Text) (b : ℕ) → All P s → P b → All P (s ++ b ∷ [])
All-last P [] b h p = (p, tt)
All-last P (x ∷ xs) b h p = (h.0, All-last P xs b h.1 p)

decimal_loop-Significant : (f n : ℕ) → n < f → 1 ≤ n → Significant (decimal_loop f n)
unfolding decimal_loop
decimal_loop-Significant zero n h p = absurd (omega arith)
decimal_loop-Significant (suc f) n h p = elim (Bool-cases (ltb n 10)) [
  | inl lt ↦ rw lt (
      let q : n < 10 = (ltb_iff n 10).0 lt in
      record {
        first = b'0' + n;
        rest = [];
        shape = refl;
        range = (omega arith, omega arith);
        digits = tt;
      })
  | inr ge ↦
      let big : 10 ≤ n = ground arith in
      let s = decimal_loop-Significant f (n / 10) (omega arith) (omega arith) in
      rw ge (record {
        first = s.first;
        rest = s.rest ++ (b'0' + n % 10) ∷ [];
        shape = ap (λ t. t ++ (b'0' + n % 10) ∷ []) s.shape;
        range = s.range;
        digits =
            All-last (λ b. (b'0' ≤ b) × (b ≤ b'9')) s.rest (b'0' + n % 10) s.digits
              (omega arith, omega arith);
      })
]

pub decimal-Significant : (n : ℕ) → 1 ≤ n → Significant (decimal n)
unfolding decimal
decimal-Significant n h = decimal_loop-Significant (suc n) n (omega arith) h
