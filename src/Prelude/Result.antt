-- ===== src/Prelude/Result.antt =====
-- The outcome of a run of Rust code: a value, a panic, or fuel that ran out, which the program has
-- no counterpart of.
use mathlib.Core.Path.{◌≡◌, refl, ap, subst}
use mathlib.Core.Logic.{◌≢◌}

pub data Result {ℓ} (A : Type ℓ) : Type ℓ where
  ok : A → Result A
  panic out_of_fuel : Result A

infixl 5 ◌>>=◌
abbrev pub ◌>>=◌ {ℓ κ} : {A : Type ℓ} {B : Type κ} → Result A → (A → Result B) → Result B
ok a >>= f = f a
panic >>= f = panic
out_of_fuel >>= f = out_of_fuel

-- The run ended within its fuel, and `P` holds of its value if it has one.
pub data Ensures {ℓ κ} {A : Type ℓ} (P : A → Type κ) : Result A → Type (ℓ ⊔ κ) where
  returns : {a : A} → P a → Ensures P (ok a)
  panics : Ensures P panic

module _ {ℓ κ} {A : Type ℓ} {P : A → Type κ} where
  pub Ensures-ne-out_of_fuel : {r : Result A} → Ensures P r → r ≢ out_of_fuel
  Ensures-ne-out_of_fuel (returns h) = cc
  Ensures-ne-out_of_fuel panics = cc

  pub Ensures-ok : {r : Result A} {a : A} → Ensures P r → r ≡ ok a → P a
  Ensures-ok (returns h) e = subst P (cc) h
  Ensures-ok panics e = cc

  pub Ensures-bind {ℓ' κ'} :
      {B : Type ℓ'} {Q : B → Type κ'} {r : Result A} {f : A → Result B}
      → Ensures P r
      → ((a : A) → P a → Ensures Q (f a))
      → Ensures Q (r >>= f)
  Ensures-bind (returns h) k = k _ h
  Ensures-bind panics k = panics

-- A bind that returned went through a value of its first part.
pub bind_inverts {ℓ κ} :
    {T : Type ℓ} {U : Type κ} {u : U} (r : Result T) (k : T → Result U)
    → (r >>= k) ≡ ok u
    → (t : T) × (r ≡ ok t) × (k t ≡ ok u)
bind_inverts out_of_fuel k e = cc
bind_inverts panic k e = cc
bind_inverts (ok t) k e = (t, refl, e)

pub bind_assoc {ℓ κ μ} :
    {A : Type ℓ} {B : Type κ} {C : Type μ} (m : Result A) (f : A → Result B) (g : B → Result C)
    → (m >>= f >>= g) ≡ (m >>= λ a. f a >>= g)
bind_assoc (ok a) f g = refl
bind_assoc panic f g = refl
bind_assoc out_of_fuel f g = refl

pub bind_congr {ℓ κ} :
    {A : Type ℓ} {B : Type κ} (m : Result A) {f g : A → Result B}
    → ((a : A) → f a ≡ g a)
    → (m >>= f) ≡ (m >>= g)
bind_congr m p = λ i. m >>= λ a. p a i

abbrev or_else {ℓ} : {A : Type ℓ} → A → Result A → A
or_else a (ok b) = b
or_else a _ = a

pub ok-injective {ℓ} : {A : Type ℓ} {a b : A} → ok a ≡ ok b → a ≡ b
ok-injective {a = a} p = ap (or_else a) p

pub ends {ℓ} : {A : Type ℓ} (r : Result A) → r ≢ out_of_fuel → Ensures (λ _. Unit {0}) r
ends (ok a) n = returns tt
ends panic n = panics
ends out_of_fuel n = absurd (n refl)
