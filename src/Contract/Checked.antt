-- ===== src/Contract/Checked.antt =====
-- `Result<A, E>` of the functions of src/contract.
use parc.Prelude.{◌≡◌, refl, ap, ◌⊎◌, inl, inr}

pub data Checked {ℓ κ} (E : Type ℓ) (A : Type κ) : Type (ℓ ⊔ κ) where
  ok : A → Checked E A
  err : E → Checked E A

-- `?`
infixl 5 ◌>>=◌
abbrev pub ◌>>=◌ {ℓ κ μ} :
    {E : Type ℓ} {A : Type κ} {B : Type μ} → Checked E A → (A → Checked E B) → Checked E B
ok a >>= f = f a
err e >>= f = err e

abbrev or_else {ℓ κ} : {E : Type ℓ} {A : Type κ} → A → Checked E A → A
or_else a (ok b) = b
or_else a (err _) = a

abbrev err_or {ℓ κ} : {E : Type ℓ} {A : Type κ} → E → Checked E A → E
err_or e (ok _) = e
err_or e (err f) = f

module _ {ℓ κ} {E : Type ℓ} {A : Type κ} where
  pub ok-injective : {a b : A} → Path (Checked E A) (ok a) (ok b) → a ≡ b
  ok-injective {a} p = ap (or_else a) p

  pub err-injective : {e f : E} → Path (Checked E A) (err e) (err f) → e ≡ f
  err-injective {e} p = ap (err_or e) p

  -- A bind that succeeded went through a value of its first part.
  pub ok_inverts {μ} :
      {B : Type μ} {b : B} (r : Checked E A) (k : A → Checked E B)
      → (r >>= k) ≡ ok b
      → (a : A) × (r ≡ ok a) × (k a ≡ ok b)
  ok_inverts (ok a) k h = (a, refl, h)
  ok_inverts (err e) k h = cc

  -- One that failed did so in its first part, or in the rest.
  pub err_inverts {μ} :
      {B : Type μ} {e : E} (r : Checked E A) (k : A → Checked E B)
      → (r >>= k) ≡ err e
      → (r ≡ err e) ⊎ ((a : A) × (r ≡ ok a) × (k a ≡ err e))
  err_inverts (ok a) k h = inr (a, refl, h)
  err_inverts (err f) k h = inl (ap err (ap (err_or f) h))
