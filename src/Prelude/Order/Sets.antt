-- ===== src/Prelude/Order/Sets.antt =====
-- What a set that is collected from a list holds, for an order that tells unequal elements apart.
use Prim.Native.Nat.{compare, Ordering}
use mathlib.Core.Path.{◌≡◌, refl, ap, ◌∙◌}
use mathlib.Core.Logic.{◌↔◌, ◌⊎◌, inl, inr}
use mathlib.Core.List.{List, [], ◌∷◌, Memᴰ}
use mathlib.Core.List.Memᴰ
use mathlib.Core.Option.{none, some}
use native.Mathlib.Omega.{arith}
use parc.Prelude.Order.{then_with, compare_list, compare_option, insert_set, insert_all, to_set}

-- Elements that compare as equal are equal.
abbrev pub Separates {ℓ} : {A : Type ℓ} → (A → A → Ordering) → Type ℓ
Separates cmp = (x y : _) → cmp x y ≡ Ordering.eq → x ≡ y

pub then_with_eq :
    (a b : Ordering) → then_with a b ≡ Ordering.eq → (a ≡ Ordering.eq) × (b ≡ Ordering.eq)
then_with_eq Ordering.lt b h = cc
then_with_eq Ordering.eq b h = (refl, h)
then_with_eq Ordering.gt b h = cc

pub compare-Separates : Separates compare
compare-Separates x y h = ground arith

pub Mem-cons {ℓ} : {A : Type ℓ} (z x : A) (xs : List A) → Memᴰ z (x ∷ xs) ↔ ((z ≡ x) ⊎ Memᴰ z xs)
Mem-cons z x xs =
    (λ m. Memᴰ.cases_cons m, λ c. elim c [ inl e ↦ Memᴰ.head e | inr m ↦ Memᴰ.tail m ])

module _ {ℓ} {A : Type ℓ} (cmp : A → A → Ordering) (separates : Separates cmp) where
  pub compare_list-Separates : Separates (compare_list cmp)
  unfolding compare_list
  compare_list-Separates [] [] h = refl
  compare_list-Separates [] (y ∷ ys) h = cc
  compare_list-Separates (x ∷ xs) [] h = cc
  compare_list-Separates (x ∷ xs) (y ∷ ys) h =
      let (p, q) = then_with_eq (cmp x y) (compare_list cmp xs ys) h in
      cc (separates x y p, compare_list-Separates xs ys q)

  pub compare_option-Separates : Separates (compare_option cmp)
  compare_option-Separates none none h = refl
  compare_option-Separates none (some y) h = cc
  compare_option-Separates (some x) none h = cc
  compare_option-Separates (some x) (some y) h = ap some (separates x y h)

  Mem-insert_set :
      (x : A) (ys : List A) (z : A) → Memᴰ z (insert_set cmp x ys) ↔ ((z ≡ x) ⊎ Memᴰ z ys)
  unfolding insert_set
  Mem-insert_set x [] z = Mem-cons z x []
  Mem-insert_set x (y ∷ ys) z = by_order (cmp x y) refl (Mem-insert_set x ys z)
    where
      after : Ordering → List A
      after o = elim o [
        | Ordering.lt ↦ x ∷ y ∷ ys
        | Ordering.eq ↦ y ∷ ys
        | Ordering.gt ↦ y ∷ insert_set cmp x ys
      ]

      by_order :
          (o : Ordering)
          → cmp x y ≡ o
          → (Memᴰ z (insert_set cmp x ys) ↔ ((z ≡ x) ⊎ Memᴰ z ys))
          → Memᴰ z (after o) ↔ ((z ≡ x) ⊎ Memᴰ z (y ∷ ys))
      by_order Ordering.lt e ih = Mem-cons z x (y ∷ ys)
      by_order Ordering.eq e ih =
          let same = separates x y e in
          (λ m. inr m, λ c. elim c [ inl p ↦ Memᴰ.head (p ∙ same) | inr m ↦ m ])
      by_order Ordering.gt e ih =
          ground (arith, ih, Mem-cons z y ys, Mem-cons z y (insert_set cmp x ys))

  Mem-insert_all :
      (set xs : List A) (z : A) → Memᴰ z (insert_all cmp set xs) ↔ (Memᴰ z set ⊎ Memᴰ z xs)
  unfolding insert_all
  Mem-insert_all set [] z =
      (λ m. inl m, λ c. elim c [ inl m ↦ m | inr m ↦ absurd (Memᴰ.not-nil m) ])
  Mem-insert_all set (x ∷ xs) z =
      ground
        (arith, Mem-insert_all (insert_set cmp x set) xs z, Mem-insert_set x set z, Mem-cons z x xs)

  pub Mem-to_set : (xs : List A) (z : A) → Memᴰ z (to_set cmp xs) ↔ Memᴰ z xs
  unfolding to_set
  Mem-to_set xs z =
      let m = Mem-insert_all [] xs z in
      (λ h. elim (m.0 h) [ inl n ↦ absurd (Memᴰ.not-nil n) | inr n ↦ n ], λ h. m.1 (inr h))
