-- ===== src/Prelude/Order.antt =====
-- Derived `Ord` of Rust: fields and elements in their order, the first difference decides. And
-- `BTreeSet` as the list of its elements in that order.
pub mod Sets
use Prim.Native.Nat.{ℕ, compare, Ordering}
use mathlib.Core.Path.{◌≡◌, refl}
use mathlib.Core.Logic.{◌↔◌}
use mathlib.Core.Bool.{Bool, true, false}
use mathlib.Core.List.{List, [], ◌∷◌}
use mathlib.Core.Option.{Option, none, some}

abbrev pub then_with : Ordering → Ordering → Ordering
then_with Ordering.lt o = Ordering.lt
then_with Ordering.eq o = o
then_with Ordering.gt o = Ordering.gt

-- A decision as a Boolean.
abbrev pub decided {ℓ} : {P : Type ℓ} → Dec P → Bool
decided (yes _) = true
decided (no _) = false

-- A derived `==`.
abbrev pub same {ℓ} : {A : Type ℓ} → Discrete A → A → A → Bool
same d a b = decided (d a b)

pub decided_iff {ℓ} : {P : Type ℓ} (d : Dec P) → (decided d ≡ true) ↔ P
decided_iff (yes p) = (λ _. p, λ _. refl)
decided_iff (no n) = (λ e. cc, λ p. absurd (n p))

pub same_iff {ℓ} : {A : Type ℓ} (d : Discrete A) (a b : A) → (same d a b ≡ true) ↔ (a ≡ b)
same_iff d a b = decided_iff (d a b)

module _ {ℓ} {A : Type ℓ} (cmp : A → A → Ordering) where
  unfoldable pub compare_list : List A → List A → Ordering
  compare_list [] [] = Ordering.eq
  compare_list [] (y ∷ ys) = Ordering.lt
  compare_list (x ∷ xs) [] = Ordering.gt
  compare_list (x ∷ xs) (y ∷ ys) = then_with (cmp x y) (compare_list xs ys)

  abbrev pub compare_option : Option A → Option A → Ordering
  compare_option none none = Ordering.eq
  compare_option none (some y) = Ordering.lt
  compare_option (some x) none = Ordering.gt
  compare_option (some x) (some y) = cmp x y

  -- `BTreeSet::insert`: an element that is there stays.
  unfoldable pub insert_set : A → List A → List A
  insert_set x [] = x ∷ []
  insert_set x (y ∷ ys) =
      let rest = insert_set x ys in
      elim (cmp x y) [ Ordering.lt ↦ x ∷ y ∷ ys | Ordering.eq ↦ y ∷ ys | Ordering.gt ↦ y ∷ rest ]

  unfoldable pub insert_all : List A → List A → List A
  unfolding insert_set
  insert_all set [] = set
  insert_all set (x ∷ xs) = insert_all (insert_set x set) xs

  -- `collect::<BTreeSet<_>>()`
  unfoldable pub to_set : List A → List A
  unfolding insert_all
  to_set xs = insert_all [] xs
