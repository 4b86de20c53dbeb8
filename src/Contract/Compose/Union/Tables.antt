-- ===== src/Contract/Compose/Union/Tables.antt =====
-- Tables in the order of their keys, as the maps of src/contract/compose.rs list their values.
use parc.Prelude.{
  ℕ, ◌<◌, ◌≡◌, ◌≢◌, ◌⊎◌, inl, inr, refl, sym, ap, subst, ◌∙◌, true, false, List, [], ◌∷◌, none,
  some, arith, ◌==◌, ==_iff, Bool-cases,
}
use mathlib.Core.Option.{some-injective}
use parc.Prelude.Lists.{All}
use parc.Contract.Compose.Union.{find}

trichotomy : (a b : ℕ) → (a < b) ⊎ ((b < a) ⊎ (a ≡ b))
trichotomy a b = ground arith

-- The keys of a table, each below the next.
unfoldable pub Increasing : {A : Type 0} → (A → ℕ) → List A → Type 0
Increasing key [] = Unit
Increasing key (x ∷ xs) = All (λ y. key x < key y) xs × Increasing key xs

module _ {A : Type 0} (key : A → ℕ) where
  -- Nothing is held under a key below all keys, or equal to one below.
  pub find-below : (k : ℕ) (xs : List A) → All (λ y. k < key y) xs → find key k xs ≡ none
  unfolding find
  find-below k [] h = refl
  find-below k (x ∷ xs) h = ground (arith, find-below k xs h.1)

  pub All-below :
      (j k : ℕ) (xs : List A) → j < k → All (λ y. k < key y) xs → All (λ y. j < key y) xs
  All-below j k [] lt h = tt
  All-below j k (x ∷ xs) lt h = (omega arith, All-below j k xs lt h.1)

  pub find-here : (k : ℕ) (x : A) (xs : List A) → key x ≡ k → find key k (x ∷ xs) ≡ some x
  unfolding find
  find-here k x xs e = ground arith

  pub find-there : (k : ℕ) (x : A) (xs : List A) → key x ≢ k → find key k (x ∷ xs) ≡ find key k xs
  unfolding find
  find-there k x xs n = ground arith

  pub find-key : (k : ℕ) (xs : List A) (x : A) → find key k xs ≡ some x → key x ≡ k
  unfolding find
  find-key k [] x h = cc
  find-key k (y ∷ ys) x h = elim (Bool-cases (key y == k)) [
    | inl e ↦
        let same : y ≡ x = ground arith in subst (λ z. key z ≡ k) same ((==_iff (key y) k).0 e)
    | inr e ↦ find-key k ys x (ground arith)
  ]

module _ {A : Type 0} (key : A → ℕ) where
  heads-eq :
      (x y : A) (xs ys : List A)
      → Increasing key (x ∷ xs)
      → Increasing key (y ∷ ys)
      → ((k : ℕ) → find key k (x ∷ xs) ≡ find key k (y ∷ ys))
      → x ≡ y
  unfolding Increasing
  heads-eq x y xs ys ix iy h = elim (trichotomy (key x) (key y)) [
    | inl lt ↦ cc (
      find-here key (key x) x xs refl,
      h (key x),
      find-below key (key x) (y ∷ ys) (lt, All-below key (key x) (key y) ys lt iy.0),
    )
    | inr (inl gt) ↦ cc (
      find-here key (key y) y ys refl,
      h (key y),
      find-below key (key y) (x ∷ xs) (gt, All-below key (key y) (key x) xs gt ix.0),
    )
    | inr (inr e) ↦
        some-injective x y
          (cc (find-here key (key x) x xs refl, h (key x), find-here key (key x) y ys (sym e)))
  ]

  -- A table is what it holds.
  pub extensional :
      (xs ys : List A)
      → Increasing key xs
      → Increasing key ys
      → ((k : ℕ) → find key k xs ≡ find key k ys)
      → xs ≡ ys
  extensional [] [] ix iy h = refl
  extensional [] (y ∷ ys) ix iy h = unfold find in cc (h (key y), find-here key (key y) y ys refl)
  extensional (x ∷ xs) [] ix iy h = unfold find in cc (h (key x), find-here key (key x) x xs refl)
  extensional (x ∷ xs) (y ∷ ys) ix iy h =
      let e = heads-eq x y xs ys ix iy h in
      let rest : (k : ℕ) → find key k xs ≡ find key k ys =
        λ k. tails k e (Bool-cases (key x == k)) in
      cc (e, extensional xs ys (unfold Increasing in ix.1) (unfold Increasing in iy.1) rest)
    where
      tails :
          (k : ℕ)
          → x ≡ y
          → (key x == k ≡ true) ⊎ (key x == k ≡ false)
          → find key k xs ≡ find key k ys
      tails k e (inl same) =
          let p = (==_iff (key x) k).0 same in
          find-below key k xs (subst (λ j. All (λ y. j < key y) xs) p (unfold Increasing in ix.0))
          ∙ sym (
              find-below key k ys (
                subst (λ j. All (λ y. j < key y) ys) (sym (ap key e) ∙ p)
                  (unfold Increasing in iy.0)))
      tails k e (inr other) =
          let n : key x ≢ k = ground arith in
          sym (find-there key k x xs n) ∙ h k ∙ find-there key k y ys (λ p. n (ap key e ∙ p))
