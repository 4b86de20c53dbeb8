-- ===== src/Contract/Compose/Union/Commute.antt =====
-- The order of the two tables of a merge does not matter (src/contract/compose.rs).
use mathlib.Core.Option.{some-injective}
use parc.Prelude.{
  inl, inr, ℕ, ◌≡◌, refl, sym, ap, subst, ◌∙◌, List, [], ◌∷◌, Option, none, some, arith, ◌==◌,
  Bool-cases,
}
use parc.Prelude.Lists.{All}
use parc.Contract.Checked.{Checked, ok, err, ok-injective, ok_inverts}
use parc.Contract.Compose.Union.{union, find}
use parc.Contract.Compose.Union.Tables.{Increasing, extensional, find-key}
use parc.Contract.Compose.Union.Pointwise.{join, Merged, union-Merged, union-err}

pub All-trivial : {A : Type 0} (xs : List A) → All (λ _. Unit {0}) xs
All-trivial [] = tt
All-trivial (x ∷ xs) = (tt, All-trivial xs)

module _ {A : Type 0} (key : A → ℕ) (Good : A → Type 0) where
  pub find-Good : (k : ℕ) (xs : List A) (x : A) → All Good xs → find key k xs ≡ some x → Good x
  unfolding find
  find-Good k [] x g h = cc
  find-Good k (y ∷ ys) x g h = elim (Bool-cases (key y == k)) [
    | inl e ↦ subst Good (some-injective y x (ground arith)) g.0
    | inr e ↦ find-Good k ys x g.1 (ground arith)
  ]

module _ {E A : Type 0} (key : A → ℕ) (combine : A → A → Checked E A)
    (keeps : (x y c : A) → combine x y ≡ ok c → key c ≡ key x) (Good : A → Type 0)
    (commutes : (x y c : A)
      → Good x
      → Good y
      → key x ≡ key y
      → combine x y ≡ ok c
      → combine y x ≡ ok c) where
  GoodOption : Option A → Type 0
  GoodOption none = Unit
  GoodOption (some x) = Good x

  -- The items on the two sides of a merge that combine there, combine in the other order.
  join-commutes :
      (k : ℕ) (l r : List A) (c : Option A)
      → All Good l
      → All Good r
      → join key combine (find key k l) (find key k r) ≡ ok c
      → join key combine (find key k r) (find key k l) ≡ ok c
  join-commutes k l r c gl gr h = by_found (find key k l) (find key k r) refl refl h
    where
      by_found :
          (x y : Option A)
          → find key k l ≡ x
          → find key k r ≡ y
          → join key combine x y ≡ ok c
          → join key combine y x ≡ ok c
      by_found none none p q h = h
      by_found none (some y) p q h = h
      by_found (some x) none p q h = h
      by_found (some x) (some y) p q h =
          let (d, e, f) = ok_inverts (combine x y) (λ c. ok (some c)) h in
          let same = find-key key k l x p ∙ sym (find-key key k r y q) in
          rw (commutes x y d (find-Good key Good k l x gl p) (find-Good key Good k r y gr q) same e)
            f

  -- The order of the tables does not matter where they merge.
  pub union_comm :
      (l r m : List A)
      → Increasing key l
      → Increasing key r
      → All Good l
      → All Good r
      → union key combine l r ≡ ok m
      → union key combine r l ≡ ok m
  union_comm l r m il ir gl gr h = by_result (union key combine r l) refl
    where
      there : Merged key combine l r m
      there = union-Merged key combine keeps l r m h il ir

      by_result : (o : Checked E (List A)) → union key combine r l ≡ o → o ≡ ok m
      by_result (ok n) e =
          let back = union-Merged key combine keeps r l n e ir il in
          ap ok (
            extensional key n m back.order there.order (λ k.
              ok-injective
                (sym (back.held k) ∙ join-commutes k l r (find key k m) gl gr (there.held k))))
      by_result (err f) e =
          let (k, x, y, p, q, c) = union-err key combine keeps r l f e ir il in
          cc (join-commutes k l r (find key k m) gl gr (there.held k), p, q, c)
