-- ===== src/Contract/Selection/Laws.antt =====
-- What a checked list of identifiers is (src/contract/selection.rs).
use parc.Prelude.{
  ℕ, subst, ◌⊎◌, ◌<◌, ◌≤◌, ◌+◌, ◌≡◌, ◌≢◌, refl, sym, ap, ◌∙◌, true, false, List, [], ◌∷◌, Option,
  none, some, arith, ◌==◌, leb, if◌then◌else◌, Bool-cases, inl, inr,
}
use parc.Prelude.Lists.{All}
use parc.Contract.Checked.{ok, err}
use parc.Contract.Selection.{
  DeclarationId, SelectionError, empty, duplicate, member, first_duplicate, insert, sort,
  sorted_unless, checked_ids,
}

abbrev pub Increasing : List DeclarationId → Type 0
Increasing [] = Unit
Increasing (x ∷ xs) = All (λ y. x < y) xs × Increasing xs

-- How often an identifier is listed.
pub count : DeclarationId → List DeclarationId → ℕ
count d [] = 0
count d (x ∷ xs) = (if x == d then 1 else 0) + count d xs

abbrev Distinct : List DeclarationId → Type 0
Distinct [] = Unit
Distinct (x ∷ xs) = (member xs x ≡ false) × Distinct xs

first_duplicate-seen :
    (seen xs : List DeclarationId) (d : DeclarationId)
    → first_duplicate seen xs ≡ none
    → member seen d ≡ true
    → member xs d ≡ false
unfolding first_duplicate member
first_duplicate-seen seen [] d h m = refl
first_duplicate-seen seen (x ∷ xs) d h m = ground (arith, first_duplicate-seen (x ∷ seen) xs d)

first_duplicate-Distinct :
    (seen xs : List DeclarationId) → first_duplicate seen xs ≡ none → Distinct xs
unfolding first_duplicate
first_duplicate-Distinct seen [] h = tt
first_duplicate-Distinct seen (x ∷ xs) h =
    let rest : first_duplicate (x ∷ seen) xs ≡ none = ground arith in
    (
      first_duplicate-seen (x ∷ seen) xs x rest (unfold member in ground arith),
      first_duplicate-Distinct (x ∷ seen) xs rest,
    )

-- A duplicate that is found was seen, or is listed twice.
first_duplicate-count :
    (seen xs : List DeclarationId) (d : DeclarationId)
    → first_duplicate seen xs ≡ some d
    → 1 ≤ count d xs
unfolding first_duplicate count
first_duplicate-count seen [] d h = cc
first_duplicate-count seen (x ∷ xs) d h = ground (arith, first_duplicate-count (x ∷ seen) xs d)

first_duplicate-twice :
    (seen xs : List DeclarationId) (d : DeclarationId)
    → first_duplicate seen xs ≡ some d
    → member seen d ≡ false
    → 2 ≤ count d xs
unfolding first_duplicate count member
first_duplicate-twice seen [] d h m = cc
first_duplicate-twice seen (x ∷ xs) d h m =
    ground (arith, first_duplicate-count (x ∷ seen) xs d, first_duplicate-twice (x ∷ seen) xs d)

count-insert :
    (d x : DeclarationId) (xs : List DeclarationId)
    → count d (insert x xs) ≡ (if x == d then 1 else 0) + count d xs
unfolding count insert
count-insert d x [] = refl
count-insert d x (y ∷ ys) = ground (arith, count-insert d x ys)

count-sort : (d : DeclarationId) (xs : List DeclarationId) → count d (sort xs) ≡ count d xs
unfolding sort count
count-sort d [] = refl
count-sort d (x ∷ xs) = omega (arith, count-insert d x (sort xs), count-sort d xs)

member-count : (d : DeclarationId) (xs : List DeclarationId) → member xs d ≡ false → count d xs ≡ 0
unfolding member count
member-count d [] h = refl
member-count d (x ∷ xs) h = ground (arith, member-count d xs)

All-insert :
    (y x : DeclarationId) (xs : List DeclarationId)
    → y < x
    → All (λ z. y < z) xs
    → All (λ z. y < z) (insert x xs)
unfolding insert
All-insert y x [] h a = (h, tt)
All-insert y x (z ∷ zs) h a = elim (Bool-cases (leb x z)) [
  | inl e ↦ rw e (h, a)
  | inr e ↦ rw e (a.0, All-insert y x zs h a.1)
]

All-lt :
    (x y : DeclarationId) (ys : List DeclarationId)
    → x < y
    → All (λ z. y < z) ys
    → All (λ z. x < z) ys
All-lt x y [] h a = tt
All-lt x y (z ∷ zs) h a = (omega arith, All-lt x y zs h a.1)

insert-Increasing :
    (x : DeclarationId) (xs : List DeclarationId)
    → count x xs ≡ 0
    → Increasing xs
    → Increasing (insert x xs)
unfolding insert count
insert-Increasing x [] c h = (tt, tt)
insert-Increasing x (y ∷ ys) c h = elim (Bool-cases (leb x y)) [
  | inl e ↦ let lt : x < y = ground arith in rw e ((lt, All-lt x y ys lt h.0), h)
  | inr e ↦ rw e (All-insert y x ys (ground arith) h.0, insert-Increasing x ys (ground arith) h.1)
]

sort-Increasing : (xs : List DeclarationId) → Distinct xs → Increasing (sort xs)
unfolding sort
sort-Increasing [] h = tt
sort-Increasing (x ∷ xs) h =
    insert-Increasing x (sort xs) (count-sort x xs ∙ member-count x xs h.0) (sort-Increasing xs h.1)

-- An accepted list is not empty, and comes back in increasing order, so without duplicates, with
-- the same identifiers.
pub checked_ids-ok :
    (ids out : List DeclarationId)
    → checked_ids ids ≡ ok out
    → (ids ≢ []) × Increasing out × ((d : DeclarationId) → count d out ≡ count d ids)
unfolding checked_ids
checked_ids-ok [] out h = cc
checked_ids-ok (x ∷ xs) out h = by_duplicate (first_duplicate [] (x ∷ xs)) refl h
  where
    by_duplicate :
        (o : Option DeclarationId)
        → first_duplicate [] (x ∷ xs) ≡ o
        → sorted_unless (x ∷ xs) o ≡ ok out
        → (x ∷ xs ≢ []) × Increasing out × ((d : DeclarationId) → count d out ≡ count d (x ∷ xs))
    by_duplicate (some d) e k = cc
    by_duplicate none e k =
        let same : sort (x ∷ xs) ≡ out = cc k in
        (
          cc,
          subst Increasing same (sort-Increasing (x ∷ xs) (first_duplicate-Distinct [] (x ∷ xs) e)),
          λ d. ap (count d) (sym same) ∙ count-sort d (x ∷ xs),
        )

-- A list is refused only if it is empty, with the error for that, or for an identifier that it holds
-- at least twice.
pub checked_ids-err :
    (ids : List DeclarationId) (e : SelectionError)
    → checked_ids ids ≡ err e
    → ((ids ≡ []) × (e ≡ empty)) ⊎ ((d : DeclarationId) × (e ≡ duplicate d) × (2 ≤ count d ids))
unfolding checked_ids
checked_ids-err [] e h = inl (refl, cc)
checked_ids-err (x ∷ xs) e h = inr (by_duplicate (first_duplicate [] (x ∷ xs)) refl h)
  where
    by_duplicate :
        (o : Option DeclarationId)
        → first_duplicate [] (x ∷ xs) ≡ o
        → sorted_unless (x ∷ xs) o ≡ err e
        → (d : DeclarationId) × (e ≡ duplicate d) × (2 ≤ count d (x ∷ xs))
    by_duplicate none q k = cc
    by_duplicate (some d) q k =
        (d, cc k, first_duplicate-twice [] (x ∷ xs) d q (unfold member in refl))
