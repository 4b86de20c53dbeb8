-- ===== src/Contract/Compose/Union.antt =====
-- The merge of two tables by key, as the four `merge_…` loops of src/contract/compose.rs do it with
-- the `entry` of a BTreeMap: an item with a new key is inserted, one with a key that is there is
-- combined with the item there. The map is the list of its values in the order of their keys.
pub mod Tables
mod Added
pub mod Pointwise
pub mod Commute
pub mod Exact
use parc.Prelude.{ℕ, List, [], ◌∷◌, ◌++◌, Option, none, some, ltb, ◌==◌, if◌then◌else◌}
use parc.Contract.Checked.{Checked, ok, err, ◌>>=◌}

module _ {E A : Type 0} (key : A → ℕ) (combine : A → A → Checked E A) where
  unfoldable pub add : A → List A → Checked E (List A)
  add x [] = ok (x ∷ [])
  add x (y ∷ ys) =
      let rest = add x ys >>= λ ys'. ok (y ∷ ys') in
      if ltb (key x) (key y)
      then ok (x ∷ y ∷ ys)
      else if key x == key y
      then (combine y x >>= λ c. ok (c ∷ ys))
      else rest

  -- The loop over the items.
  unfoldable pub add_all : List A → List A → Checked E (List A)
  unfolding add
  add_all map [] = ok map
  add_all map (x ∷ xs) = add x map >>= λ map'. add_all map' xs

  unfoldable pub union : List A → List A → Checked E (List A)
  unfolding add_all
  union left right = add_all [] (left ++ right)

-- What a table holds under a key.
unfoldable pub find : {A : Type 0} → (A → ℕ) → ℕ → List A → Option A
find key k [] = none
find key k (x ∷ xs) = let rest = find key k xs in if key x == k then some x else rest
