-- ===== src/Contract/Selection.antt =====
-- src/contract/selection.rs. A declaration identifier is the number that its 32 bytes spell, the
-- highest first: the derived order of the bytes is the order of these numbers.
pub mod Laws
use parc.Prelude.{ℕ, Bool, true, false, List, [], ◌∷◌, Option, none, some, leb, ◌==◌, if◌then◌else◌}
use parc.Contract.Checked.{Checked, ok, err}

abbrev pub DeclarationId : Type 0
DeclarationId = ℕ

pub data Selection : Type 0 where
  all_supported : Selection
  only opaque_only : List DeclarationId → Selection

pub data SelectionError : Type 0 where
  empty : SelectionError
  duplicate : DeclarationId → SelectionError

unfoldable pub member : List DeclarationId → DeclarationId → Bool
member [] d = false
member (x ∷ xs) d = if x == d then true else member xs d

-- The loop over the identifiers with the set of those seen.
unfoldable pub first_duplicate : List DeclarationId → List DeclarationId → Option DeclarationId
unfolding member
first_duplicate seen [] = none
first_duplicate seen (x ∷ xs) =
    let rest = first_duplicate (x ∷ seen) xs in if member seen x then some x else rest

-- `sort_unstable`, on numbers, where stability makes no difference.
unfoldable pub insert : DeclarationId → List DeclarationId → List DeclarationId
insert x [] = x ∷ []
insert x (y ∷ ys) = let rest = y ∷ insert x ys in if leb x y then x ∷ y ∷ ys else rest

unfoldable pub sort : List DeclarationId → List DeclarationId
unfolding insert
sort [] = []
sort (x ∷ xs) = insert x (sort xs)

abbrev pub sorted_unless :
    List DeclarationId → Option DeclarationId → Checked SelectionError (List DeclarationId)
sorted_unless ids none = ok (sort ids)
sorted_unless ids (some d) = err (duplicate d)

unfoldable pub checked_ids : List DeclarationId → Checked SelectionError (List DeclarationId)
unfolding first_duplicate sort
checked_ids [] = err empty
checked_ids (x ∷ xs) = sorted_unless (x ∷ xs) (first_duplicate [] (x ∷ xs))

abbrev checked_map :
    (List DeclarationId → Selection)
    → Checked SelectionError (List DeclarationId)
    → Checked SelectionError Selection
checked_map f (ok ids) = ok (f ids)
checked_map f (err e) = err e

-- `Selection::only` and `Selection::opaque`
unfoldable pub select_only : List DeclarationId → Checked SelectionError Selection
unfolding checked_ids
select_only ids = checked_map only (checked_ids ids)

unfoldable pub select_opaque : List DeclarationId → Checked SelectionError Selection
unfolding checked_ids
select_opaque ids = checked_map opaque_only (checked_ids ids)

unfoldable pub roots : Selection → Option (List DeclarationId)
roots all_supported = none
roots (only ids) = some ids
roots (opaque_only ids) = some ids
