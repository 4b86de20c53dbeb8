-- ===== src/Contract/Compose/Merge/Files.antt =====
-- The merge of file tables of src/contract/compose.rs.
use parc.Prelude.{◌≡◌, ◌≢◌, ◌⊎◌, inl, inr, ◌↔◌, sym, ap, ◌∙◌, List, some, Bool-cases}
use parc.Prelude.Order.{same, same_iff}
use parc.Contract.Checked.{ok, err, ok-injective, err-injective}
use parc.Contract.Diagnostics.{FileId, SourceFile}
use parc.Contract.Compose.Equal.{SourceFile-discrete}
use parc.Contract.Compose.Union.{find}
use parc.Contract.Compose.Union.Tables.{Increasing, find-key}
use parc.Contract.Compose.Union.Pointwise.{union-err}
use parc.Contract.Compose.Union.Exact.{union-exact}
use parc.Contract.Compose.Merge.{
  ComposeError, conflicting_file, require_same, combine_file, merge_files,
}

module _ {A B : Type 0} (d : Discrete A) (conflict : ComposeError B) where
  pub require_same-ok : (x y c : A) → require_same d conflict x y ≡ ok c → (x ≡ y) × (x ≡ c)
  require_same-ok x y c h = elim (Bool-cases (same d x y)) [
    | inl e ↦ ((same_iff d x y).0 e, ok-injective (rw (e) at h))
    | inr e ↦ cc (rw e at h)
  ]

  pub require_same-err :
      (x y : A) (e : ComposeError B)
      → require_same d conflict x y ≡ err e
      → (x ≢ y) × (e ≡ conflict)
  require_same-err x y e h = elim (Bool-cases (same d x y)) [
    | inl s ↦ cc (rw s at h)
    | inr s ↦ (λ p. cc ((same_iff d x y).1 p), err-injective (sym (rw s at h)))
  ]

  pub require_same_comm :
      (x y c : A) → require_same d conflict x y ≡ ok c → require_same d conflict y x ≡ ok c
  require_same_comm x y c h =
      let (p, q) = require_same-ok x y c h in rw ((same_iff d y x).1 (sym p)) (ap ok (sym p ∙ q))

module _ {B : Type 0} where
  combine_file-ok : (x y c : SourceFile) → combine_file {B = B} x y ≡ ok c → (x ≡ y) × (x ≡ c)
  combine_file-ok x y c h = require_same-ok SourceFile-discrete (conflicting_file y.id) x y c h

  combine_file-keeps : (x y c : SourceFile) → combine_file {B = B} x y ≡ ok c → c.id ≡ x.id
  combine_file-keeps x y c h = ap (λ f. f.id) (sym (combine_file-ok x y c h).1)

  -- Two file tables merge to a table of exactly their files.
  pub merge_files-union :
      (l r m : List SourceFile)
      → Increasing (λ f. f.id) l
      → Increasing (λ f. f.id) r
      → merge_files {B = B} l r ≡ ok m
      → Increasing (λ f. f.id) m
        × ((k : FileId) (f : SourceFile)
            → (find (λ f. f.id) k m ≡ some f)
              ↔ ((find (λ f. f.id) k l ≡ some f) ⊎ (find (λ f. f.id) k r ≡ some f)))
  unfolding merge_files
  merge_files-union l r m il ir h =
      union-exact (λ f. f.id) combine_file combine_file-ok l r m h il ir

  -- Two file tables that do not merge have different files under one identifier, and the error names
  -- such an identifier.
  pub merge_files-conflict :
      (l r : List SourceFile) (e : ComposeError B)
      → Increasing (λ f. f.id) l
      → Increasing (λ f. f.id) r
      → merge_files l r ≡ err e
      → (x y : SourceFile) × (k : FileId) × (find (λ f. f.id) k l ≡ some x)
        × (find (λ f. f.id) k r ≡ some y)
        × (x ≢ y)
        × (e ≡ conflicting_file k)
  unfolding merge_files
  merge_files-conflict l r e il ir h =
      let (k, x, y, p, q, c) =
        union-err (λ f. f.id) combine_file combine_file-keeps l r e h il ir in
      let (n, w) = require_same-err SourceFile-discrete (conflicting_file y.id) x y e c in
      (x, y, k, p, q, n, w ∙ ap conflicting_file (find-key (λ f. f.id) k r y q))
