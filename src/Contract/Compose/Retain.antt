-- ===== src/Contract/Compose/Retain.antt =====
-- `SourcePackage::retain` of src/contract/compose.rs.
pub mod Contained
use parc.Prelude.{Bool, true, false, ◌≡◌, List, [], ◌∷◌, Option, none, some, if◌then◌else◌}
use parc.Contract.Checked.{Checked, ok, err, ◌>>=◌}
use parc.Contract.Selection.{DeclarationId, Selection, all_supported, only, opaque_only, member}
use parc.Contract.Diagnostics.{SourceDiagnostic, is_supported}
use parc.Contract.Declarations.{SourceDeclaration, SourceDeclarationKind, record_}
use parc.Contract.Package.{SourcePackageInput, declaration_in}
use parc.Contract.Compose.Closure.{Closed, declaration_closure}
use parc.Contract.Compose.Reason.{completeness_from_diagnostics}
use parc.Contract.Compose.Merge.{
  ComposeError, missing_declaration, opaque_root_is_not_record, build,
}

unfoldable pub supported_ids : List SourceDeclaration → List DeclarationId
supported_ids [] = []
supported_ids (d ∷ ds) =
    let rest = supported_ids ds in if is_supported d.support then d.id ∷ rest else rest

abbrev is_record : SourceDeclarationKind → Bool
is_record (record_ _) = true
is_record _ = false

-- The test of one root of an opaque selection.
abbrev pub check_record :
    {B : Type 0} → DeclarationId → Option SourceDeclaration → Checked (ComposeError B) (Unit {0})
check_record id none = err (missing_declaration id)
check_record id (some d) = if is_record d.kind then ok tt else err (opaque_root_is_not_record id)

unfoldable pub check_records :
    {B : Type 0} → List SourceDeclaration → List DeclarationId → Checked (ComposeError B) (Unit {0})
unfolding declaration_in
check_records ds [] = ok tt
check_records ds (id ∷ ids) = check_record id (declaration_in ds id) >>= λ _. check_records ds ids

unfoldable pub selected_roots :
    {B : Type 0}
    → List SourceDeclaration
    → Selection
    → Checked (ComposeError B) (List DeclarationId)
unfolding supported_ids check_records
selected_roots ds all_supported = ok (supported_ids ds)
selected_roots ds (only ids) = ok ids
selected_roots ds (opaque_only ids) = check_records ds ids >>= λ _. ok ids

unfoldable pub keep_declarations :
    List DeclarationId → List SourceDeclaration → List SourceDeclaration
unfolding member
keep_declarations retained [] = []
keep_declarations retained (d ∷ ds) =
    let rest = keep_declarations retained ds in if member retained d.id then d ∷ rest else rest

-- `is_none_or`
abbrev pub is_kept : List DeclarationId → SourceDiagnostic → Bool
is_kept retained d = elim d.declaration [ none ↦ true | some id ↦ member retained id ]

unfoldable pub keep_diagnostics : List DeclarationId → List SourceDiagnostic → List SourceDiagnostic
unfolding member
keep_diagnostics retained [] = []
keep_diagnostics retained (d ∷ ds) =
    let rest = keep_diagnostics retained ds in if is_kept retained d then d ∷ rest else rest

-- The input that a package is built from.
unfoldable pub retained_input :
    {Target : Type 0} → SourcePackageInput Target → List DeclarationId → SourcePackageInput Target
unfolding keep_declarations keep_diagnostics completeness_from_diagnostics
retained_input source retained =
    let diagnostics = keep_diagnostics retained source.diagnostics in
    record source {
      declarations = keep_declarations retained source.declarations;
      diagnostics = diagnostics;
      completeness = completeness_from_diagnostics diagnostics;
    }

module _ {Target B Package : Type 0} (try_new : SourcePackageInput Target → Checked B Package) where
  abbrev pub finish :
      SourcePackageInput Target → Option Closed → Option (Checked (ComposeError B) Package)
  finish source none = none
  finish source (some (err id)) = some (err (missing_declaration id))
  finish source (some (ok retained)) = some (build try_new (retained_input source retained))

  abbrev pub project :
      SourcePackageInput Target
      → Checked (ComposeError B) (List DeclarationId)
      → Option (Checked (ComposeError B) Package)
  project source (err e) = some (err e)
  project source (ok roots) = finish source (declaration_closure source.declarations roots)

  -- None if the fuel of the closure is not enough.
  unfoldable pub retain :
      SourcePackageInput Target → Selection → Option (Checked (ComposeError B) Package)
  unfolding selected_roots retained_input declaration_closure
  retain source selection = project source (selected_roots source.declarations selection)
