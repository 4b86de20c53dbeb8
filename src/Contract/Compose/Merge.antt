-- ===== src/Contract/Compose/Merge.antt =====
-- The merges of src/contract/compose.rs: of files, occurrences, declarations, macros and inputs.
pub mod Files
pub mod Same
pub mod Declarations
use Prim.Native.Nat.{compare}
use native.Mathlib.Decide.{ℕ_discrete}
use parc.Prelude.{ℕ, Bool, ◌&&◌, List, ◌++◌, if◌then◌else◌}
use parc.Prelude.Order.{same, to_set}
use parc.Prelude.Text.{Text, bytes}
use parc.Contract.Checked.{Checked, ok, err, ◌>>=◌}
use parc.Contract.Selection.{DeclarationId}
use parc.Contract.Diagnostics.{FileId, SourceFile}
use parc.Contract.Declarations.{
  SourceDeclaration, DeclarationOccurrence, SourceMacro, MacroOccurrence, MacroId,
}
use parc.Contract.Package.{EffectiveSourceInputs, SourcePackageInput}
use parc.Contract.Compose.Reason.{compare_diagnostic, completeness_from_diagnostics}
use parc.Contract.Compose.Union.{union}
use parc.Contract.Compose.Equal.{
  SourceFile-discrete, DeclarationIdentity-discrete, name-discrete, Linkage-discrete,
  Visibility-discrete, SupportStatus-discrete, SourceDeclarationKind-discrete,
  DeclarationOccurrence-discrete, MacroForm-discrete, MacroCategory-discrete, value-discrete,
  MacroOccurrence-discrete, Text-discrete, texts-discrete, numbers-discrete,
  include_search-discrete, define_events-discrete, PreprocessorIdentity-discrete,
  EnvironmentInputs-discrete,
}

-- `ComposeError`, over the errors `B` of the construction of a package.
pub data ComposeError (B : Type 0) : Type 0 where
  missing_declaration opaque_root_is_not_record : DeclarationId → ComposeError B
  incompatible_target : ComposeError B
  incompatible_source_inputs : Text → ComposeError B
  conflicting_file : FileId → ComposeError B
  conflicting_declaration : DeclarationId → ComposeError B
  conflicting_macro : MacroId → ComposeError B
  invalid_package : B → ComposeError B

-- An item with the key of another one must be equal to it.
abbrev pub require_same :
    {A B : Type 0} → Discrete A → ComposeError B → A → A → Checked (ComposeError B) A
require_same d conflict current item = if same d current item then ok current else err conflict

abbrev pub same_declaration : SourceDeclaration → SourceDeclaration → Bool
same_declaration a b =
    same DeclarationIdentity-discrete a.identity b.identity
    && (same name-discrete a.name b.name
        && (same Linkage-discrete a.linkage b.linkage
            && (same Visibility-discrete a.visibility b.visibility
                && (same SupportStatus-discrete a.support b.support
                    && same SourceDeclarationKind-discrete a.kind b.kind))))

abbrev pub same_macro : SourceMacro → SourceMacro → Bool
same_macro a b =
    same ℕ_discrete a.identity_file b.identity_file
    && (same Text-discrete a.name b.name
        && (same MacroForm-discrete a.form b.form
            && (same MacroCategory-discrete a.category b.category
                && (same Text-discrete a.body b.body
                    && (same texts-discrete a.normalized_tokens b.normalized_tokens
                        && (same value-discrete a.value b.value
                            && same SupportStatus-discrete a.support b.support))))))

module _ {B : Type 0} where
  abbrev pub combine_file : SourceFile → SourceFile → Checked (ComposeError B) SourceFile
  combine_file current file =
      require_same SourceFile-discrete (conflicting_file file.id) current file

  unfoldable pub merge_files :
      List SourceFile → List SourceFile → Checked (ComposeError B) (List SourceFile)
  merge_files left right = union (λ f. f.id) combine_file left right

  abbrev pub combine_occurrence :
      DeclarationId
      → DeclarationOccurrence
      → DeclarationOccurrence
      → Checked (ComposeError B) DeclarationOccurrence
  combine_occurrence id current occurrence =
      require_same DeclarationOccurrence-discrete (conflicting_declaration id) current occurrence

  unfoldable pub merge_occurrences :
      DeclarationId
      → List DeclarationOccurrence
      → List DeclarationOccurrence
      → Checked (ComposeError B) (List DeclarationOccurrence)
  merge_occurrences id left right = union (λ o. o.id) (combine_occurrence id) left right

  unfoldable pub combine_declaration :
      SourceDeclaration → SourceDeclaration → Checked (ComposeError B) SourceDeclaration
  combine_declaration current item =
      if same_declaration current item
      then (merge_occurrences item.id current.occurrences item.occurrences >>= λ os.
          ok (record current { occurrences = os }))
      else err (conflicting_declaration item.id)

  unfoldable pub merge_declarations :
      List SourceDeclaration
      → List SourceDeclaration
      → Checked (ComposeError B) (List SourceDeclaration)
  unfolding combine_declaration
  merge_declarations left right = union (λ d. d.id) combine_declaration left right

  abbrev pub combine_macro_occurrence :
      MacroId → MacroOccurrence → MacroOccurrence → Checked (ComposeError B) MacroOccurrence
  combine_macro_occurrence id current occurrence =
      require_same MacroOccurrence-discrete (conflicting_macro id) current occurrence

  unfoldable pub combine_macro : SourceMacro → SourceMacro → Checked (ComposeError B) SourceMacro
  combine_macro current item =
      if same_macro current item
      then (union (λ o. o.id) (combine_macro_occurrence item.id) current.occurrences
            item.occurrences
          >>= λ os. ok (record current { occurrences = os }))
      else err (conflicting_macro item.id)

  unfoldable pub merge_macros :
      List SourceMacro → List SourceMacro → Checked (ComposeError B) (List SourceMacro)
  unfolding combine_macro
  merge_macros left right = union (λ x. x.id) combine_macro left right

  abbrev require : Bool → Text → Checked (ComposeError B) (Unit {0})
  require equal field = if equal then ok tt else err (incompatible_source_inputs field)

  unfoldable pub merge_inputs :
      EffectiveSourceInputs → EffectiveSourceInputs → Checked (ComposeError B) EffectiveSourceInputs
  unfolding to_set
  merge_inputs a b =
      require (same include_search-discrete a.include_search b.include_search)
        (bytes "include_search")
      >>= λ _.
          require (same define_events-discrete a.define_events b.define_events)
            (bytes "define_events")
          >>= λ _.
              require (same numbers-discrete a.forced_includes b.forced_includes)
                (bytes "forced_includes")
              >>= λ _.
                  require (same PreprocessorIdentity-discrete a.preprocessor b.preprocessor)
                    (bytes "preprocessor")
                  >>= λ _.
                      require (same EnvironmentInputs-discrete a.environment b.environment)
                        (bytes "environment")
                      >>= λ _.
                          require
                            (same ℕ_discrete a.path_mapping_fingerprint b.path_mapping_fingerprint)
                            (bytes "path_mapping_fingerprint")
                          >>= λ _. ok (record a {
                            entry_files = to_set compare (a.entry_files ++ b.entry_files);
                          })

-- A package is built by `SourcePackage::try_new`, a parameter, which checks all of it.
module _ {Target B Package : Type 0} (try_new : SourcePackageInput Target → Checked B Package) where
  abbrev pub build : SourcePackageInput Target → Checked (ComposeError B) Package
  build input = elim (try_new input) [ ok p ↦ ok p | err e ↦ err (invalid_package e) ]

  -- The parts of the merge, once the targets are equal.
  unfoldable pub merged_input :
      SourcePackageInput Target
      → SourcePackageInput Target
      → Checked (ComposeError B) (SourcePackageInput Target)
  unfolding merge_inputs merge_files merge_declarations merge_macros to_set
      completeness_from_diagnostics
  merged_input left right =
      let diagnostics = to_set compare_diagnostic (left.diagnostics ++ right.diagnostics) in
      merge_inputs left.inputs right.inputs >>= λ inputs.
      merge_files left.files right.files >>= λ files.
      merge_declarations left.declarations right.declarations >>= λ declarations.
      merge_macros left.macros right.macros >>= λ macros. ok (record left {
        files = files;
        inputs = inputs;
        declarations = declarations;
        macros = macros;
        diagnostics = diagnostics;
        completeness = completeness_from_diagnostics diagnostics;
      })

  unfoldable pub merge :
      Discrete Target
      → SourcePackageInput Target
      → SourcePackageInput Target
      → Checked (ComposeError B) Package
  unfolding merged_input
  merge target left right =
      let merged = merged_input left right >>= build in
      if same target left.target right.target then merged else err incompatible_target
