-- ===== src/Contract/Compose/Tests.antt =====
-- The theorems on src/contract/compose.rs at concrete packages.
use parc.Prelude.{ℕ, ◌≡◌, ◌≢◌, ◌⊎◌, ◌↔◌, refl, true, false, List, [], ◌∷◌, none, some, arith}
use mathlib.Core.List.{Memᴰ}
use parc.Prelude.Text.{bytes}
use parc.Prelude.Order.{to_set, insert_all, insert_set, compare_list}
use parc.Contract.Checked.{Checked, ok, err}
use parc.Contract.Selection.{DeclarationId, only, member}
use parc.Contract.Diagnostics.{
  SourceFile, SourceFileRole, SourceRange, SupportStatus, SourceDiagnostic, CompletenessReason,
  complete, rejected, DiagnosticCompletenessImpact, DiagnosticStage, Severity,
}
use parc.Contract.Types.{
  TypeQualifiers, Nullability, CType, CTypeKind, ctype, void, pointer, alias_ref, record_ref,
}
use parc.Contract.Declarations.{
  SourceDeclaration, DeclarationOccurrence, named, EntityNamespace, EntityScope, Linkage,
  Visibility, StorageClass, SourceOrigin, type_alias,
}
use parc.Contract.Package.{
  SourcePackageInput, PreprocessorIdentity, EnvironmentInputs, declaration_in,
}
use parc.Contract.Compose.Closure.{
  Closed, closure_loop, reference_count, declaration_closure, enqueue_all,
  enqueue_declaration_references, enqueue_type_references,
}
use parc.Contract.Compose.Closure.Reach.{Reach, declaration_closure-ends, declaration_closure-Reach}
use parc.Contract.Compose.Reason.{completeness_from_diagnostics, forcing_reasons}
use parc.Contract.Compose.Reason.Forced.{
  Rejects, Forces, reasons_in, completeness_from_diagnostics-Forces,
}
use parc.Contract.Compose.Union.{find, add, add_all, union}
use parc.Contract.Compose.Union.Tables.{Increasing}
use parc.Contract.Compose.Merge.{
  ComposeError, conflicting_file, conflicting_declaration, merge_files, merge_occurrences,
  combine_declaration, merge_declarations,
}
use native.Mathlib.Decide.{ℕ_discrete}
use parc.Contract.Compose.Equal.{
  SourceFile-discrete, DeclarationIdentity-discrete, name-discrete, Linkage-discrete,
  Visibility-discrete, SupportStatus-discrete, SourceDeclarationKind-discrete,
  DeclarationOccurrence-discrete,
}
use parc.Contract.Compose.Merge.Files.{merge_files-union, merge_files-conflict}
use parc.Contract.Compose.Merge.Declarations.{
  IsTable, Occurs, Clash, merge_declarations_comm, merge_declarations-Occurs,
  merge_declarations-Clash,
}
use parc.Contract.Compose.Retain.{selected_roots, retain}
use parc.Contract.Compose.Retain.Contained.{Retained, retain-Retained}

abbrev plain : TypeQualifiers
plain = record { is_const = false; is_volatile = false; is_restrict = false; is_atomic = false }

abbrev of_kind : CTypeKind → CType
of_kind k = ctype plain Nullability.unspecified k SupportStatus.supported

abbrev at : ℕ → SourceRange
at n = record { file = 7; start = n; end = n }

abbrev occurrence : ℕ → ℕ → DeclarationOccurrence
occurrence id n = record {
  id = id;
  range = at n;
  name_range = none;
  spelling = bytes "typedef";
  normalized_tokens = [];
  duplicate_ordinal = 0;
  storage = StorageClass.typedef;
  is_definition = true;
  attributes = [];
  provenance = record { origin = SourceOrigin.entry; include_chain = []; macro_expansions = [] };
}

-- An alias of a type, which occurs at the given identifiers.
abbrev alias : DeclarationId → CType → List DeclarationOccurrence → SourceDeclaration
alias id target os = record {
  id = id;
  identity = named EntityNamespace.ordinary EntityScope.translation_unit (bytes "t");
  name = none;
  linkage = Linkage.none;
  visibility = Visibility.unspecified;
  occurrences = os;
  support = SupportStatus.supported;
  kind = type_alias (record { target = target });
}

-- 1 → 2 ↔ 3, and 4 → 9, which is not declared.
abbrev declared : List SourceDeclaration
declared =
    alias 1 (of_kind (pointer (of_kind (alias_ref 2)))) []
    ∷ alias 2 (of_kind (pointer (of_kind (alias_ref 3)))) []
    ∷ alias 3 (of_kind (pointer (of_kind (alias_ref 2)))) []
    ∷ alias 4 (of_kind (record_ref 9)) []
    ∷ []

closure-declared :
    (declaration_closure declared (1 ∷ []) ≡ some (ok (3 ∷ 2 ∷ 1 ∷ [])))
    × (declaration_closure declared (4 ∷ []) ≡ some (err 9))
unfolding declaration_closure closure_loop reference_count enqueue_all
    enqueue_declaration_references enqueue_type_references declaration_in member
closure-declared = (refl, refl)

declaration_closure-ends_example :
    (r : Closed) × (declaration_closure declared (1 ∷ 4 ∷ []) ≡ some r)
declaration_closure-ends_example = declaration_closure-ends declared (1 ∷ 4 ∷ [])

declaration_closure-Reach_example :
    ((member (3 ∷ 2 ∷ 1 ∷ []) 4 ≡ true) ↔ Reach declared (1 ∷ []) 4)
    × (member (3 ∷ 2 ∷ 1 ∷ []) 4 ≡ true
        → (d : SourceDeclaration) × (declaration_in declared 4 ≡ some d))
declaration_closure-Reach_example =
    declaration_closure-Reach declared (1 ∷ []) (3 ∷ 2 ∷ 1 ∷ []) closure-declared.0 4

abbrev whole : SourcePackageInput (Unit {0})
whole = record {
  target = tt;
  files = [];
  declarations = declared;
  macros = [];
  diagnostics = [];
  completeness = complete;
  inputs = record {
    entry_files = 7 ∷ [];
    include_search = [];
    define_events = [];
    forced_includes = [];
    preprocessor = PreprocessorIdentity.builtin (bytes "parc");
    environment = EnvironmentInputs.hermetic;
    path_mapping_fingerprint = 0;
  };
}

-- A construction that checks nothing.
abbrev accept : SourcePackageInput (Unit {0}) → Checked (Unit {0}) (SourcePackageInput (Unit {0}))
accept input = ok input

roots-only : selected_roots {B = Unit {0}} declared (only (1 ∷ [])) ≡ ok (1 ∷ [])
unfolding selected_roots
roots-only = refl

retain-Retained_example :
    (r : Checked (ComposeError (Unit {0})) (SourcePackageInput (Unit {0}))) × (retain accept whole
        (only (1 ∷ []))
      ≡ some r)
    × Retained accept whole (1 ∷ []) r
retain-Retained_example = retain-Retained accept whole (only (1 ∷ [])) (1 ∷ []) roots-only

abbrev file : ℕ → ℕ → SourceFile
file id size = record {
  id = id;
  logical_path = bytes "a.h";
  role = SourceFileRole.entry;
  content = 5;
  byte_len = size;
  line_starts = [];
}

abbrev by_id : SourceFile → ℕ
by_id f = f.id

abbrev left_files : List SourceFile
left_files = file 1 10 ∷ file 3 30 ∷ []

abbrev right_files : List SourceFile
right_files = file 2 20 ∷ file 3 30 ∷ []

abbrev other_files : List SourceFile
other_files = file 3 31 ∷ []

files-Increasing :
    Increasing by_id left_files × (Increasing by_id right_files × Increasing by_id other_files)
unfolding Increasing
files-Increasing = (((omega arith, tt), (tt, tt)), (((omega arith, tt), (tt, tt)), (tt, tt)))

merged-files :
    (merge_files {B = Unit {0}} left_files right_files
      ≡ ok (file 1 10 ∷ file 2 20 ∷ file 3 30 ∷ []))
    × (merge_files {B = Unit {0}} left_files other_files ≡ err (conflicting_file 3))
unfolding merge_files union add_all add SourceFile-discrete ℕ_discrete
merged-files = (refl, refl)

abbrev clash_of_tables : ComposeError (Unit {0})
clash_of_tables = conflicting_declaration 1

merge_files-union_example :
    Increasing by_id (file 1 10 ∷ file 2 20 ∷ file 3 30 ∷ [])
    × ((k : ℕ) (f : SourceFile)
        → (find by_id k (file 1 10 ∷ file 2 20 ∷ file 3 30 ∷ []) ≡ some f)
          ↔ ((find by_id k left_files ≡ some f) ⊎ (find by_id k right_files ≡ some f)))
merge_files-union_example =
    merge_files-union left_files right_files (file 1 10 ∷ file 2 20 ∷ file 3 30 ∷ [])
      files-Increasing.0 files-Increasing.1.0 merged-files.0

abbrev clash_of_files : ComposeError (Unit {0})
clash_of_files = conflicting_file 3

merge_files-conflict_example :
    (x y : SourceFile) × (k : ℕ) × (find by_id k left_files ≡ some x)
    × (find by_id k other_files ≡ some y)
    × (x ≢ y)
    × (clash_of_files ≡ conflicting_file k)
merge_files-conflict_example =
    merge_files-conflict left_files other_files clash_of_files files-Increasing.0
      files-Increasing.1.1 merged-files.1

abbrev left_table : List SourceDeclaration
left_table = alias 1 (of_kind void) (occurrence 5 50 ∷ []) ∷ []

abbrev right_table : List SourceDeclaration
right_table =
    alias 1 (of_kind void) (occurrence 4 40 ∷ occurrence 5 50 ∷ []) ∷ alias 2 (of_kind void) [] ∷ []

abbrev both_tables : List SourceDeclaration
both_tables =
    alias 1 (of_kind void) (occurrence 4 40 ∷ occurrence 5 50 ∷ []) ∷ alias 2 (of_kind void) [] ∷ []

abbrev clashing_table : List SourceDeclaration
clashing_table = alias 1 (of_kind void) (occurrence 5 51 ∷ []) ∷ []

tables-IsTable : IsTable left_table × (IsTable right_table × IsTable clashing_table)
unfolding Increasing
tables-IsTable = (
  ((tt, tt), ((tt, tt), tt)),
  (
    (((omega arith, tt), (tt, tt)), (((omega arith, tt), (tt, tt)), (tt, tt))),
    ((tt, tt), ((tt, tt), tt)),
  ),
)

merged-tables :
    (merge_declarations {B = Unit {0}} left_table right_table ≡ ok both_tables)
    × (merge_declarations {B = Unit {0}} left_table clashing_table
        ≡ err (conflicting_declaration 1))
unfolding merge_declarations combine_declaration merge_occurrences union add_all add
    DeclarationIdentity-discrete name-discrete Linkage-discrete Visibility-discrete
    SupportStatus-discrete SourceDeclarationKind-discrete DeclarationOccurrence-discrete ℕ_discrete
merged-tables = (refl, refl)

merge_declarations_comm_example :
    merge_declarations {B = Unit {0}} right_table left_table ≡ ok both_tables
merge_declarations_comm_example =
    merge_declarations_comm left_table right_table both_tables tables-IsTable.0 tables-IsTable.1.0
      merged-tables.0

merge_declarations-Occurs_example : Occurs (find (λ d. d.id) 1 both_tables) 4 (occurrence 4 40) ↔ (
    Occurs (find (λ d. d.id) 1 left_table) 4 (occurrence 4 40)
    ⊎ Occurs (find (λ d. d.id) 1 right_table) 4 (occurrence 4 40))
merge_declarations-Occurs_example =
    merge_declarations-Occurs left_table right_table both_tables tables-IsTable.0 tables-IsTable.1.0
      merged-tables.0 1 4 (occurrence 4 40)

merge_declarations-Clash_example :
    (k : DeclarationId) × (x y : SourceDeclaration) × (find (λ d. d.id) k left_table ≡ some x)
    × (find (λ d. d.id) k clashing_table ≡ some y)
    × Clash x y
    × (clash_of_tables ≡ conflicting_declaration k)
merge_declarations-Clash_example =
    merge_declarations-Clash left_table clashing_table (conflicting_declaration 1) tables-IsTable.0
      tables-IsTable.1.1 merged-tables.1

abbrev diagnostic : DiagnosticCompletenessImpact → SourceDiagnostic
diagnostic impact = record {
  code = bytes "PARC-E0001";
  stage = DiagnosticStage.parse;
  severity = Severity.error;
  completeness_impact = impact;
  message = bytes "m";
  range = none;
  related = [];
  declaration = none;
  target = 0;
}

abbrev reported : List SourceDiagnostic
reported =
    diagnostic DiagnosticCompletenessImpact.forces_rejected
    ∷ diagnostic DiagnosticCompletenessImpact.forces_partial
    ∷ []

abbrev reason : CompletenessReason
reason = record { code = bytes "PARC-E0001"; message = bytes "m"; range = none }

completeness-reported : completeness_from_diagnostics reported ≡ rejected (reason ∷ [])
unfolding completeness_from_diagnostics forcing_reasons to_set insert_all insert_set compare_list
completeness-reported = refl

completeness_from_diagnostics-Forces_example :
    let c = completeness_from_diagnostics reported in
    (((rs : List CompletenessReason) × (c ≡ rejected rs)) ↔ Rejects reported)
    × ((c ≡ complete) ↔ ((r : CompletenessReason) → ¬ Forces reported r))
    × ((r : CompletenessReason) → Memᴰ r (reasons_in c) ↔ Forces reported r)
completeness_from_diagnostics-Forces_example = completeness_from_diagnostics-Forces reported
