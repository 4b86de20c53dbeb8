-- ===== src/Contract/Complete/Tests.antt =====
-- The theorems on src/contract/complete.rs at a concrete package.
use parc.Prelude.{ℕ, ◌≡◌, refl, false, List, [], ◌∷◌, none, some}
use parc.Prelude.Order.{compare_list}
use parc.Prelude.Text.{Text, bytes}
use parc.Contract.Checked.{Checked, ok, err}
use parc.Contract.Selection.{only}
use parc.Contract.Diagnostics.{SupportStatus, complete}
use parc.Contract.Types.{Nullability, CType, CTypeKind, ctype, pointer, record_ref}
use parc.Contract.Declarations.{
  SourceDeclaration, SourceDeclarationKind, named, EntityNamespace, EntityScope, Linkage,
  Visibility, RecordKind, RecordCompleteness, type_alias, record_,
}
use parc.Contract.Package.{
  SourcePackageInput, PreprocessorIdentity, EnvironmentInputs, declaration_in,
}
use parc.Contract.Compose.Closure.{
  enqueue_all, enqueue_declaration_references, enqueue_type_references,
}
use parc.Contract.Complete.{
  CompleteSourcePackage, opaque_, definition_, into_complete, package_blockers, attributed,
  package_scoped, needed_roots, with_need, enqueue_roots, visit_entry, visit_loop, all_references,
  root_ids, askable, completion_fuel, closure_entries,
}
use parc.Contract.Complete.Blockers.{sort_blockers, insert_blocker, dedup, dedup_after}
use parc.Contract.Complete.Fuel.{into_complete-ends}
use parc.Contract.Complete.Proved.{Proved, into_complete-Proved}
use parc.Contract.Complete.Visit.{
  CompletionBlocker, incomplete_record, need_of, set_need, enqueue, visit_type, reject_attributes,
  reject_occurrences, reject_part, visit_fields, visit_declaration_kind,
  validate_declaration_closure,
}

abbrev of_kind : CTypeKind → CType
of_kind k =
    ctype (record { is_const = false; is_volatile = false; is_restrict = false; is_atomic = false })
      Nullability.unspecified k SupportStatus.supported

abbrev declared_as : ℕ → SourceDeclarationKind → SourceDeclaration
declared_as id kind = record {
  id = id;
  identity = named EntityNamespace.ordinary EntityScope.translation_unit (bytes "t");
  name = none;
  linkage = Linkage.none;
  visibility = Visibility.unspecified;
  occurrences = [];
  support = SupportStatus.supported;
  kind = kind;
}

-- 1 points to the record 2, which 3 holds, and which has no definition.
abbrev source : SourcePackageInput (Unit {0})
source = record {
  target = tt;
  files = [];
  macros = [];
  diagnostics = [];
  completeness = complete;
  declarations =
      declared_as 1 (type_alias (record { target = of_kind (pointer (of_kind (record_ref 2))) }))
      ∷ declared_as 2 (
          record_ (record {
            kind = RecordKind.struct;
            completeness = RecordCompleteness.incomplete;
            fields = [];
            alignment_bytes = none;
            packing_bytes = none;
          }))
      ∷ declared_as 3 (type_alias (record { target = of_kind (record_ref 2) }))
      ∷ [];
  inputs = record {
    entry_files = [];
    include_search = [];
    define_events = [];
    forced_includes = [];
    preprocessor = PreprocessorIdentity.builtin (bytes "parc");
    environment = EnvironmentInputs.hermetic;
    path_mapping_fingerprint = 0;
  };
}

abbrev shown : CompletionBlocker → Text
shown b = []

abbrev of_pointer : CompleteSourcePackage (Unit {0})
of_pointer = record {
  source = source;
  selection = only (1 ∷ []);
  declaration_closure =
      record { declaration = 1; requirement = definition_ }
      ∷ record { declaration = 2; requirement = opaque_ }
      ∷ [];
}

complete-pointer :
    (into_complete shown source (only (1 ∷ [])) ≡ some (ok of_pointer))
    × (into_complete shown source (only (1 ∷ 3 ∷ [])) ≡ some (err (incomplete_record 2 ∷ [])))
unfolding into_complete package_blockers attributed package_scoped needed_roots with_need
    enqueue_roots visit_entry visit_loop all_references root_ids askable completion_fuel
    sort_blockers insert_blocker dedup dedup_after closure_entries need_of set_need enqueue
    visit_type reject_attributes reject_occurrences reject_part visit_fields visit_declaration_kind
    validate_declaration_closure declaration_in enqueue_all enqueue_declaration_references
    enqueue_type_references compare_list
complete-pointer = (refl, refl)

into_complete-Proved_example : Proved source (only (1 ∷ [])) of_pointer
into_complete-Proved_example =
    into_complete-Proved shown source (only (1 ∷ [])) of_pointer complete-pointer.0

into_complete-ends_example :
    (r : Checked (List CompletionBlocker) (CompleteSourcePackage (Unit {0}))) × (into_complete shown
        source
        (only (1 ∷ 3 ∷ []))
      ≡ some r)
into_complete-ends_example = into_complete-ends shown source (only (1 ∷ 3 ∷ []))
