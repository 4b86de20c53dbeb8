-- ===== src/Contract/Declarations.antt =====
-- src/contract/declarations.rs, src/contract/provenance.rs and src/contract/macros.rs, and
-- `ExactInteger` of src/contract/exact_integer.rs.
use parc.Prelude.{ℕ, Bool, List, Option}
use parc.Prelude.Int.{ℤ}
use parc.Prelude.Text.{Text}
use parc.Contract.Selection.{DeclarationId}
use parc.Contract.Diagnostics.{FileId, Fingerprint, DiagnosticCode, SupportStatus, SourceRange}
use parc.Contract.Types.{CType, CallingConvention, FunctionPrototype, SourceAttribute}

abbrev pub ChildId : Type 0
ChildId = ℕ

abbrev pub OccurrenceId : Type 0
OccurrenceId = ℕ

abbrev pub MacroId : Type 0
MacroId = ℕ

-- The number lies within `i128` or `u128`.
pub data ExactInteger : Type 0 where
  signed : ℤ → ExactInteger
  unsigned : ℕ → ExactInteger

pub data SourceOrigin : Type 0 where
  entry user_include system_include builtin generated : SourceOrigin

pub record IncludeSite : Type 0 where
  pub directive : SourceRange
  pub included : FileId

pub record MacroExpansion : Type 0 where
  pub macro_name : Text
  pub invocation : SourceRange
  pub definition : Option SourceRange

pub record SourceProvenance : Type 0 where
  pub origin : SourceOrigin
  pub include_chain : List IncludeSite
  pub macro_expansions : List MacroExpansion

pub data EntityNamespace : Type 0 where
  ordinary tag : EntityNamespace

pub data EntityScope : Type 0 where
  translation_unit : EntityScope
  file : FileId → EntityScope
  owner : DeclarationId → EntityScope

pub data DeclarationIdentity : Type 0 where
  named : EntityNamespace → EntityScope → Text → DeclarationIdentity
  anonymous : EntityScope → Fingerprint → ℕ → DeclarationIdentity

pub record SourceName : Type 0 where
  pub normalized : Text
  pub original : Text

pub data Linkage : Type 0 where
  external internal none : Linkage

pub data Visibility : Type 0 where
  unspecified explicit_default target_default hidden protected internal : Visibility

pub data StorageClass : Type 0 where
  none typedef extern static thread_local auto register : StorageClass

pub record DeclarationOccurrence : Type 0 where
  pub id : OccurrenceId
  pub range : SourceRange
  pub name_range : Option SourceRange
  pub spelling : Text
  pub normalized_tokens : List Text
  pub duplicate_ordinal : ℕ
  pub storage : StorageClass
  pub is_definition : Bool
  pub attributes : List SourceAttribute
  pub provenance : SourceProvenance

pub record SourceParameter : Type 0 where
  pub id : ChildId
  pub ordinal : ℕ
  pub name : Option SourceName
  pub ty : CType
  pub range : SourceRange
  pub provenance : SourceProvenance
  pub attributes : List SourceAttribute
  pub support : SupportStatus

pub record SourceFunction : Type 0 where
  pub link_name : Text
  pub return_type : CType
  pub parameters : List SourceParameter
  pub prototype : FunctionPrototype
  pub calling_convention : CallingConvention

pub data RecordKind : Type 0 where
  struct union : RecordKind

pub data RecordCompleteness : Type 0 where
  complete incomplete : RecordCompleteness

pub data BitWidth : Type 0 where
  known : ℕ → BitWidth
  expression : Text → BitWidth
  invalid : Text → DiagnosticCode → BitWidth

pub record SourceField : Type 0 where
  pub id : ChildId
  pub name : Option SourceName
  pub ty : CType
  pub bit_width : Option BitWidth
  pub range : SourceRange
  pub provenance : SourceProvenance
  pub attributes : List SourceAttribute
  pub support : SupportStatus
  pub identity_tokens : List Text
  pub duplicate_ordinal : ℕ

pub record SourceRecord : Type 0 where
  pub kind : RecordKind
  pub completeness : RecordCompleteness
  pub fields : List SourceField
  pub alignment_bytes : Option ℕ
  pub packing_bytes : Option ℕ

pub data EnumValue : Type 0 where
  evaluated : ExactInteger → EnumValue
  unevaluated : Text → EnumValue

pub record SourceEnumVariant : Type 0 where
  pub id : ChildId
  pub name : SourceName
  pub value : EnumValue
  pub range : SourceRange
  pub provenance : SourceProvenance
  pub attributes : List SourceAttribute
  pub support : SupportStatus
  pub identity_tokens : List Text
  pub duplicate_ordinal : ℕ

pub record SourceEnum : Type 0 where
  pub explicit_underlying_type : Option CType
  pub variants : List SourceEnumVariant

pub record SourceTypeAlias : Type 0 where
  pub target : CType

pub record SourceVariable : Type 0 where
  pub link_name : Text
  pub ty : CType
  pub is_thread_local : Bool

pub data UnsupportedDeclarationCategory : Type 0 where
  static_assertion inline_assembly compiler_builtin : UnsupportedDeclarationCategory
  unsupported_extension invalid_declaration : UnsupportedDeclarationCategory

pub record SourceUnsupported : Type 0 where
  pub category : UnsupportedDeclarationCategory
  pub spelling : Text
  pub diagnostic : DiagnosticCode

pub data SourceDeclarationKind : Type 0 where
  function : SourceFunction → SourceDeclarationKind
  record_ : SourceRecord → SourceDeclarationKind
  enum : SourceEnum → SourceDeclarationKind
  type_alias : SourceTypeAlias → SourceDeclarationKind
  variable : SourceVariable → SourceDeclarationKind
  unsupported : SourceUnsupported → SourceDeclarationKind

pub record SourceDeclaration : Type 0 where
  pub id : DeclarationId
  pub identity : DeclarationIdentity
  pub name : Option SourceName
  pub linkage : Linkage
  pub visibility : Visibility
  pub occurrences : List DeclarationOccurrence
  pub support : SupportStatus
  pub kind : SourceDeclarationKind

pub data MacroForm : Type 0 where
  object_like function_like : MacroForm

pub data MacroCategory : Type 0 where
  bindable_constant configuration_flag abi_affecting unsupported : MacroCategory

pub data MacroValue : Type 0 where
  integer : ExactInteger → MacroValue
  string : Text → MacroValue
  tokens : List Text → MacroValue

pub record MacroOccurrence : Type 0 where
  pub id : OccurrenceId
  pub range : SourceRange
  pub normalized_tokens : List Text
  pub duplicate_ordinal : ℕ
  pub provenance : SourceProvenance

pub record SourceMacro : Type 0 where
  pub id : MacroId
  pub identity_file : FileId
  pub name : Text
  pub form : MacroForm
  pub category : MacroCategory
  pub body : Text
  pub normalized_tokens : List Text
  pub value : Option MacroValue
  pub occurrences : List MacroOccurrence
  pub support : SupportStatus
