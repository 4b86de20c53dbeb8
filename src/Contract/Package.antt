-- ===== src/Contract/Package.antt =====
-- src/contract/package.rs and src/contract/inputs.rs: a source package, over the type `Target` of its
-- target description.
use parc.Prelude.{List, [], ◌∷◌, Option, none, some, ◌==◌, if◌then◌else◌}
use parc.Prelude.Text.{Text}
use parc.Contract.Selection.{DeclarationId}
use parc.Contract.Diagnostics.{FileId, Fingerprint, SourceFile, SourceDiagnostic, Completeness}
use parc.Contract.Declarations.{SourceDeclaration, SourceMacro}

pub data IncludeSearchKind : Type 0 where
  quote user system framework : IncludeSearchKind

pub record IncludeSearchEntry : Type 0 where
  pub logical_path : Text
  pub kind : IncludeSearchKind
  pub content : Option Fingerprint

pub data DefineEvent : Type 0 where
  define : Text → Option Text → DefineEvent
  undefine : Text → DefineEvent

pub data PreprocessorIdentity : Type 0 where
  builtin : Text → PreprocessorIdentity
  external : Text → Fingerprint → List Text → PreprocessorIdentity

pub record CapturedEnvironment : Type 0 where
  pub name : Text
  pub value_fingerprint : Fingerprint

pub data EnvironmentInputs : Type 0 where
  hermetic : EnvironmentInputs
  captured : List CapturedEnvironment → EnvironmentInputs

pub record EffectiveSourceInputs : Type 0 where
  pub entry_files : List FileId
  pub include_search : List IncludeSearchEntry
  pub define_events : List DefineEvent
  pub forced_includes : List FileId
  pub preprocessor : PreprocessorIdentity
  pub environment : EnvironmentInputs
  pub path_mapping_fingerprint : Fingerprint

-- `SourcePackageInput`: the fields of a package but for its schema and its fingerprint.
pub record SourcePackageInput (Target : Type 0) : Type 0 where
  pub target : Target
  pub files : List SourceFile
  pub inputs : EffectiveSourceInputs
  pub declarations : List SourceDeclaration
  pub macros : List SourceMacro
  pub diagnostics : List SourceDiagnostic
  pub completeness : Completeness

-- `SourcePackage::declaration`: a binary search in the declarations, which a checked package holds
-- in the order of their identifiers, each once.
unfoldable pub declaration_in : List SourceDeclaration → DeclarationId → Option SourceDeclaration
declaration_in [] id = none
declaration_in (d ∷ ds) id = let rest = declaration_in ds id in if d.id == id then some d else rest
